-- ===== src/Mbuf/Adj.antt =====
-- What `m_adj` of generic/kern/uipc_mbuf.c does to the bytes of a chain.
use anp.Prelude.{
  ℕ, suc, ◌+◌, ◌-◌, ◌≤◌, ◌≡◌, refl, List, [], ◌∷◌, arith, take, drop, leb, ◌==◌, map, Bool-cases,
  inl, inr, ap, ◌∙◌, leb→le, ==_iff, drop-append_left, drop-append_right, take-append_left,
  take-append_right, take-nil, drop-nil, append-nil,
}
use anp.Prelude.Int.{ℤ, pos, negsuc, ◌-ℤ◌}
use anp.Mbuf.Chain.{Mbuf, m_len, bytes_of, total}
use anp.Mbuf.Trim.{
  no_data, trim_head, shorten, set_len, truncate, shorten_last, last_len, trim_tail, m_adj,
}

bytes_of-shorten : (n : ℤ) (ms : List Mbuf) → bytes_of (shorten n ms) ≡ bytes_of ms
bytes_of-shorten n [] = refl
bytes_of-shorten n (m ∷ ms) = ground arith

bytes_of-set_len : (n : ℕ) (ms : List Mbuf) → bytes_of (set_len n ms) ≡ bytes_of ms
bytes_of-set_len n [] = refl
bytes_of-set_len n (m ∷ ms) = ground arith

bytes_of-no_data : (ms : List Mbuf) → bytes_of (map no_data ms) ≡ []
bytes_of-no_data [] = refl
bytes_of-no_data (m ∷ ms) = bytes_of-no_data ms

trim_head-bytes_of :
    (ms : List Mbuf) (n : ℕ)
    → (bytes_of (trim_head ms n).0 ≡ drop n (bytes_of ms)) × ((trim_head ms n).1 ≡ n - total ms)
unfolding trim_head
trim_head-bytes_of [] n = (rw drop-nil, omega arith)
trim_head-bytes_of (m ∷ ms) n = elim (Bool-cases (n == 0)) [
  | inl z ↦ let e : n ≡ 0 = (==_iff n 0).0 z in rw (z, e) (refl, omega arith)
  | inr nz ↦ elim (Bool-cases (leb (m_len m) n)) [
    | inl all ↦
        let h = leb→le (m_len m) n all in
        let (b, l) = trim_head-bytes_of ms (n - m_len m) in
        rw (nz, all, drop-append_right n m.contents (bytes_of ms) h, b) (refl, omega (arith, l))
    | inr part ↦
        let h : n ≤ m_len m = ground arith in
        rw (nz, part, drop-append_left n m.contents (bytes_of ms) h) (refl, omega arith)
  ]
]

truncate-bytes_of : (n : ℕ) (ms : List Mbuf) → bytes_of (truncate n ms) ≡ take n (bytes_of ms)
unfolding truncate
truncate-bytes_of n [] = rw take-nil
truncate-bytes_of n (m ∷ ms) = elim (Bool-cases (leb n (m_len m))) [
  | inl here ↦ rw (
    here,
    bytes_of-no_data ms,
    append-nil,
    take-append_left n m.contents (bytes_of ms) (leb→le n (m_len m) here),
  )
  | inr on ↦ rw (
    on,
    truncate-bytes_of (n - m_len m) ms,
    take-append_right n m.contents (bytes_of ms) (ground arith),
  )
]

last_len-le : (m : Mbuf) (ms : List Mbuf) → last_len (m ∷ ms) ≤ total (m ∷ ms)
unfolding last_len
last_len-le m [] = omega arith
last_len-le m (m' ∷ ms) = omega (arith, last_len-le m' ms)

shorten_last-bytes_of :
    (n : ℕ) (ms : List Mbuf)
    → n ≤ last_len ms
    → bytes_of (shorten_last n ms) ≡ take (total ms - n) (bytes_of ms)
unfolding shorten_last last_len
shorten_last-bytes_of n [] h = rw take-nil
shorten_last-bytes_of n (m ∷ []) h =
    let t : total (m ∷ []) ≡ m_len m = omega arith in
    rw (append-nil, append-nil) (ap (λ k. take (k - n) m.contents) (omega arith))
shorten_last-bytes_of n (m ∷ m' ∷ ms) h =
    let t : m_len m ≤ m_len m + (m_len m' + total ms) - n = omega (arith, last_len-le m' ms) in
    let e : m_len m + (m_len m' + total ms) - n - m_len m ≡ m_len m' + total ms - n = omega arith in
    rw (
      take-append_right (m_len m + (m_len m' + total ms) - n) m.contents (bytes_of (m' ∷ ms)) t,
      e,
      shorten_last-bytes_of n (m' ∷ ms) h,
    )

total-set_len : (n : ℕ) (ms : List Mbuf) → total (set_len n ms) ≡ total ms
total-set_len n [] = refl
total-set_len n (m ∷ ms) = ground arith

trim_tail-bytes_of :
    (ms : List Mbuf) (n : ℕ) → bytes_of (trim_tail ms n) ≡ take (total ms - n) (bytes_of ms)
unfolding trim_tail
trim_tail-bytes_of ms n = elim (Bool-cases (leb n (last_len ms))) [
  | inl one ↦
      rw (one, bytes_of-shorten (pos n) (shorten_last n ms))
        (shorten_last-bytes_of n ms (leb→le n (last_len ms) one))
  | inr more ↦ rw (
    more,
    truncate-bytes_of (total ms - n) (set_len (total ms - n) ms),
    bytes_of-set_len (total ms - n) ms,
  )
]

-- `m_adj` by a length that is not negative drops that many bytes from the front of the chain, and
-- by a negative one that many from the end; all bytes, where the chain has fewer.
pub m_adj-bytes_of :
    (ms : List Mbuf) (n : ℕ)
    → (bytes_of (m_adj ms (pos n)) ≡ drop n (bytes_of ms))
      × (bytes_of (m_adj ms (negsuc n)) ≡ take (total ms - suc n) (bytes_of ms))
unfolding m_adj
m_adj-bytes_of ms n =
    let (b, l) = trim_head-bytes_of ms n in
    (
      bytes_of-shorten (pos n -ℤ pos (trim_head ms n).1) (trim_head ms n).0 ∙ b,
      trim_tail-bytes_of ms (suc n),
    )
