-- ===== src/Mbuf/Copied.antt =====
-- What `m_copym` of generic/kern/uipc_mbuf.c copies.
use Prim.Native.Nat.{min}
use native.Mathlib.Decide.{dec_le}
use anp.Prelude.{
  ℕ, ◌+◌, ◌-◌, ◌≤◌, ◌<◌, ◌≡◌, refl, Bool, true, false, ◌&&◌, Option, none, some, List, [], ◌∷◌,
  ◌++◌, arith, length, take, drop, ◌==◌, Bool-cases, inl, inr, append-nil, sym, take-append_left,
  take-append_right, drop-append_left, length-drop, take_all, ==_iff, ◌≢◌, ◌⊎◌,
}
use mathlib.Core.Bool.{false≢true}
use anp.Mbuf.Chain.{Mbuf, m_len, bytes_of, total}
use anp.Mbuf.Copy.{Within, Within-zero, skip_lem, skip_past}
use anp.Mbuf.Build.{
  Built, chain, null, panic, copy_mbuf, shorter, cons_chain, top_of, done, less, copy_chain,
  m_copym, has_header,
}

-- The bytes that a length asks for: `none` is `M_COPYALL`.
abbrev pub wanted : Option ℕ → List ℕ → List ℕ
wanted none bytes = bytes
wanted (some len) bytes = take len bytes

-- The chain is too short for a length.
abbrev pub TooShort : Option ℕ → List Mbuf → ℕ → Type 0
TooShort none ms off = total ms < off
TooShort (some len) ms off = total ms < off + len

-- The chain has the bytes of a length.
abbrev pub Enough : Option ℕ → List Mbuf → ℕ → Type 0
Enough none ms off = off ≤ total ms
Enough (some len) ms off = off + len ≤ total ms

-- What the loop copies, an empty chain included.
abbrev Copies : List Mbuf → ℕ → Option ℕ → ℕ → Built → Type 0
Copies ms off len mbufs (chain ns) =
    (bytes_of ns ≡ wanted len (drop off (bytes_of ms))) × Enough len ms off
Copies ms off len mbufs null = mbufs < length ms
Copies ms off len mbufs panic = TooShort len ms off

-- A copy has the bytes asked for, which the chain has. It fails only for want of mbufs or where no
-- bytes are asked for, and panics only if the chain is too short.
abbrev pub IsCopy : List Mbuf → ℕ → Option ℕ → ℕ → Built → Type 0
IsCopy ms off len mbufs (chain ns) =
    (ns ≢ []) × (bytes_of ns ≡ wanted len (drop off (bytes_of ms))) × Enough len ms off
IsCopy ms off len mbufs null =
    (mbufs < length ms) ⊎ ((wanted len (drop off (bytes_of ms)) ≡ []) × Enough len ms off)
IsCopy ms off len mbufs panic = TooShort len ms off

top_of-IsCopy :
    (ms : List Mbuf) (off : ℕ) (len : Option ℕ) (mbufs : ℕ) (r : Built)
    → Copies ms off len mbufs r
    → IsCopy ms off len mbufs (top_of r)
top_of-IsCopy ms off len mbufs (chain []) (e, h) = inr (sym e, h)
top_of-IsCopy ms off len mbufs (chain (n ∷ ns)) (e, h) = ((λ z. absurd cc), e, h)
top_of-IsCopy ms off len mbufs null h = inl h
top_of-IsCopy ms off len mbufs panic h = h

take-min :
    (k n : ℕ) (xs ys : List ℕ)
    → length xs ≡ n
    → take (min k n) xs ++ take (k - min k n) ys ≡ take k (xs ++ ys)
take-min k n xs ys h = elim (dec_le k n) [
  | yes le ↦
      let e : min k n ≡ k = omega arith in
      let z : k - k ≡ 0 = omega arith in
      rw (e, z, append-nil) (sym (take-append_left k xs ys (omega arith)))
  | no gt ↦
      let e : min k n ≡ n = omega arith in
      rw (e, take_all n xs (omega arith), take-append_right k xs ys (omega arith), h)
]

copied :
    (m : Mbuf) (ms : List Mbuf) (off : ℕ) (len : Option ℕ) (bs : List ℕ)
    → off ≤ m_len m
    → bs ≡ wanted (less len (m_len m - off)) (bytes_of ms)
    → take (shorter len (m_len m - off)) (drop off m.contents) ++ bs
      ≡ wanted len (drop off (bytes_of (m ∷ ms)))
copied m ms off none bs h e = rw (
  e,
  take_all (m_len m - off) (drop off m.contents) (omega (arith, length-drop off m.contents)),
  drop-append_left off m.contents (bytes_of ms) h,
)
copied m ms off (some k) bs h e =
    rw (e, drop-append_left off m.contents (bytes_of ms) h)
      (take-min k (m_len m - off) (drop off m.contents) (bytes_of ms) (length-drop off m.contents))

copy_mbuf-contents :
    (copyhdr : Bool) (len : Option ℕ) (off0 off : ℕ) (m : Mbuf)
    → (copy_mbuf copyhdr len off0 off m).contents
      ≡ take (shorter len (m_len m - off)) (drop off m.contents)
unfolding copy_mbuf
copy_mbuf-contents copyhdr len off0 off m = refl

cons_chain-Copies :
    (n m : Mbuf) (ms : List Mbuf) (off : ℕ) (len : Option ℕ) (mbufs : ℕ) (r : Built)
    → off ≤ m_len m
    → n.contents ≡ take (shorter len (m_len m - off)) (drop off m.contents)
    → mbufs ≢ 0
    → Copies ms 0 (less len (m_len m - off)) (mbufs - 1) r
    → Copies (m ∷ ms) off len mbufs (cons_chain n r)
cons_chain-Copies n m ms off none mbufs (chain ns) h e some_left (c, k) =
    (rw e (copied m ms off none (bytes_of ns) h c), omega arith)
cons_chain-Copies n m ms off (some l) mbufs (chain ns) h e some_left (c, k) =
    (rw e (copied m ms off (some l) (bytes_of ns) h c), omega arith)
cons_chain-Copies n m ms off len mbufs null h e some_left c = omega arith
cons_chain-Copies n m ms off none mbufs panic h e some_left c = absurd (omega arith)
cons_chain-Copies n m ms off (some k) mbufs panic h e some_left c = omega arith

nothing_wanted : (len : Option ℕ) (bs : List ℕ) → done len ≡ true → wanted len bs ≡ []
nothing_wanted none bs over = absurd (false≢true over)
nothing_wanted (some k) bs over = let e : k ≡ 0 = (==_iff k 0).0 over in rw e

nothing_more :
    (len : Option ℕ) (off : ℕ) (m : Mbuf) (ms : List Mbuf)
    → done len ≡ true
    → off ≤ m_len m
    → Enough len (m ∷ ms) off
nothing_more none off m ms over w = omega arith
nothing_more (some k) off m ms over w = let e : k ≡ 0 = (==_iff k 0).0 over in omega arith

-- The bytes from where the search stopped are the bytes from `off`.
skipped-Copies :
    (ms ms' : List Mbuf) (off off' : ℕ) (len : Option ℕ) (mbufs : ℕ) (r : Built)
    → drop off' (bytes_of ms') ≡ drop off (bytes_of ms)
    → total ms' + off ≡ total ms + off'
    → length ms' ≤ length ms
    → Copies ms' off' len mbufs r
    → Copies ms off len mbufs r
skipped-Copies ms ms' off off' none mbufs (chain ns) d t l (c, k) = (rw (← d) c, omega arith)
skipped-Copies ms ms' off off' (some n) mbufs (chain ns) d t l (c, k) = (rw (← d) c, omega arith)
skipped-Copies ms ms' off off' len mbufs null d t l c = omega arith
skipped-Copies ms ms' off off' none mbufs panic d t l c = omega arith
skipped-Copies ms ms' off off' (some k) mbufs panic d t l c = omega arith

copy_chain-Copies :
    (ms : List Mbuf) (mbufs : ℕ) (copyhdr : Bool) (len : Option ℕ) (off0 off : ℕ)
    → Within ms off
    → Copies ms off len mbufs (copy_chain mbufs copyhdr len off0 off ms)
unfolding copy_chain
copy_chain-Copies [] mbufs copyhdr none off0 off w = rw w (refl, omega arith)
copy_chain-Copies [] mbufs copyhdr (some k) off0 off w = elim (Bool-cases (k == 0)) [
  | inl z ↦ let e : k ≡ 0 = (==_iff k 0).0 z in rw (z, e, w) (refl, omega arith)
  | inr nz ↦ rw nz (ground arith)
]
copy_chain-Copies (m ∷ ms) mbufs copyhdr len off0 off w = elim (Bool-cases (done len)) [
  | inl over ↦ rw over (
    sym (nothing_wanted len (drop off (bytes_of (m ∷ ms))) over),
    nothing_more len off m ms over w,
  )
  | inr more ↦ elim (Bool-cases (mbufs == 0)) [
    | inl out ↦ let e : mbufs ≡ 0 = (==_iff mbufs 0).0 out in rw (more, out) (omega arith)
    | inr left ↦
        let ih =
          copy_chain-Copies ms (mbufs - 1) false (less len (m_len m - off)) off0 0
            (Within-zero ms) in
        rw (more, left)
          (cons_chain-Copies (copy_mbuf copyhdr len off0 off m) m ms off len mbufs _ w
            (copy_mbuf-contents copyhdr len off0 off m) (ground arith) ih)
  ]
]

-- `m_copym` gives a chain of the bytes asked for, which the given chain has: `len` bytes from byte
-- `off0` on, or for `M_COPYALL` all bytes from there. It gives null only where there are fewer
-- mbufs left than the chain has, or where no bytes are asked for, and panics only where the chain
-- is too short.
pub m_copym-IsCopy :
    (mbufs : ℕ) (ms : List Mbuf) (off0 : ℕ) (len : Option ℕ)
    → IsCopy ms off0 len mbufs (m_copym mbufs ms off0 len)
unfolding m_copym
m_copym-IsCopy mbufs ms off0 len = elim (dec_le off0 (total ms)) [
  | yes h ↦
      let (ms', off', e, w, d, t, l) = skip_lem ms off0 h in
      let c = copy_chain-Copies ms' mbufs (off0 == 0 && has_header ms) len off0 off' w in
      rw (m_copym, e)
        (top_of-IsCopy ms off0 len mbufs _ (skipped-Copies ms ms' off0 off' len mbufs _ d t l c))
  | no h ↦ rw (m_copym, skip_past ms off0 (omega arith)) (ground arith)
]
