-- ===== src/Mbuf/Located.antt =====
-- What the loop of `m_split` of generic/kern/uipc_mbuf.c finds.
use anp.Prelude.{
  ℕ, ◌+◌, ◌-◌, ◌≤◌, ◌<◌, ◌≡◌, ◌⊎◌, refl, false, Option, none, some, List, [], ◌∷◌, ◌++◌, arith,
  take, drop, ltb, Bool-cases, inl, inr, length, append_assoc, sym, ap, ◌∙◌, take-append_left,
  take-append_right, drop-append_left, drop-append_right,
}
use anp.Mbuf.Chain.{Mbuf, m_len, is_ext, mlen, bytes_of, total, Fits, start_of_data}
use anp.Mbuf.Split.{locate}

-- One mbuf stays inside its storage.
abbrev pub FitsOne : Mbuf → Type 0
FitsOne m = is_ext m ≡ false → (start_of_data m ≤ m.offset) × (m.offset + m_len m ≤ mlen)

-- What the loop of `m_split` finds.
abbrev pub Located : List Mbuf → ℕ → Option (List Mbuf × Mbuf × List Mbuf × ℕ) → Type 0
Located ms len none = (ms ≡ []) ⊎ (total ms < len)
Located ms len (some (front, m, back, left)) =
    (bytes_of ms ≡ bytes_of front ++ (m.contents ++ bytes_of back))
    × (len ≡ total front + left)
    × (left ≤ m_len m)
    × FitsOne m
    × (ms ≡ front ++ (m ∷ back))

Located-cons :
    (m : Mbuf) (ms : List Mbuf) (len : ℕ) (r : Option (List Mbuf × Mbuf × List Mbuf × ℕ))
    → m_len m < len
    → Located ms (len - m_len m) r
    → Located
        (m ∷ ms)
        len
        (elim r [ none ↦ none | some (front, n, back, left) ↦ some (m ∷ front, n, back, left) ])
Located-cons m ms len none h (inl e) = inr (rw e (omega arith))
Located-cons m ms len none h (inr l) = inr (omega arith)
Located-cons m ms len (some (front, n, back, left)) h (b, l, i, f, w) = (
  ap (λ bs. m.contents ++ bs) b
      ∙ sym (append_assoc m.contents (bytes_of front) (n.contents ++ bytes_of back)),
  omega arith,
  i,
  f,
  ap (λ ns. m ∷ ns) w,
)

pub locate-Located : (ms : List Mbuf) (len : ℕ) → Fits ms → Located ms len (locate ms len)
unfolding locate
locate-Located [] len f = inl refl
locate-Located (m ∷ ms) len f = elim (Bool-cases (ltb (m_len m) len)) [
  | inl on ↦
      let h : m_len m < len = ground arith in
      rw (locate, on)
        (Located-cons m ms len (locate ms (len - m_len m)) h
          (locate-Located ms (len - m_len m) f.1))
  | inr here ↦ rw (locate, here) (refl, omega arith, ground arith, f.0, refl)
]

pub halves :
    (bs fs cs ds : List ℕ) (len0 left : ℕ)
    → bs ≡ fs ++ (cs ++ ds)
    → len0 ≡ length fs + left
    → left ≤ length cs
    → (take len0 bs ≡ fs ++ take left cs) × (drop len0 bs ≡ drop left cs ++ ds)
halves bs fs cs ds len0 left b l i =
    let k : len0 - length fs ≡ left = omega arith in
    (
      rw (b, take-append_right len0 fs (cs ++ ds) (omega arith), k, take-append_left left cs ds i),
      rw (b, drop-append_right len0 fs (cs ++ ds) (omega arith), k, drop-append_left left cs ds i),
    )
