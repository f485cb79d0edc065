-- ===== src/Mbuf/CountTable.antt =====
-- The table of cluster references of generic/kern/uipc_mbuf.c as a map from clusters to counts.
use anp.Prelude.{
  ℕ, ◌+◌, ◌≤◌, ◌++◌, Bool, length-append, ◌≡◌, ◌≢◌, refl, false, Option, none, some, List, [], ◌∷◌,
  arith, ◌==◌, if◌then◌else◌, length, Bool-cases, inl, inr, ==_iff, sym, ap, ◌∙◌,
}
use anp.Mbuf.Cluster.{Clusters, cl_rc_insert, change_count, count_of}

abbrev pub NotIn : ℕ → List ℕ → Type 0
NotIn p [] = Unit
NotIn p (q ∷ qs) = (p ≢ q) × NotIn p qs

-- The clusters of a list are distinct, and each has the count.
abbrev pub Counted : Option ℕ → List ℕ → List (ℕ × ℕ) → Type 0
Counted n [] t = Unit
Counted n (p ∷ ps) t = (count_of p t ≡ n) × NotIn p ps × Counted n ps t

-- The clusters on the free list are distinct, without references, and as many as `m_clfree` says; the
-- table is not longer than its memory.
abbrev pub IsSound : Clusters → Type 0
IsSound c =
    Counted (some 0) c.mclfree c.cl_rc_tbl
    × (c.m_clfree ≡ length c.mclfree)
    × (length c.cl_rc_tbl ≤ c.cl_rc_limit)

-- The counts of `t'` are those of `t`, but for `cl`, which has `n`.
abbrev pub CountSet : ℕ → ℕ → List (ℕ × ℕ) → List (ℕ × ℕ) → Type 0
CountSet cl n t t' = (j : ℕ) → count_of j t' ≡ (if j == cl then some n else count_of j t)

pub change_count-CountSet :
    (f : ℕ → ℕ) (cl n : ℕ) (t : List (ℕ × ℕ))
    → count_of cl t ≡ some n
    → (t' : List (ℕ × ℕ)) × (change_count f cl t ≡ some t')
      × CountSet cl (f n) t t'
      × (length t' ≡ length t)
unfolding change_count count_of
change_count-CountSet f cl n [] e = absurd cc
change_count-CountSet f cl n ((base, k) ∷ t) e = elim (Bool-cases (base == cl)) [
  | inl here ↦
      let same : base ≡ cl = (==_iff base cl).0 here in
      let e' = rw (count_of, here) at e in
      let kn : k ≡ n = cc in
      (
        (base, f k) ∷ t,
        rw (change_count, here),
        (λ j. let fk : f k ≡ f n = ap f kn in ground (arith, fk)),
        refl,
      )
  | inr on ↦
      let e' = rw (count_of, on) at e in
      let (t', c, s, l) = change_count-CountSet f cl n t e' in
      ((base, k) ∷ t', rw (change_count, on, c), (λ j. ground (arith, s j)), omega arith)
]

pub append-CountSet :
    (cl : ℕ) (t : List (ℕ × ℕ)) → count_of cl t ≡ none → CountSet cl 0 t (t ++ ((cl, 0) ∷ []))
unfolding count_of
append-CountSet cl [] e j = ground arith
append-CountSet cl ((base, k) ∷ t) e j = elim (Bool-cases (base == cl)) [
  | inl here ↦ let e' = rw (count_of, here) at e in absurd cc
  | inr on ↦ let e' = rw (count_of, on) at e in ground (arith, append-CountSet cl t e' j)
]

-- Some growth of the table fails.
abbrev pub CannotGrow : (ℕ → Bool) → Type 0
CannotGrow grows = (limit : ℕ) × (grows limit ≡ false)

-- An insertion stays inside the memory of the table.
abbrev pub IsInserted : (ℕ → Bool) → ℕ → List (ℕ × ℕ) → Option (List (ℕ × ℕ) × ℕ) → Type 0
IsInserted grows cl t none = CannotGrow grows
IsInserted grows cl t (some (t', limit)) = CountSet cl 0 t t' × (length t' ≤ limit)

pub cl_rc_insert-IsInserted :
    (grows : ℕ → Bool) (cl : ℕ) (t : List (ℕ × ℕ)) (limit : ℕ)
    → count_of cl t ≡ none
    → length t ≤ limit
    → IsInserted grows cl t (cl_rc_insert grows cl t limit)
unfolding cl_rc_insert
cl_rc_insert-IsInserted grows cl t limit e l =
    let s = append-CountSet cl t e in
    let n = length-append t ((cl, 0) ∷ []) in
    elim (Bool-cases (length t == limit)) [
      | inr room ↦ rw (cl_rc_insert, room) (s, ground (arith, n))
      | inl full ↦ elim (Bool-cases (grows (limit + 32))) [
        | inl more ↦ rw (cl_rc_insert, full, more) (s, ground (arith, n))
        | inr out ↦ rw (cl_rc_insert, full, out) (limit + 32, out)
      ]
    ]

pub Counted-keep :
    (cl n : ℕ) (k : Option ℕ) (ps : List ℕ) (t t' : List (ℕ × ℕ))
    → CountSet cl n t t'
    → NotIn cl ps
    → Counted k ps t
    → Counted k ps t'
Counted-keep cl n k [] t t' s o h = tt
Counted-keep cl n k (p ∷ ps) t t' s (ne, o) (e, d, h) =
    let other : (p == cl) ≡ false = ground arith in
    (s p ∙ rw other e, d, Counted-keep cl n k ps t t' s o h)

pub NotIn-free :
    (cl : ℕ) (k : Option ℕ) (ps : List ℕ) (t : List (ℕ × ℕ))
    → count_of cl t ≢ k
    → Counted k ps t
    → NotIn cl ps
NotIn-free cl k [] t ne h = tt
NotIn-free cl k (p ∷ ps) t ne (e, d, h) =
    ((λ same. ne (ap (λ q. count_of q t) same ∙ e)), NotIn-free cl k ps t ne h)

pub apart :
    (j p : ℕ) (t : List (ℕ × ℕ)) (x y : Option ℕ)
    → count_of j t ≡ x
    → count_of p t ≡ y
    → x ≢ y
    → (j == p) ≡ false
apart j p t x y e f ne = elim (Bool-cases (j == p)) [
  | inl same ↦ absurd (ne (sym e ∙ ap (λ q. count_of q t) ((==_iff j p).0 same) ∙ f))
  | inr other ↦ other
]
