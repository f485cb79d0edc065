-- ===== src/Mbuf/References.antt =====
-- The counts of cluster references under `MCLALLOC` and `MCLFREE` (generic/sys/mbuf.h) and
-- `m_clalloc` (generic/kern/uipc_mbuf.c).
use anp.Prelude.{
  ℕ, zero, suc, ◌+◌, ◌<◌, ◌≤◌, Bool, Option-cases, ◌≡◌, ◌≢◌, refl, true, Option, none, some, List,
  [], ◌∷◌, arith, ◌==◌, if◌then◌else◌, length, Bool-cases, inl, inr, ==_iff, sym, ap, ◌∙◌,
}
use mathlib.Core.Path.{subst}
use anp.Mbuf.Cluster.{
  Clusters, cl_rc_insert, up, down, cl_rc_incr, count_of, cl_rc_decr, add_cluster, add_clusters,
  then_take, Got, got, none_left, panicked, take_free, refill, mclalloc, mclfree_one,
}
use anp.Mbuf.CountTable.{
  NotIn, Counted, IsSound, CountSet, change_count-CountSet, CannotGrow, cl_rc_insert-IsInserted,
  Counted-keep, NotIn-free, apart,
}

-- Every cluster with a reference in `t` has as many in `t'`.
abbrev Kept : List (ℕ × ℕ) → List (ℕ × ℕ) → Type 0
Kept t t' = (j n : ℕ) → count_of j t ≡ some (suc n) → count_of j t' ≡ some (suc n)

-- What the loop of `m_clalloc` makes of a sound state.
abbrev IsRefilled : (ℕ → Bool) → List ℕ → Clusters → Option Clusters → Type 0
IsRefilled grows ps c none = CannotGrow grows
IsRefilled grows ps c (some c') =
    IsSound c' × Kept c.cl_rc_tbl c'.cl_rc_tbl × (length c'.mclfree ≡ length ps + length c.mclfree)

add_cluster-IsSound :
    (p limit : ℕ) (c : Clusters) (t : List (ℕ × ℕ))
    → count_of p c.cl_rc_tbl ≡ none
    → CountSet p 0 c.cl_rc_tbl t
    → length t ≤ limit
    → IsSound c
    → IsSound (add_cluster p c t limit)
add_cluster-IsSound p limit c t e s room (h, l, _) =
    let z : (p == p) ≡ true = ground arith in
    let o = NotIn-free p (some 0) c.mclfree c.cl_rc_tbl (λ q. absurd cc) h in
    ((s p ∙ rw z, o, Counted-keep p 0 (some 0) c.mclfree c.cl_rc_tbl t s o h), omega arith, room)

later-IsRefilled :
    (grows : ℕ → Bool) (p limit : ℕ) (ps : List ℕ) (c : Clusters) (t : List (ℕ × ℕ))
    (r : Option Clusters)
    → count_of p c.cl_rc_tbl ≡ none
    → CountSet p 0 c.cl_rc_tbl t
    → IsRefilled grows ps (add_cluster p c t limit) r
    → IsRefilled grows (p ∷ ps) c r
later-IsRefilled grows p limit ps c t none e s h = h
later-IsRefilled grows p limit ps c t (some c') e s (h, k, l) = (
  h,
  (λ j n q. k j n (s j ∙ rw (apart j p c.cl_rc_tbl (some (suc n)) none q e (λ a. absurd cc)) q)),
  omega arith,
)

add_clusters-IsRefilled :
    (grows : ℕ → Bool) (ps : List ℕ) (c : Clusters)
    → Counted none ps c.cl_rc_tbl
    → IsSound c
    → IsRefilled grows ps c (add_clusters grows ps c)
unfolding add_clusters
add_clusters-IsRefilled grows [] c f h = (h, (λ j n q. q), omega arith)
add_clusters-IsRefilled grows (p ∷ ps) c (e, d, f) h =
    let i = cl_rc_insert-IsInserted grows p c.cl_rc_tbl c.cl_rc_limit e h.2 in
    elim (Option-cases (cl_rc_insert grows p c.cl_rc_tbl c.cl_rc_limit)) [
      | inl out ↦ let i' = rw out at i in rw (add_clusters, out) i'
      | inr ((t, limit), in_table) ↦
          let (s, room) = rw in_table at i in
          rw (add_clusters, in_table)
            (later-IsRefilled grows p limit ps c t (add_clusters grows ps (add_cluster p c t limit))
              e s
              (add_clusters-IsRefilled grows ps (add_cluster p c t limit)
                (Counted-keep p 0 none ps c.cl_rc_tbl t s d f)
                (add_cluster-IsSound p limit c t e s room h)))
    ]

-- A count that is not 0 stays.
abbrev pub StaysUsed : Option ℕ → Option ℕ → Type 0
StaysUsed (some (suc n)) y = y ≡ some (suc n)
StaysUsed _ y = Unit

StaysUsed-all : (x y : Option ℕ) → ((n : ℕ) → x ≡ some (suc n) → y ≡ some (suc n)) → StaysUsed x y
StaysUsed-all none y h = tt
StaysUsed-all (some zero) y h = tt
StaysUsed-all (some (suc n)) y h = h n refl

-- The cluster had no reference and has one, it is off the free list, and no other count changes.
-- There is none only if the free list is empty and there is no memory, and a panic only if the free
-- list is empty and the table cannot grow.
abbrev pub IsGot : (ℕ → Bool) → List ℕ → Clusters → Got → Type 0
IsGot grows fresh c (got p c') =
    IsSound c'
    × (count_of p c'.cl_rc_tbl ≡ some 1)
    × NotIn p c'.mclfree
    × ((n : ℕ) → count_of p c.cl_rc_tbl ≢ some (suc n))
    × ((j : ℕ) → StaysUsed (count_of j c.cl_rc_tbl) (count_of j c'.cl_rc_tbl))
IsGot grows fresh c (none_left c') = (c.mclfree ≡ []) × (fresh ≡ [])
IsGot grows fresh c panicked = (c.mclfree ≡ []) × CannotGrow grows

take_free-IsGot :
    (grows : ℕ → Bool) (fresh : List ℕ) (c c₁ : Clusters) (l : List ℕ)
    → l ≡ c₁.mclfree
    → IsSound c₁
    → Kept c.cl_rc_tbl c₁.cl_rc_tbl
    → (l ≡ [] → (c.mclfree ≡ []) × (fresh ≡ []))
    → IsGot grows fresh c (take_free c₁ l)
unfolding take_free cl_rc_incr
take_free-IsGot grows fresh c c₁ [] e h k dry = dry refl
take_free-IsGot grows fresh c c₁ (p ∷ rest) e (h, l, room) k dry =
    let (z, o, r) = rw (← e) at h in
    let l' = rw (← e) at l in
    let (t, i, s, same_length) = change_count-CountSet up p 0 c₁.cl_rc_tbl z in
    let same : (p == p) ≡ true = ground arith in
    let unused : (n : ℕ) → count_of p c.cl_rc_tbl ≢ some (suc n) =
      λ n q. let q' = k p n q in absurd cc in
    rw (take_free, cl_rc_incr, i)
      (
        (Counted-keep p 1 (some 0) rest c₁.cl_rc_tbl t s o r, omega arith, omega arith),
        s p ∙ rw same,
        o,
        unused,
        λ j. StaysUsed-all (count_of j c.cl_rc_tbl) (count_of j t) λ n q.
            let q' = k j n q in
            s j ∙ rw (apart j p c₁.cl_rc_tbl (some (suc n)) (some 0) q' z (λ a. absurd cc)) q',
      )

then_take-IsGot :
    (grows : ℕ → Bool) (fresh : List ℕ) (c : Clusters) (r : Option Clusters)
    → c.mclfree ≡ []
    → IsRefilled grows fresh c r
    → IsGot grows fresh c (then_take r)
then_take-IsGot grows fresh c none e h = (e, h)
then_take-IsGot grows fresh c (some c') e (h, k, l) =
    take_free-IsGot grows fresh c c' c'.mclfree refl h k (λ dry. (e, empty fresh (added dry)))
  where
    added : c'.mclfree ≡ [] → length fresh ≡ 0
    added dry =
        let z : length c'.mclfree ≡ 0 = ap length dry in
        let y : length c.mclfree ≡ 0 = ap length e in omega arith

    empty : (ps : List ℕ) → length ps ≡ 0 → ps ≡ []
    empty [] z = refl
    empty (p ∷ ps) z = absurd (omega arith)

-- With a free list of distinct clusters without references, a table within its memory, and new
-- memory that the table does not know, `MCLALLOC` gives a cluster without references, takes it off
-- the free list, and counts one reference to it; every cluster in use keeps its count. It gives
-- null only if the free list is empty and there is no memory, and it panics only if the free list
-- is empty and the table cannot grow.
pub mclalloc-IsGot :
    (grows : ℕ → Bool) (fresh : List ℕ) (c : Clusters)
    → IsSound c
    → Counted none fresh c.cl_rc_tbl
    → IsGot grows fresh c (mclalloc grows fresh c)
unfolding mclalloc
mclalloc-IsGot grows fresh c h f = start c.mclfree refl
  where
    start :
        (l : List ℕ)
        → c.mclfree ≡ l
        → IsGot grows fresh c (then_take (refill grows fresh c.mclfree c))
    start [] e =
        subst (λ l. IsGot grows fresh c (then_take (refill grows fresh l c))) (sym e)
          (then_take-IsGot grows fresh c (add_clusters grows fresh c) e
            (add_clusters-IsRefilled grows fresh c f h))
    start (p ∷ rest) e =
        subst (λ l. IsGot grows fresh c (then_take (refill grows fresh l c))) (sym e)
          (take_free-IsGot grows fresh c c c.mclfree refl h (λ j n q. q)
            (λ dry. let x = sym e ∙ dry in absurd cc))

-- With a free list of distinct clusters without references, and a table within its memory, `MCLFREE`
-- of a cluster with references, at most 255, takes one of them, and changes no other count. With
-- the last one the cluster goes to the front of the free list, whose clusters stay distinct and
-- without references; before that the free list stays as it is.
pub mclfree_one-IsSound :
    (p n : ℕ) (c : Clusters)
    → IsSound c
    → count_of p c.cl_rc_tbl ≡ some (suc n)
    → n < 255
    → (c' : Clusters) × (mclfree_one p c ≡ some c')
      × IsSound c'
      × CountSet p n c.cl_rc_tbl c'.cl_rc_tbl
      × (c'.mclfree ≡ (if n == 0 then p ∷ c.mclfree else c.mclfree))
unfolding mclfree_one cl_rc_decr
mclfree_one-IsSound p n c (h, l, room) e small =
    let (t, i, s, same_length) = change_count-CountSet down p (suc n) c.cl_rc_tbl e in
    let d : down (suc n) ≡ n = omega arith in
    let s' : CountSet p n c.cl_rc_tbl t = rw d at s in
    let same : (p == p) ≡ true = ground arith in
    let left : count_of p t ≡ some n = s' p ∙ rw same in
    let o = NotIn-free p (some 0) c.mclfree c.cl_rc_tbl (λ q. let x = sym e ∙ q in absurd cc) h in
    let k = Counted-keep p n (some 0) c.mclfree c.cl_rc_tbl t s' o h in
    elim (Bool-cases (n == 0)) [
      | inl last ↦
          let z : n ≡ 0 = (==_iff n 0).0 last in
          (
            record c { cl_rc_tbl = t; mclfree = p ∷ c.mclfree; m_clfree = c.m_clfree + 1 },
            rw (mclfree_one, cl_rc_decr, i, left, last),
            ((left ∙ ap some z, o, k), omega arith, omega arith),
            s',
            rw last,
          )
      | inr more ↦ (
        record c { cl_rc_tbl = t },
        rw (mclfree_one, cl_rc_decr, i, left, more),
        (k, l, omega arith),
        s',
        rw more,
      )
    ]
