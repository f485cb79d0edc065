-- ===== src/Mbuf/Cluster.antt =====
-- The table of cluster references of generic/kern/uipc_mbuf.c, and `MCLALLOC` and `MCLFREE` of
-- generic/sys/mbuf.h on it.
use anp.Prelude.{
  Bool, length, ℕ, ◌+◌, ◌-◌, ◌%◌, Option, none, some, List, [], ◌∷◌, ◌++◌, ◌==◌, if◌then◌else◌,
}

-- The pairs of a cluster's address and its count, an `unsigned char`, and how many there is memory for;
-- the free list, linked through the first words of the clusters; `mbstat.m_clfree` and
-- `mbstat.m_clusters`.
pub record Clusters : Type 0 where
  pub cl_rc_tbl : List (ℕ × ℕ)
  pub cl_rc_limit : ℕ
  pub mclfree : List ℕ
  pub m_clfree : ℕ
  pub m_clusters : ℕ

-- The table and its limit, which grows by 32 entries. `grows` tells whether `anp_sys_malloc` or
-- `realloc` has the memory for a limit. `none` is the panic where it has not.
unfoldable pub cl_rc_insert : (ℕ → Bool) → ℕ → List (ℕ × ℕ) → ℕ → Option (List (ℕ × ℕ) × ℕ)
cl_rc_insert grows cl t limit =
    if length t == limit
    then (if grows (limit + 32) then some (t ++ ((cl, 0) ∷ []), limit + 32) else none)
    else some (t ++ ((cl, 0) ∷ []), limit)

-- The first entry of the cluster, changed. `none` is the panic for an unknown address.
unfoldable pub change_count : (ℕ → ℕ) → ℕ → List (ℕ × ℕ) → Option (List (ℕ × ℕ))
change_count f cl [] = none
change_count f cl ((base, n) ∷ t) =
    let rest = change_count f cl t in
    if base == cl
    then some ((base, f n) ∷ t)
    else elim rest [ none ↦ none | some t' ↦ some ((base, n) ∷ t') ]

abbrev pub up : ℕ → ℕ
up n = (n + 1) % 256

abbrev pub down : ℕ → ℕ
down n = (n + 255) % 256

unfoldable pub cl_rc_incr : ℕ → List (ℕ × ℕ) → Option (List (ℕ × ℕ))
cl_rc_incr cl t = change_count up cl t

-- The count of a cluster, by its first entry.
unfoldable pub count_of : ℕ → List (ℕ × ℕ) → Option ℕ
count_of cl [] = none
count_of cl ((base, n) ∷ t) = if base == cl then some n else count_of cl t

-- The table, and the new count.
unfoldable pub cl_rc_decr : ℕ → List (ℕ × ℕ) → Option (List (ℕ × ℕ) × ℕ)
cl_rc_decr cl t = elim (change_count down cl t) [
  | none ↦ none
  | some t' ↦ elim (count_of cl t') [ none ↦ none | some n ↦ some (t', n) ]
]

-- A round of the loop of `m_clalloc`, with the new table and limit.
abbrev pub add_cluster : ℕ → Clusters → List (ℕ × ℕ) → ℕ → Clusters
add_cluster p c t limit = record c {
  mclfree = p ∷ c.mclfree;
  cl_rc_tbl = t;
  cl_rc_limit = limit;
  m_clfree = c.m_clfree + 1;
  m_clusters = c.m_clusters + 1;
}

-- The loop over the clusters of the memory that it has got. `none` is a panic.
unfoldable pub add_clusters : (ℕ → Bool) → List ℕ → Clusters → Option Clusters
add_clusters grows [] c = some c
add_clusters grows (p ∷ ps) c = elim (cl_rc_insert grows p c.cl_rc_tbl c.cl_rc_limit) [
  | none ↦ none
  | some (t, limit) ↦ add_clusters grows ps (add_cluster p c t limit)
]

-- A cluster, the null pointer, or a panic.
pub data Got : Type 0 where
  got : ℕ → Clusters → Got
  none_left : Clusters → Got
  panicked : Got

unfoldable pub take_free : Clusters → List ℕ → Got
take_free c [] = none_left c
take_free c (p ∷ rest) = elim (cl_rc_incr p c.cl_rc_tbl) [
  | none ↦ panicked
  | some t ↦ got p (record c { cl_rc_tbl = t; m_clfree = c.m_clfree - 1; mclfree = rest })
]

-- `m_clalloc` for an empty free list. `fresh` are the clusters of the memory that it gets, none if
-- it gets none.
abbrev pub refill : (ℕ → Bool) → List ℕ → List ℕ → Clusters → Option Clusters
refill grows fresh [] c = add_clusters grows fresh c
refill grows fresh (p ∷ rest) c = some c

abbrev pub then_take : Option Clusters → Got
then_take none = panicked
then_take (some c) = take_free c c.mclfree

-- `MCLALLOC`
unfoldable pub mclalloc : (ℕ → Bool) → List ℕ → Clusters → Got
mclalloc grows fresh c = then_take (refill grows fresh c.mclfree c)

-- `MCLFREE`. `none` is a panic.
unfoldable pub mclfree_one : ℕ → Clusters → Option Clusters
mclfree_one p c = elim (cl_rc_decr p c.cl_rc_tbl) [
  | none ↦ none
  | some (t, n) ↦
      if n == 0
      then some (record c { cl_rc_tbl = t; mclfree = p ∷ c.mclfree; m_clfree = c.m_clfree + 1 })
      else some (record c { cl_rc_tbl = t })
]
