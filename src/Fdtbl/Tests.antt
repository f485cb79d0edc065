-- ===== src/Fdtbl/Tests.antt =====
-- Runs of the descriptor table of uspace/anp_fdtbl.c.
use anp.Prelude.{◌≤◌, ◌<◌, ◌≡◌, ◌≢◌, ◌⊎◌, refl, true, false, none, some, replicate, set}
use anp.Prelude.Int.{pos}
use anp.Fdtbl.{
  FdTable, maxfds, socket, assert_failed, first_free, fdtbl_init, slots_of, take_slot, anp_fdalloc,
  assert_slot, anp_fdfind, anp_fdfree,
}
use anp.Fdtbl.Descriptors.{IsValid, anp_fdalloc-some, anp_fdalloc-full, anp_fdfree_lem}

abbrev at_start : FdTable
at_start = record { virgin = true; slots = replicate maxfds none }

-- The table with socket 7 at descriptor 0.
abbrev one_open : FdTable
one_open = record { virgin = false; slots = set (replicate maxfds none) 0 (some 7) }

abbrev all_open : FdTable
all_open = record { virgin = false; slots = replicate maxfds (some 7) }

at_start-IsValid : IsValid at_start
unfolding fdtbl_init
at_start-IsValid = record { size = refl; untouched = λ _. refl }

one_open-IsValid : IsValid one_open
one_open-IsValid = record { size = refl; untouched = λ e. absurd cc }

all_open-IsValid : IsValid all_open
all_open-IsValid = record { size = refl; untouched = λ e. absurd cc }

first_alloc : anp_fdalloc at_start (some 7) ≡ (one_open, some 0)
unfolding anp_fdalloc slots_of fdtbl_init first_free take_slot
first_alloc = refl

alloc_when_full : anp_fdalloc all_open (some 9) ≡ (all_open, none)
unfolding anp_fdalloc slots_of first_free take_slot
alloc_when_full = refl

find_open : anp_fdfind one_open (pos 0) ≡ socket 7
unfolding anp_fdfind assert_slot
find_open = refl

anp_fdalloc-some_example :
    IsValid one_open
    × (0 < maxfds)
    × (anp_fdfind at_start (pos 0) ≡ assert_failed)
    × ((0 ≤ 0) ⊎ (anp_fdfind at_start (pos 0) ≢ assert_failed))
    × (anp_fdfind one_open (pos 0) ≡ socket 7)
anp_fdalloc-some_example =
    anp_fdalloc-some at_start one_open (some 7) 0 0 at_start-IsValid first_alloc

anp_fdalloc-full_example :
    IsValid all_open
    × ((maxfds ≤ 3) ⊎ (anp_fdfind all_open (pos 3) ≢ assert_failed))
    × (anp_fdfind all_open (pos 3) ≡ anp_fdfind all_open (pos 3))
anp_fdalloc-full_example =
    anp_fdalloc-full all_open all_open (some 9) 3 all_open-IsValid alloc_when_full

anp_fdfree_lem_example :
    (t' : FdTable) × (anp_fdfree one_open (pos 0) ≡ some t')
    × IsValid t'
    × (anp_fdfind t' (pos 0) ≡ assert_failed)
anp_fdfree_lem_example = anp_fdfree_lem one_open 0 7 0 one_open-IsValid find_open
