-- ===== src/Fdtbl.antt =====
-- The descriptor table of uspace/anp_fdtbl.c. The source keeps one table for all threads.
pub mod Descriptors
mod Tests
use anp.Prelude.{
  ℕ, zero, suc, ◌+◌, Bool, true, false, Option, none, some, List, [], ◌∷◌, replicate, get_elem?,
  set, if◌then◌else◌,
}
use anp.Prelude.Int.{ℤ, pos, negsuc}

abbrev pub maxfds : ℕ
maxfds = 256

-- A null slot is `none`, and a socket's address is a number.
pub record FdTable : Type 0 where
  pub virgin : Bool
  pub slots : List (Option ℕ)

-- A failed `assert` stops the program. An index outside the array is undefined.
pub data Found : Type 0 where
  socket : ℕ → Found
  assert_failed undefined : Found

-- The loop of `anp_fdalloc` from index `i` on, over the slots that are left: the first null slot.
unfoldable pub first_free : List (Option ℕ) → ℕ → Option ℕ
first_free [] i = none
first_free (none ∷ rest) i = some i
first_free (some s ∷ rest) i = first_free rest (i + 1)

unfoldable pub fdtbl_init : List (Option ℕ)
fdtbl_init = replicate maxfds none

unfoldable pub slots_of : FdTable → List (Option ℕ)
slots_of t = if t.virgin then fdtbl_init else t.slots

unfoldable pub take_slot : List (Option ℕ) → Option ℕ → Option ℕ → FdTable × Option ℕ
take_slot slots sock none = (record { virgin = false; slots = slots }, none)
take_slot slots sock (some i) = (record { virgin = false; slots = set slots i sock }, some i)

-- `none` is the result -1. A null socket is stored, and leaves the slot null.
unfoldable pub anp_fdalloc : FdTable → Option ℕ → FdTable × Option ℕ
unfolding take_slot
anp_fdalloc t sock = take_slot (slots_of t) sock (first_free (slots_of t) 0)

-- The two assertions of `anp_fdfind`: the index is below 256, and the slot is not null.
unfoldable pub assert_slot : Option (Option ℕ) → Found
assert_slot none = assert_failed
assert_slot (some none) = assert_failed
assert_slot (some (some s)) = socket s

-- There is no assertion against a negative descriptor.
unfoldable pub anp_fdfind : FdTable → ℤ → Found
unfolding assert_slot
anp_fdfind t (negsuc n) = undefined
anp_fdfind t (pos fd) = assert_slot (get_elem? t.slots fd)

-- `none` where the program stops at the assertion, or the index is outside the array.
unfoldable pub free_slot : FdTable → ℕ → Option (Option ℕ) → Option FdTable
free_slot t fd (some (some s)) = some (record t { slots = set t.slots fd none })
free_slot t fd _ = none

unfoldable pub anp_fdfree : FdTable → ℤ → Option FdTable
unfolding free_slot
anp_fdfree t (negsuc n) = none
anp_fdfree t (pos fd) = free_slot t fd (get_elem? t.slots fd)
