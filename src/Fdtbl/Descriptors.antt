-- ===== src/Fdtbl/Descriptors.antt =====
-- The descriptor table of uspace/anp_fdtbl.c as a map from descriptors to sockets.
use native.Mathlib.Decide.{dec_lt}
use anp.Prelude.{
  Option-cases, length-set, get_elem?_outside, get_elem?_inside, ℕ, zero, suc, ◌+◌, ◌-◌, ◌<◌, ◌≤◌,
  ◌≡◌, ◌≢◌, refl, get_elem?-set_self, get_elem?-set_ne, ==_iff, Bool, true, false, Option, none,
  some, List, [], ◌∷◌, arith, length, get_elem?, set, replicate, if◌then◌else◌, ◌==◌, Bool-cases,
  inl, inr, ◌⊎◌, ap, ◌∙◌,
}
use mathlib.Core.Bool.{false≢true}
use anp.Prelude.Int.{pos}
use anp.Fdtbl.{
  FdTable, Found, maxfds, socket, assert_failed, first_free, fdtbl_init, slots_of, take_slot,
  anp_fdalloc, assert_slot, anp_fdfind, anp_fdfree,
}

-- 256 slots, all null before the first allocation.
pub record IsValid (t : FdTable) : Type 0 where
  pub size : length t.slots ≡ maxfds
  pub untouched : t.virgin ≡ true → t.slots ≡ fdtbl_init

first_free-some :
    (l : List (Option ℕ)) (i k j : ℕ)
    → first_free l i ≡ some k
    → (i ≤ k) × (get_elem? l (k - i) ≡ some none) × ((k - i ≤ j) ⊎ (get_elem? l j ≢ some none))
unfolding first_free
first_free-some [] i k j e = absurd cc
first_free-some (none ∷ l) i k j e =
    let s : i ≡ k = cc in
    let z : k - i ≡ 0 = omega arith in rw z (omega arith, refl, inl (omega arith))
first_free-some (some x ∷ l) i k zero e =
    let (p, q, r) = first_free-some l (i + 1) k 0 e in
    let z : k - i ≡ suc (k - (i + 1)) = omega arith in rw z (omega arith, q, inr (λ h. cc))
first_free-some (some x ∷ l) i k (suc j) e =
    let (p, q, r) = first_free-some l (i + 1) k j e in
    let z : k - i ≡ suc (k - (i + 1)) = omega arith in rw z (omega arith, q, ground arith)

first_free-none :
    (l : List (Option ℕ)) (i j : ℕ) → first_free l i ≡ none → get_elem? l j ≢ some none
unfolding first_free
first_free-none [] i j e h = cc
first_free-none (none ∷ l) i j e h = cc
first_free-none (some x ∷ l) i zero e h = cc
first_free-none (some x ∷ l) i (suc j) e h = first_free-none l (i + 1) j e h

slots_of-valid : (t : FdTable) → IsValid t → slots_of t ≡ t.slots
unfolding slots_of
slots_of-valid t v = elim (Bool-cases t.virgin) [
  | inl new ↦ rw (new, v.untouched new)
  | inr used ↦ rw used
]

get_elem?-set :
    (l : List (Option ℕ)) (i j : ℕ) (v : Option ℕ)
    → i < length l
    → get_elem? (set l i v) j ≡ (if j == i then some v else get_elem? l j)
get_elem?-set l i j v h = elim (Bool-cases (j == i)) [
  | inl same ↦ let e : j ≡ i = (==_iff j i).0 same in rw (same, e, get_elem?-set_self l i v h)
  | inr other ↦ rw (other, get_elem?-set_ne l {i = i} {j = j} v (ground arith))
]

set-size :
    (l : List (Option ℕ)) (i : ℕ) (v : Option ℕ) → length l ≡ maxfds → length (set l i v) ≡ maxfds
set-size l i v h = rw length-set h

inside : (l : List (Option ℕ)) (i : ℕ) (v : Option ℕ) → get_elem? l i ≡ some v → i < length l
inside l i v e = elim (dec_lt i (length l)) [
  | yes h ↦ h
  | no h ↦ let o = get_elem?_outside l i (omega arith) in absurd cc
]

taken : (o : Option (Option ℕ)) → o ≢ some none → o ≢ none → assert_slot o ≢ assert_failed
unfolding assert_slot
taken none h g e = g refl
taken (some none) h g e = h refl
taken (some (some s)) h g e = cc

slot_taken :
    (l : List (Option ℕ)) (j : ℕ)
    → j < length l
    → get_elem? l j ≢ some none
    → assert_slot (get_elem? l j) ≢ assert_failed
slot_taken l j h ne =
    taken (get_elem? l j) ne (λ e. let (x, ex) = get_elem?_inside l j h in absurd cc)

slot_if :
    (b : Bool) (x y : Option (Option ℕ))
    → assert_slot (if b then x else y) ≡ (if b then assert_slot x else assert_slot y)
slot_if true x y = refl
slot_if false x y = refl

slot_socket : (o : Option (Option ℕ)) (s : ℕ) → assert_slot o ≡ socket s → o ≡ some (some s)
unfolding assert_slot
slot_socket none s e = absurd cc
slot_socket (some none) s e = absurd cc
slot_socket (some (some r)) s e = cc

replicate_null : (n i s : ℕ) → get_elem? {A = Option ℕ} (replicate n none) i ≢ some (some s)
replicate_null zero i s e = cc
replicate_null (suc n) zero s e = cc
replicate_null (suc n) (suc i) s e = replicate_null n i s e

init_null : (i s : ℕ) → get_elem? fdtbl_init i ≢ some (some s)
unfolding fdtbl_init
init_null i s = replicate_null maxfds i s

-- What is found of a socket that was stored: a null pointer is no socket.
abbrev pub stored : Option ℕ → Found
stored none = assert_failed
stored (some sock) = socket sock

slot_stored : (sock : Option ℕ) → assert_slot (some sock) ≡ stored sock
unfolding assert_slot
slot_stored none = refl
slot_stored (some sock) = refl

-- Where `anp_fdalloc` on a valid table gives a descriptor, it is the least free one, and the socket
-- is stored there, or the slot stays free if the socket is null; every other descriptor is as
-- before, and the table stays valid.
pub anp_fdalloc-some :
    (t t' : FdTable) (sock : Option ℕ) (fd j : ℕ)
    → IsValid t
    → anp_fdalloc t sock ≡ (t', some fd)
    → IsValid t'
      × (fd < maxfds)
      × (anp_fdfind t (pos fd) ≡ assert_failed)
      × ((fd ≤ j) ⊎ (anp_fdfind t (pos j) ≢ assert_failed))
      × (anp_fdfind t' (pos j) ≡ (if j == fd then stored sock else anp_fdfind t (pos j)))
unfolding anp_fdalloc anp_fdfind take_slot
anp_fdalloc-some t t' sock fd j v e = elim (Option-cases (first_free t.slots 0)) [
  | inl full ↦ let e' = rw (slots_of-valid t v, full) at e in absurd cc
  | inr (k, ek) ↦
      let e' = rw (slots_of-valid t v, ek) at e in
      let st : record { virgin = false; slots = set t.slots k sock } ≡ t' = cc in
      let sk : k ≡ fd = cc in
      let (p, q, r) = first_free-some t.slots 0 k j ek in
      let z : k - 0 ≡ k = omega arith in
      let q' : get_elem? t.slots k ≡ some none = rw z at q in
      let h : k < length t.slots = inside t.slots k none q' in
      rw (← st, ← sk)
        (
          record { size = set-size t.slots k sock v.size; untouched = λ n. absurd (false≢true n) },
          rw v.size at h,
          rw q',
          elim r [
            | inl le ↦ inl (omega arith)
            | inr ne ↦ elim (dec_lt j k) [
              | yes lt ↦ inr (slot_taken t.slots j (omega arith) ne)
              | no ge ↦ inl (omega arith)
            ]
          ],
          rw (get_elem?-set t.slots k j sock h) (
              slot_if (j == k) (some sock) (get_elem? t.slots j)
              ∙ ap (λ f. if j == k then f else assert_slot (get_elem? t.slots j))
                  (slot_stored sock)),
        )
]

-- Where `anp_fdalloc` on a valid table gives -1, no descriptor below 256 is free, nothing changes that
-- `anp_fdfind` sees, and the table stays valid.
pub anp_fdalloc-full :
    (t t' : FdTable) (sock : Option ℕ) (j : ℕ)
    → IsValid t
    → anp_fdalloc t sock ≡ (t', none)
    → IsValid t'
      × ((maxfds ≤ j) ⊎ (anp_fdfind t (pos j) ≢ assert_failed))
      × (anp_fdfind t' (pos j) ≡ anp_fdfind t (pos j))
unfolding anp_fdalloc anp_fdfind take_slot
anp_fdalloc-full t t' sock j v e = elim (Option-cases (first_free t.slots 0)) [
  | inl full ↦
      let e' = rw (slots_of-valid t v, full) at e in
      let st : record { virgin = false; slots = t.slots } ≡ t' = cc in
      let ne = first_free-none t.slots 0 j full in
      rw (← st) (
        record { size = v.size; untouched = λ h. absurd (false≢true h) },
        elim (dec_lt j maxfds) [
          | yes h ↦ inr (slot_taken t.slots j (rw v.size h) ne)
          | no h ↦ inl (omega arith)
        ],
        refl,
      )
  | inr (k, ek) ↦ let e' = rw (slots_of-valid t v, ek) at e in absurd cc
]

-- On a valid table, `anp_fdfree` of a descriptor in use frees it, keeps every other one, and keeps the
-- table valid.
pub anp_fdfree_lem :
    (t : FdTable) (fd sock j : ℕ)
    → IsValid t
    → anp_fdfind t (pos fd) ≡ socket sock
    → (t' : FdTable) × (anp_fdfree t (pos fd) ≡ some t')
      × IsValid t'
      × (anp_fdfind t' (pos j) ≡ (if j == fd then assert_failed else anp_fdfind t (pos j)))
unfolding anp_fdfind anp_fdfree
anp_fdfree_lem t fd sock j v h =
    let o = slot_socket (get_elem? t.slots fd) sock h in
    let inb : fd < length t.slots = inside t.slots fd (some sock) o in
    (
      record t { slots = set t.slots fd none },
      rw o,
      record {
        size = set-size t.slots fd none v.size;
        untouched = λ n. absurd (init_null fd sock (rw (v.untouched n) at o));
      },
      rw (get_elem?-set t.slots fd j none inb)
          (slot_if (j == fd) (some none) (get_elem? t.slots j)),
    )
