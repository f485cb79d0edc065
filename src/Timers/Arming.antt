-- ===== src/Timers/Arming.antt =====
-- What `timeout` and `untimeout` of uspace/timers.c do to the times of the timers.
use anp.Prelude.{
  ℕ, ◌+◌, ◌-◌, ◌≡◌, refl, true, false, ◌&&◌, List, [], ◌∷◌, map, arith, ltb, leb, ◌==◌,
  if◌then◌else◌, Bool-cases, inl, inr, ap, sym,
}
use anp.Prelude.Int.{ℤ, pos, pos_part, ◌+ℤ◌, ◌-ℤ◌, -ℤ_parts, +ℤ_parts, ◌≤ℤ◌, ltb_ℤ}
use anp.Timers.Callout.{Entry, leb_ℤ, same_timer, insert_after, timeout, give_ticks, untimeout}
use anp.Timers.Queue.{Due, dues, NoneOverdue, delay, dues-add}

-- The timers after the arming of `new`, behind one that is due at `prev`: those up to its time stay,
-- and those behind it are put off by the distance to the timer in front of it.
abbrev pub armed_after : Due → ℕ → List Due → List Due
armed_after new prev [] = new ∷ []
armed_after new prev (d ∷ ds) =
    if leb d.2 new.2 then d ∷ armed_after new d.2 ds else new ∷ map (delay (new.2 - prev)) (d ∷ ds)

abbrev pub armed : Due → List Due → List Due
armed new [] = new ∷ []
armed new (d ∷ ds) = if ltb new.2 d.2 then new ∷ d ∷ ds else d ∷ armed_after new d.2 ds

insert_after-dues :
    (cq : Entry) (t : ℤ) (acc : ℕ) (q : List Entry)
    → pos 0 ≤ℤ t
    → NoneOverdue q
    → dues acc (insert_after cq t q)
      ≡ armed_after (cq.func, cq.arg, acc + pos_part t) acc (dues acc q)
unfolding insert_after
insert_after-dues cq t acc [] h none = refl
insert_after-dues cq t acc (c ∷ q) h none = elim (Bool-cases (leb_ℤ c.ticks t)) [
  | inl before ↦
      let test : leb (acc + pos_part c.ticks) (acc + pos_part t) ≡ true = ground arith in
      let left : pos 0 ≤ℤ t -ℤ c.ticks = ground (arith, -ℤ_parts t c.ticks) in
      let e : acc + pos_part c.ticks + pos_part (t -ℤ c.ticks) ≡ acc + pos_part t =
        ground (arith, -ℤ_parts t c.ticks) in
      let ih = insert_after-dues cq (t -ℤ c.ticks) (acc + pos_part c.ticks) q left none.1 in
      rw (before, test, ih, e)
  | inr behind ↦
      let test : leb (acc + pos_part c.ticks) (acc + pos_part t) ≡ false = ground arith in
      let m : acc + pos_part t - acc ≡ pos_part t = omega arith in
      let e : acc + pos_part t + pos_part c.ticks ≡ acc + pos_part c.ticks + pos_part t =
        omega arith in
      rw (behind, test, e, dues-add (acc + pos_part c.ticks) (pos_part t) q, m)
        (ap
          (λ r.
            (cq.func, cq.arg, acc + pos_part t)
            ∷ (c.func, c.arg, acc + pos_part c.ticks + pos_part t)
            ∷ r)
          (ap (λ k. map (delay k) (dues (acc + pos_part c.ticks) q)) (sym m)))
]

-- Where no timer is overdue, the new one included, `timeout` gives the new timer the time asked for,
-- behind the timers due no later. Those keep their times. If the new timer is the first, the others
-- keep theirs too; between two timers, it puts off all behind it by its distance to the timer in
-- front of it.
pub timeout-armed :
    (cq : Entry) (q : List Entry)
    → pos 0 ≤ℤ cq.ticks
    → NoneOverdue q
    → dues 0 (timeout cq q) ≡ armed (cq.func, cq.arg, pos_part cq.ticks) (dues 0 q)
unfolding timeout
timeout-armed cq [] h none = let z : 0 + pos_part cq.ticks ≡ pos_part cq.ticks = omega arith in rw z
timeout-armed cq (c ∷ q) h none = elim (Bool-cases (ltb_ℤ cq.ticks c.ticks)) [
  | inl first ↦
      let test : ltb (pos_part cq.ticks) (0 + pos_part c.ticks) ≡ true = ground arith in
      let z : 0 + pos_part cq.ticks ≡ pos_part cq.ticks = omega arith in
      let e : pos_part cq.ticks + pos_part (c.ticks -ℤ cq.ticks) ≡ 0 + pos_part c.ticks =
        ground (arith, -ℤ_parts c.ticks cq.ticks) in
      rw (first, test, z, e)
  | inr later ↦
      let test : ltb (pos_part cq.ticks) (0 + pos_part c.ticks) ≡ false = ground arith in
      let left : pos 0 ≤ℤ cq.ticks -ℤ c.ticks = ground (arith, -ℤ_parts cq.ticks c.ticks) in
      let e : 0 + pos_part c.ticks + pos_part (cq.ticks -ℤ c.ticks) ≡ pos_part cq.ticks =
        ground (arith, -ℤ_parts cq.ticks c.ticks) in
      let after = insert_after-dues cq (cq.ticks -ℤ c.ticks) (0 + pos_part c.ticks) q left none.1 in
      rw (later, test, after, e)
]

-- The timers without the first one for a function and its argument.
abbrev pub cancelled : ℕ → ℕ → List Due → List Due
cancelled func arg [] = []
cancelled func arg (d ∷ ds) = if d.0 == func && d.1 == arg then ds else d ∷ cancelled func arg ds

give_ticks-dues :
    (t : ℤ) (acc : ℕ) (q : List Entry)
    → pos 0 ≤ℤ t
    → NoneOverdue q
    → dues acc (give_ticks t q) ≡ dues (acc + pos_part t) q
unfolding give_ticks
give_ticks-dues t acc [] h none = refl
give_ticks-dues t acc (c ∷ q) h none =
    let e : acc + pos_part (c.ticks +ℤ t) ≡ acc + pos_part t + pos_part c.ticks =
      ground (arith, +ℤ_parts c.ticks t) in
    rw e

untimeout-dues :
    (func arg acc : ℕ) (q : List Entry)
    → NoneOverdue q
    → dues acc (untimeout func arg q) ≡ cancelled func arg (dues acc q)
unfolding untimeout
untimeout-dues func arg acc [] none = refl
untimeout-dues func arg acc (c ∷ q) none = elim (Bool-cases (same_timer c func arg)) [
  | inl same ↦ rw (same, give_ticks-dues c.ticks acc q none.0 none.1)
  | inr other ↦ rw (other, untimeout-dues func arg (acc + pos_part c.ticks) q none.1)
]

-- Where no timer is overdue, `untimeout` removes the first timer for the function and argument, if
-- there is one, and every other timer keeps its time.
pub untimeout-cancelled :
    (func arg : ℕ) (q : List Entry)
    → NoneOverdue q
    → dues 0 (untimeout func arg q) ≡ cancelled func arg (dues 0 q)
untimeout-cancelled func arg q none = untimeout-dues func arg 0 q none
