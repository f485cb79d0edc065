-- ===== src/Timers/Queue.antt =====
-- The callout queue of uspace/timers.c as the list of its timers with the ticks left to each.
use anp.Prelude.{ℕ, zero, suc, ◌+◌, ◌-◌, ◌≡◌, refl, List, [], ◌∷◌, map, arith}
use anp.Prelude.Int.{ℤ, pos, negsuc, pos_part, ◌-ℤ◌, -ℤ_parts, ◌≤ℤ◌}
use anp.Timers.Callout.{Entry, count_down, expired}

-- A function, its argument, and the ticks until it may be called.
abbrev pub Due : Type 0
Due = ℕ × ℕ × ℕ

-- Ticks are differences between neighbours. An overdue entry, below 0, waits for nothing.
abbrev pub dues : ℕ → List Entry → List Due
dues acc [] = []
dues acc (c ∷ q) = (c.func, c.arg, acc + pos_part c.ticks) ∷ dues (acc + pos_part c.ticks) q

abbrev pub NoneOverdue : List Entry → Type 0
NoneOverdue [] = Unit
NoneOverdue (c ∷ q) = (pos 0 ≤ℤ c.ticks) × NoneOverdue q

abbrev pub one_less : Due → Due
one_less (f, a, d) = (f, a, d - 1)

abbrev pub delay : ℕ → Due → Due
delay n (f, a, d) = (f, a, d + n)

dues-suc : (acc : ℕ) (q : List Entry) → dues acc q ≡ map one_less (dues (suc acc) q)
dues-suc acc [] = refl
dues-suc acc (c ∷ q) =
    let n : suc acc + pos_part c.ticks ≡ suc (acc + pos_part c.ticks) = omega arith in
    let m : suc (acc + pos_part c.ticks) - 1 ≡ acc + pos_part c.ticks = omega arith in
    rw (n, m, ← dues-suc (acc + pos_part c.ticks) q)

pub dues-add : (acc n : ℕ) (q : List Entry) → dues (acc + n) q ≡ map (delay n) (dues acc q)
dues-add acc n [] = refl
dues-add acc n (c ∷ q) =
    let e : acc + n + pos_part c.ticks ≡ acc + pos_part c.ticks + n = omega arith in
    rw (e, dues-add (acc + pos_part c.ticks) n q)

-- One step of `count_down`, by what it leaves of the front entry's ticks.
pub count_down-waiting :
    (c : Entry) (q : List Entry) (n : ℕ)
    → c.ticks ≡ pos (suc n)
    → (count_down (c ∷ q)).0 ≡ record c { ticks = pos n } ∷ q
unfolding count_down ◌-ℤ◌
count_down-waiting c q n e = ground arith

pub count_down-overdue :
    (c : Entry) (q : List Entry)
    → c.ticks ≤ℤ pos 0
    → (count_down (c ∷ q)).0 ≡ record c { ticks = c.ticks -ℤ pos 1 } ∷ (count_down q).0
unfolding count_down
count_down-overdue c q h = ground (arith, -ℤ_parts c.ticks (pos 1))

count_down-dues : (q : List Entry) → dues 0 (count_down q).0 ≡ map one_less (dues 0 q)
count_down-dues [] = unfold count_down in refl
count_down-dues (c ∷ q) = front c.ticks refl (count_down-dues q)
  where
    past :
        c.ticks ≤ℤ pos 0
        → dues 0 (count_down q).0 ≡ map one_less (dues 0 q)
        → dues 0 (count_down (c ∷ q)).0 ≡ map one_less (dues 0 (c ∷ q))
    past h ih =
        let now : pos_part c.ticks ≡ 0 = ground arith in
        let still : pos_part (c.ticks -ℤ pos 1) ≡ 0 = ground (arith, -ℤ_parts c.ticks (pos 1)) in
        rw (count_down-overdue c q h, now, still, ih)

    front :
        (t : ℤ)
        → c.ticks ≡ t
        → dues 0 (count_down q).0 ≡ map one_less (dues 0 q)
        → dues 0 (count_down (c ∷ q)).0 ≡ map one_less (dues 0 (c ∷ q))
    front (pos (suc n)) e ih =
        let one : 0 + suc n ≡ suc (0 + n) = omega arith in
        let less : suc (0 + n) - 1 ≡ 0 + n = omega arith in
        rw (count_down-waiting c q n e, e, one, less, ← dues-suc (0 + n) q)
    front (pos zero) e ih = past (rw e (omega arith)) ih
    front (negsuc n) e ih = past (rw e (omega arith)) ih

count_down-expired : (q : List Entry) → (count_down q).1 ≡ expired (count_down q).0
unfolding count_down expired
count_down-expired [] = refl
count_down-expired (c ∷ q) = ground arith

-- `hardclock` takes a tick from the time left to each timer that is not due, and keeps the timers
-- and their order. It asks for the softclock thread exactly when the front timer is then due, so
-- no due timer is left without a signal.
pub count_down-one_less :
    (q : List Entry)
    → let (q', needsoft) = count_down q in
      (dues 0 q' ≡ map one_less (dues 0 q)) × (needsoft ≡ expired q')
count_down-one_less q = (count_down-dues q, count_down-expired q)
