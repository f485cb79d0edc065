-- ===== src/Timers/Time.antt =====
-- What the `timeval` arithmetic of uspace/timers.c computes.
use anp.Prelude.{◌*◌, ◌≡◌, ◌⊎◌, inl, inr, refl, some, arith}
use anp.Prelude.Int.{ℤ, pos, pos_part, neg_part, ◌+ℤ◌, ◌-ℤ◌, ◌*ℤ◌, ◌≤ℤ◌, +ℤ_parts, int_laws}
use anp.Prelude.{Bool-cases, false, ◌∙◌}
use anp.Prelude.Int.{ltb_ℤ, ltb_ℤ→lt, ltb_ℤ→ge}
use anp.Timers.TimeVal.{
  TimeVal, million, tick, bumptime, tv_diff, borrow, carry, timevalfix, timevaladd, itimerfix,
}

-- Microseconds below a million.
abbrev pub Normal : TimeVal → Type 0
Normal t = (pos 0 ≤ℤ t.usec) × (t.usec +ℤ pos 1 ≤ℤ million)

-- The microseconds that a time stands for.
abbrev pub total : TimeVal → ℤ
total t = t.sec *ℤ million +ℤ t.usec

*ℤ_million :
    (a : ℤ)
    → (pos_part (a *ℤ million) ≡ pos_part a * 1_000_000)
      × (neg_part (a *ℤ million) ≡ neg_part a * 1_000_000)
unfolding ◌*ℤ◌
*ℤ_million a = ground arith

ruleset time_laws = (int_laws, *ℤ_million)

nonneg-ltb_ℤ : (a : ℤ) → pos 0 ≤ℤ a → ltb_ℤ a (pos 0) ≡ false
nonneg-ltb_ℤ a h = ground arith

carry_lem :
    (t : TimeVal)
    → pos 0 ≤ℤ t.usec
    → t.usec +ℤ pos 1 ≤ℤ million +ℤ million
    → (total (carry t) ≡ total t) × Normal (carry t)
unfolding carry
carry_lem t lo hi = elim (Bool-cases (ltb_ℤ t.usec million)) [
  | inl e ↦ let h = ltb_ℤ→lt t.usec million e in rw e (refl, (lo, omega time_laws))
  | inr e ↦
      let h = ltb_ℤ→ge t.usec million e in
      rw e (omega time_laws, (omega time_laws, omega time_laws))
]

-- The sum of two normal times is normal, and stands for the sum of their microseconds.
pub timevaladd-total :
    (a b : TimeVal)
    → Normal a
    → Normal b
    → (total (timevaladd a b) ≡ total a +ℤ total b) × Normal (timevaladd a b)
unfolding timevaladd timevalfix borrow
timevaladd-total a b ha hb =
    let s : TimeVal = record { sec = a.sec +ℤ b.sec; usec = a.usec +ℤ b.usec } in
    let n : ltb_ℤ (a.usec +ℤ b.usec) (pos 0) ≡ false =
      nonneg-ltb_ℤ (a.usec +ℤ b.usec) (omega time_laws) in
    let (e, h) = carry_lem s (omega time_laws) (omega time_laws) in rw n (e ∙ omega time_laws, h)

-- The difference of two normal times is normal, and stands for the difference of their
-- microseconds, also where it is negative.
pub tv_diff-total :
    (a b : TimeVal)
    → Normal a
    → Normal b
    → (total (tv_diff a b) ≡ total a -ℤ total b) × Normal (tv_diff a b)
unfolding tv_diff
tv_diff-total a b ha hb = elim (Bool-cases (ltb_ℤ a.usec b.usec)) [
  | inl e ↦
      let h = ltb_ℤ→lt a.usec b.usec e in rw e (omega time_laws, (omega time_laws, omega time_laws))
  | inr e ↦
      let h = ltb_ℤ→ge a.usec b.usec e in rw e (omega time_laws, (omega time_laws, omega time_laws))
]

-- A tick moves a normal time on by 10000 microseconds, and keeps it normal.
pub bumptime-total :
    (t : TimeVal)
    → Normal t
    → (total (bumptime t tick) ≡ total t +ℤ tick) × Normal (bumptime t tick)
unfolding bumptime
bumptime-total t h = elim (Bool-cases (ltb_ℤ (t.usec +ℤ tick) million)) [
  | inl e ↦
      let g = ltb_ℤ→lt (t.usec +ℤ tick) million e in
      rw e (omega time_laws, (omega time_laws, omega time_laws))
  | inr e ↦
      let g = ltb_ℤ→ge (t.usec +ℤ tick) million e in
      rw e (omega time_laws, (omega time_laws, omega time_laws))
]

-- What `itimerfix` accepts is normal and has from 0 to 100000000 seconds. The seconds are those
-- given, the microseconds are at least those given, and the time is zero, or at least a second, or
-- at least a tick.
pub itimerfix-accepts :
    (t u : TimeVal)
    → itimerfix t ≡ some u
    → Normal u
      × (pos 0 ≤ℤ u.sec)
      × (u.sec ≤ℤ pos 100_000_000)
      × (u.sec ≡ t.sec)
      × (t.usec ≤ℤ u.usec)
      × ((u.sec ≡ pos 0) × (u.usec ≡ pos 0) ⊎ ((pos 1 ≤ℤ u.sec) ⊎ (tick ≤ℤ u.usec)))
unfolding itimerfix
itimerfix-accepts t u h = ground (arith, +ℤ_parts u.usec (pos 1), +ℤ_parts t.usec (pos 1))
