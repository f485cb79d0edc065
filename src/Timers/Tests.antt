-- ===== src/Timers/Tests.antt =====
-- Runs of the timers of uspace/timers.c.
use anp.Prelude.{◌≤◌, ◌≡◌, ◌⊎◌, refl, some, List, [], ◌∷◌, arith}
use anp.Prelude.Int.{pos, ◌+ℤ◌, ◌-ℤ◌, ◌≤ℤ◌}
use anp.Timers.TimeVal.{TimeVal, tick, timevaladd, itimerfix}
use anp.Timers.Callout.{Entry, timeout, untimeout, count_down, expired, next_due}
use anp.Timers.Time.{Normal, total, timevaladd-total, itimerfix-accepts}
use anp.Timers.Queue.{dues, NoneOverdue, count_down-one_less}
use anp.Timers.Arming.{timeout-armed, untimeout-cancelled}
use anp.Timers.Early.{clock}
use anp.Timers.Runs.{Run, start, step, never_early}

abbrev early : TimeVal
early = record { sec = pos 3; usec = pos 700_000 }

abbrev late : TimeVal
late = record { sec = pos 5; usec = pos 400_000 }

early-Normal : Normal early
unfolding ◌+ℤ◌
early-Normal = (ground arith, ground arith)

late-Normal : Normal late
unfolding ◌+ℤ◌
late-Normal = (ground arith, ground arith)

-- Two timers, due in 2 and in 5 ticks.
abbrev two_timers : List Entry
two_timers =
    record { func = 1; arg = 0; ticks = pos 2 } ∷ record { func = 2; arg = 0; ticks = pos 3 } ∷ []

abbrev new_timer : Entry
new_timer = record { func = 3; arg = 0; ticks = pos 1 }

two_timers_ahead : NoneOverdue two_timers
two_timers_ahead = (omega arith, (omega arith, tt))

timevaladd-total_example :
    (total (timevaladd early late) ≡ total early +ℤ total late) × Normal (timevaladd early late)
timevaladd-total_example = timevaladd-total early late early-Normal late-Normal

abbrev a_moment : TimeVal
a_moment = record { sec = pos 0; usec = pos 20 }

abbrev a_tick : TimeVal
a_tick = record { sec = pos 0; usec = tick }

rounded_up : itimerfix a_moment ≡ some a_tick
unfolding itimerfix
rounded_up = refl

itimerfix-accepts_example :
    Normal a_tick
    × (pos 0 ≤ℤ pos 0)
    × (pos 0 ≤ℤ pos 100_000_000)
    × (pos 0 ≡ pos 0)
    × (pos 20 ≤ℤ tick)
    × ((pos 0 ≡ pos 0) × (tick ≡ pos 0) ⊎ ((pos 1 ≤ℤ pos 0) ⊎ (tick ≤ℤ tick)))
itimerfix-accepts_example = itimerfix-accepts a_moment a_tick rounded_up

count_down-one_less_example :
    (dues 0 (count_down two_timers).0 ≡ (1, 0, 1) ∷ (2, 0, 4) ∷ [])
    × ((count_down two_timers).1 ≡ expired (count_down two_timers).0)
count_down-one_less_example = count_down-one_less two_timers

timeout-armed_example :
    dues 0 (timeout new_timer two_timers) ≡ (3, 0, 1) ∷ (1, 0, 2) ∷ (2, 0, 5) ∷ []
timeout-armed_example = timeout-armed new_timer two_timers (omega arith) two_timers_ahead

untimeout-cancelled_example : dues 0 (untimeout 1 0 two_timers) ≡ (2, 0, 5) ∷ []
untimeout-cancelled_example = untimeout-cancelled 1 0 two_timers two_timers_ahead

abbrev after_tick : List Entry
after_tick =
    record { func = 3; arg = 0; ticks = pos 0 }
    ∷ record { func = 1; arg = 0; ticks = pos 1 }
    ∷ record { func = 2; arg = 0; ticks = pos 3 }
    ∷ []

ticked : (count_down (timeout new_timer two_timers)).0 ≡ after_tick
unfolding count_down timeout ◌-ℤ◌
ticked = refl

one_tick : Run 3 0 1 (timeout new_timer two_timers) after_tick
unfolding count_down timeout ◌-ℤ◌
one_tick =
    step 1 0 (timeout new_timer two_timers) after_tick after_tick
      (clock (timeout new_timer two_timers)) (start after_tick)

now_due :
    next_due after_tick
    ≡ some (
      record { func = 3; arg = 0; ticks = pos 0 },
      record { func = 1; arg = 0; ticks = pos 1 }
          ∷ record { func = 2; arg = 0; ticks = pos 3 }
          ∷ [],
    )
unfolding next_due
now_due = refl

never_early_example : 1 ≤ 1
never_early_example =
    never_early new_timer (record { func = 3; arg = 0; ticks = pos 0 }) 1 1 two_timers after_tick
      (record { func = 1; arg = 0; ticks = pos 1 }
        ∷ record { func = 2; arg = 0; ticks = pos 3 }
        ∷ [])
      refl (refl, (refl, tt)) one_tick now_due refl
