-- ===== src/Timers/Runs.antt =====
-- Runs of the callout queue of uspace/timers.c.
use anp.Prelude.{ℕ, ◌+◌, ◌-◌, ◌≤◌, ◌≡◌, true, false, List, [], ◌∷◌, arith, some, sym, ◌∙◌}
use mathlib.Core.Bool.{false≢true}
use native.Mathlib.Decide.{dec_le}
use anp.Prelude.Int.{pos, pos_part}
use anp.Timers.Callout.{Entry, same_timer, timeout, next_due}
use anp.Timers.Early.{DueIn, Step, Step-DueIn, next_due-DueIn, timeout-DueIn}

-- A sequence of steps, with the ticks of the clock among them.
pub data Run (func arg : ℕ) : ℕ → List Entry → List Entry → Type 0 where
  start : (q : List Entry) → Run func arg 0 q q
  step :
      (m n : ℕ) (q r s : List Entry)
      → Step func arg m q r
      → Run func arg n r s
      → Run func arg (m + n) q s

abbrev pub NotArmed : ℕ → ℕ → List Entry → Type 0
NotArmed func arg [] = Unit
NotArmed func arg (c ∷ q) = (same_timer c func arg ≡ false) × NotArmed func arg q

NotArmed-DueIn :
    (func arg d : ℕ) (q : List Entry) (acc : ℕ) → NotArmed func arg q → DueIn func arg d acc q
NotArmed-DueIn func arg d [] acc h = tt
NotArmed-DueIn func arg d (c ∷ q) acc h = (
  λ s. absurd (false≢true (sym h.0 ∙ s)),
  NotArmed-DueIn func arg d q (acc + pos_part c.ticks) h.1,
)

Run-DueIn :
    (func arg d n : ℕ) (q q' : List Entry)
    → Run func arg n q q'
    → DueIn func arg (n + d) 0 q
    → DueIn func arg d 0 q'
Run-DueIn func arg d _ q _ (start _) i = let e : 0 + d ≡ d = omega arith in rw e at i
Run-DueIn func arg d _ q q' (step m n _ r _ st rest) i =
    let e : m + n + d ≡ m + (n + d) = omega arith in
    Run-DueIn func arg d n r q' rest (Step-DueIn func arg (n + d) m q r st (rw e at i))

Run-short :
    (func arg d n : ℕ) (q q' q'' : List Entry) (c : Entry)
    → Run func arg n q q'
    → DueIn func arg d 0 q
    → n ≤ d
    → next_due q' ≡ some (c, q'')
    → same_timer c func arg ≡ true
    → d ≤ n
Run-short func arg d n q q' q'' c run i le e s =
    let sum : n + (d - n) ≡ d = omega arith in
    let i' = Run-DueIn func arg (d - n) n q q' run (rw sum i) in
    let z = (next_due-DueIn func arg (d - n) c q' q'' e i').1 s in omega arith

-- A timer that `timeout` arms for `d` ticks, for a function and argument that no timer is armed for,
-- is not called before the clock has ticked `d` times, whatever timers are armed for a number of
-- ticks that is not negative, cancelled and called in between. The timer itself is not armed again,
-- and nothing is cancelled while a timer is overdue.
pub never_early :
    (cq c : Entry) (d n : ℕ) (q q' q'' : List Entry)
    → cq.ticks ≡ pos d
    → NotArmed cq.func cq.arg q
    → Run cq.func cq.arg n (timeout cq q) q'
    → next_due q' ≡ some (c, q'')
    → same_timer c cq.func cq.arg ≡ true
    → d ≤ n
never_early cq c d n q q' q'' ticks fresh run e s = elim (dec_le d n) [
  | yes h ↦ h
  | no h ↦
      let armed =
        timeout-DueIn cq.func cq.arg cq d q (rw ticks (omega arith)) (λ _. rw ticks (omega arith))
          (NotArmed-DueIn cq.func cq.arg d q 0 fresh) in
      Run-short cq.func cq.arg d n (timeout cq q) q' q'' c run armed (omega arith) e s
]
