-- ===== src/Timers/Callout.antt =====
-- The callout queue of uspace/timers.c: `timeout`, `untimeout`, `hardclock` and the work of
-- `callout_thread`. `ticks` is a signed integer that is taken not to overflow an `int`.
use anp.Prelude.{
  ℕ, ◌+◌, Bool, true, false, ◌&&◌, not, Option, none, some, List, [], ◌∷◌, ◌==◌, if◌then◌else◌,
}
use anp.Prelude.Int.{ℤ, pos, ◌+ℤ◌, ◌-ℤ◌, ltb_ℤ}
use anp.Timers.TimeVal.{TimeVal, bumptime, tick}

-- `cqueue_t`. A function and an argument are compared, and called, and are numbers here.
pub record Entry : Type 0 where
  pub func : ℕ
  pub arg : ℕ
  pub ticks : ℤ

abbrev pub leb_ℤ : ℤ → ℤ → Bool
leb_ℤ a b = not (ltb_ℤ b a)

abbrev pub same_timer : Entry → ℕ → ℕ → Bool
same_timer e func arg = e.func == func && e.arg == arg

-- The loop of `timeout`, behind an entry that the new one follows.
unfoldable pub insert_after : Entry → ℤ → List Entry → List Entry
insert_after cq ticks [] = record cq { ticks = ticks } ∷ []
insert_after cq ticks (c ∷ rest) =
    if leb_ℤ c.ticks ticks
    then c ∷ insert_after cq (ticks -ℤ c.ticks) rest
    else record cq { ticks = ticks } ∷ c ∷ rest

unfoldable pub timeout : Entry → List Entry → List Entry
timeout cq [] = cq ∷ []
timeout cq (head ∷ rest) =
    if ltb_ℤ cq.ticks head.ticks
    then cq ∷ record head { ticks = head.ticks -ℤ cq.ticks } ∷ rest
    else head ∷ insert_after cq (cq.ticks -ℤ head.ticks) rest

-- The ticks of a removed entry go to the one behind it.
unfoldable pub give_ticks : ℤ → List Entry → List Entry
give_ticks t [] = []
give_ticks t (c ∷ rest) = record c { ticks = c.ticks +ℤ t } ∷ rest

unfoldable pub untimeout : ℕ → ℕ → List Entry → List Entry
untimeout func arg [] = []
untimeout func arg (c ∷ rest) =
    if same_timer c func arg then give_ticks c.ticks rest else c ∷ untimeout func arg rest

-- The loop of `hardclock`, and `needsoft`.
unfoldable pub count_down : List Entry → List Entry × Bool
count_down [] = ([], false)
count_down (c ∷ rest) =
    let t = c.ticks -ℤ pos 1 in
    let (rest', _) = count_down rest in
    if ltb_ℤ (pos 0) t
    then (record c { ticks = t } ∷ rest, false)
    else if leb_ℤ (pos 0) t
    then (record c { ticks = t } ∷ rest, true)
    else (record c { ticks = t } ∷ rest', true)

-- The state that the clock threads share. `softwork` is a pending signal on `clock_cond`.
pub record Clock : Type 0 where
  pub queue : List Entry
  pub ticks : ℕ
  pub time : TimeVal
  pub softwork : Bool

unfoldable pub hardclock : Clock → Clock
hardclock c =
    let (queue, needsoft) = count_down c.queue in
    record {
      queue = queue;
      ticks = c.ticks + 1;
      time = bumptime c.time tick;
      softwork = if needsoft then true else c.softwork;
    }

-- The test of `callout_thread`: the front entry is due.
unfoldable pub expired : List Entry → Bool
expired [] = false
expired (c ∷ rest) = leb_ℤ c.ticks (pos 0)

-- One round of its inner loop: the entry whose function is called, and the queue during the call.
unfoldable pub next_due : List Entry → Option (Entry × List Entry)
next_due [] = none
next_due (c ∷ rest) = if leb_ℤ c.ticks (pos 0) then some (c, rest) else none
