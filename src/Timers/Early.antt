-- ===== src/Timers/Early.antt =====
-- The steps of the callout queue of uspace/timers.c, and the time that they leave to a timer.
use anp.Prelude.{
  ℕ, zero, suc, ◌+◌, ◌≤◌, ◌≡◌, refl, true, false, List, [], ◌∷◌, arith, some, Bool-cases, inl, inr,
  sym, ◌∙◌,
}
use anp.Prelude.Int.{ℤ, pos, negsuc, pos_part, ◌+ℤ◌, ◌-ℤ◌, -ℤ_parts, +ℤ_parts, ◌≤ℤ◌, ltb_ℤ}
use mathlib.Core.Bool.{false≢true}
use anp.Timers.Callout.{
  Entry, leb_ℤ, same_timer, insert_after, timeout, give_ticks, untimeout, count_down, next_due,
}
use anp.Timers.Queue.{NoneOverdue, count_down-waiting, count_down-overdue}

-- Every timer for the function and argument is due in `d` ticks or more.
abbrev pub DueIn : ℕ → ℕ → ℕ → ℕ → List Entry → Type 0
DueIn func arg d acc [] = Unit
DueIn func arg d acc (c ∷ q) =
    (same_timer c func arg ≡ true → d ≤ acc + pos_part c.ticks)
    × DueIn func arg d (acc + pos_part c.ticks) q

-- What the kernel and its threads do to the queue, with the ticks that a step takes. The timer for
-- the function and argument in question is not armed again, and nothing is cancelled while a timer
-- is overdue.
pub data Step (func arg : ℕ) : ℕ → List Entry → List Entry → Type 0 where
  clock : (q : List Entry) → Step func arg 1 q (count_down q).0
  arm :
      (cq : Entry) (q : List Entry)
      → pos 0 ≤ℤ cq.ticks
      → same_timer cq func arg ≡ false
      → Step func arg 0 q (timeout cq q)
  cancel : (f a : ℕ) (q : List Entry) → NoneOverdue q → Step func arg 0 q (untimeout f a q)
  call : (c : Entry) (q q' : List Entry) → next_due q ≡ some (c, q') → Step func arg 0 q q'

DueIn-weaken :
    (func arg d d' : ℕ) (q : List Entry) (acc acc' : ℕ)
    → d' + acc ≤ d + acc'
    → DueIn func arg d acc q
    → DueIn func arg d' acc' q
DueIn-weaken func arg d d' [] acc acc' h i = tt
DueIn-weaken func arg d d' (c ∷ q) acc acc' h (i, r) = (
  λ e. omega (arith, i e),
  DueIn-weaken func arg d d' q (acc + pos_part c.ticks) (acc' + pos_part c.ticks) (omega arith) r,
)

module _ (func arg : ℕ) where
  count_down-DueIn :
      (d : ℕ) (q : List Entry) → DueIn func arg (suc d) 0 q → DueIn func arg d 0 (count_down q).0
  count_down-DueIn d [] i = unfold count_down in tt
  count_down-DueIn d (c ∷ q) (i, r) = front c.ticks refl (count_down-DueIn d q)
    where
      past :
          c.ticks ≤ℤ pos 0
          → (DueIn func arg (suc d) 0 q → DueIn func arg d 0 (count_down q).0)
          → DueIn func arg d 0 (count_down (c ∷ q)).0
      past h ih =
          let now : pos_part c.ticks ≡ 0 = ground arith in
          let still : pos_part (c.ticks -ℤ pos 1) ≡ 0 = ground (arith, -ℤ_parts c.ticks (pos 1)) in
          let r' : DueIn func arg (suc d) 0 q =
            DueIn-weaken func arg (suc d) (suc d) q (0 + pos_part c.ticks) 0 (omega arith) r in
          rw (count_down-overdue c q h) (
            λ e. omega (arith, i e),
            DueIn-weaken func arg d d (count_down q).0 0 (0 + pos_part (c.ticks -ℤ pos 1))
                (omega arith) (ih r'),
          )

      front :
          (t : ℤ)
          → c.ticks ≡ t
          → (DueIn func arg (suc d) 0 q → DueIn func arg d 0 (count_down q).0)
          → DueIn func arg d 0 (count_down (c ∷ q)).0
      front (pos (suc n)) e ih =
          let p : pos_part c.ticks ≡ suc n = rw e in
          rw (count_down-waiting c q n e) (
            λ h. omega (arith, i h),
            DueIn-weaken func arg (suc d) d q (0 + pos_part c.ticks) (0 + n) (omega arith) r,
          )
      front (pos zero) e ih = past (rw e (omega arith)) ih
      front (negsuc n) e ih = past (rw e (omega arith)) ih

  insert_after-DueIn :
      (cq : Entry) (d : ℕ) (q : List Entry) (t : ℤ) (acc : ℕ)
      → pos 0 ≤ℤ t
      → (same_timer cq func arg ≡ true → d ≤ acc + pos_part t)
      → DueIn func arg d acc q
      → DueIn func arg d acc (insert_after cq t q)
  unfolding insert_after
  insert_after-DueIn cq d [] t acc h new i = (new, tt)
  insert_after-DueIn cq d (c ∷ q) t acc h new (i, r) = elim (Bool-cases (leb_ℤ c.ticks t)) [
    | inl before ↦
        let left : pos 0 ≤ℤ t -ℤ c.ticks = ground (arith, -ℤ_parts t c.ticks) in
        let more : acc + pos_part t ≤ acc + pos_part c.ticks + pos_part (t -ℤ c.ticks) =
          ground (arith, -ℤ_parts t c.ticks) in
        rw before (
          i,
          insert_after-DueIn cq d q (t -ℤ c.ticks) (acc + pos_part c.ticks) left
              (λ e. omega (arith, new e)) r,
        )
    | inr behind ↦ rw behind (
      new,
      (
        λ e. omega (arith, i e),
        DueIn-weaken func arg d d q (acc + pos_part c.ticks) (acc + pos_part t + pos_part c.ticks)
            (omega arith) r,
      ),
    )
  ]

  pub timeout-DueIn :
      (cq : Entry) (d : ℕ) (q : List Entry)
      → pos 0 ≤ℤ cq.ticks
      → (same_timer cq func arg ≡ true → d ≤ pos_part cq.ticks)
      → DueIn func arg d 0 q
      → DueIn func arg d 0 (timeout cq q)
  unfolding timeout
  timeout-DueIn cq d [] h new i = (λ e. omega (arith, new e), tt)
  timeout-DueIn cq d (c ∷ q) h new (i, r) = elim (Bool-cases (ltb_ℤ cq.ticks c.ticks)) [
    | inl first ↦
        let e : pos_part cq.ticks + pos_part (c.ticks -ℤ cq.ticks) ≡ pos_part c.ticks =
          ground (arith, -ℤ_parts c.ticks cq.ticks) in
        rw first (
          λ s. omega (arith, new s),
          (
            λ s. omega (arith, i s),
            DueIn-weaken func arg d d q (0 + pos_part c.ticks)
                (0 + pos_part cq.ticks + pos_part (c.ticks -ℤ cq.ticks)) (omega arith) r,
          ),
        )
    | inr later ↦
        let left : pos 0 ≤ℤ cq.ticks -ℤ c.ticks = ground (arith, -ℤ_parts cq.ticks c.ticks) in
        let more : pos_part cq.ticks ≤ 0 + pos_part c.ticks + pos_part (cq.ticks -ℤ c.ticks) =
          ground (arith, -ℤ_parts cq.ticks c.ticks) in
        rw later (
          i,
          insert_after-DueIn cq d q (cq.ticks -ℤ c.ticks) (0 + pos_part c.ticks) left
              (λ e. omega (arith, new e)) r,
        )
  ]

  give_ticks-DueIn :
      (t : ℤ) (d acc : ℕ) (q : List Entry)
      → pos 0 ≤ℤ t
      → NoneOverdue q
      → DueIn func arg d (acc + pos_part t) q
      → DueIn func arg d acc (give_ticks t q)
  unfolding give_ticks
  give_ticks-DueIn t d acc [] h ok i = i
  give_ticks-DueIn t d acc (c ∷ q) h ok (i, r) =
      let e : acc + pos_part t + pos_part c.ticks ≡ acc + pos_part (c.ticks +ℤ t) =
        ground (arith, +ℤ_parts c.ticks t) in
      rw (← e) (i, r)

  untimeout-DueIn :
      (f a d : ℕ) (q : List Entry) (acc : ℕ)
      → NoneOverdue q
      → DueIn func arg d acc q
      → DueIn func arg d acc (untimeout f a q)
  unfolding untimeout
  untimeout-DueIn f a d [] acc ok i = i
  untimeout-DueIn f a d (c ∷ q) acc ok (i, r) = elim (Bool-cases (same_timer c f a)) [
    | inl same ↦ rw same (give_ticks-DueIn c.ticks d acc q ok.0 ok.1 r)
    | inr other ↦ rw other (i, untimeout-DueIn f a d q (acc + pos_part c.ticks) ok.1 r)
  ]

  pub next_due-DueIn :
      (d : ℕ) (c : Entry) (q q' : List Entry)
      → next_due q ≡ some (c, q')
      → DueIn func arg d 0 q
      → DueIn func arg d 0 q' × (same_timer c func arg ≡ true → d ≡ 0)
  unfolding next_due
  next_due-DueIn d c [] q' e i = absurd cc
  next_due-DueIn d c (b ∷ q) q' e (i, r) = elim (Bool-cases (leb_ℤ b.ticks (pos 0))) [
    | inl due ↦
        let z : pos_part b.ticks ≡ 0 = ground arith in
        let e' = rw due at e in
        let same : b ≡ c = cc in
        let rest : q ≡ q' = cc in
        rw (← same, ← rest)
          (
            DueIn-weaken func arg d d q (0 + pos_part b.ticks) 0 (omega arith) r,
            λ s. omega (arith, i s),
          )
    | inr wait ↦ let e' = rw wait at e in absurd cc
  ]

  pub Step-DueIn :
      (d n : ℕ) (q q' : List Entry)
      → Step func arg n q q'
      → DueIn func arg (n + d) 0 q
      → DueIn func arg d 0 q'
  Step-DueIn d _ q _ (clock _) i =
      let e : 1 + d ≡ suc d = omega arith in count_down-DueIn d q (rw e at i)
  Step-DueIn d _ q _ (arm cq _ h other) i =
      let e : 0 + d ≡ d = omega arith in
      timeout-DueIn cq d q h (λ s. absurd (false≢true (sym other ∙ s))) (rw e at i)
  Step-DueIn d _ q _ (cancel f a _ ok) i =
      let e : 0 + d ≡ d = omega arith in untimeout-DueIn f a d q 0 ok (rw e at i)
  Step-DueIn d _ q q' (call c _ _ h) i =
      let e : 0 + d ≡ d = omega arith in (next_due-DueIn d c q q' h (rw e at i)).0
