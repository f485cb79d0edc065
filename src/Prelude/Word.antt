-- ===== src/Prelude/Word.antt =====
-- 32-bit machine words as native numbers below 2 ^ 32. A C `int` or `long` is the bit pattern.
use anp.Prelude.{ℕ, ◌+◌, ◌-◌, ◌*◌, ◌%◌, ◌^◌, Bool, leb}

abbrev pub word_mod : ℕ
word_mod = 2 ^ 32

-- `a + b`, `a - b`, `a * b` and `-a` on `u_long`.
abbrev pub add32 : ℕ → ℕ → ℕ
add32 a b = (a + b) % word_mod

abbrev pub sub32 : ℕ → ℕ → ℕ
sub32 a b = (a + word_mod - b) % word_mod

abbrev pub mul32 : ℕ → ℕ → ℕ
mul32 a b = a * b % word_mod

abbrev pub neg32 : ℕ → ℕ
neg32 a = (word_mod - a) % word_mod

-- The sign bit of an `int`.
abbrev pub is_neg : ℕ → Bool
is_neg a = leb (2 ^ 31) a
