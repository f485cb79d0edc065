-- ===== src/Cksum/Sum.antt =====
-- Sums of one's complement: numbers that are equal modulo 65535, and 0 together.
use Prim.Native.Nat.{min}
use anp.Prelude.{
  ℕ, ◌+◌, ◌-◌, ◌*◌, ◌/◌, ◌%◌, ◌^◌, ◌≤◌, ◌<◌, ◌≡◌, refl, ◌∙◌, Bool-cases, ltb, inl, inr,
  if◌then◌else◌, arith,
}
use anp.Cksum.{reduce}

pub record Same (a b : ℕ) : Type 0 where
  pub modulo : a % 65535 ≡ b % 65535
  pub zero_together : min a 1 ≡ min b 1

pub Same-refl : (a : ℕ) → Same a a
Same-refl a = record { modulo = refl; zero_together = refl }

pub Same-trans : {a b c : ℕ} → Same a b → Same b c → Same a c
Same-trans s t = record {
  modulo = s.modulo ∙ t.modulo;
  zero_together = s.zero_together ∙ t.zero_together;
}

pub Same-add : {a b : ℕ} (c : ℕ) → Same a b → Same (a + c) (b + c)
Same-add c s = record {
  modulo = omega (arith, s.modulo);
  zero_together = omega (arith, s.zero_together);
}

pub Same-shift : {a b : ℕ} → Same a b → Same (a * 256) (b * 256)
Same-shift s = record {
  modulo = omega (arith, s.modulo);
  zero_together = omega (arith, s.zero_together);
}

pub reduce-Same : (a : ℕ) → Same (reduce a) a
unfolding reduce
reduce-Same a = elim (Bool-cases (ltb 65535 (a % 65536 + a / 65536))) [
  | inl e ↦ rw e (record { modulo = ground arith; zero_together = ground arith })
  | inr e ↦ rw e (record { modulo = ground arith; zero_together = ground arith })
]

pub reduce_le : (a : ℕ) → a < 2 ^ 32 → reduce a ≤ 65535
unfolding reduce
reduce_le a h = ground arith

-- The only number for its class from 1 to 65535, or 0.
pub norm : ℕ → ℕ
norm n = if ltb 0 n then (n - 1) % 65535 + 1 else 0

pub Same-norm : (a b : ℕ) → Same a b → a ≤ 65535 → a ≡ norm b
unfolding norm
Same-norm a b s h = ground (arith, s.modulo, s.zero_together)

pub Same-eq : {a a' b b' : ℕ} → a ≡ a' → b ≡ b' → Same a' b' → Same a b
Same-eq {a} {a'} {b} {b'} p q s = record {
  modulo = omega (arith, s.modulo, p, q);
  zero_together = omega (arith, s.zero_together, p, q);
}

-- A multiple of 65535 more makes no difference to a number that is not smaller than its factor.
pub Same-carry : (a k : ℕ) → k ≤ a → Same (a + 65535 * k) a
Same-carry a k h = record { modulo = omega arith; zero_together = omega arith }

pub Same-twice : {a b : ℕ} → Same a b → Same (a * 65536) b
Same-twice s = record {
  modulo = omega (arith, s.modulo);
  zero_together = omega (arith, s.zero_together);
}
