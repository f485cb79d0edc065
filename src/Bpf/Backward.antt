-- ===== src/Bpf/Backward.antt =====
-- Backward jumps under `bpf_validate` and `bpf_filter` of generic/net/bpf_filter.c.
use anp.Prelude.{
  ℕ, zero, suc, ◌-◌, ◌^◌, ◌≤◌, ◌<◌, ◌≡◌, refl, true, [], ◌∷◌, List, arith, some, Bool-cases, inl,
  inr, ◌==◌, if◌then◌else◌,
}
use anp.Bpf.Insn.{Insn, decode}
use anp.Bpf.Packet.{Packet}
use anp.Bpf.Filter.{
  Machine, Result, out_of_fuel, stuck, bad_pc, resume, run, fetch, step, execute, jump_always,
  bpf_filter,
}
use anp.Bpf.Validate.{
  bpf_validate, check_from, bad_insn, bad_jump, bad_memory, bad_division, jumps_out, ends_in_ret,
}

-- `BPF_JMP|BPF_JA` by `k`, then `BPF_RET|BPF_K`.
abbrev pub jump_then_ret : ℕ → ℕ → List Insn
jump_then_ret k v =
    record { code = 0x05; jt = 0; jf = 0; k = k }
    ∷ record { code = 0x06; jt = 0; jf = 0; k = v }
    ∷ []

jump_accepted : (k v : ℕ) → 2 ^ 31 ≤ k → k < 2 ^ 32 → bpf_validate (jump_then_ret k v) ≡ true
unfolding bpf_validate check_from bad_insn bad_jump bad_memory bad_division jumps_out ends_in_ret
jump_accepted k v lo hi = ground arith

-- The jump to itself.
loops :
    (fuel v : ℕ) (p : Packet) (wirelen : ℕ) (m : Machine)
    → run fuel (jump_then_ret (2 ^ 32 - 1) v) p wirelen 0 m ≡ out_of_fuel
unfolding run resume fetch step execute jump_always decode
loops zero v p wirelen m = refl
loops (suc fuel) v p wirelen m = loops fuel v p wirelen m

-- A jump further back.
leaves :
    (fuel k v : ℕ) (p : Packet) (wirelen : ℕ) (m : Machine)
    → 2 ^ 31 ≤ k
    → k < 2 ^ 32 - 1
    → run (suc fuel) (jump_then_ret k v) p wirelen 0 m ≡ stuck bad_pc
unfolding run resume fetch step execute jump_always decode
leaves fuel k v p wirelen m lo hi = ground arith

abbrev pub escapes : ℕ → Result
escapes k = if k == 2 ^ 32 - 1 then out_of_fuel else stuck bad_pc

-- `bpf_validate` accepts a filter that begins with a `BPF_JA` by a negative `k`, since
-- `from + k >= len` is a signed test. If `k` is -1, `bpf_filter` jumps to the same instruction for
-- ever: it has not ended after any number of rounds. For every other negative `k` it goes on
-- with an instruction in front of the program, from its second round on.
pub backward_jump_accepted :
    (fuel k v : ℕ) (p : Packet) (wirelen : ℕ) (m : Machine)
    → 2 ^ 31 ≤ k
    → k < 2 ^ 32
    → (bpf_validate (jump_then_ret k v) ≡ true)
      × (bpf_filter (suc fuel) (some (jump_then_ret k v)) p wirelen m ≡ escapes k)
unfolding bpf_filter
backward_jump_accepted fuel k v p wirelen m lo hi = (
  jump_accepted k v lo hi,
  elim (Bool-cases (k == 2 ^ 32 - 1)) [
    | inl self ↦
        let e : k ≡ 2 ^ 32 - 1 = ground arith in rw (self, e) (loops (suc fuel) v p wirelen m)
    | inr out ↦ rw out (leaves fuel k v p wirelen m lo (ground arith))
  ],
)
