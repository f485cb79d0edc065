-- ===== src/Bpf/Checked.antt =====
-- What `bpf_validate` of generic/net/bpf_filter.c leaves known of each instruction.
use anp.Prelude.{
  ℕ, zero, suc, ◌+◌, ◌-◌, ◌^◌, ◌<◌, ◌≡◌, ◌≢◌, true, false, some, List, [], ◌∷◌, arith, length,
  get_elem?,
}
use native.Mathlib.Decide.{ℕ_discrete}
use Prim.Native.Nat.add
use anp.Bpf.Insn.{Insn}
use anp.Bpf.Validate.{
  class_of, op_of, mode_of, memwords, jumps_out, bad_jump, bad_memory, bad_division, bad_insn,
  check_from, ends_in_ret, bpf_validate,
}

-- No `BPF_JA` goes backwards or past 2 ^ 31: the part of "forward" that `bpf_validate` leaves open.
abbrev pub Forward : ℕ → List Insn → Type 0
Forward len [] = Unit
Forward len (i ∷ f) = (i.code ≡ 0x05 → i.k + len < 2 ^ 31) × Forward len f

-- `BPF_STX` and `BPF_LDX|BPF_MEM` stay inside `mem`: `bpf_validate` does not look at them.
abbrev pub MemWithin : List Insn → Type 0
MemWithin [] = Unit
MemWithin (i ∷ f) =
    (i.code ≡ 0x03 → i.k < memwords) × (i.code ≡ 0x61 → i.k < memwords) × MemWithin f

-- What is known of the instruction at `pc`.
pub record Checked (len pc : ℕ) (i : Insn) : Type 0 where
  pub inside : pc < len
  pub last : class_of i.code ≢ 6 → pc + 1 < len
  pub good : bad_insn i (pc + 1) len ≡ false
  pub forward : i.code ≡ 0x05 → i.k + len < 2 ^ 31
  pub stx_in : i.code ≡ 0x03 → i.k < memwords
  pub ldx_in : i.code ≡ 0x61 → i.k < memwords

-- What the checks of `bpf_validate` say of the instructions that they cover.
pub ja_checked :
    (i : Insn) (from len : ℕ)
    → i.code ≡ 0x05
    → bad_insn i from len ≡ false
    → jumps_out from i.k len ≡ false
unfolding bad_insn bad_jump
ja_checked i from len e h =
    let c : class_of i.code ≡ 5 = rw e in let o : op_of i.code ≡ 0 = rw e in ground arith

pub jumps_in : (from k len : ℕ) → from + k < 2 ^ 31 → jumps_out from k len ≡ false → from + k < len
unfolding jumps_out
jumps_in from k len h e = ground arith

pub jump_checked :
    (i : Insn) (from len : ℕ)
    → class_of i.code ≡ 5
    → op_of i.code ≢ 0
    → bad_insn i from len ≡ false
    → (from + i.jt < len) × (from + i.jf < len)
unfolding bad_insn bad_jump
jump_checked i from len e o h = ground arith

pub st_checked :
    (i : Insn) (from len : ℕ) → class_of i.code ≡ 2 → bad_insn i from len ≡ false → i.k < memwords
unfolding bad_insn bad_memory
st_checked i from len e h = ground arith

pub ld_mem_checked :
    (i : Insn) (from len : ℕ)
    → class_of i.code ≡ 0
    → mode_of i.code ≡ 0x60
    → bad_insn i from len ≡ false
    → i.k < memwords
unfolding bad_insn bad_memory
ld_mem_checked i from len e o h = ground arith

pub div_checked : (i : Insn) (from len : ℕ) → i.code ≡ 0x34 → bad_insn i from len ≡ false → i.k ≢ 0
unfolding bad_insn bad_division
div_checked i from len e h = ground arith

check_from-good :
    (f : List Insn) (i len j : ℕ) (p : Insn)
    → check_from f i len ≡ true
    → get_elem? f j ≡ some p
    → bad_insn p (i + j + 1) len ≡ false
unfolding check_from
check_from-good [] i len j p h e = absurd cc
check_from-good (q ∷ f) i len zero p h e =
    let s : q ≡ p = cc in let n : i + 0 + 1 ≡ i + 1 = omega arith in rw (n, ← s) (ground arith)
check_from-good (q ∷ f) i len (suc j) p h e =
    let n : i + suc j + 1 ≡ i + 1 + j + 1 = omega arith in
    let rest : check_from f (i + 1) len ≡ true = ground arith in
    rw n (check_from-good f (i + 1) len j p rest e)

Forward-get :
    (f : List Insn) (len j : ℕ) (p : Insn)
    → Forward len f
    → get_elem? f j ≡ some p
    → p.code ≡ 0x05
    → p.k + len < 2 ^ 31
Forward-get [] len j p h e = absurd cc
Forward-get (q ∷ f) len zero p h e = let s : q ≡ p = cc in rw (← s) h.0
Forward-get (q ∷ f) len (suc j) p h e = Forward-get f len j p h.1 e

MemWithin-get :
    (f : List Insn) (j : ℕ) (p : Insn)
    → MemWithin f
    → get_elem? f j ≡ some p
    → (p.code ≡ 0x03 → p.k < memwords) × (p.code ≡ 0x61 → p.k < memwords)
MemWithin-get [] j p h e = absurd cc
MemWithin-get (q ∷ f) zero p h e = let s : q ≡ p = cc in rw (← s) (h.0, h.1)
MemWithin-get (q ∷ f) (suc j) p h e = MemWithin-get f j p h.2 e

pub validated_nonempty : (f : List Insn) → bpf_validate f ≡ true → 0 < length f
unfolding bpf_validate ends_in_ret
validated_nonempty [] h = ground arith
validated_nonempty (i ∷ f) h = omega arith

module _ (f : List Insn) (valid : bpf_validate f ≡ true) (fwd : Forward (length f) f)
    (within : MemWithin f) where
  all_checked : check_from f 0 (length f) ≡ true
  unfolding bpf_validate
  all_checked = ground arith

  last_is_ret : (i : Insn) → get_elem? f (length f - 1) ≡ some i → class_of i.code ≡ 6
  unfolding bpf_validate ends_in_ret
  last_is_ret i e = ground arith

  not_last :
      (pc : ℕ) (i : Insn)
      → pc < length f
      → get_elem? f pc ≡ some i
      → class_of i.code ≢ 6
      → pc + 1 < length f
  not_last pc i h e ne = elim (ℕ_discrete (pc + 1) (length f)) [
    | yes q ↦ absurd (ne (last_is_ret i (let n : length f - 1 ≡ pc = omega arith in rw n e)))
    | no q ↦ omega arith
  ]

  pub checked :
      (pc : ℕ) (i : Insn) → pc < length f → get_elem? f pc ≡ some i → Checked (length f) pc i
  checked pc i h e = record {
    inside = h;
    last = not_last pc i h e;
    good = rw add.zero at (check_from-good f 0 (length f) pc i all_checked e);
    forward = Forward-get f (length f) pc i fwd e;
    stx_in = (MemWithin-get f pc i within e).0;
    ldx_in = (MemWithin-get f pc i within e).1;
  }
