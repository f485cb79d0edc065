-- ===== src/Bpf/Filter.antt =====
-- `bpf_filter` of generic/net/bpf_filter.c: the interpreter.
use Prim.Native.Nat.{bit_and, bit_or}
use anp.Prelude.{
  ℕ, zero, suc, ◌+◌, ◌-◌, ◌*◌, ◌/◌, ◌%◌, ◌^◌, Bool, not, Option, none, some, List, ltb, leb, ◌==◌,
  length, get_elem?, set, if◌then◌else◌,
}
use anp.Prelude.Word.{word_mod, add32, sub32, mul32, neg32}
use anp.Bpf.Insn.{
  Insn, byte, Src, imm, reg, Cmp, jgt, jge, jeq, jset, Alu, add, sub, mul, div, or, and, lsh, rsh,
  Op, ret_k, ret_a, ld_abs, ld_ind, ld_len, ldx_len, ldx_msh, ld_imm, ldx_imm, ld_mem, ldx_mem, st,
  stx, ja, jump, alu, neg, tax, txa, decode,
}
use anp.Bpf.Packet.{Packet, Load, value, reject, fault, load, load_abs, load_ind}

-- The accumulator, the index register and `mem[BPF_MEMWORDS]`. None is initialised by the source.
pub record Machine : Type 0 where
  pub a : ℕ
  pub x : ℕ
  pub mem : List ℕ

-- What the C leaves undefined: a `pc` outside the program, a `mem` index outside the array, a read
-- outside the packet, a shift by 32 or more, a division by zero.
pub data Fault : Type 0 where
  bad_pc bad_mem bad_read bad_shift bad_divide : Fault

-- One round of the loop: on to the instruction at an index, `return`, or undefined behaviour.
pub data Outcome : Type 0 where
  next : ℕ → Machine → Outcome
  return : ℕ → Outcome
  undefined : Fault → Outcome

unfoldable pub operand : Src → Insn → Machine → ℕ
operand imm i m = i.k
operand reg i m = m.x

unfoldable pub holds : Cmp → ℕ → ℕ → Bool
holds jgt a b = ltb b a
holds jge a b = leb b a
holds jeq a b = a == b
holds jset a b = not (bit_and a b == 0)

-- `A op= b` on `u_long`. Only `BPF_DIV|BPF_X` tests its operand.
unfoldable pub compute : Alu → Src → ℕ → ℕ → ℕ → Machine → Outcome
compute add s a b pc m = next (pc + 1) (record m { a = add32 a b })
compute sub s a b pc m = next (pc + 1) (record m { a = sub32 a b })
compute mul s a b pc m = next (pc + 1) (record m { a = mul32 a b })
compute div imm a b pc m =
    if b == 0 then undefined bad_divide else next (pc + 1) (record m { a = a / b })
compute div reg a b pc m = if b == 0 then return 0 else next (pc + 1) (record m { a = a / b })
compute or s a b pc m = next (pc + 1) (record m { a = bit_or a b })
compute and s a b pc m = next (pc + 1) (record m { a = bit_and a b })
compute lsh s a b pc m =
    if ltb b 32 then next (pc + 1) (record m { a = a * 2 ^ b % word_mod }) else undefined bad_shift
compute rsh s a b pc m =
    if ltb b 32 then next (pc + 1) (record m { a = a / 2 ^ b }) else undefined bad_shift

-- `A = ...` and `X = ...` from a load.
unfoldable pub to_a : ℕ → Machine → Load → Outcome
to_a pc m (value v) = next (pc + 1) (record m { a = v })
to_a pc m reject = return 0
to_a pc m fault = undefined bad_read

unfoldable pub to_x : ℕ → Machine → Load → Outcome
to_x pc m (value v) = next (pc + 1) (record m { x = bit_and v 0xf * 4 })
to_x pc m reject = return 0
to_x pc m fault = undefined bad_read

-- `mem[k]` in range, or undefined.
unfoldable pub read_mem : ℕ → Machine → (ℕ → Machine) → Option ℕ → Outcome
read_mem pc m f none = undefined bad_mem
read_mem pc m f (some v) = next (pc + 1) (f v)

unfoldable pub write_mem : ℕ → Machine → ℕ → ℕ → Outcome
write_mem pc m k v =
    if ltb k (length m.mem)
    then next (pc + 1) (record m { mem = set m.mem k v })
    else undefined bad_mem

-- `pc += k; ++pc` for a signed `k`.
unfoldable pub jump_always : ℕ → ℕ → Machine → Outcome
jump_always pc k m =
    if ltb k (2 ^ 31)
    then next (pc + 1 + k) m
    else if leb word_mod (pc + 1 + k)
    then next (pc + 1 + k - word_mod) m
    else undefined bad_pc

-- The `switch`.
unfoldable pub execute : Op → Insn → Packet → ℕ → ℕ → Machine → Outcome
execute ret_k i p wirelen pc m = return i.k
execute ret_a i p wirelen pc m = return m.a
execute (ld_abs s) i p wirelen pc m = to_a pc m (load_abs s p i.k)
execute (ld_ind s) i p wirelen pc m = to_a pc m (load_ind s p (add32 m.x i.k))
execute ld_len i p wirelen pc m = next (pc + 1) (record m { a = wirelen })
execute ldx_len i p wirelen pc m = next (pc + 1) (record m { x = wirelen })
execute ldx_msh i p wirelen pc m = to_x pc m (load byte p i.k)
execute ld_imm i p wirelen pc m = next (pc + 1) (record m { a = i.k })
execute ldx_imm i p wirelen pc m = next (pc + 1) (record m { x = i.k })
execute ld_mem i p wirelen pc m = read_mem pc m (λ v. record m { a = v }) (get_elem? m.mem i.k)
execute ldx_mem i p wirelen pc m = read_mem pc m (λ v. record m { x = v }) (get_elem? m.mem i.k)
execute st i p wirelen pc m = write_mem pc m i.k m.a
execute stx i p wirelen pc m = write_mem pc m i.k m.x
execute ja i p wirelen pc m = jump_always pc i.k m
execute (jump c s) i p wirelen pc m =
    next (pc + 1 + (if holds c m.a (operand s i m) then i.jt else i.jf)) m
execute (alu o s) i p wirelen pc m = compute o s m.a (operand s i m) pc m
execute neg i p wirelen pc m = next (pc + 1) (record m { a = neg32 m.a })
execute tax i p wirelen pc m = next (pc + 1) (record m { x = m.a })
execute txa i p wirelen pc m = next (pc + 1) (record m { a = m.x })

-- One instruction: an unknown code returns 0.
unfoldable pub step : Insn → Packet → ℕ → ℕ → Machine → Outcome
step i p wirelen pc m = elim (decode i.code) [
  | none ↦ return 0
  | some o ↦ execute o i p wirelen pc m
]

pub data Result : Type 0 where
  accept : ℕ → Result
  stuck : Fault → Result
  out_of_fuel : Result

unfoldable pub fetch : List Insn → Packet → ℕ → ℕ → Machine → Outcome
fetch f p wirelen pc m = elim (get_elem? f pc) [
  | none ↦ undefined bad_pc
  | some i ↦ step i p wirelen pc m
]

-- What follows a round: another one, `return`, or undefined behaviour.
unfoldable pub resume : (ℕ → Machine → Result) → Outcome → Result
resume again (next pc m) = again pc m
resume again (return v) = accept v
resume again (undefined e) = stuck e

-- The `while (1)` loop. The fuel bounds its rounds.
unfoldable pub run : ℕ → List Insn → Packet → ℕ → ℕ → Machine → Result
run zero f p wirelen pc m = out_of_fuel
run (suc fuel) f p wirelen pc m = resume (run fuel f p wirelen) (fetch f p wirelen pc m)

-- No filter (a null `pc`) accepts all.
unfoldable pub bpf_filter : ℕ → Option (List Insn) → Packet → ℕ → Machine → Result
bpf_filter fuel none p wirelen m = accept (word_mod - 1)
bpf_filter fuel (some f) p wirelen m = run fuel f p wirelen 0 m
