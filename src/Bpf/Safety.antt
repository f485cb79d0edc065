-- ===== src/Bpf/Safety.antt =====
-- Filters that `bpf_validate` accepts under `bpf_filter` (generic/net/bpf_filter.c).
use anp.Prelude.{
  ℕ, zero, suc, ◌+◌, ◌^◌, ◌≤◌, ◌<◌, ◌≡◌, ◌≢◌, refl, true, some, List, arith, length, get_elem?, inl,
  inr, Option-cases, length-set, lt→ltb, get_elem?_inside,
}
use anp.Bpf.Insn.{
  Insn, byte, Src, imm, reg, Alu, add, sub, mul, div, or, and, lsh, rsh, Op, ret_k, ret_a, ld_abs,
  ld_ind, ld_len, ldx_len, ldx_msh, ld_imm, ldx_imm, ld_mem, ldx_mem, st, stx, ja, jump, alu, neg,
  tax, txa, decode,
}
use anp.Bpf.Packet.{Packet, Load, value, reject, fault, load, load_abs, load_ind}
use anp.Bpf.Filter.{
  Machine, bad_pc, bad_mem, bad_read, bad_shift, bad_divide, Outcome, next, return, undefined,
  operand, compute, to_a, to_x, read_mem, write_mem, jump_always, execute, step, Result, accept,
  stuck, fetch, resume, run, bpf_filter,
}
use anp.Bpf.Validate.{class_of, memwords, bpf_validate}
use anp.Bpf.Rows.{Row, decode-Row}
use anp.Bpf.Checked.{
  Forward, MemWithin, Checked, ja_checked, jumps_in, jump_checked, st_checked, ld_mem_checked,
  div_checked, validated_nonempty, checked,
}

-- What one instruction may do.
abbrev Fine : ℕ → ℕ → Outcome → Type 0
Fine len pc (next pc' m) = (pc < pc') × (pc' < len) × (length m.mem ≡ memwords)
Fine len pc (return v) = Unit
Fine len pc (undefined bad_read) = Unit
Fine len pc (undefined bad_shift) = Unit
Fine len pc (undefined _) = ⊥

module _ (len pc : ℕ) (i : Insn) (m : Machine) (c : Checked len pc i)
    (mem : length m.mem ≡ memwords) where
  on : class_of i.code ≢ 6 → pc + 1 < len
  on h = c.last h

  to_a-Fine : class_of i.code ≢ 6 → (r : Load) → Fine len pc (to_a pc m r)
  unfolding to_a
  to_a-Fine h (value v) = let g = on h in omega arith
  to_a-Fine h reject = tt
  to_a-Fine h fault = tt

  to_x-Fine : class_of i.code ≢ 6 → (r : Load) → Fine len pc (to_x pc m r)
  unfolding to_x
  to_x-Fine h (value v) = let g = on h in omega arith
  to_x-Fine h reject = tt
  to_x-Fine h fault = tt

  compute-Fine :
      class_of i.code ≢ 6
      → (o : Alu) (s : Src) (a b : ℕ) → (o ≡ div → s ≡ imm → b ≢ 0)
      → Fine len pc (compute o s a b pc m)
  unfolding compute
  compute-Fine h add s a b nz = let g = on h in omega arith
  compute-Fine h sub s a b nz = let g = on h in omega arith
  compute-Fine h mul s a b nz = let g = on h in omega arith
  compute-Fine h div imm a b nz = let g = on h in let n = nz refl refl in ground arith
  compute-Fine h div reg a b nz = let g = on h in ground arith
  compute-Fine h or s a b nz = let g = on h in omega arith
  compute-Fine h and s a b nz = let g = on h in omega arith
  compute-Fine h lsh s a b nz = let g = on h in ground arith
  compute-Fine h rsh s a b nz = let g = on h in ground arith

  read_mem-Fine :
      class_of i.code ≢ 6
      → (f : ℕ → Machine) → ((v : ℕ) → length (f v).mem ≡ memwords)
      → i.k < memwords
      → Fine len pc (read_mem pc m f (get_elem? m.mem i.k))
  unfolding read_mem
  read_mem-Fine h f keep k_in =
      let g = on h in
      let (v, e) = get_elem?_inside m.mem i.k (omega arith) in rw e (omega arith, g, keep v)

  write_mem-Fine :
      class_of i.code ≢ 6 → (v : ℕ) → i.k < memwords → Fine len pc (write_mem pc m i.k v)
  unfolding write_mem
  write_mem-Fine h v k_in = let g = on h in ground (arith, length-set m.mem i.k v)

  jump_always-Fine : i.code ≡ 0x05 → Fine len pc (jump_always pc i.k m)
  unfolding jump_always
  jump_always-Fine h =
      let f = c.forward h in
      let g = c.inside in
      let t = jumps_in (pc + 1) i.k len (omega arith) (ja_checked i (pc + 1) len h c.good) in
      rw (lt→ltb i.k (2 ^ 31) (omega arith)) (omega arith, t, mem)

  -- One operation of the `switch`.
  execute-Fine :
      (o : Op) (p : Packet) (wirelen : ℕ) → Row i.code o → Fine len pc (execute o i p wirelen pc m)
  unfolding execute operand
  execute-Fine ret_k p w h = tt
  execute-Fine ret_a p w h = tt
  execute-Fine (ld_abs s) p w h = to_a-Fine h (load_abs s p i.k)
  execute-Fine (ld_ind s) p w h = to_a-Fine h (load_ind s p _)
  execute-Fine ld_len p w h = let g = on h in omega arith
  execute-Fine ldx_len p w h = let g = on h in omega arith
  execute-Fine ldx_msh p w h = to_x-Fine h (load byte p i.k)
  execute-Fine ld_imm p w h = let g = on h in omega arith
  execute-Fine ldx_imm p w h = let g = on h in omega arith
  execute-Fine ld_mem p w h =
      read_mem-Fine (λ e. omega arith) (λ v. record m { a = v }) (λ v. mem)
        (ld_mem_checked i _ len h.0 h.1 c.good)
  execute-Fine ldx_mem p w h =
      read_mem-Fine (rw h (omega arith)) (λ v. record m { x = v }) (λ v. mem) (c.ldx_in h)
  execute-Fine st p w h = write_mem-Fine (rw h (omega arith)) m.a (st_checked i _ len h c.good)
  execute-Fine stx p w h = write_mem-Fine (rw h (omega arith)) m.x (c.stx_in h)
  execute-Fine ja p w h = jump_always-Fine h
  execute-Fine (jump q s) p w h = ground (arith, jump_checked i (pc + 1) len h.0 h.1 c.good)
  execute-Fine (alu div imm) p w h =
      compute-Fine (rw h (omega arith)) div imm m.a _ (λ _ _. div_checked i _ len h c.good)
  execute-Fine (alu div reg) p w h = compute-Fine h div reg m.a _ (λ _ e. absurd cc)
  execute-Fine (alu o s) p w h = compute-Fine h o s m.a _ (λ e _. absurd cc)
  execute-Fine neg p w h = let g = on h in omega arith
  execute-Fine tax p w h = let g = on h in omega arith
  execute-Fine txa p w h = let g = on h in omega arith

-- The filter returned, or stopped at one of the two faults that `bpf_validate` cannot see.
abbrev pub Contained : Result → Type 0
Contained (accept v) = Unit
Contained (stuck bad_read) = Unit
Contained (stuck bad_shift) = Unit
Contained _ = ⊥

resume-Contained :
    (len pc : ℕ) (again : ℕ → Machine → Result) (o : Outcome)
    → Fine len pc o
    → ((pc' : ℕ) (m : Machine)
        → pc < pc'
        → pc' < len
        → length m.mem ≡ memwords
        → Contained (again pc' m))
    → Contained (resume again o)
unfolding resume
resume-Contained len pc again (next pc' m) h k = k pc' m h.0 h.1 h.2
resume-Contained len pc again (return v) h k = tt
resume-Contained len pc again (undefined bad_read) h k = tt
resume-Contained len pc again (undefined bad_shift) h k = tt
resume-Contained len pc again (undefined bad_pc) h k = h
resume-Contained len pc again (undefined bad_mem) h k = h
resume-Contained len pc again (undefined bad_divide) h k = h

module _ (f : List Insn) (valid : bpf_validate f ≡ true) (fwd : Forward (length f) f)
    (within : MemWithin f) where
  fetch-Fine :
      (p : Packet) (wirelen pc : ℕ) (m : Machine)
      → pc < length f
      → length m.mem ≡ memwords
      → Fine (length f) pc (fetch f p wirelen pc m)
  unfolding fetch step
  fetch-Fine p wirelen pc m h mem =
      let (i, e) = get_elem?_inside f pc h in
      let c = checked f valid fwd within pc i h e in
      rw (e, fetch)
        (elim (Option-cases (decode i.code)) [
          | inl unknown ↦ rw (unknown, step) tt
          | inr (o, known) ↦
              rw (known, step)
                (execute-Fine (length f) pc i m c mem o p wirelen (decode-Row i.code o known))
        ])

  run-Contained :
      (fuel : ℕ) (p : Packet) (wirelen pc : ℕ) (m : Machine)
      → pc < length f
      → length f ≤ fuel + pc
      → length m.mem ≡ memwords
      → Contained (run fuel f p wirelen pc m)
  unfolding run
  run-Contained zero p wirelen pc m h enough mem = absurd (omega arith)
  run-Contained (suc fuel) p wirelen pc m h enough mem =
      resume-Contained (length f) pc (run fuel f p wirelen) (fetch f p wirelen pc m)
        (fetch-Fine p wirelen pc m h mem)
        λ pc' m' later inside mem'. run-Contained fuel p wirelen pc' m' inside (omega arith) mem'

-- A filter that `bpf_validate` accepts, each of whose `BPF_JA` offsets is below 2^31 together with
-- the length of the filter, and whose `BPF_STX` and `BPF_LDX|BPF_MEM` stay inside `mem`, stops within as many rounds as it has
-- instructions, on every packet and from every value of the registers. It returns, or it stops at
-- a read outside the packet or at a shift by 32 or more; it never leaves the program or `mem`, and
-- never divides by zero.
pub bpf_filter-Contained :
    (f : List Insn) (p : Packet) (wirelen fuel : ℕ) (m : Machine)
    → bpf_validate f ≡ true
    → Forward (length f) f
    → MemWithin f
    → length m.mem ≡ memwords
    → length f ≤ fuel
    → Contained (bpf_filter fuel (some f) p wirelen m)
unfolding bpf_filter
bpf_filter-Contained f p wirelen fuel m valid fwd within mem enough =
    run-Contained f valid fwd within fuel p wirelen 0 m (validated_nonempty f valid) (omega arith)
      mem
