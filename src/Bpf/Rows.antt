-- ===== src/Bpf/Rows.antt =====
-- What `bpf_validate` sees of each code that `bpf_filter` executes.
use anp.Prelude.{ℕ, ◌≡◌, ◌≢◌, some, List, [], ◌∷◌, arith, ◌==◌, ==_iff, Bool-cases, inl, inr}
use anp.Bpf.Insn.{
  Op, ret_k, ret_a, ld_mem, ldx_mem, st, stx, ja, jump, alu, div, imm, find, op_table, decode,
}
use anp.Bpf.Validate.{class_of, op_of, mode_of}

abbrev pub Row : ℕ → Op → Type 0
Row c ret_k = Unit
Row c ret_a = Unit
Row c ld_mem = (class_of c ≡ 0) × (mode_of c ≡ 0x60)
Row c ldx_mem = c ≡ 0x61
Row c st = class_of c ≡ 2
Row c stx = c ≡ 0x03
Row c ja = c ≡ 0x05
Row c (jump p s) = (class_of c ≡ 5) × (op_of c ≢ 0)
Row c (alu div imm) = c ≡ 0x34
Row c _ = class_of c ≢ 6

abbrev AllRows : (ℕ → Op → Type 0) → List (ℕ × Op) → Type 0
AllRows P [] = Unit
AllRows P ((c, o) ∷ t) = P c o × AllRows P t

find-AllRows :
    (P : ℕ → Op → Type 0) (t : List (ℕ × Op)) (c : ℕ) (o : Op)
    → AllRows P t
    → find c t ≡ some o
    → P c o
find-AllRows P [] c o h e = absurd (cc)
find-AllRows P ((d, q) ∷ t) c o h e = elim (Bool-cases (c == d)) [
  | inl same ↦ row ((==_iff c d).0 same) (rw same at e)
  | inr other ↦ find-AllRows P t c o h.1 (rw other at e)
]
  where
    row : c ≡ d → some q ≡ some o → P c o
    row p r = let e : q ≡ o = cc in rw (p, ← e) h.0

op_table-AllRows : AllRows Row op_table
op_table-AllRows = omega arith

pub decode-Row : (c : ℕ) (o : Op) → decode c ≡ some o → Row c o
unfolding decode
decode-Row c o h = find-AllRows Row op_table c o op_table-AllRows h
