-- ===== src/Bpf/Insn.antt =====
-- The instructions of generic/net/bpf.h, and the `switch` of `bpf_filter` on `pc->code` as a table
-- from codes to operations.
use anp.Prelude.{ℕ, Option, none, some, List, [], ◌∷◌, ◌==◌, if◌then◌else◌}

-- `struct bpf_insn`. The `long k` is a 32-bit pattern.
pub record Insn : Type 0 where
  pub code : ℕ
  pub jt : ℕ
  pub jf : ℕ
  pub k : ℕ

pub data Size : Type 0 where
  word half byte : Size

-- The second operand: `pc->k` or `X`.
pub data Src : Type 0 where
  imm reg : Src

pub data Cmp : Type 0 where
  jgt jge jeq jset : Cmp

pub data Alu : Type 0 where
  add sub mul div or and lsh rsh : Alu

pub data Op : Type 0 where
  ret_k ret_a : Op
  ld_abs ld_ind : Size → Op
  ld_len ldx_len ldx_msh ld_imm ldx_imm ld_mem ldx_mem st stx ja : Op
  jump : Cmp → Src → Op
  alu : Alu → Src → Op
  neg tax txa : Op

abbrev pub find : ℕ → List (ℕ × Op) → Option Op
find c [] = none
find c ((d, o) ∷ t) = if c == d then some o else find c t

-- The `case` labels, in the order of the `switch`.
abbrev pub op_table : List (ℕ × Op)
op_table =
    (0x06, ret_k)
    ∷ (0x16, ret_a)
    ∷ (0x20, ld_abs word)
    ∷ (0x28, ld_abs half)
    ∷ (0x30, ld_abs byte)
    ∷ (0x80, ld_len)
    ∷ (0x81, ldx_len)
    ∷ (0x40, ld_ind word)
    ∷ (0x48, ld_ind half)
    ∷ (0x50, ld_ind byte)
    ∷ (0xb1, ldx_msh)
    ∷ (0x00, ld_imm)
    ∷ (0x01, ldx_imm)
    ∷ (0x60, ld_mem)
    ∷ (0x61, ldx_mem)
    ∷ (0x02, st)
    ∷ (0x03, stx)
    ∷ (0x05, ja)
    ∷ (0x25, jump jgt imm)
    ∷ (0x35, jump jge imm)
    ∷ (0x15, jump jeq imm)
    ∷ (0x45, jump jset imm)
    ∷ (0x2d, jump jgt reg)
    ∷ (0x3d, jump jge reg)
    ∷ (0x1d, jump jeq reg)
    ∷ (0x4d, jump jset reg)
    ∷ (0x0c, alu add reg)
    ∷ (0x1c, alu sub reg)
    ∷ (0x2c, alu mul reg)
    ∷ (0x3c, alu div reg)
    ∷ (0x5c, alu and reg)
    ∷ (0x4c, alu or reg)
    ∷ (0x6c, alu lsh reg)
    ∷ (0x7c, alu rsh reg)
    ∷ (0x04, alu add imm)
    ∷ (0x14, alu sub imm)
    ∷ (0x24, alu mul imm)
    ∷ (0x34, alu div imm)
    ∷ (0x54, alu and imm)
    ∷ (0x44, alu or imm)
    ∷ (0x64, alu lsh imm)
    ∷ (0x74, alu rsh imm)
    ∷ (0x84, neg)
    ∷ (0x07, tax)
    ∷ (0x87, txa)
    ∷ []

-- `none` is the `default` of the `switch`.
unfoldable pub decode : ℕ → Option Op
decode c = find c op_table
