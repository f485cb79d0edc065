-- ===== src/Bpf/Validate.antt =====
-- `bpf_validate` of generic/net/bpf_filter.c.
use Prim.Native.Nat.{bit_and}
use anp.Prelude.{
  ℕ, ◌+◌, ◌-◌, Bool, true, false, not, ◌&&◌, ◌||◌, Option, none, some, List, [], ◌∷◌, leb, ◌==◌,
  length, get_elem?, if◌then◌else◌,
}
use anp.Prelude.Word.{add32, is_neg}
use anp.Bpf.Insn.{Insn}

abbrev pub class_of : ℕ → ℕ
class_of code = bit_and code 0x07

abbrev pub op_of : ℕ → ℕ
op_of code = bit_and code 0xf0

abbrev pub mode_of : ℕ → ℕ
mode_of code = bit_and code 0xe0

abbrev pub memwords : ℕ
memwords = 16

-- `from + k >= len` on signed words; the sum of two `int`s wraps.
unfoldable pub jumps_out : ℕ → ℕ → ℕ → Bool
jumps_out from k len = not (is_neg (add32 from k)) && leb len (add32 from k)

unfoldable pub bad_jump : Insn → ℕ → ℕ → Bool
bad_jump i from len =
    class_of i.code == 5
    && (if op_of i.code == 0
        then jumps_out from i.k len
        else leb len (from + i.jt) || leb len (from + i.jf))

-- `p->k < 0` is `is_neg`, and such a `k` is above `BPF_MEMWORDS` as a pattern.
unfoldable pub bad_memory : Insn → Bool
bad_memory i =
    (class_of i.code == 2 || class_of i.code == 0 && mode_of i.code == 0x60)
    && (leb memwords i.k || is_neg i.k)

unfoldable pub bad_division : Insn → Bool
bad_division i = i.code == 0x34 && i.k == 0

unfoldable pub bad_insn : Insn → ℕ → ℕ → Bool
bad_insn i from len = bad_jump i from len || bad_memory i || bad_division i

-- The loop, from index `i` over the instructions that are left.
unfoldable pub check_from : List Insn → ℕ → ℕ → Bool
check_from [] i len = true
check_from (p ∷ rest) i len = not (bad_insn p (i + 1) len) && check_from rest (i + 1) len

-- `f[len - 1]`. For `len` 0 the source reads in front of the array; the model refuses.
unfoldable pub ends_in_ret : Option Insn → Bool
ends_in_ret none = false
ends_in_ret (some p) = class_of p.code == 6

unfoldable pub bpf_validate : List Insn → Bool
bpf_validate f = check_from f 0 (length f) && ends_in_ret (get_elem? f (length f - 1))
