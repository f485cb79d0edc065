-- ===== src/Bpf/Tests.antt =====
-- Runs of `bpf_filter` and `bpf_validate` (generic/net/bpf_filter.c) on small filters.
use anp.Prelude.{ℕ, ◌+◌, ◌-◌, ◌*◌, ◌^◌, ◌≡◌, ◌≢◌, refl, true, some, List, [], ◌∷◌, arith, replicate}
use anp.Bpf.Insn.{Insn, half, byte, decode}
use anp.Bpf.Packet.{
  flat, value, load, past_end, flat_read, extract_short, load_abs, load_ind, chain, mbuf_load,
  ignore_error,
}
use anp.Bpf.Filter.{
  Machine, bad_mem, bad_pc, accept, stuck, operand, holds, to_a, write_mem, execute, step, fetch,
  resume, run, bpf_filter,
}
use anp.Bpf.Validate.{
  bpf_validate, check_from, bad_insn, bad_jump, bad_memory, bad_division, jumps_out, ends_in_ret,
}
use anp.Bpf.Safety.{Contained, bpf_filter-Contained}
use anp.Bpf.Backward.{jump_then_ret, backward_jump_accepted}
use anp.Bpf.Loads.{load-flat}
use anp.Bpf.Chains.{chain_load-byte, across_mbufs_never_loaded}

-- Accepts 96 bytes of an IP packet, and nothing of another.
abbrev ip_filter : List Insn
ip_filter =
    record { code = 0x28; jt = 0; jf = 0; k = 12 }
    ∷ record { code = 0x15; jt = 0; jf = 1; k = 0x800 }
    ∷ record { code = 0x06; jt = 0; jf = 0; k = 96 }
    ∷ record { code = 0x06; jt = 0; jf = 0; k = 0 }
    ∷ []

abbrev ip_packet : List ℕ
ip_packet = 1 ∷ 2 ∷ 3 ∷ 4 ∷ 5 ∷ 6 ∷ 7 ∷ 8 ∷ 9 ∷ 10 ∷ 11 ∷ 12 ∷ 8 ∷ 0 ∷ 69 ∷ []

abbrev zeroed : Machine
zeroed = record { a = 0; x = 0; mem = replicate 16 0 }

-- `BPF_STX` to `mem[20]`.
abbrev wild_store : List Insn
wild_store =
    record { code = 0x03; jt = 0; jf = 0; k = 20 }
    ∷ record { code = 0x06; jt = 0; jf = 0; k = 1 }
    ∷ []

ip_filter_valid : bpf_validate ip_filter ≡ true
unfolding bpf_validate check_from bad_insn bad_jump bad_memory bad_division jumps_out ends_in_ret
ip_filter_valid = refl

ip_filter_accepts : bpf_filter 4 (some ip_filter) (flat ip_packet) 64 zeroed ≡ accept 96
unfolding bpf_filter run fetch resume step decode execute to_a load_abs ignore_error load past_end
    flat_read extract_short holds operand
ip_filter_accepts = refl

wild_store_accepted :
    (bpf_validate wild_store ≡ true)
    × (bpf_filter 2 (some wild_store) (flat ip_packet) 64 zeroed ≡ stuck bad_mem)
unfolding bpf_validate check_from bad_insn bad_jump bad_memory bad_division jumps_out ends_in_ret
    bpf_filter run fetch resume step decode execute write_mem
wild_store_accepted = (refl, refl)

bpf_filter-Contained_example : Contained (bpf_filter 4 (some ip_filter) (flat ip_packet) 64 zeroed)
bpf_filter-Contained_example =
    bpf_filter-Contained ip_filter (flat ip_packet) 64 4 zeroed ip_filter_valid (ground arith)
      (ground arith) refl (omega arith)

backward_jump_accepted_example :
    (bpf_validate (jump_then_ret (2 ^ 32 - 2) 96) ≡ true)
    × (bpf_filter 100 (some (jump_then_ret (2 ^ 32 - 2) 96)) (flat ip_packet) 64 zeroed
        ≡ stuck bad_pc)
backward_jump_accepted_example =
    backward_jump_accepted 99 (2 ^ 32 - 2) 96 (flat ip_packet) 64 zeroed (omega arith) (omega arith)

load-flat_example : load half (flat ip_packet) 12 ≡ value (8 * 256 + 0)
load-flat_example = load-flat half ip_packet 12 (omega arith) (omega arith) (omega arith)

chain_load-byte_example :
    (load_abs byte (chain ((1 ∷ 2 ∷ []) ∷ (200 ∷ []) ∷ [])) 2 ≡ value 200)
    × (load_ind byte (chain ((1 ∷ 2 ∷ []) ∷ (200 ∷ []) ∷ [])) 2 ≡ value (2 ^ 32 - 56))
chain_load-byte_example = chain_load-byte (1 ∷ 2 ∷ []) ((200 ∷ []) ∷ []) 2 (omega arith)

across_mbufs_never_loaded_example : mbuf_load half (1 ∷ 2 ∷ []) ((3 ∷ 4 ∷ []) ∷ []) 1 ≢ value 515
across_mbufs_never_loaded_example =
    across_mbufs_never_loaded half (1 ∷ 2 ∷ []) (3 ∷ 4 ∷ []) [] 1 515 (omega arith) (omega arith)
      (omega arith)
