-- ===== src/Slip/Line.antt =====
-- The two ends of a line, as `slstart` and `slinput` of generic/net/if_sl.c call the two routines
-- of generic/net/slcompress.c, with SC_COMPRESS set at both.
use anp.Prelude.{ℕ, ◌+◌, ◌%◌, Bool, List, [], ◌∷◌, ◌++◌, length, ltb, ◌==◌, if◌then◌else◌}
use anp.Slip.Header.{Header, ipproto_tcp}
use anp.Slip.States.{Compressor}
use anp.Slip.Compress.{Sent, plain, uncompressed, compressed, overrun, sl_compress_tcp}
use anp.Slip.Uncompress.{
  Decompressor, Received, packet, nothing, undefined, take_uncompressed, take_compressed,
}

-- The type 0x70 in the first byte of the header is masked out by 0x4f, which leaves version 4.
abbrev pub retyped : Header → Header
retyped h = record h { ip = record h.ip { ip_v = 4 } }

-- A frame of fewer than three bytes is ignored. `spare` is the memory behind it.
unfoldable pub input_compressed : List ℕ → List ℕ → Decompressor → Received × Decompressor
input_compressed frame spare d =
    if ltb (length frame) 3 then (nothing, d) else take_compressed (length frame) (frame ++ spare) d

-- The type 0x80 is put into the first byte of `changes`, and is left there.
unfoldable pub typed : List ℕ → List ℕ
typed [] = []
typed (c ∷ cs) = (c % 128 + 128) ∷ cs

-- What the other end makes of a packet `p` with its data, by what the sender made of it.
unfoldable pub deliver : Sent → Header → List ℕ → List ℕ → Decompressor → Received × Decompressor
unfolding typed input_compressed
deliver plain p bytes spare d = (packet p bytes, d)
deliver (uncompressed h) p bytes spare d = take_uncompressed (retyped h) bytes d
deliver (compressed cs) p bytes spare d = input_compressed (typed cs ++ bytes) spare d
deliver overrun p bytes spare d = (undefined, d)

-- Only TCP packets are compressed. The type is put in after the call, which moves `m_data`.
unfoldable pub compress_packet : ℕ → Bool → Header → Compressor → Sent × Compressor
compress_packet m_len cid p c =
    if p.ip.ip_p == ipproto_tcp then sl_compress_tcp m_len p cid c else (plain, c)

-- A packet from one end to the other.
unfoldable pub transmit :
    ℕ
    → Bool
    → Header
    → List ℕ
    → List ℕ
    → Compressor × Decompressor
    → Received × (Compressor × Decompressor)
unfolding deliver compress_packet
transmit m_len cid p bytes spare (c, d) =
    let (sent, c') = compress_packet m_len cid p c in
    let (received, d') = deliver sent p bytes spare d in (received, (c', d'))
