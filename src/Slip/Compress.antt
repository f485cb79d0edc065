-- ===== src/Slip/Compress.antt =====
-- The sender of generic/net/slcompress.c: `sl_compress_tcp`. The counters of statistics are left
-- out.
use anp.Prelude.{ℕ, ◌+◌, Bool, not, ◌||◌, Option, none, some, List, ◌∷◌, ltb, ◌==◌, if◌then◌else◌}
use anp.Slip.Header.{Header, hlen, max_hdr}
use anp.Slip.Encoding.{high_byte, low_byte}
use anp.Slip.States.{Compressor, Selected, compressible, select}
use anp.Slip.Changes.{Part, header_delta, new_c}

-- What the caller sends: the packet as it is, the packet with a new `ip_p`, or the packet with
-- these bytes in place of its header. `overrun` is a header longer than `cs_hdr`, which the source
-- writes over the next state.
pub data Sent : Type 0 where
  plain : Sent
  uncompressed : Header → Sent
  compressed : List ℕ → Sent
  overrun : Sent

abbrev pub saved : Header → Selected → Compressor
saved p sel = record {
  first = record { cs_id = sel.chosen.cs_id; cs_hdr = some p };
  others = sel.rest;
  last_xmit = sel.chosen.cs_id;
}

-- The header is copied into the state before `ip_p` is overwritten.
unfoldable pub send_uncompressed : Header → Selected → Compressor → Sent × Compressor
send_uncompressed p sel comp =
    if ltb max_hdr (hlen p)
    then (overrun, comp)
    else (uncompressed (record p { ip = record p.ip { ip_p = sel.chosen.cs_id } }), saved p sel)

unfoldable pub send_compressed :
    Header → Bool → Selected → Compressor → ℕ × List ℕ → Sent × Compressor
send_compressed p cid sel comp (changes, bytes) =
    let sums = high_byte p.th.th_sum ∷ low_byte p.th.th_sum ∷ bytes in
    if not cid || not (comp.last_xmit == sel.chosen.cs_id)
    then (compressed ((changes + new_c) ∷ sel.chosen.cs_id ∷ sums), saved p sel)
    else (compressed (changes ∷ sums), saved p sel)

-- No header is known for a state of zeros, whose `ip_v` and `ip_hl` differ from the packet's.
unfoldable pub delta_from : Header → Option Header → Part
unfolding header_delta
delta_from p none = none
delta_from p (some old) = header_delta p old

unfoldable pub send_delta : Header → Bool → Selected → Compressor → Part → Sent × Compressor
unfolding send_uncompressed send_compressed
send_delta p cid sel comp none = send_uncompressed p sel comp
send_delta p cid sel comp (some parts) = send_compressed p cid sel comp parts

unfoldable pub send_selected : Header → Bool → Compressor → Selected → Sent × Compressor
unfolding send_delta delta_from
send_selected p cid comp sel =
    send_delta p cid sel comp (if sel.found then delta_from p sel.chosen.cs_hdr else none)

-- `m_len` is the length of the first mbuf, which holds the header.
unfoldable pub sl_compress_tcp : ℕ → Header → Bool → Compressor → Sent × Compressor
unfolding compressible select send_selected
sl_compress_tcp m_len p cid comp =
    if compressible m_len p
    then send_selected p cid comp (select p comp.first comp.others)
    else (plain, comp)
