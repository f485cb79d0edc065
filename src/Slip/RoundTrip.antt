-- ===== src/Slip/RoundTrip.antt =====
-- Packets over a line with compressed headers: generic/net/slcompress.c at both ends.
use anp.Prelude.{
  ℕ, ◌≡◌, ◌⊎◌, inl, inr, refl, ◌∙◌, Bool, true, false, not, ◌||◌, Option, none, some, List, ◌∷◌,
  get_elem?, Bool-cases, Option-cases, ◌==◌, arith,
}
use anp.Slip.Header.{Header}
use anp.Slip.States.{State, Compressor, Selected, same_addresses, select, compressible}
use anp.Slip.Changes.{header_delta}
use anp.Slip.Compress.{delta_from, send_delta, send_selected, send_compressed, sl_compress_tcp}
use anp.Slip.Uncompress.{Decompressor, packet, without_sum}
use anp.Slip.Saved.{IsTcp, IsAck}
use anp.Slip.Whole.{Follows, Rebuilds, header_delta-Rebuilds}
use anp.Slip.Line.{deliver, transmit, compress_packet}
use anp.Slip.Lru.{All, select-All, select_found}
use anp.Slip.Synced.{IsPacket, MirroredHeader, Synced, Choice, Synced-Choice}
use anp.Slip.Arrivals.{Arrives, send_uncompressed-Arrives, explicit-Arrives, implicit-Arrives}

-- Only urgent packets of a conversation follow an urgent one.
abbrev pub FadedHeader : Header → Option Header → Type 0
FadedHeader p none = Unit
FadedHeader p (some h) =
    same_addresses p (some h) ≡ true → p.th.th_urg ≡ false → h.th.th_urg ≡ false

abbrev pub Faded : Header → State → Type 0
Faded p s = FadedHeader p s.cs_hdr

send_compressed-Arrives :
    {p : Header} {bytes : List ℕ} {sel : Selected} (d : Decompressor) (pk : IsPacket p bytes)
    (ack : IsAck p) (ch : Choice p sel d.rstate) (spare bs : List ℕ) (changes : ℕ) (old : Header)
    (cid : Bool) (c : Compressor)
    → get_elem? d.rstate sel.chosen.cs_id ≡ some (some (without_sum old))
    → Rebuilds p old changes bs
    → (c.last_xmit ≡ 255) ⊎ ((d.toss ≡ false) × (d.last_recv ≡ c.last_xmit))
    → Arrives p bytes
        (send_compressed p cid sel c (changes, bs)).1
        (deliver (send_compressed p cid sel c (changes, bs)).0 p bytes spare d)
unfolding send_compressed
send_compressed-Arrives {p} {bytes} {sel} d pk ack ch spare bs changes old cid c eg rb told =
    elim (Bool-cases (not cid || not (c.last_xmit == sel.chosen.cs_id))) [
      | inl e ↦ rw e (explicit-Arrives d pk ack ch spare bs changes old eg rb)
      | inr e ↦
          let same : c.last_xmit ≡ sel.chosen.cs_id = ground arith in
          elim told [
            | inl initial ↦ absurd (omega (arith, ch.chosen_small))
            | inr (et, er) ↦
                rw e (implicit-Arrives d pk ack ch spare bs changes old eg rb (er ∙ same) et)
          ]
    ]

compressible-IsAck : (m_len : ℕ) (p : Header) → compressible m_len p ≡ true → IsAck p
unfolding compressible
compressible-IsAck m_len p h = record {
  no_fin = ground arith;
  no_syn = ground arith;
  no_rst = ground arith;
  acked = ground arith;
}

same_addresses-Follows :
    (p old : Header)
    → IsTcp p
    → IsAck p
    → IsTcp old
    → IsAck old
    → FadedHeader p (some old)
    → same_addresses p (some old) ≡ true
    → Follows p old
unfolding same_addresses
same_addresses-Follows p old tp ap' to ao faded e = record {
  new_tcp = tp;
  old_tcp = to;
  new_ack = ap';
  old_ack = ao;
  src_eq = ground arith;
  dst_eq = ground arith;
  ports_eq = ground arith;
  faded = faded e;
}

-- What is known of the state that is chosen for a packet.
send_selected-Arrives :
    {p : Header} {bytes : List ℕ} (sel : Selected) (d : Decompressor)
    → IsPacket p bytes
    → IsAck p
    → Choice p sel d.rstate
    → Faded p sel.chosen
    → (sel.found ≡ true → same_addresses p sel.chosen.cs_hdr ≡ true)
    → (spare : List ℕ) (cid : Bool) (c : Compressor)
    → (c.last_xmit ≡ 255) ⊎ ((d.toss ≡ false) × (d.last_recv ≡ c.last_xmit))
    → Arrives p bytes
        (send_selected p cid c sel).1
        (deliver (send_selected p cid c sel).0 p bytes spare d)
unfolding send_selected send_delta delta_from
send_selected-Arrives {p} {bytes} sel d pk ack ch faded match spare cid c told =
    elim (Bool-cases sel.found) [
      | inr e ↦ rw e (send_uncompressed-Arrives d pk ack ch spare c)
      | inl e ↦ rw e (by_header sel.chosen.cs_hdr ch.chosen_mirrored faded (match e))
    ]
  where
    by_header :
        (o : Option Header)
        → MirroredHeader d.rstate sel.chosen.cs_id o
        → FadedHeader p o
        → same_addresses p o ≡ true
        → Arrives p bytes
            (send_delta p cid sel c (delta_from p o)).1
            (deliver (send_delta p cid sel c (delta_from p o)).0 p bytes spare d)
    by_header none m f e = send_uncompressed-Arrives d pk ack ch spare c
    by_header (some old) (eg, to, ao) f e = elim (Option-cases (header_delta p old)) [
      | inl x ↦ rw x (send_uncompressed-Arrives d pk ack ch spare c)
      | inr ((changes, bs), x) ↦ rw x (
          send_compressed-Arrives d pk ack ch spare bs changes old cid c eg
            (header_delta-Rebuilds p old (same_addresses-Follows p old pk.tcp ack to ao f e) x)
            told)
    ]

pub compress_packet_tcp :
    {p : Header} (m_len : ℕ) (cid : Bool) (c : Compressor)
    → IsTcp p
    → compress_packet m_len cid p c ≡ sl_compress_tcp m_len p cid c
unfolding compress_packet
compress_packet_tcp {p} m_len cid c t =
    let e : (p.ip.ip_p == 6) ≡ true = ground (arith, t.protocol) in rw e refl

-- The packet that `sl_compress_tcp` was given comes out at the other end, and the states of both
-- ends stay in step.
pub transmit_round_trip :
    (m_len : ℕ) (cid : Bool) (p : Header) (bytes spare : List ℕ) (c : Compressor) (d : Decompressor)
    → Synced c d
    → IsPacket p bytes
    → All (Faded p) (c.first ∷ c.others)
    → ((transmit m_len cid p bytes spare (c, d)).0 ≡ packet p bytes)
      × Synced
          (transmit m_len cid p bytes spare (c, d)).1.0
          (transmit m_len cid p bytes spare (c, d)).1.1
unfolding transmit sl_compress_tcp deliver
transmit_round_trip m_len cid p bytes spare c d s pk faded =
    elim (Bool-cases (compressible m_len p)) [
      | inr e ↦ rw (compress_packet_tcp m_len cid c pk.tcp, e) (refl, s)
      | inl e ↦
          rw (compress_packet_tcp m_len cid c pk.tcp, e)
            (send_selected-Arrives (select p c.first c.others) d pk (compressible-IsAck m_len p e)
              (Synced-Choice p s) (select-All (Faded p) p c.first c.others faded).0
              (select_found p c.first c.others) spare cid c s.told)
    ]
