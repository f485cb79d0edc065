-- ===== src/Slip/Runs.antt =====
-- Sequences of packets over a line of generic/net/slcompress.c that was just set up.
use anp.Prelude.{
  ℕ, ◌≡◌, inl, inr, refl, ap₂, Bool, none, some, List, [], ◌∷◌, map, Bool-cases, ltb, not, ◌||◌,
  ◌==◌, arith,
}
use anp.Slip.Header.{Header, hlen, max_hdr}
use anp.Slip.States.{State, Compressor, Selected, select, compressible, compress_init, states_down}
use anp.Slip.Changes.{Part}
use anp.Slip.Compress.{
  send_delta, send_selected, send_uncompressed, send_compressed, sl_compress_tcp,
}
use anp.Slip.Uncompress.{Decompressor, uncompress_init, Received, packet}
use anp.Slip.Line.{transmit, compress_packet}
use anp.Slip.Lru.{All, All-map, select-All}
use anp.Slip.Synced.{IsPacket, Synced}
use anp.Slip.RoundTrip.{Faded, FadedHeader, transmit_round_trip, compress_packet_tcp}

-- A packet for the line: its header and data, the length of its first mbuf, the argument
-- `compress_cid`, and the memory behind the frame at the other end.
pub record Outgoing : Type 0 where
  pub header : Header
  pub bytes : List ℕ
  pub first_len : ℕ
  pub compress_cid : Bool
  pub spare : List ℕ

unfoldable pub send_all : List Outgoing → Compressor × Decompressor → List Received
send_all [] ends = []
send_all (o ∷ os) ends =
    let (received, ends') = transmit o.first_len o.compress_cid o.header o.bytes o.spare ends in
    received ∷ send_all os ends'

abbrev pub IsOutgoing : Outgoing → Type 0
IsOutgoing o = IsPacket o.header o.bytes

-- Between the same addresses and ports, no packet with URG comes before one without.
abbrev pub Fades : List Outgoing → Type 0
Fades [] = Unit
Fades (o ∷ os) = All (λ q. FadedHeader q.header (some o.header)) os × Fades os

compress_init-Synced : Synced compress_init uncompress_init
unfolding compress_init states_down uncompress_init
compress_init-Synced = record {
  mirrored = omega arith;
  distinct = omega arith;
  small = omega arith;
  size = refl;
  told = inl refl;
}

-- What holds for the states before a packet, and for a state that has saved the packet, holds for
-- the states after it.
module _ {κ} (P : State → Type κ) (p : Header)
    (new : (id : ℕ) → P (record { cs_id = id; cs_hdr = some p })) where
  send_uncompressed-All :
      (sel : Selected) (c : Compressor)
      → All P sel.rest
      → All P (c.first ∷ c.others)
      → All P ((send_uncompressed p sel c).1.first ∷ (send_uncompressed p sel c).1.others)
  unfolding send_uncompressed
  send_uncompressed-All sel c rest before = elim (Bool-cases (ltb max_hdr (hlen p))) [
    | inl e ↦ rw e before
    | inr e ↦ rw e (new sel.chosen.cs_id, rest)
  ]

  send_delta-All :
      (cid : Bool) (sel : Selected) (c : Compressor) (part : Part)
      → All P sel.rest
      → All P (c.first ∷ c.others)
      → All P ((send_delta p cid sel c part).1.first ∷ (send_delta p cid sel c part).1.others)
  unfolding send_delta send_compressed
  send_delta-All cid sel c none rest before = send_uncompressed-All sel c rest before
  send_delta-All cid sel c (some (changes, bs)) rest before =
      elim (Bool-cases (not cid || not (c.last_xmit == sel.chosen.cs_id))) [
        | inl e ↦ rw e (new sel.chosen.cs_id, rest)
        | inr e ↦ rw e (new sel.chosen.cs_id, rest)
      ]

  sl_compress_tcp-All :
      (m_len : ℕ) (cid : Bool) (c : Compressor)
      → All P (c.first ∷ c.others)
      → All P ((sl_compress_tcp m_len p cid c).1.first ∷ (sl_compress_tcp m_len p cid c).1.others)
  unfolding sl_compress_tcp send_selected
  sl_compress_tcp-All m_len cid c before = elim (Bool-cases (compressible m_len p)) [
    | inr e ↦ rw e before
    | inl e ↦ rw e (
        send_delta-All cid (select p c.first c.others) c _
          (select-All P p c.first c.others before).1 before)
  ]

-- The states of the sender let all packets to come through.
abbrev Clear : List Outgoing → Compressor → Type 0
Clear os c = All (λ s. All (λ q. Faded q.header s) os) (c.first ∷ c.others)

send_all-Synced :
    (os : List Outgoing) (c : Compressor) (d : Decompressor)
    → All IsOutgoing os
    → Fades os
    → Synced c d
    → Clear os c
    → send_all os (c, d) ≡ map (λ o. packet o.header o.bytes) os
unfolding send_all transmit
send_all-Synced [] c d ps fs s cl = refl
send_all-Synced (o ∷ os) c d (pk, ps) (f, fs) s cl =
    let now = All-map {Q = Faded o.header} (λ x h. h.0) (c.first ∷ c.others) cl in
    let later =
      All-map {Q = λ x. All (λ q. Faded q.header x) os} (λ x h. h.1) (c.first ∷ c.others) cl in
    let same = compress_packet_tcp o.first_len o.compress_cid c pk.tcp in
    let (arrives, s') =
      transmit_round_trip o.first_len o.compress_cid o.header o.bytes o.spare c d s pk now in
    let after : Clear os (compress_packet o.first_len o.compress_cid o.header c).1 = rw same (
      sl_compress_tcp-All (λ x. All (λ q. Faded q.header x) os) o.header (λ id. f) o.first_len
        o.compress_cid c later) in
    ap₂ ◌∷◌ arrives (send_all-Synced os _ _ ps fs s' after)

no_header :
    (os : List Outgoing) (id : ℕ)
    → All (λ q. Faded q.header (record { cs_id = id; cs_hdr = none })) os
no_header [] id = tt
no_header (o ∷ os) id = (tt, no_header os id)

compress_init-Clear : (os : List Outgoing) → Clear os compress_init
unfolding compress_init states_down
compress_init-Clear os =
    let f = no_header os 0 in
    (f, (f, (f, (f, (f, (f, (f, (f, (f, (f, (f, (f, (f, (f, (f, (f, tt))))))))))))))))

-- Over a line just set up, every sequence of TCP packets comes out as it went in: header, data,
-- length and checksum, whichever packets are compressed. Their lengths and checksums are right, the
-- reserved bits are 0 and the headers have at most 108 bytes; and between the same addresses and
-- ports, none without URG follows one with URG.
pub send_all_round_trip :
    (os : List Outgoing)
    → All IsOutgoing os
    → Fades os
    → send_all os (compress_init, uncompress_init) ≡ map (λ o. packet o.header o.bytes) os
send_all_round_trip os ps fs =
    send_all-Synced os compress_init uncompress_init ps fs compress_init-Synced
      (compress_init-Clear os)
