-- ===== src/Slip/Tests.antt =====
-- Packets and runs of generic/net/slcompress.c.
use anp.Prelude.{ℕ, ◌+◌, ◌≡◌, refl, Bool, true, false, List, [], ◌∷◌, arith}
use anp.Slip.Header.{Header, hlen, ip_words, sum_words, word_halves, ip_checksum}
use anp.Slip.States.{Compressor, compressible, compress_init, states_down}
use anp.Slip.Compress.{uncompressed, compressed, sl_compress_tcp}
use anp.Slip.Uncompress.{
  Decompressor, Received, packet, nothing, uncompress_init, bad, take_uncompressed, take_compressed,
  take_explicit, take_changes, rebuild_from, rebuild, finish_rebuilt, with_length, with_checksum,
}
use anp.Slip.Encoding.{read_short}
use anp.Slip.Line.{transmit, deliver, compress_packet}
use anp.Slip.Lru.{Distinct}
use anp.Slip.Runs.{Outgoing, send_all, send_all_round_trip, IsOutgoing, Fades}
use anp.Slip.Order.{IsLru, sl_compress_tcp-IsLru}
use anp.Slip.Errors.{take_all_compressed, take_compressed-nothing}

-- A data packet from 10.0.0.1 to 10.0.0.2.
abbrev header : ℕ → ℕ → ℕ → ℕ → ℕ → Bool → Header
header id seq len sum win urg = record {
  ip = record {
    ip_v = 4;
    ip_tos = 0;
    ip_len = 40 + len;
    ip_id = id;
    ip_off = 0x4000;
    ip_ttl = 64;
    ip_p = 6;
    ip_sum = sum;
    ip_src = 0x0a000001;
    ip_dst = 0x0a000002;
    ip_options = [];
  };
  th = record {
    ports = 0x04000017;
    th_seq = seq;
    th_ack = 700;
    reserved = 0;
    th_fin = false;
    th_syn = false;
    th_rst = false;
    th_push = true;
    th_acked = true;
    th_urg = urg;
    th_win = win;
    th_sum = 0x1234;
    th_urp = 0;
    th_options = [];
  };
}

abbrev outgoing : Header → List ℕ → Outgoing
outgoing h bytes = record {
  header = h;
  bytes = bytes;
  first_len = 60;
  compress_cid = true;
  spare = [];
}

abbrev first_packet : Outgoing
first_packet = outgoing (header 1 1000 2 0x26cb 500 false) (104 ∷ 105 ∷ [])

abbrev second_packet : Outgoing
second_packet = outgoing (header 2 1002 1 0x26cb 500 false) (33 ∷ [])

abbrev urgent_packet : Outgoing
urgent_packet = outgoing (header 1 1000 2 0x26cb 500 true) (104 ∷ 105 ∷ [])

compress_init-Distinct : Distinct (compress_init.first ∷ compress_init.others)
unfolding compress_init states_down
compress_init-Distinct = omega arith

first_compressible : compressible 42 first_packet.header ≡ true
unfolding compressible
first_compressible = refl

first_packet-IsPacket : IsOutgoing first_packet
unfolding hlen ip_checksum ip_words sum_words word_halves
first_packet-IsPacket = record {
  tcp = omega arith;
  len_eq = refl;
  len_fits = omega arith;
  sum_eq = refl;
  fits = omega arith;
}

second_packet-IsPacket : IsOutgoing second_packet
unfolding hlen ip_checksum ip_words sum_words word_halves
second_packet-IsPacket = record {
  tcp = omega arith;
  len_eq = refl;
  len_fits = omega arith;
  sum_eq = refl;
  fits = omega arith;
}

-- The first packet is sent whole, with the number of its state in `ip_p`.
first_sent :
    (sl_compress_tcp 42 first_packet.header true compress_init).0
    ≡ uncompressed (record first_packet.header { ip = record first_packet.header.ip { ip_p = 0 } })
unfolding sl_compress_tcp compress_init states_down hlen
first_sent = refl

-- The second one is three bytes: PUSH and SPECIAL_D, and the checksum.
second_sent :
    (sl_compress_tcp 41 second_packet.header true
      (sl_compress_tcp 42 first_packet.header true compress_init).1).0
    ≡ compressed (31 ∷ 0x12 ∷ 0x34 ∷ [])
unfolding sl_compress_tcp compress_init states_down hlen
second_sent = refl

both_fade : Fades (first_packet ∷ second_packet ∷ [])
both_fade = (((λ _ _. refl), tt), (tt, tt))

send_all_round_trip_example :
    send_all (first_packet ∷ second_packet ∷ []) (compress_init, uncompress_init)
    ≡ packet first_packet.header first_packet.bytes
      ∷ packet second_packet.header second_packet.bytes
      ∷ []
send_all_round_trip_example =
    send_all_round_trip (first_packet ∷ second_packet ∷ [])
      (first_packet-IsPacket, (second_packet-IsPacket, tt)) both_fade

-- The states after the first packet.
abbrev after_first : Received × (Compressor × Decompressor)
after_first =
    transmit 42 true urgent_packet.header urgent_packet.bytes [] (compress_init, uncompress_init)

-- URG of the packet before stays set where a special case stands for the fields.
urgent_stays :
    (transmit 41 true second_packet.header second_packet.bytes [] after_first.1).0
    ≡ packet
        (record second_packet.header { th = record second_packet.header.th { th_urg = true } })
        second_packet.bytes
unfolding transmit sl_compress_tcp deliver compress_packet compress_init states_down uncompress_init
    take_uncompressed take_compressed take_explicit take_changes rebuild_from rebuild finish_rebuilt
    with_length with_checksum read_short hlen ip_checksum ip_words sum_words word_halves
urgent_stays = refl

sl_compress_tcp-IsLru_example :
    IsLru first_packet.header compress_init
      (sl_compress_tcp 42 first_packet.header true compress_init).1
sl_compress_tcp-IsLru_example =
    sl_compress_tcp-IsLru 42 true first_packet.header compress_init compress_init-Distinct
      first_compressible first_packet-IsPacket.fits

-- Conversation 20 is out of range.
bad_number : (take_compressed 4 (0x40 ∷ 20 ∷ 0 ∷ 0 ∷ []) uncompress_init).0 ≡ nothing
unfolding take_compressed take_explicit bad
bad_number = refl

take_compressed-nothing_example :
    take_all_compressed
      ((3, 0x10 ∷ 0x12 ∷ 0x34 ∷ []) ∷ [])
      (take_compressed 4 (0x40 ∷ 20 ∷ 0 ∷ 0 ∷ []) uncompress_init).1
    ≡ (nothing ∷ [], (take_compressed 4 (0x40 ∷ 20 ∷ 0 ∷ 0 ∷ []) uncompress_init).1)
take_compressed-nothing_example =
    take_compressed-nothing 4 (0x40 ∷ 20 ∷ 0 ∷ 0 ∷ []) uncompress_init
      ((3, 0x10 ∷ 0x12 ∷ 0x34 ∷ []) ∷ []) bad_number (refl, tt)
