-- ===== src/Slip/Saved.antt =====
-- The headers that both ends of a line of generic/net/slcompress.c keep, and the packets between
-- them.
use anp.Prelude.{
  ℕ, ◌+◌, ◌*◌, ◌^◌, ◌<◌, ◌≡◌, true, false, List, [], ◌∷◌, length, refl, sym, ap₂, arith,
}
use anp.Slip.Header.{Ip, Tcp, Header, hlen}
use anp.Slip.Changes.{same_words, unchanged}

-- The numbers of a header of a TCP packet fit into their fields, and the bits that have no name
-- are 0.
pub record IsTcp (h : Header) : Type 0 where
  pub version : h.ip.ip_v ≡ 4
  pub protocol : h.ip.ip_p ≡ 6
  pub no_reserved : h.th.reserved ≡ 0
  pub urp_fits : h.th.th_urp < 65536
  pub id_fits : h.ip.ip_id < 65536
  pub seq_fits : h.th.th_seq < 2 ^ 32
  pub ack_fits : h.th.th_ack < 2 ^ 32
  pub win_fits : h.th.th_win < 65536
  pub sum_fits : h.th.th_sum < 65536

-- The control bits of a packet that is compressed.
pub record IsAck (h : Header) : Type 0 where
  pub no_fin : h.th.th_fin ≡ false
  pub no_syn : h.th.th_syn ≡ false
  pub no_rst : h.th.th_rst ≡ false
  pub acked : h.th.th_acked ≡ true

pub Ip_ext :
    {a b : Ip}
    → a.ip_v ≡ b.ip_v
    → a.ip_tos ≡ b.ip_tos
    → a.ip_len ≡ b.ip_len
    → a.ip_id ≡ b.ip_id
    → a.ip_off ≡ b.ip_off
    → a.ip_ttl ≡ b.ip_ttl
    → a.ip_p ≡ b.ip_p
    → a.ip_sum ≡ b.ip_sum
    → a.ip_src ≡ b.ip_src
    → a.ip_dst ≡ b.ip_dst
    → a.ip_options ≡ b.ip_options
    → a ≡ b
Ip_ext v tos len id off ttl p sum src dst options = λ i. record {
  ip_v = v i;
  ip_tos = tos i;
  ip_len = len i;
  ip_id = id i;
  ip_off = off i;
  ip_ttl = ttl i;
  ip_p = p i;
  ip_sum = sum i;
  ip_src = src i;
  ip_dst = dst i;
  ip_options = options i;
}

-- Two TCP headers that agree in what the sender compares, and in what it takes from the packet.
pub Tcp_ext :
    {a b : Tcp}
    → a.ports ≡ b.ports
    → a.th_seq ≡ b.th_seq
    → a.th_ack ≡ b.th_ack
    → a.reserved ≡ b.reserved
    → a.th_fin ≡ b.th_fin
    → a.th_syn ≡ b.th_syn
    → a.th_rst ≡ b.th_rst
    → a.th_push ≡ b.th_push
    → a.th_acked ≡ b.th_acked
    → a.th_urg ≡ b.th_urg
    → a.th_win ≡ b.th_win
    → a.th_sum ≡ b.th_sum
    → a.th_urp ≡ b.th_urp
    → a.th_options ≡ b.th_options
    → a ≡ b
Tcp_ext ps seq ack res fin syn rst push acked urg win sum urp options = λ i. record {
  ports = ps i;
  th_seq = seq i;
  th_ack = ack i;
  reserved = res i;
  th_fin = fin i;
  th_syn = syn i;
  th_rst = rst i;
  th_push = push i;
  th_acked = acked i;
  th_urg = urg i;
  th_win = win i;
  th_sum = sum i;
  th_urp = urp i;
  th_options = options i;
}

pub same_words→eq : (as' bs : List ℕ) → same_words as' bs ≡ true → as' ≡ bs
unfolding same_words
same_words→eq [] [] h = refl
same_words→eq [] (b ∷ bs) h = absurd cc
same_words→eq (a ∷ as') [] h = absurd cc
same_words→eq (a ∷ as') (b ∷ bs) h =
    let e : a ≡ b = ground arith in
    let t : same_words as' bs ≡ true = ground arith in ap₂ ◌∷◌ e (same_words→eq as' bs t)

-- What `unchanged` compares.
pub record Agrees (p old : Header) : Type 0 where
  pub tos : p.ip.ip_tos ≡ old.ip.ip_tos
  pub off : p.ip.ip_off ≡ old.ip.ip_off
  pub ttl : p.ip.ip_ttl ≡ old.ip.ip_ttl
  pub ip_options : p.ip.ip_options ≡ old.ip.ip_options
  pub th_options : p.th.th_options ≡ old.th.th_options

pub unchanged-Agrees : (p old : Header) → unchanged p old ≡ true → Agrees p old
unfolding unchanged
unchanged-Agrees p old h = record {
  tos = ground arith;
  off = ground arith;
  ttl = ground arith;
  ip_options = same_words→eq _ _ (ground arith);
  th_options = same_words→eq _ _ (ground arith);
}

pub Agrees-hlen : {p old : Header} → Agrees p old → hlen old ≡ hlen p
unfolding hlen
Agrees-hlen a =
    ap₂ (λ m n. (5 + length m + (5 + length n)) * 4) (sym a.ip_options) (sym a.th_options)
