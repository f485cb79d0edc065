-- ===== src/Slip/Header.antt =====
-- The headers that generic/net/slcompress.c reads: `struct ip` of generic/netinet/ip.h and
-- `struct tcphdr` of generic/netinet/tcp.h. Fields are numbers in the order of the network. The
-- options are lists of words, whose lengths say `ip_hl` and `th_off`, which are 5 or more here.
use anp.Prelude.{ℕ, ◌+◌, ◌-◌, ◌*◌, ◌/◌, ◌%◌, Bool, List, [], ◌∷◌, length}

pub record Ip : Type 0 where
  pub ip_v : ℕ
  pub ip_tos : ℕ
  pub ip_len : ℕ
  pub ip_id : ℕ
  pub ip_off : ℕ
  pub ip_ttl : ℕ
  pub ip_p : ℕ
  pub ip_sum : ℕ
  pub ip_src : ℕ
  pub ip_dst : ℕ
  pub ip_options : List ℕ

-- `ports` is the word of both ports, which the source compares as one `int`, and `reserved` holds
-- the bits of `th_x2` and `th_flags` that are not named.
pub record Tcp : Type 0 where
  pub ports : ℕ
  pub th_seq : ℕ
  pub th_ack : ℕ
  pub reserved : ℕ
  pub th_fin : Bool
  pub th_syn : Bool
  pub th_rst : Bool
  pub th_push : Bool
  pub th_acked : Bool
  pub th_urg : Bool
  pub th_win : ℕ
  pub th_sum : ℕ
  pub th_urp : ℕ
  pub th_options : List ℕ

pub record Header : Type 0 where
  pub ip : Ip
  pub th : Tcp

abbrev pub ip_hl : Header → ℕ
ip_hl h = 5 + length h.ip.ip_options

abbrev pub th_off : Header → ℕ
th_off h = 5 + length h.th.th_options

-- `hlen`: the bytes of both headers.
unfoldable pub hlen : Header → ℕ
hlen h = (ip_hl h + th_off h) * 4

-- The bytes of a saved header, `MAX_HDR`, which is `MLEN`.
abbrev pub max_hdr : ℕ
max_hdr = 108

abbrev pub ipproto_tcp : ℕ
ipproto_tcp = 6

abbrev pub max_states : ℕ
max_states = 16

-- The two word_halves of a word.
abbrev pub high : ℕ → ℕ
high w = w / 65536

abbrev pub low : ℕ → ℕ
low w = w % 65536

unfoldable pub word_halves : List ℕ → List ℕ
word_halves [] = []
word_halves (w ∷ ws) = high w ∷ low w ∷ word_halves ws

-- The 16-bit words of the IP header.
unfoldable pub ip_words : Ip → List ℕ
ip_words ip =
    (((ip.ip_v * 16 + (5 + length ip.ip_options)) * 256 + ip.ip_tos)
      ∷ ip.ip_len
      ∷ ip.ip_id
      ∷ ip.ip_off
      ∷ (ip.ip_ttl * 256 + ip.ip_p)
      ∷ ip.ip_sum
      ∷ high ip.ip_src
      ∷ low ip.ip_src
      ∷ high ip.ip_dst
      ∷ low ip.ip_dst
      ∷ word_halves ip.ip_options)

unfoldable pub sum_words : List ℕ → ℕ
sum_words [] = 0
sum_words (w ∷ ws) = w + sum_words ws

abbrev pub fold_sum : ℕ → ℕ
fold_sum n = n % 65536 + n / 65536

-- The checksum that `sl_uncompress_tcp` puts into a header whose `ip_sum` is 0.
unfoldable pub ip_checksum : Ip → ℕ
ip_checksum ip = 65535 - fold_sum (fold_sum (sum_words (ip_words ip))) % 65536
