-- ===== src/Slip/States.antt =====
-- The states of the sender in generic/net/slcompress.c: `sl_compress_init`, and the choice of a
-- state in `sl_compress_tcp`.
use anp.Prelude.{
  ℕ, zero, suc, ◌%◌, Bool, true, not, ◌&&◌, ◌||◌, Option, none, some, List, [], ◌∷◌, ◌++◌, leb,
  ◌==◌, if◌then◌else◌,
}
use anp.Slip.Header.{Header}

-- `struct cstate`. `none` is a header of zeros, as `bzero` leaves it.
pub record State : Type 0 where
  pub cs_id : ℕ
  pub cs_hdr : Option Header

-- The list of states from `last_cs->cs_next`, the most recently used one, round to `last_cs`.
pub record Compressor : Type 0 where
  pub first : State
  pub others : List State
  pub last_xmit : ℕ

unfoldable pub states_down : ℕ → List State
states_down zero = []
states_down (suc n) = record { cs_id = suc n; cs_hdr = none } ∷ states_down n

-- State 0 is `last_cs`, and state 15 follows it.
unfoldable pub compress_init : Compressor
unfolding states_down
compress_init = record {
  first = record { cs_id = 15; cs_hdr = none };
  others = states_down 14 ++ (record { cs_id = 0; cs_hdr = none } ∷ []);
  last_xmit = 255;
}

-- An ACK that is no fragment, with no other control bit.
unfoldable pub compressible : ℕ → Header → Bool
compressible m_len p =
    (p.ip.ip_off % 16384 == 0)
    && leb 40 m_len
    && p.th.th_acked
    && not (p.th.th_syn || p.th.th_fin || p.th.th_rst)

unfoldable pub same_addresses : Header → Option Header → Bool
same_addresses p none = (p.ip.ip_src == 0) && (p.ip.ip_dst == 0) && (p.th.ports == 0)
same_addresses p (some h) =
    (p.ip.ip_src == h.ip.ip_src) && (p.ip.ip_dst == h.ip.ip_dst) && (p.th.ports == h.th.ports)

-- The state for a packet, whether it was found, and the states that stay behind it.
pub record Selected : Type 0 where
  pub found : Bool
  pub chosen : State
  pub rest : List State

abbrev pub behind : State → Selected → Selected
behind s r = record r { rest = s ∷ r.rest }

-- The first state that matches, or the oldest one. It moves to the front either way.
unfoldable pub select : Header → State → List State → Selected
unfolding same_addresses
select p s [] = record { found = same_addresses p s.cs_hdr; chosen = s; rest = [] }
select p s (t ∷ r) =
    if same_addresses p s.cs_hdr
    then record { found = true; chosen = s; rest = t ∷ r }
    else behind s (select p t r)
