-- ===== src/Slip/Synced.antt =====
-- The states of the two ends of a line of generic/net/slcompress.c, and how a packet keeps them in
-- step.
use anp.Prelude.{
  ℕ, ◌+◌, ◌≤◌, ◌<◌, ◌≡◌, ◌≢◌, ◌⊎◌, inr, refl, sym, ◌∙◌, false, Option, none, some, List, [], ◌∷◌,
  length, get_elem?, set, length-set, get_elem?-set_self, get_elem?-set_ne, arith,
}
use anp.Slip.Header.{Header, hlen, max_hdr, max_states, ip_checksum}
use anp.Slip.States.{State, Compressor, Selected, select}
use anp.Slip.Compress.{saved}
use anp.Slip.Uncompress.{Decompressor, without_sum}
use anp.Slip.Saved.{IsTcp, IsAck}
use anp.Slip.Lru.{All, Apart, Distinct, select-All, select-Distinct}

-- A TCP packet with its data: the length and the checksum in its IP header are right.
pub record IsPacket (p : Header) (bytes : List ℕ) : Type 0 where
  pub tcp : IsTcp p
  pub len_eq : p.ip.ip_len ≡ hlen p + length bytes
  pub len_fits : p.ip.ip_len < 65536
  pub sum_eq : p.ip.ip_sum ≡ ip_checksum (without_sum p).ip
  pub fits : hlen p ≤ max_hdr

-- The receiver has the header of a state, with no checksum.
abbrev pub MirroredHeader : List (Option Header) → ℕ → Option Header → Type 0
MirroredHeader rs id none = Unit
MirroredHeader rs id (some h) = (get_elem? rs id ≡ some (some (without_sum h))) × IsTcp h × IsAck h

abbrev pub Mirrored : List (Option Header) → State → Type 0
Mirrored rs s = MirroredHeader rs s.cs_id s.cs_hdr

pub record Synced (c : Compressor) (d : Decompressor) : Type 0 where
  pub mirrored : All (Mirrored d.rstate) (c.first ∷ c.others)
  pub distinct : Distinct (c.first ∷ c.others)
  pub small : All (λ s. s.cs_id < max_states) (c.first ∷ c.others)
  pub size : length d.rstate ≡ max_states
  pub told : (c.last_xmit ≡ 255) ⊎ ((d.toss ≡ false) × (d.last_recv ≡ c.last_xmit))

-- The state that is chosen for a packet, and the others.
pub record Choice (p : Header) (sel : Selected) (rs : List (Option Header)) : Type 0 where
  pub chosen_mirrored : Mirrored rs sel.chosen
  pub rest_mirrored : All (Mirrored rs) sel.rest
  pub apart : Apart sel.chosen.cs_id sel.rest
  pub rest_distinct : Distinct sel.rest
  pub chosen_small : sel.chosen.cs_id < max_states
  pub rest_small : All (λ s. s.cs_id < max_states) sel.rest
  pub size : length rs ≡ max_states

pub Synced-Choice :
    {c : Compressor} {d : Decompressor} (p : Header)
    → Synced c d
    → Choice p (select p c.first c.others) d.rstate
Synced-Choice {c} {d} p s =
    let (m, ms) = select-All (Mirrored d.rstate) p c.first c.others s.mirrored in
    let (a, ds) = select-Distinct p c.first c.others s.distinct in
    let (l, ls) = select-All (λ x. x.cs_id < max_states) p c.first c.others s.small in
    record {
      chosen_mirrored = m;
      rest_mirrored = ms;
      apart = a;
      rest_distinct = ds;
      chosen_small = l;
      rest_small = ls;
      size = s.size;
    }

-- A write for one state leaves the others.
Mirrored-set :
    (rs : List (Option Header)) (id : ℕ) (v : Option Header) (s : State)
    → s.cs_id ≢ id
    → Mirrored rs s
    → Mirrored (set rs id v) s
Mirrored-set rs id v s ne m = kept s.cs_hdr m
  where
    kept :
        (o : Option Header) → MirroredHeader rs s.cs_id o → MirroredHeader (set rs id v) s.cs_id o
    kept none h = tt
    kept (some h) (e, t, a) = (get_elem?-set_ne rs v (λ q. ne (sym q)) ∙ e, t, a)

All-Mirrored :
    (rs : List (Option Header)) (id : ℕ) (v : Option Header) (ss : List State)
    → Apart id ss
    → All (Mirrored rs) ss
    → All (Mirrored (set rs id v)) ss
All-Mirrored rs id v [] a m = tt
All-Mirrored rs id v (s ∷ ss) (ne, a) (m, ms) =
    (Mirrored-set rs id v s ne m, All-Mirrored rs id v ss a ms)

-- Both ends have saved the packet.
pub saved-Synced :
    {p : Header} {sel : Selected} {rs : List (Option Header)}
    → Choice p sel rs
    → IsTcp p
    → IsAck p
    → Synced (saved p sel) (record {
      rstate = set rs sel.chosen.cs_id (some (without_sum p));
      last_recv = sel.chosen.cs_id;
      toss = false;
    })
saved-Synced {p} {sel} {rs} ch t a = record {
  mirrored = (
    (get_elem?-set_self rs sel.chosen.cs_id _ (omega (arith, ch.chosen_small, ch.size)), t, a),
    All-Mirrored rs sel.chosen.cs_id _ sel.rest ch.apart ch.rest_mirrored,
  );
  distinct = (ch.apart, ch.rest_distinct);
  small = (ch.chosen_small, ch.rest_small);
  size = length-set rs sel.chosen.cs_id _ ∙ ch.size;
  told = inr (refl, refl);
}
