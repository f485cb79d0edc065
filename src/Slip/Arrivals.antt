-- ===== src/Slip/Arrivals.antt =====
-- Frames of generic/net/slcompress.c as they arrive at the other end of the line.
use anp.Prelude.{
  ℕ, suc, ◌+◌, ◌-◌, ◌*◌, ◌/◌, ◌%◌, ◌≡◌, refl, sym, ap, ap₂, ◌∙◌, true, false, some, List, ◌∷◌, ◌++◌,
  length, get_elem?, set, take, append_assoc, length-append, ltb, leb, ◌==◌, if◌then◌else◌, arith,
  take-append_left, take_all,
}
use mathlib.Core.Path.{subst}
use anp.Slip.Header.{Header, hlen, max_hdr, max_states}
use anp.Slip.Encoding.{high_byte, low_byte}
use anp.Slip.States.{Compressor, Selected}
use anp.Slip.Compress.{saved, send_uncompressed, compressed}
use anp.Slip.Uncompress.{
  Decompressor, Received, packet, nothing, without_sum, as_tcp, take_uncompressed, take_compressed,
  take_explicit, take_changes, rebuild_from, finish_rebuilt, with_length, with_checksum,
}
use anp.Slip.Saved.{IsTcp, IsAck}
use anp.Slip.Whole.{Rebuilds, saved_with}
use anp.Slip.Line.{retyped, deliver}
use anp.Slip.Synced.{IsPacket, Synced, Choice, saved-Synced}

-- The packet arrives, and both ends have saved it.
abbrev pub Arrives : Header → List ℕ → Compressor → Received × Decompressor → Type 0
Arrives p bytes c r = (r.0 ≡ packet p bytes) × Synced c r.1

renumbered :
    (p : Header) (id : ℕ)
    → IsTcp p
    → as_tcp (retyped (record p { ip = record p.ip { ip_p = id } })) ≡ p
renumbered p id t =
    λ i. record p { ip = record p.ip { ip_v = sym t.version i; ip_p = sym t.protocol i } }

-- The receiver after a packet of conversation `id`.
abbrev pub at_receiver : Decompressor → ℕ → Header → Decompressor
at_receiver d id h = record {
  rstate = set d.rstate id (some (without_sum h));
  last_recv = id;
  toss = false;
}

with_length_back :
    {p : Header} {bytes : List ℕ} (n : ℕ)
    → IsPacket p bytes
    → with_length (length bytes) (saved_with p n) ≡ without_sum p
unfolding with_length hlen
with_length_back {p} {bytes} n pk =
    let e : (hlen p + length bytes) % 65536 ≡ p.ip.ip_len = omega (arith, pk.len_eq, pk.len_fits) in
    λ i. record p { ip = record p.ip { ip_sum = 0; ip_len = e i } }

with_checksum_back :
    {p : Header} {bytes : List ℕ} → IsPacket p bytes → with_checksum (without_sum p) ≡ p
unfolding with_checksum
with_checksum_back {p} pk = λ i. record p { ip = record p.ip { ip_sum = sym pk.sum_eq i } }

module _ {p : Header} {bytes : List ℕ} {sel : Selected} (d : Decompressor) (pk : IsPacket p bytes)
    (ack : IsAck p) (ch : Choice p sel d.rstate) where
  pub send_uncompressed-Arrives :
      (spare : List ℕ) (c : Compressor)
      → Arrives p bytes
          (send_uncompressed p sel c).1
          (deliver (send_uncompressed p sel c).0 p bytes spare d)
  unfolding send_uncompressed deliver take_uncompressed hlen
  send_uncompressed-Arrives spare c =
      let short : ltb max_hdr (hlen p) ≡ false = ground (arith, pk.fits) in
      let low : leb max_states sel.chosen.cs_id ≡ false = ground (arith, ch.chosen_small) in
      let back = renumbered p sel.chosen.cs_id pk.tcp in
      let short' : ltb max_hdr
            (hlen (retyped (record p { ip = record p.ip { ip_p = sel.chosen.cs_id } })))
          ≡ false =
        short in
      rw (short, low, short')
        (
          ap (λ h. packet h bytes) back,
          subst (λ h. Synced (saved p sel) (at_receiver d sel.chosen.cs_id h)) (sym back)
              (saved-Synced ch pk.tcp ack),
        )

  finish_rebuilt-Arrives :
      (spare cp : List ℕ) (n len : ℕ) (old : Header)
      → length cp ≡ n + length bytes + length spare
      → len ≡ n + length bytes
      → d.last_recv ≡ sel.chosen.cs_id
      → d.toss ≡ false
      → Arrives p bytes
          (saved p sel)
          (finish_rebuilt len cp d (some (saved_with p old.ip.ip_len, bytes ++ spare)))
  unfolding finish_rebuilt
  finish_rebuilt-Arrives spare cp n len old el en er et =
      let used : length cp - length (bytes ++ spare) ≡ n =
        omega (arith, length-append bytes spare) in
      let enough : ltb len n ≡ false = ground arith in
      let left : len - n ≡ length bytes = omega arith in
      let len_back = with_length_back old.ip.ip_len pk in
      let tail : take (length bytes) (bytes ++ spare) ≡ bytes =
        take-append_left (length bytes) bytes spare (omega arith)
        ∙ take_all (length bytes) bytes (omega arith) in
      let kept : record d {
        rstate =
            set d.rstate d.last_recv
              (some (with_length (length bytes) (saved_with p old.ip.ip_len)));
      }
          ≡ at_receiver d sel.chosen.cs_id p =
        λ i. record {
          rstate = set d.rstate (er i) (some (len_back i));
          last_recv = er i;
          toss = et i;
        } in
      rw (used, enough, left)
        (
          ap₂ packet (ap with_checksum len_back ∙ with_checksum_back pk) tail,
          subst (λ x. Synced (saved p sel) x) (sym kept) (saved-Synced ch pk.tcp ack),
        )

  take_changes-Arrives :
      (spare bs : List ℕ) (n extra len : ℕ) {changes : ℕ} (old : Header)
      → get_elem? d.rstate sel.chosen.cs_id ≡ some (some (without_sum old))
      → Rebuilds p old changes bs
      → n ≡ changes + extra * 64
      → len ≡ 2 + length bs + length bytes
      → d.last_recv ≡ sel.chosen.cs_id
      → d.toss ≡ false
      → Arrives p bytes (saved p sel) (
          take_changes n len
            (high_byte p.th.th_sum ∷ low_byte p.th.th_sum ∷ ((bs ++ bytes) ++ spare))
            d)
  unfolding take_changes rebuild_from
  take_changes-Arrives spare bs n extra len old eg rb en el er et =
      let found : get_elem? d.rstate d.last_recv ≡ some (some (without_sum old)) = rw er eg in
      rw (found, append_assoc bs bytes spare, rb.rebuilt n extra (bytes ++ spare) en)
        (finish_rebuilt-Arrives spare
          (high_byte p.th.th_sum ∷ low_byte p.th.th_sum ∷ (bs ++ (bytes ++ spare))) (2 + length bs)
          len old (omega (arith, length-append bs (bytes ++ spare), length-append bytes spare)) el
          er et)

-- A compressed packet, with the number of its conversation or without.
pub explicit-Arrives :
    {p : Header} {bytes : List ℕ} {sel : Selected} (d : Decompressor) (pk : IsPacket p bytes)
    (ack : IsAck p) (ch : Choice p sel d.rstate) (spare bs : List ℕ) (changes : ℕ) (old : Header)
    → get_elem? d.rstate sel.chosen.cs_id ≡ some (some (without_sum old))
    → Rebuilds p old changes bs
    → Arrives p bytes (saved p sel) (
        deliver
          (compressed
            ((changes + 64) ∷ sel.chosen.cs_id ∷ high_byte p.th.th_sum ∷ low_byte p.th.th_sum ∷ bs))
          p
          bytes
          spare
          d)
unfolding deliver take_compressed take_explicit
explicit-Arrives {p} {bytes} {sel} d pk ack ch spare bs changes old eg rb =
    let n = (changes + 64) % 128 + 128 in
    let bit : (n / 64 % 2 == 1) ≡ true = ground (arith, rb.in_byte) in
    let small : leb max_states sel.chosen.cs_id ≡ false = ground (arith, ch.chosen_small) in
    let long : ltb (suc (suc (suc (suc (length (bs ++ bytes)))))) 3 ≡ false = ground arith in
    rw (long, bit, small)
      (take_changes-Arrives (record d { last_recv = sel.chosen.cs_id; toss = false }) pk ack ch
        spare bs n 3 _ old eg rb (omega (arith, rb.in_byte))
        (rw (length-append bs bytes) (omega arith)) refl refl)

pub implicit-Arrives :
    {p : Header} {bytes : List ℕ} {sel : Selected} (d : Decompressor) (pk : IsPacket p bytes)
    (ack : IsAck p) (ch : Choice p sel d.rstate) (spare bs : List ℕ) (changes : ℕ) (old : Header)
    → get_elem? d.rstate sel.chosen.cs_id ≡ some (some (without_sum old))
    → Rebuilds p old changes bs
    → d.last_recv ≡ sel.chosen.cs_id
    → d.toss ≡ false
    → Arrives p bytes (saved p sel) (
        deliver
          (compressed (changes ∷ high_byte p.th.th_sum ∷ low_byte p.th.th_sum ∷ bs))
          p
          bytes
          spare
          d)
unfolding deliver take_compressed
implicit-Arrives {p} {bytes} {sel} d pk ack ch spare bs changes old eg rb er et =
    let n = changes % 128 + 128 in
    let bit : (n / 64 % 2 == 1) ≡ false = ground (arith, rb.in_byte) in
    let long : ltb (suc (suc (suc (length (bs ++ bytes))))) 3 ≡ false = ground arith in
    let len = suc (suc (suc (length (bs ++ bytes)))) - 1 in
    let cp = high_byte p.th.th_sum ∷ low_byte p.th.th_sum ∷ ((bs ++ bytes) ++ spare) in
    rw (long, bit)
      (subst
        (λ b. Arrives p bytes (saved p sel) (if b then (nothing, d) else take_changes n len cp d))
        (sym et)
        (take_changes-Arrives d pk ack ch spare bs n 2 len old eg rb (omega (arith, rb.in_byte))
          (rw (length-append bs bytes) (omega arith)) er et))
