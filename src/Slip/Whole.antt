-- ===== src/Slip/Whole.antt =====
-- The header that `sl_uncompress_tcp` of generic/net/slcompress.c rebuilds from the bytes of
-- `sl_compress_tcp`.
use anp.Prelude.{
  ℕ, ◌+◌, ◌*◌, ◌/◌, ◌%◌, ◌<◌, ◌≡◌, refl, sym, ap, ◌∙◌, Bool, true, false, some, List, [], ◌∷◌, ◌++◌,
  append_assoc, ◌==◌, if◌then◌else◌, Bool-cases, Option-cases, inl, inr, arith, ◌⊎◌,
}
use anp.Prelude.Word.{sub32}
use anp.Slip.Header.{Header, hlen}
use anp.Slip.Encoding.{read_short, high_byte, low_byte, decodes, read_number-encodez}
use anp.Slip.Changes.{tcp_parts, special_case, header_delta, id_part, push_part, unchanged}
use anp.Slip.Uncompress.{
  has_bit, read_changes, read_fields, read_id, rebuild, without_sum, with_sum, with_id, ◌>>=◌,
}
use anp.Slip.Saved.{IsTcp, IsAck, Ip_ext, Tcp_ext, Agrees, unchanged-Agrees, Agrees-hlen}
use anp.Slip.Deltas.{some_pair}
use anp.Slip.Fields.{moved_on, tcp_parts_read}
use anp.Slip.Special.{Mirrors, ReadsAs, special_case_read}

-- The bits above the fields, and the type of the packet, are not read as fields.
read_changes-mod :
    (n c : ℕ) (h : Header) (cp : List ℕ) → n % 16 ≡ c → read_changes n h cp ≡ read_changes c h cp
unfolding read_changes read_fields
read_changes-mod n c h cp e =
    let m : c % 16 ≡ c = omega arith in
    let e1 : n / 1 % 2 ≡ c / 1 % 2 = omega arith in
    let e2 : n / 2 % 2 ≡ c / 2 % 2 = omega arith in
    let e4 : n / 4 % 2 ≡ c / 4 % 2 = omega arith in
    let e8 : n / 8 % 2 ≡ c / 8 % 2 = omega arith in rw (e, m, e1, e2, e4, e8) refl

id_part_read :
    (p old h : Header) (n : ℕ) (r : List ℕ)
    → p.ip.ip_id < 65536
    → old.ip.ip_id < 65536
    → h.ip.ip_id ≡ old.ip.ip_id
    → n / 32 % 2 ≡ (id_part p old).0 / 32
    → read_id n (h, (id_part p old).1 ++ r) ≡ with_id h (p.ip.ip_id, r)
unfolding id_part read_id decodes
id_part_read p old h n r hp ho eh e = elim (Bool-cases (sub32 p.ip.ip_id old.ip.ip_id == 1)) [
  | inl d ↦
      let none_set : n / 32 % 2 ≡ 0 = rw d at e in
      let next : (old.ip.ip_id + 1) % 65536 ≡ p.ip.ip_id = ground arith in
      rw (d, none_set) (ap (λ k. with_id h (k, r)) (ap (λ k. (k + 1) % 65536) eh ∙ next))
  | inr d ↦
      let set : n / 32 % 2 ≡ 1 = rw d at e in
      let next : (old.ip.ip_id + sub32 p.ip.ip_id old.ip.ip_id % 65536) % 65536 ≡ p.ip.ip_id =
        omega arith in
      rw (d, set, read_number-encodez (sub32 p.ip.ip_id old.ip.ip_id) r)
        (ap (λ k. with_id h (k, r))
          (ap (λ k. (k + sub32 p.ip.ip_id old.ip.ip_id % 65536) % 65536) eh ∙ next))
]

-- Both ends have the same conversation in mind.
pub record Follows (p old : Header) : Type 0 where
  pub new_tcp : IsTcp p
  pub old_tcp : IsTcp old
  pub new_ack : IsAck p
  pub old_ack : IsAck old
  pub src_eq : p.ip.ip_src ≡ old.ip.ip_src
  pub dst_eq : p.ip.ip_dst ≡ old.ip.ip_dst
  pub ports_eq : p.th.ports ≡ old.th.ports
  pub faded : p.th.th_urg ≡ false → old.th.th_urg ≡ false

-- The saved header of a packet, with the length of another.
abbrev pub saved_with : Header → ℕ → Header
saved_with p len = record p { ip = record p.ip { ip_sum = 0; ip_len = len } }

abbrev pub summed : Header → Header → Header
summed old p = record (without_sum old) {
  th = record old.th { th_sum = p.th.th_sum; th_push = p.th.th_push };
}

rebuilt_path :
    (p old : Header)
    → Follows p old
    → Agrees p old
    → record (moved_on (summed old p) p) { ip = record (without_sum old).ip { ip_id = p.ip.ip_id } }
      ≡ saved_with p old.ip.ip_len
rebuilt_path p old f a = λ i. record {
  ip =
      Ip_ext {a = record (without_sum old).ip { ip_id = p.ip.ip_id }}
        {b = (saved_with p old.ip.ip_len).ip} (f.old_tcp.version ∙ sym f.new_tcp.version)
        (sym a.tos) refl refl (sym a.off) (sym a.ttl) (f.old_tcp.protocol ∙ sym f.new_tcp.protocol)
        refl (sym f.src_eq) (sym f.dst_eq) (sym a.ip_options) i;
  th =
      Tcp_ext {a = (moved_on (summed old p) p).th} {b = p.th} (sym f.ports_eq) refl refl
        (f.old_tcp.no_reserved ∙ sym f.new_tcp.no_reserved)
        (f.old_ack.no_fin ∙ sym f.new_ack.no_fin) (f.old_ack.no_syn ∙ sym f.new_ack.no_syn)
        (f.old_ack.no_rst ∙ sym f.new_ack.no_rst) refl (f.old_ack.acked ∙ sym f.new_ack.acked) refl
        refl refl refl (sym a.th_options) i;
}

id_bit : (p old : Header) → ((id_part p old).0 ≡ 0) ⊎ ((id_part p old).0 ≡ 32)
unfolding id_part
id_bit p old = elim (Bool-cases (sub32 p.ip.ip_id old.ip.ip_id == 1)) [
  | inl d ↦ rw d (inl refl)
  | inr d ↦ rw d (inr refl)
]

-- The numbers of `changes`: fields, PUSH, the IP identification, and what is above.
bits_read :
    (n c i extra : ℕ) (b : Bool)
    → c < 16
    → (i ≡ 0) ⊎ (i ≡ 32)
    → n ≡ c + i + (if b then 16 else 0) + extra * 64
    → (n % 16 ≡ c) × (n / 32 % 2 ≡ i / 32) × (has_bit n 16 ≡ b)
bits_read n c i extra true h (inl z) e = (omega arith, omega arith, ground arith)
bits_read n c i extra true h (inr z) e = (omega arith, omega arith, ground arith)
bits_read n c i extra false h (inl z) e = (omega arith, omega arith, ground arith)
bits_read n c i extra false h (inr z) e = (omega arith, omega arith, ground arith)

join_read :
    (p old : Header) (n extra : ℕ) {c : ℕ} (cs r : List ℕ)
    → Follows p old
    → Agrees p old
    → ReadsAs (summed old p) p c cs
    → n ≡ c + (id_part p old).0 + push_part p + extra * 64
    → rebuild n
        (without_sum old)
        (high_byte p.th.th_sum ∷ low_byte p.th.th_sum ∷ ((cs ++ (id_part p old).1) ++ r))
      ≡ some (saved_with p old.ip.ip_len, r)
unfolding rebuild read_short
join_read p old n extra {c} cs r f a (small, reads) e =
    let (e16, e32, push) = bits_read n c _ extra p.th.th_push small (id_bit p old) e in
    let sum : high_byte p.th.th_sum * 256 + low_byte p.th.th_sum ≡ p.th.th_sum =
      omega (arith, f.new_tcp.sum_fits) in
    let ids = (id_part p old).1 in
    let start : (with_sum n (without_sum old)
          (high_byte p.th.th_sum * 256 + low_byte p.th.th_sum, [])).0
        ≡ summed old p =
      λ i. record (without_sum old) { th = record old.th { th_sum = sum i; th_push = push i } } in
    let fields : read_changes n (summed old p) ((cs ++ ids) ++ r)
        ≡ some (moved_on (summed old p) p, ids ++ r) =
      rw (append_assoc cs ids r) (read_changes-mod n c (summed old p) _ e16 ∙ reads (ids ++ r)) in
    ap (λ h. read_changes n h ((cs ++ ids) ++ r) >>= read_id n) start
    ∙ ap (λ o. o >>= read_id n) fields
    ∙ id_part_read p old (moved_on (summed old p) p) n r f.new_tcp.id_fits f.old_tcp.id_fits refl
        e32
    ∙ ap (λ h. some (h, r)) (rebuilt_path p old f a)

-- What the receiver makes of the changes and bytes of a packet, with any bits above in the first
-- byte: NEW_C, and the type of the packet.
pub record Rebuilds (p old : Header) (changes : ℕ) (bytes : List ℕ) : Type 0 where
  pub in_byte : changes < 64
  pub rebuilt :
      (n extra : ℕ) (r : List ℕ)
      → n ≡ changes + extra * 64
      → rebuild n (without_sum old) (high_byte p.th.th_sum ∷ low_byte p.th.th_sum ∷ (bytes ++ r))
        ≡ some (saved_with p old.ip.ip_len, r)

join_small : (p old : Header) {c : ℕ} → c < 16 → c + (id_part p old).0 + push_part p < 64
join_small p old h = elim (id_bit p old) [ inl e ↦ ground arith | inr e ↦ ground arith ]

pub header_delta-Rebuilds :
    (p old : Header) {changes : ℕ} {bytes : List ℕ}
    → Follows p old
    → header_delta p old ≡ some (changes, bytes)
    → Rebuilds p old changes bytes
unfolding header_delta hlen
header_delta-Rebuilds p old f e = elim (Bool-cases (unchanged p old)) [
  | inr x ↦ absurd (cc (rw x at e))
  | inl same ↦ elim (Option-cases (tcp_parts p old)) [
    | inl et ↦ absurd (cc (rw (same, et) at e))
    | inr ((k, parts), et) ↦ elim (Option-cases (special_case p old (k, parts))) [
      | inl es ↦ absurd (cc (rw (same, et, es) at e))
      | inr ((c, cs), es) ↦
          let a = unchanged-Agrees p old same in
          let m : Mirrors (summed old p) old p = record {
            same = record { urp_eq = refl; win_eq = refl; ack_eq = refl; seq_eq = refl };
            len_eq = refl;
            size_eq = Agrees-hlen a;
            faded = f.faded;
          } in
          let (ec, eb) = some_pair (rw (same, et, es) at e) in
          let read =
            special_case_read f.new_tcp f.old_tcp m (tcp_parts_read p old f.new_tcp f.old_tcp et)
              es in
          record {
            in_byte = rw ec (join_small p old read.0);
            rebuilt = λ n extra r en. rw eb (join_read p old n extra cs r f a read (rw ec at en));
          }
    ]
  ]
]
