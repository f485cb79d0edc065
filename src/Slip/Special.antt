-- ===== src/Slip/Special.antt =====
-- The two special cases of the `switch` on the changed fields in generic/net/slcompress.c.
use anp.Prelude.{
  ℕ, ◌%◌, ◌<◌, ◌≡◌, ◌≢◌, sym, ap, ap₂, ◌∙◌, Bool, true, false, not, ◌&&◌, ◌||◌, some, List, [],
  ◌++◌, ◌==◌, Bool-cases, inl, inr, arith, ◌⊎◌, ==_iff,
}
use mathlib.Core.Path.{subst}
use anp.Prelude.Word.{sub32}
use anp.Slip.Header.{Header, hlen}
use anp.Slip.Changes.{special_case, delta_ack, delta_seq, last_data}
use anp.Slip.Uncompress.{read_changes, echoed, transferred, saved_data}
use anp.Slip.Saved.{IsTcp}
use anp.Slip.Deltas.{bit_if, some_pair, wrap_back}
use anp.Slip.Fields.{nibble, PartsRead, SameFields, moved_on}

-- The saved header at the receiver, as far as the changes are read with it.
pub record Mirrors (h old p : Header) : Type 0 where
  pub same : SameFields h old
  pub len_eq : h.ip.ip_len ≡ old.ip.ip_len
  pub size_eq : hlen h ≡ hlen p
  pub faded : p.th.th_urg ≡ false → h.th.th_urg ≡ false

moved_on_path :
    (h p : Header) {ack seq : ℕ}
    → h.th.th_urg ≡ p.th.th_urg
    → h.th.th_urp ≡ p.th.th_urp
    → h.th.th_win ≡ p.th.th_win
    → ack ≡ p.th.th_ack
    → seq ≡ p.th.th_seq
    → record h { th = record h.th { th_ack = ack; th_seq = seq } } ≡ moved_on h p
moved_on_path h p eu ep ew ea es = λ i. record h {
  th = record h.th { th_urg = eu i; th_urp = ep i; th_win = ew i; th_ack = ea i; th_seq = es i };
}

nibble_small : (u w a s : Bool) → nibble u w a s < 16
unfolding nibble bit_if
nibble_small u w a s = ground arith

nibble_echo : (u w a s : Bool) → nibble u w a s ≡ 12 → (u ≡ false) × (w ≡ false)
unfolding nibble bit_if
nibble_echo u w a s e = ground arith

nibble_data : (u w a s : Bool) → nibble u w a s ≡ 8 → (u ≡ false) × (w ≡ false) × (a ≡ false)
unfolding nibble bit_if
nibble_data u w a s e = ground arith

-- What the receiver reads for the bits and bytes of a packet, in front of any others.
abbrev pub ReadsAs : Header → Header → ℕ → List ℕ → Type 0
ReadsAs h p c bytes =
    (c < 16) × ((r : List ℕ) → read_changes c h (bytes ++ r) ≡ some (moved_on h p, r))

plain_read :
    {p old h : Header} {n : ℕ} {bytes : List ℕ}
    → PartsRead p old n bytes
    → SameFields h old
    → n ≢ 11
    → n ≢ 15
    → ReadsAs h p n bytes
unfolding read_changes
plain_read {h = h} {n} parts same i d =
    let small : n < 16 = rw parts.bits (nibble_small _ parts.w parts.a parts.s) in
    let e11 : (n % 16 == 11) ≡ false = ground arith in
    let e15 : (n % 16 == 15) ≡ false = ground arith in
    (small, λ r. rw (e11, e15) (parts.fields h same r))

data_eq :
    {p old h : Header}
    → Mirrors h old p
    → delta_seq p old ≡ last_data p old
    → saved_data h ≡ delta_seq p old
data_eq m e = ap₂ sub32 m.len_eq m.size_eq ∙ sym e

module _ {p old h : Header} {bytes : List ℕ} (hp : IsTcp p) (ho : IsTcp old)
    (m : Mirrors h old p) where
  echo_read :
      PartsRead p old 12 bytes
      → delta_seq p old ≡ delta_ack p old
      → delta_seq p old ≡ last_data p old
      → ReadsAs h p 11 []
  unfolding read_changes echoed
  echo_read parts same_delta by_data =
      let (u, w) = nibble_echo _ parts.w parts.a parts.s (sym parts.bits) in
      let d = data_eq m by_data in
      (
        omega arith,
        λ r.
            ap (λ g. some (g, r))
              (moved_on_path h p (m.faded u ∙ sym u) (m.same.urp_eq ∙ parts.urp_kept u)
                (m.same.win_eq ∙ parts.win_kept w)
                (rw (d, same_delta, m.same.ack_eq) (wrap_back _ _ ho.ack_fits hp.ack_fits))
                (rw (d, m.same.seq_eq) (wrap_back _ _ ho.seq_fits hp.seq_fits))),
      )

  transfer_read : PartsRead p old 8 bytes → delta_seq p old ≡ last_data p old → ReadsAs h p 15 []
  unfolding read_changes transferred
  transfer_read parts by_data =
      let (u, w, a) = nibble_data _ parts.w parts.a parts.s (sym parts.bits) in
      let d = data_eq m by_data in
      (
        omega arith,
        λ r.
            ap (λ g. some (g, r))
              (moved_on_path h p (m.faded u ∙ sym u) (m.same.urp_eq ∙ parts.urp_kept u)
                (m.same.win_eq ∙ parts.win_kept w) (m.same.ack_eq ∙ parts.ack_kept a)
                (rw (d, m.same.seq_eq) (wrap_back _ _ ho.seq_fits hp.seq_fits))),
      )

both_eq : {a b c d : ℕ} → ((a == b) && (c == d)) ≡ true → (a ≡ b) × (c ≡ d)
both_eq h = (ground arith, ground arith)

-- The ways out of the `switch` that do not lead to an uncompressed packet.
special_case-cases :
    (p old : Header) (n : ℕ) (bytes : List ℕ) {c : ℕ} {cs : List ℕ}
    → special_case p old (n, bytes) ≡ some (c, cs)
    → ((c ≡ n) × (cs ≡ bytes) × (n ≢ 11) × (n ≢ 15))
      ⊎ (((n ≡ 12)
            × (c ≡ 11)
            × (cs ≡ [])
            × (delta_seq p old ≡ delta_ack p old)
            × (delta_seq p old ≡ last_data p old))
          ⊎ ((n ≡ 8) × (c ≡ 15) × (cs ≡ []) × (delta_seq p old ≡ last_data p old)))
unfolding special_case
special_case-cases p old n bytes e = elim (Bool-cases (n == 0)) [
  | inl z ↦ elim (Bool-cases (not (p.ip.ip_len == old.ip.ip_len) && (old.ip.ip_len == hlen p))) [
    | inl y ↦ let (ec, es) = some_pair (rw (z, y) at e) in inl (ec, es, ground arith, ground arith)
    | inr y ↦ absurd (cc (rw (z, y) at e))
  ]
  | inr z ↦ elim (Bool-cases ((n == 11) || (n == 15))) [
    | inl x ↦ absurd (cc (rw (z, x) at e))
    | inr x ↦ elim (Bool-cases (n == 12)) [
      | inl t ↦
          elim (Bool-cases
            ((delta_seq p old == delta_ack p old) && (delta_seq p old == last_data p old))) [
              | inl y ↦
                  let (ec, es) = some_pair (rw (z, x, t, y) at e) in
                  inr (inl ((==_iff _ _).0 t, ec, es, (both_eq y).0, (both_eq y).1))
              | inr y ↦
                  let (ec, es) = some_pair (rw (z, x, t, y) at e) in
                  inl (ec, es, ground arith, ground arith)
            ]
      | inr t ↦ elim (Bool-cases (n == 8)) [
        | inl g ↦ elim (Bool-cases (delta_seq p old == last_data p old)) [
          | inl y ↦
              let (ec, es) = some_pair (rw (z, x, t, g, y) at e) in
              inr (inr ((==_iff _ _).0 g, ec, es, (==_iff _ _).0 y))
          | inr y ↦
              let (ec, es) = some_pair (rw (z, x, t, g, y) at e) in
              inl (ec, es, ground arith, ground arith)
        ]
        | inr g ↦
            let (ec, es) = some_pair (rw (z, x, t, g) at e) in
            inl (ec, es, ground arith, ground arith)
      ]
    ]
  ]
]

-- Whatever the sender makes of the changed fields, the receiver reads the fields of the packet.
pub special_case_read :
    {p old h : Header} {n c : ℕ} {bytes cs : List ℕ}
    → IsTcp p
    → IsTcp old
    → Mirrors h old p
    → PartsRead p old n bytes
    → special_case p old (n, bytes) ≡ some (c, cs)
    → ReadsAs h p c cs
special_case_read {p} {old} {h} {n} {bytes = bytes} hp ho m parts e =
    elim (special_case-cases p old n bytes e) [
      | inl (ec, es, d, i) ↦ rw (ec, es) (plain_read parts m.same d i)
      | inr (inl (en, ec, es, sd, ld)) ↦
          rw (ec, es) (echo_read hp ho m (subst (λ k. PartsRead p old k bytes) en parts) sd ld)
      | inr (inr (en, ec, es, ld)) ↦
          rw (ec, es) (transfer_read hp ho m (subst (λ k. PartsRead p old k bytes) en parts) ld)
    ]
