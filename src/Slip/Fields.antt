-- ===== src/Slip/Fields.antt =====
-- The `switch` on the changed fields in `sl_compress_tcp` and in `sl_uncompress_tcp` of
-- generic/net/slcompress.c.
use anp.Prelude.{
  ℕ, ◌+◌, ◌≡◌, refl, Bool, true, false, some, List, [], ◌++◌, append_assoc, Option-cases, inl, inr,
  arith,
}
use anp.Slip.Header.{Header}
use anp.Slip.Encoding.{decodel, decodes, decodeu}
use anp.Slip.Changes.{
  urgent_part, window_part, seq_part, tcp_parts, delta_win, delta_ack, delta_seq,
}
use anp.Slip.Uncompress.{has_bit, read_fields}
use anp.Slip.Saved.{IsTcp}
use anp.Slip.Deltas.{bit_if, PartRead, some_pair, urgent_read, window_read, seq_read}

unfoldable pub nibble : Bool → Bool → Bool → Bool → ℕ
unfolding bit_if
nibble u w a s = bit_if u 1 + bit_if w 2 + bit_if a 4 + bit_if s 8

has_bit-nibble :
    (u w a s : Bool)
    → (has_bit (nibble u w a s) 1 ≡ u)
      × (has_bit (nibble u w a s) 2 ≡ w)
      × (has_bit (nibble u w a s) 4 ≡ a)
      × (has_bit (nibble u w a s) 8 ≡ s)
unfolding nibble
has_bit-nibble u w a s = ground arith

-- The header `h` with the changing fields of `p`.
abbrev pub moved_on : Header → Header → Header
moved_on h p = record h {
  th = record h.th {
    th_urg = p.th.th_urg;
    th_urp = p.th.th_urp;
    th_win = p.th.th_win;
    th_ack = p.th.th_ack;
    th_seq = p.th.th_seq;
  };
}

-- Headers with the same changing fields.
pub record SameFields (h old : Header) : Type 0 where
  pub urp_eq : h.th.th_urp ≡ old.th.th_urp
  pub win_eq : h.th.th_win ≡ old.th.th_win
  pub ack_eq : h.th.th_ack ≡ old.th.th_ack
  pub seq_eq : h.th.th_seq ≡ old.th.th_seq

-- The parts of a packet, and what is read from them.
pub record PartsRead (p old : Header) (n : ℕ) (bytes : List ℕ) : Type 0 where
  pub w : Bool
  pub a : Bool
  pub s : Bool
  pub bits : n ≡ nibble p.th.th_urg w a s
  pub urp_kept : p.th.th_urg ≡ false → old.th.th_urp ≡ p.th.th_urp
  pub win_kept : w ≡ false → old.th.th_win ≡ p.th.th_win
  pub ack_kept : a ≡ false → old.th.th_ack ≡ p.th.th_ack
  pub fields :
      (h : Header)
      → SameFields h old
      → (r : List ℕ) → read_fields n h (bytes ++ r) ≡ some (moved_on h p, r)

read_fields-parts :
    (p old h : Header) {u n w a : ℕ} (us : List ℕ) {ws acks seqs : List ℕ}
    → ((r : List ℕ) → decodeu p.th.th_urg old.th.th_urp (us ++ r) ≡ some (p.th.th_urp, r))
    → (pw : PartRead 2 (λ t. decodes t old.th.th_win) p.th.th_win w ws)
    → (pa : PartRead 4 (λ t. decodel t old.th.th_ack) p.th.th_ack a acks)
    → (ps : PartRead 8 (λ t. decodel t old.th.th_seq) p.th.th_seq u seqs)
    → n ≡ nibble p.th.th_urg pw.present pa.present ps.present
    → SameFields h old
    → (r : List ℕ) → read_fields n h ((us ++ (ws ++ (acks ++ seqs))) ++ r) ≡ some (moved_on h p, r)
unfolding read_fields
read_fields-parts p old h us {ws = ws} {acks = acks} {seqs = seqs} ru pw pa ps en same r =
    let (b1, b2, b4, b8) = has_bit-nibble p.th.th_urg pw.present pa.present ps.present in
    let ru' = ru (ws ++ (acks ++ (seqs ++ r))) in
    let rw' = pw.reads (acks ++ (seqs ++ r)) in
    let ra' = pa.reads (seqs ++ r) in
    rw
      (
        en,
        b1,
        b2,
        b4,
        b8,
        same.urp_eq,
        same.win_eq,
        same.ack_eq,
        same.seq_eq,
        append_assoc us (ws ++ (acks ++ seqs)) r,
        append_assoc ws (acks ++ seqs) r,
        append_assoc acks seqs r,
        ru',
        rw',
        ra',
        ps.reads r,
      )
      refl

-- A field that is not read keeps its value.
decodeu_kept :
    (x : ℕ) (b : Bool) (cp : List ℕ) {y : ℕ} {r : List ℕ}
    → decodeu b x cp ≡ some (y, r)
    → b ≡ false
    → x ≡ y
unfolding decodeu
decodeu_kept x false cp e h = cc
decodeu_kept x true cp e h = absurd cc

decodes_kept :
    (x : ℕ) (b : Bool) (cp : List ℕ) {y : ℕ} {r : List ℕ}
    → decodes b x cp ≡ some (y, r)
    → b ≡ false
    → x ≡ y
unfolding decodes
decodes_kept x false cp e h = cc
decodes_kept x true cp e h = absurd cc

decodel_kept :
    (x : ℕ) (b : Bool) (cp : List ℕ) {y : ℕ} {r : List ℕ}
    → decodel b x cp ≡ some (y, r)
    → b ≡ false
    → x ≡ y
unfolding decodel
decodel_kept x false cp e h = cc
decodel_kept x true cp e h = absurd cc

parts_of :
    (p old : Header) {n u w a s : ℕ} {bytes : List ℕ} (us : List ℕ) {ws acks seqs : List ℕ}
    → (n ≡ u + w + a + s) × (bytes ≡ us ++ (ws ++ (acks ++ seqs)))
    → (u ≡ bit_if p.th.th_urg 1)
      × ((r : List ℕ) → decodeu p.th.th_urg old.th.th_urp (us ++ r) ≡ some (p.th.th_urp, r))
    → PartRead 2 (λ t. decodes t old.th.th_win) p.th.th_win w ws
    → PartRead 4 (λ t. decodel t old.th.th_ack) p.th.th_ack a acks
    → PartRead 8 (λ t. decodel t old.th.th_seq) p.th.th_seq s seqs
    → PartsRead p old n bytes
unfolding nibble
parts_of p old {n} us {ws = ws} {acks = acks} {seqs = seqs} (total_eq, eb) (bu, ru) pw pa ps =
    let total : n ≡ nibble p.th.th_urg pw.present pa.present ps.present =
      omega (arith, pw.bit_lem, pa.bit_lem, ps.bit_lem) in
    record {
      w = pw.present;
      a = pa.present;
      s = ps.present;
      bits = total;
      urp_kept = decodeu_kept _ _ _ (ru []);
      win_kept = decodes_kept _ _ _ (pw.reads []);
      ack_kept = decodel_kept _ _ _ (pa.reads []);
      fields = λ h same r. rw eb (read_fields-parts p old h us ru pw pa ps total same r);
    }

pub tcp_parts_read :
    (p old : Header) {n : ℕ} {bytes : List ℕ}
    → IsTcp p
    → IsTcp old
    → tcp_parts p old ≡ some (n, bytes)
    → PartsRead p old n bytes
unfolding tcp_parts
tcp_parts_read p old hp ho e = elim (Option-cases (urgent_part p old)) [
  | inl eu ↦ absurd (cc (rw eu at e))
  | inr ((u, us), eu) ↦ elim (Option-cases (window_part (delta_win p old))) [
    | inl ew ↦ absurd (cc (rw (eu, ew) at e))
    | inr ((w, ws), ew) ↦ elim (Option-cases (seq_part 4 (delta_ack p old))) [
      | inl ea ↦ absurd (cc (rw (eu, ew, ea) at e))
      | inr ((a, acks), ea) ↦ elim (Option-cases (seq_part 8 (delta_seq p old))) [
        | inl es ↦ absurd (cc (rw (eu, ew, ea, es) at e))
        | inr ((s, seqs), es) ↦
            parts_of p old us (some_pair (rw (eu, ew, ea, es) at e))
              (urgent_read p old hp.urp_fits eu) (window_read _ _ _ ho.win_fits hp.win_fits refl ew)
              (seq_read 4 _ _ _ ho.ack_fits hp.ack_fits refl ea)
              (seq_read 8 _ _ _ ho.seq_fits hp.seq_fits refl es)
      ]
    ]
  ]
]
