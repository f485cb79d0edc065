-- ===== src/Slip/Deltas.antt =====
-- The fields that `sl_compress_tcp` of generic/net/slcompress.c sends as changes, as
-- `sl_uncompress_tcp` reads them.
use anp.Prelude.{
  ℕ, ◌+◌, ◌-◌, ◌%◌, ◌^◌, ◌<◌, ◌≡◌, refl, Bool, true, false, Option, some, List, ◌++◌, ltb, ◌==◌,
  if◌then◌else◌, Bool-cases, inl, inr, arith,
}
use anp.Prelude.Word.{add32, sub32}
use anp.Slip.Header.{Header}
use anp.Slip.Encoding.{decodel, decodes, decodeu, read_number-encode, read_number-encodez}
use anp.Slip.Changes.{urgent_part, window_part, seq_part}

unfoldable pub bit_if : Bool → ℕ → ℕ
bit_if b k = if b then k else 0

-- A part that carries bit `k`, and its bytes.
pub record PartRead (k : ℕ) (decode : Bool → List ℕ → Option (ℕ × List ℕ)) (new : ℕ) (bit : ℕ)
    (bytes : List ℕ) : Type 0 where
  pub present : Bool
  pub bit_lem : bit ≡ bit_if present k
  pub reads : (r : List ℕ) → decode present (bytes ++ r) ≡ some (new, r)

pub wrap_back : (a b : ℕ) → a < 2 ^ 32 → b < 2 ^ 32 → add32 a (sub32 b a) ≡ b
wrap_back a b ha hb = omega arith

pub wrap_back_zero : (a b : ℕ) → a < 2 ^ 32 → b < 2 ^ 32 → sub32 b a ≡ 0 → a ≡ b
wrap_back_zero a b ha hb e = omega arith

pub some_pair :
    {a b : ℕ} {x y : List ℕ}
    → ◌≡◌ {A = Option (ℕ × List ℕ)} (some (a, x)) (some (b, y))
    → (b ≡ a) × (y ≡ x)
some_pair e = (cc, cc)

pub urgent_read :
    (p old : Header) {u : ℕ} {us : List ℕ}
    → p.th.th_urp < 65536
    → urgent_part p old ≡ some (u, us)
    → (u ≡ bit_if p.th.th_urg 1)
      × ((r : List ℕ) → decodeu p.th.th_urg old.th.th_urp (us ++ r) ≡ some (p.th.th_urp, r))
unfolding urgent_part bit_if decodeu
urgent_read p old h e = elim (Bool-cases p.th.th_urg) [
  | inl b ↦
      let (eu, es) = some_pair (rw b at e) in
      (rw (b, eu), λ r. rw (b, es, read_number-encodez p.th.th_urp r) (ground arith))
  | inr b ↦ elim (Bool-cases (p.th.th_urp == old.th.th_urp)) [
    | inl q ↦
        let (eu, es) = some_pair (rw (b, q) at e) in (rw (b, eu), λ r. rw (b, es) (ground arith))
    | inr q ↦ absurd (ground arith)
  ]
]

pub window_read :
    (d a b : ℕ) {w : ℕ} {ws : List ℕ}
    → a < 65536
    → b < 65536
    → d ≡ (b + 65536 - a) % 65536
    → window_part d ≡ some (w, ws)
    → PartRead 2 (λ t. decodes t a) b w ws
unfolding window_part bit_if decodes
window_read d a b ha hb hd e = elim (Bool-cases (d == 0)) [
  | inl z ↦
      let (ew, es) = some_pair (rw z at e) in
      record { present = false; bit_lem = ew; reads = λ r. rw es (ground arith) }
  | inr z ↦
      let (ew, es) = some_pair (rw z at e) in
      record {
        present = true;
        bit_lem = ew;
        reads = λ r. rw (es, read_number-encode d r (ground arith) (omega arith)) (ground arith);
      }
]

pub seq_read :
    (k d a b : ℕ) {w : ℕ} {ws : List ℕ}
    → a < 2 ^ 32
    → b < 2 ^ 32
    → d ≡ sub32 b a
    → seq_part k d ≡ some (w, ws)
    → PartRead k (λ t. decodel t a) b w ws
unfolding seq_part bit_if decodel
seq_read k d a b ha hb hd e = elim (Bool-cases (d == 0)) [
  | inl z ↦
      let (ew, es) = some_pair (rw z at e) in
      let eq : a ≡ b = wrap_back_zero a b ha hb (ground arith) in
      record { present = false; bit_lem = ew; reads = λ r. rw (es, eq) refl }
  | inr z ↦ elim (Bool-cases (ltb 65535 d)) [
    | inl l ↦ absurd (ground arith)
    | inr l ↦
        let (ew, es) = some_pair (rw (z, l) at e) in
        let eq : add32 a d ≡ b = rw hd (wrap_back a b ha hb) in
        record {
          present = true;
          bit_lem = ew;
          reads = λ r. rw (es, read_number-encode d r (ground arith) (ground arith), eq) refl;
        }
  ]
]
