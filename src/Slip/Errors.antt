-- ===== src/Slip/Errors.antt =====
-- Frames that `sl_uncompress_tcp` of generic/net/slcompress.c refuses.
use anp.Prelude.{
  ℕ, ◌-◌, ◌≡◌, inl, inr, refl, sym, true, false, Option, none, some, List, [], ◌∷◌, map, length,
  Bool-cases, ltb, leb, if◌then◌else◌,
}
use mathlib.Core.Path.{subst}
use anp.Slip.Header.{Header, max_states}
use anp.Slip.Uncompress.{
  Decompressor, Received, packet, nothing, undefined, bad, has_bit, take_compressed, take_explicit,
  take_changes, rebuild_from, rebuild, finish_rebuilt, Rebuilt,
}
use anp.Slip.Lru.{All}

-- Frames of TYPE_COMPRESSED_TCP, one after another: the length and the memory of each.
unfoldable pub take_all_compressed : List (ℕ × List ℕ) → Decompressor → List Received × Decompressor
take_all_compressed [] d = ([], d)
take_all_compressed ((len, cp) ∷ fs) d =
    let (r, d') = take_compressed len cp d in
    let (rs, d'') = take_all_compressed fs d' in (r ∷ rs, d'')

-- A frame whose first byte has no NEW_C.
abbrev pub HasNoNumber : ℕ × List ℕ → Type 0
HasNoNumber (len, []) = ⊥
HasNoNumber (len, c ∷ cp) = has_bit c 64 ≡ false

-- What comes of a frame: a packet with the flag clear, or nothing with the flag set.
abbrev Flagged : Received × Decompressor → Type 0
Flagged (packet p bytes, d) = d.toss ≡ false
Flagged (nothing, d) = d.toss ≡ true
Flagged (undefined, d) = Unit

finish_rebuilt-Flagged :
    (len : ℕ) (cp : List ℕ) (d : Decompressor) (r : Rebuilt)
    → d.toss ≡ false
    → Flagged (finish_rebuilt len cp d r)
unfolding finish_rebuilt bad
finish_rebuilt-Flagged len cp d none e = tt
finish_rebuilt-Flagged len cp d (some (h, cp')) e =
    elim (Bool-cases (ltb len (length cp - length cp'))) [ inl l ↦ rw l refl | inr l ↦ rw l e ]

rebuild_from-Flagged :
    (n len : ℕ) (cp : List ℕ) (d : Decompressor) (o : Option (Option Header))
    → d.toss ≡ false
    → Flagged (rebuild_from n len cp d o)
unfolding rebuild_from
rebuild_from-Flagged n len cp d none e = tt
rebuild_from-Flagged n len cp d (some none) e = tt
rebuild_from-Flagged n len cp d (some (some h)) e =
    finish_rebuilt-Flagged len cp d (rebuild n h cp) e

take_explicit-Flagged :
    (n len : ℕ) (cp : List ℕ) (d : Decompressor) → Flagged (take_explicit n len cp d)
unfolding take_explicit bad take_changes
take_explicit-Flagged n len [] d = tt
take_explicit-Flagged n len (id ∷ cp) d = elim (Bool-cases (leb max_states id)) [
  | inl e ↦ rw e refl
  | inr e ↦ rw e (rebuild_from-Flagged n _ cp _ _ refl)
]

take_compressed-Flagged :
    (len : ℕ) (cp : List ℕ) (d : Decompressor) → Flagged (take_compressed len cp d)
unfolding take_compressed take_changes
take_compressed-Flagged len [] d = tt
take_compressed-Flagged len (c ∷ cp) d = elim (Bool-cases (has_bit c 64)) [
  | inl e ↦ rw e (take_explicit-Flagged c len cp d)
  | inr e ↦ rw e (elim (Bool-cases d.toss) [
    | inl t ↦
        subst (λ b. Flagged (if b then (nothing, d) else take_changes c (len - 1) cp d)) (sym t) t
    | inr t ↦
        subst (λ b. Flagged (if b then (nothing, d) else take_changes c (len - 1) cp d)) (sym t)
          (rebuild_from-Flagged c (len - 1) cp d _ t)
  ])
]

tossed_frame :
    (f : ℕ × List ℕ) (d : Decompressor)
    → HasNoNumber f
    → d.toss ≡ true
    → take_compressed f.0 f.1 d ≡ (nothing, d)
unfolding take_compressed
tossed_frame (len, []) d h t = absurd h
tossed_frame (len, c ∷ cp) d h t = rw h (
    subst (λ b. (if b then (nothing, d) else take_changes c (len - 1) cp d) ≡ (nothing, d)) (sym t)
      refl)

all_tossed_lem :
    (fs : List (ℕ × List ℕ)) (d : Decompressor)
    → All HasNoNumber fs
    → d.toss ≡ true
    → take_all_compressed fs d ≡ (map (λ _. nothing) fs, d)
unfolding take_all_compressed
all_tossed_lem [] d h t = refl
all_tossed_lem ((len, cp) ∷ fs) d (h, hs) t =
    rw (tossed_frame (len, cp) d h t, all_tossed_lem fs d hs t) refl

after_nothing : (r : Received × Decompressor) → Flagged r → r.0 ≡ nothing → r.1.toss ≡ true
after_nothing (packet p bytes, d) f e = absurd cc
after_nothing (nothing, d) f e = f
after_nothing (undefined, d) f e = absurd cc

-- Once a compressed frame gives no packet, none comes of the frames after it that carry no number
-- of a conversation, and they change nothing.
pub take_compressed-nothing :
    (len : ℕ) (cp : List ℕ) (d : Decompressor) (fs : List (ℕ × List ℕ))
    → (take_compressed len cp d).0 ≡ nothing
    → All HasNoNumber fs
    → take_all_compressed fs (take_compressed len cp d).1
      ≡ (map (λ _. nothing) fs, (take_compressed len cp d).1)
take_compressed-nothing len cp d fs e h =
    all_tossed_lem fs _ h (after_nothing _ (take_compressed-Flagged len cp d) e)
