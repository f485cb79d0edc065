-- ===== src/Serial/Input.antt =====
-- The frames that `slinput` of generic/net/if_sl.c takes from the line, with IFF_DEBUG not set.
use anp.Prelude.{
  ℕ, Bool, true, false, Option, none, some, List, [], ◌∷◌, ◌++◌, length, ltb, ◌==◌, if◌then◌else◌,
}
use anp.Serial.Output.{frame_end, frame_escape, trans_frame_end, trans_frame_escape}

-- `chars` are the characters from `sc_buf` to `sc_mp`. `slmax` of them fit before `sc_ep`.
pub record Softc : Type 0 where
  pub chars : List ℕ
  pub sc_escape : Bool
  pub sc_error : Bool

-- `clean` is the state after `newpack`, with SC_ERROR not set.
abbrev pub clean : Softc
clean = record { chars = []; sc_escape = false; sc_error = false }

abbrev pub newpack : Softc → Softc
newpack sc = record sc { chars = []; sc_escape = false }

unfoldable pub store : ℕ → ℕ → Softc → Softc
store slmax c sc =
    if ltb (length sc.chars) slmax
    then record sc { chars = sc.chars ++ (c ∷ []); sc_escape = false }
    else newpack (record sc { sc_error = true })

-- The frame that goes on to the decompression, if there is one. The buffer is empty afterwards,
-- whatever becomes of it.
unfoldable pub end_frame : Softc → Softc × Option (List ℕ)
end_frame sc =
    if sc.sc_error
    then (newpack (record sc { sc_error = false }), none)
    else if ltb (length sc.chars) 3
    then (newpack sc, none)
    else (newpack sc, some sc.chars)

unfoldable pub slinput : ℕ → ℕ → Softc → Softc × Option (List ℕ)
unfolding store end_frame
slinput slmax c sc =
    if c == trans_frame_escape
    then (store slmax (if sc.sc_escape then frame_escape else c) sc, none)
    else if c == trans_frame_end
    then (store slmax (if sc.sc_escape then frame_end else c) sc, none)
    else if c == frame_escape
    then (record sc { sc_escape = true }, none)
    else if c == frame_end
    then end_frame sc
    else (store slmax c sc, none)

-- A character with an error, or without a carrier.
unfoldable pub line_error : Softc → Softc
line_error sc = record sc { sc_error = true }

abbrev pub with_frame : Option (List ℕ) → List (List ℕ) → List (List ℕ)
with_frame none fs = fs
with_frame (some f) fs = f ∷ fs

-- A sequence of characters, and the frames of it.
unfoldable pub feed : ℕ → List ℕ → Softc → Softc × List (List ℕ)
unfolding slinput
feed slmax [] sc = (sc, [])
feed slmax (c ∷ cs) sc =
    let (sc', f) = slinput slmax c sc in
    let (sc'', fs) = feed slmax cs sc' in (sc'', with_frame f fs)
