-- ===== src/Serial/Frames.antt =====
-- Packets over a serial line: `slstart` and `slinput` of generic/net/if_sl.c with the queue between
-- them.
use anp.Prelude.{
  ℕ, ◌≤◌, ◌≡◌, inl, inr, refl, sym, ap, ◌∙◌, Bool, true, false, Option, some, List, [], ◌∷◌, ◌++◌,
  length, append_assoc, append-nil, ltb, ◌==◌, Bool-cases, if◌then◌else◌, arith,
}
use anp.Serial.Clist.{Clist, putc, no_chars}
use anp.Serial.Fifo.{chars_of, queued, IsClist, PutsChars, putc-PutsChars, write_once-Moves}
use anp.Serial.Output.{frame_end, put_chain, send_frame, Event, send, write, run_line}
use anp.Serial.Input.{Softc, clean, end_frame, slinput, feed, with_frame}
use anp.Serial.Escaped.{escaped, escaped-append, put_bytes-PutsChars, feed-escaped}

abbrev pub joined : List (List ℕ) → List ℕ
joined [] = []
joined (m ∷ ms) = m ++ joined ms

put_chain-PutsChars :
    (ms : List (List ℕ)) (c : Clist)
    → IsClist c
    → PutsChars (put_chain ms c) (queued c ++ escaped (joined ms))
unfolding put_chain escaped
put_chain-PutsChars [] c h = record {
  after = c;
  result = refl;
  after_IsClist = h;
  chars_after = sym (append-nil (queued c));
}
put_chain-PutsChars (m ∷ ms) c h =
    let p = put_bytes-PutsChars (length m) m c (omega arith) h in
    let q = put_chain-PutsChars ms p.after p.after_IsClist in
    record {
      after = q.after;
      result = rw p.result q.result;
      after_IsClist = q.after_IsClist;
      chars_after =
          q.chars_after
          ∙ ap (λ l. l ++ escaped (joined ms)) p.chars_after
          ∙ append_assoc (queued c) (escaped m) (escaped (joined ms))
          ∙ ap (λ l. queued c ++ l) (sym (escaped-append m (joined ms)));
    }

-- The first byte of a frame is its end, if the line was idle.
abbrev pub leader : Clist → List ℕ
leader c = if c.c_cc == 0 then frame_end ∷ [] else []

leader-PutsChars :
    (c : Clist)
    → IsClist c
    → PutsChars (if c.c_cc == 0 then putc frame_end c else some c) (queued c ++ leader c)
leader-PutsChars c h = elim (Bool-cases (c.c_cc == 0)) [
  | inl e ↦ rw e (putc-PutsChars frame_end c h)
  | inr e ↦ rw e (record {
    after = c;
    result = refl;
    after_IsClist = h;
    chars_after = sym (append-nil (queued c));
  })
]

abbrev pub frame_of : Clist → List (List ℕ) → List ℕ
frame_of c ms = leader c ++ (escaped (joined ms) ++ (frame_end ∷ []))

send_frame-PutsChars :
    (ms : List (List ℕ)) (c : Clist)
    → IsClist c
    → PutsChars (send_frame ms c) (queued c ++ frame_of c ms)
unfolding send_frame
send_frame-PutsChars ms c h =
    let p = leader-PutsChars c h in
    let q = put_chain-PutsChars ms p.after p.after_IsClist in
    let r = putc-PutsChars frame_end q.after q.after_IsClist in
    record {
      after = r.after;
      result = rw (p.result, q.result, r.result) refl;
      after_IsClist = r.after_IsClist;
      chars_after =
          r.chars_after
          ∙ ap (λ l. l ++ (frame_end ∷ [])) q.chars_after
          ∙ ap (λ l. (l ++ escaped (joined ms)) ++ (frame_end ∷ [])) p.chars_after
          ∙ append_assoc (queued c ++ leader c) (escaped (joined ms)) (frame_end ∷ [])
          ∙ append_assoc (queued c) (leader c) (escaped (joined ms) ++ (frame_end ∷ []));
    }

-- A packet that is neither too short nor too long for a frame.
abbrev pub Fits : ℕ → List ℕ → Type 0
Fits slmax p = (3 ≤ length p) × (length p ≤ slmax)

feed-leader :
    (slmax : ℕ) (c : Clist) (rest : List ℕ)
    → feed slmax (leader c ++ rest) clean ≡ feed slmax rest clean
unfolding feed slinput
feed-leader slmax c rest = elim (Bool-cases (c.c_cc == 0)) [ inl e ↦ rw e refl | inr e ↦ rw e refl ]

feed-end :
    (slmax : ℕ) (p rest : List ℕ)
    → 3 ≤ length p
    → feed slmax (frame_end ∷ rest) (record { chars = p; sc_escape = false; sc_error = false })
      ≡ ((feed slmax rest clean).0, p ∷ (feed slmax rest clean).1)
unfolding feed slinput
feed-end slmax p rest h = let long : ltb (length p) 3 ≡ false = ground arith in rw long refl

feed-frame_of :
    (slmax : ℕ) (c : Clist) (ms : List (List ℕ)) (rest : List ℕ)
    → Fits slmax (joined ms)
    → feed slmax (frame_of c ms ++ rest) clean
      ≡ ((feed slmax rest clean).0, joined ms ∷ (feed slmax rest clean).1)
feed-frame_of slmax c ms rest (short, long) =
    ap (λ l. feed slmax l clean)
      (append_assoc (leader c) _ rest
        ∙ ap (λ l. leader c ++ l) (append_assoc (escaped (joined ms)) (frame_end ∷ []) rest))
    ∙ feed-leader slmax c _
    ∙ feed-escaped slmax (joined ms) (frame_end ∷ rest) false [] (omega arith)
    ∙ feed-end slmax (joined ms) rest short

abbrev pub packets : List Event → List (List ℕ)
packets [] = []
packets (send ms ∷ es) = joined ms ∷ packets es
packets (write n ∷ es) = packets es

abbrev pub AllFit : ℕ → List (List ℕ) → Type 0
AllFit slmax [] = Unit
AllFit slmax (p ∷ ps) = Fits slmax p × AllFit slmax ps

-- What goes on at a line: what is written and what waits in the queue, as frames.
pub record Carries (slmax : ℕ) (o : Option (List ℕ × Clist)) (before : List ℕ) (ps : List (List ℕ))
    : Type 0 where
  pub out : List ℕ
  pub after : Clist
  pub result : o ≡ some (out, after)
  pub after_IsClist : IsClist after
  pub added : List ℕ
  pub conserved : out ++ queued after ≡ before ++ added
  pub framed : feed slmax added clean ≡ (clean, ps)

run_line-Carries :
    (slmax : ℕ) (es : List Event) (c : Clist)
    → IsClist c
    → AllFit slmax (packets es)
    → Carries slmax (run_line es c) (queued c) (packets es)
unfolding run_line feed
run_line-Carries slmax [] c h f = record {
  out = [];
  after = c;
  result = refl;
  after_IsClist = h;
  added = [];
  conserved = sym (append-nil (queued c));
  framed = refl;
}
run_line-Carries slmax (send ms ∷ es) c h (fit, fits) =
    let p = send_frame-PutsChars ms c h in
    let m = run_line-Carries slmax es p.after p.after_IsClist fits in
    record {
      out = m.out;
      after = m.after;
      result = rw p.result m.result;
      after_IsClist = m.after_IsClist;
      added = frame_of c ms ++ m.added;
      conserved =
          m.conserved
          ∙ ap (λ l. l ++ m.added) p.chars_after
          ∙ append_assoc (queued c) (frame_of c ms) m.added;
      framed = feed-frame_of slmax c ms m.added fit ∙ ap (λ x. (x.0, joined ms ∷ x.1)) m.framed;
    }
run_line-Carries slmax (write n ∷ es) c h fits =
    let w = write_once-Moves n c h in
    let m = run_line-Carries slmax es w.after w.after_IsClist fits in
    record {
      out = w.out ++ m.out;
      after = m.after;
      result = rw (w.result, m.result) refl;
      after_IsClist = m.after_IsClist;
      added = m.added;
      conserved =
          append_assoc w.out m.out (queued m.after)
          ∙ ap (λ l. w.out ++ l) m.conserved
          ∙ sym (append_assoc w.out (queued w.after) m.added)
          ∙ ap (λ l. l ++ m.added) w.conserved;
      framed = m.framed;
    }

-- After a character that ends a frame the receiver is in step, whatever it was given before.
end_frame-fields :
    (cs : List ℕ) (escape e : Bool)
    → (end_frame (record { chars = cs; sc_escape = escape; sc_error = e })).0 ≡ clean
unfolding end_frame
end_frame-fields cs escape true = refl
end_frame-fields cs escape false = elim (Bool-cases (ltb (length cs) 3)) [
  | inl e ↦ rw e refl
  | inr e ↦ rw e refl
]

end_frame-clean : (sc : Softc) → (end_frame sc).0 ≡ clean
end_frame-clean sc = end_frame-fields sc.chars sc.sc_escape sc.sc_error

feed-after_end :
    (slmax : ℕ) (cs : List ℕ) (sc : Softc)
    → feed slmax (frame_end ∷ cs) sc
      ≡ ((feed slmax cs clean).0, with_frame (end_frame sc).1 (feed slmax cs clean).1)
unfolding feed slinput
feed-after_end slmax cs sc = rw (end_frame-clean sc) refl

no_chars-IsClist : IsClist no_chars
unfolding chars_of
no_chars-IsClist = record { counted = refl; all_blocks = tt }

-- Packets of at least three bytes, and not too long for the buffer, are put into the queue of an
-- idle line one after another, and the queue is written out in any pieces. No operation fails, and a
-- receiver in any state, maybe in the middle of a broken frame, takes exactly these packets from what
-- was written and what waits, once it has met the end of a frame. That end may complete what it
-- had before.
pub run_line_round_trip :
    (slmax : ℕ) (es : List Event) (sc : Softc)
    → AllFit slmax (packets es)
    → (out : List ℕ) × (after : Clist) × (run_line es no_chars ≡ some (out, after))
      × (feed slmax (frame_end ∷ (out ++ queued after)) sc
          ≡ (clean, with_frame (end_frame sc).1 (packets es)))
unfolding chars_of
run_line_round_trip slmax es sc fits =
    let r = run_line-Carries slmax es no_chars no_chars-IsClist fits in
    (
      r.out,
      r.after,
      r.result,
      ap (λ l. feed slmax (frame_end ∷ l) sc) r.conserved
          ∙ feed-after_end slmax r.added sc
          ∙ ap (λ x. (x.0, with_frame (end_frame sc).1 x.1)) r.framed,
    )
