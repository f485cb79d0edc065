-- ===== src/Serial/Escaped.antt =====
-- The bytes of a packet between the ends of its frame, in generic/net/if_sl.c.
use anp.Prelude.{
  ℕ, zero, suc, ◌+◌, ◌≤◌, ◌<◌, ◌≡◌, ◌⊎◌, inl, inr, refl, sym, ap, ◌∙◌, Bool, true, false, none,
  List, [], ◌∷◌, ◌++◌, length, append_assoc, append-nil, length-append, ltb, ◌==◌, Bool-cases,
  if◌then◌else◌, arith,
}
use anp.Serial.Clist.{Clist}
use anp.Serial.Fifo.{queued, IsClist, PutsChars, putc-PutsChars, b_to_q-queued, b_to_q-IsClist}
use anp.Serial.Output.{
  frame_end, frame_escape, trans_frame_end, trans_frame_escape, is_special, plain_run, after_run,
  put_run, put_special, put_bytes,
}
use anp.Serial.Input.{Softc, store, slinput, feed}

-- The two bytes that stand for a special one.
abbrev in_other_form : ℕ → List ℕ
in_other_form b =
    frame_escape ∷ (if b == frame_escape then trans_frame_escape else trans_frame_end) ∷ []

unfoldable pub escaped : List ℕ → List ℕ
escaped [] = []
escaped (b ∷ bs) = (if is_special b then in_other_form b else b ∷ []) ++ escaped bs

pub escaped-append : (as' bs : List ℕ) → escaped (as' ++ bs) ≡ escaped as' ++ escaped bs
unfolding escaped
escaped-append [] bs = refl
escaped-append (a ∷ as') bs = rw (escaped-append as' bs) (
    sym
      (append_assoc (if is_special a then in_other_form a else a ∷ []) (escaped as') (escaped bs)))

escaped_nil : escaped [] ≡ []
unfolding escaped
escaped_nil = refl

escaped_run : (bs : List ℕ) → escaped bs ≡ plain_run bs ++ escaped (after_run bs)
unfolding escaped plain_run after_run
escaped_run [] = refl
escaped_run (b ∷ bs) = elim (Bool-cases (is_special b)) [
  | inl e ↦ rw e (rw e refl)
  | inr e ↦ rw e (ap (λ l. b ∷ l) (escaped_run bs))
]

escaped_special :
    (x : ℕ) (rest : List ℕ)
    → is_special x ≡ true
    → escaped (x ∷ rest) ≡ in_other_form x ++ escaped rest
unfolding escaped
escaped_special x rest e = rw e refl

after_run-cases :
    (bs : List ℕ)
    → (after_run bs ≡ [])
      ⊎ ((x : ℕ) × (rest : List ℕ) × (after_run bs ≡ x ∷ rest)
          × (is_special x ≡ true)
          × (length rest < length bs))
unfolding after_run
after_run-cases [] = inl refl
after_run-cases (b ∷ bs) = elim (Bool-cases (is_special b)) [
  | inl e ↦ inr (b, bs, rw e refl, e, omega arith)
  | inr e ↦ elim (after_run-cases bs) [
    | inl n ↦ inl (rw e n)
    | inr (x, rest, er, es, l) ↦ inr (x, rest, rw e er, es, omega arith)
  ]
]

put_run-queued :
    (run : List ℕ) (c : Clist)
    → IsClist c
    → (queued (put_run run c) ≡ queued c ++ run) × IsClist (put_run run c)
put_run-queued [] c h = (sym (append-nil (queued c)), h)
put_run-queued (x ∷ xs) c h =
    let some_bytes : (suc (length xs) == 0) ≡ false = ground arith in
    rw some_bytes (b_to_q-queued (x ∷ xs) c, b_to_q-IsClist (x ∷ xs) c h)

put_special-PutsChars :
    (x : ℕ) (c : Clist) → IsClist c → PutsChars (put_special x c) (queued c ++ in_other_form x)
put_special-PutsChars x c h =
    let p = putc-PutsChars frame_escape c h in
    let q =
      putc-PutsChars (if x == frame_escape then trans_frame_escape else trans_frame_end) p.after
        p.after_IsClist in
    record {
      after = q.after;
      result = rw (p.result, q.result) refl;
      after_IsClist = q.after_IsClist;
      chars_after =
          q.chars_after
          ∙ ap
              (λ l. l ++ ((if x == frame_escape then trans_frame_escape else trans_frame_end) ∷ []))
              p.chars_after
          ∙ append_assoc (queued c) (frame_escape ∷ []) _;
    }

pub put_bytes-PutsChars :
    (fuel : ℕ) (bs : List ℕ) (c : Clist)
    → length bs ≤ fuel
    → IsClist c
    → PutsChars (put_bytes fuel bs c) (queued c ++ escaped bs)
unfolding put_bytes
put_bytes-PutsChars fuel [] c l h = record {
  after = c;
  result = refl;
  after_IsClist = h;
  chars_after = rw escaped_nil (sym (append-nil (queued c)));
}
put_bytes-PutsChars zero (b ∷ bs) c l h = absurd (omega arith)
put_bytes-PutsChars (suc fuel) (b ∷ bs) c l h =
    let (qr, hr) = put_run-queued (plain_run (b ∷ bs)) c h in
    elim (after_run-cases (b ∷ bs)) [
      | inl e ↦ record {
        after = put_run (plain_run (b ∷ bs)) c;
        result = rw (e, put_bytes) refl;
        after_IsClist = hr;
        chars_after =
            qr
            ∙ ap (λ l. queued c ++ l)
                (sym (
                  escaped_run (b ∷ bs)
                  ∙ ap (λ l. plain_run (b ∷ bs) ++ escaped l) e
                  ∙ ap (λ l. plain_run (b ∷ bs) ++ l) escaped_nil
                  ∙ append-nil (plain_run (b ∷ bs))));
      }
      | inr (x, rest, er, es, sh) ↦
          let whole =
            escaped_run (b ∷ bs)
            ∙ ap (λ l. plain_run (b ∷ bs) ++ escaped l) er
            ∙ ap (λ l. plain_run (b ∷ bs) ++ l) (escaped_special x rest es) in
          let p = put_special-PutsChars x (put_run (plain_run (b ∷ bs)) c) hr in
          let q = put_bytes-PutsChars fuel rest p.after (omega arith) p.after_IsClist in
          record {
            after = q.after;
            result = rw (er, put_bytes) (rw p.result q.result);
            after_IsClist = q.after_IsClist;
            chars_after =
                q.chars_after
                ∙ ap (λ l. l ++ escaped rest) p.chars_after
                ∙ ap (λ l. (l ++ in_other_form x) ++ escaped rest) qr
                ∙ append_assoc (queued c ++ plain_run (b ∷ bs)) (in_other_form x) (escaped rest)
                ∙ append_assoc (queued c) (plain_run (b ∷ bs)) (in_other_form x ++ escaped rest)
                ∙ ap (λ l. queued c ++ l) (sym whole);
          }
    ]

abbrev holding : List ℕ → Bool → Bool → Softc
holding cs escape e = record { chars = cs; sc_escape = escape; sc_error = e }

pub feed_quiet :
    (slmax c : ℕ) (cs : List ℕ) (sc sc' : Softc)
    → slinput slmax c sc ≡ (sc', none)
    → feed slmax (c ∷ cs) sc ≡ feed slmax cs sc'
unfolding feed
feed_quiet slmax c cs sc sc' e = rw e refl

store_fits :
    (slmax c : ℕ) (cs : List ℕ) (escape e : Bool)
    → length cs < slmax
    → store slmax c (holding cs escape e) ≡ holding (cs ++ (c ∷ [])) false e
unfolding store
store_fits slmax c cs escape e h = let t : ltb (length cs) slmax ≡ true = ground arith in rw t refl

slinput_plain :
    (slmax b : ℕ) (cs : List ℕ) (e : Bool)
    → length cs < slmax
    → is_special b ≡ false
    → slinput slmax b (holding cs false e) ≡ (holding (cs ++ (b ∷ [])) false e, none)
unfolding slinput
slinput_plain slmax b cs e h s = ground (arith, store_fits slmax b cs false e h)

slinput_starts :
    (slmax : ℕ) (cs : List ℕ) (e : Bool)
    → slinput slmax frame_escape (holding cs false e) ≡ (holding cs true e, none)
unfolding slinput
slinput_starts slmax cs e = refl

slinput_escaped :
    (slmax b : ℕ) (cs : List ℕ) (e : Bool)
    → length cs < slmax
    → is_special b ≡ true
    → slinput slmax
        (if b == frame_escape then trans_frame_escape else trans_frame_end)
        (holding cs true e)
      ≡ (holding (cs ++ (b ∷ [])) false e, none)
unfolding slinput
slinput_escaped slmax b cs e h s = elim (Bool-cases (b == frame_escape)) [
  | inl t ↦
      let is : b ≡ frame_escape = ground arith in
      rw t (
        ap (λ x. (x, none))
          (store_fits slmax frame_escape cs true e h
            ∙ ap (λ x. holding (cs ++ (x ∷ [])) false e) (sym is)))
  | inr t ↦
      let is : b ≡ frame_end = ground arith in
      rw t (
        ap (λ x. (x, none))
          (store_fits slmax frame_end cs true e h
            ∙ ap (λ x. holding (cs ++ (x ∷ [])) false e) (sym is)))
]

-- The receiver stores the bytes that were sent.
pub feed-escaped :
    (slmax : ℕ) (bs rest : List ℕ) (e : Bool) (cs : List ℕ)
    → length cs + length bs ≤ slmax
    → feed slmax (escaped bs ++ rest) (record { chars = cs; sc_escape = false; sc_error = e })
      ≡ feed slmax rest (record { chars = cs ++ bs; sc_escape = false; sc_error = e })
unfolding escaped
feed-escaped slmax [] rest e cs h =
    ap (λ l. feed slmax rest (holding l false e)) (sym (append-nil cs))
feed-escaped slmax (b ∷ bs) rest e cs h =
    let ih =
      feed-escaped slmax bs rest e (cs ++ (b ∷ [])) (omega (arith, length-append cs (b ∷ [])))
      ∙ ap (λ l. feed slmax rest (holding l false e)) (append_assoc cs (b ∷ []) bs) in
    elim (Bool-cases (is_special b)) [
      | inl s ↦ rw s (
          feed_quiet slmax frame_escape _ (holding cs false e) (holding cs true e)
            (slinput_starts slmax cs e)
          ∙ feed_quiet slmax _ _ (holding cs true e) _
              (slinput_escaped slmax b cs e (omega arith) s)
          ∙ ih)
      | inr s ↦ rw s (
          feed_quiet slmax b _ (holding cs false e) _ (slinput_plain slmax b cs e (omega arith) s)
          ∙ ih)
    ]
