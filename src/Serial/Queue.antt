-- ===== src/Serial/Queue.antt =====
-- Sequences of operations on the queue of generic/kern/tty_subr.c.
use anp.Prelude.{
  ℕ, refl, sym, ap, ◌∙◌, Option, none, some, List, [], ◌∷◌, ◌++◌, append_assoc, append-nil,
}
use anp.Serial.Clist.{Clist, putc, b_to_q, write_once}
use anp.Serial.Fifo.{
  queued, IsClist, Moves, putc-PutsChars, b_to_q-queued, b_to_q-IsClist, write_once-Moves,
}

pub data Op : Type 0 where
  put : ℕ → Op
  put_all : List ℕ → Op
  write : ℕ → Op

infixl 5 ◌>>=◌
abbrev pub ◌>>=◌ {ℓ} : {A B : Type ℓ} → Option A → (A → Option B) → Option B
none >>= f = none
some a >>= f = f a

abbrev pub then_out : List ℕ → List ℕ × Clist → Option (List ℕ × Clist)
then_out out (rest, c) = some (out ++ rest, c)

-- What the operations write, one after another, and the queue that they leave.
unfoldable pub run_ops : List Op → Clist → Option (List ℕ × Clist)
run_ops [] c = some ([], c)
run_ops (put a ∷ os) c = putc a c >>= run_ops os
run_ops (put_all buf ∷ os) c = run_ops os (b_to_q buf c)
run_ops (write n ∷ os) c = do (out, c') ← write_once n c; run_ops os c' >>= then_out out

abbrev pub inputs : List Op → List ℕ
inputs [] = []
inputs (put a ∷ os) = a ∷ inputs os
inputs (put_all buf ∷ os) = buf ++ inputs os
inputs (write n ∷ os) = inputs os

-- No operation on a well-formed queue goes through a null pointer, and the characters leave it in
-- the order in which they came: what is written, and what is still in the queue, are those that
-- were in it and those that came.
pub run_ops-Moves :
    (os : List Op) (c : Clist) → IsClist c → Moves (run_ops os c) (queued c ++ inputs os)
unfolding run_ops
run_ops-Moves [] c h = record {
  out = [];
  after = c;
  result = refl;
  after_IsClist = h;
  conserved = sym (append-nil (queued c));
}
run_ops-Moves (put a ∷ os) c h =
    let p = putc-PutsChars a c h in
    let m = run_ops-Moves os p.after p.after_IsClist in
    record {
      out = m.out;
      after = m.after;
      result = rw (p.result, m.result) refl;
      after_IsClist = m.after_IsClist;
      conserved =
          m.conserved
          ∙ ap (λ l. l ++ inputs os) p.chars_after
          ∙ append_assoc (queued c) (a ∷ []) (inputs os);
    }
run_ops-Moves (put_all buf ∷ os) c h =
    let m = run_ops-Moves os (b_to_q buf c) (b_to_q-IsClist buf c h) in
    record {
      out = m.out;
      after = m.after;
      result = m.result;
      after_IsClist = m.after_IsClist;
      conserved =
          m.conserved
          ∙ ap (λ l. l ++ inputs os) (b_to_q-queued buf c)
          ∙ append_assoc (queued c) buf (inputs os);
    }
run_ops-Moves (write n ∷ os) c h =
    let w = write_once-Moves n c h in
    let m = run_ops-Moves os w.after w.after_IsClist in
    record {
      out = w.out ++ m.out;
      after = m.after;
      result = rw (w.result, m.result) refl;
      after_IsClist = m.after_IsClist;
      conserved =
          append_assoc w.out m.out (queued m.after)
          ∙ ap (λ l. w.out ++ l) m.conserved
          ∙ sym (append_assoc w.out (queued w.after) (inputs os))
          ∙ ap (λ l. l ++ inputs os) w.conserved;
    }
