-- ===== src/Serial/Fifo.antt =====
-- The queue of generic/kern/tty_subr.c as a list: first in, first out.
use Prim.Native.Nat.{min}
use anp.Prelude.{
  ℕ, zero, suc, ◌+◌, ◌-◌, ◌≤◌, ◌<◌, ◌≡◌, inl, inr, refl, sym, ap, ◌∙◌, Option, some, List, [], ◌∷◌,
  ◌++◌, length, take, drop, append_assoc, append-nil, length-append, length-take, length-drop,
  take-append-drop, take_all, leb, ◌==◌, Bool-cases, arith,
}
use anp.Serial.Clist.{
  acbufsize, Block, Clist, new_block, put_last, putc, blocks_of, b_to_q, write_front, write_once,
}

-- The characters of the queue, in their order.
unfoldable pub chars_of : List Block → List ℕ
chars_of [] = []
chars_of (b ∷ bs) = b.chars ++ chars_of bs

abbrev pub queued : Clist → List ℕ
queued c = chars_of c.blocks

pub record IsBlock (b : Block) : Type 0 where
  pub has_chars : 0 < length b.chars
  pub inside : b.ac_start + length b.chars ≤ acbufsize

abbrev pub AllBlocks : List Block → Type 0
AllBlocks [] = Unit
AllBlocks (b ∷ bs) = IsBlock b × AllBlocks bs

-- `c_cc` counts the characters, and each block has some, which lie inside it.
pub record IsClist (c : Clist) : Type 0 where
  pub counted : c.c_cc ≡ length (queued c)
  pub all_blocks : AllBlocks c.blocks

chars_of-append : (as' bs : List Block) → chars_of (as' ++ bs) ≡ chars_of as' ++ chars_of bs
unfolding chars_of
chars_of-append [] bs = refl
chars_of-append (a ∷ as') bs =
    rw (chars_of-append as' bs) (sym (append_assoc a.chars (chars_of as') (chars_of bs)))

AllBlocks-append : (as' bs : List Block) → AllBlocks as' → AllBlocks bs → AllBlocks (as' ++ bs)
AllBlocks-append [] bs h k = k
AllBlocks-append (a ∷ as') bs (h, hs) k = (h, AllBlocks-append as' bs hs k)

-- What an operation makes of the blocks.
record Puts (o : Option (List Block)) (cs : List ℕ) : Type 0 where
  after : List Block
  result : o ≡ some after
  all_after : AllBlocks after
  chars_after : chars_of after ≡ cs

put_last-Puts :
    (a : ℕ) (bs : List Block)
    → AllBlocks bs
    → 0 < length bs
    → Puts (put_last a bs) (chars_of bs ++ (a ∷ []))
unfolding put_last chars_of
put_last-Puts a [] h n = absurd (omega arith)
put_last-Puts a (b ∷ []) (h, _) n =
    elim (Bool-cases (leb acbufsize (b.ac_start + length b.chars))) [
      | inl e ↦ record {
        after = b ∷ new_block (a ∷ []) ∷ [];
        result = rw e refl;
        all_after = (h, (record { has_chars = omega arith; inside = omega arith }, tt));
        chars_after = ap (λ l. l ++ (a ∷ [])) (sym (append-nil b.chars));
      }
      | inr e ↦ record {
        after = record b { chars = b.chars ++ (a ∷ []) } ∷ [];
        result = rw e refl;
        all_after = (
          record {
            has_chars = ground (arith, length-append b.chars (a ∷ []));
            inside = ground (arith, length-append b.chars (a ∷ []));
          },
          tt,
        );
        chars_after =
            append-nil (b.chars ++ (a ∷ [])) ∙ ap (λ l. l ++ (a ∷ [])) (sym (append-nil b.chars));
      }
    ]
put_last-Puts a (b ∷ b' ∷ bs) (h, hs) n =
    let p = put_last-Puts a (b' ∷ bs) hs (omega arith) in
    record {
      after = b ∷ p.after;
      result = rw p.result refl;
      all_after = (h, p.all_after);
      chars_after =
          ap (λ l. b.chars ++ l) p.chars_after
          ∙ sym (append_assoc b.chars (chars_of (b' ∷ bs)) (a ∷ []));
    }

-- What an operation makes of the queue: its characters, and what it writes.
pub record Moves (o : Option (List ℕ × Clist)) (cs : List ℕ) : Type 0 where
  pub out : List ℕ
  pub after : Clist
  pub result : o ≡ some (out, after)
  pub after_IsClist : IsClist after
  pub conserved : out ++ queued after ≡ cs

pub record PutsChars (o : Option Clist) (cs : List ℕ) : Type 0 where
  pub after : Clist
  pub result : o ≡ some after
  pub after_IsClist : IsClist after
  pub chars_after : queued after ≡ cs

chars_of_none : (bs : List Block) → AllBlocks bs → length (chars_of bs) ≡ 0 → bs ≡ []
unfolding chars_of
chars_of_none [] h e = refl
chars_of_none (b ∷ bs) (h, hs) e =
    absurd (omega (arith, h.has_chars, length-append b.chars (chars_of bs)))

chars_of_some : (bs : List Block) → 0 < length (chars_of bs) → 0 < length bs
unfolding chars_of
chars_of_some [] h = absurd (omega arith)
chars_of_some (b ∷ bs) h = omega arith

pub putc-PutsChars : (a : ℕ) (c : Clist) → IsClist c → PutsChars (putc a c) (queued c ++ (a ∷ []))
unfolding putc chars_of
putc-PutsChars a c h = elim (Bool-cases (c.c_cc == 0)) [
  | inl e ↦
      let z : length (queued c) ≡ 0 = ground (arith, h.counted) in
      let none_left : c.blocks ≡ [] = chars_of_none c.blocks h.all_blocks z in
      record {
        after = record { c_cc = c.c_cc + 1; blocks = new_block (a ∷ []) ∷ [] };
        result = rw e refl;
        after_IsClist = record {
          counted = ground arith;
          all_blocks = (record { has_chars = omega arith; inside = omega arith }, tt);
        };
        chars_after = ap (λ bs. chars_of bs ++ (a ∷ [])) (sym none_left);
      }
  | inr e ↦
      let p =
        put_last-Puts a c.blocks h.all_blocks
          (chars_of_some c.blocks (ground (arith, h.counted))) in
      record {
        after = record { c_cc = c.c_cc + 1; blocks = p.after };
        result = rw (e, p.result) refl;
        after_IsClist = record {
          counted = rw p.chars_after (omega (arith, h.counted, length-append (queued c) (a ∷ [])));
          all_blocks = p.all_after;
        };
        chars_after = p.chars_after;
      }
]

blocks_of-chars : (fuel : ℕ) (xs : List ℕ) → length xs ≤ fuel → chars_of (blocks_of fuel xs) ≡ xs
unfolding blocks_of chars_of
blocks_of-chars fuel [] h = refl
blocks_of-chars zero (x ∷ xs) h = absurd (omega arith)
blocks_of-chars (suc fuel) (x ∷ xs) h =
    rw
      (blocks_of-chars fuel (drop acbufsize (x ∷ xs))
        (omega (arith, length-drop acbufsize (x ∷ xs))))
      (take-append-drop acbufsize (x ∷ xs))

blocks_of-AllBlocks : (fuel : ℕ) (xs : List ℕ) → AllBlocks (blocks_of fuel xs)
unfolding blocks_of
blocks_of-AllBlocks fuel [] = tt
blocks_of-AllBlocks zero (x ∷ xs) = tt
blocks_of-AllBlocks (suc fuel) (x ∷ xs) = (
  record {
    has_chars = omega (arith, length-take acbufsize (x ∷ xs));
    inside = omega (arith, length-take acbufsize (x ∷ xs));
  },
  blocks_of-AllBlocks fuel (drop acbufsize (x ∷ xs)),
)

pub b_to_q-queued : (buf : List ℕ) (c : Clist) → queued (b_to_q buf c) ≡ queued c ++ buf
unfolding b_to_q
b_to_q-queued buf c =
    chars_of-append c.blocks (blocks_of (length buf) buf)
    ∙ ap (λ l. queued c ++ l) (blocks_of-chars (length buf) buf (omega arith))

pub b_to_q-IsClist : (buf : List ℕ) (c : Clist) → IsClist c → IsClist (b_to_q buf c)
unfolding b_to_q
b_to_q-IsClist buf c h = record {
  counted = omega (arith, h.counted, ap length (b_to_q-queued buf c), length-append (queued c) buf);
  all_blocks =
      AllBlocks-append c.blocks (blocks_of (length buf) buf) h.all_blocks
        (blocks_of-AllBlocks _ buf);
}

write_front-Moves :
    (n cc : ℕ) (bs : List Block)
    → cc ≡ length (chars_of bs)
    → AllBlocks bs
    → 0 < length bs
    → Moves (write_front n cc bs) (chars_of bs)
unfolding write_front chars_of
write_front-Moves n cc [] e h k = absurd (omega arith)
write_front-Moves n cc (b ∷ bs) e (h, hs) k =
    let w = min n (length b.chars) in
    let parts = take-append-drop w b.chars in
    let lt = length-take w b.chars in
    let ld = length-drop w b.chars in
    let total = length-append b.chars (chars_of bs) in
    elim (Bool-cases (length (drop w b.chars) == 0)) [
      | inl z ↦
          let whole : take w b.chars ≡ b.chars = take_all w b.chars (ground (arith, ld)) in
          record {
            out = take w b.chars;
            after = record { c_cc = cc - w; blocks = bs };
            result = rw z refl;
            after_IsClist = record { counted = ground (arith, ld, total); all_blocks = hs };
            conserved = ap (λ l. l ++ chars_of bs) whole;
          }
      | inr z ↦ record {
        out = take w b.chars;
        after = record {
          c_cc = cc - w;
          blocks = record { ac_start = b.ac_start + w; chars = drop w b.chars } ∷ bs;
        };
        result = rw z refl;
        after_IsClist = record {
          counted = omega (arith, length-append (drop w b.chars) (chars_of bs), ld, total, e);
          all_blocks =
              (record { has_chars = ground arith; inside = omega (arith, ld, h.inside) }, hs);
        };
        conserved =
            sym (append_assoc (take w b.chars) (drop w b.chars) (chars_of bs))
            ∙ ap (λ l. l ++ chars_of bs) parts;
      }
    ]

pub write_once-Moves : (n : ℕ) (c : Clist) → IsClist c → Moves (write_once n c) (queued c)
unfolding write_once
write_once-Moves n c h = elim (Bool-cases (c.c_cc == 0)) [
  | inl e ↦ record { out = []; after = c; result = rw e refl; after_IsClist = h; conserved = refl }
  | inr e ↦ rw e (
      write_front-Moves n c.c_cc c.blocks h.counted h.all_blocks
        (chars_of_some c.blocks (ground (arith, h.counted))))
]
