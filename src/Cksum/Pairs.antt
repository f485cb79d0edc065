-- ===== src/Cksum/Pairs.antt =====
-- Sums of the 16-bit words of byte strings, for generic/netinet/in_cksum.c.
use anp.Prelude.{
  ℕ, zero, suc, ◌+◌, ◌*◌, ◌/◌, ◌%◌, ◌≤◌, ◌<◌, ◌≡◌, refl, sym, ap, ◌∙◌, Option, none, some, List, [],
  ◌∷◌, ◌++◌, length, take, drop, length-take, length-drop, take-append-drop, arith,
}
use anp.Cksum.{sum_pairs, odd_byte, unrolled, remaining}

abbrev pub pad : Option ℕ → ℕ
pad none = 0
pad (some a) = a * 256

abbrev pub value : Option ℕ → ℕ
value none = 0
value (some a) = a

-- The specification: the sum of the words of the bytes, the last one padded with a byte of 0.
unfoldable pub word_sum : List ℕ → ℕ
word_sum [] = 0
word_sum (a ∷ []) = a * 256
word_sum (a ∷ b ∷ bs) = a * 256 + b + word_sum bs

abbrev pub AreBytes : List ℕ → Type 0
AreBytes [] = Unit
AreBytes (b ∷ bs) = (b < 256) × AreBytes bs

pub AreBytes-take : (n : ℕ) (bs : List ℕ) → AreBytes bs → AreBytes (take n bs)
AreBytes-take zero bs h = tt
AreBytes-take (suc n) [] h = tt
AreBytes-take (suc n) (b ∷ bs) (h, hs) = (h, AreBytes-take n bs hs)

pub AreBytes-drop : (n : ℕ) (bs : List ℕ) → AreBytes bs → AreBytes (drop n bs)
AreBytes-drop zero bs h = h
AreBytes-drop (suc n) [] h = tt
AreBytes-drop (suc n) (b ∷ bs) (h, hs) = AreBytes-drop n bs hs

pub word_sum_lem : (bs : List ℕ) → word_sum bs ≡ sum_pairs bs + pad (odd_byte bs)
unfolding word_sum sum_pairs odd_byte
word_sum_lem [] = refl
word_sum_lem (a ∷ []) = omega arith
word_sum_lem (a ∷ b ∷ bs) = omega (arith, word_sum_lem bs)

-- Behind whole words.
pub word_sum-append_even :
    (as' bs : List ℕ) → length as' % 2 ≡ 0 → word_sum (as' ++ bs) ≡ word_sum as' + word_sum bs
unfolding word_sum
word_sum-append_even [] bs h = omega arith
word_sum-append_even (a ∷ []) bs h = absurd (omega arith)
word_sum-append_even (a ∷ b ∷ as') bs h = omega (arith, word_sum-append_even as' bs (omega arith))

-- A byte that completes a word.
pub word_sum-append_odd :
    (as' : List ℕ) (b : ℕ) (bs : List ℕ)
    → length as' % 2 ≡ 1
    → word_sum (as' ++ (b ∷ bs)) ≡ word_sum as' + b + word_sum bs
unfolding word_sum
word_sum-append_odd [] b bs h = absurd (omega arith)
word_sum-append_odd (a ∷ []) b bs h = omega arith
word_sum-append_odd (a ∷ c ∷ as') b bs h = omega (arith, word_sum-append_odd as' b bs (omega arith))

sum_pairs-append :
    (as' bs : List ℕ) → length as' % 2 ≡ 0 → sum_pairs (as' ++ bs) ≡ sum_pairs as' + sum_pairs bs
unfolding sum_pairs
sum_pairs-append [] bs h = omega arith
sum_pairs-append (a ∷ []) bs h = absurd (omega arith)
sum_pairs-append (a ∷ b ∷ as') bs h = omega (arith, sum_pairs-append as' bs (omega arith))

odd_byte-append : (as' bs : List ℕ) → length as' % 2 ≡ 0 → odd_byte (as' ++ bs) ≡ odd_byte bs
unfolding odd_byte
odd_byte-append [] bs h = refl
odd_byte-append (a ∷ []) bs h = absurd (omega arith)
odd_byte-append (a ∷ b ∷ as') bs h = odd_byte-append as' bs (omega arith)

unrolled-even : (bs : List ℕ) → length (unrolled bs) % 2 ≡ 0
unrolled-even bs = omega (arith, length-take (length bs / 8 * 8) bs)

-- The two parts of the loops.
pub sum_pairs-unrolled :
    (bs : List ℕ) → sum_pairs bs ≡ sum_pairs (unrolled bs) + sum_pairs (remaining bs)
sum_pairs-unrolled bs =
    ap sum_pairs (sym (take-append-drop (length bs / 8 * 8) bs))
    ∙ sum_pairs-append (unrolled bs) (remaining bs) (unrolled-even bs)

pub odd_byte-remaining : (bs : List ℕ) → odd_byte bs ≡ odd_byte (remaining bs)
odd_byte-remaining bs =
    ap odd_byte (sym (take-append-drop (length bs / 8 * 8) bs))
    ∙ odd_byte-append (unrolled bs) (remaining bs) (unrolled-even bs)

pub length-remaining : (bs : List ℕ) → length (remaining bs) < 8
length-remaining bs = omega (arith, length-drop (length bs / 8 * 8) bs)

pub sum_pairs_le : (bs : List ℕ) → AreBytes bs → 2 * sum_pairs bs ≤ 65535 * length bs
unfolding sum_pairs
sum_pairs_le [] h = omega arith
sum_pairs_le (a ∷ []) h = omega arith
sum_pairs_le (a ∷ b ∷ bs) (ha, (hb, h)) = omega (arith, sum_pairs_le bs h)

-- Words that begin one byte late, shifted by a byte, are those of the bytes, up to a multiple of
-- 65535.
unfoldable pub carried : List ℕ → ℕ
carried [] = 0
carried (a ∷ []) = 0
carried (a ∷ b ∷ bs) = a + carried bs

pub word_sum-shifted :
    (first : ℕ) (bs : List ℕ)
    → sum_pairs bs * 256 + first * 256 + value (odd_byte bs)
      ≡ word_sum (first ∷ bs) + 65535 * carried bs
unfolding word_sum sum_pairs odd_byte carried
word_sum-shifted first [] = omega arith
word_sum-shifted first (a ∷ []) = omega arith
word_sum-shifted first (a ∷ b ∷ bs) = omega (arith, word_sum-shifted b bs)

pub carried_le : (first : ℕ) (bs : List ℕ) → carried bs ≤ word_sum (first ∷ bs)
unfolding word_sum carried
carried_le first [] = omega arith
carried_le first (a ∷ []) = omega arith
carried_le first (a ∷ b ∷ bs) = omega (arith, carried_le b bs)

pub odd_byte-parity :
    (bs : List ℕ)
    → (odd_byte bs ≡ none → length bs % 2 ≡ 0)
      × ((a : ℕ) → odd_byte bs ≡ some a → length bs % 2 ≡ 1)
unfolding odd_byte
odd_byte-parity [] = (λ e. refl, λ a e. absurd cc)
odd_byte-parity (a ∷ []) = (λ e. absurd cc, λ b e. refl)
odd_byte-parity (a ∷ b ∷ bs) =
    let (f, g) = odd_byte-parity bs in (λ e. omega (arith, f e), λ c e. omega (arith, g c e))

pub odd_byte-IsByte : (bs : List ℕ) → AreBytes bs → (a : ℕ) → odd_byte bs ≡ some a → a < 256
unfolding odd_byte
odd_byte-IsByte [] h a e = absurd cc
odd_byte-IsByte (b ∷ []) (h, _) a e = let s : b ≡ a = cc in rw (← s) h
odd_byte-IsByte (b ∷ c ∷ bs) (hb, (hc, h)) a e = odd_byte-IsByte bs h a e
