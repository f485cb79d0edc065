-- ===== src/Cksum/Mbufs.antt =====
-- The bytes of one mbuf in generic/netinet/in_cksum.c, from even and odd addresses.
use anp.Prelude.{
  ℕ, ◌+◌, ◌*◌, ◌/◌, ◌%◌, ◌≤◌, ◌<◌, ◌≡◌, refl, ap, ◌∙◌, Option, none, some, List, [], ◌∷◌, ◌++◌,
  length, length-append, Bool-cases, Option-cases, inl, inr, ◌==◌, arith,
}
use anp.Cksum.{
  Partial, reduce, sum_pairs, odd_byte, unrolled, remaining, add_even, pair_up, add_swapped,
}
use anp.Cksum.Sum.{
  Same, Same-trans, Same-add, Same-shift, reduce-Same, reduce_le, Same-eq, Same-carry, Same-twice,
}
use anp.Cksum.Pairs.{
  pad, value, word_sum, AreBytes, AreBytes-drop, word_sum_lem, word_sum-append_even,
  sum_pairs-unrolled, odd_byte-remaining, length-remaining, sum_pairs_le, carried, word_sum-shifted,
  carried_le, odd_byte-parity, odd_byte-IsByte,
}

abbrev pub total_of : Partial → ℕ
total_of p = p.sum + pad p.pending

abbrev pub waits : Option ℕ → ℕ
waits none = 0
waits (some a) = 1

-- The sum so far is that of the bytes so far, and leaves room in 32 bits.
pub record Sums (p : Partial) (bytes : List ℕ) : Type 0 where
  pub same : Same (total_of p) (word_sum bytes)
  pub parity : length bytes % 2 ≡ waits p.pending
  pub bound : 2 * total_of p ≤ 65535 * length bytes + 33750000

odd_byte-waits : (bs : List ℕ) → length bs % 2 ≡ waits (odd_byte bs)
odd_byte-waits bs = elim (Option-cases (odd_byte bs)) [
  | inl e ↦ rw e ((odd_byte-parity bs).0 e)
  | inr (a, e) ↦ rw e ((odd_byte-parity bs).1 a e)
]

pad_le : (bs : List ℕ) → AreBytes bs → pad (odd_byte bs) ≤ 65280
pad_le bs h = elim (Option-cases (odd_byte bs)) [
  | inl e ↦ rw e (omega arith)
  | inr (a, e) ↦ let s = odd_byte-IsByte bs h a e in rw e (omega arith)
]

value_le : (bs : List ℕ) → AreBytes bs → value (odd_byte bs) ≤ 255
value_le bs h = elim (Option-cases (odd_byte bs)) [
  | inl e ↦ rw e (omega arith)
  | inr (a, e) ↦ let s = odd_byte-IsByte bs h a e in rw e (omega arith)
]

no_bytes : (l : List ℕ) → length l ≡ 0 → (sum_pairs l ≡ 0) × (odd_byte l ≡ none)
unfolding sum_pairs odd_byte
no_bytes [] h = (refl, refl)
no_bytes (b ∷ bs) h = absurd (omega arith)

-- After whole words, with `bs` to come.
module _ (before bs : List ℕ) (sum : ℕ) (same : Same sum (word_sum before))
    (even : length before % 2 ≡ 0) (bound : 2 * sum ≤ 65535 * length before + 33750000)
    (bytes : AreBytes bs) (short : length before + length bs ≤ 65535) where
  joined_length : length (before ++ bs) ≡ length before + length bs
  joined_length = length-append before bs

  joined_sum : word_sum (before ++ bs) ≡ word_sum before + (sum_pairs bs + pad (odd_byte bs))
  joined_sum = word_sum-append_even before bs even ∙ ap (λ n. word_sum before + n) (word_sum_lem bs)

  pads : pad (odd_byte bs) ≡ pad (odd_byte (remaining bs))
  pads = ap pad (odd_byte-remaining bs)

  joined_bound : 2 * sum_pairs bs ≤ 65535 * length bs
  joined_bound = sum_pairs_le bs bytes

  others_bound : 2 * sum_pairs (remaining bs) ≤ 65535 * length (remaining bs)
  others_bound = sum_pairs_le (remaining bs) (AreBytes-drop (length bs / 8 * 8) bs bytes)

  parity_after : length (before ++ bs) % 2 ≡ waits (odd_byte (remaining bs))
  parity_after =
      let e : length (before ++ bs) % 2 ≡ length bs % 2 = omega (arith, joined_length) in
      e ∙ odd_byte-waits bs ∙ ap waits (odd_byte-remaining bs)

  pub add_even-Sums : Sums (add_even bs sum) (before ++ bs)
  unfolding add_even
  add_even-Sums = elim (Bool-cases (length (remaining bs) == 0)) [
    | inl e ↦
        let (s0, o0) = no_bytes (remaining bs) (ground arith) in
        let p0 : pad (odd_byte (remaining bs)) ≡ 0 = ap pad o0 in
        let q : sum + sum_pairs (unrolled bs) + 0 ≡ sum + (sum_pairs bs + pad (odd_byte bs)) =
          omega (arith, sum_pairs-unrolled bs, s0, pads, p0) in
        rw e (record {
          same = Same-eq q joined_sum (Same-add (sum_pairs bs + pad (odd_byte bs)) same);
          parity = parity_after ∙ ap waits o0;
          bound = omega (arith, q, joined_length, joined_bound, pads, p0, bound);
        })
    | inr e ↦
        let q : sum
              + sum_pairs (unrolled bs)
              + (sum_pairs (remaining bs) + pad (odd_byte (remaining bs)))
            ≡ sum + (sum_pairs bs + pad (odd_byte bs)) =
          omega (arith, sum_pairs-unrolled bs, pads) in
        let r = reduce-Same (sum + sum_pairs (unrolled bs)) in
        let le =
          reduce_le (sum + sum_pairs (unrolled bs))
            (omega (arith, sum_pairs-unrolled bs, joined_bound, bound, short)) in
        let t : reduce (sum + sum_pairs (unrolled bs))
              + sum_pairs (remaining bs)
              + pad (odd_byte (remaining bs))
            ≡ reduce (sum + sum_pairs (unrolled bs))
              + (sum_pairs (remaining bs) + pad (odd_byte (remaining bs))) =
          omega arith in
        rw e (record {
          same = Same-eq t joined_sum (
              Same-trans (Same-add (sum_pairs (remaining bs) + pad (odd_byte (remaining bs))) r)
                (Same-eq q refl (Same-add (sum_pairs bs + pad (odd_byte bs)) same)));
          parity = parity_after;
          bound = omega (arith, le, others_bound, length-remaining bs, pads, pad_le bs bytes);
        })
  ]

total_of-pair_up :
    (first s : ℕ) (o : Option ℕ) → total_of (pair_up first s o) ≡ s + (first * 256 + value o)
unfolding pair_up
total_of-pair_up first s none = omega arith
total_of-pair_up first s (some last) = omega arith

waits-pair_up : (first s : ℕ) (o : Option ℕ) → waits (pair_up first s o).pending + waits o ≡ 1
unfolding pair_up
waits-pair_up first s none = refl
waits-pair_up first s (some last) = refl

-- The same from an odd address on, behind the byte `first`.
module _ (before : List ℕ) (first : ℕ) (bs : List ℕ) (sum : ℕ) (same : Same sum (word_sum before))
    (even : length before % 2 ≡ 0) (bound : 2 * sum ≤ 65535 * length before + 33750000)
    (first_byte : first < 256) (bytes : AreBytes bs)
    (short : length before + length (first ∷ bs) ≤ 65535) where
  abbrev sum1 : ℕ
  sum1 = reduce sum * 256 + sum_pairs (unrolled bs)

  abbrev sum2 : ℕ
  sum2 = reduce sum1 + sum_pairs (remaining bs)

  sum2-Same : Same sum2 (sum * 256 + sum_pairs bs)
  sum2-Same =
      let t : sum1 + sum_pairs (remaining bs) ≡ reduce sum * 256 + sum_pairs bs =
        omega (arith, sum_pairs-unrolled bs) in
      Same-trans (Same-add (sum_pairs (remaining bs)) (reduce-Same sum1))
        (Same-eq t refl (Same-add (sum_pairs bs) (Same-shift (reduce-Same sum))))

  swapped-Same : Same (total_of (add_swapped first bs sum)) (word_sum (before ++ (first ∷ bs)))
  unfolding add_swapped
  swapped-Same =
      let v = ap value (odd_byte-remaining bs) in
      let q : (sum * 256 + sum_pairs bs) * 256 + (first * 256 + value (odd_byte (remaining bs)))
          ≡ sum * 65536 + (word_sum (first ∷ bs) + 65535 * carried bs) =
        omega (arith, word_sum-shifted first bs, v) in
      let w : word_sum before + (word_sum (first ∷ bs) + 65535 * carried bs)
          ≡ word_sum before + word_sum (first ∷ bs) + 65535 * carried bs =
        omega arith in
      Same-eq (total_of-pair_up first (reduce sum2 * 256) (odd_byte (remaining bs)))
        (word_sum-append_even before (first ∷ bs) even)
        (Same-trans
          (Same-add (first * 256 + value (odd_byte (remaining bs)))
            (Same-trans (Same-shift (reduce-Same sum2)) (Same-shift sum2-Same)))
          (Same-eq q refl (
            Same-trans (Same-add (word_sum (first ∷ bs) + 65535 * carried bs) (Same-twice same)) (
              Same-eq w refl (
                Same-carry (word_sum before + word_sum (first ∷ bs)) (carried bs)
                  (omega (arith, carried_le first bs)))))))

  swapped-bound : 2 * total_of (add_swapped first bs sum) ≤ 33750000
  unfolding add_swapped
  swapped-bound =
      let b = sum_pairs_le bs bytes in
      let o = sum_pairs_le (remaining bs) (AreBytes-drop (length bs / 8 * 8) bs bytes) in
      let r0 = reduce_le sum (omega (arith, bound, short)) in
      let r1 = reduce_le sum1 (omega (arith, r0, sum_pairs-unrolled bs, b, short)) in
      let r2 = reduce_le sum2 (omega (arith, r1, o, length-remaining bs)) in
      omega (
        arith,
        total_of-pair_up first (reduce sum2 * 256) (odd_byte (remaining bs)),
        r2,
        ap value (odd_byte-remaining bs),
        value_le bs bytes,
        first_byte,
      )

  pub add_swapped-Sums : Sums (add_swapped first bs sum) (before ++ (first ∷ bs))
  unfolding add_swapped
  add_swapped-Sums = record {
    same = swapped-Same;
    parity = omega (
      arith,
      length-append before (first ∷ bs),
      odd_byte-waits bs,
      ap waits (odd_byte-remaining bs),
      waits-pair_up first (reduce sum2 * 256) (odd_byte (remaining bs)),
    );
    bound = omega (arith, swapped-bound);
  }
