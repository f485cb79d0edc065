-- ===== src/Cksum/Chains.antt =====
-- The checksum of a chain of mbufs in generic/netinet/in_cksum.c, as one of its bytes.
use Prim.Native.Nat.{min}
use anp.Prelude.{
  ℕ, zero, suc, ◌+◌, ◌-◌, ◌*◌, ◌%◌, ◌≤◌, ◌<◌, ◌≡◌, refl, sym, ap, ap₂, ◌∙◌, Bool, true, false,
  Option, none, some, List, [], ◌∷◌, ◌++◌, length, take, length-append, length-take, append_assoc,
  append-nil, Bool-cases, inl, inr, ◌==◌, arith,
}
use mathlib.Core.Path.{subst}
use anp.Mbuf.Chain.{Mbuf, m_len, bytes_of, total}
use anp.Cksum.{Partial, reduce, add_bytes, is_odd, add_mbuf, add_chain, with_pending, in_cksum}
use anp.Cksum.Sum.{
  Same, Same-refl, Same-trans, Same-eq, Same-add, reduce-Same, reduce_le, norm, Same-norm,
}
use anp.Cksum.Pairs.{pad, word_sum, AreBytes, AreBytes-take, word_sum-append_odd}
use anp.Cksum.Mbufs.{total_of, Sums, add_even-Sums, add_swapped-Sums}

add_bytes-Sums :
    (odd : Bool) (before bs : List ℕ) (sum : ℕ)
    → Same sum (word_sum before)
    → length before % 2 ≡ 0
    → 2 * sum ≤ 65535 * length before + 33750000
    → AreBytes bs
    → length before + length bs ≤ 65535
    → Sums (add_bytes odd bs sum) (before ++ bs)
unfolding add_bytes
add_bytes-Sums odd before [] sum s e b bytes short = add_even-Sums before [] sum s e b bytes short
add_bytes-Sums true before (x ∷ bs) sum s e b (hx, bytes) short =
    add_swapped-Sums before x bs sum s e b hx bytes short
add_bytes-Sums false before (x ∷ bs) sum s e b bytes short =
    add_even-Sums before (x ∷ bs) sum s e b bytes short

take_one : (len : ℕ) (b : ℕ) (bs : List ℕ) → 0 < len → take len (b ∷ bs) ≡ b ∷ take (len - 1) bs
take_one zero b bs h = absurd (omega arith)
take_one (suc len) b bs h = let e : suc len - 1 ≡ len = omega arith in rw e refl

-- A word that the mbuf before has left open is completed first.
complete-Sums :
    (before : List ℕ) (sum c b : ℕ)
    → Sums (record { sum = sum; pending = some c }) before
    → b < 256
    → Same (sum + (c * 256 + b)) (word_sum (before ++ (b ∷ [])))
      × (length (before ++ (b ∷ [])) % 2 ≡ 0)
      × (2 * (sum + (c * 256 + b)) ≤ 65535 * length (before ++ (b ∷ [])) + 33750000)
unfolding word_sum
complete-Sums before sum c b s h =
    let w : word_sum (before ++ (b ∷ [])) ≡ word_sum before + b =
      omega (arith, word_sum-append_odd before b [] s.parity) in
    let l = length-append before (b ∷ []) in
    let t : sum + (c * 256 + b) ≡ sum + c * 256 + b = omega arith in
    (Same-eq t w (Same-add b s.same), omega (arith, l, s.parity), omega (arith, l, s.bound))

add_mbuf-Sums :
    (w : ℕ) (bs : List ℕ) (len : ℕ) (sum : ℕ) (pending : Option ℕ) (before : List ℕ)
    → Sums (record { sum = sum; pending = pending }) before
    → AreBytes bs
    → 0 < len
    → length before + len ≤ 65535
    → Sums (add_mbuf w bs len (record { sum = sum; pending = pending })) (before ++ take len bs)
unfolding add_mbuf
add_mbuf-Sums w [] zero sum o before s h pos short = absurd (omega arith)
add_mbuf-Sums w [] (suc len) sum o before s h pos short = rw (append-nil before) s
add_mbuf-Sums w (b ∷ bs) len sum none before s h pos short =
    add_bytes-Sums (is_odd w) before (take len (b ∷ bs)) sum (Same-eq (omega arith) refl s.same)
      s.parity (omega (arith, s.bound)) (AreBytes-take len (b ∷ bs) h)
      (omega (arith, length-take len (b ∷ bs)))
add_mbuf-Sums w (b ∷ bs) len sum (some c) before s (hb, h) pos short =
    let (same, even, bound) = complete-Sums before sum c b s hb in
    let l = length-append before (b ∷ []) in
    let e : before ++ take len (b ∷ bs) ≡ (before ++ (b ∷ [])) ++ take (len - 1) bs =
      ap (λ t. before ++ t) (take_one len b bs pos)
      ∙ sym (append_assoc before (b ∷ []) (take (len - 1) bs)) in
    rw e (
      add_bytes-Sums (is_odd (w + 1)) (before ++ (b ∷ [])) (take (len - 1) bs) (sum + (c * 256 + b))
        same even bound (AreBytes-take (len - 1) bs h) (omega (arith, l, length-take (len - 1) bs)))

take-append : (n : ℕ) (xs ys : List ℕ) → take n (xs ++ ys) ≡ take n xs ++ take (n - length xs) ys
take-append zero xs ys = let e : 0 - length xs ≡ 0 = omega arith in rw e refl
take-append (suc n) [] ys = let e : suc n - 0 ≡ suc n = omega arith in rw e refl
take-append (suc n) (x ∷ xs) ys =
    let e : suc n - suc (length xs) ≡ n - length xs = omega arith in
    rw e (ap (λ l. x ∷ l) (take-append n xs ys))

abbrev pub ChainBytes : List Mbuf → Type 0
ChainBytes [] = Unit
ChainBytes (m ∷ ms) = AreBytes m.contents × ChainBytes ms

add_chain-Sums :
    (ms : List Mbuf) (len : ℕ) (p : Partial) (before : List ℕ)
    → Sums p before
    → ChainBytes ms
    → length before + len ≤ 65535
    → Sums (add_chain ms len p).0 (before ++ take len (bytes_of ms))
      × ((add_chain ms len p).1 ≡ len - total ms)
unfolding add_chain
add_chain-Sums [] zero p before s h short = (rw (append-nil before) s, omega arith)
add_chain-Sums [] (suc len) p before s h short = (rw (append-nil before) s, omega arith)
add_chain-Sums (m ∷ ms) len p before s (hm, h) short = elim (Bool-cases (len == 0)) [
  | inl e ↦
      let z : len ≡ 0 = ground arith in
      let t : before ++ take len (bytes_of (m ∷ ms)) ≡ before =
        ap (λ n. before ++ take n (bytes_of (m ∷ ms))) z ∙ append-nil before in
      rw e (subst (λ l. Sums p l) (sym t) s, omega arith)
  | inr e ↦
      let s' =
        add_mbuf-Sums m.offset m.contents len p.sum p.pending before s hm (ground arith) short in
      let lt = length-take len m.contents in
      let la = length-append before (take len m.contents) in
      let (r, left) =
        add_chain-Sums ms (len - min len (m_len m)) _ (before ++ take len m.contents) s' h
          (omega arith) in
      let k : len - length m.contents ≡ len - min len (m_len m) = omega arith in
      let t : before ++ take len (bytes_of (m ∷ ms))
          ≡ (before ++ take len m.contents) ++ take (len - min len (m_len m)) (bytes_of ms) =
        ap (λ l. before ++ l) (take-append len m.contents (bytes_of ms))
        ∙ sym (append_assoc before (take len m.contents) _)
        ∙ ap (λ n. (before ++ take len m.contents) ++ take n (bytes_of ms)) k in
      rw e (
        subst
            (λ l.
              Sums (add_chain ms (len - min len (m_len m)) (add_mbuf m.offset m.contents len p)).0
                l)
            (sym t) r,
        left ∙ omega arith,
      )
]

with_pending_lem : (p : Partial) → with_pending p ≡ total_of p
with_pending_lem p = by_pending p.sum p.pending
  where
    by_pending : (s : ℕ) (o : Option ℕ) → with_pending (record { sum = s; pending = o }) ≡ s + pad o
    by_pending s none = omega arith
    by_pending s (some c) = omega arith

-- For at most 65535 bytes of a chain, wherever its mbufs end and whatever the parity of their
-- addresses, `in_cksum` is the complement of the one's complement sum of the 16-bit words of the
-- first `len` bytes, joined, the last one padded with a byte of 0. It tells how many bytes are
-- missing.
pub in_cksum-word_sum :
    (ms : List Mbuf) (len : ℕ)
    → ChainBytes ms
    → len ≤ 65535
    → in_cksum ms len ≡ (65535 - norm (word_sum (take len (bytes_of ms))), len - total ms)
unfolding in_cksum word_sum
in_cksum-word_sum ms len h short =
    let start : Sums (record { sum = 0; pending = none }) [] = record {
      same = Same-refl 0;
      parity = refl;
      bound = omega arith;
    } in
    let (s, left) =
      add_chain-Sums ms len (record { sum = 0; pending = none }) [] start h (omega arith) in
    let q = (add_chain ms len (record { sum = 0; pending = none })).0 in
    let w = with_pending_lem q in
    let le =
      reduce_le (with_pending q) (omega (arith, w, s.bound, length-take len (bytes_of ms))) in
    let same = Same-trans (reduce-Same (with_pending q)) (Same-eq w refl s.same) in
    let n = Same-norm (reduce (with_pending q)) (word_sum (take len (bytes_of ms))) same le in
    let r : 65535 - reduce (with_pending q) % 65536
        ≡ 65535 - norm (word_sum (take len (bytes_of ms))) =
      omega (arith, n, le) in
    ap₂ (λ x y. (x, y)) r left
