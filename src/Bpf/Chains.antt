-- ===== src/Bpf/Chains.antt =====
-- The loads of `bpf_filter` (generic/net/bpf_filter.c) from a chain of mbufs.
use anp.Prelude.{
  ℕ, zero, suc, ◌+◌, ◌-◌, ◌^◌, ◌<◌, ◌≤◌, ◌≡◌, ◌≢◌, refl, ap, ◌∙◌, true, ltb, if◌then◌else◌, false,
  List, [], ◌∷◌, ◌++◌, arith, leb, length, get_elem?_inside, get_elem?_outside, leb→le,
  Option-cases, none, some, Option, get_elem?, Bool-cases, inl, inr,
}
use anp.Prelude.Word.{is_neg}
use anp.Bpf.Insn.{Size, word, half, byte}
use anp.Bpf.Loads.{width}
use anp.Bpf.Packet.{
  Load, value, reject, chain, chain_load, load, load_abs, load_ind, past_end, ignore_error,
  sign_extend, mindex, xword_at, xhalf_at, xword_across, mbuf_load, byte_at,
}

-- The bytes of a chain, in order.
abbrev pub joined : List (List ℕ) → List ℕ
joined [] = []
joined (m ∷ ms) = m ++ joined ms

-- A byte that is there, or a rejected packet.
abbrev pub found : Option ℕ → Load
found none = reject
found (some b) = value b

get_elem?-append_left :
    (xs ys : List ℕ) (k : ℕ) → k < length xs → get_elem? (xs ++ ys) k ≡ get_elem? xs k
get_elem?-append_left [] ys k h = elim h [ ]
get_elem?-append_left (x ∷ xs) ys zero h = refl
get_elem?-append_left (x ∷ xs) ys (suc k) h = get_elem?-append_left xs ys k (omega arith)

get_elem?-append_right :
    (xs ys : List ℕ) (k : ℕ) → length xs ≤ k → get_elem? (xs ++ ys) k ≡ get_elem? ys (k - length xs)
get_elem?-append_right [] ys k h = let n : k - 0 ≡ k = omega arith in rw n
get_elem?-append_right (x ∷ xs) ys zero h = absurd (omega arith)
get_elem?-append_right (x ∷ xs) ys (suc k) h =
    let n : suc k - suc (length xs) ≡ k - length xs = omega arith in
    rw n (get_elem?-append_right xs ys k (omega arith))

abbrev byte_found : Option (List ℕ × List (List ℕ) × ℕ) → Load
byte_found none = reject
byte_found (some (m, rest, j)) = byte_at m rest j

mindex-found :
    (m : List ℕ) (rest : List (List ℕ)) (k : ℕ)
    → byte_found (mindex m rest k) ≡ found (get_elem? (m ++ joined rest) k)
unfolding mindex byte_at
mindex-found m [] k = elim (Bool-cases (leb (length m) k)) [
  | inl past ↦ let n = get_elem?-append_right m [] k (leb→le _ _ past) in rw (past, n)
  | inr in_m ↦
      let h : k < length m = ground arith in
      let (b, e) = get_elem?_inside m k h in
      let l = get_elem?-append_left m [] k h in rw (in_m, l, e)
]
mindex-found m (n ∷ rest) k = elim (Bool-cases (leb (length m) k)) [
  | inl past ↦
      let r = get_elem?-append_right m (n ++ joined rest) k (leb→le _ _ past) in
      rw (past, r) (mindex-found n rest (k - length m))
  | inr in_m ↦
      let h : k < length m = ground arith in
      let (b, e) = get_elem?_inside m k h in
      let l = get_elem?-append_left m (n ++ joined rest) k h in rw (in_m, l, e)
]

-- A byte as a `signed char` makes it a word.
abbrev pub char_word : ℕ → ℕ
char_word b = if ltb b 128 then b else 2 ^ 32 - 256 + b

abbrev pub char_found : Option ℕ → Load
char_found none = reject
char_found (some b) = value (char_word b)

joined_byte :
    (m : List ℕ) (rest : List (List ℕ)) (k : ℕ)
    → k < 2 ^ 31
    → chain_load byte (m ∷ rest) k ≡ found (get_elem? (joined (m ∷ rest)) k)
unfolding chain_load mbuf_load
joined_byte m rest k h =
    let n : is_neg k ≡ false = ground arith in
    rw (n, ← mindex-found m rest k)
      (elim (Option-cases (mindex m rest k)) [ inl e ↦ rw e | inr (t, e) ↦ rw e ])

-- `BPF_LD|BPF_B|BPF_ABS` at an offset that is not negative gives the byte there of the joined chain
-- of mbufs, and `BPF_LD|BPF_B|BPF_IND` gives it as a `signed char`, so from 128 on with the upper
-- bits set. Both reject the packet when the chain is too short, and never read outside an mbuf.
pub chain_load-byte :
    (m : List ℕ) (rest : List (List ℕ)) (k : ℕ)
    → k < 2 ^ 31
    → (load_abs byte (chain (m ∷ rest)) k ≡ found (get_elem? (joined (m ∷ rest)) k))
      × (load_ind byte (chain (m ∷ rest)) k ≡ char_found (get_elem? (joined (m ∷ rest)) k))
unfolding load_abs load_ind load past_end ignore_error sign_extend
chain_load-byte m rest k h = (
  ap (λ r. ignore_error byte (chain (m ∷ rest)) r) (loaded ∙ joined_byte m rest k h),
  ap (λ r. sign_extend byte (chain (m ∷ rest)) r) (loaded ∙ joined_byte m rest k h)
      ∙ signed (get_elem? (joined (m ∷ rest)) k),
)
  where
    loaded : load byte (chain (m ∷ rest)) k ≡ chain_load byte (m ∷ rest) k
    loaded = let z : leb 0 k ≡ true = ground arith in rw z refl

    signed : (o : Option ℕ) → sign_extend byte (chain (m ∷ rest)) (found o) ≡ char_found o
    signed none = refl
    signed (some b) = ground arith

-- A word or half-word that lies across two mbufs, and does not begin with the first byte of its
-- mbuf, is never loaded: `cp` already stands at byte `k` when `cp[k]` is read, so the read leaves
-- the `m_len` bytes of the mbuf, or the packet is rejected.
pub across_mbufs_never_loaded :
    (s : Size) (m m0 : List ℕ) (rest : List (List ℕ)) (k v : ℕ)
    → 1 ≤ k
    → k < length m
    → length m < k + width s
    → mbuf_load s m (m0 ∷ rest) k ≢ value v
unfolding mbuf_load xword_at xhalf_at xword_across
across_mbufs_never_loaded byte m m0 rest k v lo hi across e = absurd (omega arith)
across_mbufs_never_loaded half m m0 rest k v lo hi across e =
    ground (arith, get_elem?_outside m (k + k))
across_mbufs_never_loaded word m m0 rest k v lo hi across e = ground (
  arith,
  get_elem?_outside m (k + k),
  get_elem?_outside m (k + k + 1),
  get_elem?_outside m (k + k + 2),
)
