-- ===== src/Mbuf/Parts.antt =====
-- The two parts that `m_split` of generic/kern/uipc_mbuf.c makes of a chain.
use anp.Prelude.{
  ℕ, ◌+◌, ◌-◌, ◌≤◌, ◌<◌, ◌≡◌, ◌≢◌, ◌⊎◌, refl, true, false, List, [], ◌∷◌, ◌++◌, arith, take, drop,
  ltb, ◌==◌, Bool-cases, Option-cases, inl, inr, append-nil, sym, ap, ◌∙◌, take_all, drop_all,
  ==_iff,
}
use anp.Mbuf.Chain.{
  Mbuf, m_len, is_ext, mhlen, bytes_of, total, Fits, bytes_of-append, length-bytes_of,
}
use anp.Mbuf.Build.{has_header}
use anp.Mbuf.Split.{
  Split, parted, failed, out_of_fuel, locate, cut, header_cut, tail_header, behind_header,
  split_plain, split_packet, at_split, m_split,
}
use anp.Mbuf.Located.{FitsOne, locate-Located, halves}

header_cut-bytes_of : (len0 : ℕ) (ms : List Mbuf) → bytes_of (header_cut len0 ms) ≡ bytes_of ms
header_cut-bytes_of len0 [] = refl
header_cut-bytes_of len0 (m ∷ ms) = refl

-- The chain begins with a packet header, and the split leaves more than `MHLEN` bytes of an mbuf
-- without a cluster, so that they do not fit behind the new packet header.
abbrev pub NeedsOwnHeader : List Mbuf → ℕ → Type 0
NeedsOwnHeader ms len0 =
    (front : List Mbuf) × (m : Mbuf) × (back : List Mbuf) × (has_header ms ≡ true)
    × (ms ≡ front ++ (m ∷ back))
    × (total front ≤ len0)
    × (len0 + mhlen < total front + m_len m)
    × (is_ext m ≡ false)

-- A packet header in an mbuf of its own, whose `m_len` takes in `junk`, and the bytes behind it.
abbrev pub JunkHeader : List ℕ → List ℕ → List Mbuf → Type 0
JunkHeader junk bytes [] = ⊥
JunkHeader junk bytes (hd ∷ ts) = (hd.pkthdr ≡ true) × (hd.contents ≡ junk) × (bytes_of ts ≡ bytes)

-- Both parts have their bytes, but for the junk in a packet header of its own. A failure keeps the
-- bytes, and there is a reason for it.
abbrev pub IsSplit : List Mbuf → ℕ → ℕ → List ℕ → Split → Type 0
IsSplit ms len0 mbufs junk (parted a b) =
    (bytes_of a ≡ take len0 (bytes_of ms))
    × ((bytes_of b ≡ drop len0 (bytes_of ms))
        ⊎ (NeedsOwnHeader ms len0 × JunkHeader junk (drop len0 (bytes_of ms)) b))
IsSplit ms len0 mbufs junk (failed a) =
    (bytes_of a ≡ bytes_of ms) × ((ms ≡ []) ⊎ ((total ms < len0) ⊎ (mbufs ≤ 1)))
IsSplit ms len0 mbufs junk out_of_fuel = ⊥

module _ (ms front back : List Mbuf) (m : Mbuf) (len0 left mbufs : ℕ) (junk : List ℕ)
    (b : bytes_of ms ≡ bytes_of front ++ (m.contents ++ bytes_of back))
    (l : len0 ≡ total front + left) (i : left ≤ m_len m) where
  parts :
      (take len0 (bytes_of ms) ≡ bytes_of front ++ take left m.contents)
      × (drop len0 (bytes_of ms) ≡ drop left m.contents ++ bytes_of back)
  parts =
      halves (bytes_of ms) (bytes_of front) m.contents (bytes_of back) len0 left b
        (omega (arith, length-bytes_of front)) i

  first_part :
      (n : Mbuf)
      → n.contents ≡ take left m.contents
      → bytes_of (front ++ (n ∷ [])) ≡ take len0 (bytes_of ms)
  first_part n e = rw (bytes_of-append front (n ∷ []), e, append-nil) (sym parts.0)

  split_packet-IsSplit : IsSplit ms len0 mbufs junk (split_packet len0 ms front m back left)
  split_packet-IsSplit = (
    header_cut-bytes_of len0 (front ++ (cut left m ∷ [])) ∙ first_part (cut left m) refl,
    inl (sym parts.1),
  )

  split_plain-IsSplit : IsSplit ms len0 mbufs junk (split_plain mbufs ms front m back left)
  split_plain-IsSplit = elim (Bool-cases (m_len m == left)) [
    | inl e ↦
        let z : m_len m ≡ left = (==_iff (m_len m) left).0 e in
        rw e (
          first_part m (sym (take_all left m.contents (omega arith))),
          inl (
              sym (
                parts.1 ∙ ap (λ bs. bs ++ bytes_of back) (drop_all left m.contents (omega arith)))),
        )
    | inr ne ↦ elim (Bool-cases (mbufs == 0)) [
      | inl out ↦ rw (ne, out) (refl, inr (inr (ground arith)))
      | inr some_left ↦ rw (ne, some_left) (first_part (cut left m) refl, inl (sym parts.1))
    ]
  ]

  behind_header-IsSplit :
      (n hd : Mbuf) (inner : Split)
      → inner ≡ split_plain (mbufs - 1) (n ∷ back) [] n back left
      → n.contents ≡ m.contents
      → left < m_len m
      → mbufs ≢ 0
      → hd.pkthdr ≡ true
      → NeedsOwnHeader ms len0
      → IsSplit ms len0 mbufs junk (behind_header len0 hd junk front ms inner)
  behind_header-IsSplit n hd inner same e more some_left headed needed =
      let ne : (m_len n == left) ≡ false = rw e (ground arith) in
      elim (Bool-cases (mbufs - 1 == 0)) [
        | inl out ↦
            rw (same, ne, out)
              (
                header_cut-bytes_of len0 (front ++ (n ∷ back))
                    ∙ bytes_of-append front (n ∷ back)
                    ∙ rw e (sym b),
                inr (inr (ground arith)),
              )
        | inr left_over ↦
            rw (same, ne, left_over)
              (
                header_cut-bytes_of len0 (front ++ (cut left n ∷ []))
                    ∙ first_part (cut left n) (ap (λ cs. take left cs) e),
                inr (
                  needed,
                  (headed, refl, ap (λ cs. drop left cs ++ bytes_of back) e ∙ sym parts.1),
                ),
              )
      ]

inner-split_plain :
    (mbufs : ℕ) (junk : List ℕ) (n : Mbuf) (back : List Mbuf) (left : ℕ)
    → n.pkthdr ≡ false
    → left ≤ m_len n
    → m_split 1 mbufs junk (n ∷ back) left ≡ split_plain mbufs (n ∷ back) [] n back left
unfolding m_split locate
inner-split_plain mbufs junk n back left plain i =
    let here : ltb (m_len n) left ≡ false = ground arith in rw (m_split, here, plain)

-- A packet header leaves room for at most `MHLEN` bytes.
no_header : (m : Mbuf) → FitsOne m → is_ext m ≡ false → mhlen < m_len m → m.pkthdr ≡ false
no_header m fit own long = elim (Bool-cases m.pkthdr) [
  | inl t ↦ let h = rw t at fit in absurd (omega (arith, h own))
  | inr f ↦ f
]

at_split-same :
    (len0 : ℕ) (front : List Mbuf) (m : Mbuf)
    → ((at_split len0 front m).contents ≡ m.contents) × ((at_split len0 front m).pkthdr ≡ m.pkthdr)
at_split-same len0 [] m = (refl, refl)
at_split-same len0 (f ∷ front) m = (refl, refl)

tail_header_headed :
    (len0 : ℕ) (ms : List Mbuf) → has_header ms ≡ true → (tail_header len0 ms).pkthdr ≡ true
tail_header_headed len0 [] h = absurd cc
tail_header_headed len0 (m ∷ ms) h = refl

-- For a chain whose data lie in their storage, `m_split` ends, on fuel 2. If it parts the chain, the
-- first part has the first `len0` bytes, and the second the others. Only where the chain begins with
-- a packet header, and the split leaves more than `MHLEN` bytes of an mbuf without a cluster, the
-- second may begin with an mbuf of its own for its packet header, and then the others stand behind
-- bytes that the unset `m_len` of that mbuf takes in. If it fails, the bytes are as before, and the
-- chain is empty or too short, or the mbufs have run out.
pub m_split-IsSplit :
    (mbufs : ℕ) (junk : List ℕ) (ms : List Mbuf) (len0 : ℕ)
    → Fits ms
    → IsSplit ms len0 mbufs junk (m_split 2 mbufs junk ms len0)
unfolding m_split
m_split-IsSplit mbufs junk ms len0 f =
    let found = locate-Located ms len0 f in
    elim (Option-cases (locate ms len0)) [
      | inl e ↦
          let h = rw e at found in
          rw (m_split, e) (refl, elim h [ inl z ↦ inl z | inr s ↦ inr (inl s) ])
      | inr ((front, m, back, left), e) ↦
          let (b, l, i, fit, whole) = rw e at found in
          elim (Bool-cases (has_header ms)) [
            | inr plain ↦
                rw (m_split, e, plain)
                  (split_plain-IsSplit ms front back m len0 left mbufs junk b l i)
            | inl packet ↦ elim (Bool-cases (mbufs == 0)) [
              | inl out ↦ rw (m_split, e, packet, out) (refl, inr (inr (ground arith)))
              | inr some_left ↦ elim (Bool-cases (is_ext m)) [
                | inl cluster ↦
                    rw (m_split, e, packet, some_left, cluster)
                      (split_packet-IsSplit ms front back m len0 left mbufs junk b l i)
                | inr own ↦ elim (Bool-cases (ltb mhlen (m_len m - left))) [
                  | inr short ↦
                      rw (m_split, e, packet, some_left, own, short)
                        (split_packet-IsSplit ms front back m len0 left mbufs junk b l i)
                  | inl long ↦
                      let (c, p) = at_split-same len0 front m in
                      let more : mhlen < m_len m - left = ground arith in
                      let bare = p ∙ no_header m fit own (omega arith) in
                      let i' : left ≤ m_len (at_split len0 front m) = rw c i in
                      rw (m_split, e, packet, some_left, own, long)
                        (behind_header-IsSplit ms front back m len0 left mbufs junk b l i
                          (at_split len0 front m) (tail_header len0 ms)
                          (m_split 1 (mbufs - 1) junk (at_split len0 front m ∷ back) left)
                          (inner-split_plain (mbufs - 1) junk (at_split len0 front m) back left bare
                            i')
                          c (omega arith) (ground arith) (tail_header_headed len0 ms packet)
                          (front, m, back, packet, whole, omega arith, omega arith, own))
                ]
              ]
            ]
          ]
    ]
