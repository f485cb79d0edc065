-- ===== src/Mbuf/Contiguous.antt =====
-- What `m_pullup` of generic/kern/uipc_mbuf.c makes of a chain.
use anp.Prelude.{
  ℕ, zero, suc, ◌+◌, ◌-◌, ◌≤◌, ◌<◌, ◌≡◌, ◌≢◌, refl, true, false, ◌||◌, List, [], ◌∷◌, ◌++◌, arith,
  length, take, drop, ltb, leb, leb→le, leb_false→lt, ◌==◌, ==_iff, ltb→lt, Bool-cases, ◌⊎◌, inl,
  inr, append_assoc, ap, sym, ◌∙◌, take-append-drop, length-take, length-append, take_all,
}
use mathlib.Core.Bool.{false≢true}
use anp.Mbuf.Chain.{Mbuf, m_len, is_ext, mlen, mhlen, bytes_of, Fits}
use anp.Mbuf.Pullup.{
  Pulled, pulled, no_space, out_of_fuel, piece, filled, advanced, pull, nonempty, has_room,
  into_first, without_header, header_of, m_pullup,
}

-- What the result may be: null where the chain is too short, or a chain of the same bytes whose
-- first mbuf has `len` of them in storage of the mbuf itself.
abbrev Pullable : List ℕ → ℕ → Pulled → Type 0
Pullable bytes len (pulled []) = ⊥
Pullable bytes len (pulled (m ∷ ms)) =
    (bytes_of (m ∷ ms) ≡ bytes) × (len ≤ m_len m) × (is_ext m ≡ false) × (m.offset + m_len m ≤ mlen)
Pullable bytes len no_space = length bytes < len
Pullable bytes len out_of_fuel = ⊥

-- A round that takes all of `n`, or as many bytes as were asked for.
filled-bytes :
    (count : ℕ) (m n : Mbuf) (rest : List ℕ)
    → (filled count m n).contents ++ ((advanced count n).contents ++ rest)
      ≡ m.contents ++ (n.contents ++ rest)
filled-bytes count m n rest =
    append_assoc m.contents (take count n.contents) (drop count n.contents ++ rest)
    ∙ ap (λ r. m.contents ++ r)
        (sym (append_assoc (take count n.contents) (drop count n.contents) rest)
          ∙ ap (λ r. r ++ rest) (take-append-drop count n.contents))

-- The same, where the round has taken all of `n`.
filled-all :
    (count : ℕ) (m n : Mbuf) (rest : List ℕ)
    → m_len n ≡ count
    → (filled count m n).contents ++ rest ≡ m.contents ++ (n.contents ++ rest)
filled-all count m n rest h =
    rw (take_all count n.contents (omega arith)) (append_assoc m.contents n.contents rest)

length-filled :
    (count : ℕ) (m n : Mbuf) → count ≤ m_len n → m_len (filled count m n) ≡ m_len m + count
length-filled count m n h =
    omega (arith, length-append m.contents (take count n.contents), length-take count n.contents)

pull-Pullable :
    (fuel mp len space : ℕ) (m n : Mbuf) (ns : List Mbuf)
    → length ns < fuel
    → len ≤ space
    → m.offset + m_len m + space ≤ mlen
    → is_ext m ≡ false
    → Pullable
        (m.contents ++ (n.contents ++ bytes_of ns))
        (m_len m + len)
        (pull fuel mp len space m n ns)
unfolding pull
pull-Pullable zero mp len space m n ns f room fit own = absurd (omega arith)
pull-Pullable (suc fuel) mp len space m n [] f room fit own =
    let c : ℕ = piece mp len space n in
    let l : m_len (filled c m n) ≡ m_len m + c = length-filled c m n (omega arith) in
    elim (Bool-cases (m_len n == c)) [
      | inl all ↦
          let h : m_len n ≡ c = (==_iff (m_len n) c).0 all in
          elim (Bool-cases (ltb 0 (len - c))) [
            | inl short ↦
                let g = ltb→lt 0 (len - c) short in
                rw (all, short)
                  (omega (
                    arith,
                    length-append m.contents (n.contents ++ []),
                    length-append n.contents [],
                  ))
            | inr enough ↦
                let g : len ≤ c = ground arith in
                rw (all, enough) (filled-all c m n [] h, omega arith, own, omega arith)
          ]
      | inr part ↦
          let ne : m_len n ≢ c = λ e. cc (sym part ∙ (==_iff (m_len n) c).1 e) in
          let h : len - c ≡ 0 = omega arith in
          rw (part, h) (filled-bytes c m n [], omega arith, own, omega arith)
    ]
pull-Pullable (suc fuel) mp len space m n (n₁ ∷ ns) f room fit own =
    let c : ℕ = piece mp len space n in
    let l : m_len (filled c m n) ≡ m_len m + c = length-filled c m n (omega arith) in
    elim (Bool-cases (ltb 0 (len - c))) [
      | inl short ↦
          let g = ltb→lt 0 (len - c) short in
          let h : m_len n ≡ c = omega arith in
          let all : (m_len n == c) ≡ true = (==_iff (m_len n) c).1 h in
          let e : m_len m + len ≡ m_len (filled c m n) + (len - c) = omega arith in
          rw (short, all, e, ← filled-all c m n (bytes_of (n₁ ∷ ns)) h)
            (pull-Pullable fuel mp (len - c) (space - c) (filled c m n) n₁ ns (omega arith)
              (omega arith) (omega arith) own)
      | inr enough ↦ elim (Bool-cases (m_len n == c)) [
        | inl all ↦
            let h : m_len n ≡ c = (==_iff (m_len n) c).0 all in
            let g : len ≤ c = ground arith in
            rw (enough, all)
              (filled-all c m n (bytes_of (n₁ ∷ ns)) h, omega arith, own, omega arith)
        | inr part ↦
            let g : len ≤ c = ground arith in
            rw (enough, part)
              (filled-bytes c m n (bytes_of (n₁ ∷ ns)), omega arith, own, omega arith)
      ]
    ]

-- What `m_pullup` may give: a chain of the same bytes whose first mbuf has no cluster and holds `len`
-- of them inside its storage; or null, for want of bytes, of an mbuf, or of room in one.
abbrev pub IsPulledUp : List ℕ → ℕ → ℕ → Pulled → Type 0
IsPulledUp bytes len mbufs (pulled ms) = Pullable bytes len (pulled ms)
IsPulledUp bytes len mbufs no_space = (length bytes < len) ⊎ ((mbufs ≡ 0) ⊎ (mhlen < len))
IsPulledUp bytes len mbufs out_of_fuel = ⊥

Pullable→IsPulledUp :
    (bytes : List ℕ) (len mbufs : ℕ) (r : Pulled)
    → Pullable bytes len r
    → IsPulledUp bytes len mbufs r
Pullable→IsPulledUp bytes len mbufs (pulled ms) h = h
Pullable→IsPulledUp bytes len mbufs no_space h = inl h
Pullable→IsPulledUp bytes len mbufs out_of_fuel h = h

-- The new first mbuf, with the packet header moved to it if there is one.
header_room : (n : Mbuf) (len : ℕ) → len ≤ mhlen → len ≤ mlen - (header_of n).offset
header_room n len h = ground arith

header_fits :
    (n : Mbuf) → (header_of n).offset + m_len (header_of n) + (mlen - (header_of n).offset) ≤ mlen
header_fits n = ground arith

header_own : (n : Mbuf) → is_ext (header_of n) ≡ false
header_own n = ground arith

header_empty : (n : Mbuf) → (header_of n).contents ≡ []
header_empty n = ground arith

without_header-contents : (n : Mbuf) → (without_header n).contents ≡ n.contents
without_header-contents n = ground arith

into_first-Pullable :
    (fuel mp len : ℕ) (n : Mbuf) (ns : List Mbuf)
    → nonempty ns ≡ true
    → length ns ≤ fuel
    → m_len n ≤ len
    → n.offset + len ≤ mlen
    → is_ext n ≡ false
    → Pullable (n.contents ++ bytes_of ns) len (into_first fuel mp len n ns)
into_first-Pullable fuel mp len n [] ne f short fit own = absurd (false≢true ne)
into_first-Pullable fuel mp len n (n₁ ∷ ns) ne f short fit own =
    let e : len ≡ m_len n + (len - m_len n) = omega arith in
    let p =
      pull-Pullable fuel mp (len - m_len n) (mlen - (n.offset + m_len n)) n n₁ ns (omega arith)
        (omega arith) (omega arith) own in
    rw (← e) at p

-- For a chain whose data lie in their storage, `m_pullup` ends within as many rounds as the chain has
-- mbufs. It keeps the bytes of the chain, and
-- puts `len` of them into the storage of the first mbuf; it gives null only if the chain is shorter
-- than `len`, no mbuf can be allocated, or `len` is more than an mbuf with a header holds.
pub m_pullup-IsPulledUp :
    (fuel mbufs mp : ℕ) (n : Mbuf) (ns : List Mbuf) (len : ℕ)
    → length (n ∷ ns) ≤ fuel
    → Fits (n ∷ ns)
    → IsPulledUp (bytes_of (n ∷ ns)) len mbufs (m_pullup fuel mbufs mp n ns len)
unfolding m_pullup
m_pullup-IsPulledUp fuel mbufs mp n ns len f fit = elim (Bool-cases (has_room n ns len)) [
  | inl room ↦
      let own : is_ext n ≡ false = ground arith in
      let space : n.offset + len < mlen = ground arith in
      let more : nonempty ns ≡ true = ground arith in
      elim (Bool-cases (leb len (m_len n))) [
        | inl already ↦
            rw (m_pullup, room, already) (refl, leb→le len (m_len n) already, own, (fit.0 own).1)
        | inr short ↦
            let h = leb_false→lt len (m_len n) short in
            rw (m_pullup, room, short)
              (Pullable→IsPulledUp (bytes_of (n ∷ ns)) len mbufs (into_first fuel mp len n ns) (
                into_first-Pullable fuel mp len n ns more (omega arith) (omega arith) (omega arith)
                  own))
      ]
  | inr none_left ↦ elim (Bool-cases (ltb mhlen len || mbufs == 0)) [
    | inl bad ↦ rw (m_pullup, none_left, bad) (inr (ground arith))
    | inr good ↦
        let h : len ≤ mhlen = ground arith in
        let p =
          pull-Pullable fuel mp len (mlen - (header_of n).offset) (header_of n) (without_header n)
            ns (omega arith) (header_room n len h) (header_fits n) (header_own n) in
        let z : 0 + len ≡ len = omega arith in
        let p' = rw (header_empty n, without_header-contents n, z) at p in
        rw (m_pullup, none_left, good) (Pullable→IsPulledUp (bytes_of (n ∷ ns)) len mbufs _ p')
  ]
]
