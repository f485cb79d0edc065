-- ===== src/Sockbuf/Counts.antt =====
-- What the operations of Append and Drop do to `sb_cc` and `sb_mbcnt`, the counts of
-- generic/kern/uipc_socket2.c.
use anp.Prelude.{
  ℕ, ◌+◌, ◌≡◌, refl, ◌⊎◌, Bool, true, not, ◌&&◌, ◌||◌, Option, none, some, List, [], ◌∷◌, ◌++◌,
  arith, length-append, ◌==◌, Bool-cases, inl, inr,
}
use anp.Prelude.Word.{add32}
use anp.Mbuf.Chain.{Mbuf, m_len, msize, total}
use anp.Sockbuf.Buffer.{SockBuf, to_word, ext_cost, sballoc, sbfree}
use anp.Sockbuf.Append.{
  Placing, discard, merge, link, joined_to, takes, type_kept, place, chain_of, without_eor,
  sbcompress,
}

-- What `sb_mbcnt` counts of a chain, and what both counts have of all records.
abbrev pub costs : List Mbuf → ℕ
costs [] = 0
costs (m ∷ ms) = msize + ext_cost m + costs ms

abbrev pub cc_of : List (List Mbuf) → ℕ
cc_of [] = 0
cc_of (r ∷ rs) = total r + cc_of rs

abbrev pub mbcnt_of : List (List Mbuf) → ℕ
mbcnt_of [] = 0
mbcnt_of (r ∷ rs) = costs r + mbcnt_of rs

abbrev pub Counts : SockBuf → ℕ → ℕ → Type 0
Counts sb c b = (sb.sb_cc ≡ to_word c) × (sb.sb_mbcnt ≡ to_word b)

pub sballoc-Counts :
    (m : Mbuf) (sb : SockBuf) (c b c' b' : ℕ)
    → Counts sb c b
    → c' ≡ c + m_len m
    → b' ≡ b + (msize + ext_cost m)
    → Counts (sballoc m sb) c' b'
unfolding sballoc
sballoc-Counts m sb c b c' b' h e f = (omega arith, omega arith)

pub sbfree-Counts :
    (m : Mbuf) (sb : SockBuf) (c b c' b' : ℕ)
    → Counts sb c' b'
    → c' ≡ c + m_len m
    → b' ≡ b + (msize + ext_cost m)
    → Counts (sbfree m sb) c b
unfolding sbfree
sbfree-Counts m sb c b c' b' h e f = (omega arith, omega arith)

pub total-append : (ms ns : List Mbuf) → total (ms ++ ns) ≡ total ms + total ns
total-append [] ns = omega arith
total-append (m ∷ ms) ns = omega (arith, total-append ms ns)

pub costs-append : (ms ns : List Mbuf) → costs (ms ++ ns) ≡ costs ms + costs ns
costs-append [] ns = omega arith
costs-append (m ∷ ms) ns = omega (arith, costs-append ms ns)

-- The ways of `place`, with what is known of each.
abbrev pub Placed : Option Mbuf → Mbuf → Placing → Type 0
Placed n m discard = m_len m ≡ 0
Placed n m (merge n') =
    (n₀ : Mbuf) × (n ≡ some n₀)
    × (takes n₀ m ≡ true)
    × (n' ≡ record n₀ { contents = n₀.contents ++ m.contents })
Placed n m link = Unit

joined_to-Placed : (n : Option Mbuf) (m : Mbuf) → Placed n m (joined_to n m)
joined_to-Placed none m = tt
joined_to-Placed (some n) m = elim (Bool-cases (takes n m)) [
  | inl t ↦ rw t (n, refl, t, refl)
  | inr f ↦ rw f tt
]

pub place-Placed :
    (eor : Bool) (n : Option Mbuf) (m : Mbuf) (ms : List Mbuf) → Placed n m (place eor n m ms)
unfolding place
place-Placed eor n m ms = elim (Bool-cases (m_len m == 0 && (not eor || type_kept m.kind ms n))) [
  | inl t ↦ rw t (ground arith)
  | inr f ↦ rw f (joined_to-Placed n m)
]

pub Placing-cases : (p : Placing) → (p ≡ discard) ⊎ (((n : Mbuf) × (p ≡ merge n)) ⊎ (p ≡ link))
Placing-cases discard = inl refl
Placing-cases (merge n) = inr (inl (n, refl))
Placing-cases link = inr (inr refl)

pub sbcompress-Counts :
    (eor : Bool) (n : Option Mbuf) (ms : List Mbuf) (sb : SockBuf) (c b : ℕ)
    → Counts sb (c + total (chain_of n)) (b + costs (chain_of n))
    → let (l, sb') = sbcompress eor n ms sb in Counts sb' (c + total l) (b + costs l)
unfolding sbcompress
sbcompress-Counts eor none [] sb c b h = h
sbcompress-Counts eor (some n) [] sb c b h = h
sbcompress-Counts eor n (m ∷ ms) sb c b h =
    let p = place-Placed (eor || m.eor) n m ms in
    elim (Placing-cases (place (eor || m.eor) n m ms)) [
      | inl e ↦ rw (sbcompress, e) (sbcompress-Counts (eor || m.eor) n ms sb c b h)
      | inr (inl (n', e)) ↦
          let (n₀, en, t, g) = rw e at p in
          let h' = rw en at h in
          let l : m_len n' ≡ m_len n₀ + m_len m = rw g (length-append n₀.contents m.contents) in
          let x : ext_cost n' ≡ ext_cost n₀ = rw g in
          rw (sbcompress, e)
            (sbcompress-Counts (eor || m.eor) (some n') ms
              (record sb { sb_cc = add32 sb.sb_cc (m_len m) }) c b (omega arith, omega arith))
      | inr (inr e) ↦
          let ih =
            sbcompress-Counts (eor || m.eor) (some (without_eor m)) ms (sballoc m sb)
              (c + total (chain_of n)) (b + costs (chain_of n))
              (sballoc-Counts m sb _ _ _ _ h (omega arith) (omega arith)) in
          let t =
            total-append (chain_of n)
              (sbcompress (eor || m.eor) (some (without_eor m)) ms (sballoc m sb)).0 in
          let u =
            costs-append (chain_of n)
              (sbcompress (eor || m.eor) (some (without_eor m)) ms (sballoc m sb)).0 in
          rw (sbcompress, e) (omega arith, omega arith)
    ]
