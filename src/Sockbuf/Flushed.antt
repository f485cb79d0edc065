-- ===== src/Sockbuf/Flushed.antt =====
-- What `sbflush` of generic/kern/uipc_socket2.c leaves of a socket buffer.
use anp.Prelude.{
  ℕ, zero, suc, ◌+◌, ◌-◌, ◌^◌, ◌≤◌, ◌<◌, ◌≡◌, ◌⊎◌, refl, length-drop, true, false, Option, none,
  some, List, [], ◌∷◌, ◌++◌, arith, length, length-append, ltb, ◌==◌, if◌then◌else◌, Bool-cases,
  inl, inr, sym, ap, ◌∙◌, drop_all, ==_iff,
}
use anp.Prelude.Word.{is_neg}
use anp.Mbuf.Chain.{Mbuf, m_len, bytes_of, length-bytes_of}
use anp.Sockbuf.Buffer.{SockBuf, sbfree, put_front}
use anp.Sockbuf.Drop.{
  drop_bytes, free_empty, finish_drop, first_record, other_records, sbdrop, flushed, panicked,
  nothing_left, flush, sbflush,
}
use anp.Sockbuf.Counts.{cc_of, mbcnt_of}
use anp.Sockbuf.Growing.{Counted}
use anp.Sockbuf.Shrinking.{sbdrop-Counted}
use anp.Sockbuf.Contents.{data_of, no_bytes}
use anp.Sockbuf.Dropped.{Drops, sbdrop-Drops, LoopDrops, drop_bytes-LoopDrops, first_record-data_of}

-- Every record has an mbuf.
abbrev pub NonEmpty : List (List Mbuf) → Type 0
NonEmpty [] = Unit
NonEmpty ([] ∷ ts) = ⊥
NonEmpty ((m ∷ ms) ∷ ts) = NonEmpty ts

-- The records `ts` are some of the last ones of `next`.
abbrev Fewer : List (List Mbuf) → List (List Mbuf) → Type 0
Fewer next ts = (length ts ≤ length next) × (mbcnt_of ts ≤ mbcnt_of next) × NonEmpty ts

abbrev LoopFewer : List (List Mbuf) → Option (List Mbuf × List (List Mbuf) × SockBuf) → Type 0
LoopFewer next none = Unit
LoopFewer next (some (m, ts, sb)) = Fewer next ts

behind_record :
    (r : List Mbuf) (next : List (List Mbuf)) (o : Option (List Mbuf × List (List Mbuf) × SockBuf))
    → LoopFewer next o
    → LoopFewer (r ∷ next) o
behind_record r next none h = tt
behind_record r next (some (m, ts, sb)) (l, b, n) = (omega arith, omega arith, n)

NonEmpty-tail : (r : List Mbuf) (ts : List (List Mbuf)) → NonEmpty (r ∷ ts) → NonEmpty ts
NonEmpty-tail [] ts h = elim h [ ]
NonEmpty-tail (m ∷ ms) ts h = h

drop_bytes-LoopFewer :
    (next : List (List Mbuf)) (m : List Mbuf) (len : ℕ) (sb : SockBuf)
    → NonEmpty next
    → LoopFewer next (drop_bytes next m len sb)
unfolding drop_bytes
drop_bytes-LoopFewer next m zero sb n = (omega arith, omega arith, n)
drop_bytes-LoopFewer [] [] (suc len) sb n = tt
drop_bytes-LoopFewer (r ∷ next) [] (suc len) sb n =
    behind_record r next _ (drop_bytes-LoopFewer next r (suc len) sb (NonEmpty-tail r next n))
drop_bytes-LoopFewer next (m ∷ ms) (suc len) sb n = elim (Bool-cases (ltb (suc len) (m_len m))) [
  | inl part ↦ rw (drop_bytes, part) (omega arith, omega arith, n)
  | inr all ↦
      rw (drop_bytes, all) (drop_bytes-LoopFewer next ms (suc len - m_len m) (sbfree m sb) n)
]

empty_freed : (m : List Mbuf) (sb : SockBuf) → bytes_of m ≡ [] → (free_empty m sb).0 ≡ []
unfolding free_empty
empty_freed [] sb e = refl
empty_freed (m ∷ ms) sb e =
    let l : m_len m + length (bytes_of ms) ≡ 0 =
      sym (length-append m.contents (bytes_of ms)) ∙ ap length e in
    let z : (m_len m == 0) ≡ true = (==_iff (m_len m) 0).1 (omega arith) in
    rw (free_empty, z) (empty_freed ms (sbfree m sb) (no_bytes (bytes_of ms) (omega arith)))

nothing_in_front : (xs ys : List ℕ) → xs ++ ys ≡ [] → xs ≡ []
nothing_in_front [] ys e = refl
nothing_in_front (x ∷ xs) ys e = absurd cc

all_dropped :
    (bs : List ℕ) (rs : List (List Mbuf)) (o : Option (List Mbuf × List (List Mbuf) × SockBuf))
    → LoopDrops bs (length bs) o
    → LoopFewer rs o
    → (sb : SockBuf) × (elim o [ none ↦ none | some (m, next, sb') ↦ some (finish_drop m next sb') ]
        ≡ some sb)
      × Fewer rs sb.sb_mb
all_dropped bs rs none d f = absurd (omega arith)
all_dropped bs rs (some (m, next, sb)) (l, e) f =
    let none_left =
      nothing_in_front (bytes_of m) (data_of next) (e ∙ drop_all (length bs) bs (omega arith)) in
    let freed : put_front (free_empty m sb).0 next ≡ next =
      ap (λ r. put_front r next) (empty_freed m sb none_left) in
    (finish_drop m next sb, refl, rw freed f)

sbdrop-all :
    (sb : SockBuf)
    → NonEmpty (other_records sb.sb_mb)
    → (sb' : SockBuf) × (sbdrop sb (length (data_of sb.sb_mb)) ≡ some sb')
      × Fewer (other_records sb.sb_mb) sb'.sb_mb
unfolding sbdrop
sbdrop-all sb n =
    let len = length (data_of sb.sb_mb) in
    let d =
      drop_bytes-LoopDrops (other_records sb.sb_mb) (first_record sb.sb_mb)
        (length (data_of sb.sb_mb)) sb in
    all_dropped (data_of sb.sb_mb) (other_records sb.sb_mb)
      (drop_bytes (other_records sb.sb_mb) (first_record sb.sb_mb) (length (data_of sb.sb_mb)) sb)
      (rw (first_record-data_of sb.sb_mb) at d)
      (drop_bytes-LoopFewer (other_records sb.sb_mb) (first_record sb.sb_mb)
        (length (data_of sb.sb_mb)) sb n)

length-data_of : (ts : List (List Mbuf)) → length (data_of ts) ≡ cc_of ts
length-data_of [] = refl
length-data_of (t ∷ ts) =
    omega (arith, length-append (bytes_of t) (data_of ts), length-bytes_of t, length-data_of ts)

records-cases :
    (ts : List (List Mbuf))
    → NonEmpty ts
    → (ts ≡ [])
      ⊎ ((0 < mbcnt_of ts)
          × (length (other_records ts) < length ts)
          × (mbcnt_of (other_records ts) ≤ mbcnt_of ts)
          × NonEmpty (other_records ts))
records-cases [] n = inl refl
records-cases ([] ∷ ts) n = elim n [ ]
records-cases ((m ∷ ms) ∷ ts) n = inr (omega arith, omega arith, omega arith, n)

-- A socket buffer with nothing in it.
abbrev pub IsEmpty : SockBuf → Type 0
IsEmpty sb = (sb.sb_mb ≡ []) × (sb.sb_cc ≡ 0) × (sb.sb_mbcnt ≡ 0)

flush-IsEmpty :
    (fuel : ℕ) (sb : SockBuf)
    → Counted sb
    → NonEmpty sb.sb_mb
    → cc_of sb.sb_mb < 2 ^ 31
    → mbcnt_of sb.sb_mb < 2 ^ 32
    → length sb.sb_mb < fuel
    → (sb' : SockBuf) × (flush fuel sb ≡ flushed sb') × IsEmpty sb'
unfolding flush
flush-IsEmpty zero sb h n small costly f = absurd (omega arith)
flush-IsEmpty (suc fuel) sb h n small costly f = elim (records-cases sb.sb_mb n) [
  | inl e ↦
      let h' = rw e at h in
      let c : sb.sb_cc ≡ 0 = omega arith in
      let b : sb.sb_mbcnt ≡ 0 = omega arith in
      let idle : (sb.sb_mbcnt == 0) ≡ true = rw b in
      let nothing : nothing_left sb ≡ true = rw (c, e) in (sb, rw (flush, idle, nothing), (e, c, b))
  | inr (some_left, fewer, less, n') ↦
      let l = length-data_of sb.sb_mb in
      let busy : (sb.sb_mbcnt == 0) ≡ false = ground arith in
      let whole : (if is_neg sb.sb_cc then 0 else sb.sb_cc) ≡ length (data_of sb.sb_mb) =
        ground arith in
      let (sb', d, (fl, fm, fn)) = sbdrop-all sb n' in
      let k = sbdrop-Counted sb (length (data_of sb.sb_mb)) h in
      let k' : Counted sb' = rw d at k in
      let q = sbdrop-Drops sb (length (data_of sb.sb_mb)) in
      let q' : Drops (data_of sb.sb_mb) (length (data_of sb.sb_mb)) (some sb') = rw d at q in
      let none_left : cc_of sb'.sb_mb ≡ 0 =
        sym (length-data_of sb'.sb_mb)
        ∙ ap length q'.1
        ∙ length-drop (length (data_of sb.sb_mb)) (data_of sb.sb_mb)
        ∙ omega arith in
      let (sb'', e, empty) =
        flush-IsEmpty fuel sb' k' fn (omega arith) (omega arith) (omega arith) in
      (sb'', rw (flush, busy, ap (λ len. sbdrop sb len) whole ∙ d) e, empty)
]

-- `sbflush` of a socket buffer that is not locked, with counts that agree with its records and do
-- not overflow, ends within a round for each record and one more. It does not panic, and leaves no
-- record and counts of 0.
pub sbflush-IsEmpty :
    (fuel : ℕ) (sb : SockBuf)
    → sb.locked ≡ false
    → Counted sb
    → NonEmpty sb.sb_mb
    → cc_of sb.sb_mb < 2 ^ 31
    → mbcnt_of sb.sb_mb < 2 ^ 32
    → length sb.sb_mb < fuel
    → (sb' : SockBuf) × (sbflush fuel sb ≡ flushed sb') × IsEmpty sb'
unfolding sbflush
sbflush-IsEmpty fuel sb free h n small costly f =
    let (sb', e, empty) = flush-IsEmpty fuel sb h n small costly f in
    (sb', ap (λ b. if b then panicked else flush fuel sb) free ∙ e, empty)
