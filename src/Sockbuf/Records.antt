-- ===== src/Sockbuf/Records.antt =====
-- The records that `sbappendrecord` and `sbinsertoob` of generic/kern/uipc_socket2.c make, and where
-- they stand.
use anp.Prelude.{
  ◌≡◌, refl, Bool, true, false, ◌||◌, some, List, [], ◌∷◌, ◌++◌, Bool-cases, inl, inr, sym, ap, ◌∙◌,
}
use mathlib.Core.Path.{subst}
use anp.Prelude.Word.{add32}
use anp.Mbuf.Chain.{Mbuf, m_len, bytes_of}
use anp.Sockbuf.Buffer.{SockBuf, sballoc}
use anp.Sockbuf.Append.{
  place, without_eor, sbcompress, pass_eor, new_record, sbappendrecord, is_oob, insert_behind_oob,
  sbinsertoob, has_eor,
}
use anp.Sockbuf.Counts.{place-Placed, Placing-cases}
use anp.Sockbuf.Contents.{new_record-bytes_of}

-- A record, not empty, whose mbufs are not marked with `M_EOR`, but for the last, which is if `e`.
abbrev pub EndsWith : Bool → List Mbuf → Type 0
EndsWith e [] = ⊥
EndsWith e (n ∷ []) = n.eor ≡ e
EndsWith e (n ∷ n₁ ∷ ns) = (n.eor ≡ false) × EndsWith e (n₁ ∷ ns)

EndsWith-cons :
    (e : Bool) (n : Mbuf) (ns : List Mbuf) → n.eor ≡ false → EndsWith e ns → EndsWith e (n ∷ ns)
EndsWith-cons e n [] f h = elim h [ ]
EndsWith-cons e n (n₁ ∷ ns) f h = (f, h)

or_assoc : (a b c : Bool) → (a || b) || c ≡ a || (b || c)
or_assoc true b c = refl
or_assoc false b c = refl

or_false : (a : Bool) → a || false ≡ a
or_false true = refl
or_false false = refl

sbcompress-EndsWith :
    (eor : Bool) (n : Mbuf) (ms : List Mbuf) (sb : SockBuf)
    → n.eor ≡ false
    → EndsWith (eor || has_eor ms) (sbcompress eor (some n) ms sb).0
unfolding sbcompress
sbcompress-EndsWith eor n [] sb f = ap (λ b. b || eor) f ∙ sym (or_false eor)
sbcompress-EndsWith eor n (m ∷ ms) sb f =
    let p = place-Placed (eor || m.eor) (some n) m ms in
    let a = or_assoc eor m.eor (has_eor ms) in
    elim (Placing-cases (place (eor || m.eor) (some n) m ms)) [
      | inl e ↦ rw (sbcompress, e, ← a) (sbcompress-EndsWith (eor || m.eor) n ms sb f)
      | inr (inl (n', e)) ↦
          let (n₀, en, t, g) = rw e at p in
          let same : n ≡ n₀ = cc in
          let f' : n'.eor ≡ false = ap (λ r. r.eor) g ∙ ap (λ r. r.eor) (sym same) ∙ f in
          rw (sbcompress, e, ← a)
            (sbcompress-EndsWith (eor || m.eor) n' ms
              (record sb { sb_cc = add32 sb.sb_cc (m_len m) }) f')
      | inr (inr e) ↦
          let rest = (sbcompress (eor || m.eor) (some (without_eor m)) ms (sballoc m sb)).0 in
          rw (sbcompress, e)
            (subst (λ b. EndsWith b (n ∷ rest)) a
              (EndsWith-cons (eor || m.eor || has_eor ms) n rest f
                (sbcompress-EndsWith (eor || m.eor) (without_eor m) ms (sballoc m sb) refl)))
    ]

pass_eor-eor :
    (m0 m : Mbuf) (ms : List Mbuf)
    → ((pass_eor m0 (m ∷ ms)).0.eor ≡ false)
      × (has_eor (pass_eor m0 (m ∷ ms)).1 ≡ has_eor (m0 ∷ m ∷ ms))
pass_eor-eor m0 m ms = elim (Bool-cases m0.eor) [
  | inl e ↦ rw (pass_eor, e) (refl, refl)
  | inr e ↦ rw (pass_eor, e) (refl, refl)
]

new_record-EndsWith :
    (m0 : Mbuf) (ms : List Mbuf) (sb : SockBuf)
    → EndsWith (has_eor (m0 ∷ ms)) (new_record m0 ms sb).0
unfolding new_record sbcompress
new_record-EndsWith m0 [] sb = refl
new_record-EndsWith m0 (m ∷ ms) sb =
    let (first, others) = pass_eor-eor m0 m ms in
    subst (λ b. EndsWith b (new_record m0 (m ∷ ms) sb).0) others
      (sbcompress-EndsWith false (pass_eor m0 (m ∷ ms)).0 (pass_eor m0 (m ∷ ms)).1 (sballoc m0 sb)
        first)

-- `sbappendrecord` makes one record behind the others, with the bytes of the chain. Only its last
-- mbuf can be marked with `M_EOR`: it is if any mbuf of the chain was.
pub sbappendrecord-EndsWith :
    (sb : SockBuf) (m0 : Mbuf) (ms : List Mbuf)
    → (r : List Mbuf) × ((sbappendrecord sb (m0 ∷ ms)).sb_mb ≡ sb.sb_mb ++ (r ∷ []))
      × (bytes_of r ≡ bytes_of (m0 ∷ ms))
      × EndsWith (has_eor (m0 ∷ ms)) r
unfolding sbappendrecord
sbappendrecord-EndsWith sb m0 ms =
    ((new_record m0 ms sb).0, refl, new_record-bytes_of m0 ms sb, new_record-EndsWith m0 ms sb)

-- All records of out-of-band data, and a first record that has none.
abbrev pub AllOob : List (List Mbuf) → Type 0
AllOob [] = Unit
AllOob (t ∷ ts) = (is_oob t ≡ true) × AllOob ts

abbrev pub NoOobFirst : List (List Mbuf) → Type 0
NoOobFirst [] = Unit
NoOobFirst (t ∷ ts) = is_oob t ≡ false

-- `r` stands behind the out-of-band records in front, and before the others.
abbrev pub BehindOob : List Mbuf → List (List Mbuf) → List (List Mbuf) → Type 0
BehindOob r ts ts' =
    (front : List (List Mbuf)) × (back : List (List Mbuf)) × (ts ≡ front ++ back)
    × (ts' ≡ front ++ (r ∷ back))
    × AllOob front
    × NoOobFirst back

insert_behind_oob-BehindOob :
    (r : List Mbuf) (ts : List (List Mbuf)) → BehindOob r ts (insert_behind_oob r ts)
unfolding insert_behind_oob
insert_behind_oob-BehindOob r [] = ([], [], refl, refl, tt, tt)
insert_behind_oob-BehindOob r (t ∷ ts) = elim (Bool-cases (is_oob t)) [
  | inl e ↦
      let (front, back, a, b, o, n) = insert_behind_oob-BehindOob r ts in
      rw (insert_behind_oob, e) (t ∷ front, back, ap (λ l. t ∷ l) a, ap (λ l. t ∷ l) b, (e, o), n)
  | inr e ↦ rw (insert_behind_oob, e) ([], t ∷ ts, refl, refl, tt, e)
]

-- `sbinsertoob` makes one record with the bytes of the chain, behind the out-of-band records at the
-- front of the socket buffer and before all others. Only its last mbuf can be marked with `M_EOR`:
-- it is if any mbuf of the chain was.
pub sbinsertoob-BehindOob :
    (sb : SockBuf) (m0 : Mbuf) (ms : List Mbuf)
    → (r : List Mbuf) × BehindOob r sb.sb_mb (sbinsertoob sb (m0 ∷ ms)).sb_mb
      × (bytes_of r ≡ bytes_of (m0 ∷ ms))
      × EndsWith (has_eor (m0 ∷ ms)) r
unfolding sbinsertoob
sbinsertoob-BehindOob sb m0 ms = (
  (new_record m0 ms sb).0,
  insert_behind_oob-BehindOob (new_record m0 ms sb).0 sb.sb_mb,
  new_record-bytes_of m0 ms sb,
  new_record-EndsWith m0 ms sb,
)
