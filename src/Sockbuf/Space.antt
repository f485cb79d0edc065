-- ===== src/Sockbuf/Space.antt =====
-- `sbappendaddr` and `sbappendcontrol` of generic/kern/uipc_socket2.c against `sb_hiwat`.
use anp.Prelude.{
  ℕ, ◌+◌, ◌^◌, ◌≤◌, ◌<◌, ◌≡◌, refl, false, ◌||◌, some, List, [], ◌∷◌, ◌++◌, arith, length, ltb,
  ◌==◌, Bool-cases, Option-cases, inl, inr, sym, ◌∙◌,
}
use anp.Prelude.Int.{ℤ, eq_of_parts, pos, ltb_ℤ, ◌+ℤ◌, +ℤ_parts}
use anp.Mbuf.Chain.{Mbuf, total, mlen, HeaderAgrees}
use anp.Sockbuf.Buffer.{SockBuf, sbspace}
use anp.Sockbuf.Append.{added, sbappendaddr, sbappendcontrol, packet_len, name_mbuf, add_record}
use anp.Sockbuf.Counts.{cc_of, total-append}
use anp.Sockbuf.Growing.{Counted, cc_of-append}

-- The limits are positive `int`s, as `sbreserve` sets them.
abbrev pub Bounded : SockBuf → Type 0
Bounded sb = (sb.sb_hiwat < 2 ^ 31) × (sb.sb_cc < 2 ^ 31)

sbspace-enough :
    (sb : SockBuf) (n : ℕ)
    → Bounded sb
    → ltb_ℤ (sbspace sb) (pos n) ≡ false
    → sb.sb_cc + n ≤ sb.sb_hiwat
unfolding sbspace
sbspace-enough sb n b h = ground arith

-- The record is there, behind the others, and the bytes are within the limit.
abbrev pub Fitted : SockBuf → List Mbuf → SockBuf → Type 0
Fitted sb r sb' = (sb'.sb_mb ≡ sb.sb_mb ++ (r ∷ [])) × (cc_of sb'.sb_mb ≤ sb.sb_hiwat)

add_record-Fitted :
    (sb : SockBuf) (r : List Mbuf)
    → Counted sb
    → cc_of sb.sb_mb < 2 ^ 31
    → sb.sb_cc + total r ≤ sb.sb_hiwat
    → Fitted sb r (add_record sb r)
add_record-Fitted sb r h small fits = let c = cc_of-append sb.sb_mb r in (refl, omega arith)

packet_len-total :
    (m0 : List Mbuf) (len : ℤ) → HeaderAgrees m0 → packet_len m0 ≡ some len → len ≡ pos (total m0)
packet_len-total [] len h e = cc
packet_len-total (m ∷ ms) len h e = elim (Bool-cases m.pkthdr) [
  | inl t ↦ let e' = rw t at e in let k : m.len ≡ len = cc in sym k ∙ h t
  | inr f ↦ let e' = rw f at e in absurd cc
]

-- What `sbappendcontrol` adds to a socket buffer, with counts that agree with its records and do
-- not overflow an `int`, is one record: the control chain and the data. The bytes stay within
-- `sb_hiwat`.
pub sbappendcontrol-Fitted :
    (sb sb' : SockBuf) (m0 control : List Mbuf)
    → Counted sb
    → sb.sb_hiwat < 2 ^ 31
    → cc_of sb.sb_mb < 2 ^ 31
    → sbappendcontrol sb m0 control ≡ added sb'
    → Fitted sb (control ++ m0) sb'
unfolding sbappendcontrol
sbappendcontrol-Fitted sb sb' m0 [] h hi small e = absurd cc
sbappendcontrol-Fitted sb sb' m0 (c ∷ control) h hi small e =
    elim (Bool-cases (ltb_ℤ (sbspace sb) (pos (total (c ∷ control) + total m0)))) [
      | inl full ↦ let e' = rw full at e in absurd cc
      | inr fits ↦
          let e' = rw fits at e in
          let n = sbspace-enough sb (total (c ∷ control) + total m0) (hi, omega arith) fits in
          let t = total-append (c ∷ control) m0 in
          let s : add_record sb ((c ∷ control) ++ m0) ≡ sb' = cc in
          rw (← s) (add_record-Fitted sb ((c ∷ control) ++ m0) h small (omega arith))
    ]

pos-add : (a b : ℕ) → pos a +ℤ pos b ≡ pos (a + b)
pos-add a b = eq_of_parts (pos a +ℤ pos b) (pos (a + b)) (omega (arith, +ℤ_parts (pos a) (pos b)))

-- What `sbappendaddr` adds to a socket buffer, with counts that agree with its records and do not
-- overflow an `int`, is one record: the address, the control chain and the data, whose packet
-- header, if it has one, tells its length. The address fits into its mbuf, and the bytes stay within
-- `sb_hiwat`.
pub sbappendaddr-Fitted :
    (mbufs : ℕ) (sb sb' : SockBuf) (asa : List ℕ) (m0 control : List Mbuf)
    → Counted sb
    → sb.sb_hiwat < 2 ^ 31
    → cc_of sb.sb_mb < 2 ^ 31
    → HeaderAgrees m0
    → sbappendaddr mbufs sb asa m0 control ≡ added sb'
    → Fitted sb (name_mbuf asa ∷ control ++ m0) sb' × (length asa ≤ mlen)
unfolding sbappendaddr
sbappendaddr-Fitted mbufs sb sb' asa m0 control h hi small agrees e =
    elim (Option-cases (packet_len m0)) [
      | inl bare ↦ let e' = rw (sbappendaddr, bare) at e in absurd cc
      | inr (len, headed) ↦
          let l : pos (length asa + total control) +ℤ len
              ≡ pos (length asa + total control + total m0) =
            rw (packet_len-total m0 len agrees headed)
              (pos-add (length asa + total control) (total m0)) in
          let e₁ = rw (sbappendaddr, headed, l) at e in
          elim (Bool-cases (ltb_ℤ (sbspace sb) (pos (length asa + total control + total m0)))) [
            | inl full ↦ let e' = rw full at e₁ in absurd cc
            | inr fits ↦ elim (Bool-cases (ltb mlen (length asa) || mbufs == 0)) [
              | inl bad ↦ let e' = rw (fits, bad) at e₁ in absurd cc
              | inr good ↦
                  let e' = rw (fits, good) at e₁ in
                  let n =
                    sbspace-enough sb (length asa + total control + total m0) (hi, omega arith)
                      fits in
                  let t = total-append control m0 in
                  let s : add_record sb (name_mbuf asa ∷ control ++ m0) ≡ sb' = cc in
                  (
                    rw (← s) (
                        add_record-Fitted sb (name_mbuf asa ∷ control ++ m0) h small (omega arith)),
                    ground arith,
                  )
            ]
          ]
    ]
