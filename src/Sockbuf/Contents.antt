-- ===== src/Sockbuf/Contents.antt =====
-- The bytes of a socket buffer, and what the operations of generic/kern/uipc_socket2.c do to them.
use anp.Prelude.{
  ℕ, ◌≡◌, refl, Bool, false, ◌||◌, Option, none, some, List, [], ◌∷◌, ◌++◌, arith, length,
  Bool-cases, inl, inr, sym, ap, ◌∙◌, append_assoc, append-nil,
}
use anp.Mbuf.Chain.{Mbuf, m_len, bytes_of, bytes_of-append}
use anp.Sockbuf.Buffer.{SockBuf, sballoc, put_front}
use anp.Sockbuf.Append.{
  place, chain_of, without_eor, sbcompress, pass_eor, new_record, sbappendrecord, last_apart,
  append_last, sbappend, last_has_eor,
}
use anp.Sockbuf.Counts.{place-Placed, Placing-cases}
use anp.Prelude.Word.{add32}

-- The bytes of all records.
abbrev pub data_of : List (List Mbuf) → List ℕ
data_of [] = []
data_of (r ∷ rs) = bytes_of r ++ data_of rs

pub no_bytes : (bs : List ℕ) → length bs ≡ 0 → bs ≡ []
no_bytes [] h = refl
no_bytes (b ∷ bs) h = absurd (omega arith)

pub sbcompress-bytes_of :
    (eor : Bool) (n : Option Mbuf) (ms : List Mbuf) (sb : SockBuf)
    → bytes_of (sbcompress eor n ms sb).0 ≡ bytes_of (chain_of n) ++ bytes_of ms
unfolding sbcompress
sbcompress-bytes_of eor none [] sb = refl
sbcompress-bytes_of eor (some n) [] sb = rw (append-nil, append-nil)
sbcompress-bytes_of eor n (m ∷ ms) sb =
    let p = place-Placed (eor || m.eor) n m ms in
    elim (Placing-cases (place (eor || m.eor) n m ms)) [
      | inl e ↦
          let z = no_bytes m.contents (rw e at p) in
          rw (sbcompress, e, z) (sbcompress-bytes_of (eor || m.eor) n ms sb)
      | inr (inl (n', e)) ↦
          let (n₀, en, t, g) = rw e at p in
          let c : n'.contents ≡ n₀.contents ++ m.contents = rw g in
          rw (sbcompress, e, en)
            (sbcompress-bytes_of (eor || m.eor) (some n') ms
                (record sb { sb_cc = add32 sb.sb_cc (m_len m) })
              ∙ rw (append-nil, c, append-nil, append_assoc))
      | inr (inr e) ↦ rw (
        sbcompress,
        e,
        bytes_of-append (chain_of n)
            (sbcompress (eor || m.eor) (some (without_eor m)) ms (sballoc m sb)).0,
        sbcompress-bytes_of (eor || m.eor) (some (without_eor m)) ms (sballoc m sb),
        append-nil m.contents,
      )
    ]

pass_eor-bytes_of :
    (m0 : Mbuf) (ms : List Mbuf)
    → (pass_eor m0 ms).0.contents ++ bytes_of (pass_eor m0 ms).1 ≡ m0.contents ++ bytes_of ms
pass_eor-bytes_of m0 [] = refl
pass_eor-bytes_of m0 (m ∷ ms) = elim (Bool-cases m0.eor) [
  | inl e ↦ rw (pass_eor, e)
  | inr e ↦ rw (pass_eor, e)
]

pub new_record-bytes_of :
    (m0 : Mbuf) (ms : List Mbuf) (sb : SockBuf)
    → bytes_of (new_record m0 ms sb).0 ≡ m0.contents ++ bytes_of ms
unfolding new_record
new_record-bytes_of m0 ms sb =
    sbcompress-bytes_of false (some (pass_eor m0 ms).0) (pass_eor m0 ms).1 (sballoc m0 sb)
    ∙ rw (append-nil) (pass_eor-bytes_of m0 ms)

data_of-append :
    (a : List (List Mbuf)) (r : List Mbuf) → data_of (a ++ (r ∷ [])) ≡ data_of a ++ bytes_of r
data_of-append [] r = rw append-nil
data_of-append (t ∷ a) r = rw (data_of-append a r, append_assoc)

pub sbappendrecord-data_of :
    (sb : SockBuf) (ms : List Mbuf)
    → data_of (sbappendrecord sb ms).sb_mb ≡ data_of sb.sb_mb ++ bytes_of ms
unfolding sbappendrecord
sbappendrecord-data_of sb [] = rw append-nil
sbappendrecord-data_of sb (m0 ∷ ms) =
    rw (data_of-append sb.sb_mb (new_record m0 ms sb).0, new_record-bytes_of m0 ms sb)

pub put_front-data_of :
    (r : List Mbuf) (ts : List (List Mbuf)) → data_of (put_front r ts) ≡ bytes_of r ++ data_of ts
put_front-data_of [] ts = refl
put_front-data_of (m ∷ ms) ts = refl

last_apart-bytes_of :
    (n : Mbuf) (ns : List Mbuf)
    → bytes_of (last_apart n ns).0 ++ (last_apart n ns).1.contents ≡ n.contents ++ bytes_of ns
last_apart-bytes_of n [] = rw append-nil
last_apart-bytes_of n (n₁ ∷ ns) = rw (append_assoc, last_apart-bytes_of n₁ ns)

append_last-data_of :
    (ts : List (List Mbuf)) (ms : List Mbuf) (sb : SockBuf)
    → data_of (append_last ts ms sb).0 ≡ data_of ts ++ bytes_of ms
unfolding append_last
append_last-data_of [] ms sb =
    put_front-data_of (sbcompress false none ms sb).0 []
    ∙ rw append-nil (sbcompress-bytes_of false none ms sb)
append_last-data_of ([] ∷ []) ms sb =
    put_front-data_of (sbcompress false none ms sb).0 []
    ∙ rw append-nil (sbcompress-bytes_of false none ms sb)
append_last-data_of ((n ∷ ns) ∷ []) ms sb =
    let front = (last_apart n ns).0 in
    let last = (last_apart n ns).1 in
    let r = (sbcompress false (some last) ms sb).0 in
    append-nil (bytes_of (front ++ r))
    ∙ bytes_of-append front r
    ∙ ap (λ bs. bytes_of front ++ bs) (sbcompress-bytes_of false (some last) ms sb)
    ∙ rw (append-nil, append-nil, ← last_apart-bytes_of n ns, append_assoc)
append_last-data_of (t ∷ t₁ ∷ ts) ms sb =
    ap (λ bs. bytes_of t ++ bs) (append_last-data_of (t₁ ∷ ts) ms sb)
    ∙ sym (append_assoc (bytes_of t) (data_of (t₁ ∷ ts)) (bytes_of ms))

-- `sbappend` and `sbappendrecord` put the bytes of the chain behind those of the socket buffer.
pub sbappend-data_of :
    (sb : SockBuf) (ms : List Mbuf)
    → (data_of (sbappend sb ms).sb_mb ≡ data_of sb.sb_mb ++ bytes_of ms)
      × (data_of (sbappendrecord sb ms).sb_mb ≡ data_of sb.sb_mb ++ bytes_of ms)
unfolding sbappend
sbappend-data_of sb [] = (rw append-nil, sbappendrecord-data_of sb [])
sbappend-data_of sb (m ∷ ms) = elim (Bool-cases (last_has_eor sb.sb_mb)) [
  | inl e ↦
      rw (sbappend, e) (sbappendrecord-data_of sb (m ∷ ms), sbappendrecord-data_of sb (m ∷ ms))
  | inr e ↦
      rw (sbappend, e)
        (append_last-data_of sb.sb_mb (m ∷ ms) sb, sbappendrecord-data_of sb (m ∷ ms))
]
