-- ===== src/Mbuf/Copy.antt =====
-- What `m_copydata` and `m_cat` of generic/kern/uipc_mbuf.c do with the bytes of a chain.
use Prim.Native.Nat.{min}
use anp.Prelude.{
  ℕ, zero, suc, ◌+◌, ◌-◌, ◌≤◌, ◌≡◌, refl, true, false, ◌||◌, none, some, List, [], ◌∷◌, ◌++◌, arith,
  length, take, drop, ltb, leb, if◌then◌else◌, Bool-cases, inl, inr, ◌∙◌, append_assoc, leb→le,
  le→leb, lt→leb_false, leb_false→lt, drop-append_left, drop-append_right, take-append_left,
  take-append_right, take_all, length-drop, length-append, append-nil,
}
use native.Mathlib.Decide.{dec_le}
use anp.Prelude.{sym, ◌<◌}
use anp.Mbuf.Chain.{Mbuf, m_len, is_ext, bytes_of, total, mlen, Fits}
use anp.Mbuf.Trim.{skip, copy_bytes, m_copydata, cat_onto, m_cat}

-- The search of `m_copydata` stands in front of byte `off`, or past the chain.
abbrev pub Within : List Mbuf → ℕ → Type 0
Within [] off = off ≡ 0
Within (m ∷ ms) off = off ≤ m_len m

pub skip_lem :
    (ms : List Mbuf) (off : ℕ)
    → off ≤ total ms
    → (ms' : List Mbuf) × (off' : ℕ) × (skip ms off ≡ some (ms', off'))
      × Within ms' off'
      × (drop off' (bytes_of ms') ≡ drop off (bytes_of ms))
      × (total ms' + off ≡ total ms + off')
      × (length ms' ≤ length ms)
unfolding skip
skip_lem [] zero h = ([], 0, refl, refl, refl, omega arith, omega arith)
skip_lem (m ∷ ms) zero h = (m ∷ ms, 0, refl, omega arith, refl, omega arith, omega arith)
skip_lem [] (suc off) h = absurd (omega arith)
skip_lem (m ∷ ms) (suc off) h = elim (Bool-cases (ltb (suc off) (m_len m))) [
  | inl here ↦ (m ∷ ms, suc off, rw here, ground arith, refl, omega arith, omega arith)
  | inr on ↦
      let g : m_len m ≤ suc off = ground arith in
      let (ms', off', e, w, d, t, l) = skip_lem ms (suc off - m_len m) (omega arith) in
      (
        ms',
        off',
        rw on e,
        w,
        d ∙ sym (drop-append_right (suc off) m.contents (bytes_of ms) g),
        omega arith,
        omega arith,
      )
]

pub skip_past : (ms : List Mbuf) (off : ℕ) → total ms < off → skip ms off ≡ none
unfolding skip
skip_past ms zero h = absurd (omega arith)
skip_past [] (suc off) h = refl
skip_past (m ∷ ms) (suc off) h =
    let on : ltb (suc off) (m_len m) ≡ false = ground arith in
    rw on (skip_past ms (suc off - m_len m) (omega arith))

pub Within-zero : (ms : List Mbuf) → Within ms 0
Within-zero [] = refl
Within-zero (m ∷ ms) = omega arith

copy_bytes_lem :
    (ms : List Mbuf) (off len : ℕ)
    → Within ms off
    → copy_bytes ms off len
      ≡ (if leb (off + len) (total ms) then some (take len (drop off (bytes_of ms))) else none)
unfolding copy_bytes
copy_bytes_lem [] off zero w = rw w
copy_bytes_lem (m ∷ ms) off zero w =
    let t : leb (off + 0) (m_len m + total ms) ≡ true = ground arith in rw t
copy_bytes_lem [] off (suc len) w = let t : leb (off + suc len) 0 ≡ false = ground arith in rw t
copy_bytes_lem (m ∷ ms) off (suc len) w = elim (dec_le (suc len) (m_len m - off)) [
  | yes part ↦
      let c : min (m_len m - off) (suc len) ≡ suc len = omega arith in
      let z : suc len - suc len ≡ 0 = omega arith in
      let t : leb (off + suc len) (m_len m + total ms) ≡ true = ground arith in
      let n : suc len ≤ length (drop off m.contents) = omega (arith, length-drop off m.contents) in
      rw (
        copy_bytes,
        c,
        z,
        t,
        append-nil,
        drop-append_left off m.contents (bytes_of ms) w,
        take-append_left (suc len) (drop off m.contents) (bytes_of ms) n,
        c,
      )
  | no all ↦
      let c : min (m_len m - off) (suc len) ≡ m_len m - off = omega arith in
      let n : length (drop off m.contents) ≡ m_len m - off = length-drop off m.contents in
      let ih = copy_bytes_lem ms 0 (suc len - (m_len m - off)) (Within-zero ms) in
      let k : take (m_len m - off) (drop off m.contents) ≡ drop off m.contents =
        take_all (m_len m - off) (drop off m.contents) (omega arith) in
      elim (Bool-cases (leb (off + suc len) (m_len m + total ms))) [
        | inl fits ↦
            let h = leb→le (off + suc len) (m_len m + total ms) fits in
            let t = le→leb (0 + (suc len - (m_len m - off))) (total ms) (omega arith) in
            rw (
              copy_bytes,
              c,
              ih,
              t,
              fits,
              c,
              k,
              drop-append_left off m.contents (bytes_of ms) w,
              take-append_right (suc len) (drop off m.contents) (bytes_of ms) (omega arith),
              n,
            )
        | inr short ↦
            let h = leb_false→lt (off + suc len) (m_len m + total ms) short in
            let t = lt→leb_false (0 + (suc len - (m_len m - off))) (total ms) (omega arith) in
            rw (copy_bytes, c, ih, t, short)
      ]
]

-- `m_copydata` gives the `len` bytes of the chain from byte `off` on, where the chain has them, and
-- panics exactly where it does not.
pub m_copydata_lem :
    (ms : List Mbuf) (off len : ℕ)
    → m_copydata ms off len
      ≡ (if leb (off + len) (total ms) then some (take len (drop off (bytes_of ms))) else none)
unfolding m_copydata
m_copydata_lem ms off len = elim (dec_le off (total ms)) [
  | yes h ↦
      let (ms', off', e, w, d, t, l) = skip_lem ms off h in
      let same : leb (off' + len) (total ms') ≡ leb (off + len) (total ms) = ground arith in
      rw (m_copydata, e, copy_bytes_lem ms' off' len w, d, same)
  | no h ↦
      let t : leb (off + len) (total ms) ≡ false = ground arith in
      rw (m_copydata, skip_past ms off (omega arith), t)
]

cat_onto-bytes_of :
    (m : Mbuf) (ns : List Mbuf) → bytes_of (cat_onto m ns) ≡ m.contents ++ bytes_of ns
unfolding cat_onto
cat_onto-bytes_of m [] = refl
cat_onto-bytes_of m (n ∷ ns) =
    elim (Bool-cases (is_ext m || leb mlen (m.offset + m_len m + m_len n))) [
      | inl join ↦ rw join
      | inr room ↦ rw (
        room,
        cat_onto-bytes_of (record m { contents = m.contents ++ n.contents }) ns,
        append_assoc,
      )
    ]

cat_onto-Fits : (m : Mbuf) (ns : List Mbuf) → Fits (m ∷ []) → Fits ns → Fits (cat_onto m ns)
unfolding cat_onto
cat_onto-Fits m [] f g = f
cat_onto-Fits m (n ∷ ns) f g =
    elim (Bool-cases (is_ext m || leb mlen (m.offset + m_len m + m_len n))) [
      | inl join ↦ rw join (f.0, g)
      | inr room ↦ rw room (
          cat_onto-Fits (record m { contents = m.contents ++ n.contents }) ns
            (λ e. let h = f.0 e in (h.0, ground (arith, length-append m.contents n.contents)), tt)
            g.1)
    ]

-- For chains whose data lie in their storage, `m_cat` joins the bytes of the two chains, and writes
-- inside the storage of its mbufs.
pub m_cat-bytes_of :
    (m : Mbuf) (ms ns : List Mbuf)
    → Fits (m ∷ ms)
    → Fits ns
    → (bytes_of (m_cat m ms ns) ≡ bytes_of (m ∷ ms) ++ bytes_of ns) × Fits (m_cat m ms ns)
unfolding m_cat
m_cat-bytes_of m [] ns f g = (rw append-nil (cat_onto-bytes_of m ns), cat_onto-Fits m ns f g)
m_cat-bytes_of m (m' ∷ ms) ns f g =
    let (b, h) = m_cat-bytes_of m' ms ns f.1 g in
    (rw b (sym (append_assoc m.contents (bytes_of (m' ∷ ms)) (bytes_of ns))), (f.0, h))
