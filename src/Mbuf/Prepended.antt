-- ===== src/Mbuf/Prepended.antt =====
-- What `M_PREPEND` of generic/sys/mbuf.h, with `m_prepend` of generic/kern/uipc_mbuf.c, makes of a
-- packet.
use anp.Prelude.{
  ℕ, ◌+◌, ◌-◌, ◌≤◌, ◌≡◌, refl, false, List, ◌∷◌, ◌++◌, arith, length, length-append, append_assoc,
  leb, ◌==◌, Bool-cases, inl, inr, ap, ◌∙◌,
}
use anp.Prelude.Int.{ℤ, pos, ◌+ℤ◌, +ℤ_parts, eq_of_parts}
use anp.Mbuf.Chain.{Mbuf, m_len, is_ext, mlen, mhlen, bytes_of, total, Fits, HeaderAgrees}
use anp.Mbuf.Build.{Built, chain, null, panic, has_header, m_prepend, leading_space, prepend}

-- The bytes stand in front, inside the storage; a packet header stays first and tells the length.
abbrev pub IsPrepended : Mbuf → List Mbuf → List ℕ → ℕ → Built → Type 0
IsPrepended m ms bytes mbufs (chain ns) =
    (bytes_of ns ≡ bytes ++ bytes_of (m ∷ ms))
    × Fits ns
    × HeaderAgrees ns
    × (has_header ns ≡ m.pkthdr)
IsPrepended m ms bytes mbufs null = mbufs ≡ 0
IsPrepended m ms bytes mbufs panic = ⊥

pos-add : (a : ℤ) (n k : ℕ) → a ≡ pos k → a +ℤ pos n ≡ pos (n + k)
pos-add a n k e =
    ap (λ b. b +ℤ pos n) e
    ∙ eq_of_parts (pos k +ℤ pos n) (pos (n + k)) (omega (arith, +ℤ_parts (pos k) (pos n)))

-- `M_PREPEND` of at most `MHLEN` bytes, to a chain whose data lie in their storage and whose packet
-- header, if there is one, tells its length, puts the bytes in front. The data of the result lie in
-- their storage, and the header, if there was one, stands in its first mbuf and tells its length.
-- It fails only if no mbuf is left.
pub prepend-IsPrepended :
    (mbufs : ℕ) (m : Mbuf) (ms : List Mbuf) (bytes : List ℕ)
    → Fits (m ∷ ms)
    → HeaderAgrees (m ∷ ms)
    → length bytes ≤ mhlen
    → IsPrepended m ms bytes mbufs (prepend mbufs m ms bytes)
unfolding prepend m_prepend
prepend-IsPrepended mbufs m ms bytes fit agrees short =
    elim (Bool-cases (leb (length bytes) (leading_space m))) [
      | inl room ↦ elim (Bool-cases m.pkthdr) [
        | inl packet ↦
            let l = length-append bytes m.contents in
            let fit' = rw packet at fit in
            let told =
              pos-add m.len (length bytes) (m_len m + total ms) (agrees packet)
              ∙ ap pos (omega arith) in
            let inside : is_ext m ≡ false
                → (8 ≤ m.offset - length bytes)
                  × (m.offset - length bytes + length (bytes ++ m.contents) ≤ mlen) =
              λ own.
                let room' = rw (own, packet) at room in
                let h = fit'.0 own in (ground arith, ground arith) in
            rw (prepend, room, packet)
              (append_assoc bytes m.contents (bytes_of ms), (inside, fit.1), (λ _. told), refl)
        | inr bare ↦
            let l = length-append bytes m.contents in
            let inside : is_ext m ≡ false
                → (0 ≤ m.offset - length bytes)
                  × (m.offset - length bytes + length (bytes ++ m.contents) ≤ mlen) =
              λ own.
                let room' = rw (own, bare) at room in
                let h = fit.0 own in (ground arith, ground arith) in
            rw (prepend, room, bare)
              (append_assoc bytes m.contents (bytes_of ms), (inside, fit.1), (λ e. absurd cc), refl)
      ]
      | inr full ↦ elim (Bool-cases (mbufs == 0)) [
        | inl out ↦ rw (prepend, full, m_prepend, out) (ground arith)
        | inr left ↦ elim (Bool-cases m.pkthdr) [
          | inl packet ↦
              let told = pos-add m.len (length bytes) (m_len m + total ms) (agrees packet) in
              rw (prepend, full, m_prepend, left, packet)
                (
                  refl,
                  (
                    λ own. (ground arith, ground arith),
                    (λ own. (ground arith, (fit.0 own).1), fit.1),
                  ),
                  (λ _. told),
                  refl,
                )
          | inr bare ↦
              rw (prepend, full, m_prepend, left, bare)
                (
                  refl,
                  (
                    λ own. (ground arith, ground arith),
                    (λ own. (ground arith, (fit.0 own).1), fit.1),
                  ),
                  (λ e. absurd cc),
                  refl,
                )
        ]
      ]
    ]
