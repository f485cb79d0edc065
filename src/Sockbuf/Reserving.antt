-- ===== src/Sockbuf/Reserving.antt =====
-- What `soreserve` of generic/kern/uipc_socket2.c leaves of both buffers of a socket.
use Prim.Native.Nat.{min}
use anp.Prelude.{
  ℕ, ◌+◌, ◌/◌, ◌≤◌, ◌<◌, ◌^◌, ◌≡◌, ◌⊎◌, refl, false, length, none, some, ◌==◌, ltb, Bool-cases, inl,
  inr, if◌then◌else◌, arith,
}
use anp.Prelude.Word.{mul32}
use anp.Mbuf.Chain.{msize, mclbytes}
use anp.Sockbuf.Buffer.{SockBuf, sbreserve}
use anp.Sockbuf.Counts.{cc_of, mbcnt_of}
use anp.Sockbuf.Growing.{Counted}
use anp.Sockbuf.Flushed.{IsEmpty, NonEmpty, sbflush-IsEmpty}
use anp.Sockbuf.Reserve.{
  sbrelease, Reserved, reserved, enobufs, not_released, set_lowat_rcv, set_lowat_snd, soreserve,
}

-- The largest reservation.
abbrev pub largest : ℕ → ℕ
largest sb_max = mul32 sb_max mclbytes / (msize + mclbytes)

-- A buffer with the limit asked for, memory within `sb_max`, a low water mark that it can reach, and
-- its data.
abbrev pub Reserve : ℕ → ℕ → SockBuf → SockBuf → Type 0
Reserve sb_max cc' sb sb' =
    (cc' ≤ largest sb_max)
    × (sb'.sb_hiwat ≡ cc')
    × (sb'.sb_mbmax ≤ sb_max)
    × (0 < sb'.sb_lowat)
    × (sb'.sb_lowat ≤ cc')
    × (sb'.sb_mb ≡ sb.sb_mb)
    × (sb'.sb_cc ≡ sb.sb_cc)

-- A failure leaves the receive buffer as it was. It leaves the send buffer as it was too, if the
-- failure is its own, and else empty and without limits.
abbrev pub Refused : ℕ → SockBuf → ℕ → ℕ → SockBuf → Type 0
Refused sb_max snd sndcc rcvcc snd' =
    ((largest sb_max < sndcc) × (snd' ≡ snd))
    ⊎ ((largest sb_max < rcvcc) × IsEmpty snd' × (snd'.sb_hiwat ≡ 0) × (snd'.sb_mbmax ≡ 0))

abbrev pub IsReserved : ℕ → SockBuf → SockBuf → ℕ → ℕ → Reserved → Type 0
IsReserved sb_max snd rcv sndcc rcvcc (reserved snd' rcv') =
    Reserve sb_max sndcc snd snd' × Reserve sb_max rcvcc rcv rcv'
IsReserved sb_max snd rcv sndcc rcvcc (enobufs snd' rcv') =
    Refused sb_max snd sndcc rcvcc snd' × (rcv' ≡ rcv)
IsReserved sb_max snd rcv sndcc rcvcc not_released = ⊥

abbrev limited : ℕ → SockBuf → ℕ → SockBuf
limited sb_max sb cc' = record sb {
  sb_hiwat = cc';
  sb_mbmax = min (mul32 cc' 2) sb_max;
  sb_lowat = if ltb cc' sb.sb_lowat then cc' else sb.sb_lowat;
}

sbreserve-cases :
    (sb_max cc' : ℕ) (sb : SockBuf)
    → ((largest sb_max < cc') × (sbreserve sb_max sb cc' ≡ none))
      ⊎ ((cc' ≤ largest sb_max) × (sbreserve sb_max sb cc' ≡ some (limited sb_max sb cc')))
unfolding sbreserve
sbreserve-cases sb_max cc' sb = elim (Bool-cases (ltb (largest sb_max) cc')) [
  | inl full ↦ inl (ground arith, rw full)
  | inr fits ↦ inr (ground arith, rw fits)
]

snd-Reserve :
    (sb_max cc' : ℕ) (sb : SockBuf)
    → 0 < cc'
    → cc' ≤ largest sb_max
    → Reserve sb_max cc' sb (set_lowat_snd (limited sb_max sb cc'))
snd-Reserve sb_max cc' sb p h = (h, refl, ground arith, ground arith, ground arith, refl, refl)

rcv-Reserve :
    (sb_max cc' : ℕ) (sb : SockBuf)
    → 0 < cc'
    → cc' ≤ largest sb_max
    → Reserve sb_max cc' sb (set_lowat_rcv (limited sb_max sb cc'))
rcv-Reserve sb_max cc' sb p h = elim (Bool-cases ((limited sb_max sb cc').sb_lowat == 0)) [
  | inl z ↦ rw z (h, refl, ground arith, ground arith, ground arith, refl, refl)
  | inr n ↦ rw n (h, refl, ground arith, ground arith, ground arith, refl, refl)
]

-- For limits other than 0, a send buffer that is not locked, with counts that agree with its records
-- and do not overflow, and fuel for its records, `soreserve` ends. If it succeeds, both limits are
-- those asked for, the memory of each is at most `sb_max`, the low water marks are above 0 and
-- within the limits, and the data stay. It fails only if a limit is too large, leaves the receive
-- buffer as it was, and the send buffer too if its limit is the one that is too large; if it is that
-- of the receive buffer, the send buffer is left empty and without limits.
pub soreserve-IsReserved :
    (fuel sb_max : ℕ) (snd rcv : SockBuf) (sndcc rcvcc : ℕ)
    → 0 < sndcc
    → 0 < rcvcc
    → snd.locked ≡ false
    → Counted snd
    → NonEmpty snd.sb_mb
    → cc_of snd.sb_mb < 2 ^ 31
    → mbcnt_of snd.sb_mb < 2 ^ 32
    → length snd.sb_mb < fuel
    → IsReserved sb_max snd rcv sndcc rcvcc (soreserve fuel sb_max snd rcv sndcc rcvcc)
unfolding soreserve sbrelease
soreserve-IsReserved fuel sb_max snd rcv sndcc rcvcc ps pr free h n small costly f =
    elim (sbreserve-cases sb_max sndcc snd) [
      | inl (big, e) ↦ rw (soreserve, e) (inl (big, refl), refl)
      | inr (fits, e) ↦ elim (sbreserve-cases sb_max rcvcc rcv) [
        | inr (fits', e') ↦
            rw (soreserve, e, e')
              (snd-Reserve sb_max sndcc snd ps fits, rcv-Reserve sb_max rcvcc rcv pr fits')
        | inl (big, e') ↦
            let (sb', k, empty) =
              sbflush-IsEmpty fuel (limited sb_max snd sndcc) free h n small costly f in
            rw (soreserve, e, e', sbrelease, k) (inr (big, empty, refl, refl), refl)
      ]
    ]
