-- ===== src/Sockbuf/Reserve.antt =====
-- `soreserve` and `sbrelease` of generic/kern/uipc_socket2.c, over `sbreserve`.
use anp.Prelude.{ℕ, Option, none, some, ◌==◌, ltb, if◌then◌else◌}
use anp.Mbuf.Chain.{mclbytes}
use anp.Sockbuf.Buffer.{SockBuf, sbreserve}
use anp.Sockbuf.Drop.{Flushed, flushed, panicked, out_of_fuel, sbflush}

unfoldable pub sbrelease : ℕ → SockBuf → Flushed
sbrelease fuel sb = elim (sbflush fuel sb) [
  | flushed sb' ↦ flushed (record sb' { sb_hiwat = 0; sb_mbmax = 0 })
  | panicked ↦ panicked
  | out_of_fuel ↦ out_of_fuel
]

-- The result 0 or `ENOBUFS`, with the send and the receive buffer.
pub data Reserved : Type 0 where
  reserved : SockBuf → SockBuf → Reserved
  enobufs : SockBuf → SockBuf → Reserved
  not_released : Reserved

-- The low water marks of the receive and the send buffer.
abbrev pub set_lowat_rcv : SockBuf → SockBuf
set_lowat_rcv rcv = if rcv.sb_lowat == 0 then record rcv { sb_lowat = 1 } else rcv

abbrev pub set_lowat_snd : SockBuf → SockBuf
set_lowat_snd snd =
    let low = if snd.sb_lowat == 0 then mclbytes else snd.sb_lowat in
    record snd { sb_lowat = if ltb snd.sb_hiwat low then snd.sb_hiwat else low }

abbrev pub released : SockBuf → Flushed → Reserved
released rcv (flushed snd) = enobufs snd rcv
released rcv panicked = not_released
released rcv out_of_fuel = not_released

abbrev pub reserve_rcv : ℕ → SockBuf → SockBuf → Option SockBuf → Reserved
reserve_rcv fuel snd rcv none = released rcv (sbrelease fuel snd)
reserve_rcv fuel snd rcv (some rcv') = reserved (set_lowat_snd snd) (set_lowat_rcv rcv')

unfoldable pub soreserve : ℕ → ℕ → SockBuf → SockBuf → ℕ → ℕ → Reserved
unfolding sbrelease
soreserve fuel sb_max snd rcv sndcc rcvcc = elim (sbreserve sb_max snd sndcc) [
  | none ↦ enobufs snd rcv
  | some snd' ↦ reserve_rcv fuel snd' rcv (sbreserve sb_max rcv rcvcc)
]
