-- ===== src/Sockbuf/Tests.antt =====
-- Runs of the socket buffer operations of generic/kern/uipc_socket2.c.
use anp.Prelude.{ℕ, ◌≤◌, ◌≡◌, refl, true, false, some, List, [], ◌∷◌, ◌++◌, arith}
use anp.Prelude.Int.{pos, ◌+ℤ◌}
use anp.Mbuf.Chain.{Mbuf, bytes_of, mlen}
use anp.Mbuf.Build.{fresh}
use anp.Sockbuf.Buffer.{SockBuf, sbspace, sbreserve}
use anp.Sockbuf.Append.{
  added, place, sbcompress, append_last, sbappend, sbappendrecord, sbinsertoob, add_record,
  sbappendaddr, sbappendcontrol, name_mbuf,
}
use anp.Sockbuf.Drop.{sbdrop, sbflush, flush, flushed}
use anp.Sockbuf.Growing.{Counted}
use anp.Sockbuf.Shrinking.{AllCounted}
use anp.Sockbuf.Invariant.{append, drop_front, drop_record, apply_all, apply_all-Counted}
use anp.Sockbuf.Contents.{data_of, sbappend-data_of}
use anp.Sockbuf.Dropped.{Drops, sbdrop-Drops}
use anp.Sockbuf.Flushed.{IsEmpty, sbflush-IsEmpty}
use anp.Sockbuf.Space.{Fitted, sbappendcontrol-Fitted, sbappendaddr-Fitted}
use anp.Sockbuf.Records.{EndsWith, BehindOob, sbappendrecord-EndsWith, sbinsertoob-BehindOob}
use anp.Sockbuf.Reserving.{IsReserved, soreserve-IsReserved}
use anp.Sockbuf.Reserve.{Reserved, reserved, enobufs, not_released, soreserve}
use anp.Sockbuf.Lock.{Sleep, returned, sb_lock, sblock}
use anp.Sockbuf.Locking.{LocksFree, sb_lock-LocksFree}

-- Three bytes in two mbufs, the second with a cluster and `M_EOR`.
abbrev two : Mbuf
two = record (fresh 1) { contents = 1 ∷ 2 ∷ [] }

abbrev clustered : Mbuf
clustered = record (fresh 1) {
  contents = 3 ∷ [];
  ext = some (record { ext_buf = 1; ext_size = 2048 });
  eor = true;
}

abbrev packet : Mbuf
packet = record (fresh 1) { contents = 8 ∷ 9 ∷ []; offset = 8; pkthdr = true; len = pos 2 }

abbrev rights : Mbuf
rights = record (fresh 14) { contents = 7 ∷ [] }

-- One record of those two mbufs.
abbrev one_record : SockBuf
one_record = record {
  sb_cc = 3;
  sb_hiwat = 100;
  sb_mbcnt = 2304;
  sb_mbmax = 9000;
  sb_lowat = 1;
  sb_mb = (two ∷ clustered ∷ []) ∷ [];
  locked = false;
  wanted = false;
  waiting = false;
  selecting = false;
}

one_record-Counted : Counted one_record
one_record-Counted = (refl, refl)

short_appended :
    (sbappend (record one_record { sb_mb = (two ∷ []) ∷ [] }) (packet ∷ [])).sb_mb
    ≡ (record two { contents = 1 ∷ 2 ∷ 8 ∷ 9 ∷ [] } ∷ []) ∷ []
unfolding sbappend append_last sbcompress place
short_appended = refl

apply_all-Counted_example :
    AllCounted (apply_all (append (packet ∷ []) ∷ drop_front 4 ∷ drop_record ∷ []) one_record)
apply_all-Counted_example =
    apply_all-Counted (append (packet ∷ []) ∷ drop_front 4 ∷ drop_record ∷ []) one_record
      one_record-Counted

sbappend-data_of_example :
    (data_of (sbappend one_record (packet ∷ [])).sb_mb ≡ 1 ∷ 2 ∷ 3 ∷ 8 ∷ 9 ∷ [])
    × (data_of (sbappendrecord one_record (packet ∷ [])).sb_mb ≡ 1 ∷ 2 ∷ 3 ∷ 8 ∷ 9 ∷ [])
sbappend-data_of_example = sbappend-data_of one_record (packet ∷ [])

sbdrop-Drops_example : Drops (1 ∷ 2 ∷ 3 ∷ []) 2 (sbdrop one_record 2)
sbdrop-Drops_example = sbdrop-Drops one_record 2

sbflush-IsEmpty_example : (sb : SockBuf) × (sbflush 2 one_record ≡ flushed sb) × IsEmpty sb
sbflush-IsEmpty_example =
    sbflush-IsEmpty 2 one_record refl one_record-Counted tt (omega arith) (omega arith)
      (omega arith)

control_added :
    sbappendcontrol one_record (packet ∷ []) (rights ∷ [])
    ≡ added (add_record one_record (rights ∷ packet ∷ []))
unfolding sbappendcontrol sbspace
control_added = refl

addr_added :
    sbappendaddr 1 one_record (16 ∷ 2 ∷ []) (packet ∷ []) (rights ∷ [])
    ≡ added (add_record one_record (name_mbuf (16 ∷ 2 ∷ []) ∷ rights ∷ packet ∷ []))
unfolding sbappendaddr sbspace ◌+ℤ◌
addr_added = refl

sbappendcontrol-Fitted_example :
    Fitted one_record (rights ∷ packet ∷ []) (add_record one_record (rights ∷ packet ∷ []))
sbappendcontrol-Fitted_example =
    sbappendcontrol-Fitted one_record (add_record one_record (rights ∷ packet ∷ [])) (packet ∷ [])
      (rights ∷ []) one_record-Counted (omega arith) (omega arith) control_added

sbappendaddr-Fitted_example :
    Fitted one_record
      (name_mbuf (16 ∷ 2 ∷ []) ∷ rights ∷ packet ∷ [])
      (add_record one_record (name_mbuf (16 ∷ 2 ∷ []) ∷ rights ∷ packet ∷ []))
    × (2 ≤ mlen)
sbappendaddr-Fitted_example =
    sbappendaddr-Fitted 1 one_record
      (add_record one_record (name_mbuf (16 ∷ 2 ∷ []) ∷ rights ∷ packet ∷ [])) (16 ∷ 2 ∷ [])
      (packet ∷ []) (rights ∷ []) one_record-Counted (omega arith) (omega arith) (λ _. refl)
      addr_added

sbappendrecord-EndsWith_example :
    (r : List Mbuf) × ((sbappendrecord one_record (two ∷ clustered ∷ [])).sb_mb
      ≡ one_record.sb_mb ++ (r ∷ []))
    × (bytes_of r ≡ 1 ∷ 2 ∷ 3 ∷ [])
    × EndsWith true r
sbappendrecord-EndsWith_example = sbappendrecord-EndsWith one_record two (clustered ∷ [])

sbinsertoob-BehindOob_example :
    (r : List Mbuf) × BehindOob r one_record.sb_mb
      (sbinsertoob one_record (two ∷ clustered ∷ [])).sb_mb
    × (bytes_of r ≡ 1 ∷ 2 ∷ 3 ∷ [])
    × EndsWith true r
sbinsertoob-BehindOob_example = sbinsertoob-BehindOob one_record two (clustered ∷ [])

-- A signal ends the sleep, and the lock is still held.
abbrev interrupted : Sleep
interrupted = record { meanwhile = λ sb. sb; error = 4 }

abbrev held : SockBuf
held = record one_record { locked = true }

-- The holder lets go of the lock.
abbrev let_go : Sleep
let_go = record { meanwhile = λ sb. record sb { locked = false; wanted = false }; error = 0 }

sb_lock-LocksFree_example : LocksFree (let_go ∷ []) held (sb_lock (let_go ∷ []) held)
sb_lock-LocksFree_example = sb_lock-LocksFree (let_go ∷ []) held

-- The error is lost.
error_lost : sblock true (interrupted ∷ []) held ≡ returned 0 (record held { wanted = true })
unfolding sblock sb_lock
error_lost = refl

abbrev empty : SockBuf
empty = record one_record {
  sb_cc = 0;
  sb_hiwat = 0;
  sb_mbcnt = 0;
  sb_mbmax = 0;
  sb_lowat = 0;
  sb_mb = [];
}

-- No more than `sb_max * MCLBYTES / (MSIZE + MCLBYTES)` is given.
abbrev buffers_of : Reserved → List ℕ
buffers_of (reserved snd rcv) = snd.sb_hiwat ∷ snd.sb_lowat ∷ rcv.sb_hiwat ∷ rcv.sb_lowat ∷ []
buffers_of (enobufs snd rcv) = snd.sb_hiwat ∷ rcv.sb_hiwat ∷ []
buffers_of not_released = []

soreserve_fits : buffers_of (soreserve 1 262144 empty empty 8192 4096) ≡ 8192 ∷ 2048 ∷ 4096 ∷ 1 ∷ []
unfolding soreserve sbreserve
soreserve_fits = refl

soreserve_refuses : buffers_of (soreserve 1 262144 empty empty 8192 246724) ≡ 0 ∷ 0 ∷ []
unfolding soreserve sbreserve sbflush flush
soreserve_refuses = refl

-- The receive buffer is too large, and the send buffer is emptied.
soreserve-IsReserved_example :
    IsReserved 262144 one_record empty 8192 300000 (soreserve 2 262144 one_record empty 8192 300000)
soreserve-IsReserved_example =
    soreserve-IsReserved 2 262144 one_record empty 8192 300000 (omega arith) (omega arith) refl
      one_record-Counted tt (omega arith) (omega arith) (omega arith)
