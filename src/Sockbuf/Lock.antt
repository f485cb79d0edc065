-- ===== src/Sockbuf/Lock.antt =====
-- The lock of a socket buffer and its wakeups: `sb_lock` and `sowakeup` of
-- generic/kern/uipc_socket2.c with `sbwait`, `sblock` and `sbunlock` of generic/sys/socketvar.h.
use anp.Prelude.{ℕ, Bool, true, false, List, [], ◌∷◌, ◌==◌, if◌then◌else◌}
use anp.Sockbuf.Buffer.{SockBuf}

-- A sleep: what the other threads do to the socket buffer, and the result of `tsleep`.
pub record Sleep : Type 0 where
  pub meanwhile : SockBuf → SockBuf
  pub error : ℕ

-- The result of a call, or a thread that is not woken up.
pub data Locking : Type 0 where
  returned : ℕ → SockBuf → Locking
  asleep : Locking

unfoldable pub sb_lock : List Sleep → SockBuf → Locking
sb_lock [] sb = if sb.locked then asleep else returned 0 (record sb { locked = true })
sb_lock (s ∷ sleeps) sb =
    let sb' = s.meanwhile (record sb { wanted = true }) in
    let again = sb_lock sleeps sb' in
    if sb.locked
    then (if s.error == 0 then again else returned s.error sb')
    else returned 0 (record sb { locked = true })

-- The comma: the value before it is not used.
abbrev pub comma_zero : Locking → Locking
comma_zero (returned e sb) = returned 0 sb
comma_zero asleep = asleep

-- `wait` is `wf == M_WAITOK`; `EWOULDBLOCK` is 35.
unfoldable pub sblock : Bool → List Sleep → SockBuf → Locking
sblock wait sleeps sb = comma_zero (
    if sb.locked
    then (if wait then sb_lock sleeps sb else returned 35 sb)
    else returned 0 (record sb { locked = true }))

-- With whether it calls `wakeup`.
unfoldable pub sbunlock : SockBuf → SockBuf × Bool
sbunlock sb =
    if sb.wanted
    then (record sb { locked = false; wanted = false }, true)
    else (record sb { locked = false }, false)

unfoldable pub sowakeup : SockBuf → SockBuf × Bool
sowakeup sb =
    if sb.waiting
    then (record sb { selecting = false; waiting = false }, true)
    else (record sb { selecting = false }, false)

-- With the result of the sleep.
unfoldable pub sbwait : Sleep → SockBuf → SockBuf × ℕ
sbwait s sb = (s.meanwhile (record sb { waiting = true }), s.error)
