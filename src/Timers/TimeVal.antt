-- ===== src/Timers/TimeVal.antt =====
-- `struct timeval` arithmetic of uspace/timers.c.
use anp.Prelude.{ℕ, ◌+◌, ◌/◌, ◌&&◌, ◌||◌, not, Option, none, some, if◌then◌else◌}
use anp.Prelude.Int.{ℤ, pos, negsuc, ◌+ℤ◌, ◌-ℤ◌, ◌*ℤ◌, ltb_ℤ}

-- `long`s, taken not to overflow.
pub record TimeVal : Type 0 where
  pub sec : ℤ
  pub usec : ℤ

abbrev pub million : ℤ
million = pos 1_000_000

-- The constants of uspace/kern_globals.c.
abbrev pub tick : ℤ
tick = pos 10_000

abbrev pub hz : ℤ
hz = pos 100

-- `BUMPTIME`
unfoldable pub bumptime : TimeVal → ℤ → TimeVal
bumptime t usec =
    let us = t.usec +ℤ usec in
    if ltb_ℤ us million
    then record t { usec = us }
    else record { sec = t.sec +ℤ pos 1; usec = us -ℤ million }

unfoldable pub tv_diff : TimeVal → TimeVal → TimeVal
tv_diff a b =
    if ltb_ℤ a.usec b.usec
    then record { sec = a.sec -ℤ b.sec -ℤ pos 1; usec = million +ℤ a.usec -ℤ b.usec }
    else record { sec = a.sec -ℤ b.sec; usec = a.usec -ℤ b.usec }

unfoldable pub borrow : TimeVal → TimeVal
borrow t =
    if ltb_ℤ t.usec (pos 0) then record { sec = t.sec -ℤ pos 1; usec = t.usec +ℤ million } else t

unfoldable pub carry : TimeVal → TimeVal
carry t =
    if ltb_ℤ t.usec million then t else record { sec = t.sec +ℤ pos 1; usec = t.usec -ℤ million }

unfoldable pub timevalfix : TimeVal → TimeVal
unfolding borrow carry
timevalfix t = carry (borrow t)

unfoldable pub timevaladd : TimeVal → TimeVal → TimeVal
timevaladd a b = timevalfix (record { sec = a.sec +ℤ b.sec; usec = a.usec +ℤ b.usec })

-- `none` is `EINVAL`.
unfoldable pub itimerfix : TimeVal → Option TimeVal
itimerfix t =
    if ltb_ℤ t.sec (pos 0)
      || ltb_ℤ (pos 100_000_000) t.sec
      || ltb_ℤ t.usec (pos 0)
      || not (ltb_ℤ t.usec million)
    then none
    else if not (ltb_ℤ t.sec (pos 0))
        && not (ltb_ℤ (pos 0) t.sec)
        && ltb_ℤ (pos 0) t.usec
        && ltb_ℤ t.usec tick
    then some (record t { usec = tick })
    else some t

-- Division of C, towards 0, by a positive number.
abbrev pub quot : ℤ → ℕ → ℤ
quot (pos n) d = pos (n / d)
quot (negsuc n) d = pos 0 -ℤ pos ((n + 1) / d)

abbrev pub max_long : ℕ
max_long = 0x7fff_ffff

-- Ticks from the time `now` to the time `t`.
unfoldable pub hzto : TimeVal → TimeVal → ℤ
hzto now t =
    let sec = t.sec -ℤ now.sec in
    if not (ltb_ℤ (pos (max_long / 1000) -ℤ pos 1000) sec)
    then quot (sec *ℤ pos 1000 +ℤ quot (t.usec -ℤ now.usec) 1000) 10
    else if not (ltb_ℤ (pos (max_long / 100)) sec)
    then sec *ℤ hz
    else pos max_long
