-- ===== src/Serial.antt =====
-- A serial line: the frames of generic/net/if_sl.c, the queue of generic/kern/tty_subr.c and the
-- output routine of uspace/serline.c.
pub mod Clist
pub mod Fifo
pub mod Queue
pub mod Output
pub mod Input
pub mod Escaped
pub mod Frames
mod Tests
