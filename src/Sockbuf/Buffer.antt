-- ===== src/Sockbuf/Buffer.antt =====
-- `struct sockbuf` of generic/sys/socketvar.h with `sballoc`, `sbfree` and `sbspace`, and
-- `sbreserve` of generic/kern/uipc_socket2.c.
use Prim.Native.Nat.{min}
use anp.Prelude.{ℕ, ◌+◌, ◌-◌, ◌/◌, ◌%◌, Bool, Option, none, some, List, [], ◌∷◌, ltb, if◌then◌else◌}
use anp.Prelude.Int.{ℤ, pos, negsuc, ltb_ℤ}
use anp.Prelude.Word.{word_mod, add32, sub32, mul32, is_neg}
use anp.Mbuf.Chain.{Mbuf, m_len, msize, mclbytes}

-- `sb_mb` is the list of the records that `m_nextpkt` links, each a chain of mbufs. The flags are
-- `SB_LOCK`, `SB_WANT`, `SB_WAIT` and `SB_SEL`.
pub record SockBuf : Type 0 where
  pub sb_cc : ℕ
  pub sb_hiwat : ℕ
  pub sb_mbcnt : ℕ
  pub sb_mbmax : ℕ
  pub sb_lowat : ℕ
  pub sb_mb : List (List Mbuf)
  pub locked : Bool
  pub wanted : Bool
  pub waiting : Bool
  pub selecting : Bool

-- A record, if it has an mbuf left, in front of others.
abbrev pub put_front : List Mbuf → List (List Mbuf) → List (List Mbuf)
put_front [] next = next
put_front (m ∷ ms) next = (m ∷ ms) ∷ next

abbrev pub to_word : ℕ → ℕ
to_word n = n % word_mod

abbrev pub ext_cost : Mbuf → ℕ
ext_cost m = elim m.ext [ none ↦ 0 | some e ↦ e.ext_size ]

-- The counts are `u_long`s, and wrap.
unfoldable pub sballoc : Mbuf → SockBuf → SockBuf
sballoc m sb = record sb {
  sb_cc = add32 sb.sb_cc (m_len m);
  sb_mbcnt = add32 (add32 sb.sb_mbcnt msize) (ext_cost m);
}

unfoldable pub sbfree : Mbuf → SockBuf → SockBuf
sbfree m sb = record sb {
  sb_cc = sub32 sb.sb_cc (to_word (m_len m));
  sb_mbcnt = sub32 (sub32 sb.sb_mbcnt msize) (to_word (ext_cost m));
}

-- The `int` that a bit pattern stands for.
abbrev pub int_of : ℕ → ℤ
int_of w = if is_neg w then negsuc (word_mod - 1 - w) else pos w

abbrev pub imin : ℤ → ℤ → ℤ
imin a b = if ltb_ℤ b a then b else a

unfoldable pub sbspace : SockBuf → ℤ
sbspace sb = imin (int_of (sub32 sb.sb_hiwat sb.sb_cc)) (int_of (sub32 sb.sb_mbmax sb.sb_mbcnt))

-- `sb_max` is a global. `none` is the result 0.
unfoldable pub sbreserve : ℕ → SockBuf → ℕ → Option SockBuf
sbreserve sb_max sb cc' =
    if ltb (mul32 sb_max mclbytes / (msize + mclbytes)) cc'
    then none
    else some (record sb {
      sb_hiwat = cc';
      sb_mbmax = min (mul32 cc' 2) sb_max;
      sb_lowat = if ltb cc' sb.sb_lowat then cc' else sb.sb_lowat;
    })
