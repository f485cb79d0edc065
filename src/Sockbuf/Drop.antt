-- ===== src/Sockbuf/Drop.antt =====
-- `sbdrop`, `sbdroprecord` and `sbflush` of generic/kern/uipc_socket2.c.
use anp.Prelude.{
  ℕ, zero, suc, ◌+◌, ◌-◌, Bool, true, false, ◌&&◌, Option, none, some, List, [], ◌∷◌, drop, ltb,
  ◌==◌, if◌then◌else◌,
}
use anp.Prelude.Word.{sub32, is_neg}
use anp.Mbuf.Chain.{Mbuf, m_len}
use anp.Sockbuf.Buffer.{SockBuf, to_word, sbfree, put_front}

-- `m_len` and `m_data` of an mbuf that loses bytes in front.
abbrev pub trimmed : ℕ → Mbuf → Mbuf
trimmed len m = record m { contents = drop len m.contents; offset = m.offset + len }

-- The first loop of `sbdrop`: `m` are the mbufs left of a record, `next` the records behind it.
-- `none` is the panic.
unfoldable pub drop_bytes :
    List (List Mbuf) → List Mbuf → ℕ → SockBuf → Option (List Mbuf × List (List Mbuf) × SockBuf)
drop_bytes next m zero sb = some (m, next, sb)
drop_bytes [] [] (suc len) sb = none
drop_bytes (r ∷ next) [] (suc len) sb = drop_bytes next r (suc len) sb
drop_bytes next (m ∷ ms) (suc len) sb =
    let rest = drop_bytes next ms (suc len - m_len m) (sbfree m sb) in
    if ltb (suc len) (m_len m)
    then some
        (trimmed (suc len) m ∷ ms, next, record sb { sb_cc = sub32 sb.sb_cc (to_word (suc len)) })
    else rest

-- The second loop: empty mbufs at the front.
unfoldable pub free_empty : List Mbuf → SockBuf → List Mbuf × SockBuf
free_empty [] sb = ([], sb)
free_empty (m ∷ ms) sb =
    let rest = free_empty ms (sbfree m sb) in if m_len m == 0 then rest else (m ∷ ms, sb)

abbrev pub finish_drop : List Mbuf → List (List Mbuf) → SockBuf → SockBuf
finish_drop m next sb = let (m', sb') = free_empty m sb in record sb' { sb_mb = put_front m' next }

abbrev pub first_record : List (List Mbuf) → List Mbuf
first_record [] = []
first_record (r ∷ next) = r

abbrev pub other_records : List (List Mbuf) → List (List Mbuf)
other_records [] = []
other_records (r ∷ next) = next

unfoldable pub sbdrop : SockBuf → ℕ → Option SockBuf
sbdrop sb len = elim (drop_bytes (other_records sb.sb_mb) (first_record sb.sb_mb) len sb) [
  | none ↦ none
  | some (m, next, sb') ↦ some (finish_drop m next sb')
]

unfoldable pub sbfree_all : List Mbuf → SockBuf → SockBuf
sbfree_all [] sb = sb
sbfree_all (m ∷ ms) sb = sbfree_all ms (sbfree m sb)

unfoldable pub sbdroprecord : SockBuf → SockBuf
sbdroprecord sb = record (sbfree_all (first_record sb.sb_mb) sb) { sb_mb = other_records sb.sb_mb }

pub data Flushed : Type 0 where
  flushed : SockBuf → Flushed
  panicked : Flushed
  out_of_fuel : Flushed

abbrev pub nothing_left : SockBuf → Bool
nothing_left sb = sb.sb_cc == 0 && elim sb.sb_mb [ [] ↦ true | r ∷ next ↦ false ]

-- `(int)sb->sb_cc` below 0 drops nothing.
abbrev pub drop_all_bytes : SockBuf → Option SockBuf
drop_all_bytes sb = sbdrop sb (if is_neg sb.sb_cc then 0 else sb.sb_cc)

-- The loop of `sbflush`, on fuel, and the test behind it.
unfoldable pub flush : ℕ → SockBuf → Flushed
flush zero sb = out_of_fuel
flush (suc fuel) sb =
    if sb.sb_mbcnt == 0
    then (if nothing_left sb then flushed sb else panicked)
    else elim (drop_all_bytes sb) [ none ↦ panicked | some sb' ↦ flush fuel sb' ]

unfoldable pub sbflush : ℕ → SockBuf → Flushed
sbflush fuel sb = if sb.locked then panicked else flush fuel sb
