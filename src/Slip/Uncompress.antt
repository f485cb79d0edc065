-- ===== src/Slip/Uncompress.antt =====
-- The receiver of generic/net/slcompress.c: `sl_uncompress_tcp`. The counters of statistics are
-- left out, and so is the move of the data to an aligned address.
use anp.Prelude.{
  ℕ, ◌+◌, ◌-◌, ◌/◌, ◌%◌, Bool, true, false, Option, none, some, List, [], ◌∷◌, length, get_elem?,
  set, take, replicate, ltb, leb, ◌==◌, if◌then◌else◌,
}
use anp.Prelude.Word.{add32, sub32}
use anp.Slip.Header.{Header, hlen, max_hdr, max_states, ipproto_tcp, ip_checksum}
use anp.Slip.Encoding.{decodel, decodes, decodeu, read_short}

-- `rstate`, by the number of the conversation, `last_recv` and the flag SLF_TOSS. `cs_hlen` is
-- the length of the saved header.
pub record Decompressor : Type 0 where
  pub rstate : List (Option Header)
  pub last_recv : ℕ
  pub toss : Bool

unfoldable pub uncompress_init : Decompressor
uncompress_init = record { rstate = replicate max_states none; last_recv = 255; toss = true }

-- A packet with its data, or the length 0. The others are undefined: bytes behind the end of
-- memory, a header longer than `cs_hdr`, and a conversation with no saved header, where the source
-- takes a header of zeros for both the IP and the TCP header.
pub data Received : Type 0 where
  packet : Header → List ℕ → Received
  nothing : Received
  undefined : Received

unfoldable pub bad : Decompressor → Received × Decompressor
bad d = (nothing, record d { toss = true })

abbrev pub as_tcp : Header → Header
as_tcp h = record h { ip = record h.ip { ip_p = ipproto_tcp } }

abbrev pub without_sum : Header → Header
without_sum h = record h { ip = record h.ip { ip_sum = 0 } }

-- TYPE_UNCOMPRESSED_TCP: the number of the conversation is in `ip_p`.
unfoldable pub take_uncompressed : Header → List ℕ → Decompressor → Received × Decompressor
unfolding bad
take_uncompressed h bytes d =
    if leb max_states h.ip.ip_p then bad d else if ltb max_hdr (hlen h) then (undefined, d) else (
      packet (as_tcp h) bytes,
      record {
        rstate = set d.rstate h.ip.ip_p (some (without_sum (as_tcp h)));
        last_recv = h.ip.ip_p;
        toss = false;
      },
    )

abbrev pub has_bit : ℕ → ℕ → Bool
has_bit changes bit = changes / bit % 2 == 1

-- A header that is being rebuilt, and the bytes not read yet.
abbrev pub Rebuilt : Type 0
Rebuilt = Option (Header × List ℕ)

-- `u_int` arithmetic on the length of the data before.
abbrev pub saved_data : Header → ℕ
saved_data h = sub32 h.ip.ip_len (hlen h)

unfoldable pub echoed : Header → Header
echoed h = record h {
  th = record h.th {
    th_ack = add32 h.th.th_ack (saved_data h);
    th_seq = add32 h.th.th_seq (saved_data h);
  };
}

unfoldable pub transferred : Header → Header
transferred h = record h { th = record h.th { th_seq = add32 h.th.th_seq (saved_data h) } }

infixl 5 ◌>>=◌
abbrev pub ◌>>=◌ {ℓ} : {A B : Type ℓ} → Option A → (A → Option B) → Option B
none >>= f = none
some a >>= f = f a

unfoldable pub read_fields : ℕ → Header → List ℕ → Rebuilt
read_fields changes h cp = do
  (urp, cp1) ← decodeu (has_bit changes 1) h.th.th_urp cp
  (win, cp2) ← decodes (has_bit changes 2) h.th.th_win cp1
  (ack, cp3) ← decodel (has_bit changes 4) h.th.th_ack cp2
  (seq, cp4) ← decodel (has_bit changes 8) h.th.th_seq cp3
  some (
    record h {
      th = record h.th {
        th_urg = has_bit changes 1;
        th_urp = urp;
        th_win = win;
        th_ack = ack;
        th_seq = seq;
      };
    },
    cp4,
  )

-- The `switch (changes & SPECIALS_MASK)`.
unfoldable pub read_changes : ℕ → Header → List ℕ → Rebuilt
unfolding echoed transferred read_fields
read_changes changes h cp =
    if changes % 16 == 11
    then some (echoed h, cp)
    else if changes % 16 == 15
    then some (transferred h, cp)
    else read_fields changes h cp

abbrev pub with_id : Header → ℕ × List ℕ → Rebuilt
with_id h (n, cp) = some (record h { ip = record h.ip { ip_id = n } }, cp)

unfoldable pub read_id : ℕ → Header × List ℕ → Rebuilt
read_id changes (h, cp) =
    if has_bit changes 32
    then (decodes true h.ip.ip_id cp >>= with_id h)
    else with_id h ((h.ip.ip_id + 1) % 65536, cp)

abbrev pub with_sum : ℕ → Header → ℕ × List ℕ → Header × List ℕ
with_sum changes h (sum, cp) =
    (record h { th = record h.th { th_sum = sum; th_push = has_bit changes 16 } }, cp)

-- The saved header with the changes of a packet, and the bytes from its data on.
unfoldable pub rebuild : ℕ → Header → List ℕ → Rebuilt
unfolding read_changes read_id
rebuild changes h cp = do
  sum ← read_short cp
  let (h', cp') = with_sum changes h sum
  read_changes changes h' cp' >>= read_id changes

-- The headers are put before the data, with the length and the checksum of the IP header.
unfoldable pub with_length : ℕ → Header → Header
with_length len h = record h { ip = record h.ip { ip_len = (hlen h + len) % 65536 } }

unfoldable pub with_checksum : Header → Header
with_checksum h = record h { ip = record h.ip { ip_sum = ip_checksum h.ip } }

-- The saved header changes also where the packet turns out to be too short. `len` is the number
-- of bytes from `cp` on that belong to the packet, before the changes were read, and `cp` has all
-- bytes up to the end of memory.
unfoldable pub finish_rebuilt : ℕ → List ℕ → Decompressor → Rebuilt → Received × Decompressor
unfolding bad with_length with_checksum
finish_rebuilt len cp d none = (undefined, d)
finish_rebuilt len cp d (some (h, cp')) =
    let used = length cp - length cp' in
    if ltb len used
    then bad (record d { rstate = set d.rstate d.last_recv (some h) })
    else let h' = with_length (len - used) h in
      (
        packet (with_checksum h') (take (len - used) cp'),
        record d { rstate = set d.rstate d.last_recv (some h') },
      )

unfoldable pub rebuild_from :
    ℕ → ℕ → List ℕ → Decompressor → Option (Option Header) → Received × Decompressor
unfolding rebuild finish_rebuilt
rebuild_from changes len cp d (some (some h)) = finish_rebuilt len cp d (rebuild changes h cp)
rebuild_from changes len cp d _ = (undefined, d)

-- `len` may have run below 0, where `len - 1` and `len - 2` stop at 0: the checksum takes two bytes
-- more, so the packet is too short either way.
unfoldable pub take_changes : ℕ → ℕ → List ℕ → Decompressor → Received × Decompressor
unfolding rebuild_from
take_changes changes len cp d = rebuild_from changes len cp d (get_elem? d.rstate d.last_recv)

unfoldable pub take_explicit : ℕ → ℕ → List ℕ → Decompressor → Received × Decompressor
unfolding bad take_changes
take_explicit changes len [] d = (undefined, d)
take_explicit changes len (id ∷ cp) d =
    if leb max_states id
    then bad d
    else take_changes changes (len - 2) cp (record d { last_recv = id; toss = false })

-- TYPE_COMPRESSED_TCP: `len` bytes of a packet at the front of the memory from `bufp` on.
unfoldable pub take_compressed : ℕ → List ℕ → Decompressor → Received × Decompressor
unfolding take_explicit take_changes
take_compressed len [] d = (undefined, d)
take_compressed len (changes ∷ cp) d =
    if has_bit changes 64
    then take_explicit changes len cp d
    else if d.toss
    then (nothing, d)
    else take_changes changes (len - 1) cp d
