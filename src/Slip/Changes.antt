-- ===== src/Slip/Changes.antt =====
-- The fields that `sl_compress_tcp` of generic/net/slcompress.c compares and sends as changes.
use anp.Prelude.{
  ℕ, ◌+◌, ◌-◌, ◌%◌, Bool, true, false, not, ◌&&◌, ◌||◌, Option, none, some, List, [], ◌∷◌, ◌++◌,
  ltb, ◌==◌, if◌then◌else◌,
}
use anp.Prelude.Word.{sub32}
use anp.Slip.Header.{Header, ip_hl, th_off, hlen}
use anp.Slip.Encoding.{encode, encodez}

-- `!bcmp` of two lists of options.
unfoldable pub same_words : List ℕ → List ℕ → Bool
same_words [] [] = true
same_words (a ∷ as') (b ∷ bs) = (a == b) && same_words as' bs
same_words _ _ = false

-- What has to be as in the packet before.
unfoldable pub unchanged : Header → Header → Bool
unfolding same_words
unchanged p old =
    (p.ip.ip_v == old.ip.ip_v)
    && (ip_hl p == ip_hl old)
    && (p.ip.ip_tos == old.ip.ip_tos)
    && (p.ip.ip_off == old.ip.ip_off)
    && (p.ip.ip_ttl == old.ip.ip_ttl)
    && (p.ip.ip_p == old.ip.ip_p)
    && (th_off p == th_off old)
    && same_words p.ip.ip_options old.ip.ip_options
    && same_words p.th.th_options old.th.th_options

abbrev pub new_u : ℕ
new_u = 1

abbrev pub new_w : ℕ
new_w = 2

abbrev pub new_a : ℕ
new_a = 4

abbrev pub new_s : ℕ
new_s = 8

abbrev pub push_bit : ℕ
push_bit = 16

abbrev pub new_i : ℕ
new_i = 32

abbrev pub new_c : ℕ
new_c = 64

abbrev pub special_i : ℕ
special_i = 11

abbrev pub special_d : ℕ
special_d = 15

-- The bit that a field adds to `changes`, and the bytes that it adds to `new_seq`. `none` is the
-- jump to `uncompressed`.
abbrev pub Part : Type 0
Part = Option (ℕ × List ℕ)

unfoldable pub urgent_part : Header → Header → Part
urgent_part p old =
    if p.th.th_urg
    then some (new_u, encodez p.th.th_urp)
    else if p.th.th_urp == old.th.th_urp
    then some (0, [])
    else none

unfoldable pub window_part : ℕ → Part
window_part d = if d == 0 then some (0, []) else some (new_w, encode d)

unfoldable pub seq_part : ℕ → ℕ → Part
seq_part bit d = if d == 0 then some (0, []) else if ltb 65535 d then none else some (bit, encode d)

infixl 5 ◌>>=◌
abbrev pub ◌>>=◌ {ℓ} : {A B : Type ℓ} → Option A → (A → Option B) → Option B
none >>= f = none
some a >>= f = f a

abbrev pub delta_win : Header → Header → ℕ
delta_win p old = (p.th.th_win + 65536 - old.th.th_win) % 65536

abbrev pub delta_ack : Header → Header → ℕ
delta_ack p old = sub32 p.th.th_ack old.th.th_ack

abbrev pub delta_seq : Header → Header → ℕ
delta_seq p old = sub32 p.th.th_seq old.th.th_seq

-- The bytes of data in the packet before, as the sender computes them.
abbrev pub last_data : Header → Header → ℕ
last_data p old = sub32 old.ip.ip_len (hlen p)

-- The `switch (changes)`.
unfoldable pub special_case : Header → Header → ℕ × List ℕ → Part
special_case p old (changes, bytes) =
    if changes == 0
    then if not (p.ip.ip_len == old.ip.ip_len) && (old.ip.ip_len == hlen p)
      then some (changes, bytes)
      else none
    else if (changes == special_i) || (changes == special_d)
    then none
    else if changes == new_s + new_a
    then if (delta_seq p old == delta_ack p old) && (delta_seq p old == last_data p old)
      then some (special_i, [])
      else some (changes, bytes)
    else if changes == new_s
    then if delta_seq p old == last_data p old then some (special_d, []) else some (changes, bytes)
    else some (changes, bytes)

unfoldable pub tcp_parts : Header → Header → Part
unfolding urgent_part window_part seq_part
tcp_parts p old = do
  (u, us) ← urgent_part p old
  (w, ws) ← window_part (delta_win p old)
  (a, acks) ← seq_part new_a (delta_ack p old)
  (s, seqs) ← seq_part new_s (delta_seq p old)
  some (u + w + a + s, us ++ (ws ++ (acks ++ seqs)))

unfoldable pub id_part : Header → Header → ℕ × List ℕ
id_part p old =
    let d = sub32 p.ip.ip_id old.ip.ip_id in if d == 1 then (0, []) else (new_i, encodez d)

abbrev pub push_part : Header → ℕ
push_part p = if p.th.th_push then push_bit else 0

abbrev pub join_parts : Header → Header → ℕ × List ℕ → Part
join_parts p old (changes, bytes) =
    let (i, ids) = id_part p old in some (changes + i + push_part p, bytes ++ ids)

-- `changes` and `new_seq` for a packet, from the header of the one before.
unfoldable pub header_delta : Header → Header → Part
unfolding unchanged tcp_parts special_case id_part
header_delta p old =
    if unchanged p old then (tcp_parts p old >>= special_case p old >>= join_parts p old) else none
