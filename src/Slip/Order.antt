-- ===== src/Slip/Order.antt =====
-- The states of `sl_compress_tcp` in generic/net/slcompress.c as a list in the order of their last
-- use.
use anp.Prelude.{
  ℕ, ◌≤◌, ◌≡◌, ◌≢◌, inl, inr, refl, sym, ap, ◌∙◌, Bool, true, false, none, some, List, [], ◌∷◌, map,
  Bool-cases, ltb, not, ◌||◌, ◌==◌, if◌then◌else◌, arith,
}
use mathlib.Core.Path.{subst}
use anp.Slip.Header.{Header, hlen, max_hdr}
use anp.Slip.States.{State, Compressor, Selected, same_addresses, select, compressible}
use anp.Slip.Changes.{Part}
use anp.Slip.Compress.{
  saved, send_delta, send_selected, send_uncompressed, send_compressed, sl_compress_tcp,
}
use anp.Slip.Lru.{All, Distinct, select-All}

abbrev pub states : Compressor → List State
states c = c.first ∷ c.others

abbrev pub ids : Compressor → List ℕ
ids c = map (λ s. s.cs_id) (states c)

-- The abstract order: a number that is used goes to the front.
pub remove : ℕ → List ℕ → List ℕ
remove id [] = []
remove id (x ∷ xs) = if x == id then xs else x ∷ remove id xs

remove_self : (id : ℕ) (xs : List ℕ) → remove id (id ∷ xs) ≡ xs
unfolding remove
remove_self id xs = ground arith

remove_ne : (id x : ℕ) (xs : List ℕ) → x ≢ id → remove id (x ∷ xs) ≡ x ∷ remove id xs
unfolding remove
remove_ne id x xs h = ground arith

pub move_to_front : ℕ → List ℕ → List ℕ
move_to_front id xs = id ∷ remove id xs

abbrev pub oldest : State → List State → ℕ
oldest s [] = s.cs_id
oldest s (t ∷ r) = oldest t r

abbrev pub NoMatch : Header → State → Type 0
NoMatch p s = same_addresses p s.cs_hdr ≡ false

select-remove :
    (p : Header) (s : State) (r : List State)
    → Distinct (s ∷ r)
    → remove (select p s r).chosen.cs_id (map (λ x. x.cs_id) (s ∷ r))
      ≡ map (λ x. x.cs_id) (select p s r).rest
unfolding select
select-remove p s [] h = remove_self s.cs_id []
select-remove p s (t ∷ r) (apart, h) = elim (Bool-cases (same_addresses p s.cs_hdr)) [
  | inl e ↦ rw e (remove_self s.cs_id _)
  | inr e ↦
      let (ne, away) = select-All (λ x. x.cs_id ≢ s.cs_id) p t r apart in
      rw e (remove_ne _ s.cs_id _ (λ q. ne (sym q)) ∙ ap (λ l. s.cs_id ∷ l) (select-remove p t r h))
]

select-oldest :
    (p : Header) (s : State) (r : List State)
    → All (NoMatch p) (s ∷ r)
    → (select p s r).chosen.cs_id ≡ oldest s r
unfolding select
select-oldest p s [] h = refl
select-oldest p s (t ∷ r) (e, h) = rw e (select-oldest p t r h)

-- Whatever is sent, the chosen state saves the packet and stands in front of the others.
send_delta-saved :
    (p : Header) (cid : Bool) (sel : Selected) (c : Compressor) (part : Part)
    → hlen p ≤ max_hdr
    → (send_delta p cid sel c part).1 ≡ saved p sel
unfolding send_delta send_uncompressed send_compressed
send_delta-saved p cid sel c none h =
    let short : ltb max_hdr (hlen p) ≡ false = ground arith in rw short refl
send_delta-saved p cid sel c (some (changes, bs)) h =
    elim (Bool-cases (not cid || not (c.last_xmit == sel.chosen.cs_id))) [
      | inl e ↦ rw e refl
      | inr e ↦ rw e refl
    ]

-- A state after a packet, by the abstract order.
abbrev pub IsLru : Header → Compressor → Compressor → Type 0
IsLru p c c' =
    (ids c' ≡ move_to_front c'.last_xmit (ids c))
    × (c'.first.cs_hdr ≡ some p)
    × (All (NoMatch p) (states c) → c'.last_xmit ≡ oldest c.first c.others)

-- For states with distinct numbers, and a packet that can be compressed with a header of at most 108
-- bytes: the number of the state that is used goes to the front of the abstract list, and the others
-- keep their order. That state has saved the header, and is the oldest one where no state matches.
pub sl_compress_tcp-IsLru :
    (m_len : ℕ) (cid : Bool) (p : Header) (c : Compressor)
    → Distinct (states c)
    → compressible m_len p ≡ true
    → hlen p ≤ max_hdr
    → IsLru p c (sl_compress_tcp m_len p cid c).1
unfolding sl_compress_tcp send_selected move_to_front
sl_compress_tcp-IsLru m_len cid p c ds e h =
    let sel = select p c.first c.others in
    let after : (sl_compress_tcp m_len p cid c).1 ≡ saved p sel =
      rw e (send_delta-saved p cid sel c _ h) in
    subst (λ x. IsLru p c x) (sym after)
      (
        ap (λ l. sel.chosen.cs_id ∷ l) (sym (select-remove p c.first c.others ds)),
        refl,
        λ m. select-oldest p c.first c.others m,
      )
