-- ===== src/Slip/Lru.antt =====
-- The order of the states in `sl_compress_tcp` of generic/net/slcompress.c.
use anp.Prelude.{ℕ, ◌≡◌, ◌≢◌, sym, true, List, [], ◌∷◌, Bool-cases, inl, inr}
use anp.Slip.Header.{Header}
use anp.Slip.States.{State, same_addresses, select}

abbrev pub All {ℓ κ} : {A : Type ℓ} → (A → Type κ) → List A → Type κ
All P [] = Unit
All P (x ∷ xs) = P x × All P xs

pub All-map {ℓ κ μ} :
    {A : Type ℓ} {P : A → Type κ} {Q : A → Type μ}
    → ((x : A) → P x → Q x)
    → (xs : List A) → All P xs
    → All Q xs
All-map f [] h = tt
All-map f (x ∷ xs) (p, ps) = (f x p, All-map f xs ps)

-- No two states have the same number.
abbrev pub Apart : ℕ → List State → Type 0
Apart id = All (λ s. s.cs_id ≢ id)

abbrev pub Distinct : List State → Type 0
Distinct [] = Unit
Distinct (s ∷ r) = Apart s.cs_id r × Distinct r

pub select-All {ℓ} :
    (P : State → Type ℓ) (p : Header) (s : State) (r : List State)
    → All P (s ∷ r)
    → P (select p s r).chosen × All P (select p s r).rest
unfolding select
select-All P p s [] (h, hs) = (h, tt)
select-All P p s (t ∷ r) (h, hs) = elim (Bool-cases (same_addresses p s.cs_hdr)) [
  | inl e ↦ rw e (h, hs)
  | inr e ↦ let (c, rest) = select-All P p t r hs in rw e (c, (h, rest))
]

pub select-Distinct :
    (p : Header) (s : State) (r : List State)
    → Distinct (s ∷ r)
    → Apart (select p s r).chosen.cs_id (select p s r).rest × Distinct (select p s r).rest
unfolding select
select-Distinct p s [] h = (tt, tt)
select-Distinct p s (t ∷ r) (apart, h) = elim (Bool-cases (same_addresses p s.cs_hdr)) [
  | inl e ↦ rw e (apart, h)
  | inr e ↦
      let (a, ds) = select-Distinct p t r h in
      let (ne, away) = select-All (λ x. x.cs_id ≢ s.cs_id) p t r apart in
      rw e ((λ q. ne (sym q), a), (away, ds))
]

pub select_found :
    (p : Header) (s : State) (r : List State)
    → (select p s r).found ≡ true
    → same_addresses p (select p s r).chosen.cs_hdr ≡ true
unfolding select
select_found p s [] h = h
select_found p s (t ∷ r) h = elim (Bool-cases (same_addresses p s.cs_hdr)) [
  | inl e ↦ rw e e
  | inr e ↦ rw e (select_found p t r (rw e at h))
]
