-- ===== src/Sockets/Links.antt =====
-- The queues of generic/kern/uipc_socket2.c as lists.
use anp.Prelude.{
  ℕ, zero, suc, ◌<◌, ◌≡◌, ◌≢◌, refl, sym, ◌∙◌, Bool, true, false, Option, none, some, List, [], ◌∷◌,
  ◌++◌, length, ◌==◌, arith,
}
use anp.Sockets.{Heap, link, set_link, last_from, before, missing, find_from}

-- From socket `a` on, queue `q` goes over the sockets of the list, and ends.
abbrev pub Links : Bool → Heap → ℕ → List ℕ → Type 0
Links q h a [] = link q (h a) ≡ none
Links q h a (x ∷ xs) = (link q (h a) ≡ some x) × Links q h x xs

abbrev pub Apart : ℕ → List ℕ → Type 0
Apart a [] = Unit
Apart a (x ∷ xs) = (x ≢ a) × Apart a xs

abbrev pub Distinct : List ℕ → Type 0
Distinct [] = Unit
Distinct (x ∷ xs) = Apart x xs × Distinct xs

abbrev pub last : ℕ → List ℕ → ℕ
last a [] = a
last a (x ∷ xs) = last x xs

pub last-ne : (b a : ℕ) (xs : List ℕ) → Apart b (a ∷ xs) → last a xs ≢ b
last-ne b a [] (h, _) = h
last-ne b a (x ∷ xs) (h, hs) = last-ne b x xs hs

pub link-set_link_self :
    (q : Bool) (a : ℕ) (v : Option ℕ) (h : Heap) → link q (set_link q a v h a) ≡ v
link-set_link_self true a v h = ground arith
link-set_link_self false a v h = ground arith

pub link-set_link_ne :
    (q p : Bool) (a b : ℕ) (v : Option ℕ) (h : Heap)
    → b ≢ a
    → link q (set_link p a v h b) ≡ link q (h b)
link-set_link_ne q p a b v h ne = let e : (b == a) ≡ false = ground arith in rw e refl

-- Two heaps with the same links at the sockets of a list.
abbrev pub Keeps : Bool → Heap → Heap → List ℕ → Type 0
Keeps q h h' [] = Unit
Keeps q h h' (x ∷ xs) = (link q (h' x) ≡ link q (h x)) × Keeps q h h' xs

pub Keeps-Apart :
    (q : Bool) (h h' : Heap) (so : ℕ) (xs : List ℕ)
    → ((b : ℕ) → b ≢ so → link q (h' b) ≡ link q (h b))
    → Apart so xs
    → Keeps q h h' xs
Keeps-Apart q h h' so [] f ap' = tt
Keeps-Apart q h h' so (x ∷ xs) f (ne, ap') = (f x ne, Keeps-Apart q h h' so xs f ap')

pub Links-kept :
    (q : Bool) (h h' : Heap) (a : ℕ) (xs : List ℕ)
    → Keeps q h h' (a ∷ xs)
    → Links q h a xs
    → Links q h' a xs
Links-kept q h h' a [] (k, _) l = k ∙ l
Links-kept q h h' a (x ∷ xs) (k, ks) (e, l) = (k ∙ e, Links-kept q h h' x xs ks l)

pub last_from-Links :
    (fuel : ℕ) (q : Bool) (h : Heap) (a : ℕ) (xs : List ℕ)
    → Links q h a xs
    → length xs < fuel
    → last_from fuel q h a ≡ some (last a xs)
unfolding last_from
last_from-Links zero q h a xs l f = absurd (omega arith)
last_from-Links (suc fuel) q h a [] l f = rw (l, last_from) refl
last_from-Links (suc fuel) q h a (x ∷ xs) (e, l) f =
    rw (e, last_from) (last_from-Links fuel q h x xs l (omega arith))

-- A socket behind the last one.
pub Links-append :
    (q : Bool) (h : Heap) (a so : ℕ) (xs : List ℕ)
    → Links q h a xs
    → Distinct (a ∷ xs)
    → Apart so (a ∷ xs)
    → link q (h so) ≡ none
    → Links q (set_link q (last a xs) (some so) h) a (xs ++ (so ∷ []))
Links-append q h a so [] l d (ne, _) e = (
  link-set_link_self q a (some so) h,
  link-set_link_ne q q a so (some so) h (λ z. ne (sym z)) ∙ e,
)
Links-append q h a so (x ∷ xs) (ex, l) (d, ds) (ne, nes) e = (
  link-set_link_ne q q (last x xs) a (some so) h (λ z. last-ne a x xs d (sym z)) ∙ ex,
  Links-append q h x so xs l ds nes e,
)

pub Apart-prefix : (a : ℕ) (xs ys : List ℕ) → Apart a (xs ++ ys) → Apart a xs
Apart-prefix a [] ys h = tt
Apart-prefix a (x ∷ xs) ys (h, hs) = (h, Apart-prefix a xs ys hs)

-- What the search for a socket finds.
pub find_from-before :
    (fuel : ℕ) (q : Bool) (h : Heap) (so a : ℕ) (ys zs : List ℕ)
    → Links q h a (ys ++ (so ∷ zs))
    → Apart so ys
    → length ys < fuel
    → find_from fuel q h so a ≡ before (last a ys)
unfolding find_from
find_from-before zero q h so a ys zs l ne f = absurd (omega arith)
find_from-before (suc fuel) q h so a [] zs (e, l) ne f =
    let t : (so == so) ≡ true = ground arith in rw (e, find_from) (rw t refl)
find_from-before (suc fuel) q h so a (y ∷ ys) zs (e, l) (ne, nes) f =
    let t : (y == so) ≡ false = ground arith in
    rw (e, find_from) (rw t (find_from-before fuel q h so y ys zs l nes (omega arith)))

pub find_from-missing :
    (fuel : ℕ) (q : Bool) (h : Heap) (so a : ℕ) (xs : List ℕ)
    → Links q h a xs
    → Apart so xs
    → length xs < fuel
    → find_from fuel q h so a ≡ missing
unfolding find_from
find_from-missing zero q h so a xs l ne f = absurd (omega arith)
find_from-missing (suc fuel) q h so a [] l ne f = rw (l, find_from) refl
find_from-missing (suc fuel) q h so a (x ∷ xs) (e, l) (ne, nes) f =
    let t : (x == so) ≡ false = ground arith in
    rw (e, find_from) (rw t (find_from-missing fuel q h so x xs l nes (omega arith)))

-- A socket is taken out of the middle.
pub Links-remove :
    (q : Bool) (h : Heap) (a so : ℕ) (ys zs : List ℕ)
    → Links q h a (ys ++ (so ∷ zs))
    → Distinct (a ∷ (ys ++ (so ∷ zs)))
    → Links q (set_link q (last a ys) (link q (h so)) h) a (ys ++ zs)
Links-remove q h a so [] [] (e, l) d = link-set_link_self q a (link q (h so)) h ∙ l
Links-remove q h a so [] (z ∷ zs) (e, (ez, l)) ((ne, (nz, nzs)), d) = (
  link-set_link_self q a (link q (h so)) h ∙ ez,
  Links-kept q h (set_link q a (link q (h so)) h) z zs
      (Keeps-Apart q h (set_link q a (link q (h so)) h) a (z ∷ zs)
        (λ b n. link-set_link_ne q q a b (link q (h so)) h n) (nz, nzs))
      l,
)
Links-remove q h a so (y ∷ ys) zs (e, l) (d, ds) = (
  link-set_link_ne q q (last y ys) a (link q (h so)) h
        (λ z. last-ne a y ys (Apart-prefix a (y ∷ ys) (so ∷ zs) d) (sym z))
      ∙ e,
  Links-remove q h y so ys zs l ds,
)
