-- ===== src/Sockets/Queues.antt =====
-- Sockets that enter and leave the queues of a listening socket, in generic/kern/uipc_socket2.c.
use anp.Prelude.{
  ℕ, ◌+◌, ◌%◌, ◌<◌, ◌≡◌, ◌≢◌, refl, sym, ap, ◌∙◌, Bool, true, false, not, Option, none, some, List,
  [], ◌∷◌, ◌++◌, length, length-append, ◌==◌, arith,
}
use anp.Sockets.{Heap, link, set_link, count, set_count, set_head, append_to, soqinsque}
use anp.Sockets.Links.{
  Links, Apart, Distinct, last, link-set_link_self, link-set_link_ne, Keeps-Apart, Links-kept,
  last_from-Links, Links-append,
}
use anp.Sockets.Fields.{
  link-set_link_other, link-set_count, link-set_head, count-set_link, count-set_head,
  count-set_count_self, count-set_count_other, so_head-set_link, so_head-set_count,
  so_state-set_link, so_state-set_count, so_state-set_head,
}

abbrev pub Heads : Heap → ℕ → List ℕ → Type 0
Heads h head [] = Unit
Heads h head (x ∷ xs) = ((h x).so_head ≡ some head) × Heads h head xs

-- The queue `q` of socket `head` is the list: its links, its length, and the way back.
pub record Queue (q : Bool) (h : Heap) (head : ℕ) (xs : List ℕ) : Type 0 where
  pub links : Links q h head xs
  pub counted : count q (h head) ≡ length xs % 65536
  pub heads : Heads h head xs

pub Heads-kept :
    (h h' : Heap) (head so : ℕ) (xs : List ℕ)
    → ((b : ℕ) → b ≢ so → (h' b).so_head ≡ (h b).so_head)
    → Apart so xs
    → Heads h head xs
    → Heads h' head xs
Heads-kept h h' head so [] s a k = tt
Heads-kept h h' head so (x ∷ xs) s (ne, a) (k, ks) = (s x ne ∙ k, Heads-kept h h' head so xs s a ks)

-- What does not touch the sockets of a queue keeps it.
pub Queue-kept :
    (q : Bool) (h h' : Heap) (head so : ℕ) (xs : List ℕ)
    → ((b : ℕ) → b ≢ so → link q (h' b) ≡ link q (h b))
    → ((b : ℕ) → b ≢ so → (h' b).so_head ≡ (h b).so_head)
    → count q (h' head) ≡ count q (h head)
    → Apart so (head ∷ xs)
    → Queue q h head xs
    → Queue q h' head xs
Queue-kept q h h' head so xs l s c a k = record {
  links = Links-kept q h h' head xs (Keeps-Apart q h h' so (head ∷ xs) l a) k.links;
  counted = c ∙ k.counted;
  heads = Heads-kept h h' head so xs s a.1 k.heads;
}

pub so_head-set_head_ne :
    (a b : ℕ) (v : Option ℕ) (h : Heap) → b ≢ a → (set_head a v h b).so_head ≡ (h b).so_head
so_head-set_head_ne a b v h ne = let e : (b == a) ≡ false = ground arith in rw e refl

pub so_head-set_head_self : (a : ℕ) (v : Option ℕ) (h : Heap) → (set_head a v h a).so_head ≡ v
so_head-set_head_self a v h = let e : (a == a) ≡ true = ground arith in rw e refl

one_more : (n : ℕ) → (n % 65536 + 1) % 65536 ≡ (n + 1) % 65536
one_more n = omega arith

-- The heap of `soqinsque` when the length is counted, before the walk, and after it.
abbrev longer : Bool → ℕ → ℕ → Heap → Heap
longer q head so h =
    let h1 = set_head so (some head) h in set_count q head ((count q (h1 head) + 1) % 65536) h1

abbrev entering : Bool → ℕ → ℕ → Heap → Heap
entering q head so h = set_link q so none (longer q head so h)

abbrev pub entered : Bool → ℕ → ℕ → List ℕ → Heap → Heap
entered q head so xs h = set_link q (last head xs) (some so) (entering q head so h)

Heads-append :
    (h : Heap) (head so : ℕ) (xs : List ℕ)
    → Heads h head xs
    → (h so).so_head ≡ some head
    → Heads h head (xs ++ (so ∷ []))
Heads-append h head so [] k e = (e, tt)
Heads-append h head so (x ∷ xs) (k, ks) e = (k, Heads-append h head so xs ks e)

module _ (q : Bool) (head so : ℕ) (h : Heap) where
  link-entering : (p : Bool) (b : ℕ) → b ≢ so → link p (entering q head so h b) ≡ link p (h b)
  link-entering p b ne =
      link-set_link_ne p q so b none (longer q head so h) ne
      ∙ link-set_count p q head b ((count q (set_head so (some head) h head) + 1) % 65536)
          (set_head so (some head) h)
      ∙ link-set_head p so b (some head) h

  so_head-longer : (b : ℕ) → (longer q head so h b).so_head ≡ (set_head so (some head) h b).so_head
  so_head-longer b =
      so_head-set_count q head b ((count q (set_head so (some head) h head) + 1) % 65536)
        (set_head so (some head) h)

  so_head-entering : (b : ℕ) → b ≢ so → (entering q head so h b).so_head ≡ (h b).so_head
  so_head-entering b ne =
      so_head-set_link q so b none (longer q head so h)
      ∙ so_head-longer b
      ∙ so_head-set_head_ne so b (some head) h ne

  Links-entering :
      (xs : List ℕ)
      → Links q h head xs
      → Apart so (head ∷ xs)
      → Links q (entering q head so h) head xs
  Links-entering xs l a =
      Links-kept q h (entering q head so h) head xs
        (Keeps-Apart q h (entering q head so h) so (head ∷ xs) (link-entering q) a) l

  count-entered :
      (p : Bool) (xs : List ℕ)
      → count p (entered q head so xs h head) ≡ count p (longer q head so h head)
  count-entered p xs =
      count-set_link p q (last head xs) head (some so) (entering q head so h)
      ∙ count-set_link p q so head none (longer q head so h)

  count-entered_self :
      (xs : List ℕ) → count q (entered q head so xs h head) ≡ (count q (h head) + 1) % 65536
  count-entered_self xs =
      count-entered q xs
      ∙ count-set_count_self q head ((count q (set_head so (some head) h head) + 1) % 65536)
          (set_head so (some head) h)
      ∙ ap (λ n. (n + 1) % 65536) (count-set_head q so head (some head) h)

  count-entered_other :
      (xs : List ℕ) → count (not q) (entered q head so xs h head) ≡ count (not q) (h head)
  count-entered_other xs =
      count-entered (not q) xs
      ∙ count-set_count_other q head head ((count q (set_head so (some head) h head) + 1) % 65536)
          (set_head so (some head) h)
      ∙ count-set_head (not q) so head (some head) h

  pub entered-result :
      (fuel : ℕ) (xs : List ℕ)
      → Links q h head xs
      → Apart so (head ∷ xs)
      → length xs < fuel
      → soqinsque fuel head so q h ≡ some (entered q head so xs h)
  unfolding soqinsque
  entered-result fuel xs l a f =
      ap (append_to q so (entering q head so h))
        (last_from-Links fuel q (entering q head so h) head xs (Links-entering xs l a) f)

  pub entered-Queue :
      (xs : List ℕ)
      → Queue q h head xs
      → Distinct (head ∷ xs)
      → Apart so (head ∷ xs)
      → Queue q (entered q head so xs h) head (xs ++ (so ∷ []))
  entered-Queue xs k d a = record {
    links =
        Links-append q (entering q head so h) head so xs (Links-entering xs k.links a) d a
          (link-set_link_self q so none (longer q head so h));
    counted =
        count-entered_self xs
        ∙ ap (λ n. (n + 1) % 65536) k.counted
        ∙ one_more (length xs)
        ∙ ap (λ n. n % 65536) (sym (length-append xs (so ∷ [])));
    heads =
        Heads-append (entered q head so xs h) head so xs
          (Heads-kept h (entered q head so xs h) head so xs
            (λ b ne.
              so_head-set_link q (last head xs) b (some so) (entering q head so h)
              ∙ so_head-entering b ne)
            a.1 k.heads)
          (so_head-set_link q (last head xs) so (some so) (entering q head so h)
            ∙ so_head-set_link q so so none (longer q head so h)
            ∙ so_head-longer so
            ∙ so_head-set_head_self so (some head) h);
  }

  pub entered-other :
      (xs ys : List ℕ)
      → Queue (not q) h head ys
      → Apart so (head ∷ ys)
      → Queue (not q) (entered q head so xs h) head ys
  entered-other xs ys k a =
      Queue-kept (not q) h (entered q head so xs h) head so ys
        (λ b ne.
          link-set_link_other q (last head xs) b (some so) (entering q head so h)
          ∙ link-entering (not q) b ne)
        (λ b ne.
          so_head-set_link q (last head xs) b (some so) (entering q head so h)
          ∙ so_head-entering b ne)
        (count-entered_other xs) a k

  pub so_state-entered :
      (xs : List ℕ) (b : ℕ) → (entered q head so xs h b).so_state ≡ (h b).so_state
  so_state-entered xs b =
      so_state-set_link q (last head xs) b (some so) (entering q head so h)
      ∙ so_state-set_link q so b none (longer q head so h)
      ∙ so_state-set_count q head b ((count q (set_head so (some head) h head) + 1) % 65536)
          (set_head so (some head) h)
      ∙ so_state-set_head so b (some head) h
