-- ===== src/Sockets/Removal.antt =====
-- `soqremque` of generic/kern/uipc_socket2.c on the queues of a listening socket.
use anp.Prelude.{
  ℕ, ◌+◌, ◌%◌, ◌<◌, ◌≡◌, ◌≢◌, sym, ap, ◌∙◌, Bool, true, false, not, none, some, List, [], ◌∷◌, ◌++◌,
  length, arith,
}
use anp.Sockets.{
  Heap, link, set_link, count, set_count, set_head, Search, before, missing, find_from, unlink,
  remove_found, soqremque,
}
use anp.Sockets.Links.{
  Apart, Distinct, last, link-set_link_ne, Keeps-Apart, Links-kept, Apart-prefix, find_from-before,
  find_from-missing, Links-remove,
}
use anp.Sockets.Fields.{
  link-set_link_other, link-set_count, link-set_head, count-set_link, count-set_head,
  count-set_count_self, count-set_count_other, so_head-set_link, so_head-set_count,
  so_state-set_link, so_state-set_count, so_state-set_head,
}
use anp.Sockets.Queues.{Queue, Queue-kept, Heads, Heads-kept, so_head-set_head_ne}

one_less : (n : ℕ) → ((n + 1) % 65536 + 65535) % 65536 ≡ n % 65536
one_less n = omega arith

pub Apart-middle :
    (a so : ℕ) (ys zs : List ℕ) → Apart a (ys ++ (so ∷ zs)) → (so ≢ a) × Apart a (ys ++ zs)
Apart-middle a so [] zs h = h
Apart-middle a so (y ∷ ys) zs (ny, h) = let (n, r) = Apart-middle a so ys zs h in (n, (ny, r))

-- The socket in the middle of a list of distinct ones is none of the others.
pub Distinct-middle : (so : ℕ) (ys zs : List ℕ) → Distinct (ys ++ (so ∷ zs)) → Apart so (ys ++ zs)
Distinct-middle so [] zs (h, _) = h
Distinct-middle so (y ∷ ys) zs (h, hs) =
    let (n, r) = Apart-middle y so ys zs h in ((λ e. n (sym e)), Distinct-middle so ys zs hs)

pub Heads-middle :
    (h : Heap) (head so : ℕ) (ys zs : List ℕ)
    → Heads h head (ys ++ (so ∷ zs))
    → ((h so).so_head ≡ some head) × Heads h head (ys ++ zs)
Heads-middle h head so [] zs k = k
Heads-middle h head so (y ∷ ys) zs (k, ks) =
    let (n, r) = Heads-middle h head so ys zs ks in (n, (k, r))

length-middle : (so : ℕ) (ys zs : List ℕ) → length (ys ++ (so ∷ zs)) ≡ length (ys ++ zs) + 1
length-middle so [] zs = omega arith
length-middle so (y ∷ ys) zs = let e = length-middle so ys zs in omega arith

abbrev shorter : Bool → ℕ → ℕ → ℕ → Heap → Heap
shorter q head prev so h =
    let h1 = set_link q prev (link q (h so)) h in
    set_count q head ((count q (h1 head) + 65535) % 65536) h1

abbrev cleared : Bool → ℕ → ℕ → ℕ → Heap → Heap
cleared q head prev so h = set_link false so none (set_link true so none (shorter q head prev so h))

abbrev pub left : Bool → ℕ → ℕ → ℕ → Heap → Heap
left q head prev so h = set_head so none (cleared q head prev so h)

module _ (q : Bool) (head prev so : ℕ) (h : Heap) where
  link-left :
      (p : Bool) (b : ℕ)
      → b ≢ so
      → link p (left q head prev so h b) ≡ link p (set_link q prev (link q (h so)) h b)
  link-left p b ne =
      link-set_head p so b none (cleared q head prev so h)
      ∙ link-set_link_ne p false so b none (set_link true so none (shorter q head prev so h)) ne
      ∙ link-set_link_ne p true so b none (shorter q head prev so h) ne
      ∙ link-set_count p q head b
          ((count q (set_link q prev (link q (h so)) h head) + 65535) % 65536)
          (set_link q prev (link q (h so)) h)

  so_head-left : (b : ℕ) → b ≢ so → (left q head prev so h b).so_head ≡ (h b).so_head
  so_head-left b ne =
      so_head-set_head_ne so b none (cleared q head prev so h) ne
      ∙ so_head-set_link false so b none (set_link true so none (shorter q head prev so h))
      ∙ so_head-set_link true so b none (shorter q head prev so h)
      ∙ so_head-set_count q head b
          ((count q (set_link q prev (link q (h so)) h head) + 65535) % 65536)
          (set_link q prev (link q (h so)) h)
      ∙ so_head-set_link q prev b (link q (h so)) h

  count-left :
      (p : Bool) → count p (left q head prev so h head) ≡ count p (shorter q head prev so h head)
  count-left p =
      count-set_head p so head none (cleared q head prev so h)
      ∙ count-set_link p false so head none (set_link true so none (shorter q head prev so h))
      ∙ count-set_link p true so head none (shorter q head prev so h)

  count-left_self : count q (left q head prev so h head) ≡ (count q (h head) + 65535) % 65536
  count-left_self =
      count-left q
      ∙ count-set_count_self q head
          ((count q (set_link q prev (link q (h so)) h head) + 65535) % 65536)
          (set_link q prev (link q (h so)) h)
      ∙ ap (λ n. (n + 65535) % 65536) (count-set_link q q prev head (link q (h so)) h)

  count-left_other : count (not q) (left q head prev so h head) ≡ count (not q) (h head)
  count-left_other =
      count-left (not q)
      ∙ count-set_count_other q head head
          ((count q (set_link q prev (link q (h so)) h head) + 65535) % 65536)
          (set_link q prev (link q (h so)) h)
      ∙ count-set_link (not q) q prev head (link q (h so)) h

  pub so_state-left : (b : ℕ) → (left q head prev so h b).so_state ≡ (h b).so_state
  so_state-left b =
      so_state-set_head so b none (cleared q head prev so h)
      ∙ so_state-set_link false so b none (set_link true so none (shorter q head prev so h))
      ∙ so_state-set_link true so b none (shorter q head prev so h)
      ∙ so_state-set_count q head b
          ((count q (set_link q prev (link q (h so)) h head) + 65535) % 65536)
          (set_link q prev (link q (h so)) h)
      ∙ so_state-set_link q prev b (link q (h so)) h

  pub left-other :
      (ys : List ℕ)
      → Queue (not q) h head ys
      → Apart so (head ∷ ys)
      → Queue (not q) (left q head prev so h) head ys
  left-other ys k a =
      Queue-kept (not q) h (left q head prev so h) head so ys
        (λ b ne. link-left (not q) b ne ∙ link-set_link_other q prev b (link q (h so)) h)
        so_head-left count-left_other a k

soqremque_by_search :
    (fuel : ℕ) (q : Bool) (h : Heap) (head so : ℕ) (s : Search)
    → (h so).so_head ≡ some head
    → find_from fuel q h so head ≡ s
    → soqremque fuel so q h ≡ remove_found head so q h s
unfolding soqremque
soqremque_by_search fuel q h head so s e f =
    ap (λ o. elim o [ none ↦ none | some a ↦ remove_found a so q h (find_from fuel q h so a) ]) e
    ∙ ap (remove_found head so q h) f

module _ (q : Bool) (head so : ℕ) (h : Heap) (ys zs : List ℕ) where
  pub left-Queue :
      Queue q h head (ys ++ (so ∷ zs))
      → Distinct (head ∷ (ys ++ (so ∷ zs)))
      → Queue q (left q head (last head ys) so h) head (ys ++ zs)
  left-Queue k d =
      let apart = Distinct-middle so (head ∷ ys) zs d in
      let after = set_link q (last head ys) (link q (h so)) h in
      let new = left q head (last head ys) so h in
      record {
        links =
            Links-kept q after new head (ys ++ zs)
              (Keeps-Apart q after new so (head ∷ (ys ++ zs))
                (link-left q head (last head ys) so h q) apart)
              (Links-remove q h head so ys zs k.links d);
        counted =
            count-left_self q head (last head ys) so h
            ∙ ap (λ n. (n + 65535) % 65536) k.counted
            ∙ ap (λ n. (n % 65536 + 65535) % 65536) (length-middle so ys zs)
            ∙ one_less (length (ys ++ zs));
        heads =
            Heads-kept h new head so (ys ++ zs) (so_head-left q head (last head ys) so h) apart.1
              (Heads-middle h head so ys zs k.heads).1;
      }

  pub left-result :
      (fuel : ℕ)
      → Queue q h head (ys ++ (so ∷ zs))
      → Distinct (head ∷ (ys ++ (so ∷ zs)))
      → length ys < fuel
      → soqremque fuel so q h ≡ some (left q head (last head ys) so h, true)
  unfolding remove_found unlink
  left-result fuel k d f =
      let e =
        find_from-before fuel q h so head ys zs k.links
          (Apart-prefix so ys zs (Distinct-middle so (head ∷ ys) zs d).1) f in
      soqremque_by_search fuel q h head so (before (last head ys))
        (Heads-middle h head so ys zs k.heads).0 e

-- A socket of the other queue is not found.
pub kept_result :
    (fuel : ℕ) (q : Bool) (h : Heap) (head so : ℕ) (xs : List ℕ)
    → (h so).so_head ≡ some head
    → Queue q h head xs
    → Apart so xs
    → length xs < fuel
    → soqremque fuel so q h ≡ some (h, false)
unfolding remove_found
kept_result fuel q h head so xs e k a f =
    let s = find_from-missing fuel q h so head xs k.links a f in
    soqremque_by_search fuel q h head so missing e s
