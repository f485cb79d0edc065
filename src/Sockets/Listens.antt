-- ===== src/Sockets/Listens.antt =====
-- A listening socket and both of its queues in generic/kern/uipc_socket2.c.
use anp.Prelude.{
  ℕ, ◌<◌, ◌≡◌, ◌≢◌, sym, ap, ◌∙◌, Bool, true, false, none, some, List, [], ◌∷◌, ◌++◌, length,
}
use anp.Sockets.{SoState, Heap, soqremque}
use anp.Sockets.Links.{Links, Apart, Distinct, last}
use anp.Sockets.Fields.{link-set_state, count-set_state, so_head-set_state, so_state-set_state}
use anp.Sockets.Queues.{
  Queue, Heads, entered, entered-result, entered-Queue, entered-other, so_state-entered,
}
use anp.Sockets.Removal.{
  Apart-middle, Distinct-middle, Heads-middle, left, left-result, left-Queue, left-other,
  so_state-left,
}
use anp.Sockets.Changes.{
  readers, writers, timeo, set_state, is_connected, and_wakeups, completed, soisconnected,
}

abbrev pub Disjoint : List ℕ → List ℕ → Type 0
Disjoint [] ys = Unit
Disjoint (x ∷ xs) ys = Apart x ys × Disjoint xs ys

-- `waiting` are the sockets of `so_q0` from the oldest on, `ready` those of `so_q`; no socket is in a queue twice.
pub record Listens (h : Heap) (head : ℕ) (waiting ready : List ℕ) : Type 0 where
  pub q0 : Queue false h head waiting
  pub q : Queue true h head ready
  pub distinct_q0 : Distinct (head ∷ waiting)
  pub distinct_q : Distinct (head ∷ ready)
  pub disjoint : Disjoint waiting ready

Apart-append : (a so : ℕ) (xs : List ℕ) → Apart a xs → so ≢ a → Apart a (xs ++ (so ∷ []))
Apart-append a so [] k n = (n, tt)
Apart-append a so (x ∷ xs) (k, ks) n = (k, Apart-append a so xs ks n)

Distinct-append : (so : ℕ) (xs : List ℕ) → Distinct xs → Apart so xs → Distinct (xs ++ (so ∷ []))
Distinct-append so [] d a = (tt, tt)
Distinct-append so (x ∷ xs) (d, ds) (a, a2) =
    (Apart-append x so xs d (λ e. a (sym e)), Distinct-append so xs ds a2)

Distinct-remove : (so : ℕ) (ys zs : List ℕ) → Distinct (ys ++ (so ∷ zs)) → Distinct (ys ++ zs)
Distinct-remove so [] zs (_, d) = d
Distinct-remove so (y ∷ ys) zs (a, d) = ((Apart-middle y so ys zs a).1, Distinct-remove so ys zs d)

Disjoint-middle :
    (so : ℕ) (ys zs ws : List ℕ)
    → Disjoint (ys ++ (so ∷ zs)) ws
    → Apart so ws × Disjoint (ys ++ zs) ws
Disjoint-middle so [] zs ws k = k
Disjoint-middle so (y ∷ ys) zs ws (k, ks) =
    let (a, d) = Disjoint-middle so ys zs ws ks in (a, (k, d))

Disjoint-append :
    (so : ℕ) (xs ws : List ℕ) → Disjoint xs ws → Apart so xs → Disjoint xs (ws ++ (so ∷ []))
Disjoint-append so [] ws k a = tt
Disjoint-append so (x ∷ xs) ws (k, ks) (n, ns) =
    (Apart-append x so ws k (λ e. n (sym e)), Disjoint-append so xs ws ks ns)

Queue-set_state :
    (q : Bool) (so : ℕ) (s : SoState) (h : Heap) (head : ℕ) (xs : List ℕ)
    → Queue q h head xs
    → Queue q (set_state so s h) head xs
Queue-set_state q so s h head xs k = record {
  links = go_links head xs k.links;
  counted = count-set_state q so head s h ∙ k.counted;
  heads = go_heads xs k.heads;
}
  where
    go_links : (a : ℕ) (xs : List ℕ) → Links q h a xs → Links q (set_state so s h) a xs
    go_links a [] l = link-set_state q so a s h ∙ l
    go_links a (x ∷ xs) (l, ls) = (link-set_state q so a s h ∙ l, go_links x xs ls)

    go_heads : (xs : List ℕ) → Heads h head xs → Heads (set_state so s h) head xs
    go_heads [] k = tt
    go_heads (x ∷ xs) (k, ks) = (so_head-set_state so x s h ∙ k, go_heads xs ks)

abbrev transferred : ℕ → ℕ → List ℕ → List ℕ → Heap → Heap
transferred head so ys ws h =
    entered true head so ws
      (left false head (last head ys) so (set_state so (is_connected (h so).so_state) h))

module _ (head so : ℕ) (ys zs ws : List ℕ) (h : Heap)
    (k : Listens h head (ys ++ (so ∷ zs)) ws) where
  transferred-result :
      (fuel : ℕ)
      → length ys < fuel
      → length ws < fuel
      → soisconnected fuel so h
        ≡ some (transferred head so ys ws h, readers head ∷ (timeo head ∷ []))
  unfolding soisconnected
  transferred-result fuel fy fw =
      let h1 = set_state so (is_connected (h so).so_state) h in
      let h2 = left false head (last head ys) so h1 in
      let q0_before =
        Queue-set_state false so (is_connected (h so).so_state) h head (ys ++ (so ∷ zs)) k.q0 in
      let q_before = Queue-set_state true so (is_connected (h so).so_state) h head ws k.q in
      let apart = Distinct-middle so (head ∷ ys) zs k.distinct_q0 in
      let new = (Disjoint-middle so ys zs ws k.disjoint).0 in
      let q_left = left-other false head (last head ys) so h1 ws q_before (apart.0, new) in
      let own = timeo so ∷ (readers so ∷ (writers so ∷ [])) in
      ap
        (λ o. elim o [
          | none ↦ some (h1, own)
          | some a ↦ completed fuel a so (soqremque fuel so false h1)
        ])
        (Heads-middle h head so ys zs k.q0.heads).0
      ∙ ap (completed fuel head so)
          (left-result false head so h1 ys zs fuel q0_before k.distinct_q0 fy)
      ∙ ap (λ o. and_wakeups o (readers head ∷ (timeo head ∷ [])))
          (entered-result true head so h2 fuel ws q_left.links (apart.0, new) fw)

  transferred-Listens : Listens (transferred head so ys ws h) head (ys ++ zs) (ws ++ (so ∷ []))
  transferred-Listens =
      let h1 = set_state so (is_connected (h so).so_state) h in
      let h2 = left false head (last head ys) so h1 in
      let q0_before =
        Queue-set_state false so (is_connected (h so).so_state) h head (ys ++ (so ∷ zs)) k.q0 in
      let q_before = Queue-set_state true so (is_connected (h so).so_state) h head ws k.q in
      let apart = Distinct-middle so (head ∷ ys) zs k.distinct_q0 in
      let (new, rest) = Disjoint-middle so ys zs ws k.disjoint in
      let q_left = left-other false head (last head ys) so h1 ws q_before (apart.0, new) in
      record {
        q0 =
            entered-other true head so h2 ws (ys ++ zs)
              (left-Queue false head so h1 ys zs q0_before k.distinct_q0) apart;
        q = entered-Queue true head so h2 ws q_left k.distinct_q (apart.0, new);
        distinct_q0 = Distinct-remove so (head ∷ ys) zs k.distinct_q0;
        distinct_q = Distinct-append so (head ∷ ws) k.distinct_q (apart.0, new);
        disjoint = Disjoint-append so (ys ++ zs) ws rest apart.1;
      }

  transferred-state : (transferred head so ys ws h so).so_state ≡ is_connected (h so).so_state
  transferred-state =
      let h1 = set_state so (is_connected (h so).so_state) h in
      so_state-entered true head so (left false head (last head ys) so h1) ws so
      ∙ so_state-left false head (last head ys) so h1 so
      ∙ so_state-set_state so (is_connected (h so).so_state) h

-- `soisconnected` on a socket that waits in `so_q0` of a listening socket is defined once the fuel exceeds the place of the
-- socket in `so_q0` and the length of `so_q`. It takes the socket out of `so_q0`, wherever it stands there, and puts it at the
-- end of `so_q`; the other sockets keep their order, both lengths are counted modulo 2^16, and every queued socket points
-- back at the listening socket. The socket is connected and no longer connecting, disconnecting or confirming, and the
-- wakeups are those of the listening socket.
pub soisconnected-Listens :
    (fuel head so : ℕ) (ys zs ws : List ℕ) (h : Heap)
    → Listens h head (ys ++ (so ∷ zs)) ws
    → length ys < fuel
    → length ws < fuel
    → (h' : Heap) × (soisconnected fuel so h ≡ some (h', readers head ∷ (timeo head ∷ [])))
      × Listens h' head (ys ++ zs) (ws ++ (so ∷ []))
      × ((h' so).so_state ≡ is_connected (h so).so_state)
soisconnected-Listens fuel head so ys zs ws h k fy fw = (
  transferred head so ys ws h,
  transferred-result head so ys zs ws h k fuel fy fw,
  transferred-Listens head so ys zs ws h k,
  transferred-state head so ys zs ws h k,
)
