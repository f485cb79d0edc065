-- ===== src/Sockets/Tests.antt =====
-- Tests and examples for generic/kern/uipc_socket2.c.
use anp.Prelude.{
  ℕ, ◌≡◌, refl, Bool, true, false, Option, none, some, List, [], ◌∷◌, ◌==◌, if◌then◌else◌, arith,
}
use anp.Sockets.{SoState, Socket, Heap, link, soqinsque, soqremque}
use anp.Sockets.Changes.{readers, timeo, is_connected, soisconnected}
use anp.Sockets.Listens.{Listens, soisconnected-Listens}

abbrev idle : SoState
idle = record {
  connected = false;
  connecting = false;
  disconnecting = false;
  cant_send_more = false;
  cant_rcv_more = false;
  confirming = false;
}

abbrev alone : Socket
alone = record {
  so_state = idle;
  so_head = none;
  so_q0 = none;
  so_q = none;
  so_q0len = 0;
  so_qlen = 0;
}

-- Socket 1 listens: 2, 3 and 4 wait, and 5 is ready.
abbrev heap : Heap
heap a =
    if a == 1
    then record alone { so_q0 = some 2; so_q = some 5; so_q0len = 3; so_qlen = 1 }
    else if a == 2
    then record alone { so_head = some 1; so_q0 = some 3 }
    else if a == 3
    then record alone { so_head = some 1; so_q0 = some 4 }
    else if a == 4
    then record alone { so_head = some 1 }
    else if a == 5
    then record alone { so_head = some 1 }
    else alone

abbrev queue_of : Bool → ℕ → Option Heap → List (Option ℕ)
queue_of q a none = []
queue_of q a (some h) = link q (h a) ∷ (link q (h 3) ∷ (link q (h 5) ∷ []))

abbrev heap_of : {A : Type 0} → Option (Heap × A) → Option Heap
heap_of none = none
heap_of (some (h, _)) = some h

-- A socket that enters at the end.
enters : queue_of true 1 (soqinsque 9 1 7 true heap) ≡ some 5 ∷ (none ∷ (some 7 ∷ []))
unfolding soqinsque
enters = refl

-- A socket in the middle that leaves, and one that is not in the queue.
leaves : queue_of false 2 (heap_of (soqremque 9 3 false heap)) ≡ some 4 ∷ (none ∷ (none ∷ []))
unfolding soqremque
leaves = refl

stays : queue_of false 2 (heap_of (soqremque 9 5 false heap)) ≡ some 3 ∷ (some 4 ∷ (none ∷ []))
unfolding soqremque
stays = refl

moves : queue_of true 1 (heap_of (soisconnected 9 3 heap)) ≡ some 5 ∷ (none ∷ (some 3 ∷ []))
unfolding soisconnected soqremque soqinsque
moves = refl

abbrev two_four : List ℕ
two_four = 2 ∷ (3 ∷ (4 ∷ []))

heap-Listens : Listens heap 1 two_four (5 ∷ [])
heap-Listens = record {
  q0 = record {
    links = (refl, (refl, (refl, refl)));
    counted = refl;
    heads = (refl, (refl, (refl, tt)));
  };
  q = record { links = (refl, refl); counted = refl; heads = (refl, tt) };
  distinct_q0 = (
    (omega arith, (omega arith, (omega arith, tt))),
    ((omega arith, (omega arith, tt)), ((omega arith, tt), (tt, tt))),
  );
  distinct_q = ((omega arith, tt), (tt, tt));
  disjoint = ((omega arith, tt), ((omega arith, tt), ((omega arith, tt), tt)));
}

soisconnected-Listens_example :
    (h' : Heap) × (soisconnected 9 3 heap ≡ some (h', readers 1 ∷ (timeo 1 ∷ [])))
    × Listens h' 1 (2 ∷ (4 ∷ [])) (5 ∷ (3 ∷ []))
    × ((h' 3).so_state ≡ is_connected idle)
soisconnected-Listens_example =
    soisconnected-Listens 9 1 3 (2 ∷ []) (4 ∷ []) (5 ∷ []) heap heap-Listens (ground arith)
      (ground arith)
