-- ===== src/Sockets/Changes.antt =====
-- The changes of a connection's state in generic/kern/uipc_socket2.c: `soisconnecting` to `soisdisconnected`,
-- `socantsendmore` and `socantrcvmore`, with the wakeups in the order of the code.
use anp.Prelude.{ℕ, Bool, true, false, Option, none, some, List, [], ◌∷◌}
use anp.Sockets.{SoState, Heap, update, soqinsque, soqremque}

-- `sorwakeup`, `sowwakeup`, and `wakeup` on `so_timeo`.
pub data Wakeup : Type 0 where
  readers : ℕ → Wakeup
  writers : ℕ → Wakeup
  timeo : ℕ → Wakeup

abbrev pub set_state : ℕ → SoState → Heap → Heap
set_state so s h = update h so (record (h so) { so_state = s })

unfoldable pub soisconnecting : ℕ → Heap → Heap
soisconnecting so h =
    set_state so
      (record (h so).so_state { connected = false; disconnecting = false; connecting = true }) h

abbrev pub is_connected : SoState → SoState
is_connected s = record s {
  connecting = false;
  disconnecting = false;
  confirming = false;
  connected = true;
}

abbrev pub and_wakeups : Option Heap → List Wakeup → Option (Heap × List Wakeup)
and_wakeups none ws = none
and_wakeups (some h) ws = some (h, ws)

-- What follows the test of `soisconnected`, with the result of `soqremque`.
abbrev pub completed : ℕ → ℕ → ℕ → Option (Heap × Bool) → Option (Heap × List Wakeup)
completed fuel head so none = none
completed fuel head so (some (h, true)) =
    and_wakeups (soqinsque fuel head so true h) (readers head ∷ (timeo head ∷ []))
completed fuel head so (some (h, false)) = some (h, timeo so ∷ (readers so ∷ (writers so ∷ [])))

unfoldable pub soisconnected : ℕ → ℕ → Heap → Option (Heap × List Wakeup)
soisconnected fuel so h =
    let h1 = set_state so (is_connected (h so).so_state) h in
    elim ((h so).so_head) [
      | none ↦ some (h1, timeo so ∷ (readers so ∷ (writers so ∷ [])))
      | some head ↦ completed fuel head so (soqremque fuel so false h1)
    ]

unfoldable pub soisdisconnecting : ℕ → Heap → Heap × List Wakeup
soisdisconnecting so h =
    let s = record (h so).so_state {
      connecting = false;
      disconnecting = true;
      cant_rcv_more = true;
      cant_send_more = true;
    } in
    (set_state so s h, timeo so ∷ (writers so ∷ (readers so ∷ [])))

unfoldable pub soisdisconnected : ℕ → Heap → Heap × List Wakeup
soisdisconnected so h =
    let s = record (h so).so_state {
      connecting = false;
      connected = false;
      disconnecting = false;
      cant_rcv_more = true;
      cant_send_more = true;
    } in
    (set_state so s h, timeo so ∷ (writers so ∷ (readers so ∷ [])))

unfoldable pub socantsendmore : ℕ → Heap → Heap × List Wakeup
socantsendmore so h =
    (set_state so (record (h so).so_state { cant_send_more = true }) h, writers so ∷ [])

unfoldable pub socantrcvmore : ℕ → Heap → Heap × List Wakeup
socantrcvmore so h =
    (set_state so (record (h so).so_state { cant_rcv_more = true }) h, readers so ∷ [])
