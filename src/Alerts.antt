-- ===== src/Alerts.antt =====
-- The store of unresolved alerts (frontend/src/store/alertStore.ts). An operation of the store is a
-- function from the old state to the new one.
pub mod Store
pub mod Refinement
mod Tests
use dtsys.Prelude.{
  String, Bool, true, false, not, ◌&&◌, List, [], ◌∷◌, Option, none, some, ◌==◌, str_eq,
  if◌then◌else◌, length, filter,
}
use dtsys.Types.{Alert}

pub record AlertState : Type 0 where
  pub unresolved : List Alert

unfoldable pub initial : AlertState
initial = record { unresolved = [] }

-- `current.every((existing, index) => existing.id === alerts[index]?.id)`.
unfoldable pub same_ids : List Alert → List Alert → Bool
same_ids [] alerts = true
same_ids (existing ∷ rest) [] = false
same_ids (existing ∷ rest) (a ∷ alerts) = str_eq existing.id a.id && same_ids rest alerts

unfoldable pub set_unresolved : List Alert → AlertState → AlertState
unfolding same_ids
set_unresolved alerts state =
    if length state.unresolved == length alerts
    then (if same_ids state.unresolved alerts then state else record { unresolved = alerts })
    else record { unresolved = alerts }

-- `unresolved.filter((existing) => existing.id !== id)`.
unfoldable pub without : String → List Alert → List Alert
without id alerts = filter (λ existing. not (str_eq existing.id id)) alerts

unfoldable pub add_alert : Alert → AlertState → AlertState
unfolding without
add_alert a state = record { unresolved = a ∷ without a.id state.unresolved }

unfoldable pub resolve : String → AlertState → AlertState
unfolding without
resolve id state = record { unresolved = without id state.unresolved }

-- The calls that change the store.
pub data Op : Type 0 where
  set_all : List Alert → Op
  add : Alert → Op
  remove : String → Op

unfoldable pub apply : Op → AlertState → AlertState
unfolding set_unresolved add_alert resolve
apply (set_all alerts) = set_unresolved alerts
apply (add a) = add_alert a
apply (remove id) = resolve id

unfoldable pub run : List Op → AlertState → AlertState
unfolding apply
run [] state = state
run (op ∷ ops) state = run ops (apply op state)
