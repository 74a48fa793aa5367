-- ===== src/Alerts/Refinement.antt =====
-- The alert store as a finite map from ids to alerts: what each operation does to every lookup.
use dtsys.Prelude.{
  String, ◌≡◌, refl, List, [], ◌∷◌, Option, none, some, arith, str_eq, str_eq_iff, if◌then◌else◌,
}
use dtsys.Types.{Alert}
use dtsys.Alerts.{AlertState, without, add_alert, resolve}

-- The alert with this id, the first if there were several.
pub find_alert : String → List Alert → Option Alert
find_alert id [] = none
find_alert id (a ∷ alerts) = if str_eq a.id id then some a else find_alert id alerts

find_alert-without :
    (id j : String) (alerts : List Alert)
    → find_alert j (without id alerts) ≡ (if str_eq id j then none else find_alert j alerts)
unfolding find_alert without
find_alert-without id j [] = ground arith
find_alert-without id j (a ∷ alerts) =
    ground (
      arith,
      str_eq_iff a.id id,
      str_eq_iff a.id j,
      str_eq_iff id j,
      find_alert-without id j alerts,
    )

find_alert-cons :
    (id : String) (a : Alert) (alerts : List Alert)
    → find_alert id (a ∷ alerts) ≡ (if str_eq a.id id then some a else find_alert id alerts)
unfolding find_alert
find_alert-cons id a alerts = refl

-- As a map, `addAlert` sets the alert's id and `resolve` clears its id; every other id keeps its
-- alert.
pub find_alert-apply :
    (a : Alert) (id j : String) (state : AlertState)
    → (find_alert j (add_alert a state).unresolved
        ≡ (if str_eq a.id j then some a else find_alert j state.unresolved))
      × (find_alert j (resolve id state).unresolved
          ≡ (if str_eq id j then none else find_alert j state.unresolved))
unfolding add_alert resolve
find_alert-apply a id j state = (
  ground (
    arith,
    find_alert-cons j a (without a.id state.unresolved),
    find_alert-without a.id j state.unresolved,
  ),
  find_alert-without id j state.unresolved,
)
