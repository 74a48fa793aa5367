-- ===== src/Alerts/Store.antt =====
-- The invariant of the alert store: no two of its alerts share an id.
use dtsys.Prelude.{
  String, ◌≡◌, refl, sym, ◌≢◌, true, List, [], ◌∷◌, arith, All, ◌⊎◌, subst, str_eq_iff, length,
}
use dtsys.Types.{Alert}
use dtsys.Alerts.{
  AlertState, initial, same_ids, set_unresolved, without, Op, set_all, add, remove, apply, run,
}

abbrev pub ids : List Alert → List String
ids [] = []
ids (a ∷ alerts) = a.id ∷ ids alerts

-- No alert of the list has this id.
abbrev pub Lacks : String → List Alert → Type 0
Lacks id alerts = All (λ (k : String). k ≢ id) (ids alerts)

abbrev pub Distinct : List String → Type 0
Distinct [] = Unit
Distinct (k ∷ ks) = All (λ (j : String). j ≢ k) ks × Distinct ks

abbrev pub HasDistinctIds : List Alert → Type 0
HasDistinctIds alerts = Distinct (ids alerts)

pub Lacks-without : (id : String) (alerts : List Alert) → Lacks id (without id alerts)
unfolding without
Lacks-without id [] = tt
Lacks-without id (a ∷ alerts) = ground (arith, str_eq_iff a.id id, Lacks-without id alerts)

Lacks-without_other :
    (id other : String) (alerts : List Alert) → Lacks other alerts → Lacks other (without id alerts)
unfolding without
Lacks-without_other id other [] h = tt
Lacks-without_other id other (a ∷ alerts) h =
    ground (arith, h.0, Lacks-without_other id other alerts h.1)

pub without-HasDistinctIds :
    (id : String) (alerts : List Alert) → HasDistinctIds alerts → HasDistinctIds (without id alerts)
unfolding without
without-HasDistinctIds id [] h = tt
without-HasDistinctIds id (a ∷ alerts) h =
    ground (arith, Lacks-without_other id a.id alerts h.0, without-HasDistinctIds id alerts h.1)

same_ids→ids :
    (xs ys : List Alert) → length xs ≡ length ys → same_ids xs ys ≡ true → ids xs ≡ ids ys
unfolding same_ids
same_ids→ids [] [] l h = refl
same_ids→ids [] (y ∷ ys) l h = absurd (omega arith)
same_ids→ids (x ∷ xs) [] l h = absurd (omega arith)
same_ids→ids (x ∷ xs) (y ∷ ys) l h =
    ground (arith, str_eq_iff x.id y.id, same_ids→ids xs ys (omega arith))

-- Whichever branch is taken, `setUnresolved` leaves the store with the ids of the given alerts, in
-- their order, and with either the given alerts or the ones it had.
pub ids-set_unresolved :
    (alerts : List Alert) (state : AlertState)
    → (ids (set_unresolved alerts state).unresolved ≡ ids alerts)
      × ((set_unresolved alerts state ≡ state)
          ⊎ ((set_unresolved alerts state).unresolved ≡ alerts))
unfolding set_unresolved
ids-set_unresolved alerts state = ground (arith, same_ids→ids state.unresolved alerts)

abbrev pub IsSound : Op → Type 0
IsSound (set_all alerts) = HasDistinctIds alerts
IsSound (add a) = Unit {0}
IsSound (remove id) = Unit {0}

apply-HasDistinctIds :
    (op : Op) (state : AlertState)
    → IsSound op
    → HasDistinctIds state.unresolved
    → HasDistinctIds (apply op state).unresolved
unfolding apply
apply-HasDistinctIds (set_all alerts) state s h =
    subst Distinct (sym (ids-set_unresolved alerts state).0) s
apply-HasDistinctIds (add a) state s h =
    (Lacks-without a.id state.unresolved, without-HasDistinctIds a.id state.unresolved h)
apply-HasDistinctIds (remove id) state s h = without-HasDistinctIds id state.unresolved h

run_from-HasDistinctIds :
    (ops : List Op) (state : AlertState)
    → All IsSound ops
    → HasDistinctIds state.unresolved
    → HasDistinctIds (run ops state).unresolved
unfolding run
run_from-HasDistinctIds [] state s h = h
run_from-HasDistinctIds (op ∷ ops) state s h =
    run_from-HasDistinctIds ops (apply op state) s.1 (apply-HasDistinctIds op state s.0 h)

-- Whatever calls the store has served since it was created, no two of its alerts share an id, if
-- no list given to `setUnresolved` repeats one.
pub run-HasDistinctIds :
    (ops : List Op) → All IsSound ops → HasDistinctIds (run ops initial).unresolved
unfolding initial
run-HasDistinctIds ops s = run_from-HasDistinctIds ops initial s tt
