-- ===== src/Overview/Choice.antt =====
-- The selected devices.
use dtsys.Prelude.{
  if-true-eq-false, ◌≡◌, Bool, true, false, not, List, [], ◌∷◌, ◌++◌, String, arith, str_eq,
  if◌then◌else◌, if_elim, filter, All, All-append,
}
use dtsys.Prelude.Sort.{IsOrdered}
use dtsys.Overview.{
  Overview, source_devices, is_listed, settle, includes_id, toggle_selected, ListEvent, toggled,
  cleared, listed, group_listed, grouped, handle, step, run, first_overview,
}

abbrev pub AreApart : List String → Type 0
AreApart ids = IsOrdered (λ a b. str_eq a b ≡ false) ids

-- Every selected device is in the list that the page shows, and none is selected twice.
abbrev pub IsChosen : Overview → Type 0
IsChosen s =
    AreApart s.selected_ids × All (λ id. is_listed (source_devices s) id ≡ true) s.selected_ids

All-filter {κ} :
    {A : Type 0} (P : A → Type κ) (p : A → Bool) (xs : List A) → All P xs → All P (filter p xs)
All-filter P p [] h = tt
All-filter P p (x ∷ xs) h =
    if_elim (All P) (p x) (λ t. (h.0, All-filter P p xs h.1)) (λ f. All-filter P p xs h.1)

filter_passes : {A : Type 0} (p : A → Bool) (xs : List A) → All (λ x. p x ≡ true) (filter p xs)
filter_passes p [] = tt
filter_passes p (x ∷ xs) =
    if_elim (All (λ y. p y ≡ true)) (p x) (λ t. (t, filter_passes p xs)) (λ f. filter_passes p xs)

AreApart-filter : (p : String → Bool) (ids : List String) → AreApart ids → AreApart (filter p ids)
AreApart-filter p [] h = tt
AreApart-filter p (id ∷ ids) h =
    if_elim AreApart (p id)
      (λ t. (All-filter (λ b. str_eq id b ≡ false) p ids h.0, AreApart-filter p ids h.1))
      (λ f. AreApart-filter p ids h.1)

first_apart : (b c : Bool) → (if b then true else c) ≡ false → b ≡ false
first_apart b c h = ground arith

AreApart-append :
    (ids : List String) (id : String)
    → includes_id ids id ≡ false
    → AreApart ids
    → AreApart (ids ++ id ∷ [])
AreApart-append [] id h k = (tt, tt)
AreApart-append (a ∷ ids) id h k = (
  All-append (λ b. str_eq a b ≡ false) ids (id ∷ []) k.0 (first_apart _ _ h, tt),
  AreApart-append ids id (if-true-eq-false _ _ h) k.1,
)

toggle_selected-AreApart :
    (id : String) (ids : List String) → AreApart ids → AreApart (toggle_selected id ids)
unfolding toggle_selected
toggle_selected-AreApart id ids h =
    if_elim AreApart (includes_id ids id) (λ t. AreApart-filter (λ i. not (str_eq i id)) ids h)
      (λ f. AreApart-append ids id f h)

handle-AreApart :
    (e : ListEvent) (s : Overview) → AreApart s.selected_ids → AreApart (handle e s).selected_ids
unfolding handle
handle-AreApart (toggled d) s h = toggle_selected-AreApart d.id s.selected_ids h
handle-AreApart cleared s h = tt
handle-AreApart (listed devices) s h = h
handle-AreApart (group_listed devices) s h = h
handle-AreApart (grouped id) s h = h

settle-IsChosen : (s : Overview) → AreApart s.selected_ids → IsChosen (settle s)
unfolding settle
settle-IsChosen s h = (
  AreApart-filter (is_listed (source_devices s)) s.selected_ids h,
  filter_passes (is_listed (source_devices s)) s.selected_ids,
)

run_from : (events : List ListEvent) (s : Overview) → IsChosen s → IsChosen (run events s)
unfolding run step
run_from [] s h = h
run_from (e ∷ events) s h =
    run_from events (settle (handle e s)) (settle-IsChosen (handle e s) (handle-AreApart e s h.0))

-- After whatever events, the ids that a bulk command goes to are those of devices in the list at hand,
-- each once.
pub run-IsChosen : (events : List ListEvent) → IsChosen (run events first_overview)
run-IsChosen events = run_from events first_overview (tt, tt)
