-- ===== src/Search/Selection.antt =====
-- The chosen result, and what every run of the overlay keeps.
use dtsys.Prelude.{
  ℕ, zero, suc, ◌+◌, ◌-◌, ◌%◌, ◌<◌, max, ◌≡◌, refl, ap, subst, false, not, List, [], ◌∷◌, some,
  arith, ◌==◌, if_elim, length, get_elem?, inl,
}
use dtsys.Prelude.Text.{trim, trim_start, trim_end}
use dtsys.Search.{
  Overlay, closed, results, settle, ListKey, arrow_down, arrow_up, enter, other_key, select_result,
  press_key, on_list_key, OverlayEvent, opened_or_closed, typed, clicked, pressed, fired, answered,
  handle, step, run,
}
use dtsys.Search.Debounce.{IsDebounced, Debounced, handle-IsDebounced, settle-IsDebounced}

-- The selected index has a result behind it, or there is no result and it is 0.
abbrev pub IsInRange : Overlay → Type 0
IsInRange s = s.selected_index < max 1 (length (results s))

abbrev pub IsSound : Overlay → Type 0
IsSound s = IsInRange s × IsDebounced s

settle-IsInRange : (s : Overlay) → IsInRange (settle s)
unfolding settle results
settle-IsInRange s = ground arith

get_elem?-lt {ℓ} :
    {A : Type ℓ} (xs : List A) (i : ℕ) → i < length xs → (x : A) × (get_elem? xs i ≡ some x)
get_elem?-lt [] i h = absurd (omega arith)
get_elem?-lt (x ∷ xs) zero h = (x, refl)
get_elem?-lt (x ∷ xs) (suc i) h = get_elem?-lt xs i (omega arith)

press_key_lem :
    (key : ListKey) (s : Overlay)
    → IsInRange s
    → (length (results s) == 0) ≡ false
    → (r : Overlay) × (press_key key s ≡ some r)
press_key_lem arrow_down s h k = (_, refl)
press_key_lem arrow_up s h k = (_, refl)
press_key_lem enter s h k =
    let (x, e) = get_elem?-lt (results s) s.selected_index (ground arith) in
    (_, ap (λ o. select_result o s) e)
press_key_lem other_key s h k = (_, refl)

-- No event leads to an exception.
handle_lem : (e : OverlayEvent) (s : Overlay) → IsInRange s → (r : Overlay) × (handle e s ≡ some r)
unfolding handle on_list_key
handle_lem (opened_or_closed b) s h = (_, refl)
handle_lem (typed text) s h = (_, refl)
handle_lem (clicked r) s h = (_, refl)
handle_lem (pressed key) s h =
    if_elim (λ o. (r : Overlay) × (o ≡ some r)) (not s.search_open) (λ t. (s, refl))
      (λ f.
        if_elim (λ o. (r : Overlay) × (o ≡ some r)) (length (results s) == 0) (λ t. (s, refl))
          (λ f. press_key_lem key s h f))
handle_lem (fired t ds ps) s h = (_, refl)
handle_lem (answered ds ps) s h = (_, refl)

step_lem :
    (e : OverlayEvent) (s : Overlay) → IsSound s → (r : Overlay) × (step e s ≡ some r) × IsSound r
unfolding step Debounced
step_lem e s h =
    let (r, eq) = handle_lem e s h.0 in
    let d : IsDebounced r = subst Debounced eq (handle-IsDebounced e s h.1) in
    (settle r, rw eq refl, (settle-IsInRange r, settle-IsDebounced r d))

run_from :
    (events : List OverlayEvent) (s : Overlay)
    → IsSound s
    → (r : Overlay) × (run events s ≡ some r) × IsSound r
unfolding run
run_from [] s h = (s, refl, h)
run_from (e ∷ events) s h =
    let (r, eq, k) = step_lem e s h in
    let (q, eq2, l) = run_from events r k in (q, rw (eq, eq2) refl, l)

-- Whatever happens to the overlay, no key is answered by an exception; the selected index has a result
-- behind it, or there is none and it is 0; and the searched text is the typed one without the spaces
-- around it, unless exactly one timer is under way, which will make it so.
pub run-IsSound :
    (events : List OverlayEvent) → (r : Overlay) × (run events closed ≡ some r) × IsSound r
unfolding results trim trim_start trim_end
run-IsSound events = run_from events closed (omega arith, inl (refl, refl))

next_index : (i n : ℕ) → i < n → ((i + 1) % n + n - 1) % n ≡ i
next_index i n h = grind arith

-- The arrows go round the list and undo each other.
pub arrows_lem :
    (s : Overlay)
    → s.selected_index < length (results s)
    → (r : Overlay) × (press_key arrow_down s ≡ some r) × (press_key arrow_up r ≡ some s)
unfolding results
arrows_lem s h =
    (_, refl, ap (λ i. some (record s { selected_index = i })) (next_index s.selected_index _ h))
