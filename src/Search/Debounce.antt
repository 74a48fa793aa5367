-- ===== src/Search/Debounce.antt =====
-- The timer between the typed text and the searched one.
use dtsys.Prelude.{
  ℕ, ◌≡◌, refl, sym, ap, subst, Bool-cases, ◌⊎◌, inl, inr, Bool, true, false, not, List, [], ◌∷◌,
  Option, none, some, ◌==◌, ==_iff, if_elim, length,
}
use dtsys.Prelude.Text.{Text, trim, trim_start, trim_end}
use dtsys.Search.{
  Overlay, FoundDevice, FoundSoftware, settle, restart, clear_timeout, set_open, set_query,
  handle_select, SearchResult, ListKey, arrow_down, arrow_up, enter, other_key, select_result,
  press_key, on_list_key, fire_timer, OverlayEvent, opened_or_closed, typed, clicked, pressed,
  fired, answered, handle, results, target_of, is_asked,
}

-- The searched text is the typed one without the spaces around it, or one timer is under way and will
-- make it so.
abbrev pub IsDebounced : Overlay → Type 0
IsDebounced s =
    ((s.timers ≡ []) × (s.debounced_query ≡ trim s.query))
    ⊎ ((t : ℕ) × (s.timeout ≡ some t) × (s.timers ≡ (t, trim s.query) ∷ []))

clear_timeout-nil : (o : Option ℕ) → clear_timeout o [] ≡ []
clear_timeout-nil none = refl
clear_timeout-nil (some t) = refl

cleared_one : (t : ℕ) (text : Text) → clear_timeout (some t) ((t, text) ∷ []) ≡ []
cleared_one t text = rw ((==_iff t t).1 refl) refl

-- The cleanup of the first effect leaves no timer behind.
cleared : (s : Overlay) → IsDebounced s → clear_timeout s.timeout s.timers ≡ []
cleared s (inl (none_left, e)) =
    subst (λ l. clear_timeout s.timeout l ≡ []) (sym none_left) (clear_timeout-nil s.timeout)
cleared s (inr (t, current, timers)) =
    subst (λ o. clear_timeout o s.timers ≡ []) (sym current)
      (subst (λ l. clear_timeout (some t) l ≡ []) (sym timers) (cleared_one t (trim s.query)))

restart-IsDebounced :
    (s : Overlay) → clear_timeout s.timeout s.timers ≡ [] → IsDebounced (restart s)
unfolding restart trim trim_start trim_end
restart-IsDebounced s h =
    if_elim IsDebounced s.search_open
      (λ t. inr (s.next_timer, refl, ap (λ r. (s.next_timer, trim s.query) ∷ r) h))
      (λ f. inl (h, refl))

set_open-IsDebounced : (b : Bool) (s : Overlay) → IsDebounced s → IsDebounced (set_open b s)
unfolding set_open
set_open-IsDebounced true s h =
    if_elim IsDebounced s.search_open (λ t. h)
      (λ f. restart-IsDebounced (record s { search_open = true }) (cleared s h))
set_open-IsDebounced false s h =
    if_elim IsDebounced s.search_open
      (λ t. restart-IsDebounced (record s { search_open = false }) (cleared s h)) (λ f. h)

set_query-IsDebounced : (text : Text) (s : Overlay) → IsDebounced s → IsDebounced (set_query text s)
unfolding set_query
set_query-IsDebounced text s h = restart-IsDebounced (record s { query = text }) (cleared s h)

handle_select-IsDebounced :
    (result : SearchResult) (s : Overlay) → IsDebounced s → IsDebounced (handle_select result s)
unfolding handle_select
handle_select-IsDebounced result s h =
    set_open-IsDebounced false (record s { visited = target_of result ∷ s.visited }) h

fire_timer-IsDebounced :
    (t : ℕ) (ds : List FoundDevice) (ps : List FoundSoftware) (s : Overlay)
    → IsDebounced s
    → IsDebounced (fire_timer t ds ps s)
unfolding fire_timer
fire_timer-IsDebounced t ds ps s (inl (none_left, e)) = rw none_left (inl (refl, e))
fire_timer-IsDebounced t ds ps s (inr (u, current, timers)) =
    rw timers (elim (Bool-cases (u == t)) [
      | inl e ↦ rw e (inl (refl, refl))
      | inr e ↦ rw e (inr (u, current, refl))
    ])

pub settle-IsDebounced : (s : Overlay) → IsDebounced s → IsDebounced (settle s)
unfolding settle
settle-IsDebounced s h = if_elim IsDebounced _ (λ t. h) (λ f. h)

-- An event, if it leads anywhere.
unfoldable pub Debounced : Option Overlay → Type 0
Debounced none = Unit
Debounced (some s) = IsDebounced s

select_result-IsDebounced :
    (o : Option SearchResult) (s : Overlay) → IsDebounced s → Debounced (select_result o s)
unfolding Debounced
select_result-IsDebounced none s h = tt
select_result-IsDebounced (some r) s h = handle_select-IsDebounced r s h

press_key-IsDebounced : (key : ListKey) (s : Overlay) → IsDebounced s → Debounced (press_key key s)
unfolding Debounced
press_key-IsDebounced arrow_down s h = h
press_key-IsDebounced arrow_up s h = h
press_key-IsDebounced enter s h = select_result-IsDebounced _ s h
press_key-IsDebounced other_key s h = h

pub handle-IsDebounced : (e : OverlayEvent) (s : Overlay) → IsDebounced s → Debounced (handle e s)
unfolding handle on_list_key Debounced
handle-IsDebounced (opened_or_closed b) s h = set_open-IsDebounced b s h
handle-IsDebounced (typed text) s h =
    if_elim IsDebounced s.search_open (λ t. set_query-IsDebounced text s h) (λ f. h)
handle-IsDebounced (clicked r) s h =
    if_elim IsDebounced s.search_open (λ t. handle_select-IsDebounced r s h) (λ f. h)
handle-IsDebounced (pressed key) s h =
    if_elim Debounced (not s.search_open) (λ t. h)
      (λ f.
        if_elim Debounced (length (results s) == 0) {x = some s} (λ t. h)
          (λ f. press_key-IsDebounced key s h))
handle-IsDebounced (fired t ds ps) s h = fire_timer-IsDebounced t ds ps s h
handle-IsDebounced (answered ds ps) s h = if_elim IsDebounced (is_asked s) (λ t. h) (λ f. h)
