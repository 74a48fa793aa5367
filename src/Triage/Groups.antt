-- ===== src/Triage/Groups.antt =====
-- What the groups, the figures and the button of the alerts' page are made of.
use dtsys.Prelude.{
  get_or, ℕ, ◌+◌, String, ◌≡◌, ◌↔◌, refl, sym, ap, ◌∙◌, Bool, true, false, List, [], ◌∷◌, ◌++◌,
  append_assoc, arith, str_eq, str_eq_iff, if◌then◌else◌, filter, subst, ◌||◌, length, append-nil,
  if_elim, Bool-cases, inl, inr,
}
use dtsys.Prelude.Table.{Entry, get, update, get-update, update-HasDistinctKeys, HasDistinctKeys}
use dtsys.Types.{Severity, info, warning, critical, Alert}
use dtsys.Triage.{
  add_last, every_resolved, resolve_all, is_disabled, grouped_by_device, Summary, summary_of,
  no_alerts, count_severity,
}

abbrev pub is_of : String → Alert → Bool
is_of id a = str_eq a.device_id id

abbrev pub group_or_empty : String → List (Entry (List Alert)) → List Alert
group_or_empty id acc = get_or (get id acc) []

group_or_empty-update :
    (a : Alert) (id : String) (acc : List (Entry (List Alert)))
    → group_or_empty id (update a.device_id (add_last a) acc)
      ≡ (if is_of id a then group_or_empty id acc ++ a ∷ [] else group_or_empty id acc)
group_or_empty-update a id acc = elim (Bool-cases (is_of id a)) [
  | inl e ↦
      rw (get-update a.device_id (add_last a) id acc, e)
        (ap (λ k. group_or_empty k acc ++ a ∷ []) ((str_eq_iff a.device_id id).0 e))
  | inr e ↦ rw (get-update a.device_id (add_last a) id acc, e) refl
]

group-grouped_by_device :
    (id : String) (alerts : List Alert) (acc : List (Entry (List Alert)))
    → group_or_empty id (grouped_by_device alerts acc)
      ≡ group_or_empty id acc ++ filter (is_of id) alerts
unfolding grouped_by_device
group-grouped_by_device id [] acc = sym (append-nil (group_or_empty id acc))
group-grouped_by_device id (a ∷ alerts) acc =
    group-grouped_by_device id alerts (update a.device_id (add_last a) acc)
    ∙ (ap (λ g. g ++ filter (is_of id) alerts) (group_or_empty-update a id acc)
        ∙ if_elim
            (λ g.
              g ++ filter (is_of id) alerts
              ≡ group_or_empty id acc ++ filter (is_of id) (a ∷ alerts))
            (is_of id a)
            (λ t. rw t (append_assoc (group_or_empty id acc) (a ∷ []) (filter (is_of id) alerts)))
            (λ f. rw f refl))

grouped-HasDistinctKeys :
    (alerts : List Alert) (acc : List (Entry (List Alert)))
    → HasDistinctKeys acc
    → HasDistinctKeys (grouped_by_device alerts acc)
unfolding grouped_by_device
grouped-HasDistinctKeys [] acc h = h
grouped-HasDistinctKeys (a ∷ alerts) acc h =
    grouped-HasDistinctKeys alerts (update a.device_id (add_last a) acc)
      (update-HasDistinctKeys a.device_id (add_last a) acc h)

-- The sum of the figures.
abbrev pub sum_of : Summary → ℕ
sum_of s = s.critical_count + s.warning_count + s.info_count

sum_of-count_severity : (v : Severity) (s : Summary) → sum_of (count_severity v s) ≡ sum_of s + 1
sum_of-count_severity info s = omega arith
sum_of-count_severity warning s = omega arith
sum_of-count_severity critical s = omega arith

sum_of-summary_of :
    (alerts : List Alert) (acc : Summary)
    → sum_of (summary_of alerts acc) ≡ sum_of acc + length alerts
unfolding summary_of
sum_of-summary_of [] acc = omega arith
sum_of-summary_of (a ∷ alerts) acc = omega (
  arith,
  sum_of-summary_of alerts (count_severity a.severity acc),
  sum_of-count_severity a.severity acc,
)

every_resolved_iff : (alerts : List Alert) → every_resolved alerts ≡ true ↔ resolve_all alerts ≡ []
unfolding every_resolved resolve_all
every_resolved_iff [] = (λ h. refl, λ h. refl)
every_resolved_iff (a ∷ alerts) = elim (Bool-cases a.is_resolved) [
  | inl e ↦ rw e (every_resolved_iff alerts)
  | inr e ↦ rw e (λ h. absurd (ground (arith, h)), λ h. absurd (ground (arith, h)))
]

or_false : (b : Bool) → (b || false) ≡ b
or_false b = ground arith

is_disabled_iff : (alerts : List Alert) → is_disabled alerts false ≡ true ↔ resolve_all alerts ≡ []
is_disabled_iff alerts =
    subst (λ b. (b ≡ true) ↔ (resolve_all alerts ≡ [])) (sym (or_false (every_resolved alerts)))
      (every_resolved_iff alerts)

-- The page shows under each device exactly the alerts of that device, in the order of the list, and each
-- device once; its figures add up to the number of alerts; and the button of a device is enabled, while no
-- request is under way, exactly if it sends something.
pub grouped_by_device_lem :
    (id : String) (alerts : List Alert)
    → (group_or_empty id (grouped_by_device alerts []) ≡ filter (is_of id) alerts)
      × HasDistinctKeys (grouped_by_device alerts [])
      × (sum_of (summary_of alerts no_alerts) ≡ length alerts)
      × (is_disabled alerts false ≡ true ↔ resolve_all alerts ≡ [])
unfolding get
grouped_by_device_lem id alerts = (
  group-grouped_by_device id alerts [],
  grouped-HasDistinctKeys alerts [] tt,
  omega (arith, sum_of-summary_of alerts no_alerts),
  is_disabled_iff alerts,
)
