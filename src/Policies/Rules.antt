-- ===== src/Policies/Rules.antt =====
-- The policies that the compliance page creates.
use dtsys.Prelude.{
  ℕ, zero, suc, ◌≤◌, ◌≡◌, refl, Bool, true, false, not, ◌||◌, List, [], ◌∷◌, arith, All, All-append,
  if_elim, ltb,
}
use dtsys.Prelude.Text.{trim, is_filled}
use dtsys.Policies.{
  Rule, PolicyBody, Policies, first_policies, add_rule, without_at, remove_rule, submit_policy,
  PolicyEvent, opened, cancelled, rule_added, created, succeeded, failed, name_typed,
  description_typed, value_typed, type_chosen, rule_removed, settled, on_policies, run_policies,
}

abbrev pub HasValue : Rule → Type 0
HasValue r = is_filled r.value ≡ true

-- A name without white space around it, and no rule without a value.
abbrev pub IsComplete : PolicyBody → Type 0
IsComplete body = (is_filled body.name ≡ true) × All HasValue body.rules

-- What has been sent is complete, and at most one request is under way.
abbrev pub AreComplete : Policies → Type 0
AreComplete s =
    All HasValue s.form.rules
    × All IsComplete s.sent
    × (s.under_way ≤ 1)
    × (s.is_pending ≡ ltb 0 s.under_way)

without_at-HasValue :
    (i : ℕ) (rules : List Rule) → All HasValue rules → All HasValue (without_at i rules)
without_at-HasValue i [] h = tt
without_at-HasValue zero (r ∷ rules) h = h.1
without_at-HasValue (suc i) (r ∷ rules) h = (h.0, without_at-HasValue i rules h.1)

add_rule-AreComplete : (s : Policies) → AreComplete s → AreComplete (add_rule s)
unfolding add_rule
add_rule-AreComplete s (r, b, u, p) =
    if_elim AreComplete (is_filled s.new_rule.value)
      (λ t. (All-append HasValue s.form.rules (s.new_rule ∷ []) r (t, tt), b, u, p))
      (λ f. (r, b, u, p))

may_send : (a b : Bool) → (not a || b) ≡ false → (a ≡ true) × (b ≡ false)
may_send a b h = ground arith

submit_policy-AreComplete : (s : Policies) → AreComplete s → AreComplete (submit_policy s)
unfolding submit_policy
submit_policy-AreComplete s (r, b, u, p) =
    if_elim AreComplete (not (is_filled (trim s.form.name)) || s.is_pending) (λ t. (r, b, u, p))
      (λ f.
        let (n, q) = may_send (is_filled (trim s.form.name)) s.is_pending f in
        (r, ((n, r), b), ground (arith, p, q, u), ground (arith, p, q, u)))

settled-AreComplete : (s : Policies) → AreComplete s → AreComplete (settled s)
settled-AreComplete s (r, b, u, p) = (r, b, omega (arith, u), ground (arith, u))

on_policies-AreComplete :
    (e : PolicyEvent) (s : Policies) → AreComplete s → AreComplete (on_policies e s)
unfolding on_policies remove_rule
on_policies-AreComplete opened s h = h
on_policies-AreComplete cancelled s (r, b, u, p) = (tt, b, u, p)
on_policies-AreComplete rule_added s h = add_rule-AreComplete s h
on_policies-AreComplete created s h = submit_policy-AreComplete s h
on_policies-AreComplete succeeded s h =
    if_elim AreComplete (ltb 0 s.under_way)
      (λ t. let (r, b, u, p) = settled-AreComplete s h in (tt, b, u, p)) (λ f. h)
on_policies-AreComplete failed s h =
    if_elim AreComplete (ltb 0 s.under_way) (λ t. settled-AreComplete s h) (λ f. h)
on_policies-AreComplete (name_typed name) s h = h
on_policies-AreComplete (description_typed description) s h = h
on_policies-AreComplete (value_typed value) s h = h
on_policies-AreComplete (type_chosen rule_type) s h = h
on_policies-AreComplete (rule_removed i) s (r, b, u, p) =
    (without_at-HasValue i s.form.rules r, b, u, p)

run_from : (es : List PolicyEvent) (s : Policies) → AreComplete s → AreComplete (run_policies es s)
unfolding run_policies
run_from [] s h = h
run_from (e ∷ es) s h = run_from es (on_policies e s) (on_policies-AreComplete e s h)

-- Over every run, each policy that the page sends has a name that is not only white space and no rule without a
-- value, and no policy is sent before the one before has been answered.
pub run_policies-AreComplete :
    (es : List PolicyEvent) → AreComplete (run_policies es first_policies)
run_policies-AreComplete es = run_from es first_policies (tt, tt, omega arith, refl)
