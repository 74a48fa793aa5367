-- ===== src/Policies/Tests.antt =====
-- A policy with one rule, and a rule without a value.
use dtsys.Prelude.{◌≡◌, refl, List, [], ◌∷◌, length}
use dtsys.Prelude.Text.{trim, trim_start, trim_end}
use dtsys.Policies.{
  PolicyEvent, opened, rule_added, created, succeeded, name_typed, value_typed, first_policies,
  add_rule, submit_policy, on_policies, run_policies,
}
use dtsys.Policies.Rules.{AreComplete, run_policies-AreComplete}

abbrev whole : List PolicyEvent
whole =
    opened
    ∷ name_typed (32 ∷ 97 ∷ [])
    ∷ rule_added
    ∷ value_typed (50 ∷ 52 ∷ [])
    ∷ rule_added
    ∷ created
    ∷ created
    ∷ succeeded
    ∷ []

one_sent : length (run_policies whole first_policies).sent ≡ 1
unfolding run_policies on_policies add_rule submit_policy trim trim_start trim_end
one_sent = refl

run_policies-AreComplete_example : AreComplete (run_policies whole first_policies)
run_policies-AreComplete_example = run_policies-AreComplete whole
