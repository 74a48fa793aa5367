-- ===== src/Policies.antt =====
-- The compliance page (frontend/src/pages/Compliance.tsx): the form of a new policy.
pub mod Rules
mod Tests
use dtsys.Prelude.{
  ℕ, zero, suc, ◌+◌, ◌-◌, String, Bool, true, false, not, ◌||◌, List, [], ◌∷◌, ◌++◌, Option, none,
  some, ◌==◌, if◌then◌else◌, filter, length, ltb,
}
use dtsys.Prelude.Text.{Text, trim, is_filled}

pub record Rule : Type 0 where
  pub rule_type : String
  pub value : Text

pub record PolicyForm : Type 0 where
  pub name : Text
  pub description : Text
  pub rules : List Rule

abbrev pub empty_form : PolicyForm
empty_form = record { name = []; description = []; rules = [] }

abbrev pub empty_rule : Rule
empty_rule = record { rule_type = "max_offline_hours"; value = [] }

-- The body of `create`; no description is null.
pub record PolicyBody : Type 0 where
  pub name : Text
  pub description : Option Text
  pub rules : List Rule

-- `under_way` counts the requests that are not answered; `isPending` is a field that React Query keeps.
pub record Policies : Type 0 where
  pub show_create : Bool
  pub form : PolicyForm
  pub new_rule : Rule
  pub is_pending : Bool
  pub under_way : ℕ
  pub sent : List PolicyBody

abbrev pub first_policies : Policies
first_policies = record {
  show_create = false;
  form = empty_form;
  new_rule = empty_rule;
  is_pending = false;
  under_way = 0;
  sent = [];
}

-- addRule
unfoldable pub add_rule : Policies → Policies
add_rule s =
    if is_filled s.new_rule.value
    then record s {
      form = record s.form { rules = s.form.rules ++ s.new_rule ∷ [] };
      new_rule = empty_rule;
    }
    else s

-- `filter((_, idx) => idx !== i)`
abbrev pub without_at : ℕ → List Rule → List Rule
without_at i [] = []
without_at zero (r ∷ rules) = rules
without_at (suc i) (r ∷ rules) = r ∷ without_at i rules

unfoldable pub remove_rule : ℕ → Policies → Policies
remove_rule i s = record s { form = record s.form { rules = without_at i s.form.rules } }

abbrev body_of : PolicyForm → PolicyBody
body_of form = record {
  name = trim form.name;
  description = if is_filled form.description then some form.description else none;
  rules = form.rules;
}

-- The button of the form, where it is not disabled.
unfoldable pub submit_policy : Policies → Policies
submit_policy s =
    if not (is_filled (trim s.form.name)) || s.is_pending
    then s
    else record s { is_pending = true; under_way = s.under_way + 1; sent = body_of s.form ∷ s.sent }

pub data PolicyEvent : Type 0 where
  opened cancelled rule_added created succeeded failed : PolicyEvent
  name_typed description_typed value_typed : Text → PolicyEvent
  type_chosen : String → PolicyEvent
  rule_removed : ℕ → PolicyEvent

-- An answer, if there is a request.
abbrev settled : Policies → Policies
settled s = record s { is_pending = false; under_way = s.under_way - 1 }

unfoldable pub on_policies : PolicyEvent → Policies → Policies
on_policies opened s = record s { show_create = true }
on_policies cancelled s = record s { show_create = false; form = empty_form }
on_policies rule_added s = add_rule s
on_policies created s = submit_policy s
on_policies succeeded s =
    if ltb 0 s.under_way then record (settled s) { show_create = false; form = empty_form } else s
on_policies failed s = if ltb 0 s.under_way then settled s else s
on_policies (name_typed name) s = record s { form = record s.form { name = name } }
on_policies (description_typed description) s = record s {
  form = record s.form { description = description };
}
on_policies (value_typed value) s = record s { new_rule = record s.new_rule { value = value } }
on_policies (type_chosen rule_type) s = record s {
  new_rule = record s.new_rule { rule_type = rule_type };
}
on_policies (rule_removed i) s = remove_rule i s

unfoldable pub run_policies : List PolicyEvent → Policies → Policies
run_policies [] s = s
run_policies (e ∷ es) s = run_policies es (on_policies e s)
