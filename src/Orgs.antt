-- ===== src/Orgs.antt =====
-- The organisations page (frontend/src/pages/Organizations.tsx): the short name that it makes of a name,
-- its forms, and who may change whom.
pub mod Slugs
mod Tests
use dtsys.Prelude.{
  ℕ, ◌≤◌, String, Bool, true, false, not, ◌&&◌, ◌||◌, List, [], ◌∷◌, Option, none, some, ◌==◌,
  str_eq, if◌then◌else◌, leb, take,
}
use dtsys.Prelude.Text.{Text, trim, is_filled}

-- [a-z0-9]
abbrev pub is_slug_unit : ℕ → Bool
is_slug_unit c = (leb b'a' c && leb c b'z') || (leb b'0' c && leb c b'9')

-- `replace(/[^a-z0-9]+/g, '-')`; the flag says that the run has its dash already.
unfoldable pub dash_runs : Bool → Text → Text
dash_runs in_run [] = []
dash_runs in_run (c ∷ s) =
    let kept = dash_runs false s in
    let skipped = dash_runs true s in
    if is_slug_unit c then c ∷ kept else (if in_run then skipped else b'-' ∷ skipped)

-- `replace(/^-|-$/g, '')`
abbrev pub strip_front : Text → Text
strip_front [] = []
strip_front (c ∷ s) = if c == b'-' then s else c ∷ s

abbrev pub drop_dash : ℕ → Text → Text
drop_dash c [] = if c == b'-' then [] else c ∷ []
drop_dash c (d ∷ s) = c ∷ d ∷ s

-- The last dash, and no other.
unfoldable pub strip_back : Text → Text
strip_back [] = []
strip_back (c ∷ []) = drop_dash c []
strip_back (c ∷ d ∷ s) = c ∷ strip_back (d ∷ s)

unfoldable pub slug_of : (Text → Text) → Text → Text
slug_of to_lower_case name =
    take 64 (strip_back (strip_front (dash_runs false (to_lower_case name))))

pub data OrgRole : Type 0 where
  owner admin member : OrgRole

-- The form of a new organisation: handleNameChange, and what is sent.
pub record CreateForm : Type 0 where
  pub name : Text
  pub slug : Text

unfoldable pub handle_name_change : (Text → Text) → Text → CreateForm
handle_name_change to_lower_case name = record { name = name; slug = slug_of to_lower_case name }

unfoldable pub create_request : (Text → Text) → CreateForm → CreateForm
create_request to_lower_case form = record {
  name = trim form.name;
  slug = to_lower_case (trim form.slug);
}

-- canManage
unfoldable pub can_manage : OrgRole → Bool
can_manage owner = true
can_manage admin = true
can_manage member = false

abbrev pub is_owner : OrgRole → Bool
is_owner owner = true
is_owner _ = false

-- Whose role may be changed, and who may be removed; `current` is the user's own id, which the page never
-- passes on, so it is absent.
unfoldable pub can_change : OrgRole → Option String → String → OrgRole → Bool
can_change own none user_id role = can_manage own && not (is_owner role)
can_change own (some current) user_id role =
    can_manage own && (not (str_eq user_id current) && not (is_owner role))

abbrev pub can_delete : OrgRole → Bool
can_delete own = is_owner own
