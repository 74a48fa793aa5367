-- ===== src/Preferences.antt =====
-- The preferences that the console keeps in the browser: frontend/src/store/themeStore.ts, layoutStore.ts and
-- brandingStore.ts, the start in frontend/src/main.tsx, and the branding form of
-- frontend/src/pages/Settings.tsx. zustand's `persist` keeps a copy of the branding: `persisted`.
pub mod Kept
mod Tests
use dtsys.Prelude.{
  String, Bool, true, false, not, List, [], ◌∷◌, Option, none, some, str_eq, if◌then◌else◌,
}
use dtsys.Prelude.Storage.{Storage, get_item, set_item}

pub data Theme : Type 0 where
  dark light : Theme

abbrev pub is_dark : Theme → Bool
is_dark dark = true
is_dark light = false

abbrev pub theme_text : Theme → String
theme_text dark = "dark"
theme_text light = "light"

abbrev pub theme_of_item : Option String → Theme
theme_of_item none = dark
theme_of_item (some theme) = if str_eq theme "light" then light else dark

-- getStoredTheme
unfoldable pub get_stored_theme : Storage → Theme
get_stored_theme items = theme_of_item (get_item "dtsys-theme" items)

pub record Branding : Type 0 where
  pub company_name : String
  pub logo_url : String
  pub accent_color : String
  pub sidebar_label : String
  pub favicon_url : String

abbrev pub defaults : Branding
defaults = record {
  company_name = "DTSYS";
  logo_url = "";
  accent_color = "#3b82f6";
  sidebar_label = "IT Management";
  favicon_url = "";
}

pub record Draft : Type 0 where
  pub company_name : String
  pub sidebar_label : String
  pub accent_color : String

abbrev pub draft_of : Branding → Draft
draft_of b = record {
  company_name = b.company_name;
  sidebar_label = b.sidebar_label;
  accent_color = b.accent_color;
}

-- `has_dark_class` is the document's; `icon` is where the link of the tab's icon leads, `none` if nothing has set
-- it.
pub record Preferences : Type 0 where
  pub items : Storage
  pub persisted : Option Branding
  pub theme : Theme
  pub has_dark_class : Bool
  pub mobile_sidebar_open : Bool
  pub branding : Branding
  pub draft : Draft
  pub icon : Option String

abbrev pub stored_branding : Option Branding → Branding
stored_branding none = defaults
stored_branding (some b) = b

-- main.tsx: an empty favicon sets no link.
abbrev start_icon : Branding → Option String
start_icon b = if str_eq b.favicon_url "" then none else some b.favicon_url

-- The stores and the document after a load of the page.
unfoldable pub load_page : Storage → Option Branding → Preferences
load_page items persisted =
    let theme = get_stored_theme items in
    let branding = stored_branding persisted in
    record {
      items = items;
      persisted = persisted;
      theme = theme;
      has_dark_class = is_dark theme;
      mobile_sidebar_open = false;
      branding = branding;
      draft = draft_of branding;
      icon = start_icon branding;
    }

abbrev pub other_theme : Theme → Theme
other_theme dark = light
other_theme light = dark

unfoldable pub toggle_theme : Preferences → Preferences
toggle_theme s =
    let next_theme = other_theme s.theme in
    record s {
      items = set_item "dtsys-theme" (theme_text next_theme) s.items;
      has_dark_class = is_dark next_theme;
      theme = next_theme;
    }

-- `set` under `persist`
abbrev set_branding : Branding → Preferences → Preferences
set_branding b s = record s { branding = b; persisted = some b }

abbrev pub filled_name : String → String
filled_name name = if str_eq name "" then "DTSYS" else name

-- saveBranding: three calls of `set`, one after the other.
unfoldable pub save_branding : Preferences → Preferences
save_branding s =
    let s1 =
      set_branding (record s.branding { company_name = filled_name s.draft.company_name }) s in
    let s2 = set_branding (record s1.branding { sidebar_label = s.draft.sidebar_label }) s1 in
    set_branding (record s2.branding { accent_color = s.draft.accent_color }) s2

unfoldable pub reset_branding : Preferences → Preferences
reset_branding s = record (set_branding defaults s) { draft = draft_of defaults }

pub data Change : Type 0 where
  theme_toggled sidebar_opened sidebar_closed sidebar_toggled : Change
  form_opened form_saved form_reset : Change
  draft_edited : Draft → Change
  logo_set favicon_loaded : String → Change
  favicon_removed page_loaded : Change

unfoldable pub apply_change : Change → Preferences → Preferences
apply_change theme_toggled s = toggle_theme s
apply_change sidebar_opened s = record s { mobile_sidebar_open = true }
apply_change sidebar_closed s = record s { mobile_sidebar_open = false }
apply_change sidebar_toggled s = record s { mobile_sidebar_open = not s.mobile_sidebar_open }
apply_change form_opened s = record s { draft = draft_of s.branding }
apply_change form_saved s = save_branding s
apply_change form_reset s = reset_branding s
apply_change (draft_edited draft) s = record s { draft = draft }
apply_change (logo_set url) s = set_branding (record s.branding { logo_url = url }) s
apply_change (favicon_loaded url) s =
    record (set_branding (record s.branding { favicon_url = url }) s) { icon = some url }
apply_change favicon_removed s = set_branding (record s.branding { favicon_url = "" }) s
apply_change page_loaded s = load_page s.items s.persisted

unfoldable pub apply_changes : List Change → Preferences → Preferences
apply_changes [] s = s
apply_changes (c ∷ cs) s = apply_changes cs (apply_change c s)
