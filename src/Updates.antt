-- ===== src/Updates.antt =====
-- The page of pending software updates (frontend/src/pages/SoftwareUpdates.tsx). A package's name is
-- the list of its UTF-16 code units; `toLowerCase` is a parameter.
pub mod Pages
pub mod Reach
mod Tests
use dtsys.Prelude.{
  ℕ, zero, suc, ◌+◌, ◌-◌, ◌*◌, ◌/◌, max, String, Bool, true, false, not, ◌&&◌, ◌||◌, List, [], ◌∷◌,
  ◌++◌, Option, none, some, ◌==◌, str_eq, if◌then◌else◌, length, any, filter, take, drop,
}
pub use dtsys.Prelude.Text.{Text, text_eq, is_prefix, includes_text}

pub record PendingSoftwareUpdate : Type 0 where
  pub software_name : Text
  pub current_versions : List String
  pub affected_device_ids : List String
  pub affected_count : ℕ

pub record Dispatch : Type 0 where
  pub software_names : List Text
  pub device_ids : List String

pub record UpdatesPage : Type 0 where
  pub pending : List PendingSoftwareUpdate
  pub selected : List Text
  pub expanded : List Text
  pub search : Text
  pub page : ℕ
  pub is_pending : Bool  -- dispatchUpdates.isPending
  pub dispatched : List Dispatch

abbrev pub holds_name : Text → List Text → Bool
holds_name name names = any (λ other. text_eq other name) names

-- `slice(from, to)`
unfoldable pub slice {ℓ} : {A : Type ℓ} → ℕ → ℕ → List A → List A
slice from to xs = take (to - from) (drop from xs)

abbrev pub page_size : ℕ
page_size = 25

-- The elements of `new Set(ids)`, in the order of their first insertion.
unfoldable pub unique : List String → List String
unique [] = []
unique (id ∷ ids) = id ∷ filter (λ other. not (str_eq id other)) (unique ids)

unfoldable pub device_ids_of : List PendingSoftwareUpdate → List String
device_ids_of [] = []
device_ids_of (entry ∷ entries) = entry.affected_device_ids ++ device_ids_of entries

-- `Math.max(1, Math.ceil(count / pageSize))`
unfoldable pub total_pages : ℕ → ℕ
total_pages count = max 1 ((count + 24) / page_size)

-- `current.includes(name) ? current.filter(...) : [...current, name]`
unfoldable pub toggle_name : Text → List Text → List Text
toggle_name name current =
    if holds_name name current
    then filter (λ value. not (text_eq value name)) current
    else current ++ name ∷ []

module _ (lower : Text → Text) where
  unfoldable pub filtered : Text → List PendingSoftwareUpdate → List PendingSoftwareUpdate
  filtered search pending =
      filter (λ entry. includes_text (lower search) (lower entry.software_name)) pending

  unfoldable pub paged : ℕ → UpdatesPage → List PendingSoftwareUpdate
  paged page s = slice ((page - 1) * page_size) (page * page_size) (filtered s.search s.pending)

  unfoldable pub page_count : UpdatesPage → ℕ
  page_count s = total_pages (length (filtered s.search s.pending))

  unfoldable pub update_of : List Text → UpdatesPage → Dispatch
  update_of names s = record {
    software_names = names;
    device_ids = unique (
        device_ids_of
          (filter (λ entry. holds_name entry.software_name names) (filtered s.search s.pending)));
  }

  unfoldable pub run_update : List Text → UpdatesPage → UpdatesPage
  run_update names s = record s { is_pending = true; dispatched = update_of names s ∷ s.dispatched }

  -- The button for the selected packages is disabled without one and during an update.
  unfoldable pub update_selected : UpdatesPage → UpdatesPage
  update_selected s = elim s.selected [
    | [] ↦ s
    | ◌∷◌ name names ↦ if s.is_pending then s else run_update s.selected s
  ]

unfoldable pub set_search : Text → UpdatesPage → UpdatesPage
set_search search s = record s { search = search }

unfoldable pub set_page : ℕ → UpdatesPage → UpdatesPage
set_page page s = record s { page = page }

unfoldable pub toggle_selected : Text → UpdatesPage → UpdatesPage
toggle_selected name s = record s { selected = toggle_name name s.selected }

unfoldable pub toggle_expanded : Text → UpdatesPage → UpdatesPage
toggle_expanded name s = record s { expanded = toggle_name name s.expanded }

-- The request has been answered.
unfoldable pub update_settled : UpdatesPage → UpdatesPage
update_settled s = record s { is_pending = false }
