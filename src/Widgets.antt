-- ===== src/Widgets.antt =====
-- The layout of the user's own dashboard (frontend/src/pages/CustomDashboard.tsx). The layout is what
-- the component keeps in its state and, when the user saves it, in `localStorage`. `JSON` is a
-- parameter: a parser that throws answers `none`.
pub mod Places
pub mod Distinct
pub mod Layout
pub mod Saved
mod Tests
use dtsys.Prelude.{
  ℕ, zero, suc, ◌+◌, min, String, Bool, true, false, not, ◌&&◌, ◌||◌, List, [], ◌∷◌, ◌++◌, Option,
  none, some, map, str_eq, if◌then◌else◌, length, any, filter,
}
use dtsys.Prelude.Storage.{Storage, get_item, set_item, remove_item, is_truthy}

-- A stored layout may name any widget, so the key is a text.
pub record LayoutItem : Type 0 where
  pub widget_id : String
  pub x : ℕ
  pub y : ℕ
  pub w : ℕ
  pub h : ℕ

pub record Json : Type 0 where
  pub parse : String → Option (List LayoutItem)
  pub stringify : List LayoutItem → String

abbrev pub storage_key : String
storage_key = "dtsys-dashboard-layout"

abbrev pub available_widgets : List String
available_widgets =
    "device-status" ∷ "alerts" ∷ "device-count" ∷ "online-count" ∷ "recent-events"
    ∷ "uptime-leaderboard" ∷ []

abbrev item : String → ℕ → ℕ → ℕ → ℕ → LayoutItem
item id x y w h = record { widget_id = id; x = x; y = y; w = w; h = h }

abbrev pub default_layout : List LayoutItem
default_layout =
    item "device-status" 1 1 4 3
    ∷ item "alerts" 5 1 4 3
    ∷ item "device-count" 9 1 2 2
    ∷ item "online-count" 11 1 2 2
    ∷ item "recent-events" 1 4 6 4
    ∷ item "uptime-leaderboard" 7 4 6 4
    ∷ []

pub record Board : Type 0 where
  pub layout : List LayoutItem
  pub edit_mode : Bool
  pub show_picker : Bool
  pub dragging : Option String
  pub storage : Storage

-- `findIndex`, `none` for -1.
unfoldable pub find_index : String → List LayoutItem → Option ℕ
find_index id [] = none
find_index id (i ∷ is) =
    let rest = find_index id is in
    if str_eq i.widget_id id then some 0 else elim rest [ none ↦ none | some n ↦ some (suc n) ]

-- `splice(from, 1)`: what is taken out, and what stays.
unfoldable pub splice_out : ℕ → List LayoutItem → Option LayoutItem × List LayoutItem
splice_out n [] = (none, [])
splice_out zero (i ∷ is) = (some i, is)
splice_out (suc n) (i ∷ is) = let (moved, rest) = splice_out n is in (moved, i ∷ rest)

-- `splice(to, 0, moved)`, at the end if the list is shorter.
unfoldable pub splice_in : ℕ → LayoutItem → List LayoutItem → List LayoutItem
splice_in n m [] = m ∷ []
splice_in zero m (i ∷ is) = m ∷ i ∷ is
splice_in (suc n) m (i ∷ is) = i ∷ splice_in n m is

-- An index of `splice` that may be -1, which counts from the end.
abbrev pub place : Option ℕ → ℕ → ℕ
place none zero = 0
place none (suc n) = n
place (some i) n = i

-- The second splice. There is something to move, since the target is drawn from the layout.
unfoldable pub put_in :
    String → List LayoutItem → Option LayoutItem × List LayoutItem → List LayoutItem
put_in target layout (none, rest) = rest
put_in target layout (some moved, rest) =
    splice_in (place (find_index target layout) (length rest)) moved rest

unfoldable pub move : String → String → List LayoutItem → List LayoutItem
move dragged target layout =
    put_in target layout (splice_out (place (find_index dragged layout) (length layout)) layout)

-- The drop handler of the section that draws an item, with what is being dragged.
unfoldable pub drop_from : Option String → String → Board → Board
drop_from none target b = b
drop_from (some dragged) target b =
    if not b.edit_mode || (str_eq dragged "" || str_eq dragged target)
    then b
    else record b { layout = move dragged target b.layout }

unfoldable pub on_drop : String → Board → Board
on_drop target b = drop_from b.dragging target b

-- The button of an item that removes it, drawn in edit mode.
unfoldable pub remove_widget : String → Board → Board
remove_widget id b =
    if b.edit_mode
    then record b { layout = filter (λ entry. not (str_eq entry.widget_id id)) b.layout }
    else b

unfoldable pub enlarge : String → LayoutItem → LayoutItem
enlarge id entry =
    if str_eq entry.widget_id id
    then record entry { w = min 12 (entry.w + 1); h = min 6 (entry.h + 1) }
    else entry

unfoldable pub resize_widget : String → Board → Board
resize_widget id b = if b.edit_mode then record b { layout = map (enlarge id) b.layout } else b

-- The widgets of the picker.
unfoldable pub offered : List LayoutItem → List String
offered layout =
    filter (λ id. not (any (λ entry. str_eq entry.widget_id id) layout)) available_widgets

-- A button of the picker.
unfoldable pub add_widget : String → Board → Board
add_widget id b =
    if b.show_picker && any (λ other. str_eq other id) (offered b.layout)
    then record b {
      layout = b.layout ++ item id 1 (length b.layout + 1) 4 3 ∷ [];
      show_picker = false;
    }
    else b

unfoldable pub reset : Board → Board
reset b = record b { layout = default_layout; storage = remove_item storage_key b.storage }

module _ (json : Json) where
  -- What the stored text stands for.
  unfoldable pub parse_layout : Option String → List LayoutItem
  parse_layout none = default_layout
  parse_layout (some raw) =
      if not (is_truthy (some raw))
      then default_layout
      else elim (json.parse raw) [ none ↦ default_layout | some layout ↦ layout ]

  unfoldable pub read_layout : Storage → List LayoutItem
  read_layout storage = parse_layout (get_item storage_key storage)

  unfoldable pub save_layout : Board → Board
  save_layout b = record b { storage = set_item storage_key (json.stringify b.layout) b.storage }

pub data Action : Type 0 where
  edit_toggled picker_opened picker_closed was_reset saved mouse_up : Action
  drag_started dropped_on removed resized added : String → Action

unfoldable pub act : Json → Action → Board → Board
act json edit_toggled b = record b { edit_mode = not b.edit_mode }
act json picker_opened b = record b { show_picker = true }
act json picker_closed b = record b { show_picker = false }
act json was_reset b = reset b
act json saved b = save_layout json b
act json mouse_up b = record b { dragging = none }
act json (drag_started id) b = if b.edit_mode then record b { dragging = some id } else b
act json (dropped_on target) b = on_drop target b
act json (removed id) b = remove_widget id b
act json (resized id) b = resize_widget id b
act json (added id) b = add_widget id b

unfoldable pub run_board : Json → List Action → Board → Board
run_board json [] b = b
run_board json (a ∷ more) b = run_board json more (act json a b)

unfoldable pub open_board : Json → Storage → Board
open_board json storage = record {
  layout = read_layout json storage;
  edit_mode = false;
  show_picker = false;
  dragging = none;
  storage = storage;
}

-- The items that are drawn.
unfoldable pub rendered_items : List LayoutItem → List LayoutItem
rendered_items layout =
    filter (λ entry. any (λ id. str_eq id entry.widget_id) available_widgets) layout
