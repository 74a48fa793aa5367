-- ===== src/Widgets/Saved.antt =====
-- The layout in `localStorage` (readLayout and saveLayout of frontend/src/pages/CustomDashboard.tsx).
use dtsys.Prelude.{◌≡◌, ◌≢◌, refl, String, not, List, some, arith, str_eq_iff, if_elim}
use dtsys.Prelude.Storage.{get_item, is_truthy, storage_laws}
use dtsys.Widgets.{
  LayoutItem, Json, Board, storage_key, default_layout, parse_layout, read_layout, save_layout,
  reset, open_board,
}

parse_layout-stringify :
    (json : Json) (layout : List LayoutItem)
    → json.parse (json.stringify layout) ≡ some layout
    → json.stringify layout ≢ ""
    → parse_layout json (some (json.stringify layout)) ≡ layout
unfolding parse_layout
parse_layout-stringify json layout parses fills =
    if_elim (λ x. x ≡ layout) (not (is_truthy (some (json.stringify layout))))
      (λ t. absurd (fills (ground (arith, str_eq_iff (json.stringify layout) ""))))
      (λ f. rw parses refl)

-- A reload after a save shows the saved layout, a reload after a reset the default one, and neither
-- call touches another item of the storage, if the text of the saved layout is not empty and parses
-- back.
pub reload_lem :
    (json : Json) (b : Board) (key : String)
    → json.parse (json.stringify b.layout) ≡ some b.layout
    → json.stringify b.layout ≢ ""
    → key ≢ storage_key
    → ((open_board json (save_layout json b).storage).layout ≡ b.layout)
      × ((open_board json (reset b).storage).layout ≡ default_layout)
      × (get_item key (save_layout json b).storage ≡ get_item key b.storage)
      × (get_item key (reset b).storage ≡ get_item key b.storage)
unfolding open_board read_layout save_layout reset
reload_lem json b key parses fills other = (
  simp storage_laws (parse_layout-stringify json b.layout parses fills),
  simp storage_laws (unfold parse_layout in refl),
  simp storage_laws (ground (arith, str_eq_iff storage_key key)),
  simp storage_laws (ground (arith, str_eq_iff storage_key key)),
)
