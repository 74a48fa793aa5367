-- ===== src/Widgets/Layout.antt =====
-- What holds of the layout whatever the user does with it (frontend/src/pages/CustomDashboard.tsx).
use dtsys.Prelude.{
  ◌+◌, ◌≤◌, ◌≡◌, refl, sym, ◌∙◌, String, true, not, ◌&&◌, ◌||◌, List, [], ◌∷◌, Option, none, some,
  arith, length, str_eq, All, any, map, if_elim, &&-eq-true, All-append, subst,
}
use dtsys.Widgets.{
  LayoutItem, Json, Board, Action, edit_toggled, picker_opened, picker_closed, was_reset, saved,
  mouse_up, drag_started, dropped_on, removed, resized, added, default_layout, find_index,
  splice_out, place, put_in, move, drop_from, on_drop, remove_widget, enlarge, resize_widget,
  offered, available_widgets, add_widget, reset, read_layout, save_layout, act, run_board,
  open_board, item,
}
use dtsys.Widgets.Places.{put_back}
use dtsys.Prelude.Storage.{Storage}
use dtsys.Widgets.Distinct.{
  LacksWidget, HasDistinctWidgets, put_back-HasDistinctWidgets, splice_in-HasDistinctWidgets,
  filter-HasDistinctWidgets, any-filter, any→LacksWidget, append-HasDistinctWidgets,
  all_new→HasDistinctWidgets, All-put_back, All-splice_in, All-filter,
}

-- Inside the grid: at most 12 columns wide and 6 rows high.
abbrev pub IsSized : LayoutItem → Type 0
IsSized i = (i.w ≤ 12) × (i.h ≤ 6)

pub record IsTidy (layout : List LayoutItem) : Type 0 where
  pub distinct : HasDistinctWidgets layout
  pub sized : All IsSized layout

move-IsTidy :
    (dragged target : String) (layout : List LayoutItem)
    → IsTidy layout
    → IsTidy (move dragged target layout)
unfolding move put_in
move-IsTidy dragged target layout h =
    let n = place (find_index dragged layout) (length layout) in
    moved (splice_out n layout) (put_back-HasDistinctWidgets n layout h.distinct)
      (All-put_back IsSized n layout h.sized)
  where
    moved :
        (r : Option LayoutItem × List LayoutItem)
        → HasDistinctWidgets (put_back r)
        → All IsSized (put_back r)
        → IsTidy (put_in target layout r)
    moved (none, rest) d s = record { distinct = d; sized = s }
    moved (some m, rest) d s = record {
      distinct = splice_in-HasDistinctWidgets _ m rest d.0 d.1;
      sized = All-splice_in IsSized _ m rest s.0 s.1;
    }

enlarge-IsSized : (id : String) (i : LayoutItem) → IsSized i → IsSized (enlarge id i)
unfolding enlarge
enlarge-IsSized id i h = ground arith

enlarge-widget_id : (id : String) (i : LayoutItem) → (enlarge id i).widget_id ≡ i.widget_id
unfolding enlarge
enlarge-widget_id id i = ground arith

enlarge-LacksWidget :
    (id other : String) (xs : List LayoutItem)
    → LacksWidget other xs
    → LacksWidget other (map (enlarge id) xs)
enlarge-LacksWidget id other [] h = tt
enlarge-LacksWidget id other (x ∷ xs) h =
    (λ e. h.0 (sym (enlarge-widget_id id x) ∙ e), enlarge-LacksWidget id other xs h.1)

enlarge-IsTidy : (id : String) (xs : List LayoutItem) → IsTidy xs → IsTidy (map (enlarge id) xs)
enlarge-IsTidy id [] h = h
enlarge-IsTidy id (x ∷ xs) h =
    let rest = enlarge-IsTidy id xs (record { distinct = h.distinct.1; sized = h.sized.1 }) in
    let name = sym (enlarge-widget_id id x) in
    record {
      distinct = (
        subst (λ k. LacksWidget k (map (enlarge id) xs)) name
            (enlarge-LacksWidget id x.widget_id xs h.distinct.0),
        rest.distinct,
      );
      sized = (enlarge-IsSized id x h.sized.0, rest.sized);
    }

offered→LacksWidget :
    (id : String) (layout : List LayoutItem)
    → any (λ x. str_eq x id) (offered layout) ≡ true
    → LacksWidget id layout
unfolding offered
offered→LacksWidget id layout h =
    let new : not (any (λ entry. str_eq entry.widget_id id) layout) ≡ true =
      any-filter (λ k. not (any (λ entry. str_eq entry.widget_id k) layout)) id available_widgets
        h in
    any→LacksWidget id layout (ground (arith, new))

add_widget-IsTidy : (id : String) (b : Board) → IsTidy b.layout → IsTidy (add_widget id b).layout
unfolding add_widget
add_widget-IsTidy id b h =
    if_elim (λ (x : Board). IsTidy x.layout)
      (b.show_picker && any (λ x. str_eq x id) (offered b.layout))
      (λ t.
        let m : LayoutItem = item id 1 (length b.layout + 1) 4 3 in
        let fits : IsSized m = (omega arith, omega arith) in
        let lacks : LacksWidget id b.layout =
          offered→LacksWidget id b.layout (&&-eq-true _ _ t).1 in
        record {
          distinct = append-HasDistinctWidgets m b.layout lacks h.distinct;
          sized = All-append IsSized b.layout (m ∷ []) h.sized (fits, tt);
        })
      (λ f. h)

pub default_layout-IsTidy : IsTidy default_layout
default_layout-IsTidy = record {
  distinct = all_new→HasDistinctWidgets default_layout refl;
  sized = ground arith;
}

drop_from-IsTidy :
    (d : Option String) (target : String) (b : Board)
    → IsTidy b.layout
    → IsTidy (drop_from d target b).layout
unfolding drop_from
drop_from-IsTidy none target b h = h
drop_from-IsTidy (some dragged) target b h =
    if_elim (λ (x : Board). IsTidy x.layout)
      (not b.edit_mode || (str_eq dragged "" || str_eq dragged target)) (λ t. h)
      (λ f. move-IsTidy dragged target b.layout h)

remove_widget-IsTidy :
    (id : String) (b : Board) → IsTidy b.layout → IsTidy (remove_widget id b).layout
unfolding remove_widget
remove_widget-IsTidy id b h =
    if_elim (λ (x : Board). IsTidy x.layout) b.edit_mode
      (λ t. record {
        distinct = filter-HasDistinctWidgets _ b.layout h.distinct;
        sized = All-filter IsSized _ b.layout h.sized;
      })
      (λ f. h)

resize_widget-IsTidy :
    (id : String) (b : Board) → IsTidy b.layout → IsTidy (resize_widget id b).layout
unfolding resize_widget
resize_widget-IsTidy id b h =
    if_elim (λ (x : Board). IsTidy x.layout) b.edit_mode (λ t. enlarge-IsTidy id b.layout h)
      (λ f. h)

act-IsTidy : (json : Json) (a : Action) (b : Board) → IsTidy b.layout → IsTidy (act json a b).layout
unfolding act
act-IsTidy json edit_toggled b h = h
act-IsTidy json picker_opened b h = h
act-IsTidy json picker_closed b h = h
act-IsTidy json was_reset b h = unfold reset in default_layout-IsTidy
act-IsTidy json saved b h = unfold save_layout in h
act-IsTidy json mouse_up b h = h
act-IsTidy json (drag_started id) b h = ground arith
act-IsTidy json (dropped_on target) b h = unfold on_drop in drop_from-IsTidy b.dragging target b h
act-IsTidy json (removed id) b h = remove_widget-IsTidy id b h
act-IsTidy json (resized id) b h = resize_widget-IsTidy id b h
act-IsTidy json (added id) b h = add_widget-IsTidy id b h

run_from-IsTidy :
    (json : Json) (acts : List Action) (b : Board)
    → IsTidy b.layout
    → IsTidy (run_board json acts b).layout
unfolding run_board
run_from-IsTidy json [] b h = h
run_from-IsTidy json (a ∷ more) b h =
    run_from-IsTidy json more (act json a b) (act-IsTidy json a b h)

-- From a stored layout without repeated widgets and with every widget inside the grid, or from the
-- default one, no run of the user's actions repeats a widget or lets one grow out of the grid.
pub run_board-IsTidy :
    (json : Json) (storage : Storage) (acts : List Action)
    → IsTidy (read_layout json storage)
    → IsTidy (run_board json acts (open_board json storage)).layout
unfolding open_board
run_board-IsTidy json storage acts h = run_from-IsTidy json acts (open_board json storage) h
