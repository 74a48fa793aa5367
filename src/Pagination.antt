-- ===== src/Pagination.antt =====
-- The page links under a list (frontend/src/components/ui/Pagination.tsx). Page numbers are JavaScript
-- numbers that hold integers.
pub mod Sets
pub mod Layout
pub mod Links
mod Tests
use dtsys.Prelude.{
  ℕ, suc, ◌+◌, Bool, true, false, not, ◌&&◌, List, [], ◌∷◌, ◌++◌, Option, none, some, if◌then◌else◌,
  filter, any,
}
use dtsys.Prelude.Int.{ℤ, pos, negsuc, ◌+ℤ◌, ◌-ℤ◌, ltb_ℤ, leb_ℤ, eq_ℤ}

pub data Item : Type 0 where
  page : ℤ → Item
  ellipsis : Item

-- The elements of `new Set(values)`, in the order of their first insertion.
unfoldable pub to_set : List ℤ → List ℤ
to_set [] = []
to_set (v ∷ vs) = v ∷ filter (λ w. not (eq_ℤ v w)) (to_set vs)

unfoldable pub insert : ℤ → List ℤ → List ℤ
insert v [] = v ∷ []
insert v (w ∷ ws) = if leb_ℤ v w then v ∷ w ∷ ws else w ∷ insert v ws

-- `sort((a, b) => a - b)`.
unfoldable pub sort : List ℤ → List ℤ
sort [] = []
sort (v ∷ vs) = insert v (sort vs)

abbrev pub candidates : ℤ → ℤ → List ℤ
candidates current total =
    pos 1
    ∷ total
    ∷ (current -ℤ pos 1)
    ∷ current
    ∷ (current +ℤ pos 1)
    ∷ (current -ℤ pos 2)
    ∷ (current +ℤ pos 2)
    ∷ []

-- `result[result.length - 1]`
unfoldable pub last_item : List Item → Option Item
last_item [] = none
last_item (x ∷ []) = some x
last_item (x ∷ y ∷ ys) = last_item (y ∷ ys)

abbrev pub is_gap : Option Item → ℤ → Bool
is_gap none value = false
is_gap (some ellipsis) value = false
is_gap (some (page previous)) value = ltb_ℤ (pos 1) (value -ℤ previous)

-- One turn of the loop: the two pushes.
unfoldable pub push_value : List Item → ℤ → List Item
push_value result value =
    if is_gap (last_item result) value
    then (result ++ ellipsis ∷ []) ++ page value ∷ []
    else result ++ page value ∷ []

unfoldable pub push_all : List Item → List ℤ → List Item
push_all result [] = result
push_all result (value ∷ values) = push_all (push_value result value) values

unfoldable pub shown : ℤ → ℤ → List ℤ
shown current total =
    sort (
      filter (λ value. leb_ℤ (pos 1) value && leb_ℤ value total)
        (to_set (candidates current total)))

unfoldable pub build_pages : ℤ → ℤ → List Item
build_pages current total = push_all [] (shown current total)

-- A button: whether it can be pressed, and the page that it asks for.
pub record Button : Type 0 where
  pub enabled : Bool
  pub target : ℤ

unfoldable pub number_buttons : List Item → List Button
number_buttons [] = []
number_buttons (page value ∷ items) =
    record { enabled = true; target = value } ∷ number_buttons items
number_buttons (ellipsis ∷ items) = number_buttons items

-- The buttons of the component, `none` where it renders nothing.
unfoldable pub pagination : ℤ → ℤ → Option (List Button)
pagination current total =
    if leb_ℤ total (pos 1)
    then none
    else some (
        (record { enabled = not (leb_ℤ current (pos 1)); target = current -ℤ pos 1 } ∷ [])
        ++ (number_buttons (build_pages current total)
            ++ record { enabled = not (leb_ℤ total current); target = current +ℤ pos 1 } ∷ []))
