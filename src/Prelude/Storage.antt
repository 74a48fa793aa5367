-- ===== src/Prelude/Storage.antt =====
-- A browser's `localStorage` (or a phone's secure store): texts under text keys. A key that is not
-- there reads as `none`, JavaScript's `null`.
use dtsys.Prelude.{
  ◌≡◌, refl, String, Bool, false, not, List, [], ◌∷◌, Option, none, some, arith, str_eq, str_eq_iff,
  if◌then◌else◌,
}

abbrev pub Storage : Type 0
Storage = List (String × String)

unfoldable pub get_item : String → Storage → Option String
get_item k [] = none
get_item k ((j, v) ∷ items) = if str_eq j k then some v else get_item k items

unfoldable pub set_item : String → String → Storage → Storage
set_item k v [] = (k, v) ∷ []
set_item k v ((j, w) ∷ items) = if str_eq j k then (k, v) ∷ items else (j, w) ∷ set_item k v items

unfoldable pub remove_item : String → Storage → Storage
remove_item k [] = []
remove_item k ((j, v) ∷ items) =
    if str_eq j k then remove_item k items else (j, v) ∷ remove_item k items

pub get_item-set_item :
    (j k v : String) (items : Storage)
    → get_item j (set_item k v items) ≡ (if str_eq k j then some v else get_item j items)
unfolding get_item set_item
get_item-set_item j k v [] = refl
get_item-set_item j k v ((i, w) ∷ items) =
    ground (arith, str_eq_iff k j, str_eq_iff i k, str_eq_iff i j, get_item-set_item j k v items)

pub get_item-remove_item :
    (j k : String) (items : Storage)
    → get_item j (remove_item k items) ≡ (if str_eq k j then none else get_item j items)
unfolding get_item remove_item
get_item-remove_item j k [] = ground arith
get_item-remove_item j k ((i, w) ∷ items) =
    ground (arith, str_eq_iff k j, str_eq_iff i k, str_eq_iff i j, get_item-remove_item j k items)

-- `!!value`: neither null nor the empty text.
abbrev pub is_truthy : Option String → Bool
is_truthy none = false
is_truthy (some s) = not (str_eq s "")

pub ruleset storage_laws = (get_item-set_item, get_item-remove_item)
