-- ===== src/Prelude/Table.antt =====
-- A JavaScript object or `Map` with text keys, as the list of its entries in the order in which the keys
-- came in. (An object puts keys that are numerals first; the keys here are ids and names.)
use dtsys.Prelude.{
  String, ◌≡◌, refl, false, List, [], ◌∷◌, Option, none, some, arith, All, str_eq, str_eq_iff,
  if◌then◌else◌, if_elim,
}

pub record Entry {ℓ} (V : Type ℓ) : Type ℓ where
  pub key : String
  pub value : V

module _ {ℓ} {V : Type ℓ} where
  -- `table.get(key)`
  unfoldable pub get : String → List (Entry V) → Option V
  get key [] = none
  get key (e ∷ es) = let rest = get key es in if str_eq e.key key then some e.value else rest

  -- `table.set(key, change(table.get(key)))`: a new key goes to the end.
  unfoldable pub update : String → (Option V → V) → List (Entry V) → List (Entry V)
  update key change [] = record { key = key; value = change none } ∷ []
  update key change (e ∷ es) =
      let rest = update key change es in
      if str_eq e.key key
      then record { key = e.key; value = change (some e.value) } ∷ es
      else e ∷ rest

  abbrev pub IsNew : String → List (Entry V) → Type 0
  IsNew key es = All (λ (e : Entry V). str_eq e.key key ≡ false) es

  -- No two entries have the same key.
  abbrev pub HasDistinctKeys : List (Entry V) → Type 0
  HasDistinctKeys [] = Unit
  HasDistinctKeys (e ∷ es) = IsNew e.key es × HasDistinctKeys es

module _ {ℓ} {V : Type ℓ} (key : String) (change : Option V → V) where
  pub get-update :
      (j : String) (es : List (Entry V))
      → get j (update key change es)
        ≡ (if str_eq key j then some (change (get key es)) else get j es)
  unfolding get update
  get-update j [] = refl
  get-update j (e ∷ es) =
      ground (arith, get-update j es, str_eq_iff e.key key, str_eq_iff e.key j, str_eq_iff key j)

  update-IsNew :
      (j : String) (es : List (Entry V))
      → str_eq key j ≡ false
      → IsNew j es
      → IsNew j (update key change es)
  unfolding update
  update-IsNew j [] d h = (d, tt)
  update-IsNew j (e ∷ es) d h =
      if_elim (IsNew j) (str_eq e.key key) (λ t. h) (λ f. (h.0, update-IsNew j es d h.1))

  pub update-HasDistinctKeys :
      (es : List (Entry V)) → HasDistinctKeys es → HasDistinctKeys (update key change es)
  unfolding update
  update-HasDistinctKeys [] h = (tt, tt)
  update-HasDistinctKeys (e ∷ es) h =
      if_elim HasDistinctKeys (str_eq e.key key) (λ t. h)
        (λ f. (
          update-IsNew e.key es (ground (arith, f, str_eq_iff e.key key, str_eq_iff key e.key)) h.0,
          update-HasDistinctKeys es h.1,
        ))
