-- ===== src/Updates/Reach.antt =====
-- The devices that an update is sent to.
use dtsys.Prelude.{
  ◌≡◌, refl, ◌∙◌, String, Bool, false, not, ◌||◌, ◌&&◌, List, [], ◌∷◌, ◌++◌, arith, any, filter,
  str_eq, str_eq_iff, str_eq_refl,
}
use dtsys.Updates.{
  Text, PendingSoftwareUpdate, UpdatesPage, holds_name, unique, device_ids_of, filtered, update_of,
  includes_text,
}

abbrev pub holds_id : String → List String → Bool
holds_id id ids = any (λ other. str_eq other id) ids

abbrev pub AreDistinct : List String → Type 0
AreDistinct [] = Unit {0}
AreDistinct (id ∷ ids) = (holds_id id ids ≡ false) × AreDistinct ids

holds_id-append :
    (id : String) (xs ys : List String)
    → holds_id id (xs ++ ys) ≡ (holds_id id xs || holds_id id ys)
holds_id-append id [] ys = refl
holds_id-append id (x ∷ xs) ys = ground (arith, holds_id-append id xs ys)

holds_id-filter :
    (id other : String) (ids : List String)
    → holds_id id (filter (λ x. not (str_eq other x)) ids)
      ≡ (not (str_eq other id) && holds_id id ids)
holds_id-filter id other [] = ground arith
holds_id-filter id other (x ∷ xs) =
    ground
      (arith, str_eq_iff x id, str_eq_iff other x, str_eq_iff other id, holds_id-filter id other xs)

filter_lacks :
    (p : String → Bool) (id : String) (ids : List String)
    → holds_id id ids ≡ false
    → holds_id id (filter p ids) ≡ false
filter_lacks p id [] h = refl
filter_lacks p id (x ∷ xs) h = ground (arith, filter_lacks p id xs)

filter-AreDistinct :
    (p : String → Bool) (ids : List String) → AreDistinct ids → AreDistinct (filter p ids)
filter-AreDistinct p [] h = tt
filter-AreDistinct p (x ∷ xs) h =
    ground (arith, filter_lacks p x xs h.0, filter-AreDistinct p xs h.1)

unique-AreDistinct : (ids : List String) → AreDistinct (unique ids)
unfolding unique
unique-AreDistinct [] = tt
unique-AreDistinct (id ∷ ids) = (
  holds_id-filter id id (unique ids) ∙ rw (str_eq_refl id) refl,
  filter-AreDistinct (λ other. not (str_eq id other)) (unique ids) (unique-AreDistinct ids),
)

holds_id-unique : (id : String) (ids : List String) → holds_id id (unique ids) ≡ holds_id id ids
unfolding unique
holds_id-unique id [] = refl
holds_id-unique id (x ∷ xs) =
    ground (arith, str_eq_iff x id, holds_id-filter id x (unique xs), holds_id-unique id xs)

holds_id-device_ids_of :
    (id : String) (entries : List PendingSoftwareUpdate)
    → holds_id id (device_ids_of entries)
      ≡ any (λ entry. holds_id id entry.affected_device_ids) entries
unfolding device_ids_of
holds_id-device_ids_of id [] = refl
holds_id-device_ids_of id (e ∷ es) =
    holds_id-append id e.affected_device_ids (device_ids_of es)
    ∙ ground (arith, holds_id-device_ids_of id es)

any-filter_both :
    {A : Type 0} (p q : A → Bool) (xs : List A) → any q (filter p xs) ≡ any (λ x. p x && q x) xs
any-filter_both p q [] = refl
any-filter_both p q (x ∷ xs) = ground (arith, any-filter_both p q xs)

-- An update goes to each device once, and to exactly the devices that one of the named packages
-- affects, among the packages that the search finds.
pub update_of_lem :
    (lower : Text → Text) (names : List Text) (s : UpdatesPage) (id : String)
    → AreDistinct (update_of lower names s).device_ids
      × (holds_id id (update_of lower names s).device_ids
          ≡ any
              (λ entry.
                includes_text (lower s.search) (lower entry.software_name)
                && (holds_name entry.software_name names && holds_id id entry.affected_device_ids))
              s.pending)
unfolding update_of filtered
update_of_lem lower names s id = (
  unique-AreDistinct (
      device_ids_of (
        filter (λ entry. holds_name entry.software_name names)
          (filtered lower s.search s.pending))),
  holds_id-unique id (
        device_ids_of (
          filter (λ entry. holds_name entry.software_name names)
            (filtered lower s.search s.pending)))
      ∙ (holds_id-device_ids_of id (
            filter (λ entry. holds_name entry.software_name names)
              (filtered lower s.search s.pending))
          ∙ (any-filter_both (λ entry. holds_name entry.software_name names)
                (λ entry. holds_id id entry.affected_device_ids) (filtered lower s.search s.pending)
              ∙ any-filter_both
                  (λ entry. includes_text (lower s.search) (lower entry.software_name))
                  (λ entry.
                    holds_name entry.software_name names && holds_id id entry.affected_device_ids)
                  s.pending)),
)
