-- ===== src/Reports/Software.antt =====
-- What the rows of software are made of, name by name.
use dtsys.Prelude.{
  String, ◌≡◌, refl, sym, ap, ◌∙◌, Bool, true, false, ◌&&◌, List, [], ◌∷◌, ◌++◌, Option, none, some,
  str_eq, str_eq_iff, if◌then◌else◌, if_elim, Bool-cases, inl, inr,
}
use dtsys.Prelude.Table.{Entry, get, update, get-update, update-HasDistinctKeys, HasDistinctKeys}
use dtsys.Triage.{NamedDevice, display_name}
use dtsys.Prelude.Sets.{add_values, set_of, IsSetFrom, set_of-IsSetFrom}
use dtsys.Reports.{Package, Aggregate, new_aggregate, add_version, note, add_packages, aggregate}

-- A package that wants an update: the device's name and the version.
pub record Use : Type 0 where
  pub label : String
  pub version : Option String

abbrev pub is_wanted : String → Package → Bool
is_wanted name p = p.update_available && str_eq p.name name

unfoldable pub uses_in : String → String → List Package → List Use
uses_in name label [] = []
uses_in name label (p ∷ packages) =
    let rest = uses_in name label packages in
    if is_wanted name p then record { label = label; version = p.version } ∷ rest else rest

-- Those of all devices with this name, in their order.
unfoldable pub uses_of : String → List (NamedDevice × List Package) → List Use
uses_of name [] = []
uses_of name ((d, packages) ∷ devices) =
    uses_in name (display_name d) packages ++ uses_of name devices

abbrev pub labels_of : List Use → List String
labels_of [] = []
labels_of (u ∷ us) = u.label ∷ labels_of us

abbrev cons_version : Option String → List String → List String
cons_version none versions = versions
cons_version (some v) versions = if str_eq v "" then versions else v ∷ versions

-- The versions that there are, without the empty text.
abbrev pub versions_of : List Use → List String
versions_of [] = []
versions_of (u ∷ us) = cons_version u.version (versions_of us)

-- The entry that these uses make: none without one.
abbrev pub entry_of : String → List Use → Option Aggregate
entry_of name [] = none
entry_of name (u ∷ us) = some record {
  software_name = name;
  devices = set_of str_eq (labels_of (u ∷ us));
  versions = set_of str_eq (versions_of (u ∷ us));
}

-- The same, one use after the other.
abbrev notes : String → List Use → Option Aggregate → Option Aggregate
notes name [] current = current
notes name (u ∷ us) current = notes name us (some (note name u.label u.version current))

add_values-cons_version :
    (v : Option String) (versions set : List String)
    → add_values str_eq versions (add_version v set)
      ≡ add_values str_eq (cons_version v versions) set
unfolding add_values
add_values-cons_version none versions set = refl
add_values-cons_version (some v) versions set = elim (Bool-cases (str_eq v "")) [
  | inl e ↦ rw e refl
  | inr e ↦ rw e refl
]

abbrev with_uses : List Use → Aggregate → Aggregate
with_uses us a = record {
  software_name = a.software_name;
  devices = add_values str_eq (labels_of us) a.devices;
  versions = add_values str_eq (versions_of us) a.versions;
}

notes-some :
    (name : String) (us : List Use) (a : Aggregate) → notes name us (some a) ≡ some (with_uses us a)
unfolding add_values
notes-some name [] a = refl
notes-some name (u ∷ us) a =
    notes-some name us (note name u.label u.version (some a))
    ∙ ap
        (λ vs. some record {
          software_name = a.software_name;
          devices = add_values str_eq (labels_of (u ∷ us)) a.devices;
          versions = vs;
        })
        (add_values-cons_version u.version (versions_of us) a.versions)

notes-none : (name : String) (us : List Use) → notes name us none ≡ entry_of name us
notes-none name [] = refl
notes-none name (u ∷ us) = notes-some name (u ∷ us) (new_aggregate name)

notes-append :
    (name : String) (us vs : List Use) (current : Option Aggregate)
    → notes name (us ++ vs) current ≡ notes name vs (notes name us current)
notes-append name [] vs current = refl
notes-append name (u ∷ us) vs current =
    notes-append name us vs (some (note name u.label u.version current))

get-noted :
    (name label : String) (p : Package) (es : List (Entry Aggregate))
    → get name (update p.name (note p.name label p.version) es)
      ≡ (if str_eq p.name name then some (note name label p.version (get name es)) else get name es)
get-noted name label p es = elim (Bool-cases (str_eq p.name name)) [
  | inl e ↦
      rw (get-update p.name (note p.name label p.version) name es, e)
        (ap (λ k. some (note k label p.version (get k es))) ((str_eq_iff p.name name).0 e))
  | inr e ↦ rw (get-update p.name (note p.name label p.version) name es, e) refl
]

get-step :
    (name label : String) (p : Package) (es : List (Entry Aggregate))
    → get name (if p.update_available then update p.name (note p.name label p.version) es else es)
      ≡ (if is_wanted name p then some (note name label p.version (get name es)) else get name es)
get-step name label p es = elim (Bool-cases p.update_available) [
  | inl e ↦ rw e (get-noted name label p es)
  | inr e ↦ rw e refl
]

notes-if :
    (name : String) (b : Bool) (u : Use) (us : List Use) (current : Option Aggregate)
    → notes name us (if b then some (note name u.label u.version current) else current)
      ≡ notes name (if b then u ∷ us else us) current
notes-if name true u us current = refl
notes-if name false u us current = refl

get-add_packages :
    (name label : String) (packages : List Package) (es : List (Entry Aggregate))
    → get name (add_packages label packages es)
      ≡ notes name (uses_in name label packages) (get name es)
unfolding add_packages uses_in
get-add_packages name label [] es = refl
get-add_packages name label (p ∷ packages) es =
    let rest = uses_in name label packages in
    let u : Use = record { label = label; version = p.version } in
    get-add_packages name label packages
      (if p.update_available then update p.name (note p.name label p.version) es else es)
    ∙ (ap (notes name rest) (get-step name label p es)
        ∙ notes-if name (is_wanted name p) u rest (get name es))

get-aggregate :
    (name : String) (devices : List (NamedDevice × List Package)) (es : List (Entry Aggregate))
    → get name (aggregate devices es) ≡ notes name (uses_of name devices) (get name es)
unfolding aggregate uses_of
get-aggregate name [] es = refl
get-aggregate name ((d, packages) ∷ devices) es =
    get-aggregate name devices (add_packages (display_name d) packages es)
    ∙ (ap (notes name (uses_of name devices)) (get-add_packages name (display_name d) packages es)
        ∙ sym (
            notes-append name (uses_in name (display_name d) packages) (uses_of name devices)
              (get name es)))

add_packages-HasDistinctKeys :
    (label : String) (packages : List Package) (es : List (Entry Aggregate))
    → HasDistinctKeys es
    → HasDistinctKeys (add_packages label packages es)
unfolding add_packages
add_packages-HasDistinctKeys label [] es h = h
add_packages-HasDistinctKeys label (p ∷ packages) es h =
    add_packages-HasDistinctKeys label packages _ (
      if_elim HasDistinctKeys p.update_available
        (λ t. update-HasDistinctKeys p.name (note p.name label p.version) es h) (λ f. h))

aggregate-HasDistinctKeys :
    (devices : List (NamedDevice × List Package)) (es : List (Entry Aggregate))
    → HasDistinctKeys es
    → HasDistinctKeys (aggregate devices es)
unfolding aggregate
aggregate-HasDistinctKeys [] es h = h
aggregate-HasDistinctKeys ((d, packages) ∷ devices) es h =
    aggregate-HasDistinctKeys devices (add_packages (display_name d) packages es)
      (add_packages-HasDistinctKeys (display_name d) packages es h)

-- The table of software is made of one entry for each name of a package that wants an update on a selected
-- device, and of none for another name: the entry's devices are the names of the devices with such a package, each once, and its
-- versions those of these packages, each once, the missing and the empty ones left out.
pub aggregate_lem :
    (name : String) (devices : List (NamedDevice × List Package))
    → (get name (aggregate devices []) ≡ entry_of name (uses_of name devices))
      × HasDistinctKeys (aggregate devices [])
      × IsSetFrom str_eq
          (labels_of (uses_of name devices))
          (set_of str_eq (labels_of (uses_of name devices)))
      × IsSetFrom str_eq
          (versions_of (uses_of name devices))
          (set_of str_eq (versions_of (uses_of name devices)))
unfolding get
aggregate_lem name devices = (
  get-aggregate name devices [] ∙ notes-none name (uses_of name devices),
  aggregate-HasDistinctKeys devices [] tt,
  set_of-IsSetFrom str_eq str_eq_iff (labels_of (uses_of name devices)),
  set_of-IsSetFrom str_eq str_eq_iff (versions_of (uses_of name devices)),
)
