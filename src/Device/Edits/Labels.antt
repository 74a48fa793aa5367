-- ===== src/Device/Edits/Labels.antt =====
-- Adding a tag.
use dtsys.Prelude.{
  ◌≡◌, refl, sym, ap, ◌∙◌, subst, Bool, true, false, List, [], ◌∷◌, ◌++◌, append_assoc, append-nil,
  none, some, All, if◌then◌else◌, Bool-cases, inl, inr, any,
}
use dtsys.Prelude.Text.{Text, text_eq, trim, is_filled}
use dtsys.Prelude.Sets.{add_value, add_values, AreDistinct}
use dtsys.Device.Edits.{add_tag}

abbrev pub includes_tag : Text → List Text → Bool
includes_tag tag tags = any (λ t. text_eq t tag) tags

cons_if :
    (b : Bool) (t : Text) (xs ys : List Text)
    → t ∷ (if b then xs else ys) ≡ (if b then t ∷ xs else t ∷ ys)
cons_if true t xs ys = refl
cons_if false t xs ys = refl

add_value-includes_tag :
    (tag : Text) (tags : List Text)
    → add_value text_eq tag tags ≡ (if includes_tag tag tags then tags else tags ++ tag ∷ [])
unfolding add_value
add_value-includes_tag tag [] = refl
add_value-includes_tag tag (t ∷ tags) = elim (Bool-cases (text_eq t tag)) [
  | inl e ↦ rw e refl
  | inr e ↦
      rw (e, add_value-includes_tag tag tags)
        (cons_if (includes_tag tag tags) t tags (tags ++ tag ∷ []))
]

middle_apart :
    (t x : Text) (set xs : List Text)
    → All (λ b. text_eq t b ≡ false) (set ++ x ∷ xs)
    → text_eq t x ≡ false
middle_apart t x [] xs h = h.0
middle_apart t x (b ∷ set) xs h = middle_apart t x set xs h.1

new_tag :
    (x : Text) (set xs : List Text)
    → AreDistinct text_eq (set ++ x ∷ xs)
    → includes_tag x set ≡ false
new_tag x [] xs h = refl
new_tag x (t ∷ set) xs h = rw (middle_apart t x set xs h.0) (new_tag x set xs h.1)

add_values-append :
    (xs ys set : List Text)
    → add_values text_eq (xs ++ ys) set ≡ add_values text_eq ys (add_values text_eq xs set)
unfolding add_values
add_values-append [] ys set = refl
add_values-append (x ∷ xs) ys set = add_values-append xs ys (add_value text_eq x set)

add_values-AreDistinct_append :
    (xs set : List Text) → AreDistinct text_eq (set ++ xs) → add_values text_eq xs set ≡ set ++ xs
unfolding add_values
add_values-AreDistinct_append [] set h = sym (append-nil set)
add_values-AreDistinct_append (x ∷ xs) set h =
    ap (add_values text_eq xs) (
      add_value-includes_tag x set
      ∙ ap (λ b. if b then set else set ++ x ∷ []) (new_tag x set xs h))
    ∙ (add_values-AreDistinct_append xs (set ++ x ∷ [])
          (subst (AreDistinct text_eq) (sym (append_assoc set (x ∷ []) xs)) h)
        ∙ append_assoc set (x ∷ []) xs)

-- Adding a tag to a device whose tags are distinct sends nothing if the tag is white space, and otherwise all
-- tags of the device in their order, with the new one at the end, without the white space around it, if the
-- device does not have it.
pub add_tag_lem :
    (new : Text) (tags : List Text)
    → AreDistinct text_eq tags
    → add_tag new (some tags) ≡ (
        if is_filled (trim new)
        then some (if includes_tag (trim new) tags then tags else tags ++ trim new ∷ [])
        else none)
unfolding add_tag add_values
add_tag_lem new tags h =
    ap (λ set. if is_filled (trim new) then some set else none)
      (add_values-append tags (trim new ∷ []) []
        ∙ (ap (add_value text_eq (trim new)) (add_values-AreDistinct_append tags [] h)
            ∙ add_value-includes_tag (trim new) tags))
