-- ===== src/Orgs/Slugs.antt =====
-- What the short name of an organisation is made of.
use dtsys.Prelude.{
  ℕ, zero, suc, ◌≤◌, ◌≡◌, refl, sym, subst, Bool, true, false, not, ◌||◌, ◌&&◌, [], ◌∷◌, arith,
  ◌==◌, if◌then◌else◌, if_elim, leb, take, length, length-take, Bool-cases, inl, inr,
}
use dtsys.Prelude.Text.{Text}
use dtsys.Orgs.{is_slug_unit, dash_runs, strip_front, strip_back, slug_of}

-- Letters, digits and dashes, no two dashes in a row; the flag says that a dash, or the start, stands in
-- front.
abbrev pub IsSlug : Bool → Text → Type 0
IsSlug after_dash [] = Unit
IsSlug after_dash (c ∷ s) =
    ((is_slug_unit c || (not after_dash && (c == b'-'))) ≡ true) × IsSlug (c == b'-') s

no_dash : (c : ℕ) → is_slug_unit c ≡ true → (c == b'-') ≡ false
no_dash c h = ground arith

weaken : (b : Bool) (s : Text) → IsSlug true s → IsSlug b s
weaken b [] h = tt
weaken b (c ∷ s) h = (ground (arith, h.0), h.1)

-- A run of other units gives a dash, unless it has one.
dash_or_skip :
    (b : Bool) (s : Text)
    → IsSlug true (dash_runs true s)
    → IsSlug b (if b then dash_runs true s else b'-' ∷ dash_runs true s)
dash_or_skip true s h = h
dash_or_skip false s h = (refl, h)

dash_runs-IsSlug : (b : Bool) (s : Text) → IsSlug b (dash_runs b s)
unfolding dash_runs
dash_runs-IsSlug b [] = tt
dash_runs-IsSlug b (c ∷ s) =
    if_elim (IsSlug b) (is_slug_unit c)
      (λ t. (
        ground (arith, t),
        subst (λ k. IsSlug k (dash_runs false s)) (sym (no_dash c t)) (dash_runs-IsSlug false s),
      ))
      (λ f. dash_or_skip b s (dash_runs-IsSlug true s))

first_unit :
    (c : ℕ)
    → (c == b'-') ≡ false
    → (is_slug_unit c || (not false && (c == b'-'))) ≡ true
    → (is_slug_unit c || (not true && (c == b'-'))) ≡ true
first_unit c e h = ground arith

strip_front-IsSlug : (s : Text) → IsSlug false s → IsSlug true (strip_front s)
strip_front-IsSlug [] h = tt
strip_front-IsSlug (c ∷ s) h = elim (Bool-cases (c == b'-')) [
  | inl e ↦ rw e (subst (λ k. IsSlug k s) e h.1)
  | inr e ↦ rw e (first_unit c e h.0, h.1)
]

strip_back-IsSlug : (b : Bool) (s : Text) → IsSlug b s → IsSlug b (strip_back s)
unfolding strip_back
strip_back-IsSlug b [] h = tt
strip_back-IsSlug b (c ∷ []) h = if_elim (IsSlug b) (c == b'-') (λ t. tt) (λ f. h)
strip_back-IsSlug b (c ∷ d ∷ s) h = (h.0, strip_back-IsSlug (c == b'-') (d ∷ s) h.1)

take-IsSlug : (n : ℕ) (b : Bool) (s : Text) → IsSlug b s → IsSlug b (take n s)
take-IsSlug zero b s h = tt
take-IsSlug (suc n) b [] h = tt
take-IsSlug (suc n) b (c ∷ s) h = (h.0, take-IsSlug n (c == b'-') s h.1)

slug_of-IsSlug :
    (to_lower_case : Text → Text) (name : Text) → IsSlug true (slug_of to_lower_case name)
unfolding slug_of
slug_of-IsSlug to_lower_case name =
    let runs = dash_runs false (to_lower_case name) in
    take-IsSlug 64 true (strip_back (strip_front runs)) (
      strip_back-IsSlug true (strip_front runs)
        (strip_front-IsSlug runs (dash_runs-IsSlug false (to_lower_case name))))

unfoldable pub all_units : Text → Bool
all_units [] = true
all_units (c ∷ s) = let rest = all_units s in (is_slug_unit c || (c == b'-')) && rest

-- The server's SLUG_RE, [a-z0-9-]{3,64} (server/app/api/v1/organizations.py).
unfoldable pub is_server_slug : Text → Bool
is_server_slug s = leb 3 (length s) && (leb (length s) 64 && all_units s)

all_of_IsSlug : (b : Bool) (s : Text) → IsSlug b s → all_units s ≡ true
unfolding all_units
all_of_IsSlug b [] h = refl
all_of_IsSlug b (c ∷ s) h = ground (arith, h.0, all_of_IsSlug (c == b'-') s h.1)

length-slug_of :
    (to_lower_case : Text → Text) (name : Text) → length (slug_of to_lower_case name) ≤ 64
unfolding slug_of
length-slug_of to_lower_case name =
    omega (arith, length-take 64 (strip_back (strip_front (dash_runs false (to_lower_case name)))))

-- The short name made of a name does not start with a dash and has no two in a row, and the server takes
-- it if it has three units.
pub slug_of_lem :
    (to_lower_case : Text → Text) (name : Text)
    → 3 ≤ length (slug_of to_lower_case name)
    → IsSlug true (slug_of to_lower_case name)
      × (is_server_slug (slug_of to_lower_case name) ≡ true)
unfolding is_server_slug
slug_of_lem to_lower_case name h = (
  slug_of-IsSlug to_lower_case name,
  ground (
    arith,
    length-slug_of to_lower_case name,
    all_of_IsSlug true (slug_of to_lower_case name) (slug_of-IsSlug to_lower_case name),
    h,
  ),
)
