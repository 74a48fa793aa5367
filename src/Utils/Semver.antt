-- ===== src/Utils/Semver.antt =====
-- The comparison of agent versions on the device page (`compareSemver` of
-- frontend/src/pages/DeviceDetail.tsx). A text is the list of its UTF-16 code units. `Number` is a
-- parameter: a natural number, or `none` for NaN.
use dtsys.Prelude.{
  ℕ, zero, suc, ◌+◌, ◌<◌, ◌≡◌, ◌≢◌, refl, ◌↔◌, ◌⊎◌, Bool, false, List, [], ◌∷◌, Option, none, some,
  arith, map, ltb, if◌then◌else◌,
}
pub use dtsys.Prelude.Text.{Text}
use dtsys.Prelude.Text.{split_at}

-- What the source returns: 1, -1 or 0.
pub data Comparison : Type 0 where
  newer older same : Comparison

-- A JavaScript number that is a natural number, or NaN.
abbrev pub Num : Type 0
Num = Option ℕ

-- `parts[index] ?? 0`: NaN stays NaN.
unfoldable pub part_at : List Num → ℕ → Num
part_at [] i = some 0
part_at (x ∷ xs) zero = x
part_at (x ∷ xs) (suc i) = part_at xs i

-- `a > b`, false where one of them is NaN.
abbrev pub greater : Num → Num → Bool
greater none y = false
greater (some x) none = false
greater (some x) (some y) = ltb y x

-- The loop, from an index with so many left.
unfoldable pub compare_from : ℕ → ℕ → List Num → List Num → Comparison
compare_from zero i xs ys = same
compare_from (suc left) i xs ys =
    let rest = compare_from left (i + 1) xs ys in
    if greater (part_at xs i) (part_at ys i)
    then newer
    else if greater (part_at ys i) (part_at xs i)
    then older
    else rest

module _ (number : Text → Num) where
  unfoldable pub compare_semver : Text → Text → Comparison
  compare_semver a [] = newer
  compare_semver a (c ∷ s) =
      compare_from 3 0 (map number (split_at b'.' a)) (map number (split_at b'.' (c ∷ s)))

abbrev pub flip : Comparison → Comparison
flip newer = older
flip older = newer
flip same = same

-- One turn of the loop, on two parts.
turn-flip :
    (x y : Num) (r s : Comparison)
    → s ≡ flip r
    → (if greater y x then newer else if greater x y then older else s)
      ≡ flip (if greater x y then newer else if greater y x then older else r)
turn-flip none none r s e = e
turn-flip none (some y) r s e = e
turn-flip (some x) none r s e = e
turn-flip (some x) (some y) r s e = ground arith

compare_from-flip :
    (left i : ℕ) (xs ys : List Num) → compare_from left i ys xs ≡ flip (compare_from left i xs ys)
unfolding compare_from
compare_from-flip zero i xs ys = refl
compare_from-flip (suc left) i xs ys =
    turn-flip (part_at xs i) (part_at ys i) _ _ (compare_from-flip left (i + 1) xs ys)

-- Between two versions that are not empty, the one is newer exactly when the other is older.
pub compare_semver-flip :
    (number : Text → Num) (a b : Text)
    → a ≢ []
    → b ≢ []
    → compare_semver number b a ≡ flip (compare_semver number a b)
unfolding compare_semver
compare_semver-flip number [] b h k = absurd (h refl)
compare_semver-flip number (c ∷ s) [] h k = absurd (k refl)
compare_semver-flip number (c ∷ s) (d ∷ t) h k =
    compare_from-flip 3 0 (map number (split_at b'.' (c ∷ s))) (map number (split_at b'.' (d ∷ t)))

-- Lexicographic order of three parts.
abbrev pub IsNewer : ℕ × ℕ × ℕ → ℕ × ℕ × ℕ → Type 0
IsNewer (a, b, c) (x, y, z) = (x < a) ⊎ ((x ≡ a) × ((y < b) ⊎ ((y ≡ b) × (z < c))))

-- The parts of a version of three numbers.
abbrev pub numbers : ℕ × ℕ × ℕ → List Num
numbers (a, b, c) = some a ∷ some b ∷ some c ∷ []

compare_from-IsNewer :
    (v w : ℕ × ℕ × ℕ) → compare_from 3 0 (numbers v) (numbers w) ≡ newer ↔ IsNewer v w
unfolding compare_from part_at
compare_from-IsNewer (a, b, c) (x, y, z) = ground arith

-- Where `Number` reads the pieces of two versions as three numbers each, the comparison says newer
-- exactly when the first is greater in lexicographic order.
pub compare_semver-IsNewer :
    (number : Text → Num) (a b : Text) (v w : ℕ × ℕ × ℕ)
    → b ≢ []
    → map number (split_at b'.' a) ≡ numbers v
    → map number (split_at b'.' b) ≡ numbers w
    → compare_semver number a b ≡ newer ↔ IsNewer v w
unfolding compare_semver
compare_semver-IsNewer number a [] v w k e f = absurd (k refl)
compare_semver-IsNewer number a (c ∷ s) v w k e f = rw (e, f) (compare_from-IsNewer v w)
