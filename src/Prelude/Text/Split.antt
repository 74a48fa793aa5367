-- ===== src/Prelude/Text/Split.antt =====
-- Splitting a text at a separator, and joining the pieces again.
use dtsys.Prelude.{
  any, arith, ℕ, ◌≡◌, refl, ap, ◌∙◌, false, List, [], ◌∷◌, ◌++◌, ◌==◌, All, All-append, ==_iff,
}
use dtsys.Prelude.Text.{Text, split_at}

-- `join`
unfoldable pub join_with : ℕ → List Text → Text
join_with sep [] = []
join_with sep (x ∷ []) = x
join_with sep (x ∷ y ∷ ys) = x ++ (sep ∷ join_with sep (y ∷ ys))

-- Without a unit.
abbrev pub IsFree : ℕ → Text → Type 0
IsFree sep s = All (λ c. (c == sep) ≡ false) s

pub any→IsFree : (sep : ℕ) (s : Text) → any (λ c. c == sep) s ≡ false → IsFree sep s
any→IsFree sep [] h = tt
any→IsFree sep (c ∷ s) h = (ground arith, any→IsFree sep s (ground arith))

pub split_at-IsFree : (sep : ℕ) (s : Text) → IsFree sep s → split_at sep s ≡ s ∷ []
unfolding split_at
split_at-IsFree sep [] h = refl
split_at-IsFree sep (c ∷ s) h = rw (h.0, split_at-IsFree sep s h.1) refl

pub split_at-IsFree_append :
    (sep : ℕ) (s t : Text) → IsFree sep s → split_at sep (s ++ sep ∷ t) ≡ s ∷ split_at sep t
unfolding split_at
split_at-IsFree_append sep [] t h = rw ((==_iff sep sep).1 refl) refl
split_at-IsFree_append sep (c ∷ s) t h = rw (h.0, split_at-IsFree_append sep s t h.1) refl

pub split_at-join_with :
    (sep : ℕ) (x : Text) (xs : List Text)
    → All (IsFree sep) (x ∷ xs)
    → split_at sep (join_with sep (x ∷ xs)) ≡ x ∷ xs
unfolding join_with
split_at-join_with sep x [] h = split_at-IsFree sep x h.0
split_at-join_with sep x (y ∷ ys) h =
    split_at-IsFree_append sep x (join_with sep (y ∷ ys)) h.0
    ∙ ap (λ r. x ∷ r) (split_at-join_with sep y ys h.1)

-- Joining brings in the separator only.
pub All-join_with {κ} :
    (P : ℕ → Type κ) (sep : ℕ) (xs : List Text) → P sep → All (All P) xs → All P (join_with sep xs)
unfolding join_with
All-join_with P sep [] e h = tt
All-join_with P sep (x ∷ []) e h = h.0
All-join_with P sep (x ∷ y ∷ ys) e h =
    All-append P x (sep ∷ join_with sep (y ∷ ys)) h.0 (e, All-join_with P sep (y ∷ ys) e h.1)

pub join_with-IsFree :
    (sep other : ℕ) (xs : List Text)
    → (sep == other) ≡ false
    → All (IsFree other) xs
    → IsFree other (join_with sep xs)
join_with-IsFree sep other xs e h = All-join_with (λ c. (c == other) ≡ false) sep xs e h
