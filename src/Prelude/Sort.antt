-- ===== src/Prelude/Sort.antt =====
-- JavaScript's `sort` with a comparator: a stable sort, so that each element goes in front of those
-- behind it which the comparator does not put before it.
use mathlib.Core.List.{Perm}
use mathlib.Core.List.Perm as Permutation
use dtsys.Prelude.{
  ◌≡◌, Bool, true, false, List, [], ◌∷◌, ◌⊎◌, inl, inr, if◌then◌else◌, if_elim, All,
}
use dtsys.Prelude.Int.{ℤ, pos, leb_ℤ, ◌≤ℤ◌, leb_ℤ_iff}

module _ {ℓ} {A : Type ℓ} where
  abbrev pub insert_by : (A → A → ℤ) → A → List A → List A
  insert_by compare_fn x [] = x ∷ []
  insert_by compare_fn x (y ∷ ys) =
      let rest = insert_by compare_fn x ys in
      if leb_ℤ (compare_fn x y) (pos 0) then x ∷ y ∷ ys else y ∷ rest

  unfoldable pub sort_by : (A → A → ℤ) → List A → List A
  sort_by compare_fn [] = []
  sort_by compare_fn (x ∷ xs) = insert_by compare_fn x (sort_by compare_fn xs)

  abbrev pub IsOrdered {κ} : (A → A → Type κ) → List A → Type κ
  IsOrdered R [] = Unit
  IsOrdered R (x ∷ xs) = All (R x) xs × IsOrdered R xs

  -- What a comparator must be for the result to be in order.
  pub record IsComparator (compare_fn : A → A → ℤ) : Type ℓ where
    pub total : (x y : A) → (compare_fn x y ≤ℤ pos 0) ⊎ (compare_fn y x ≤ℤ pos 0)
    pub trans :
        (x y z : A) → compare_fn x y ≤ℤ pos 0 → compare_fn y z ≤ℤ pos 0 → compare_fn x z ≤ℤ pos 0

false-ne-true : {b : Bool} → b ≡ false → b ≡ true → ⊥
false-ne-true f t = cc

module _ {ℓ} {A : Type ℓ} where
  pub All-map {κ μ} :
      {P : A → Type κ} {Q : A → Type μ} (f : (x : A) → P x → Q x) (xs : List A)
      → All P xs
      → All Q xs
  All-map f [] h = tt
  All-map f (x ∷ xs) h = (f x h.0, All-map f xs h.1)

  pub IsOrdered-map {κ μ} :
      {R : A → A → Type κ} {S : A → A → Type μ} (f : (x y : A) → R x y → S x y) (xs : List A)
      → IsOrdered R xs
      → IsOrdered S xs
  IsOrdered-map f [] h = tt
  IsOrdered-map f (x ∷ xs) h = (All-map (f x) xs h.0, IsOrdered-map f xs h.1)

  insert_by-Perm :
      (compare_fn : A → A → ℤ) (x : A) (xs : List A) → Perm (insert_by compare_fn x xs) (x ∷ xs)
  insert_by-Perm compare_fn x [] = Permutation.refl (x ∷ [])
  insert_by-Perm compare_fn x (y ∷ ys) =
      if_elim (λ l. Perm l (x ∷ y ∷ ys)) (leb_ℤ (compare_fn x y) (pos 0))
        (λ t. Permutation.refl (x ∷ y ∷ ys))
        (λ f.
          Permutation.trans (Permutation.cons y (insert_by-Perm compare_fn x ys))
            (Permutation.swap x y ys))

  pub sort_by-Perm : (compare_fn : A → A → ℤ) (xs : List A) → Perm (sort_by compare_fn xs) xs
  unfolding sort_by
  sort_by-Perm compare_fn [] = Permutation.refl []
  sort_by-Perm compare_fn (x ∷ xs) =
      Permutation.trans (insert_by-Perm compare_fn x (sort_by compare_fn xs))
        (Permutation.cons x (sort_by-Perm compare_fn xs))

  All-insert_by {κ} :
      (P : A → Type κ) (compare_fn : A → A → ℤ) (x : A) (xs : List A)
      → P x
      → All P xs
      → All P (insert_by compare_fn x xs)
  All-insert_by P compare_fn x [] p h = (p, tt)
  All-insert_by P compare_fn x (y ∷ ys) p h =
      if_elim (All P) (leb_ℤ (compare_fn x y) (pos 0)) (λ t. (p, (h.0, h.1)))
        (λ f. (h.0, All-insert_by P compare_fn x ys p h.1))

  le_of_not_le :
      (compare_fn : A → A → ℤ) (a b : A)
      → leb_ℤ (compare_fn a b) (pos 0) ≡ false
      → (compare_fn a b ≤ℤ pos 0) ⊎ (compare_fn b a ≤ℤ pos 0)
      → compare_fn b a ≤ℤ pos 0
  le_of_not_le compare_fn a b f (inl p) =
      absurd (false-ne-true f ((leb_ℤ_iff (compare_fn a b) (pos 0)).1 p))
  le_of_not_le compare_fn a b f (inr p) = p

  insert_by-IsOrdered :
      (compare_fn : A → A → ℤ) (c : IsComparator compare_fn) (x : A) (xs : List A)
      → IsOrdered (λ a b. compare_fn a b ≤ℤ pos 0) xs
      → IsOrdered (λ a b. compare_fn a b ≤ℤ pos 0) (insert_by compare_fn x xs)
  insert_by-IsOrdered compare_fn c x [] h = (tt, tt)
  insert_by-IsOrdered compare_fn c x (y ∷ ys) h =
      if_elim (IsOrdered (λ a b. compare_fn a b ≤ℤ pos 0)) (leb_ℤ (compare_fn x y) (pos 0))
        (λ t.
          let first = (leb_ℤ_iff (compare_fn x y) (pos 0)).0 t in
          ((first, All-map (λ z k. c.trans x y z first k) ys h.0), h))
        (λ f. (
          All-insert_by (λ b. compare_fn y b ≤ℤ pos 0) compare_fn x ys
              (le_of_not_le compare_fn x y f (c.total x y)) h.0,
          insert_by-IsOrdered compare_fn c x ys h.1,
        ))

  pub sort_by-IsOrdered :
      (compare_fn : A → A → ℤ) (c : IsComparator compare_fn) (xs : List A)
      → IsOrdered (λ a b. compare_fn a b ≤ℤ pos 0) (sort_by compare_fn xs)
  unfolding sort_by
  sort_by-IsOrdered compare_fn c [] = tt
  sort_by-IsOrdered compare_fn c (x ∷ xs) =
      insert_by-IsOrdered compare_fn c x (sort_by compare_fn xs) (sort_by-IsOrdered compare_fn c xs)
