-- ===== src/Prelude/Sets.antt =====
-- A JavaScript `Set` of values that one test tells apart, as the list of its elements in the order in which
-- they came in.
use dtsys.Prelude.{
  ℕ, ◌≤◌, ◌≡◌, ◌⊎◌, ◌↔◌, refl, sym, subst, Bool, true, false, List, [], ◌∷◌, arith, All, IsIn, ltb,
  if◌then◌else◌, if_elim, Bool-cases, length, inl, inr,
}
use dtsys.Prelude.Sort.{IsOrdered}

module _ {A : Type 0} (same : A → A → Bool) where
  -- `set.add(value)`
  unfoldable pub add_value : A → List A → List A
  add_value x [] = x ∷ []
  add_value x (y ∷ ys) = let rest = add_value x ys in if same y x then y ∷ ys else y ∷ rest

  unfoldable pub add_values : List A → List A → List A
  add_values [] set = set
  add_values (x ∷ xs) set = add_values xs (add_value x set)

  -- `new Set(values)`, and its size.
  abbrev pub set_of : List A → List A
  set_of xs = add_values xs []

  abbrev pub size_of_set : List A → ℕ
  size_of_set xs = length (set_of xs)

  -- No two elements are the same.
  abbrev pub AreDistinct : List A → Type 0
  AreDistinct xs = IsOrdered (λ a b. same a b ≡ false) xs

  -- It has the elements of the list, and none twice.
  abbrev pub IsSetFrom : List A → List A → Type 0
  IsSetFrom xs set = AreDistinct set × ((y : A) → IsIn y set ↔ IsIn y xs)

  add_value-All :
      (y x : A) (set : List A)
      → same y x ≡ false
      → All (λ b. same y b ≡ false) set
      → All (λ b. same y b ≡ false) (add_value x set)
  unfolding add_value
  add_value-All y x [] d h = (d, tt)
  add_value-All y x (b ∷ set) d h =
      if_elim (All (λ b. same y b ≡ false)) (same b x) (λ t. h)
        (λ f. (h.0, add_value-All y x set d h.1))

  pub add_value-AreDistinct :
      (x : A) (set : List A) → AreDistinct set → AreDistinct (add_value x set)
  unfolding add_value
  add_value-AreDistinct x [] h = (tt, tt)
  add_value-AreDistinct x (b ∷ set) h =
      if_elim AreDistinct (same b x) (λ t. h)
        (λ f. (add_value-All b x set f h.0, add_value-AreDistinct x set h.1))

  pub add_values-AreDistinct : (xs set : List A) → AreDistinct set → AreDistinct (add_values xs set)
  unfolding add_values
  add_values-AreDistinct [] set h = h
  add_values-AreDistinct (x ∷ xs) set h =
      add_values-AreDistinct xs (add_value x set) (add_value-AreDistinct x set h)

  add_value_old : (y x : A) (set : List A) → IsIn y set → IsIn y (add_value x set)
  unfolding add_value
  add_value_old y x [] m = elim m [ ]
  add_value_old y x (b ∷ set) (inl e) = if_elim (IsIn y) (same b x) (λ t. inl e) (λ f. inl e)
  add_value_old y x (b ∷ set) (inr m) =
      if_elim (IsIn y) (same b x) (λ t. inr m) (λ f. inr (add_value_old y x set m))

  further :
      (y x b : A) (rest set : List A)
      → (IsIn y rest → (y ≡ x) ⊎ IsIn y set)
      → IsIn y (b ∷ rest)
      → (y ≡ x) ⊎ IsIn y (b ∷ set)
  further y x b rest set k (inl e) = inr (inl e)
  further y x b rest set k (inr m) = elim (k m) [ inl e ↦ inl e | inr n ↦ inr (inr n) ]

  add_value_only : (y x : A) (set : List A) → IsIn y (add_value x set) → (y ≡ x) ⊎ IsIn y set
  unfolding add_value
  add_value_only y x [] (inl e) = inl e
  add_value_only y x [] (inr m) = elim m [ ]
  add_value_only y x (b ∷ set) m =
      if_elim (λ l. IsIn y l → (y ≡ x) ⊎ IsIn y (b ∷ set)) (same b x) (λ t k. inr k)
        (λ f. further y x b (add_value x set) set (add_value_only y x set)) m

  add_values_old : (y : A) (xs set : List A) → IsIn y set → IsIn y (add_values xs set)
  unfolding add_values
  add_values_old y [] set m = m
  add_values_old y (x ∷ xs) set m = add_values_old y xs (add_value x set) (add_value_old y x set m)

  add_values_only : (y : A) (xs set : List A) → IsIn y (add_values xs set) → IsIn y xs ⊎ IsIn y set
  unfolding add_values
  add_values_only y [] set m = inr m
  add_values_only y (x ∷ xs) set m = elim (add_values_only y xs (add_value x set) m) [
    | inl k ↦ inl (inr k)
    | inr k ↦ elim (add_value_only y x set k) [ inl e ↦ inl (inl e) | inr n ↦ inr n ]
  ]

  no_more : (y : A) (xs : List A) → IsIn y xs ⊎ IsIn y [] → IsIn y xs
  no_more y xs (inl m) = m
  no_more y xs (inr m) = elim m [ ]

  length-add_value : (x : A) (set : List A) → length set ≤ length (add_value x set)
  unfolding add_value
  length-add_value x [] = omega arith
  length-add_value x (y ∷ ys) = ground (arith, length-add_value x ys)

  length-add_values : (xs set : List A) → length set ≤ length (add_values xs set)
  unfolding add_values
  length-add_values [] set = omega arith
  length-add_values (x ∷ xs) set =
      omega (arith, length-add_value x set, length-add_values xs (add_value x set))

-- All values are the first one.
abbrev pub IsUniform : {A : Type 0} → List A → Type 0
IsUniform [] = Unit
IsUniform (x ∷ xs) = All (λ y. x ≡ y) xs

module _ {A : Type 0} (same : A → A → Bool) (same_iff : (a b : A) → same a b ≡ true ↔ a ≡ b) where
  add_value_new : (x : A) (set : List A) → IsIn x (add_value same x set)
  unfolding add_value
  add_value_new x [] = inl refl
  add_value_new x (b ∷ set) =
      if_elim (IsIn x) (same b x) (λ t. inl (sym ((same_iff b x).0 t)))
        (λ f. inr (add_value_new x set))

  add_values_new : (y : A) (xs set : List A) → IsIn y xs → IsIn y (add_values same xs set)
  unfolding add_values
  add_values_new y [] set m = elim m [ ]
  add_values_new y (x ∷ xs) set (inl e) =
      add_values_old same y xs (add_value same x set)
        (subst (λ k. IsIn k (add_value same x set)) (sym e) (add_value_new x set))
  add_values_new y (x ∷ xs) set (inr m) = add_values_new y xs (add_value same x set) m

  pub set_of-IsSetFrom : (xs : List A) → IsSetFrom same xs (set_of same xs)
  set_of-IsSetFrom xs = (
    add_values-AreDistinct same xs [] tt,
    λ y. (λ m. no_more same y xs (add_values_only same y xs [] m), λ m. add_values_new y xs [] m),
  )

  uniform_stays : (x : A) (xs : List A) → All (λ y. x ≡ y) xs → add_values same xs (x ∷ []) ≡ x ∷ []
  unfolding add_values add_value
  uniform_stays x [] h = refl
  uniform_stays x (y ∷ ys) h = rw ((same_iff x y).1 h.0) (uniform_stays x ys h.1)

  small_uniform :
      (x : A) (xs : List A) → length (add_values same xs (x ∷ [])) ≤ 1 → All (λ y. x ≡ y) xs
  unfolding add_values add_value
  small_uniform x [] h = tt
  small_uniform x (y ∷ ys) h =
      let size_when : Bool → ℕ =
        λ b. length (add_values same ys (if b then x ∷ [] else x ∷ y ∷ [])) in
      elim (Bool-cases (same x y)) [
        | inl e ↦ ((same_iff x y).0 e, small_uniform x ys (subst (λ b. size_when b ≤ 1) e h))
        | inr e ↦ absurd (
            omega (arith, length-add_values same ys (x ∷ y ∷ []), subst (λ b. size_when b ≤ 1) e h))
      ]

  -- A set has more than one element exactly if the values differ.
  pub size_of_set_lem : (xs : List A) → ltb 1 (size_of_set same xs) ≡ false ↔ IsUniform xs
  unfolding add_values add_value
  size_of_set_lem [] = (λ h. tt, λ h. refl)
  size_of_set_lem (x ∷ xs) =
      (λ h. small_uniform x xs (ground (arith, h)), λ h. rw (uniform_stays x xs h) refl)
