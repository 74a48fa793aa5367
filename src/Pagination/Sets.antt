-- ===== src/Pagination/Sets.antt =====
-- Which pages are shown, and in which order.
use dtsys.Prelude.{
  ◌≡◌, ◌≢◌, ◌↔◌, ◌⊎◌, inl, inr, Bool, true, false, not, ◌&&◌, List, [], ◌∷◌, arith, filter, if_elim,
  Bool-cases, All,
}
use dtsys.Prelude.Int.{ℤ, pos, ◌≤ℤ◌, ◌<ℤ◌, leb_ℤ, eq_ℤ, leb_ℤ_iff, eq_ℤ_iff, eq_of_parts}
use dtsys.Pagination.{to_set, insert, sort, candidates, shown}

-- The number is in the list.
abbrev pub In : ℤ → List ℤ → Type 0
In v [] = ⊥
In v (w ∷ ws) = (v ≡ w) ⊎ In v ws

-- Each number is less than all that follow.
abbrev pub IsAscending : List ℤ → Type 0
IsAscending [] = Unit
IsAscending (v ∷ vs) = All (λ w. v <ℤ w) vs × IsAscending vs

abbrev Distinct : List ℤ → Type 0
Distinct [] = Unit
Distinct (v ∷ vs) = ¬ In v vs × Distinct vs

In-filter : (p : ℤ → Bool) (v : ℤ) (ws : List ℤ) → In v (filter p ws) ↔ (In v ws × (p v ≡ true))
In-filter p v [] = (λ h. absurd h, λ h. h.0)
In-filter p v (w ∷ ws) = elim (Bool-cases (p w)) [
  | inl t ↦ rw t (ground (arith, In-filter p v ws))
  | inr f ↦ rw f (ground (arith, In-filter p v ws))
]

In-insert : (v w : ℤ) (ws : List ℤ) → In v (insert w ws) ↔ ((v ≡ w) ⊎ In v ws)
unfolding insert
In-insert v w [] = ground arith
In-insert v w (x ∷ ws) =
    if_elim (λ l. In v l ↔ ((v ≡ w) ⊎ In v (x ∷ ws))) (leb_ℤ w x) (λ _. ground arith)
      (λ _. ground (arith, In-insert v w ws))

In-sort : (v : ℤ) (vs : List ℤ) → In v (sort vs) ↔ In v vs
unfolding sort
In-sort v [] = ground arith
In-sort v (w ∷ vs) = ground (arith, In-insert v w (sort vs), In-sort v vs)

In-to_set : (v : ℤ) (vs : List ℤ) → In v (to_set vs) ↔ In v vs
unfolding to_set
In-to_set v [] = ground arith
In-to_set v (w ∷ vs) =
    ground (arith, In-filter (λ x. not (eq_ℤ w x)) v (to_set vs), In-to_set v vs, eq_ℤ_iff w v)

module _ (u v : ℤ) (u<v : u <ℤ v) where
  All-below : (ws : List ℤ) → All (λ w. v <ℤ w) ws → All (λ w. u <ℤ w) ws
  All-below [] h = tt
  All-below (w ∷ ws) h = (omega (arith, h.0), All-below ws h.1)

  All-insert : (ws : List ℤ) → All (λ w. u <ℤ w) ws → All (λ w. u <ℤ w) (insert v ws)
  unfolding insert
  All-insert [] h = (u<v, tt)
  All-insert (w ∷ ws) h =
      if_elim (All (λ x. u <ℤ x)) (leb_ℤ v w) (λ _. (u<v, h)) (λ _. (h.0, All-insert ws h.1))

leb_ℤ→lt : (v w : ℤ) → leb_ℤ v w ≡ true → v ≢ w → v <ℤ w
leb_ℤ→lt v w h n = ground (arith, eq_of_parts v w)

leb_ℤ→gt : (v w : ℤ) → leb_ℤ v w ≡ false → w <ℤ v
leb_ℤ→gt v w h = ground arith

insert-IsAscending : (v : ℤ) (ws : List ℤ) → IsAscending ws → ¬ In v ws → IsAscending (insert v ws)
unfolding insert
insert-IsAscending v [] h n = (tt, tt)
insert-IsAscending v (w ∷ ws) (below, h) n =
    if_elim IsAscending (leb_ℤ v w)
      (λ t.
        let v<w = leb_ℤ→lt v w t (λ e. n (inl e)) in
        ((v<w, All-below v w v<w ws below), (below, h)))
      (λ f. (All-insert w v (leb_ℤ→gt v w f) ws below, insert-IsAscending v ws h (λ m. n (inr m))))

sort-IsAscending : (vs : List ℤ) → Distinct vs → IsAscending (sort vs)
unfolding sort
sort-IsAscending [] h = tt
sort-IsAscending (v ∷ vs) (n, h) =
    insert-IsAscending v (sort vs) (sort-IsAscending vs h) (λ m. n ((In-sort v vs).0 m))

filter-Distinct : (p : ℤ → Bool) (vs : List ℤ) → Distinct vs → Distinct (filter p vs)
filter-Distinct p [] h = tt
filter-Distinct p (v ∷ vs) (n, h) =
    if_elim Distinct (p v) (λ _. ((λ m. n ((In-filter p v vs).0 m).0), filter-Distinct p vs h))
      (λ _. filter-Distinct p vs h)

to_set-Distinct : (vs : List ℤ) → Distinct (to_set vs)
unfolding to_set
to_set-Distinct [] = tt
to_set-Distinct (v ∷ vs) = (
  (λ m.
      let apart = ((In-filter (λ w. not (eq_ℤ v w)) v (to_set vs)).0 m).1 in
      ground (arith, eq_ℤ_iff v v)),
  filter-Distinct (λ w. not (eq_ℤ v w)) (to_set vs) (to_set-Distinct vs),
)

pub shown-IsAscending : (current total : ℤ) → IsAscending (shown current total)
unfolding shown
shown-IsAscending current total = sort-IsAscending _ (
    filter-Distinct (λ value. leb_ℤ (pos 1) value && leb_ℤ value total)
      (to_set (candidates current total)) (to_set-Distinct (candidates current total)))

in_range :
    (v total : ℤ) → ((leb_ℤ (pos 1) v && leb_ℤ v total) ≡ true) ↔ ((pos 1 ≤ℤ v) × (v ≤ℤ total))
in_range v total = ground (arith, leb_ℤ_iff (pos 1) v, leb_ℤ_iff v total)

pub In-shown :
    (v current total : ℤ)
    → In v (shown current total) ↔ (In v (candidates current total) × (pos 1 ≤ℤ v) × (v ≤ℤ total))
unfolding shown
In-shown v current total =
    let kept = λ (value : ℤ). leb_ℤ (pos 1) value && leb_ℤ value total in
    let set = to_set (candidates current total) in
    (
      (λ m.
          let (here, ranged) = (In-filter kept v set).0 ((In-sort v (filter kept set)).0 m) in
          let (low, high) = (in_range v total).0 ranged in
          ((In-to_set v (candidates current total)).0 here, low, high)),
      (λ h. (In-sort v (filter kept set)).1 (
          (In-filter kept v set).1
            ((In-to_set v (candidates current total)).1 h.0, (in_range v total).1 (h.1, h.2)))),
    )
