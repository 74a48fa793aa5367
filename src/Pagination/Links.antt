-- ===== src/Pagination/Links.antt =====
-- What the buttons ask for, and the ends of the row of links.
use dtsys.Prelude.{
  subst, none-ne-some, some_inj, ◌≡◌, refl, ◌∙◌, sym, ap, inl, inr, true, false, not, List, [], ◌∷◌,
  ◌++◌, some, arith, Bool-cases, All, All-append,
}
use dtsys.Prelude.Int.{ℤ, pos, ◌≤ℤ◌, ◌<ℤ◌, ◌+ℤ◌, ◌-ℤ◌, leb_ℤ, int_laws}
use dtsys.Pagination.{
  Item, page, last_item, ellipsis, shown, build_pages, Button, number_buttons, pagination,
}
use dtsys.Pagination.Sets.{In, IsAscending, shown-IsAscending, In-shown}
use dtsys.Pagination.Layout.{last_or, build_pages_ends, pages_of, build_pages_shows}

abbrev pub InRange : ℤ → ℤ → Type 0
InRange total v = (pos 1 ≤ℤ v) × (v ≤ℤ total)

-- A button that can be pressed asks for a page that exists.
abbrev pub IsSafe : ℤ → Button → Type 0
IsSafe total b = b.enabled ≡ true → InRange total b.target

leb_ℤ→gt : (v w : ℤ) → leb_ℤ v w ≡ false → w <ℤ v
leb_ℤ→gt v w h = ground arith

All-of_In : (P : ℤ → Type 0) (vs : List ℤ) → ((v : ℤ) → In v vs → P v) → All P vs
All-of_In P [] h = tt
All-of_In P (v ∷ vs) h = (h v (inl refl), All-of_In P vs (λ w m. h w (inr m)))

number_buttons-IsSafe :
    (total : ℤ) (items : List Item)
    → All (InRange total) (pages_of items)
    → All (IsSafe total) (number_buttons items)
unfolding number_buttons
number_buttons-IsSafe total [] h = tt
number_buttons-IsSafe total (page v ∷ items) h = ((λ _. h.0), number_buttons-IsSafe total items h.1)
number_buttons-IsSafe total (ellipsis ∷ items) h = number_buttons-IsSafe total items h

-- On a page that exists, every button that can be pressed, Previous and Next included, asks for a
-- page from 1 to the total.
pub pagination-IsSafe :
    (current total : ℤ) {buttons : List Button}
    → InRange total current
    → pagination current total ≡ some buttons
    → All (IsSafe total) buttons
unfolding pagination
pagination-IsSafe current total {buttons} h e = elim (Bool-cases (leb_ℤ total (pos 1))) [
  | inl one ↦ absurd (none-ne-some (rw one at e))
  | inr more ↦ subst (All (IsSafe total)) (some_inj (rw more at e)) row
]
  where
    numbers : All (IsSafe total) (number_buttons (build_pages current total))
    numbers = number_buttons-IsSafe total (build_pages current total) (
        All-of_In (InRange total) (pages_of (build_pages current total))
          (λ v m. let (_, low, high) = (build_pages_shows current total v).1.0 m in (low, high)))

    previous : leb_ℤ current (pos 1) ≡ false → InRange total (current -ℤ pos 1)
    previous f = let l = leb_ℤ→gt current (pos 1) f in (omega int_laws, omega int_laws)

    next : leb_ℤ total current ≡ false → InRange total (current +ℤ pos 1)
    next f = let l = leb_ℤ→gt total current f in (omega int_laws, omega int_laws)

    row : All (IsSafe total) (
        (record { enabled = not (leb_ℤ current (pos 1)); target = current -ℤ pos 1 } ∷ [])
        ++ (number_buttons (build_pages current total)
            ++ record { enabled = not (leb_ℤ total current); target = current +ℤ pos 1 } ∷ []))
    row = (
      (λ t. previous (ground arith)),
      All-append (IsSafe total) (number_buttons (build_pages current total)) _ numbers
          ((λ t. next (ground arith)), tt),
    )

last_or_greatest :
    (p t : ℤ) (vs : List ℤ)
    → IsAscending (p ∷ vs)
    → In t (p ∷ vs)
    → All (λ v. v ≤ℤ t) (p ∷ vs)
    → last_or p vs ≡ t
last_or_greatest p t [] h (inl e) b = sym e
last_or_greatest p t [] h (inr m) b = absurd m
last_or_greatest p t (v ∷ vs) (below, h) (inl e) b = absurd (past e below.0 b.1.0)
  where
    past : t ≡ p → p <ℤ v → v ≤ℤ t → ⊥
    past e l k = ground arith
last_or_greatest p t (v ∷ vs) (below, h) (inr m) b = last_or_greatest v t vs h m b.1

highs : (total : ℤ) (vs : List ℤ) → All (InRange total) vs → All (λ v. v ≤ℤ total) vs
highs total [] h = tt
highs total (v ∷ vs) h = (h.0.1, highs total vs h.1)

first_least :
    (v one : ℤ) (vs : List ℤ) → IsAscending (v ∷ vs) → In one (v ∷ vs) → one ≤ℤ v → v ≡ one
first_least v one vs h (inl e) l = sym e
first_least v one vs (below, h) (inr m) l = absurd (beyond vs below m)
  where
    beyond : (ws : List ℤ) → All (λ w. v <ℤ w) ws → In one ws → ⊥
    beyond [] b k = k
    beyond (w ∷ ws) b (inl e) = ground (arith, b.0)
    beyond (w ∷ ws) b (inr k) = beyond ws b.1 k

-- If there is a page at all, the row of links starts with page 1 and ends with the last page.
pub build_pages_span :
    (current total : ℤ)
    → pos 1 ≤ℤ total
    → (items : List Item) × (build_pages current total ≡ page (pos 1) ∷ items)
      × (last_item (build_pages current total) ≡ some (page total))
build_pages_span current total h = go (shown current total) refl
  where
    one_shown : In (pos 1) (shown current total)
    one_shown = (In-shown (pos 1) current total).1 (inl refl, omega arith, h)

    total_shown : In total (shown current total)
    total_shown = (In-shown total current total).1 (inr (inl refl), h, omega arith)

    go :
        (vs : List ℤ)
        → shown current total ≡ vs
        → (items : List Item) × (build_pages current total ≡ page (pos 1) ∷ items)
          × (last_item (build_pages current total) ≡ some (page total))
    go [] e = absurd (subst (In (pos 1)) e one_shown)
    go (v ∷ vs) e =
        let ascending = subst IsAscending e (shown-IsAscending current total) in
        let ranged = subst (All (InRange total)) e (
          All-of_In (InRange total) (shown current total)
            (λ w m. let (_, low, high) = (In-shown w current total).0 m in (low, high))) in
        let first =
          first_least v (pos 1) vs ascending (subst (In (pos 1)) e one_shown) ranged.0.0 in
        let last =
          last_or_greatest v total vs ascending (subst (In total) e total_shown)
            (highs total (v ∷ vs) ranged) in
        let (items, whole, end) = build_pages_ends current total v vs e in
        (items, whole ∙ ap (λ w. page w ∷ items) first, end ∙ ap (λ w. some (page w)) last)
