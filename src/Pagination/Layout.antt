-- ===== src/Pagination/Layout.antt =====
-- Where the ellipses stand.
use dtsys.Prelude.{
  ◌≡◌, refl, ◌∙◌, sym, ap, ◌↔◌, inl, inr, true, false, List, [], ◌∷◌, ◌++◌, Option, none, some,
  arith, if◌then◌else◌, if_elim, Bool-cases, append_assoc, append-nil,
}
use dtsys.Prelude.Int.{ℤ, pos, ◌≤ℤ◌, ◌<ℤ◌, ◌+ℤ◌, ◌-ℤ◌, ltb_ℤ, ltb_ℤ→lt, ltb_ℤ→le, int_laws}
use dtsys.Pagination.{
  Item, page, ellipsis, candidates, last_item, push_value, push_all, shown, build_pages,
}
use dtsys.Pagination.Sets.{In, IsAscending, shown-IsAscending, In-shown}

-- The numbers of the links.
abbrev pub pages_of : List Item → List ℤ
pages_of [] = []
pages_of (page v ∷ items) = v ∷ pages_of items
pages_of (ellipsis ∷ items) = pages_of items

-- The loop by recursion on the values, after the number before them.
lay_out : Option ℤ → List ℤ → List Item
lay_out previous [] = []
lay_out none (v ∷ vs) = page v ∷ lay_out (some v) vs
lay_out (some p) (v ∷ vs) =
    let rest = page v ∷ lay_out (some v) vs in
    if ltb_ℤ (pos 1) (v -ℤ p) then ellipsis ∷ rest else rest

last_item-snoc : (items : List Item) (x : Item) → last_item (items ++ x ∷ []) ≡ some x
unfolding last_item
last_item-snoc [] x = refl
last_item-snoc (y ∷ []) x = refl
last_item-snoc (y ∷ z ∷ items) x = last_item-snoc (z ∷ items) x

push_all-lay_out :
    (result : List Item) (p : ℤ) (vs : List ℤ)
    → last_item result ≡ some (page p)
    → push_all result vs ≡ result ++ lay_out (some p) vs
unfolding push_all lay_out push_value
push_all-lay_out result p [] h = sym (append-nil result)
push_all-lay_out result p (v ∷ vs) h = elim (Bool-cases (ltb_ℤ (pos 1) (v -ℤ p))) [
  | inl gap ↦
      rw (h, push_value)
        (rw gap (
          push_all-lay_out ((result ++ ellipsis ∷ []) ++ page v ∷ []) v vs
            (last_item-snoc (result ++ ellipsis ∷ []) (page v))
          ∙ simp append_assoc))
  | inr near ↦
      rw (h, push_value)
        (rw near (
          push_all-lay_out (result ++ page v ∷ []) v vs (last_item-snoc result (page v))
          ∙ append_assoc result (page v ∷ []) (lay_out (some v) vs)))
]

push_all_nil : (vs : List ℤ) → push_all [] vs ≡ lay_out none vs
unfolding push_all lay_out push_value last_item
push_all_nil [] = refl
push_all_nil (v ∷ vs) = push_all-lay_out (page v ∷ []) v vs refl

build_pages-lay_out :
    (current total : ℤ) → build_pages current total ≡ lay_out none (shown current total)
unfolding build_pages
build_pages-lay_out current total = push_all_nil (shown current total)

pages_of-lay_out : (p : Option ℤ) (vs : List ℤ) → pages_of (lay_out p vs) ≡ vs
unfolding lay_out
pages_of-lay_out p [] = refl
pages_of-lay_out none (v ∷ vs) = ap (λ r. v ∷ r) (pages_of-lay_out (some v) vs)
pages_of-lay_out (some p) (v ∷ vs) = ground (arith, pages_of-lay_out (some v) vs)

last_item-cons :
    (x y : Item) (items : List Item) → last_item (x ∷ y ∷ items) ≡ last_item (y ∷ items)
unfolding last_item
last_item-cons x y items = refl

-- The numbers that the links end with.
abbrev pub last_or : ℤ → List ℤ → ℤ
last_or p [] = p
last_or p (v ∷ vs) = last_or v vs

last_item-lay_out :
    (p : ℤ) (vs : List ℤ) → last_item (page p ∷ lay_out (some p) vs) ≡ some (page (last_or p vs))
unfolding lay_out last_item
last_item-lay_out p [] = refl
last_item-lay_out p (v ∷ vs) =
    if_elim (λ items. last_item (page p ∷ items) ≡ some (page (last_or v vs)))
      (ltb_ℤ (pos 1) (v -ℤ p)) (λ _. last_item-lay_out v vs) (λ _. last_item-lay_out v vs)

-- The first and the last item, from the numbers alone.
pub build_pages_ends :
    (current total v : ℤ) (vs : List ℤ)
    → shown current total ≡ v ∷ vs
    → (items : List Item) × (build_pages current total ≡ page v ∷ items)
      × (last_item (build_pages current total) ≡ some (page (last_or v vs)))
unfolding lay_out
build_pages_ends current total v vs e =
    let whole = build_pages-lay_out current total ∙ ap (lay_out none) e in
    (lay_out (some v) vs, whole, ap last_item whole ∙ last_item-lay_out v vs)

-- The links show exactly the pages from 1 to the total among the first, the last and the five around
-- the current one, each once and in increasing order.
pub build_pages_shows :
    (current total v : ℤ)
    → let pages = pages_of (build_pages current total) in
      IsAscending pages
      × (In v pages ↔ (In v (candidates current total) × (pos 1 ≤ℤ v) × (v ≤ℤ total)))
build_pages_shows current total v =
    rw (build_pages-lay_out current total, pages_of-lay_out none (shown current total))
      (shown-IsAscending current total, In-shown v current total)

-- After the page p: the next page with nothing between, or an ellipsis over a gap and then a page.
abbrev pub FollowsOn : ℤ → List Item → Type 0
FollowsOn p [] = Unit
FollowsOn p (page q ∷ items) = (q ≡ p +ℤ pos 1) × FollowsOn q items
FollowsOn p (ellipsis ∷ []) = ⊥
FollowsOn p (ellipsis ∷ page q ∷ items) = (p +ℤ pos 1 <ℤ q) × FollowsOn q items
FollowsOn p (ellipsis ∷ ellipsis ∷ items) = ⊥

-- The items start with a page, and an ellipsis stands for at least one page that is left out.
abbrev pub IsLaidOut : List Item → Type 0
IsLaidOut [] = Unit
IsLaidOut (page p ∷ items) = FollowsOn p items
IsLaidOut (ellipsis ∷ items) = ⊥

adjacent : (p v : ℤ) → p <ℤ v → ltb_ℤ (pos 1) (v -ℤ p) ≡ false → v ≡ p +ℤ pos 1
adjacent p v l h = let near = ltb_ℤ→le (pos 1) (v -ℤ p) h in omega int_laws

gapped : (p v : ℤ) → ltb_ℤ (pos 1) (v -ℤ p) ≡ true → p +ℤ pos 1 <ℤ v
gapped p v h = let far = ltb_ℤ→lt (pos 1) (v -ℤ p) h in omega int_laws

lay_out-FollowsOn : (p : ℤ) (vs : List ℤ) → IsAscending (p ∷ vs) → FollowsOn p (lay_out (some p) vs)
unfolding lay_out
lay_out-FollowsOn p [] h = tt
lay_out-FollowsOn p (v ∷ vs) (below, h) =
    if_elim (FollowsOn p) (ltb_ℤ (pos 1) (v -ℤ p)) (λ t. (gapped p v t, lay_out-FollowsOn v vs h))
      (λ f. (adjacent p v below.0 f, lay_out-FollowsOn v vs h))

lay_out-IsLaidOut : (vs : List ℤ) → IsAscending vs → IsLaidOut (lay_out none vs)
unfolding lay_out
lay_out-IsLaidOut [] h = tt
lay_out-IsLaidOut (v ∷ vs) h = lay_out-FollowsOn v vs h

-- The links start with a page; between two of them an ellipsis stands exactly where pages are left
-- out, and no ellipsis stands at the end or beside another.
pub build_pages-IsLaidOut : (current total : ℤ) → IsLaidOut (build_pages current total)
build_pages-IsLaidOut current total =
    rw (build_pages-lay_out current total)
      (lay_out-IsLaidOut (shown current total) (shown-IsAscending current total))
