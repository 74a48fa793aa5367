-- ===== src/Widgets/Distinct.antt =====
-- Lists of widgets without a repeated one (frontend/src/pages/CustomDashboard.tsx).
use dtsys.Prelude.{
  ℕ, zero, suc, ◌≡◌, ◌≢◌, sym, String, Bool, true, false, not, ◌&&◌, List, [], ◌∷◌, ◌++◌, Option,
  none, some, arith, str_eq, str_eq_iff, Bool-cases, inl, inr, All, any, filter, &&-eq-true,
  All-append, subst,
}
use dtsys.Widgets.{LayoutItem, splice_out, splice_in}
use dtsys.Widgets.Places.{put_back}

abbrev pub LacksWidget : String → List LayoutItem → Type 0
LacksWidget id layout = All (λ (i : LayoutItem). i.widget_id ≢ id) layout

abbrev pub HasDistinctWidgets : List LayoutItem → Type 0
HasDistinctWidgets [] = Unit {0}
HasDistinctWidgets (i ∷ is) = LacksWidget i.widget_id is × HasDistinctWidgets is

module _ (P : LayoutItem → Type 0) where
  pub All-put_back : (n : ℕ) (xs : List LayoutItem) → All P xs → All P (put_back (splice_out n xs))
  unfolding splice_out
  All-put_back n [] h = tt
  All-put_back zero (i ∷ is) h = h
  All-put_back (suc n) (i ∷ is) h = behind (splice_out n is) (All-put_back n is h.1)
    where
      behind :
          (r : Option LayoutItem × List LayoutItem)
          → All P (put_back r)
          → All P (put_back (r.0, i ∷ r.1))
      behind (none, rest) p = (h.0, p)
      behind (some m, rest) p = (p.0, (h.0, p.1))

  pub All-splice_in :
      (n : ℕ) (m : LayoutItem) (xs : List LayoutItem) → P m → All P xs → All P (splice_in n m xs)
  unfolding splice_in
  All-splice_in n m [] p h = (p, tt)
  All-splice_in zero m (i ∷ is) p h = (p, h)
  All-splice_in (suc n) m (i ∷ is) p h = (h.0, All-splice_in n m is p h.1)

  pub All-filter : (p : LayoutItem → Bool) (xs : List LayoutItem) → All P xs → All P (filter p xs)
  All-filter p [] h = tt
  All-filter p (x ∷ xs) h = ground (arith, All-filter p xs h.1)

pub put_back-HasDistinctWidgets :
    (n : ℕ) (xs : List LayoutItem)
    → HasDistinctWidgets xs
    → HasDistinctWidgets (put_back (splice_out n xs))
unfolding splice_out
put_back-HasDistinctWidgets n [] h = tt
put_back-HasDistinctWidgets zero (i ∷ is) h = h
put_back-HasDistinctWidgets (suc n) (i ∷ is) h =
    behind (splice_out n is) (All-put_back _ n is h.0) (put_back-HasDistinctWidgets n is h.1)
  where
    behind :
        (r : Option LayoutItem × List LayoutItem)
        → LacksWidget i.widget_id (put_back r)
        → HasDistinctWidgets (put_back r)
        → HasDistinctWidgets (put_back (r.0, i ∷ r.1))
    behind (none, rest) l d = (l, d)
    behind (some m, rest) l d = ((λ e. l.0 (sym e), d.0), (l.1, d.1))

pub splice_in-HasDistinctWidgets :
    (n : ℕ) (m : LayoutItem) (xs : List LayoutItem)
    → LacksWidget m.widget_id xs
    → HasDistinctWidgets xs
    → HasDistinctWidgets (splice_in n m xs)
unfolding splice_in
splice_in-HasDistinctWidgets n m [] l d = (tt, tt)
splice_in-HasDistinctWidgets zero m (i ∷ is) l d = (l, d)
splice_in-HasDistinctWidgets (suc n) m (i ∷ is) l d =
    (All-splice_in _ n m is (λ e. l.0 (sym e)) d.0, splice_in-HasDistinctWidgets n m is l.1 d.1)

pub filter-HasDistinctWidgets :
    (p : LayoutItem → Bool) (xs : List LayoutItem)
    → HasDistinctWidgets xs
    → HasDistinctWidgets (filter p xs)
filter-HasDistinctWidgets p [] h = tt
filter-HasDistinctWidgets p (x ∷ xs) h =
    ground (arith, All-filter _ p xs h.0, filter-HasDistinctWidgets p xs h.1)

pub any-filter :
    (p : String → Bool) (id : String) (xs : List String)
    → any (λ x. str_eq x id) (filter p xs) ≡ true
    → p id ≡ true
any-filter p id [] h = absurd (ground arith)
any-filter p id (x ∷ xs) h = elim (Bool-cases (p x)) [
  | inl e ↦ elim (Bool-cases (str_eq x id)) [
    | inl same ↦ subst (λ k. p k ≡ true) ((str_eq_iff x id).0 same) e
    | inr other ↦ any-filter p id xs (ground arith)
  ]
  | inr e ↦ any-filter p id xs (ground arith)
]

pub any→LacksWidget :
    (id : String) (xs : List LayoutItem)
    → any (λ entry. str_eq entry.widget_id id) xs ≡ false
    → LacksWidget id xs
any→LacksWidget id [] h = tt
any→LacksWidget id (x ∷ xs) h = ground (arith, str_eq_iff x.widget_id id, any→LacksWidget id xs)

pub append-HasDistinctWidgets :
    (m : LayoutItem) (xs : List LayoutItem)
    → LacksWidget m.widget_id xs
    → HasDistinctWidgets xs
    → HasDistinctWidgets (xs ++ m ∷ [])
append-HasDistinctWidgets m [] l d = (tt, tt)
append-HasDistinctWidgets m (x ∷ xs) l d =
    (All-append _ xs (m ∷ []) d.0 ((λ e. l.0 (sym e)), tt), append-HasDistinctWidgets m xs l.1 d.1)

-- The test that no widget is repeated.
abbrev pub all_new : List LayoutItem → Bool
all_new [] = true
all_new (i ∷ is) = not (any (λ entry. str_eq entry.widget_id i.widget_id) is) && all_new is

pub all_new→HasDistinctWidgets : (xs : List LayoutItem) → all_new xs ≡ true → HasDistinctWidgets xs
all_new→HasDistinctWidgets [] h = tt
all_new→HasDistinctWidgets (i ∷ is) h =
    let (new, rest) = &&-eq-true (not (any (λ entry. str_eq entry.widget_id i.widget_id) is)) _ h in
    (any→LacksWidget i.widget_id is (ground (arith, new)), all_new→HasDistinctWidgets is rest)
