-- ===== src/Widgets/Places.antt =====
-- Where a dragged widget ends up (the drop handler of frontend/src/pages/CustomDashboard.tsx).
use mathlib.Core.List.{Perm}
use mathlib.Core.List.Perm as Permutation
use dtsys.Prelude.{
  ℕ, zero, suc, ◌≤◌, ◌<◌, ◌≡◌, refl, sym, ap, ◌∙◌, String, Bool, true, false, List, [], ◌∷◌, Option,
  none, some, arith, length, subst, if◌then◌else◌, str_eq, str_eq_iff, some_inj, none-ne-some,
}
use dtsys.Widgets.{LayoutItem, find_index, splice_out, splice_in, place, put_in, move}

-- The list with what was taken out in front.
abbrev pub put_back : Option LayoutItem × List LayoutItem → List LayoutItem
put_back (none, rest) = rest
put_back (some m, rest) = m ∷ rest

put_back-splice_out : (n : ℕ) (xs : List LayoutItem) → Perm (put_back (splice_out n xs)) xs
unfolding splice_out
put_back-splice_out n [] = Permutation.refl []
put_back-splice_out zero (i ∷ is) = Permutation.refl (i ∷ is)
put_back-splice_out (suc n) (i ∷ is) = behind (splice_out n is) (put_back-splice_out n is)
  where
    behind :
        (r : Option LayoutItem × List LayoutItem)
        → Perm (put_back r) is
        → Perm (put_back (r.0, i ∷ r.1)) (i ∷ is)
    behind (none, rest) p = Permutation.cons i p
    behind (some m, rest) p = Permutation.trans (Permutation.swap i m rest) (Permutation.cons i p)

splice_in-Perm : (n : ℕ) (m : LayoutItem) (xs : List LayoutItem) → Perm (splice_in n m xs) (m ∷ xs)
unfolding splice_in
splice_in-Perm n m [] = Permutation.refl (m ∷ [])
splice_in-Perm zero m (i ∷ is) = Permutation.refl (m ∷ i ∷ is)
splice_in-Perm (suc n) m (i ∷ is) =
    Permutation.trans (Permutation.cons i (splice_in-Perm n m is)) (Permutation.swap m i is)

-- A drop permutes the layout, whatever is dragged and wherever it is dropped.
pub move-Perm :
    (dragged target : String) (layout : List LayoutItem) → Perm (move dragged target layout) layout
unfolding move put_in
move-Perm dragged target layout =
    let n = place (find_index dragged layout) (length layout) in
    put_in-Perm (splice_out n layout) (put_back-splice_out n layout)
  where
    put_in-Perm :
        (r : Option LayoutItem × List LayoutItem)
        → Perm (put_back r) layout
        → Perm (put_in target layout r) layout
    put_in-Perm (none, rest) p = p
    put_in-Perm (some m, rest) p = Permutation.trans (splice_in-Perm _ m rest) p

-- At a place that exists, the item goes in front of the one that was there.
splice_out-splice_in :
    (n : ℕ) (m : LayoutItem) (xs : List LayoutItem)
    → n ≤ length xs
    → splice_out n (splice_in n m xs) ≡ (some m, xs)
unfolding splice_out splice_in
splice_out-splice_in zero m [] l = refl
splice_out-splice_in (suc n) m [] l = absurd (omega arith)
splice_out-splice_in zero m (i ∷ is) l = refl
splice_out-splice_in (suc n) m (i ∷ is) l =
    ap (λ r. (r.0, i ∷ r.1)) (splice_out-splice_in n m is (omega arith))

-- What an index that was found stands for.
record Found (id : String) (xs : List LayoutItem) (n : ℕ) : Type 0 where
  entry : LayoutItem
  rest : List LayoutItem
  taken : splice_out n xs ≡ (some entry, rest)
  named : entry.widget_id ≡ id
  shorter : length xs ≡ suc (length rest)
  bound : n < length xs

Found-next :
    (id : String) (i : LayoutItem) (is : List LayoutItem) (n : ℕ)
    → Found id is n
    → Found id (i ∷ is) (suc n)
unfolding splice_out
Found-next id i is n f = record {
  entry = f.entry;
  rest = i ∷ f.rest;
  taken = ap (λ r. (r.0, i ∷ r.1)) f.taken;
  named = f.named;
  shorter = ap suc f.shorter;
  bound = omega (arith, f.bound);
}

find_index-Found :
    (id : String) (xs : List LayoutItem) (n : ℕ) → find_index id xs ≡ some n → Found id xs n
unfolding find_index splice_out
find_index-Found id [] n h = absurd (none-ne-some h)
find_index-Found id (i ∷ is) n h =
    here (str_eq i.widget_id id) (find_index id is) (str_eq_iff i.widget_id id).0
      (find_index-Found id is) h
  where
    here :
        (b : Bool) (r : Option ℕ)
        → (b ≡ true → i.widget_id ≡ id)
        → ((k : ℕ) → r ≡ some k → Found id is k)
        → (if b then some 0 else elim r [ none ↦ none | some k ↦ some (suc k) ]) ≡ some n
        → Found id (i ∷ is) n
    here true r e f h = subst (Found id (i ∷ is)) (some_inj h) (record {
      entry = i;
      rest = is;
      taken = refl;
      named = e refl;
      shorter = refl;
      bound = omega arith;
    })
    here false none e f h = absurd (none-ne-some h)
    here false (some k) e f h =
        subst (Found id (i ∷ is)) (some_inj h) (Found-next id i is k (f k refl))

-- Dropped on another widget, a widget takes the place that the other one had, and the rest of the
-- layout stays as it is and in its order.
pub move_lem :
    (dragged target : String) (layout : List LayoutItem) (from to : ℕ)
    → find_index dragged layout ≡ some from
    → find_index target layout ≡ some to
    → (m : LayoutItem) × (m.widget_id ≡ dragged)
      × (splice_out to (move dragged target layout) ≡ (some m, (splice_out from layout).1))
unfolding move put_in
move_lem dragged target layout from to h k =
    let f = find_index-Found dragged layout from h in
    let g = find_index-Found target layout to k in
    let drawn : splice_out (place (find_index dragged layout) (length layout)) layout
        ≡ (some f.entry, f.rest) =
      ap (λ o. splice_out (place o (length layout)) layout) h ∙ f.taken in
    (
      f.entry,
      f.named,
      ap (λ r. splice_out to (put_in target layout r)) drawn
          ∙ (ap (λ o. splice_out to (splice_in (place o (length f.rest)) f.entry f.rest)) k
              ∙ (splice_out-splice_in to f.entry f.rest (omega (arith, g.bound, f.shorter))
                  ∙ ap (λ r. (some f.entry, r.1)) (sym f.taken))),
    )
