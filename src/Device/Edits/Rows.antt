-- ===== src/Device/Edits/Rows.antt =====
-- The requests that the rows of the device page send.
use dtsys.Prelude.{
  ◌≤◌, inl, inr, refl, String, List, [], ◌∷◌, Option, none, some, arith, All, IsIn, if_elim, ltb,
  subst, Option-cases, length,
}
use dtsys.Device.Edits.{
  Editing, nothing_edited, EditEvent, row_clicked, text_typed, row_left, answered, edit, edit_all,
  save_row,
}

-- The rows that were clicked, and the texts that a row showed or that were typed.
abbrev pub clicked_rows : List EditEvent → List String
clicked_rows [] = []
clicked_rows (row_clicked name value ∷ es) = name ∷ clicked_rows es
clicked_rows (text_typed t ∷ es) = clicked_rows es
clicked_rows (row_left ∷ es) = clicked_rows es
clicked_rows (answered ∷ es) = clicked_rows es

abbrev pub edited_texts : List EditEvent → List String
edited_texts [] = []
edited_texts (row_clicked name value ∷ es) = value ∷ edited_texts es
edited_texts (text_typed t ∷ es) = t ∷ edited_texts es
edited_texts (row_left ∷ es) = edited_texts es
edited_texts (answered ∷ es) = edited_texts es

module _ (rows texts : List String) where
  abbrev IsOpenIn : Option String → String → Type 0
  IsOpenIn none draft = Unit
  IsOpenIn (some name) draft = IsIn name rows × IsIn draft texts

  abbrev pub IsFrom : String × String → Type 0
  IsFrom r = IsIn r.0 rows × IsIn r.1 texts

  abbrev IsTraced : Editing → Type 0
  IsTraced s =
      IsOpenIn s.editing_field s.field_draft × All IsFrom s.sent × (s.under_way ≤ length s.sent)

  -- The events are among them.
  abbrev AreKnown : List EditEvent → Type 0
  AreKnown es = All (λ x. IsIn x rows) (clicked_rows es) × All (λ x. IsIn x texts) (edited_texts es)

  typed-IsTraced :
      (t : String) (s : Editing) → IsIn t texts → IsTraced s → IsTraced (edit (text_typed t) s)
  unfolding edit
  typed-IsTraced t s k (o, a, u) = elim (Option-cases s.editing_field) [
    | inl e ↦ rw e (tt, a, u)
    | inr (name, e) ↦ let (r, d) = subst (λ f. IsOpenIn f s.field_draft) e o in rw e ((r, k), a, u)
  ]

  saved-IsTraced : (s : Editing) → IsTraced s → IsTraced (save_row s.editing_field s)
  saved-IsTraced s (o, a, u) = elim (Option-cases s.editing_field) [
    | inl e ↦ rw e (tt, a, u)
    | inr (name, e) ↦
        let here = subst (λ f. IsOpenIn f s.field_draft) e o in
        rw e (here, (here, a), omega (arith, u))
  ]

  edit_all-IsTraced :
      (es : List EditEvent) (s : Editing) → AreKnown es → IsTraced s → IsTraced (edit_all es s)
  unfolding edit_all edit
  edit_all-IsTraced [] s k h = h
  edit_all-IsTraced (row_clicked name value ∷ es) s ((r, rs), (t, ts)) (o, a, u) =
      edit_all-IsTraced es (record s { editing_field = some name; field_draft = value }) (rs, ts)
        ((r, t), a, u)
  edit_all-IsTraced (text_typed t ∷ es) s (rs, (k, ts)) h =
      edit_all-IsTraced es (edit (text_typed t) s) (rs, ts) (typed-IsTraced t s k h)
  edit_all-IsTraced (row_left ∷ es) s k h =
      edit_all-IsTraced es (save_row s.editing_field s) k (saved-IsTraced s h)
  edit_all-IsTraced (answered ∷ es) s k (o, a, u) =
      edit_all-IsTraced es (edit answered s) k
        (if_elim IsTraced (ltb 0 s.under_way) (λ b. (tt, a, omega (arith, u))) (λ b. (o, a, u)))

IsIn-later :
    (y : String) (ys xs : List String) → All (λ x. IsIn x xs) ys → All (λ x. IsIn x (y ∷ xs)) ys
IsIn-later y [] xs h = tt
IsIn-later y (z ∷ zs) xs h = (inr h.0, IsIn-later y zs xs h.1)

All-IsIn_self : (xs : List String) → All (λ x. IsIn x xs) xs
All-IsIn_self [] = tt
All-IsIn_self (x ∷ xs) = (inl refl, IsIn-later x xs xs (All-IsIn_self xs))

-- Every request that the rows of the device page send, over any run from a page without an open row, is for a
-- row that was clicked, with a text that a clicked row showed or that was typed; and no more requests are under
-- way than were sent.
pub edit_all-IsFrom :
    (es : List EditEvent)
    → All (IsFrom (clicked_rows es) (edited_texts es)) (edit_all es nothing_edited).sent
      × ((edit_all es nothing_edited).under_way ≤ length (edit_all es nothing_edited).sent)
edit_all-IsFrom es =
    let (o, a, u) =
      edit_all-IsTraced (clicked_rows es) (edited_texts es) es nothing_edited
        (All-IsIn_self (clicked_rows es), All-IsIn_self (edited_texts es)) (tt, tt, omega arith) in
    (a, u)
