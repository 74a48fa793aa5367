-- ===== src/Updates/Pages.antt =====
-- The pages of the table of updates.
use dtsys.Prelude.{
  ℕ, zero, suc, ◌+◌, ◌-◌, ◌*◌, ◌≤◌, ◌<◌, ◌≡◌, refl, sym, ap, ◌∙◌, List, [], ◌∷◌, ◌++◌, arith,
  length, take, drop,
}
use dtsys.Updates.{
  Text, PendingSoftwareUpdate, UpdatesPage, slice, page_size, total_pages, filtered, paged,
  page_count, set_search,
}

module _ {ℓ} {A : Type ℓ} where
  take-nil : (n : ℕ) → take {A = A} n [] ≡ []
  take-nil zero = refl
  take-nil (suc n) = refl

  take-sum : (m n : ℕ) (xs : List A) → take (m + n) xs ≡ take m xs ++ take n (drop m xs)
  take-sum zero n xs = ap (λ k. take k xs) (omega arith)
  take-sum (suc m) n [] = take-nil (suc m + n) ∙ sym (take-nil n)
  take-sum (suc m) n (x ∷ xs) =
      let same : suc m + n ≡ suc (m + n) = omega arith in
      ap (λ k. take k (x ∷ xs)) same ∙ ap (λ r. x ∷ r) (take-sum m n xs)

  take_whole : (n : ℕ) (xs : List A) → length xs ≤ n → take n xs ≡ xs
  take_whole zero [] l = refl
  take_whole (suc n) [] l = refl
  take_whole zero (x ∷ xs) l = absurd (omega arith)
  take_whole (suc n) (x ∷ xs) l = ap (λ r. x ∷ r) (take_whole n xs (omega arith))

  drop_whole : (n : ℕ) (xs : List A) → length xs ≤ n → drop n xs ≡ []
  drop_whole zero [] l = refl
  drop_whole (suc n) [] l = refl
  drop_whole zero (x ∷ xs) l = absurd (omega arith)
  drop_whole (suc n) (x ∷ xs) l = drop_whole n xs (omega arith)

take-zero : {A : Type 0} (xs : List A) → take (0 * page_size) xs ≡ []
take-zero xs = refl

module _ (lower : Text → Text) where
  -- The pages from the first to the n-th, one behind the other.
  pub pages_up_to : ℕ → UpdatesPage → List PendingSoftwareUpdate
  pages_up_to zero s = []
  pages_up_to (suc n) s = pages_up_to n s ++ paged lower (suc n) s

  pages_up_to-take :
      (n : ℕ) (s : UpdatesPage)
      → pages_up_to n s ≡ take (n * page_size) (filtered lower s.search s.pending)
  unfolding pages_up_to paged slice
  pages_up_to-take zero s = sym (take-zero (filtered lower s.search s.pending))
  pages_up_to-take (suc n) s =
      let found = filtered lower s.search s.pending in
      let width : suc n * page_size - n * page_size ≡ page_size = omega arith in
      let whole : n * page_size + page_size ≡ suc n * page_size = omega arith in
      let start : suc n - 1 ≡ n = omega arith in
      ap (λ r. r ++ paged lower (suc n) s) (pages_up_to-take n s)
      ∙ (ap (λ r. take (n * page_size) found ++ r)
            (ap (λ k. take (suc n * page_size - k * page_size) (drop (k * page_size) found)) start
              ∙ ap (λ k. take k (drop (n * page_size) found)) width)
          ∙ (sym (take-sum (n * page_size) page_size found) ∙ ap (λ k. take k found) whole))

  -- The pages of the table, one behind the other, are the packages that the search finds: each stands
  -- on exactly one page, in its order, and no page is missing.
  pub pages_cover :
      (s : UpdatesPage) → pages_up_to (page_count lower s) s ≡ filtered lower s.search s.pending
  unfolding page_count total_pages
  pages_cover s =
      pages_up_to-take (page_count lower s) s
      ∙ take_whole _ (filtered lower s.search s.pending) (omega arith)

  -- A new search keeps the number of the page: if that is past the pages of the new search, the table
  -- is empty, whatever the search finds.
  pub set_search_stale :
      (search : Text) (s : UpdatesPage)
      → page_count lower (set_search search s) < s.page
      → paged lower (set_search search s).page (set_search search s) ≡ []
  unfolding page_count total_pages paged slice set_search
  set_search_stale search s l =
      let found = filtered lower search s.pending in
      let past : length found ≤ (s.page - 1) * page_size = omega (arith, l) in
      ap (take (s.page * page_size - (s.page - 1) * page_size))
        (drop_whole ((s.page - 1) * page_size) found past)
      ∙ take-nil (s.page * page_size - (s.page - 1) * page_size)
