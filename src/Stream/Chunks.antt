-- ===== src/Stream/Chunks.antt =====
-- `split` on a blank line, and appending to what is split.
use dtsys.Prelude.{
  ℕ, ◌≡◌, refl, ap, ◌∙◌, ◌≢◌, inl, inr, false, ◌&&◌, List, [], ◌∷◌, ◌++◌, arith, ◌==◌, Bool-cases,
}
use dtsys.Stream.{Text, newline, cons_head, split_blank, pop_last}

pub cons_head-ne-nil : (c : ℕ) (xs : List Text) → cons_head c xs ≢ []
cons_head-ne-nil c [] = λ h. cc
cons_head-ne-nil c (x ∷ xs) = λ h. cc

pub split_blank-ne-nil : (t : Text) → split_blank t ≢ []
unfolding split_blank
split_blank-ne-nil [] = λ h. cc
split_blank-ne-nil (c ∷ []) = λ h. cc
split_blank-ne-nil (c ∷ d ∷ s) = ground (arith, cons_head-ne-nil c (split_blank (d ∷ s)))

cons_head_one :
    (c : ℕ) (xs : List Text) {x : Text}
    → cons_head c xs ≡ x ∷ []
    → xs ≢ []
    → (y : Text) × (xs ≡ y ∷ []) × (x ≡ c ∷ y)
cons_head_one c [] h k = absurd (k refl)
cons_head_one c (y ∷ []) h k = (y, refl, cc)
cons_head_one c (y ∷ z ∷ zs) h k = cc

-- A text that is not cut is its only chunk.
pub split_blank_one : (t : Text) {x : Text} → split_blank t ≡ x ∷ [] → x ≡ t
unfolding split_blank
split_blank_one [] h = cc
split_blank_one (c ∷ []) h = cc
split_blank_one (c ∷ d ∷ s) {x} h = elim (Bool-cases (c == newline && d == newline)) [
  | inl cut ↦ ground (arith, split_blank-ne-nil s)
  | inr go ↦
      let h' : cons_head c (split_blank (d ∷ s)) ≡ x ∷ [] = (rw go at h) in
      let (y, e, e') = cons_head_one c (split_blank (d ∷ s)) h' (split_blank-ne-nil (d ∷ s)) in
      e' ∙ ap (λ r. c ∷ r) (split_blank_one (d ∷ s) e)
]

pub pop_last-cons :
    (x : Text) (xs : List Text)
    → xs ≢ []
    → pop_last (x ∷ xs) ≡ (x ∷ (pop_last xs).0, (pop_last xs).1)
unfolding pop_last
pop_last-cons x [] h = absurd (h refl)
pop_last-cons x (y ∷ ys) h = refl

-- The case where the first two characters are no separator.
append_longer :
    (c d : ℕ) (a s : Text) (r : List Text)
    → split_blank (d ∷ a) ≡ r
    → (c == newline && d == newline) ≡ false
    → split_blank (d ∷ (a ++ s)) ≡ (pop_last r).0 ++ split_blank ((pop_last r).1 ++ s)
    → cons_head c (split_blank (d ∷ (a ++ s)))
      ≡ (pop_last (cons_head c r)).0 ++ split_blank ((pop_last (cons_head c r)).1 ++ s)
unfolding split_blank pop_last
append_longer c d a s [] e go ih = absurd (split_blank-ne-nil (d ∷ a) e)
append_longer c d a s (x ∷ []) e go ih = rw (split_blank_one (d ∷ a) e) (rw go refl)
append_longer c d a s (x ∷ y ∷ ys) e go ih = ap (cons_head c) ih

-- Adding a text after what has been split goes on from the last chunk.
pub split_blank-append :
    (a s : Text)
    → split_blank (a ++ s)
      ≡ (pop_last (split_blank a)).0 ++ split_blank ((pop_last (split_blank a)).1 ++ s)
unfolding split_blank pop_last
split_blank-append [] s = refl
split_blank-append (c ∷ []) s = refl
split_blank-append (c ∷ d ∷ a) s = elim (Bool-cases (c == newline && d == newline)) [
  | inl cut ↦ rw cut (
      rw (pop_last-cons [] (split_blank a) (split_blank-ne-nil a))
        (ap (λ r. [] ∷ r) (split_blank-append a s)))
  | inr go ↦
      rw go (append_longer c d a s (split_blank (d ∷ a)) refl go (split_blank-append (d ∷ a) s))
]
