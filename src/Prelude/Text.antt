-- ===== src/Prelude/Text.antt =====
-- JavaScript's strings as lists of UTF-16 code units, with the functions of theirs that the code
-- calls. `toLowerCase` is not among them: it is a parameter where it is used.
pub mod Split
use dtsys.Prelude.{
  ℕ, ◌≡◌, ◌↔◌, refl, ap, ◌∙◌, subst, Bool, true, false, ◌&&◌, ◌||◌, List, [], ◌∷◌, arith, ◌==◌,
  ==_iff, &&-eq-true, if◌then◌else◌, leb, any,
}

abbrev pub Text : Type 0
Text = List ℕ

-- `===`
abbrev pub text_eq : Text → Text → Bool
text_eq [] [] = true
text_eq [] (d ∷ t) = false
text_eq (c ∷ s) [] = false
text_eq (c ∷ s) (d ∷ t) = c == d && text_eq s t

-- `startsWith`
abbrev pub is_prefix : Text → Text → Bool
is_prefix [] s = true
is_prefix (p ∷ ps) [] = false
is_prefix (p ∷ ps) (c ∷ s) = p == c && is_prefix ps s

-- `text.includes(part)`
abbrev pub includes_text : Text → Text → Bool
includes_text part [] = is_prefix part []
includes_text part (c ∷ s) = is_prefix part (c ∷ s) || includes_text part s

-- A code unit in front of the first piece.
abbrev pub cons_head : ℕ → List Text → List Text
cons_head c [] = (c ∷ []) ∷ []
cons_head c (x ∷ xs) = (c ∷ x) ∷ xs

-- `split(sep)`, for a separator of one code unit.
unfoldable pub split_at : ℕ → Text → List Text
split_at sep [] = [] ∷ []
split_at sep (c ∷ s) = let rest = split_at sep s in if c == sep then [] ∷ rest else cons_head c rest

-- The white space of `trim` and `\s`.
abbrev pub is_space : ℕ → Bool
is_space c =
    any (λ w. c == w)
      (9 ∷ 10 ∷ 11 ∷ 12 ∷ 13 ∷ 32 ∷ 160 ∷ 5760 ∷ 8232 ∷ 8233 ∷ 8239 ∷ 8287 ∷ 12288 ∷ 65279 ∷ [])
    || (leb 8192 c && leb c 8202)

unfoldable pub trim_start : Text → Text
trim_start [] = []
trim_start (c ∷ s) = let rest = trim_start s in if is_space c then rest else c ∷ s

-- A code unit in front of what is left of the text behind it.
abbrev keep_unit : ℕ → Text → Text
keep_unit c [] = if is_space c then [] else c ∷ []
keep_unit c (d ∷ t) = c ∷ d ∷ t

unfoldable pub trim_end : Text → Text
trim_end [] = []
trim_end (c ∷ s) = keep_unit c (trim_end s)

-- `trim()`
unfoldable pub trim : Text → Text
trim s = trim_end (trim_start s)

-- `!!text`
abbrev pub is_filled : Text → Bool
is_filled [] = false
is_filled (c ∷ s) = true

pub text_eq→path : (s t : Text) → text_eq s t ≡ true → s ≡ t
text_eq→path [] [] h = refl
text_eq→path [] (d ∷ t) h = absurd (ground arith)
text_eq→path (c ∷ s) [] h = absurd (ground arith)
text_eq→path (c ∷ s) (d ∷ t) h =
    let (e, rest) = &&-eq-true (c == d) (text_eq s t) h in
    ap (λ k. k ∷ s) ((==_iff c d).0 e) ∙ ap (λ r. d ∷ r) (text_eq→path s t rest)

pub text_eq_refl : (s : Text) → text_eq s s ≡ true
text_eq_refl [] = refl
text_eq_refl (c ∷ s) = ground (arith, text_eq_refl s)

pub text_eq_iff : (s t : Text) → text_eq s t ≡ true ↔ s ≡ t
text_eq_iff s t = (text_eq→path s t, λ e. subst (λ x. text_eq s x ≡ true) e (text_eq_refl s))
