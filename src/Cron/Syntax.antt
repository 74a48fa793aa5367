-- ===== src/Cron/Syntax.antt =====
-- A description of the fields of a cron schedule, and how they are written (for `parseField` of
-- frontend/src/utils/cron.ts).
use dtsys.Prelude.{
  ℕ, suc, ◌-◌, ◌%◌, ◌≡◌, Bool, false, ◌&&◌, ◌||◌, List, [], ◌∷◌, ◌++◌, ◌==◌, leb, any, some,
}
use dtsys.Cron.{Text, Num, star, comma, dash, slash, has}

-- One number, a range, or every so many numbers of a range; the step is one more than given.
pub data Part : Type 0 where
  exactly : ℕ → Part
  from_to : ℕ → ℕ → Part
  in_steps : ℕ → ℕ → ℕ → Part

-- Every value, every so many values, or a list of parts.
pub data Field : Type 0 where
  every_value : Field
  every : ℕ → Field
  listed : Part → List Part → Field

unfoldable pub stands_for : Part → ℕ → Bool
stands_for (exactly n) v = n == v
stands_for (from_to a b) v = leb a v && leb v b
stands_for (in_steps a b n) v = leb a v && (leb v b && (v - a) % suc n == 0)

unfoldable pub allows : ℕ → ℕ → Field → ℕ → Bool
allows low high every_value v = leb low v && leb v high
allows low high (every n) v = leb low v && (leb v high && (v - low) % suc n == 0)
allows low high (listed p ps) v = stands_for p v || any (λ q. stands_for q v) ps

-- `Number` reads a number's digits back, and no digit is one of the four marks.
pub record IsDecimal (number : Text → Num) (digits : ℕ → Text) : Type 0 where
  pub reads : (n : ℕ) → number (digits n) ≡ some n
  pub no_star : (n : ℕ) → has star (digits n) ≡ false
  pub no_comma : (n : ℕ) → has comma (digits n) ≡ false
  pub no_dash : (n : ℕ) → has dash (digits n) ≡ false
  pub no_slash : (n : ℕ) → has slash (digits n) ≡ false

module _ (digits : ℕ → Text) where
  abbrev pub print_part : Part → Text
  print_part (exactly n) = digits n
  print_part (from_to a b) = digits a ++ dash ∷ digits b
  print_part (in_steps a b n) = (digits a ++ dash ∷ digits b) ++ slash ∷ digits (suc n)

  abbrev pub print_parts : Part → List Part → Text
  print_parts p [] = print_part p
  print_parts p (q ∷ ps) = print_part p ++ comma ∷ print_parts q ps

  abbrev pub print_field : Field → Text
  print_field every_value = star ∷ []
  print_field (every n) = star ∷ slash ∷ digits (suc n)
  print_field (listed p ps) = print_parts p ps
