-- ===== src/Cron.antt =====
-- The preview of cron schedules (frontend/src/utils/cron.ts). A text is the list of its UTF-16 code
-- units. `Number` is a parameter, on texts that stand for a natural number (`none` is NaN), and so is
-- the clock that the `Date` cursor reads.
pub mod Syntax
pub mod Split
pub mod Fields
pub mod Schedule
pub mod Runs
mod Tests
use dtsys.Prelude.{
  ℕ, zero, suc, ◌+◌, ◌-◌, ◌%◌, String, Bool, true, false, not, ◌&&◌, ◌||◌, List, [], ◌∷◌, ◌++◌,
  Option, none, some, map, ◌==◌, leb, if◌then◌else◌, length, any, filter, drop,
}
unfoldable pub use dtsys.Prelude.Text.{split_at}
pub use dtsys.Prelude.Text.{Text, text_eq, cons_head}

-- A natural number, or NaN.
abbrev pub Num : Type 0
Num = Option ℕ

abbrev pub star : ℕ
star = 42

abbrev pub comma : ℕ
comma = 44

abbrev pub dash : ℕ
dash = 45

abbrev pub slash : ℕ
slash = 47

abbrev pub has : ℕ → Text → Bool
has sep s = any (λ c. c == sep) s

-- `Array.from({ length: len }, (_, index) => start + index)`
unfoldable pub upto : ℕ → ℕ → List ℕ
upto start zero = []
upto start (suc len) = start ∷ upto (start + 1) len

-- The same from one number to another, empty where there is none, or where one of them is NaN.
unfoldable pub values : Num → Num → List ℕ
values none last = []
values (some first) none = []
values (some first) (some last) = upto first (last + 1 - first)

-- `(value - first) % step === 0`; a remainder by 0 or by NaN is NaN.
unfoldable pub on_step : Num → ℕ → ℕ → Bool
on_step none first value = false
on_step (some zero) first value = false
on_step (some (suc n)) first value = (value - first) % suc n == 0

-- A piece of a split, undefined where there is none: in arithmetic it counts as NaN.
unfoldable pub piece : List Text → ℕ → Option Text
piece [] i = none
piece (x ∷ xs) zero = some x
piece (x ∷ xs) (suc i) = piece xs i

abbrev pub first_piece : List Text → Text
first_piece [] = []
first_piece (x ∷ xs) = x

abbrev pub first_of : Num → ℕ
first_of none = 0
first_of (some n) = n

-- `field.startsWith('*/')`
abbrev pub is_every : Text → Bool
is_every (c ∷ d ∷ s) = c == star && d == slash
is_every _ = false

module _ (number : Text → Num) where
  unfoldable pub number_of : Option Text → Num
  number_of none = none
  number_of (some s) = number s

  -- The two ends of a range.
  unfoldable pub ends : Text → ℕ → ℕ → Num × Num
  ends range low high =
      let bounds = split_at dash range in
      if text_eq range (star ∷ [])
      then (some low, some high)
      else (number_of (piece bounds 0), number_of (piece bounds 1))

  -- One part of a list, between commas.
  unfoldable pub parse_part : ℕ → ℕ → Text → List Num
  parse_part low high part =
      let halves = split_at slash part in
      let (first, last) = ends (first_piece halves) low high in
      let step = number_of (piece halves 1) in
      let bounds = split_at dash part in
      if has slash part
      then map (λ v. some v) (filter (on_step step (first_of first)) (values first last))
      else if has dash part
      then map (λ v. some v) (values (number_of (piece bounds 0)) (number_of (piece bounds 1)))
      else number part ∷ []

  unfoldable pub parse_parts : ℕ → ℕ → List Text → List Num
  parse_parts low high [] = []
  parse_parts low high (part ∷ parts) = parse_part low high part ++ parse_parts low high parts

  unfoldable pub parse_field : Text → ℕ → ℕ → List Num
  parse_field field low high =
      if text_eq field (star ∷ [])
      then map (λ v. some v) (values (some low) (some high))
      else if is_every field
      then map (λ v. some v)
          (filter (on_step (number (drop 2 field)) low) (values (some low) (some high)))
      else parse_parts low high (split_at comma field)

-- `includes(value)`
unfoldable pub includes : ℕ → List Num → Bool
includes v [] = false
includes v (none ∷ ns) = includes v ns
includes v (some n ∷ ns) = n == v || includes v ns
