-- ===== src/Cron/Schedule.antt =====
-- Schedules as a whole: `matches`, `parseCron` and `nextRuns` of frontend/src/utils/cron.ts.
use dtsys.Prelude.{ℕ, zero, suc, ◌+◌, Bool, false, ◌&&◌, List, [], ◌∷◌, drop, if◌then◌else◌}
use dtsys.Prelude.Text.{is_space, cons_head}
use dtsys.Cron.{Text, Num, star, text_eq, is_every, parse_field, includes}

-- The runs of other characters, each with an empty one where white space ends a run.
unfoldable pub runs_of : Text → List Text
runs_of [] = [] ∷ []
runs_of (c ∷ s) = let rest = runs_of s in if is_space c then [] ∷ rest else cons_head c rest

abbrev non_empty : List Text → List Text
non_empty [] = []
non_empty ([] ∷ ws) = non_empty ws
non_empty ((c ∷ w) ∷ ws) = (c ∷ w) ∷ non_empty ws

-- `expr.trim().split(/\s+/)`; a blank text has one empty piece.
unfoldable pub words : Text → List Text
words s = elim (non_empty (runs_of s)) [ [] ↦ [] ∷ [] | ◌∷◌ w ws ↦ w ∷ ws ]

-- What the cursor says, in the parts that `Date` gives.
pub record Moment : Type 0 where
  pub minutes : ℕ
  pub hours : ℕ
  pub date : ℕ
  pub month : ℕ  -- from 0
  pub day : ℕ

-- What `parseCron` shows.
pub data Description : Type 0 where
  invalid hourly daily_at_three : Description
  every_minutes : Text → Description
  daily_at : Text → Text → Description
  on_schedule : Text → Description

-- `padStart(2, '0')`
abbrev pub pad_two : Text → Text
pad_two [] = 48 ∷ 48 ∷ []
pad_two (c ∷ []) = 48 ∷ c ∷ []
pad_two (c ∷ d ∷ s) = c ∷ d ∷ s

abbrev is_star : Text → Bool
is_star s = text_eq s (star ∷ [])

-- "0 3 * * *"
abbrev at_three : Text
at_three = 48 ∷ 32 ∷ 51 ∷ 32 ∷ 42 ∷ 32 ∷ 42 ∷ 32 ∷ 42 ∷ []

unfoldable pub describe : Text → List Text → Description
describe expr (minute ∷ hour ∷ day ∷ month ∷ weekday ∷ []) =
    if text_eq expr at_three
    then daily_at_three
    else if is_every minute && is_star hour && is_star day && is_star month && is_star weekday
    then every_minutes (drop 2 minute)
    else if text_eq minute (48 ∷ [])
        && is_star hour
        && is_star day
        && is_star month
        && is_star weekday
    then hourly
    else if is_star day && is_star month && is_star weekday
    then daily_at (pad_two hour) (pad_two minute)
    else on_schedule expr
describe expr _ = invalid

unfoldable pub parse_cron : Text → Description
parse_cron expr = describe expr (words expr)

module _ (number : Text → Num) where
  -- The five tests, on the pieces of the expression; a sixth piece is not looked at.
  unfoldable pub matches_words : List Text → Moment → Bool
  matches_words (minute ∷ hour ∷ day ∷ month ∷ weekday ∷ _) at =
      includes at.minutes (parse_field number minute 0 59)
      && includes at.hours (parse_field number hour 0 23)
      && includes at.date (parse_field number day 1 31)
      && includes (at.month + 1) (parse_field number month 1 12)
      && includes at.day (parse_field number weekday 0 6)
  matches_words _ at = false

  unfoldable pub matches : Text → Moment → Bool
  matches expr at = matches_words (words expr) at

  -- The loop, with so many attempts left, the cursor so many minutes on, and so many runs missing.
  unfoldable pub next_from : Text → (ℕ → Moment) → ℕ → ℕ → ℕ → List ℕ
  next_from expr clock zero cursor missing = []
  next_from expr clock (suc left) cursor zero = []
  next_from expr clock (suc left) cursor (suc missing) =
      let found = next_from expr clock left (cursor + 1) missing in
      let later = next_from expr clock left (cursor + 1) (suc missing) in
      if matches expr (clock (cursor + 1)) then (cursor + 1) ∷ found else later

  -- The runs, as minutes from now.
  unfoldable pub next_runs : Text → (ℕ → Moment) → ℕ → List ℕ
  next_runs expr clock count = next_from expr clock 100000 0 count
