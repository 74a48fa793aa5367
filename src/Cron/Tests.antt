-- ===== src/Cron/Tests.antt =====
-- The theorems about cron schedules at concrete inputs.
use dtsys.Prelude.{
  ℕ, zero, suc, ◌≡◌, refl, ap, true, false, [], ◌∷◌, some, arith, length, take, filter, ◌==◌,
}
use dtsys.Cron.{Text, Num, has, star, comma, dash, slash, parse_field, includes, upto}
use dtsys.Cron.Syntax.{exactly, in_steps, Field, listed, allows, stands_for, IsDecimal, print_field}
use dtsys.Cron.Fields.{includes-parse_field}
use dtsys.Cron.Schedule.{Moment, matches, next_runs, daily_at, parse_cron, describe, words, runs_of}
use dtsys.Cron.Runs.{next_runs_lem}

-- Tallies for digits: as many ones as the number says.
abbrev tally : ℕ → Text
tally zero = []
tally (suc n) = 49 ∷ tally n

abbrev number : Text → Num
number s = some (length s)

length-tally : (n : ℕ) → length (tally n) ≡ n
length-tally zero = refl
length-tally (suc n) = ap suc (length-tally n)

tally-free : (mark n : ℕ) → (49 == mark) ≡ false → has mark (tally n) ≡ false
tally-free mark zero h = refl
tally-free mark (suc n) h = ground (arith, tally-free mark n h)

tally-IsDecimal : IsDecimal number tally
tally-IsDecimal = record {
  reads = λ n. ap (λ k. some k) (length-tally n);
  no_star = λ n. tally-free star n refl;
  no_comma = λ n. tally-free comma n refl;
  no_dash = λ n. tally-free dash n refl;
  no_slash = λ n. tally-free slash n refl;
}

-- 1, and every second value from 2 to 6.
abbrev field : Field
field = listed (exactly 1) (in_steps 2 6 1 ∷ [])

includes-parse_field_example : includes 4 (parse_field number (print_field tally field) 0 6) ≡ true
unfolding allows stands_for
includes-parse_field_example = includes-parse_field tally-IsDecimal 0 6 field 4

-- "* * * * *"
abbrev always : Text
always = 42 ∷ 32 ∷ 42 ∷ 32 ∷ 42 ∷ 32 ∷ 42 ∷ 32 ∷ 42 ∷ []

abbrev clock : ℕ → Moment
clock n = record { minutes = 30; hours = 3; date = 1; month = 0; day = 4 }

next_runs_lem_example :
    next_runs number always clock 2
    ≡ take 2 (filter (λ n. matches number always (clock n)) (upto 1 100000))
next_runs_lem_example = next_runs_lem number always clock 2

-- "5 3 * * *"
described :
    parse_cron (53 ∷ 32 ∷ 51 ∷ 32 ∷ 42 ∷ 32 ∷ 42 ∷ 32 ∷ 42 ∷ [])
    ≡ daily_at (48 ∷ 51 ∷ []) (48 ∷ 53 ∷ [])
unfolding parse_cron describe words runs_of
described = refl
