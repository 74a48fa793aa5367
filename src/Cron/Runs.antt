-- ===== src/Cron/Runs.antt =====
-- Which runs the preview lists (`nextRuns` of frontend/src/utils/cron.ts).
use dtsys.Prelude.{ℕ, zero, suc, ◌+◌, ◌≡◌, refl, ap, ◌∷◌, filter, take, Bool-cases, inl, inr}
use dtsys.Cron.{Text, Num, upto}
use dtsys.Cron.Schedule.{Moment, matches, next_from, next_runs}

next_from_lem :
    (number : Text → Num) (expr : Text) (clock : ℕ → Moment) (left cursor missing : ℕ)
    → next_from number expr clock left cursor missing
      ≡ take missing (filter (λ n. matches number expr (clock n)) (upto (cursor + 1) left))
unfolding next_from upto
next_from_lem number expr clock zero cursor zero = refl
next_from_lem number expr clock zero cursor (suc missing) = refl
next_from_lem number expr clock (suc left) cursor zero = refl
next_from_lem number expr clock (suc left) cursor (suc missing) =
    elim (Bool-cases (matches number expr (clock (cursor + 1)))) [
      | inl e ↦
          rw e
            (ap (λ r. (cursor + 1) ∷ r) (next_from_lem number expr clock left (cursor + 1) missing))
      | inr e ↦ rw e (next_from_lem number expr clock left (cursor + 1) (suc missing))
    ]

-- The preview lists the first so many matching minutes among the next 100000, in their order: none of
-- those is left out, and no other minute is listed.
pub next_runs_lem :
    (number : Text → Num) (expr : Text) (clock : ℕ → Moment) (count : ℕ)
    → next_runs number expr clock count
      ≡ take count (filter (λ n. matches number expr (clock n)) (upto 1 100000))
unfolding next_runs
next_runs_lem number expr clock count = next_from_lem number expr clock 100000 0 count
