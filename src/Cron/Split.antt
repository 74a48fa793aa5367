-- ===== src/Cron/Split.antt =====
-- Splitting the text of a cron field (`split` and `includes` of frontend/src/utils/cron.ts).
use dtsys.Prelude.{
  ℕ, zero, suc, ◌+◌, ◌≡◌, refl, ap, Bool, ◌&&◌, ◌||◌, List, [], ◌∷◌, ◌++◌, arith, map, ◌==◌, ==_iff,
  leb, ltb, Bool-cases, inl, inr, filter, some, none,
}
use dtsys.Cron.{Text, Num, has, upto, includes}

pub has-append : (c : ℕ) (s t : Text) → has c (s ++ t) ≡ (has c s || has c t)
has-append c [] t = refl
has-append c (d ∷ s) t = ground (arith, has-append c s t)

pub includes-append :
    (v : ℕ) (ms ns : List Num) → includes v (ms ++ ns) ≡ (includes v ms || includes v ns)
unfolding includes
includes-append v [] ns = refl
includes-append v (none ∷ ms) ns = includes-append v ms ns
includes-append v (some n ∷ ms) ns = ground (arith, includes-append v ms ns)

-- The numbers that a stepped range lists.
pub includes-upto :
    (v : ℕ) (q : ℕ → Bool) (start len : ℕ)
    → includes v (map (λ n. some n) (filter q (upto start len)))
      ≡ (leb start v && (ltb v (start + len) && q v))
unfolding includes upto
includes-upto v q start zero = ground arith
includes-upto v q start (suc len) = elim (Bool-cases (start == v)) [
  | inl e ↦
      let same : start ≡ v = (==_iff start v).0 e in
      ground (arith, ap q same, includes-upto v q (start + 1) len)
  | inr e ↦ ground (arith, includes-upto v q (start + 1) len)
]
