-- ===== src/Utils/Uptime.antt =====
-- The text of an uptime (frontend/src/utils/time.ts), as the parts that are joined by spaces. The
-- seconds are an integer.
use dtsys.Prelude.{
  ℕ, ◌+◌, ◌*◌, ◌/◌, ◌%◌, ◌<◌, ◌≡◌, Bool, ◌||◌, List, [], ◌∷◌, ◌++◌, arith, ltb, if◌then◌else◌,
}
use dtsys.Prelude.Int.{ℤ, pos, negsuc}

-- `${n}d`, `${n}h` and `${n}m`.
pub data Part : Type 0 where
  days hours minutes : ℕ → Part

-- `Math.max(0, Math.floor(secs / 60))`
unfoldable pub total_minutes : ℤ → ℕ
total_minutes (pos secs) = secs / 60
total_minutes (negsuc n) = 0

abbrev pub when : Bool → Part → List Part
when test part = if test then part ∷ [] else []

unfoldable pub format_uptime : ℤ → List Part
format_uptime secs =
    let total = total_minutes secs in
    let d = total / (24 * 60) in
    let h = (total % (24 * 60)) / 60 in
    let m = total % 60 in
    when (ltb 0 d) (days d) ++ (when (ltb 0 h || ltb 0 d) (hours h) ++ minutes m ∷ [])

-- The minutes that the parts stand for.
abbrev pub minutes_of : List Part → ℕ
minutes_of [] = 0
minutes_of (days d ∷ parts) = d * 1440 + minutes_of parts
minutes_of (hours h ∷ parts) = h * 60 + minutes_of parts
minutes_of (minutes m ∷ parts) = m + minutes_of parts

-- Hours below 24, minutes below 60, and the larger unit only where it is not zero.
abbrev pub IsNormal : List Part → Type 0
IsNormal (minutes m ∷ []) = m < 60
IsNormal (hours h ∷ minutes m ∷ []) = (0 < h) × (h < 24) × (m < 60)
IsNormal (days d ∷ hours h ∷ minutes m ∷ []) = (0 < d) × (h < 24) × (m < 60)
IsNormal _ = ⊥

-- The text of an uptime gives back its whole minutes, and is in normal form: no zero days, no zero
-- hours without days, hours below 24 and minutes below 60.
pub format_uptime_lem :
    (secs : ℤ)
    → (minutes_of (format_uptime secs) ≡ total_minutes secs) × IsNormal (format_uptime secs)
unfolding format_uptime
format_uptime_lem secs = ground arith
