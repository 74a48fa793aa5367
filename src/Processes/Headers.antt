-- ===== src/Processes/Headers.antt =====
-- The headers of the process table: what pressing one of them again and again leads to.
use dtsys.Prelude.{ℕ, zero, suc, ◌≡◌, refl, ap, ◌∙◌, true, false, Bool, not, ◌&&◌}
use dtsys.Processes.{SortKey, name, status, same_key, Sorting, toggle_sort}

unfoldable pub press_again : ℕ → SortKey → Sorting → Sorting
press_again zero key s = s
press_again (suc n) key s = toggle_sort key (press_again n key s)

-- Names and states start from the first letter, numbers from the highest.
abbrev pub first_direction : SortKey → Bool
first_direction SortKey.name = false
first_direction SortKey.status = false
first_direction _ = true

abbrev pub flipped : ℕ → Bool → Bool
flipped zero b = b
flipped (suc n) b = not (flipped n b)

same_key_refl : (key : SortKey) → same_key key key ≡ true
same_key_refl SortKey.pid = refl
same_key_refl SortKey.name = refl
same_key_refl SortKey.cpu_percent = refl
same_key_refl SortKey.mem_percent = refl
same_key_refl SortKey.status = refl

first_direction_lem :
    (key : SortKey) → (not (same_key key name) && not (same_key key status)) ≡ first_direction key
first_direction_lem SortKey.pid = refl
first_direction_lem SortKey.name = refl
first_direction_lem SortKey.cpu_percent = refl
first_direction_lem SortKey.mem_percent = refl
first_direction_lem SortKey.status = refl

toggle_same :
    (key : SortKey) (d : Bool)
    → toggle_sort key (record { sort_key = key; descending = d })
      ≡ record { sort_key = key; descending = not d }
unfolding toggle_sort
toggle_same key d = rw (same_key_refl key) refl

-- Pressing another header than the last one, and then the same n times more, leaves the table in the
-- order of that header, in its first direction turned round n times.
pub press_again_lem :
    (key : SortKey) (n : ℕ) (s : Sorting)
    → same_key s.sort_key key ≡ false
    → press_again (suc n) key s
      ≡ record { sort_key = key; descending = flipped n (first_direction key) }
unfolding press_again toggle_sort
press_again_lem key zero s h = rw (h, first_direction_lem key) refl
press_again_lem key (suc n) s h =
    ap (toggle_sort key) (press_again_lem key n s h)
    ∙ toggle_same key (flipped n (first_direction key))
