-- ===== src/Device/Timing.antt =====
-- The timer of a screenshot's capture.
use dtsys.Prelude.{
  ℕ, ◌≡◌, refl, sym, ap, subst, ◌⊎◌, inl, inr, Bool, true, false, ◌&&◌, List, [], ◌∷◌, Option, none,
  some, arith, ◌==◌, ==_iff, if_elim, any, Bool-cases, IsIn,
}
use dtsys.Device.{
  Capture, idle, clear_timeout, start_timer, stop_timer, set_capturing, is_fresh, finish_with,
  finish, CaptureEvent, requested, answered, fired, fire_timer, step, run,
}

-- Nothing is under way and no timer runs, or one timer runs, which is the one to end the capture.
abbrev pub IsTimed : Capture → Type 0
IsTimed s =
    ((s.is_capturing ≡ false) × (s.timers ≡ []))
    ⊎ ((t : ℕ) × (s.is_capturing ≡ true) × (s.timeout ≡ some t) × (s.timers ≡ t ∷ []))

-- No picture that is as new as the request is there while the capture goes on.
abbrev pub IsAwaited : Bool → Option ℕ → Option ℕ → Type 0
IsAwaited false started captured = Unit
IsAwaited true started none = Unit
IsAwaited true started (some c) = is_fresh started c ≡ false

clear_one : (t : ℕ) → clear_timeout (some t) (t ∷ []) ≡ []
clear_one t = rw ((==_iff t t).1 refl) refl

clear_none : (o : Option ℕ) → clear_timeout o [] ≡ []
clear_none none = refl
clear_none (some t) = refl

cleared : (s : Capture) → IsTimed s → clear_timeout s.timeout s.timers ≡ []
cleared s (inl (off, e)) =
    subst (λ l. clear_timeout s.timeout l ≡ []) (sym e) (clear_none s.timeout)
cleared s (inr (t, on, current, e)) =
    subst (λ o. clear_timeout o s.timers ≡ []) (sym current)
      (subst (λ l. clear_timeout (some t) l ≡ []) (sym e) (clear_one t))

stop_timer-IsTimed : (s : Capture) → clear_timeout s.timeout s.timers ≡ [] → IsTimed (stop_timer s)
unfolding stop_timer
stop_timer-IsTimed s h = inl (refl, h)

set_capturing-IsTimed : (b : Bool) (s : Capture) → IsTimed s → IsTimed (set_capturing b s)
unfolding set_capturing start_timer
set_capturing-IsTimed true s h =
    if_elim IsTimed s.is_capturing (λ t. h)
      (λ f. inr (s.next_timer, refl, refl, ap (λ r. s.next_timer ∷ r) (cleared s h)))
set_capturing-IsTimed false s h =
    if_elim IsTimed s.is_capturing (λ t. stop_timer-IsTimed s (cleared s h)) (λ f. h)

finish_with-IsTimed : (o : Option ℕ) (s : Capture) → IsTimed s → IsTimed (finish_with o s)
finish_with-IsTimed none s h = h
finish_with-IsTimed (some c) s h =
    if_elim IsTimed (s.is_capturing && is_fresh s.capture_started_at c)
      (λ t. set_capturing-IsTimed false s h) (λ f. h)

fire_timer-IsTimed : (t : ℕ) (s : Capture) → IsTimed s → IsTimed (fire_timer t s)
unfolding fire_timer set_capturing stop_timer
fire_timer-IsTimed t s (inl (off, e)) = rw e (inl (off, refl))
fire_timer-IsTimed t s (inr (u, on, current, e)) =
    rw (e, on)
      (elim (Bool-cases (u == t)) [
        | inl same ↦ rw same (stop_timer-IsTimed (record s { timers = [] }) (clear_none s.timeout))
        | inr other ↦ rw other (inr (u, refl, current, refl))
      ])

IsOff : Capture → Type 0
IsOff s = s.is_capturing ≡ false

IsOff-set_capturing : (s : Capture) → IsOff (set_capturing false s)
unfolding set_capturing stop_timer IsOff
IsOff-set_capturing s = if_elim IsOff s.is_capturing (λ t. refl) (λ f. f)

Awaited : Capture → Type 0
Awaited s = IsAwaited s.is_capturing s.capture_started_at s.captured_at

Awaited-of_off : (s : Capture) → IsOff s → Awaited s
unfolding Awaited IsOff
Awaited-of_off s e = subst (λ b. IsAwaited b s.capture_started_at s.captured_at) (sym e) tt

none-IsAwaited : (b : Bool) (started : Option ℕ) → IsAwaited b started none
none-IsAwaited true started = tt
none-IsAwaited false started = tt

IsAwaited-of_test :
    (b : Bool) (started : Option ℕ) (c : ℕ)
    → (b && is_fresh started c) ≡ false
    → IsAwaited b started (some c)
IsAwaited-of_test true started c h = h
IsAwaited-of_test false started c h = tt

finish_with-Awaited : (o : Option ℕ) (s : Capture) → s.captured_at ≡ o → Awaited (finish_with o s)
unfolding Awaited
finish_with-Awaited none s e =
    subst (IsAwaited s.is_capturing s.capture_started_at) (sym e)
      (none-IsAwaited s.is_capturing s.capture_started_at)
finish_with-Awaited (some c) s e =
    if_elim Awaited (s.is_capturing && is_fresh s.capture_started_at c)
      (λ t. Awaited-of_off (set_capturing false s) (IsOff-set_capturing s))
      (λ f.
        subst (IsAwaited s.is_capturing s.capture_started_at) (sym e)
          (IsAwaited-of_test s.is_capturing s.capture_started_at c f))

abbrev pub IsSound : Capture → Type 0
IsSound s = IsTimed s × IsAwaited s.is_capturing s.capture_started_at s.captured_at

finish-IsSound : (s : Capture) → IsTimed s → IsSound (finish s)
unfolding finish Awaited
finish-IsSound s h =
    (finish_with-IsTimed s.captured_at s h, finish_with-Awaited s.captured_at s refl)

fire_timer-Awaited : (t : ℕ) (s : Capture) → Awaited s → Awaited (fire_timer t s)
unfolding fire_timer
fire_timer-Awaited t s h =
    if_elim Awaited (any (λ u. u == t) s.timers) (λ k. Awaited-of_off _ (IsOff-set_capturing _))
      (λ f. h)

step-IsSound : (e : CaptureEvent) (s : Capture) → IsSound s → IsSound (step e s)
unfolding step Awaited
step-IsSound (requested now) s h =
    finish-IsSound _ (set_capturing-IsTimed true (record s { capture_started_at = some now }) h.0)
step-IsSound (answered c) s h = finish-IsSound (record s { captured_at = c }) h.0
step-IsSound (fired t) s h = (fire_timer-IsTimed t s h.0, fire_timer-Awaited t s h.1)

run-from : (events : List CaptureEvent) (s : Capture) → IsSound s → IsSound (run events s)
unfolding run
run-from [] s h = h
run-from (e ∷ events) s h = run-from events (step e s) (step-IsSound e s h)

-- While a screenshot is waited for, exactly one timer runs, which is the one to end the wait, and no
-- picture as new as the request has arrived; otherwise no timer runs.
pub run-IsAwaited : (events : List CaptureEvent) → IsSound (run events idle)
run-IsAwaited events = run-from events idle (inl (refl, refl), tt)

any_of_IsIn : (t : ℕ) (xs : List ℕ) → IsIn t xs → any (λ u. u == t) xs ≡ true
any_of_IsIn t [] h = elim h [ ]
any_of_IsIn t (x ∷ xs) (inl e) = rw ((==_iff x t).1 (sym e)) refl
any_of_IsIn t (x ∷ xs) (inr h) = ground (arith, any_of_IsIn t xs h)

not_both : (b : Bool) → b ≡ true → b ≡ false → ⊥
not_both b h k = cc

-- When the timer of a wait runs out, the wait is over.
pub fired_ends :
    (events : List CaptureEvent) (t : ℕ)
    → IsIn t (run events idle).timers
    → (step (fired t) (run events idle)).is_capturing ≡ false
unfolding step fire_timer IsOff
fired_ends events t h =
    if_elim IsOff (any (λ u. u == t) (run events idle).timers) (λ k. IsOff-set_capturing _)
      (λ f. absurd (not_both _ (any_of_IsIn t (run events idle).timers h) f))
