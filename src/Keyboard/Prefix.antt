-- ===== src/Keyboard/Prefix.antt =====
-- The pending `g` and its timer.
use dtsys.Prelude.{
  subst, sym, ℕ, ◌≡◌, refl, ◌⊎◌, inl, inr, String, true, false, ◌&&◌, ◌||◌, List, [], ◌∷◌, none,
  some, arith, str_eq, if_elim, Option-cases, ◌==◌, if◌then◌else◌,
}
use dtsys.Keyboard.{
  KeyEvent, Effect, prevented, invalidated, navigated, emit, Keys, clear_prefix, close_all,
  start_prefix, page_of, follow_prefix, is_search_key, is_plain, is_typing_target, on_key_down,
  on_search_key, dispatch, fire, fire_live, Input, pressed, elapsed, help_closed, step, run, start,
}

pub record IsQuiet (s : Keys) : Type 0 where
  pub pending : s.pending ≡ false
  pub prefix_timer : s.prefix_timer ≡ none
  pub timers : s.timers ≡ []

pub record IsArmed (s : Keys) : Type 0 where
  pub timer : ℕ
  pub pending : s.pending ≡ true
  pub prefix_timer : s.prefix_timer ≡ some timer
  pub timers : s.timers ≡ timer ∷ []

-- A prefix is pending exactly while one timer runs, the one that will clear it.
abbrev pub IsPaired : Keys → Type 0
IsPaired s = IsQuiet s ⊎ IsArmed s

-- What the prefix depends on.
record SamePrefix (s t : Keys) : Type 0 where
  pending : t.pending ≡ s.pending
  prefix_timer : t.prefix_timer ≡ s.prefix_timer
  timers : t.timers ≡ s.timers

SamePrefix-IsPaired : {s t : Keys} → SamePrefix s t → IsPaired s → IsPaired t
SamePrefix-IsPaired p (inl q) = inl (ground arith)
SamePrefix-IsPaired p (inr a) = inr (record {
  timer = a.timer;
  pending = ground arith;
  prefix_timer = ground arith;
  timers = ground arith;
})

clear_prefix-IsQuiet : (s : Keys) → IsPaired s → IsQuiet (clear_prefix s)
unfolding clear_prefix
clear_prefix-IsQuiet s (inl q) = ground arith
clear_prefix-IsQuiet s (inr a) = ground arith

close_all-SamePrefix : (s : Keys) → SamePrefix s (close_all s)
unfolding close_all
close_all-SamePrefix s = ground arith

start_prefix-IsArmed : (s : Keys) → IsQuiet s → IsArmed (start_prefix s)
unfolding start_prefix
start_prefix-IsArmed s q = record {
  timer = s.next_timer;
  pending = refl;
  prefix_timer = refl;
  timers = ground arith;
}

follow_prefix-IsQuiet : (key : String) (s : Keys) → IsPaired s → IsQuiet (follow_prefix key s)
unfolding follow_prefix
follow_prefix-IsQuiet key s h = elim (Option-cases (page_of key)) [
  | inl e ↦ rw (e, follow_prefix) (clear_prefix-IsQuiet s h)
  | inr (path, e) ↦
      rw (e, follow_prefix)
        (clear_prefix-IsQuiet (emit prevented (emit (navigated path) s))
          (SamePrefix-IsPaired (record { pending = refl; prefix_timer = refl; timers = refl }) h))
]

effect-IsPaired : (x : Effect) (s : Keys) → IsPaired s → IsPaired (emit x s)
effect-IsPaired x s h =
    SamePrefix-IsPaired (record { pending = refl; prefix_timer = refl; timers = refl }) h

-- The last two tests of the listener.
prefix_key : KeyEvent → Keys → Keys
prefix_key e s =
    if s.pending
    then follow_prefix e.lower s
    else if str_eq e.lower "g" && is_plain e
    then start_prefix s
    else s

prefix_key-IsPaired : (e : KeyEvent) (s : Keys) → IsPaired s → IsPaired (prefix_key e s)
unfolding prefix_key
prefix_key-IsPaired e s h =
    if_elim IsPaired s.pending (λ p. inl (follow_prefix-IsQuiet e.lower s h))
      (λ p.
        if_elim IsPaired (str_eq e.lower "g" && is_plain e)
          (λ g. inr (start_prefix-IsArmed s (quiet p h))) (λ g. h))
  where
    quiet : s.pending ≡ false → IsPaired s → IsQuiet s
    quiet p (inl q) = q
    quiet p (inr a) = absurd (ground arith)

pub on_key_down-IsPaired : (e : KeyEvent) (s : Keys) → IsPaired s → IsPaired (on_key_down e s)
unfolding on_key_down prefix_key
on_key_down-IsPaired e s h =
    if_elim IsPaired (is_search_key e)
      (λ _. SamePrefix-IsPaired (record { pending = refl; prefix_timer = refl; timers = refl }) h)
      (λ _.
        if_elim IsPaired (str_eq e.key "Escape")
          (λ _.
            inl
              (clear_prefix-IsQuiet (close_all s) (SamePrefix-IsPaired (close_all-SamePrefix s) h)))
          (λ _.
            if_elim IsPaired (is_typing_target e.target) (λ _. h)
              (λ _.
                if_elim IsPaired (str_eq e.key "?" || (str_eq e.key "/" && e.shift_key))
                  (λ _. inl (
                    clear_prefix-IsQuiet _ (
                      SamePrefix-IsPaired
                        (record { pending = refl; prefix_timer = refl; timers = refl }) h)))
                  (λ _.
                    if_elim IsPaired (str_eq e.lower "r" && is_plain e)
                      (λ _. inl (
                        clear_prefix-IsQuiet _
                          (effect-IsPaired invalidated _ (effect-IsPaired prevented s h))))
                      (λ _. prefix_key-IsPaired e s h)))))

on_search_key-IsPaired : (e : KeyEvent) (s : Keys) → IsPaired s → IsPaired (on_search_key e s)
unfolding on_search_key
on_search_key-IsPaired e s h =
    if_elim IsPaired (is_search_key e)
      (λ _. SamePrefix-IsPaired (record { pending = refl; prefix_timer = refl; timers = refl }) h)
      (λ _.
        if_elim IsPaired (str_eq e.key "Escape")
          (λ _.
            SamePrefix-IsPaired (record { pending = refl; prefix_timer = refl; timers = refl }) h)
          (λ _. h))

-- The timer that runs is the pending prefix's, so when it fires nothing else is cleared.
fire_live-IsPaired : (t : ℕ) (s : Keys) → IsPaired s → IsPaired (fire_live t s.timers s)
unfolding fire_live fire clear_prefix
fire_live-IsPaired t s (inl q) = subst (λ ts. IsPaired (fire_live t ts s)) (sym q.timers) (inl q)
fire_live-IsPaired t s (inr a) =
    subst (λ ts. IsPaired (fire_live t ts s)) (sym a.timers)
      (if_elim IsPaired (a.timer == t) (λ e. inl (ground arith)) (λ _. inr a))

step-IsPaired : (i : Input) (s : Keys) → IsPaired s → IsPaired (step i s)
unfolding step dispatch
step-IsPaired (pressed e) s h =
    on_key_down-IsPaired e (on_search_key e s) (on_search_key-IsPaired e s h)
step-IsPaired (elapsed t) s h = fire_live-IsPaired t s h
step-IsPaired help_closed s h =
    SamePrefix-IsPaired (record { pending = refl; prefix_timer = refl; timers = refl }) h

run_from-IsPaired : (is : List Input) (s : Keys) → IsPaired s → IsPaired (run is s)
unfolding run
run_from-IsPaired [] s h = h
run_from-IsPaired (i ∷ more) s h = run_from-IsPaired more (step i s) (step-IsPaired i s h)

-- Whatever keys are pressed and timers fire, either no `g` is pending and no timer runs, or one is
-- pending and exactly one timer runs, the one that clears it.
pub run-IsPaired : (is : List Input) → IsPaired (run is start)
unfolding start
run-IsPaired is =
    run_from-IsPaired is start (inl (record { pending = refl; prefix_timer = refl; timers = refl }))
