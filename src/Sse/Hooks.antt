-- ===== src/Sse/Hooks.antt =====
-- The lock of the alert stream (frontend/src/hooks/useSSE.ts): sseActive and sseAbortController, which all
-- components with the hook share, and the effect of each of them with its cleanup. A controller is its number;
-- the connections under controllers that are not aborted are the open ones.
pub mod Holder
mod Tests
use dtsys.Prelude.{
  ℕ, ◌+◌, String, Bool, true, false, not, List, [], ◌∷◌, Option, none, some, ◌==◌, if◌then◌else◌,
  filter,
}
use dtsys.Prelude.Storage.{is_truthy}

-- What an effect leaves to its cleanup: nothing; that the hook is gone; or that and its controller.
pub data Cleanup : Type 0 where
  nothing passive : Cleanup
  owner : ℕ → Cleanup

-- The hooks are numbered; one that is not mounted has nothing to clean up.
pub record Page : Type 0 where
  pub sse_active : Bool
  pub sse_abort_controller : Option ℕ
  pub next_controller : ℕ
  pub open_connections : List ℕ
  pub cleanups : ℕ → Cleanup

abbrev pub no_hooks : Page
no_hooks = record {
  sse_active = false;
  sse_abort_controller = none;
  next_controller = 0;
  open_connections = [];
  cleanups = λ i. nothing;
}

abbrev pub leave : ℕ → Cleanup → Page → Page
leave i c p = record p { cleanups = λ j. if j == i then c else p.cleanups j }

-- `sseAbortController === controller`
abbrev pub is_current : Option ℕ → ℕ → Bool
is_current none controller = false
is_current (some c) controller = c == controller

abbrev pub unlock : Bool → Page → Page
unlock true p = record p { sse_abort_controller = none; sse_active = false }
unlock false p = p

abbrev pub abort : ℕ → Page → Page
abort controller p = record p {
  open_connections = filter (λ c. not (c == controller)) p.open_connections;
}

abbrev pub clean_up : Cleanup → Page → Page
clean_up nothing p = p
clean_up passive p = p
clean_up (owner controller) p =
    unlock (is_current p.sse_abort_controller controller) (abort controller p)

-- The cleanup of a hook's last effect.
unfoldable pub run_cleanup : ℕ → Page → Page
run_cleanup i p = leave i nothing (clean_up (p.cleanups i) p)

abbrev pub open_connection : ℕ → Page → Page
open_connection i p = record p {
  sse_active = true;
  sse_abort_controller = some p.next_controller;
  next_controller = p.next_controller + 1;
  open_connections = p.next_controller ∷ p.open_connections;
  cleanups = λ j. if j == i then owner p.next_controller else p.cleanups j;
}

-- The effect's body, with the token that localStorage has.
unfoldable pub run_effect : ℕ → Bool → Option String → Page → Page
run_effect i enabled token p =
    if not enabled
    then leave i nothing p
    else (if not (is_truthy token)
        then leave i nothing p
        else (if p.sse_active then leave i passive p else open_connection i p))

-- A hook is mounted, or drawn with another `enabled`: the old effect is cleaned up first. Or it is unmounted.
pub data HookEvent : Type 0 where
  effect_due : ℕ → Bool → Option String → HookEvent
  unmounted : ℕ → HookEvent

unfoldable pub on_hook : HookEvent → Page → Page
on_hook (effect_due i enabled token) p = run_effect i enabled token (run_cleanup i p)
on_hook (unmounted i) p = run_cleanup i p

unfoldable pub on_hooks : List HookEvent → Page → Page
on_hooks [] p = p
on_hooks (e ∷ es) p = on_hooks es (on_hook e p)
