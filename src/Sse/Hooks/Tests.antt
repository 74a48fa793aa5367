-- ===== src/Sse/Hooks/Tests.antt =====
-- Two components with the hook.
use dtsys.Prelude.{◌≡◌, refl, List, [], ◌∷◌, some, true, length}
use dtsys.Sse.Hooks.{
  HookEvent, effect_due, unmounted, no_hooks, run_cleanup, run_effect, on_hook, on_hooks,
}
use dtsys.Sse.Hooks.Holder.{IsHeld, on_hooks-IsHeld}

abbrev two_hooks : List HookEvent
two_hooks = effect_due 0 true (some "t") ∷ effect_due 1 true (some "t") ∷ []

-- The second one does not connect when the first one goes.
nobody_left : (on_hooks (unmounted 0 ∷ []) (on_hooks two_hooks no_hooks)).open_connections ≡ []
unfolding on_hooks on_hook run_cleanup run_effect
nobody_left = refl

on_hooks-IsHeld_example :
    IsHeld (on_hooks two_hooks no_hooks)
    × (length
          (on_hook (effect_due 1 true (some "t")) (on_hooks two_hooks no_hooks)).open_connections
        ≡ 1)
on_hooks-IsHeld_example = on_hooks-IsHeld two_hooks 1 "t" refl
