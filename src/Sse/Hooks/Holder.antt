-- ===== src/Sse/Hooks/Holder.antt =====
-- Who holds the lock of the alert stream.
use dtsys.Prelude.{
  ℕ, suc, ◌≡◌, refl, sym, ap, ◌∙◌, subst, String, Bool, true, false, not, List, [], ◌∷◌, Option,
  none, some, ◌==◌, ==_iff, if◌then◌else◌, if_elim, Bool-cases, inl, inr, length, filter, some_inj,
  none-ne-some,
}
use dtsys.Prelude.Storage.{is_truthy}
use dtsys.Sse.Hooks.{
  Cleanup, nothing, passive, owner, Page, no_hooks, leave, is_current, unlock, abort, clean_up,
  run_cleanup, open_connection, run_effect, HookEvent, effect_due, unmounted, on_hook, on_hooks,
}

-- The controller that a hook owns.
abbrev pub owned : Cleanup → Option ℕ
owned nothing = none
owned passive = none
owned (owner c) = some c

abbrev pub owned_when : Bool → ℕ → Option ℕ
owned_when true c = some c
owned_when false c = none

-- The lock is free and no connection is open; or it is held with the controller of the one open connection, and
-- one hook owns it.
abbrev pub IsHeldBy : Option (ℕ × ℕ) → Page → Type 0
IsHeldBy none p =
    (p.sse_active ≡ false)
    × (p.sse_abort_controller ≡ none)
    × (p.open_connections ≡ [])
    × ((j : ℕ) → owned (p.cleanups j) ≡ none)
IsHeldBy (some (i, c)) p =
    (p.sse_active ≡ true)
    × (p.sse_abort_controller ≡ some c)
    × (p.open_connections ≡ c ∷ [])
    × ((j : ℕ) → owned (p.cleanups j) ≡ owned_when (j == i) c)

abbrev pub IsHeld : Page → Type 0
IsHeld p = (o : Option (ℕ × ℕ)) × IsHeldBy o p

clean_up_other : (k : Cleanup) (p : Page) → owned k ≡ none → clean_up k p ≡ p
clean_up_other nothing p h = refl
clean_up_other passive p h = refl
clean_up_other (owner c) p h = absurd (none-ne-some (sym h))

owner_of : (k : Cleanup) (c : ℕ) → owned k ≡ some c → k ≡ owner c
owner_of nothing c h = absurd (none-ne-some h)
owner_of passive c h = absurd (none-ne-some h)
owner_of (owner d) c h = ap owner (some_inj h)

-- A hook that owns nothing may leave another such cleanup.
leave-IsHeldBy :
    (i : ℕ) (k : Cleanup) (o : Option (ℕ × ℕ)) (p : Page)
    → owned k ≡ none
    → owned (p.cleanups i) ≡ none
    → IsHeldBy o p
    → IsHeldBy o (leave i k p)
leave-IsHeldBy i k none p e n (a, b, d, f) =
    (a, b, d, λ j. if_elim (λ q. owned q ≡ none) (j == i) (λ t. e) (λ t. f j))
leave-IsHeldBy i k (some (h, c)) p e n (a, b, d, f) = (
  a,
  b,
  d,
  λ j.
      if_elim (λ q. owned q ≡ owned_when (j == h) c) (j == i)
        (λ t. e ∙ (sym n ∙ (ap (λ l. owned (p.cleanups l)) (sym ((==_iff j i).0 t)) ∙ f j)))
        (λ t. f j),
)

same_number : (n : ℕ) → (n == n) ≡ true
same_number n = (==_iff n n).1 refl

aborted_alone : (c : ℕ) (p : Page) → p.open_connections ≡ c ∷ [] → (abort c p).open_connections ≡ []
aborted_alone c p e =
    ap (filter (λ d. not (d == c))) e ∙ ap (λ b. if not b then c ∷ [] else []) (same_number c)

-- The owner's cleanup frees the lock.
freed-IsHeldBy :
    (i c : ℕ) (p : Page)
    → IsHeldBy (some (i, c)) p
    → IsHeldBy none (leave i nothing (unlock true (abort c p)))
freed-IsHeldBy i c p (a, b, d, f) = (
  refl,
  refl,
  aborted_alone c p d,
  λ j. if_elim (λ q. owned q ≡ none) (j == i) (λ t. refl) (λ e. f j ∙ ap (λ q. owned_when q c) e),
)

owner_cleans :
    (c : ℕ) (p : Page)
    → p.sse_abort_controller ≡ some c
    → clean_up (owner c) p ≡ unlock true (abort c p)
owner_cleans c p e = ap (λ b. unlock b (abort c p)) (ap (λ o. is_current o c) e ∙ same_number c)

left_nothing : (i : ℕ) (p : Page) → owned ((leave i nothing p).cleanups i) ≡ none
left_nothing i p = ap (λ b. owned (if b then nothing else p.cleanups i)) (same_number i)

others_cleanup :
    (i : ℕ) (o : Option (ℕ × ℕ)) (p : Page)
    → owned (p.cleanups i) ≡ none
    → IsHeldBy o p
    → IsHeldBy o (leave i nothing (clean_up (p.cleanups i) p))
others_cleanup i o p n h =
    subst (λ q. IsHeldBy o (leave i nothing q)) (sym (clean_up_other (p.cleanups i) p n))
      (leave-IsHeldBy i nothing o p refl n h)

run_cleanup-IsHeld : (i : ℕ) (p : Page) → IsHeld p → IsHeld (run_cleanup i p)
unfolding run_cleanup
run_cleanup-IsHeld i p (none, (a, b, d, f)) = (none, others_cleanup i none p (f i) (a, b, d, f))
run_cleanup-IsHeld i p (some (k, c), (a, b, d, f)) = elim (Bool-cases (i == k)) [
  | inl e ↦
      let own = owner_of (p.cleanups i) c (f i ∙ ap (λ q. owned_when q c) e) in
      let held = subst (λ l. IsHeldBy (some (l, c)) p) (sym ((==_iff i k).0 e)) (a, b, d, f) in
      (
        none,
        subst (λ q. IsHeldBy none (leave i nothing q))
            (sym (ap (λ q. clean_up q p) own ∙ owner_cleans c p b)) (freed-IsHeldBy i c p held),
      )
  | inr e ↦ (
    some (k, c),
    others_cleanup i (some (k, c)) p (f i ∙ ap (λ q. owned_when q c) e) (a, b, d, f),
  )
]

run_cleanup-left : (i : ℕ) (p : Page) → owned ((run_cleanup i p).cleanups i) ≡ none
unfolding run_cleanup
run_cleanup-left i p = left_nothing i (clean_up (p.cleanups i) p)

opened-IsHeldBy :
    (i : ℕ) (p : Page)
    → IsHeldBy none p
    → IsHeldBy (some (i, p.next_controller)) (open_connection i p)
opened-IsHeldBy i p (a, b, d, f) = (
  refl,
  refl,
  ap (λ l. p.next_controller ∷ l) d,
  λ j.
      if_elim (λ q. owned q ≡ owned_when (j == i) p.next_controller) (j == i)
        (λ t. sym (ap (λ q. owned_when q p.next_controller) t))
        (λ e. f j ∙ sym (ap (λ q. owned_when q p.next_controller) e)),
)

-- An enabled hook with a token connects, or finds a connection.
attach : ℕ → Page → Page
attach i p = if p.sse_active then leave i passive p else open_connection i p

attach-IsHeld :
    (i : ℕ) (p : Page)
    → owned (p.cleanups i) ≡ none
    → IsHeld p
    → IsHeld (attach i p) × (length (attach i p).open_connections ≡ 1)
unfolding attach
attach-IsHeld i p n (none, (a, b, d, f)) =
    subst (λ q. IsHeld q × (length q.open_connections ≡ 1))
      (sym (ap (λ q. if q then leave i passive p else open_connection i p) a))
      ((some (i, p.next_controller), opened-IsHeldBy i p (a, b, d, f)), ap (λ l. suc (length l)) d)
attach-IsHeld i p n (some (k, c), (a, b, d, f)) =
    subst (λ q. IsHeld q × (length q.open_connections ≡ 1))
      (sym (ap (λ q. if q then leave i passive p else open_connection i p) a))
      ((some (k, c), leave-IsHeldBy i passive (some (k, c)) p refl n (a, b, d, f)), ap length d)

run_effect-IsHeld :
    (i : ℕ) (enabled : Bool) (token : Option String) (p : Page)
    → owned (p.cleanups i) ≡ none
    → IsHeld p
    → IsHeld (run_effect i enabled token p)
unfolding run_effect attach
run_effect-IsHeld i enabled token p n (o, h) =
    if_elim IsHeld (not enabled) (λ t. (o, leave-IsHeldBy i nothing o p refl n h))
      (λ e.
        if_elim IsHeld (not (is_truthy token)) (λ t. (o, leave-IsHeldBy i nothing o p refl n h))
          (λ f. (attach-IsHeld i p n (o, h)).0))

on_hook-IsHeld : (e : HookEvent) (p : Page) → IsHeld p → IsHeld (on_hook e p)
unfolding on_hook
on_hook-IsHeld (effect_due i enabled token) p h =
    run_effect-IsHeld i enabled token (run_cleanup i p) (run_cleanup-left i p)
      (run_cleanup-IsHeld i p h)
on_hook-IsHeld (unmounted i) p h = run_cleanup-IsHeld i p h

run_from : (es : List HookEvent) (p : Page) → IsHeld p → IsHeld (on_hooks es p)
unfolding on_hooks
run_from [] p h = h
run_from (e ∷ es) p h = run_from es (on_hook e p) (on_hook-IsHeld e p h)

run_effect_attaches :
    (i : ℕ) (token : String) (p : Page)
    → is_truthy (some token) ≡ true
    → run_effect i true (some token) p ≡ attach i p
unfolding run_effect attach
run_effect_attaches i token p h = ap (λ b. if not b then leave i nothing p else attach i p) h

-- However many components use the hook, and in whatever order their effects and cleanups run: at most one
-- connection is open, the lock is held exactly while one is, with its controller, and exactly one hook owns it;
-- and the effect of an enabled hook with a token leaves one connection open.
pub on_hooks-IsHeld :
    (es : List HookEvent) (i : ℕ) (token : String)
    → is_truthy (some token) ≡ true
    → IsHeld (on_hooks es no_hooks)
      × (length (on_hook (effect_due i true (some token)) (on_hooks es no_hooks)).open_connections
          ≡ 1)
unfolding on_hook
on_hooks-IsHeld es i token h =
    let p = on_hooks es no_hooks in
    let held = run_from es no_hooks (none, (refl, refl, refl, λ j. refl)) in
    (
      held,
      subst (λ q. length q.open_connections ≡ 1)
          (sym (run_effect_attaches i token (run_cleanup i p) h))
          (attach-IsHeld i (run_cleanup i p) (run_cleanup-left i p)
            (run_cleanup-IsHeld i p held)).1,
    )
