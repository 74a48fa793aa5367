-- ===== src/Audit/Live.antt =====
-- The streams of the live view.
use dtsys.Prelude.{
  ℕ, ◌+◌, ◌*◌, leb, ◌≤◌, ◌≡◌, refl, sym, ap, subst, Bool, true, false, List, [], ◌∷◌, Option, none,
  some, arith, ◌==◌, ==_iff, if◌then◌else◌, if_elim, length, length-take, any,
}
use dtsys.Audit.{
  AuditEntry, AuditLog, close_source, start_live, stop_live, on_message, AuditEvent, live_pressed,
  stop_pressed, left, message, filtered, turned_back, turned_on, is_message, handle, step, run,
  first_log,
}

-- The one open stream is the one of the live view; without it none is open, and neither is one on a page
-- that was left. The entries are at most two hundred.
abbrev AreOpen : Bool → Bool → Option ℕ → List ℕ → Type 0
AreOpen mounted live none opened = (opened ≡ []) × (live ≡ false)
AreOpen true live (some n) opened = (opened ≡ n ∷ []) × (live ≡ true)
AreOpen false live (some n) opened = opened ≡ []

abbrev pub IsLive : AuditLog → Type 0
IsLive s = AreOpen s.mounted s.live_mode s.sse_ref s.opened × (length s.live_entries ≤ 200)

close_only : (n : ℕ) → close_source (some n) (n ∷ []) ≡ []
close_only n = rw ((==_iff n n).1 refl) refl

closed_all :
    (mounted live : Bool) (o : Option ℕ) (opened : List ℕ)
    → AreOpen mounted live o opened
    → close_source o opened ≡ []
closed_all mounted live none opened h = h.0
closed_all true live (some n) opened h =
    subst (λ l. close_source (some n) l ≡ []) (sym h.0) (close_only n)
closed_all false live (some n) opened h = subst (λ l. close_source (some n) l ≡ []) (sym h) refl

left_open :
    (mounted live : Bool) (o : Option ℕ) (opened : List ℕ)
    → AreOpen mounted live o opened
    → AreOpen false live o (close_source o opened)
left_open mounted live none opened h = h
left_open mounted live (some n) opened h = closed_all mounted live (some n) opened h

on_message-IsLive : (o : Option AuditEntry) (s : AuditLog) → IsLive s → IsLive (on_message o s)
on_message-IsLive none s h = h
on_message-IsLive (some entry) s h = (h.0, omega (arith, length-take 200 (entry ∷ s.live_entries)))

handle-IsLive : (e : AuditEvent) (s : AuditLog) → s.mounted ≡ true → IsLive s → IsLive (handle e s)
unfolding handle start_live stop_live
handle-IsLive live_pressed s m h = (
  subst (λ b. AreOpen b true (some s.next_source) (s.next_source ∷ close_source s.sse_ref s.opened))
      (sym m)
      (ap (λ r. s.next_source ∷ r) (closed_all s.mounted s.live_mode s.sse_ref s.opened h.0), refl),
  omega arith,
)
handle-IsLive stop_pressed s m h =
    ((closed_all s.mounted s.live_mode s.sse_ref s.opened h.0, refl), h.1)
handle-IsLive left s m h = (left_open s.mounted s.live_mode s.sse_ref s.opened h.0, h.1)
handle-IsLive (message n entry) s m h =
    if_elim IsLive (any (λ k. k == n) s.opened) (λ t. on_message-IsLive entry s h) (λ f. h)
handle-IsLive (filtered filters) s m h = h
handle-IsLive turned_back s m h = if_elim IsLive (s.page == 0) (λ t. h) (λ f. h)
handle-IsLive (turned_on total) s m h =
    if_elim IsLive (leb total ((s.page + 1) * 50)) (λ t. h) (λ f. h)

message_only :
    (e : AuditEvent) (s : AuditLog) → IsLive s → IsLive (if is_message e then handle e s else s)
unfolding handle
message_only live_pressed s h = h
message_only stop_pressed s h = h
message_only left s h = h
message_only (message n entry) s h =
    if_elim IsLive (any (λ k. k == n) s.opened) (λ t. on_message-IsLive entry s h) (λ f. h)
message_only (filtered filters) s h = h
message_only turned_back s h = h
message_only (turned_on total) s h = h

step-IsLive : (e : AuditEvent) (s : AuditLog) → IsLive s → IsLive (step e s)
unfolding step
step-IsLive e s h = if_elim IsLive s.mounted (λ m. handle-IsLive e s m h) (λ f. message_only e s h)

run_from : (events : List AuditEvent) (s : AuditLog) → IsLive s → IsLive (run events s)
unfolding run
run_from [] s h = h
run_from (e ∷ events) s h = run_from events (step e s) (step-IsLive e s h)

-- Whatever the user does, the page has one open stream in its live view and none outside of it, none is
-- left open when the page is left, and at most two hundred live entries are kept.
pub run-IsLive : (events : List AuditEvent) → IsLive (run events first_log)
run-IsLive events = run_from events first_log ((refl, refl), omega arith)
