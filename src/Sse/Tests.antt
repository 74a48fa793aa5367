-- ===== src/Sse/Tests.antt =====
-- The theorems on the alert connection at concrete runs.
use dtsys.Prelude.{◌≡◌, refl, String, false, List, [], ◌∷◌, none, some, ◌==◌, if◌then◌else◌}
use dtsys.Types.{Alert, critical}
use dtsys.Prelude.Text.{split_at}
use dtsys.Stream.{Text, feed, payload}
use dtsys.Stream.Frames.{event, encode}
use dtsys.Alerts.{initial, set_unresolved}
use dtsys.Alerts.Store.{ids}
use dtsys.Sse.{
  granted, Parser, no_body, body, ReadReply, Reply, Event, settled, left, drawn, stored, mount, run,
}
use dtsys.Sse.Invariant.{Inv, run-Inv}
use dtsys.Sse.Unmount.{HasLeft, unmounted_ends}
use dtsys.Sse.Merge.{is_behind, IsSynced, mounted-IsSynced}
use dtsys.Sse.Backoff.{fetch_reply}

abbrev alert_of : String → Alert
alert_of id = record {
  id = id;
  device_id = "d1";
  alert_type = "disk";
  severity = critical;
  message = "full";
  is_resolved = false;
  created_at = "2024-01-01T00:00:00Z";
  resolved_at = none;
}

-- "1" and "2" are alerts, and nothing else parses.
abbrev parse : Parser
parse [] = none
parse (c ∷ s) =
    if c == b'1' then some (alert_of "one") else if c == b'2' then some (alert_of "two") else none

abbrev read_reply : Text → Reply
read_reply t = record { fetch = body; read = ReadReply.piece t; permission = granted }

-- Connects, and reads two alerts, the first of them twice.
abbrev busy : List Event
busy =
    settled 0 (fetch_reply body)
    ∷ settled 0 (read_reply (encode (event (b'1' ∷ []) ∷ event (b'2' ∷ []) ∷ [])))
    ∷ drawn
    ∷ settled 0 (read_reply (encode (event (b'1' ∷ []) ∷ [])))
    ∷ []

sse : Unit {0}
unfolding run mount initial feed payload split_at set_unresolved
sse = tt

two_alerts : ids (run parse busy (mount initial)).store.unresolved ≡ "two" ∷ "one" ∷ []
unfolding sse
two_alerts = refl

run-Inv_example : Inv (run parse busy (mount initial))
run-Inv_example = run-Inv parse initial busy

unmounted_ends_example :
    HasLeft []
      (run parse (left ∷ settled 0 (fetch_reply no_body) ∷ busy) (run parse busy (mount initial)))
unmounted_ends_example = unmounted_ends parse initial busy busy (fetch_reply no_body)

mounted-IsSynced_example :
    IsSynced
      (is_behind false (stored (alert_of "three" ∷ []) ∷ drawn ∷ busy))
      (run parse (stored (alert_of "three" ∷ []) ∷ drawn ∷ busy) (mount initial))
unfolding initial
mounted-IsSynced_example =
    mounted-IsSynced parse initial (stored (alert_of "three" ∷ []) ∷ drawn ∷ busy) tt
      ((tt, tt), (tt, (tt, (tt, (tt, (tt, tt))))))
