-- ===== src/Audit.antt =====
-- The audit log's page (frontend/src/pages/AuditLog.tsx): its filters, its pages, its live view and the
-- export. A stream is an EventSource with a number of its own; `opened` are those that have not been
-- closed. Whether an entry's text can be parsed comes with the event.
pub mod Live
mod Tests
use dtsys.Prelude.{
  ℕ, ◌+◌, ◌-◌, ◌*◌, leb, String, Bool, true, false, not, List, [], ◌∷◌, Option, none, some, ◌==◌,
  if◌then◌else◌, filter, take, length, any,
}
use dtsys.Api.{Fields, no_fields, when_truthy}
use dtsys.Queries.Accounts.{AuditFilters}

pub record AuditEntry : Type 0 where
  pub id : String
  pub action : String

-- What is read from the server, or the live entries.
pub record AuditPage : Type 0 where
  pub items : List AuditEntry
  pub total : ℕ

pub record AuditLog : Type 0 where
  pub filters : AuditFilters
  pub page : ℕ
  pub live_entries : List AuditEntry
  pub live_mode : Bool
  pub sse_ref : Option ℕ
  pub opened : List ℕ
  pub next_source : ℕ
  pub mounted : Bool

abbrev pub close_source : Option ℕ → List ℕ → List ℕ
close_source none opened = opened
close_source (some n) opened = filter (λ m. not (m == n)) opened

unfoldable pub start_live : AuditLog → AuditLog
start_live s = record s {
  opened = s.next_source ∷ close_source s.sse_ref s.opened;
  sse_ref = some s.next_source;
  next_source = s.next_source + 1;
  live_mode = true;
  live_entries = [];
}

unfoldable pub stop_live : AuditLog → AuditLog
stop_live s = record s {
  opened = close_source s.sse_ref s.opened;
  sse_ref = none;
  live_mode = false;
}

-- The handler of a stream's messages; `none` is a text that is no entry.
abbrev pub on_message : Option AuditEntry → AuditLog → AuditLog
on_message none s = s
on_message (some entry) s = record s { live_entries = take 200 (entry ∷ s.live_entries) }

pub data AuditEvent : Type 0 where
  live_pressed stop_pressed left : AuditEvent
  message : ℕ → Option AuditEntry → AuditEvent
  filtered : AuditFilters → AuditEvent
  turned_back : AuditEvent
  turned_on : ℕ → AuditEvent

-- The buttons of the pages are disabled at the first one and, for a given total, at the last.
unfoldable pub handle : AuditEvent → AuditLog → AuditLog
handle live_pressed s = start_live s
handle stop_pressed s = stop_live s
handle left s = record s { opened = close_source s.sse_ref s.opened; mounted = false }
handle (message n entry) s = if any (λ m. m == n) s.opened then on_message entry s else s
handle (filtered filters) s = record s { filters = filters; page = 0 }
handle turned_back s = if s.page == 0 then s else record s { page = s.page - 1 }
handle (turned_on total) s =
    if leb total ((s.page + 1) * 50) then s else record s { page = s.page + 1 }

-- Nothing happens to a page that was left, but for messages of a stream that is still open.
abbrev pub is_message : AuditEvent → Bool
is_message (message n entry) = true
is_message _ = false

unfoldable pub step : AuditEvent → AuditLog → AuditLog
step event s =
    if s.mounted then handle event s else (if is_message event then handle event s else s)

unfoldable pub run : List AuditEvent → AuditLog → AuditLog
run [] s = s
run (event ∷ events) s = run events (step event s)

abbrev pub no_filters : AuditFilters
no_filters = record { action = ""; username = ""; resource_type = ""; since = ""; until = "" }

abbrev pub first_log : AuditLog
first_log = record {
  filters = no_filters;
  page = 0;
  live_entries = [];
  live_mode = false;
  sse_ref = none;
  opened = [];
  next_source = 0;
  mounted = true;
}

abbrev pub page_or_empty : Option AuditPage → AuditPage
page_or_empty none = record { items = []; total = 0 }
page_or_empty (some answer) = answer

-- What the table shows, given the answer of the server, if there is one.
unfoldable pub shown_page : Option AuditPage → AuditLog → AuditPage
shown_page answer s =
    if s.live_mode
    then record { items = s.live_entries; total = length s.live_entries }
    else page_or_empty answer

-- handleExport
unfoldable pub export_fields : AuditFilters → Fields
export_fields f =
    when_truthy "action" (some f.action)
      (when_truthy "since" (some f.since) (when_truthy "until" (some f.until) no_fields))
