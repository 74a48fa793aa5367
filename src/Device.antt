-- ===== src/Device.antt =====
-- The device page (frontend/src/pages/DeviceDetail.tsx): taking a screenshot, and the strip of the last
-- thirty days. `set_capturing` is the setter with the second effect, which sets a timer when the
-- capture starts and clears it when it ends; `finish` is the effect on a new answer. Times are
-- milliseconds.
pub mod Timing
pub mod Days
pub mod Edits
mod Tests
use dtsys.Prelude.{
  ℕ, ◌+◌, ◌-◌, ◌*◌, ◌/◌, Bool, true, false, not, ◌&&◌, ◌||◌, List, [], ◌∷◌, Option, none, some,
  ◌==◌, if◌then◌else◌, filter, any, map, leb, ltb, max,
}
use dtsys.Prelude.Text.{Text, text_eq}

pub record Capture : Type 0 where
  pub is_capturing : Bool
  pub capture_started_at : Option ℕ
  pub captured_at : Option ℕ
  pub timeout : Option ℕ
  pub timers : List ℕ
  pub next_timer : ℕ

abbrev pub idle : Capture
idle = record {
  is_capturing = false;
  capture_started_at = none;
  captured_at = none;
  timeout = none;
  timers = [];
  next_timer = 0;
}

abbrev pub clear_timeout : Option ℕ → List ℕ → List ℕ
clear_timeout none timers = timers
clear_timeout (some t) timers = filter (λ u. not (u == t)) timers

unfoldable pub start_timer : Capture → Capture
start_timer s = record s {
  is_capturing = true;
  timeout = some s.next_timer;
  timers = s.next_timer ∷ clear_timeout s.timeout s.timers;
  next_timer = s.next_timer + 1;
}

unfoldable pub stop_timer : Capture → Capture
stop_timer s = record s {
  is_capturing = false;
  timeout = none;
  timers = clear_timeout s.timeout s.timers;
}

unfoldable pub set_capturing : Bool → Capture → Capture
set_capturing true s = if s.is_capturing then s else start_timer s
set_capturing false s = if s.is_capturing then stop_timer s else s

-- `!captureStartedAt || capturedAt >= captureStartedAt`
abbrev pub is_fresh : Option ℕ → ℕ → Bool
is_fresh none captured = true
is_fresh (some started) captured = started == 0 || leb started captured

abbrev pub finish_with : Option ℕ → Capture → Capture
finish_with none s = s
finish_with (some captured) s =
    if s.is_capturing && is_fresh s.capture_started_at captured then set_capturing false s else s

unfoldable pub finish : Capture → Capture
finish s = finish_with s.captured_at s

-- The request was answered at a time; the picture's query was; a timer has run out.
pub data CaptureEvent : Type 0 where
  requested : ℕ → CaptureEvent
  answered : Option ℕ → CaptureEvent
  fired : ℕ → CaptureEvent

unfoldable pub fire_timer : ℕ → Capture → Capture
fire_timer t s =
    if any (λ u. u == t) s.timers
    then set_capturing false (record s { timers = filter (λ u. not (u == t)) s.timers })
    else s

unfoldable pub step : CaptureEvent → Capture → Capture
step (requested now) s = finish (set_capturing true (record s { capture_started_at = some now }))
step (answered captured) s = finish (record s { captured_at = captured })
step (fired t) s = fire_timer t s

unfoldable pub run : List CaptureEvent → Capture → Capture
run [] s = s
run (event ∷ events) s = run events (step event s)

-- buildUptimeSegments. `is_online` is `event_type === 'online'`, `day` the first ten code units of the
-- time stamp.
pub record UptimeEvent : Type 0 where
  pub is_online : Bool
  pub day : Text
  pub duration_secs : Option ℕ

pub record Day : Type 0 where
  pub key : Text
  pub downtime : ℕ

abbrev pub has_day : Text → List Day → Bool
has_day key days = any (λ (d : Day). text_eq d.key key) days

-- `map.get(key)`: the last day with the key.
unfoldable pub add_downtime : Text → ℕ → List Day → List Day
add_downtime key secs [] = []
add_downtime key secs (d ∷ days) =
    let rest = add_downtime key secs days in
    if has_day key days
    then d ∷ rest
    else (if text_eq d.key key then record d { downtime = d.downtime + secs } ∷ days else d ∷ rest)

abbrev pub secs_of : Option ℕ → ℕ
secs_of none = 0
secs_of (some secs) = secs

unfoldable pub add_events : List UptimeEvent → List Day → List Day
add_events [] days = days
add_events (e ∷ events) days =
    add_events events
      (if e.is_online then add_downtime e.day (secs_of e.duration_secs) days else days)

pub data Tone : Type 0 where
  emerald amber slate red : Tone

pub record UptimeSegment : Type 0 where
  pub date : Text
  pub percent : ℕ
  pub tone : Tone

-- `Math.round(uptime / 86400 * 100)` and the tests `>= 0.999` and `> 0`, multiplied out.
abbrev pub segment_of : Day → UptimeSegment
segment_of d =
    let uptime = max 0 (86400 - d.downtime) in
    record {
      date = d.key;
      percent = (200 * uptime + 86400) / 172800;
      tone =
          if leb (999 * 86400) (1000 * uptime)
          then emerald
          else (if ltb 0 uptime then amber else slate);
    }

-- `keys` are the days that the clock gives, thirty of them.
unfoldable pub build_segments : List Text → List UptimeEvent → List UptimeSegment
build_segments keys events =
    map segment_of (add_events events (map (λ key. record { key = key; downtime = 0 }) keys))

-- uptimeTone, for a value in tenths of a percent.
unfoldable pub uptime_tone : ℕ → Tone
uptime_tone tenths = if leb 990 tenths then emerald else (if leb 950 tenths then amber else red)
