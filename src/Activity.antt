-- ===== src/Activity.antt =====
-- The activity feed of the overview page (frontend/src/hooks/useActivityStream.ts): the asynchronous
-- function `consume` of one mounted hook, and the window of events that it keeps. The environment
-- settles what `consume` waits for, or cancels it. `JSON.parse` is a parameter: `none` is a parser
-- that throws.
pub mod Window
pub mod Cancel
mod Tests
use dtsys.Prelude.{
  ℕ, zero, suc, ◌+◌, ◌-◌, Bool, true, false, not, ◌||◌, List, [], ◌∷◌, ◌++◌, Option, none, some,
  if◌then◌else◌, length, drop,
}
use dtsys.Prelude.Storage.{Storage, get_item, is_truthy}
use dtsys.Stream.{Text, feed, payload}

-- What `consume` waits for: the answer, the next piece, or the timer after an error, with whether the
-- error is an AbortError; or it has returned.
pub data Phase : Type 0 where
  requesting reading returned : Phase
  waiting : Bool → Phase

-- What it gets: an answer with a body or none, a piece, the end, or an error.
pub data Answer : Type 0 where
  refused body finished elapsed : Answer
  failed : Bool → Answer
  piece : Text → Answer

module _ {E : Type 0} where
  -- `slice(-20)`
  abbrev pub last_of : ℕ → List E → List E
  last_of n xs = drop (length xs - n) xs

pub record Consumer (E : Type 0) : Type 0 where
  pub events : List E
  pub buffer : Text
  pub cancelled : Bool
  pub phase : Phase

-- The environment settles what is waited for, or the effect is cleaned up.
pub data Happening : Type 0 where
  settled : Answer → Happening
  cleaned_up : Happening

-- The effect's body: nothing starts where the hook is disabled or there is no token.
abbrev pub fresh : {E : Type 0} → Consumer E
fresh = record { events = []; buffer = []; cancelled = false; phase = requesting }

unfoldable pub start_feed : {E : Type 0} → Bool → Storage → Option (Consumer E)
start_feed enabled storage =
    if not enabled || not (is_truthy (get_item "access_token" storage)) then none else some fresh

module _ {E : Type 0} (parse : Text → Option E) where
  unfoldable pub add_event : Option E → List E → List E
  add_event none events = events
  add_event (some e) events = last_of 20 (events ++ e ∷ [])

  -- What a chunk adds: nothing where it has no data line or a malformed one.
  unfoldable pub read_chunk : Option Text → List E → List E
  read_chunk none events = events
  read_chunk (some text) events = add_event (parse text) events

  unfoldable pub read_chunks : List Text → List E → List E
  read_chunks [] events = events
  read_chunks (chunk ∷ chunks) events = read_chunks chunks (read_chunk (payload chunk) events)

  -- `while (!cancelled)`, of the inner and the outer loop.
  unfoldable pub go_on : Phase → Consumer E → Consumer E
  go_on next c = if c.cancelled then record c { phase = returned } else record c { phase = next }

  -- `catch`: the timer of three seconds.
  unfoldable pub caught : Bool → Consumer E → Consumer E
  caught aborted c = go_on (waiting aborted) c

  unfoldable pub on_piece : Text → Consumer E → Consumer E
  on_piece text c =
      let (chunks, rest) = feed c.buffer text in
      go_on reading (record c { events = read_chunks chunks c.events; buffer = rest })

  unfoldable pub settle : Phase → Answer → Consumer E → Consumer E
  settle requesting body c = go_on reading (record c { buffer = [] })
  settle requesting refused c = caught false c
  settle requesting (failed aborted) c = caught aborted c
  settle reading (piece text) c = on_piece text c
  settle reading finished c = go_on requesting c
  settle reading (failed aborted) c = caught aborted c
  settle (waiting true) elapsed c = record c { phase = returned }
  settle (waiting false) elapsed c = go_on requesting c
  settle _ _ c = c

  unfoldable pub happen : Happening → Consumer E → Consumer E
  happen (settled a) c = settle c.phase a c
  happen cleaned_up c = record c { cancelled = true }

  unfoldable pub consume : List Happening → Consumer E → Consumer E
  consume [] c = c
  consume (h ∷ hs) c = consume hs (happen h c)
