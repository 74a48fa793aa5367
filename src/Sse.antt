-- ===== src/Sse.antt =====
-- The alert stream (frontend/src/hooks/useSSE.ts): one mounted hook and the connection that it owns.
-- The asynchronous work that is under way is a list of tasks; the environment settles one of them at
-- a time (`settle`), or unmounts the hook. What `fetch`, the reader and `JSON.parse` answer is part
-- of the environment's step or, for the parser, a parameter: `none` is a parser that throws.
pub mod Invariant
pub mod Unmount
pub mod Merge
pub mod Backoff
pub mod Hooks
mod Tests
use Prim.Native.Nat.{zero}
use dtsys.Prelude.{
  ℕ, suc, ◌+◌, ◌*◌, min, String, Bool, true, false, not, ◌&&◌, ◌||◌, List, [], ◌∷◌, ◌++◌, Option,
  none, some, ◌==◌, str_eq, if◌then◌else◌, length, any,
}
use dtsys.Types.{Alert}
use dtsys.Stream.{Text, feed, payload}
use dtsys.Alerts.{AlertState, set_unresolved}

pub data Task : Type 0 where
  fetching reading : Task
  sleeping : ℕ → Task

-- `Notification`: not there, or its permission.
pub data Permission : Type 0 where
  missing granted denied undecided : Permission

pub data Notice : Type 0 where
  shown : Alert → Notice
  asked : Notice

pub record Conn : Type 0 where
  pub mounted : Bool  -- mountedRef.current
  pub aborted : Bool  -- controller.signal.aborted
  pub active : Bool  -- sseActive, while this hook holds it
  pub backoff_ms : ℕ
  pub buffer : Text
  pub prev : List Alert  -- prevAlertsRef.current
  pub store : AlertState
  pub notices : List Notice
  pub tasks : List Task

abbrev pub first_backoff : ℕ
first_backoff = 5000

abbrev pub max_backoff : ℕ
max_backoff = 60000

abbrev start_task : Task → Conn → Conn
start_task t c = record c { tasks = t ∷ c.tasks }

unfoldable pub schedule_reconnect : ℕ → Conn → Conn
schedule_reconnect delay_ms c =
    if not c.mounted || c.aborted then c else start_task (sleeping delay_ms) c

unfoldable pub connect : Conn → Conn
connect c = if not c.mounted || c.aborted then c else start_task fetching c

-- `scheduleReconnect(backoffMs); backoffMs = Math.min(backoffMs * 2, 60_000)`.
unfoldable pub retry : Conn → Conn
unfolding schedule_reconnect
retry c =
    let c' = schedule_reconnect c.backoff_ms c in
    record c' { backoff_ms = min (c.backoff_ms * 2) max_backoff }

-- `catch`: an unmounted or aborted connection ends.
unfoldable pub on_error : Conn → Conn
unfolding retry
on_error c = if not c.mounted || c.aborted then c else retry c

-- `next.some((item, index) => item.id !== current[index]?.id)`.
unfoldable pub some_moved : List Alert → List Alert → Bool
some_moved [] current = false
some_moved (item ∷ rest) [] = true
some_moved (item ∷ rest) (a ∷ current) = not (str_eq item.id a.id) || some_moved rest current

unfoldable pub merge : Alert → Conn → Conn
unfolding some_moved
merge a c =
    if any (λ existing. str_eq existing.id a.id) c.prev
    then c
    else (let next = a ∷ c.prev in
        let changed = not (length next == length c.prev) || some_moved next c.prev in
        if changed then record c { prev = next; store = set_unresolved next c.store } else c)

unfoldable pub announce : Permission → Alert → Conn → Conn
announce missing a c = c
announce granted a c = record c { notices = shown a ∷ c.notices }
announce denied a c = c
announce undecided a c = record c { notices = asked ∷ c.notices }

-- How the body of the inner loop ends.
pub record Turn : Type 0 where
  pub conn : Conn
  pub threw : Bool

-- What `JSON.parse` makes of a chunk's payload.
abbrev pub Parser : Type 0
Parser = Text → Option Alert

unfoldable pub on_chunks : Parser → Permission → List Text → Conn → Turn
unfolding merge announce
on_chunks parse p [] c = record { conn = c; threw = false }
on_chunks parse p (chunk ∷ chunks) c = elim (payload chunk) [
  | none ↦ on_chunks parse p chunks c
  | some text ↦ elim (parse text) [
    | none ↦ record { conn = c; threw = true }
    | some a ↦ on_chunks parse p chunks (announce p a (merge a c))
  ]
]

-- `while (mountedRef.current)`, then what follows the loop.
unfoldable pub read_on : Conn → Conn
unfolding retry
read_on c = if c.mounted then start_task reading c else retry c

unfoldable pub on_piece : Parser → Permission → Text → Conn → Conn
unfolding on_chunks on_error read_on
on_piece parse p piece c =
    let (chunks, rest) = feed c.buffer piece in
    let turn = on_chunks parse p chunks (record c { buffer = rest }) in
    if turn.threw then on_error turn.conn else read_on turn.conn

pub data FetchReply : Type 0 where
  too_many_requests no_body body failed : FetchReply

pub data ReadReply : Type 0 where
  piece : Text → ReadReply
  done failed : ReadReply

unfoldable pub on_fetch : FetchReply → Conn → Conn
unfolding schedule_reconnect retry read_on on_error
on_fetch too_many_requests c = schedule_reconnect max_backoff c
on_fetch no_body c = retry c
on_fetch body c = read_on (record c { backoff_ms = first_backoff; buffer = [] })
on_fetch failed c = on_error c

unfoldable pub on_read : Parser → Permission → ReadReply → Conn → Conn
unfolding on_piece retry on_error
on_read parse p (piece t) c = on_piece parse p t c
on_read parse p done c = retry c
on_read parse p failed c = on_error c

unfoldable pub on_timer : Conn → Conn
unfolding connect
on_timer c = if c.mounted then connect c else c

-- What the environment answers to a task, whichever kind it is.
pub record Reply : Type 0 where
  pub fetch : FetchReply
  pub read : ReadReply
  pub permission : Permission

unfoldable pub on_task : Parser → Reply → Task → Conn → Conn
unfolding on_fetch on_read on_timer
on_task parse r fetching c = on_fetch r.fetch c
on_task parse r reading c = on_read parse r.permission r.read c
on_task parse r (sleeping delay_ms) c = on_timer c

-- Settles the task at this place of the list; there is nothing to do past its end.
unfoldable pub settle_in : Parser → Reply → ℕ → List Task → List Task → Conn → Conn
unfolding on_task
settle_in parse r i before [] c = c
settle_in parse r zero before (t ∷ after) c =
    on_task parse r t (record c { tasks = before ++ after })
settle_in parse r (suc i) before (t ∷ after) c = settle_in parse r i (before ++ t ∷ []) after c

-- The effect's cleanup.
unfoldable pub unmount : Conn → Conn
unmount c = record c { mounted = false; aborted = true; active = false }

-- The effect that copies the store into `prevAlertsRef` after a render.
unfoldable pub rendered : Conn → Conn
rendered c = record c { prev = c.store.unresolved }

pub data Event : Type 0 where
  settled : ℕ → Reply → Event
  left : Event
  drawn : Event
  stored : List Alert → Event  -- the top bar's effect, after its query has been read

-- Another caller of the store's setUnresolved (frontend/src/components/layout/Topbar.tsx).
unfoldable pub store_alerts : List Alert → Conn → Conn
store_alerts alerts c = record c { store = set_unresolved alerts c.store }

unfoldable pub step : Parser → Event → Conn → Conn
unfolding settle_in unmount rendered store_alerts
step parse (settled i r) c = settle_in parse r i [] c.tasks c
step parse left c = unmount c
step parse drawn c = rendered c
step parse (stored alerts) c = store_alerts alerts c

-- The effect's body, where the hook is enabled, has a token and finds no active connection.
unfoldable pub mount : AlertState → Conn
unfolding connect
mount store = connect (record {
  mounted = true;
  aborted = false;
  active = true;
  backoff_ms = first_backoff;
  buffer = [];
  prev = store.unresolved;
  store = store;
  notices = [];
  tasks = [];
})

unfoldable pub run : Parser → List Event → Conn → Conn
unfolding step
run parse [] c = c
run parse (e ∷ es) c = run parse es (step parse e c)
