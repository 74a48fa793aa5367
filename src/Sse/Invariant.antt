-- ===== src/Sse/Invariant.antt =====
-- What holds of the alert connection between two steps.
use dtsys.Prelude.{
  ℕ, zero, suc, ◌≡◌, refl, ◌≤◌, true, not, List, [], ◌∷◌, arith, All, length, Option-cases,
  Bool-cases, inl, inr,
}
use dtsys.Types.{Alert}
use dtsys.Stream.{Text, feed, payload}
use dtsys.Alerts.{AlertState}
use dtsys.Sse.{
  Task, fetching, reading, sleeping, Permission, Conn, Parser, FetchReply, too_many_requests,
  no_body, body, ReadReply, Reply, Event, settled, left, drawn, stored, retry, on_error, merge,
  announce, on_chunks, read_on, on_piece, on_fetch, on_read, on_timer, on_task, settle_in, step,
  mount, run,
}

-- A reconnect waits for between five seconds and one minute.
abbrev pub IsPaced : Task → Type 0
IsPaced fetching = Unit {0}
IsPaced reading = Unit {0}
IsPaced (sleeping d) = (5000 ≤ d) × (d ≤ 60000)

-- The part that every step keeps, whatever the tasks are.
pub record IsSteady (c : Conn) : Type 0 where
  pub backoff_low : 5000 ≤ c.backoff_ms
  pub backoff_high : c.backoff_ms ≤ 60000
  pub locked : c.active ≡ not c.aborted
  pub attached : c.mounted ≡ not c.aborted

pub record Inv (c : Conn) : Type 0 where
  pub steady : IsSteady c
  pub single : length c.tasks ≤ 1
  pub alive : c.mounted ≡ true → length c.tasks ≡ 1
  pub paced : All IsPaced c.tasks

-- What processing a chunk leaves alone.
pub record Keeps (c d : Conn) : Type 0 where
  pub mounted : d.mounted ≡ c.mounted
  pub aborted : d.aborted ≡ c.aborted
  pub active : d.active ≡ c.active
  pub backoff_ms : d.backoff_ms ≡ c.backoff_ms
  pub tasks : d.tasks ≡ c.tasks

merge-Keeps : (a : Alert) (c : Conn) → Keeps c (merge a c)
unfolding merge
merge-Keeps a c = ground arith

announce-Keeps : (p : Permission) (a : Alert) (c : Conn) → Keeps c (announce p a c)
unfolding announce
announce-Keeps p a c = ground arith

Keeps-trans : {c d e : Conn} → Keeps c d → Keeps d e → Keeps c e
Keeps-trans h k = ground arith

module _ (parse : Parser) (p : Permission) where
  pub on_chunks-Keeps : (chunks : List Text) (c : Conn) → Keeps c (on_chunks parse p chunks c).conn
  unfolding on_chunks
  on_chunks-Keeps [] c = ground arith
  on_chunks-Keeps (chunk ∷ chunks) c = elim (Option-cases (payload chunk)) [
    | inl e ↦ rw (e, on_chunks) (on_chunks-Keeps chunks c)
    | inr (text, e) ↦ elim (Option-cases (parse text)) [
      | inl e' ↦ rw (e, on_chunks) (rw (e', on_chunks) (ground arith))
      | inr (a, e') ↦
          rw (e, on_chunks)
            (rw (e', on_chunks)
              (Keeps-trans (merge-Keeps a c) (
                Keeps-trans (announce-Keeps p a (merge a c))
                  (on_chunks-Keeps chunks (announce p a (merge a c))))))
    ]
  ]

-- A connection whose task has just been settled.
record IsIdle (c : Conn) : Type 0 where
  steady : IsSteady c
  empty : c.tasks ≡ []

Keeps-IsIdle : {c d : Conn} → Keeps c d → IsIdle c → IsIdle d
Keeps-IsIdle k h = ground arith

retry-Inv : (c : Conn) → IsIdle c → Inv (retry c)
unfolding retry
retry-Inv c h = ground arith

on_error-Inv : (c : Conn) → IsIdle c → Inv (on_error c)
unfolding on_error
on_error-Inv c h = ground arith

read_on-Inv : (c : Conn) → IsIdle c → Inv (read_on c)
unfolding read_on
read_on-Inv c h = ground arith

on_timer-Inv : (c : Conn) → IsIdle c → Inv (on_timer c)
unfolding on_timer
on_timer-Inv c h = ground arith

on_fetch-Inv : (r : FetchReply) (c : Conn) → IsIdle c → Inv (on_fetch r c)
unfolding on_fetch
on_fetch-Inv too_many_requests c h = ground arith
on_fetch-Inv no_body c h = ground arith
on_fetch-Inv body c h = ground arith
on_fetch-Inv FetchReply.failed c h = ground arith

module _ (parse : Parser) where
  on_piece-Inv : (p : Permission) (t : Text) (c : Conn) → IsIdle c → Inv (on_piece parse p t c)
  unfolding on_piece
  on_piece-Inv p t c h =
      let (chunks, rest) = feed c.buffer t in
      let c' : Conn = record c { buffer = rest } in
      let turn = on_chunks parse p chunks c' in
      let idle : IsIdle turn.conn =
        Keeps-IsIdle (on_chunks-Keeps parse p chunks c')
          (record { steady = ground arith; empty = h.empty }) in
      elim (Bool-cases turn.threw) [
        | inl e ↦ rw e (on_error-Inv turn.conn idle)
        | inr e ↦ rw e (read_on-Inv turn.conn idle)
      ]

  on_task-Inv : (r : Reply) (t : Task) (c : Conn) → IsIdle c → Inv (on_task parse r t c)
  unfolding on_task on_read
  on_task-Inv r fetching c h = on_fetch-Inv r.fetch c h
  on_task-Inv r reading c h = go r.read
    where
      go : (a : ReadReply) → Inv (on_read parse r.permission a c)
      go (ReadReply.piece t) = on_piece-Inv r.permission t c h
      go ReadReply.done = retry-Inv c h
      go ReadReply.failed = on_error-Inv c h
  on_task-Inv r (sleeping d) c h = on_timer-Inv c h

  settle-Inv : (r : Reply) (i : ℕ) (c : Conn) → Inv c → Inv (settle_in parse r i [] c.tasks c)
  unfolding settle_in
  settle-Inv r i c h = go i c.tasks h.single
    where
      go : (j : ℕ) (ts : List Task) → length ts ≤ 1 → Inv (settle_in parse r j [] ts c)
      go j [] l = h
      go zero (t ∷ []) l =
          on_task-Inv r t (record c { tasks = [] }) (record { steady = ground arith; empty = refl })
      go (suc j) (t ∷ []) l = h
      go j (t ∷ u ∷ us) l = absurd (omega arith)

  pub step-Inv : (e : Event) (c : Conn) → Inv c → Inv (step parse e c)
  unfolding step
  step-Inv (settled i r) c h = settle-Inv r i c h
  step-Inv left c h = ground arith
  step-Inv drawn c h = ground arith
  step-Inv (stored alerts) c h = ground arith

  run_from-Inv : (es : List Event) (c : Conn) → Inv c → Inv (run parse es c)
  unfolding run
  run_from-Inv [] c h = h
  run_from-Inv (e ∷ es) c h = run_from-Inv es (step parse e c) (step-Inv e c h)

  mount-Inv : (store : AlertState) → Inv (mount store)
  unfolding mount
  mount-Inv store = ground arith

  -- Whatever the network, the timers and React do after a mount: at most one request, read or timer
  -- of the connection is under way, and exactly one while the hook is mounted; every reconnect waits
  -- for between 5 and 60 seconds; and the lock is held until the hook unmounts.
  pub run-Inv : (store : AlertState) (es : List Event) → Inv (run parse es (mount store))
  run-Inv store es = run_from-Inv es (mount store) (mount-Inv store)
