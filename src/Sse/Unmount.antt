-- ===== src/Sse/Unmount.antt =====
-- What becomes of the alert connection once its hook is unmounted.
use dtsys.Prelude.{
  ℕ, zero, ◌≡◌, ◌≤◌, true, false, List, [], ◌∷◌, arith, length, Bool-cases, inl, inr,
}
use dtsys.Stream.{Text, feed}
use dtsys.Alerts.{AlertState}
use dtsys.Sse.{
  Task, fetching, reading, sleeping, Permission, Conn, Parser, FetchReply, too_many_requests,
  no_body, body, ReadReply, Reply, Event, settled, left, drawn, stored, retry, on_error, on_chunks,
  read_on, on_piece, on_fetch, on_read, on_timer, on_task, settle_in, unmount, step, mount, run,
}
use dtsys.Sse.Invariant.{Keeps, on_chunks-Keeps, run-Inv}

-- Unmounted and aborted, with these tasks left.
pub record HasLeft (ts : List Task) (c : Conn) : Type 0 where
  pub mounted : c.mounted ≡ false
  pub aborted : c.aborted ≡ true
  pub tasks : c.tasks ≡ ts

retry-HasLeft : (c : Conn) {ts : List Task} → HasLeft ts c → HasLeft ts (retry c)
unfolding retry
retry-HasLeft c h = ground arith

on_error-HasLeft : (c : Conn) {ts : List Task} → HasLeft ts c → HasLeft ts (on_error c)
unfolding on_error
on_error-HasLeft c h = ground arith

read_on-HasLeft : (c : Conn) {ts : List Task} → HasLeft ts c → HasLeft ts (read_on c)
unfolding read_on
read_on-HasLeft c h = ground arith

on_fetch-HasLeft :
    (r : FetchReply) (c : Conn) {ts : List Task} → HasLeft ts c → HasLeft ts (on_fetch r c)
unfolding on_fetch
on_fetch-HasLeft too_many_requests c h = ground arith
on_fetch-HasLeft no_body c h = ground arith
on_fetch-HasLeft body c h = ground arith
on_fetch-HasLeft FetchReply.failed c h = ground arith

Keeps-HasLeft : {c d : Conn} {ts : List Task} → Keeps c d → HasLeft ts c → HasLeft ts d
Keeps-HasLeft k h = ground arith

module _ (parse : Parser) where
  on_piece-HasLeft :
      (p : Permission) (t : Text) (c : Conn) {ts : List Task}
      → HasLeft ts c
      → HasLeft ts (on_piece parse p t c)
  unfolding on_piece
  on_piece-HasLeft p t c {ts} h =
      let (chunks, rest) = feed c.buffer t in
      let c' : Conn = record c { buffer = rest } in
      let turn = on_chunks parse p chunks c' in
      let gone : HasLeft ts turn.conn =
        Keeps-HasLeft (on_chunks-Keeps parse p chunks c') (ground arith) in
      elim (Bool-cases turn.threw) [
        | inl e ↦ rw e (on_error-HasLeft turn.conn gone)
        | inr e ↦ rw e (read_on-HasLeft turn.conn gone)
      ]

  on_task-HasLeft :
      (r : Reply) (t : Task) (c : Conn) {ts : List Task}
      → HasLeft ts c
      → HasLeft ts (on_task parse r t c)
  unfolding on_task on_read
  on_task-HasLeft r fetching c h = on_fetch-HasLeft r.fetch c h
  on_task-HasLeft r reading c {ts} h = go r.read
    where
      go : (a : ReadReply) → HasLeft ts (on_read parse r.permission a c)
      go (ReadReply.piece t) = on_piece-HasLeft r.permission t c h
      go ReadReply.done = retry-HasLeft c h
      go ReadReply.failed = on_error-HasLeft c h
  on_task-HasLeft r (sleeping d) c h = unfold on_timer in ground arith

  settle_last :
      (r : Reply) (ts : List Task) (c : Conn)
      → length ts ≤ 1
      → HasLeft ts c
      → HasLeft [] (settle_in parse r zero [] ts c)
  unfolding settle_in
  settle_last r [] c l h = h
  settle_last r (t ∷ []) c l h = on_task-HasLeft r t (record c { tasks = [] }) (ground arith)
  settle_last r (t ∷ u ∷ us) c l h = absurd (omega arith)

  settle_none :
      (r : Reply) (i : ℕ) (ts : List Task) (c : Conn)
      → ts ≡ []
      → HasLeft [] c
      → HasLeft [] (settle_in parse r i [] ts c)
  unfolding settle_in
  settle_none r i [] c e h = h
  settle_none r i (t ∷ ts) c e h = cc

  step-HasLeft : (e : Event) (c : Conn) → HasLeft [] c → HasLeft [] (step parse e c)
  unfolding step
  step-HasLeft (settled i r) c h = settle_none r i c.tasks c h.tasks h
  step-HasLeft left c h = ground arith
  step-HasLeft drawn c h = ground arith
  step-HasLeft (stored alerts) c h = ground arith

  run-HasLeft : (es : List Event) (c : Conn) → HasLeft [] c → HasLeft [] (run parse es c)
  unfolding run
  run-HasLeft [] c h = h
  run-HasLeft (e ∷ es) c h = run-HasLeft es (step parse e c) (step-HasLeft e c h)

  unmount-HasLeft : (c : Conn) → HasLeft c.tasks (unmount c)
  unfolding unmount
  unmount-HasLeft c = ground arith

  -- However a connection has run until its hook is unmounted: once the task that is then under way
  -- is settled, in whatever way, no request, read or timer is ever started again.
  pub unmounted_ends :
      (store : AlertState) (es later : List Event) (r : Reply)
      → HasLeft [] (run parse (left ∷ settled 0 r ∷ later) (run parse es (mount store)))
  unfolding step
  unmounted_ends store es later r =
      let c = run parse es (mount store) in
      let gone : Conn = unmount c in
      unfold run in
      run-HasLeft later (settle_in parse r 0 [] gone.tasks gone)
        (settle_last r gone.tasks gone (run-Inv parse store es).single (unmount-HasLeft c))
