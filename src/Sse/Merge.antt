-- ===== src/Sse/Merge.antt =====
-- How the alerts of the stream enter the hook's list and the store.
use dtsys.Prelude.{
  ℕ, zero, suc, All, subst, Bool, ◌≡◌, refl, sym, ap, ◌∙◌, String, true, false, List, [], ◌∷◌, ◌++◌,
  arith, any, Option-cases, Bool-cases, inl, inr, if◌then◌else◌, str_eq, str_eq_iff,
}
use dtsys.Types.{Alert}
use dtsys.Stream.{Text, feed, payload}
use dtsys.Alerts.{AlertState, set_unresolved}
use dtsys.Alerts.Store.{Lacks, Distinct, HasDistinctIds, ids-set_unresolved}
use dtsys.Sse.{
  Task, fetching, reading, sleeping, Permission, missing, granted, denied, undecided, Conn, Parser,
  FetchReply, too_many_requests, no_body, body, ReadReply, Reply, Event, settled, left, drawn,
  stored, store_alerts, retry, on_error, merge, announce, on_chunks, read_on, on_piece, on_fetch,
  on_read, on_timer, on_task, settle_in, unmount, rendered, step, mount, run,
}

-- The list with an alert that it does not hold yet, the newest first.
abbrev pub with_new : Alert → List Alert → List Alert
with_new a alerts = if any (λ existing. str_eq existing.id a.id) alerts then alerts else a ∷ alerts

-- Whether the store has been written by another caller since the hook was drawn.
abbrev pub is_behind : Bool → List Event → Bool
is_behind b [] = b
is_behind b (stored alerts ∷ es) = is_behind true es
is_behind b (drawn ∷ es) = is_behind false es
is_behind b (settled i r ∷ es) = is_behind b es
is_behind b (left ∷ es) = is_behind b es

abbrev pub IsSame : Bool → Conn → Type 0
IsSame true c = Unit
IsSame false c = c.prev ≡ c.store.unresolved

-- The hook's list is the store's, unless it is behind, and neither repeats an id.
pub record IsSynced (behind : Bool) (c : Conn) : Type 0 where
  pub same : IsSame behind c
  pub distinct : HasDistinctIds c.prev
  pub distinct_store : HasDistinctIds c.store.unresolved

-- What another caller writes.
abbrev pub IsSound : Event → Type 0
IsSound (stored alerts) = HasDistinctIds alerts
IsSound _ = Unit

any→Lacks :
    (id : String) (alerts : List Alert)
    → any (λ existing. str_eq existing.id id) alerts ≡ false
    → Lacks id alerts
any→Lacks id [] h = tt
any→Lacks id (a ∷ alerts) h = ground (arith, str_eq_iff a.id id, any→Lacks id alerts)

set_unresolved_longer :
    (a : Alert) (state : AlertState)
    → set_unresolved (a ∷ state.unresolved) state ≡ record { unresolved = a ∷ state.unresolved }
unfolding set_unresolved
set_unresolved_longer a state = ground arith

-- An alert whose id is new goes to the front of the hook's list and of the store; any other alert
-- changes neither.
pub merge_lem :
    (a : Alert) (c : Conn)
    → c.prev ≡ c.store.unresolved
    → ((merge a c).prev ≡ with_new a c.prev) × ((merge a c).store.unresolved ≡ with_new a c.prev)
unfolding merge
merge_lem a c h = ground (arith, set_unresolved_longer a c.store)

merge-IsSame : (b : Bool) (a : Alert) (c : Conn) → IsSame b c → IsSame b (merge a c)
merge-IsSame true a c h = tt
merge-IsSame false a c h = let (p, s) = merge_lem a c h in p ∙ sym s

merge_old :
    (a : Alert) (c : Conn) → any (λ existing. str_eq existing.id a.id) c.prev ≡ true → merge a c ≡ c
unfolding merge
merge_old a c h = rw h refl

merge_new :
    (a : Alert) (c : Conn)
    → any (λ existing. str_eq existing.id a.id) c.prev ≡ false
    → merge a c ≡ record c { prev = a ∷ c.prev; store = set_unresolved (a ∷ c.prev) c.store }
unfolding merge
merge_new a c h = ground arith

merge-IsSynced : (b : Bool) (a : Alert) (c : Conn) → IsSynced b c → IsSynced b (merge a c)
merge-IsSynced b a c h = elim (Bool-cases (any (λ existing. str_eq existing.id a.id) c.prev)) [
  | inl old ↦ subst (IsSynced b) (sym (merge_old a c old)) h
  | inr new ↦
      let longer : HasDistinctIds (a ∷ c.prev) = (any→Lacks a.id c.prev new, h.distinct) in
      let d = record c { prev = a ∷ c.prev; store = set_unresolved (a ∷ c.prev) c.store } in
      let e : merge a c ≡ d = merge_new a c new in
      let same : IsSame b d = subst (IsSame b) e (merge-IsSame b a c h.same) in
      subst (IsSynced b) (sym e) (record {
        same = same;
        distinct = longer;
        distinct_store = subst Distinct (sym (ids-set_unresolved (a ∷ c.prev) c.store).0) longer;
      })
]

-- A step that leaves the alerts alone.
record SameAlerts (c d : Conn) : Type 0 where
  prev : d.prev ≡ c.prev
  store : d.store ≡ c.store

SameAlerts-IsSame : (b : Bool) {c d : Conn} → SameAlerts c d → IsSame b c → IsSame b d
SameAlerts-IsSame true s h = tt
SameAlerts-IsSame false s h = s.prev ∙ (h ∙ ap (λ (x : AlertState). x.unresolved) (sym s.store))

SameAlerts-IsSynced : (b : Bool) {c d : Conn} → SameAlerts c d → IsSynced b c → IsSynced b d
SameAlerts-IsSynced b {c} {d} s h = record {
  same = SameAlerts-IsSame b s h.same;
  distinct = rw s.prev h.distinct;
  distinct_store = rw s.store h.distinct_store;
}

announce-IsSynced :
    (b : Bool) (p : Permission) (a : Alert) (c : Conn) → IsSynced b c → IsSynced b (announce p a c)
unfolding announce
announce-IsSynced b missing a c h = h
announce-IsSynced b granted a c h = SameAlerts-IsSynced b (record { prev = refl; store = refl }) h
announce-IsSynced b denied a c h = h
announce-IsSynced b undecided a c h = SameAlerts-IsSynced b (record { prev = refl; store = refl }) h

retry-SameAlerts : (c : Conn) → SameAlerts c (retry c)
unfolding retry
retry-SameAlerts c = ground arith

on_error-SameAlerts : (c : Conn) → SameAlerts c (on_error c)
unfolding on_error
on_error-SameAlerts c = ground arith

read_on-SameAlerts : (c : Conn) → SameAlerts c (read_on c)
unfolding read_on
read_on-SameAlerts c = ground arith

on_timer-SameAlerts : (c : Conn) → SameAlerts c (on_timer c)
unfolding on_timer
on_timer-SameAlerts c = ground arith

on_fetch-SameAlerts : (r : FetchReply) (c : Conn) → SameAlerts c (on_fetch r c)
unfolding on_fetch
on_fetch-SameAlerts too_many_requests c = ground arith
on_fetch-SameAlerts no_body c = ground arith
on_fetch-SameAlerts body c = ground arith
on_fetch-SameAlerts FetchReply.failed c = ground arith

module _ (parse : Parser) (b : Bool) where
  on_chunks-IsSynced :
      (p : Permission) (chunks : List Text) (c : Conn)
      → IsSynced b c
      → IsSynced b (on_chunks parse p chunks c).conn
  unfolding on_chunks
  on_chunks-IsSynced p [] c h = h
  on_chunks-IsSynced p (chunk ∷ chunks) c h = elim (Option-cases (payload chunk)) [
    | inl e ↦ rw (e, on_chunks) (on_chunks-IsSynced p chunks c h)
    | inr (text, e) ↦ elim (Option-cases (parse text)) [
      | inl e' ↦ rw (e, on_chunks) (rw (e', on_chunks) h)
      | inr (a, e') ↦
          rw (e, on_chunks)
            (rw (e', on_chunks)
              (on_chunks-IsSynced p chunks (announce p a (merge a c))
                (announce-IsSynced b p a (merge a c) (merge-IsSynced b a c h))))
    ]
  ]

  on_piece-IsSynced :
      (p : Permission) (t : Text) (c : Conn) → IsSynced b c → IsSynced b (on_piece parse p t c)
  unfolding on_piece
  on_piece-IsSynced p t c h =
      let (chunks, rest) = feed c.buffer t in
      let turn = on_chunks parse p chunks (record c { buffer = rest }) in
      let synced : IsSynced b turn.conn =
        on_chunks-IsSynced p chunks (record c { buffer = rest })
          (SameAlerts-IsSynced b (record { prev = refl; store = refl }) h) in
      elim (Bool-cases turn.threw) [
        | inl e ↦ rw e (SameAlerts-IsSynced b (on_error-SameAlerts turn.conn) synced)
        | inr e ↦ rw e (SameAlerts-IsSynced b (read_on-SameAlerts turn.conn) synced)
      ]

  on_task-IsSynced :
      (r : Reply) (t : Task) (c : Conn) → IsSynced b c → IsSynced b (on_task parse r t c)
  unfolding on_task on_read
  on_task-IsSynced r fetching c h = SameAlerts-IsSynced b (on_fetch-SameAlerts r.fetch c) h
  on_task-IsSynced r reading c h = go r.read
    where
      go : (a : ReadReply) → IsSynced b (on_read parse r.permission a c)
      go (ReadReply.piece t) = on_piece-IsSynced r.permission t c h
      go ReadReply.done = SameAlerts-IsSynced b (retry-SameAlerts c) h
      go ReadReply.failed = SameAlerts-IsSynced b (on_error-SameAlerts c) h
  on_task-IsSynced r (sleeping d) c h = SameAlerts-IsSynced b (on_timer-SameAlerts c) h

  settle_in-IsSynced :
      (r : Reply) (i : ℕ) (before ts : List Task) (c : Conn)
      → IsSynced b c
      → IsSynced b (settle_in parse r i before ts c)
  unfolding settle_in
  settle_in-IsSynced r i before [] c h = h
  settle_in-IsSynced r zero before (t ∷ ts) c h =
      on_task-IsSynced r t (record c { tasks = before ++ ts })
        (SameAlerts-IsSynced b (record { prev = refl; store = refl }) h)
  settle_in-IsSynced r (suc i) before (t ∷ ts) c h =
      settle_in-IsSynced r i (before ++ t ∷ []) ts c h

module _ (parse : Parser) where
  -- The steps one after another, each with whether the hook is behind after it.
  run_from-IsSynced :
      (es : List Event) (b : Bool) (c : Conn)
      → All IsSound es
      → IsSynced b c
      → IsSynced (is_behind b es) (run parse es c)
  unfolding run step
  run_from-IsSynced [] b c s h = h
  run_from-IsSynced (settled i r ∷ es) b c s h =
      run_from-IsSynced es b (step parse (settled i r) c) s.1
        (settle_in-IsSynced parse b r i [] c.tasks c h)
  run_from-IsSynced (left ∷ es) b c s h =
      run_from-IsSynced es b (unmount c) s.1
        (unfold unmount in SameAlerts-IsSynced b (record { prev = refl; store = refl }) h)
  run_from-IsSynced (drawn ∷ es) b c s h = run_from-IsSynced es false (rendered c) s.1 (
      unfold rendered in
      record { same = refl; distinct = h.distinct_store; distinct_store = h.distinct_store })
  run_from-IsSynced (stored alerts ∷ es) b c s h =
      run_from-IsSynced es true (store_alerts alerts c) s.1 (
        unfold store_alerts in
        record {
          same = tt;
          distinct = h.distinct;
          distinct_store = subst Distinct (sym (ids-set_unresolved alerts c.store).0) s.0;
        })

  -- Whatever the connection reads, and whatever lists without a repeated id the top bar writes to the store in
  -- between, neither the hook's list nor the store repeats an id, and the two are the same list unless the
  -- store has been written by the top bar since the hook was last drawn; if the store repeated no id when the
  -- hook was mounted.
  pub mounted-IsSynced :
      (store : AlertState) (es : List Event)
      → HasDistinctIds store.unresolved
      → All IsSound es
      → IsSynced (is_behind false es) (run parse es (mount store))
  unfolding mount
  mounted-IsSynced store es h s =
      run_from-IsSynced es false (mount store) s
        (record { same = refl; distinct = h; distinct_store = h })
