-- ===== src/Activity/Window.antt =====
-- The window of events that the overview page shows.
use dtsys.Prelude.{
  ℕ, zero, suc, ◌+◌, ◌-◌, ◌≤◌, ◌≡◌, refl, sym, ap, ◌∙◌, true, false, List, [], ◌∷◌, ◌++◌,
  append-nil, append_assoc, Option, none, some, arith, length, length-drop, length-append, drop,
}
use dtsys.Stream.{Text, feed, payload}
use dtsys.Activity.{
  Phase, requesting, reading, returned, waiting, Answer, refused, body, finished, elapsed, failed,
  piece, last_of, Consumer, add_event, read_chunk, read_chunks, go_on, caught, on_piece, settle,
  Happening, settled, cleaned_up, happen, consume, fresh,
}

module _ {E : Type 0} where
  drop-nil : (i : ℕ) → drop {A = E} i [] ≡ []
  drop-nil zero = refl
  drop-nil (suc i) = refl

  drop-drop : (i j : ℕ) (xs : List E) → drop j (drop i xs) ≡ drop (i + j) xs
  drop-drop zero j xs = ap (λ k. drop k xs) (omega arith)
  drop-drop (suc i) j [] = drop-nil j ∙ sym (drop-nil (suc i + j))
  drop-drop (suc i) j (x ∷ xs) =
      let same : suc (i + j) ≡ suc i + j = omega arith in
      drop-drop i j xs ∙ ap (λ k. drop k (x ∷ xs)) same

  drop-append : (i : ℕ) (xs ys : List E) → i ≤ length xs → drop i (xs ++ ys) ≡ drop i xs ++ ys
  drop-append zero xs ys l = refl
  drop-append (suc i) [] ys l = absurd (omega arith)
  drop-append (suc i) (x ∷ xs) ys l = drop-append i xs ys (omega arith)

  last_of-drop : (n i : ℕ) (xs : List E) → i ≤ length xs - n → last_of n (drop i xs) ≡ last_of n xs
  last_of-drop n i xs l =
      drop-drop i (length (drop i xs) - n) xs
      ∙ ap (λ k. drop k xs) (omega (arith, length-drop i xs))

  -- The window of a window with more behind it.
  last_of-append : (n : ℕ) (xs ys : List E) → last_of n (last_of n xs ++ ys) ≡ last_of n (xs ++ ys)
  last_of-append n xs ys =
      ap (last_of n) (sym (drop-append (length xs - n) xs ys (omega arith)))
      ∙ last_of-drop n (length xs - n) (xs ++ ys) (omega (arith, length-append xs ys))

module _ {E : Type 0} (parse : Text → Option E) where
  abbrev option_events : Option E → List E
  option_events none = []
  option_events (some e) = e ∷ []

  -- The events of a chunk and of a list of them.
  chunk_events : Option Text → List E
  chunk_events none = []
  chunk_events (some text) = option_events (parse text)

  abbrev all_events : List Text → List E
  all_events [] = []
  all_events (chunk ∷ chunks) = chunk_events (payload chunk) ++ all_events chunks

  -- What arrives at a step: the events of the chunks that a piece finishes, while one is read.
  abbrev arrived : Happening → Phase → Text → List E
  arrived (settled (piece text)) reading buffer = all_events (feed buffer text).0
  arrived _ _ buffer = []

  -- All events of a run, in the order of their arrival.
  pub arrivals : List Happening → Consumer E → List E
  arrivals [] c = []
  arrivals (h ∷ hs) c = arrived h c.phase c.buffer ++ arrivals hs (happen parse h c)

  add_event-last_of :
      (o : Option E) (xs : List E)
      → add_event parse o (last_of 20 xs) ≡ last_of 20 (xs ++ option_events o)
  unfolding add_event
  add_event-last_of none xs = ap (last_of 20) (sym (append-nil xs))
  add_event-last_of (some e) xs = last_of-append 20 xs (e ∷ [])

  read_chunk-last_of :
      (r : Option Text) (xs : List E)
      → read_chunk parse r (last_of 20 xs) ≡ last_of 20 (xs ++ chunk_events r)
  unfolding read_chunk chunk_events
  read_chunk-last_of none xs = ap (last_of 20) (sym (append-nil xs))
  read_chunk-last_of (some text) xs = add_event-last_of (parse text) xs

  read_chunks-last_of :
      (chunks : List Text) (xs : List E)
      → read_chunks parse chunks (last_of 20 xs) ≡ last_of 20 (xs ++ all_events chunks)
  unfolding read_chunks
  read_chunks-last_of [] xs = ap (last_of 20) (sym (append-nil xs))
  read_chunks-last_of (chunk ∷ chunks) xs =
      ap (read_chunks parse chunks) (read_chunk-last_of (payload chunk) xs)
      ∙ (read_chunks-last_of chunks (xs ++ chunk_events (payload chunk))
          ∙ ap (last_of 20) (append_assoc xs (chunk_events (payload chunk)) (all_events chunks)))

  go_on-events : (next : Phase) (c : Consumer E) → (go_on parse next c).events ≡ c.events
  unfolding go_on
  go_on-events next c = ground arith

  -- Nothing arrives where no piece is read.
  quiet : (ys xs : List E) → ys ≡ last_of 20 xs → ys ≡ last_of 20 (xs ++ [])
  quiet ys xs e = e ∙ ap (last_of 20) (sym (append-nil xs))

  settle-last_of :
      (p : Phase) (a : Answer) (c : Consumer E) (xs : List E)
      → c.events ≡ last_of 20 xs
      → (settle parse p a c).events ≡ last_of 20 (xs ++ arrived (settled a) p c.buffer)
  unfolding settle caught on_piece
  settle-last_of reading finished c xs e = go_on-events requesting c ∙ quiet c.events xs e
  settle-last_of reading (failed aborted) c xs e =
      go_on-events (waiting aborted) c ∙ quiet c.events xs e
  settle-last_of requesting refused c xs e = go_on-events (waiting false) c ∙ quiet c.events xs e
  settle-last_of requesting (failed aborted) c xs e =
      go_on-events (waiting aborted) c ∙ quiet c.events xs e
  settle-last_of (waiting false) elapsed c xs e = go_on-events requesting c ∙ quiet c.events xs e
  settle-last_of requesting body c xs e =
      go_on-events reading (record c { buffer = [] }) ∙ quiet c.events xs e
  settle-last_of (waiting true) elapsed c xs e = quiet c.events xs e
  settle-last_of reading (piece text) c xs e =
      let (chunks, rest) = feed c.buffer text in
      let d : Consumer E = record c { events = read_chunks parse chunks c.events; buffer = rest } in
      go_on-events reading d ∙ (ap (read_chunks parse chunks) e ∙ read_chunks-last_of chunks xs)
  settle-last_of reading refused c xs e = quiet c.events xs e
  settle-last_of reading body c xs e = quiet c.events xs e
  settle-last_of reading elapsed c xs e = quiet c.events xs e
  settle-last_of requesting (piece text) c xs e = quiet c.events xs e
  settle-last_of requesting finished c xs e = quiet c.events xs e
  settle-last_of requesting elapsed c xs e = quiet c.events xs e
  settle-last_of returned refused c xs e = quiet c.events xs e
  settle-last_of returned body c xs e = quiet c.events xs e
  settle-last_of returned finished c xs e = quiet c.events xs e
  settle-last_of returned elapsed c xs e = quiet c.events xs e
  settle-last_of returned (failed aborted) c xs e = quiet c.events xs e
  settle-last_of returned (piece text) c xs e = quiet c.events xs e
  settle-last_of (waiting true) refused c xs e = quiet c.events xs e
  settle-last_of (waiting true) body c xs e = quiet c.events xs e
  settle-last_of (waiting true) finished c xs e = quiet c.events xs e
  settle-last_of (waiting true) (failed aborted) c xs e = quiet c.events xs e
  settle-last_of (waiting true) (piece text) c xs e = quiet c.events xs e
  settle-last_of (waiting false) refused c xs e = quiet c.events xs e
  settle-last_of (waiting false) body c xs e = quiet c.events xs e
  settle-last_of (waiting false) finished c xs e = quiet c.events xs e
  settle-last_of (waiting false) (failed aborted) c xs e = quiet c.events xs e
  settle-last_of (waiting false) (piece text) c xs e = quiet c.events xs e

  happen-last_of :
      (h : Happening) (c : Consumer E) (xs : List E)
      → c.events ≡ last_of 20 xs
      → (happen parse h c).events ≡ last_of 20 (xs ++ arrived h c.phase c.buffer)
  unfolding happen
  happen-last_of (settled a) c xs e = settle-last_of c.phase a c xs e
  happen-last_of cleaned_up c xs e = quiet c.events xs e

  consume-last_of :
      (hs : List Happening) (c : Consumer E) (xs : List E)
      → c.events ≡ last_of 20 xs
      → (consume parse hs c).events ≡ last_of 20 (xs ++ arrivals hs c)
  unfolding consume arrivals
  consume-last_of [] c xs e = e ∙ ap (last_of 20) (sym (append-nil xs))
  consume-last_of (h ∷ hs) c xs e =
      consume-last_of hs (happen parse h c) (xs ++ arrived h c.phase c.buffer)
        (happen-last_of h c xs e)
      ∙ ap (last_of 20)
          (append_assoc xs (arrived h c.phase c.buffer) (arrivals hs (happen parse h c)))

  -- Whatever happens, pieces, ends, errors and the cleanup in any order: the window holds the last
  -- twenty of the events that arrived, each once and in their order.
  pub consume_window :
      (hs : List Happening) → (consume parse hs fresh).events ≡ last_of 20 (arrivals hs fresh)
  consume_window hs = consume-last_of hs fresh [] refl
