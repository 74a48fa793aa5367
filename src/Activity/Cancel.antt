-- ===== src/Activity/Cancel.antt =====
-- The end of `consume` after the cleanup.
use dtsys.Prelude.{◌≡◌, refl, sym, ap, ◌∙◌, Bool, true, false, List, [], ◌∷◌, Option, arith, subst}
use dtsys.Stream.{Text, feed}
use dtsys.Activity.{
  Phase, requesting, reading, returned, waiting, Answer, refused, body, finished, elapsed, failed,
  piece, Consumer, read_chunks, go_on, caught, on_piece, settle, Happening, settled, cleaned_up,
  happen, consume,
}

-- `consume` has returned, and the effect is cleaned up.
pub record IsOver {E : Type 0} (c : Consumer E) : Type 0 where
  pub cancelled : c.cancelled ≡ true
  pub phase : c.phase ≡ returned

-- The answers that a phase can get.
pub data Fits : Phase → Answer → Type 0 where
  got_body : Fits requesting body
  got_no_body : Fits requesting refused
  request_failed : (aborted : Bool) → Fits requesting (failed aborted)
  got_piece : (text : Text) → Fits reading (piece text)
  got_end : Fits reading finished
  read_failed : (aborted : Bool) → Fits reading (failed aborted)
  timer_fired : (aborted : Bool) → Fits (waiting aborted) elapsed

module _ {E : Type 0} (parse : Text → Option E) where
  go_on-IsOver : (next : Phase) (c : Consumer E) → c.cancelled ≡ true → IsOver (go_on parse next c)
  unfolding go_on
  go_on-IsOver next c h = ground arith

  settle-IsOver :
      {p : Phase} {a : Answer} (c : Consumer E)
      → Fits p a
      → c.cancelled ≡ true
      → IsOver (settle parse p a c)
  unfolding settle caught on_piece
  settle-IsOver c got_body h = go_on-IsOver reading (record c { buffer = [] }) h
  settle-IsOver c got_no_body h = go_on-IsOver (waiting false) c h
  settle-IsOver c (request_failed aborted) h = go_on-IsOver (waiting aborted) c h
  settle-IsOver c (got_piece text) h =
      let (chunks, rest) = feed c.buffer text in
      let d : Consumer E = record c { events = read_chunks parse chunks c.events; buffer = rest } in
      go_on-IsOver reading d h
  settle-IsOver c got_end h = go_on-IsOver requesting c h
  settle-IsOver c (read_failed aborted) h = go_on-IsOver (waiting aborted) c h
  settle-IsOver c (timer_fired true) h = record { cancelled = h; phase = refl }
  settle-IsOver c (timer_fired false) h = go_on-IsOver requesting c h

  settle_returned : (a : Answer) (c : Consumer E) → settle parse returned a c ≡ c
  unfolding settle
  settle_returned a c = refl

  consume-IsOver : (hs : List Happening) (c : Consumer E) → IsOver c → IsOver (consume parse hs c)
  unfolding consume happen
  consume-IsOver [] c h = h
  consume-IsOver (settled a ∷ hs) c h =
      let same = ap (λ p. settle parse p a c) h.phase ∙ settle_returned a c in
      consume-IsOver hs (settle parse c.phase a c) (subst IsOver (sym same) h)
  consume-IsOver (cleaned_up ∷ hs) c h =
      consume-IsOver hs (record c { cancelled = true })
        (record { cancelled = refl; phase = h.phase })

  -- Once the effect is cleaned up, the next answer to what `consume` waits for, of whatever kind, ends
  -- it: no further request, read or timer is ever started.
  pub cleanup_ends :
      (c : Consumer E) (a : Answer) (later : List Happening)
      → Fits c.phase a
      → IsOver (consume parse (cleaned_up ∷ settled a ∷ later) c)
  unfolding consume happen
  cleanup_ends c a later f =
      let d : Consumer E = record c { cancelled = true } in
      consume-IsOver later (settle parse c.phase a d) (settle-IsOver d f refl)
