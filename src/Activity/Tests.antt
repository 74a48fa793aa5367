-- ===== src/Activity/Tests.antt =====
-- The theorems about the activity feed at concrete inputs.
use dtsys.Prelude.{◌≡◌, refl, List, [], ◌∷◌, Option, none, some}
use dtsys.Prelude.Text.{split_at}
use dtsys.Stream.{Text, feed, payload}
use dtsys.Activity.{
  body, refused, elapsed, piece, last_of, Happening, settled, cleaned_up, consume, happen, settle,
  caught, go_on, on_piece, read_chunks, read_chunk, add_event, fresh,
}
use dtsys.Activity.Window.{arrivals, consume_window}
use dtsys.Activity.Cancel.{IsOver, got_body, cleanup_ends}

abbrev parse : Text → Option Text
parse [] = none
parse (c ∷ s) = some (c ∷ s)

-- "data: 1", a blank line, and half of the next frame.
abbrev first_piece : Text
first_piece = 100 ∷ 97 ∷ 116 ∷ 97 ∷ 58 ∷ 32 ∷ 49 ∷ 10 ∷ 10 ∷ 100 ∷ []

abbrev busy : List Happening
busy = settled refused ∷ settled elapsed ∷ settled body ∷ settled (piece first_piece) ∷ []

consume_window_example : (consume parse busy fresh).events ≡ last_of 20 (arrivals parse busy fresh)
consume_window_example = consume_window parse busy

one_event : (consume parse busy fresh).events ≡ (49 ∷ []) ∷ []
unfolding consume feed payload happen settle caught go_on on_piece read_chunks read_chunk split_at
    add_event
one_event = refl

cleanup_ends_example :
    IsOver (consume parse (cleaned_up ∷ settled body ∷ settled (piece first_piece) ∷ []) fresh)
cleanup_ends_example = cleanup_ends parse fresh body (settled (piece first_piece) ∷ []) got_body
