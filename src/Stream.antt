-- ===== src/Stream.antt =====
-- The text side of the event streams: the read loops of frontend/src/hooks/useSSE.ts and
-- frontend/src/hooks/useActivityStream.ts. A text is the list of its UTF-16 code units. The pieces
-- that a loop reads are those that the stream's decoder returns.
pub mod Chunks
pub mod Feed
pub mod Frames
pub mod Lossless
mod Tests
use dtsys.Prelude.{
  ℕ, ◌+◌, Bool, true, false, ◌&&◌, List, [], ◌∷◌, ◌++◌, Option, none, some, ◌==◌, if◌then◌else◌,
  drop,
}
use dtsys.Prelude.Text.{split_at, is_prefix}
pub use dtsys.Prelude.Text.{Text, cons_head}

abbrev pub newline : ℕ
newline = 10

-- `buffer.split('\n\n')`: scans from the left, and a separator's characters are used once.
unfoldable pub split_blank : Text → List Text
split_blank [] = [] ∷ []
split_blank (c ∷ []) = (c ∷ []) ∷ []
split_blank (c ∷ d ∷ s) =
    let cut = [] ∷ split_blank s in
    let longer = cons_head c (split_blank (d ∷ s)) in
    if c == newline && d == newline then cut else longer

-- `chunks.pop() ?? ''`: what is left of the chunks, and the new buffer.
unfoldable pub pop_last : List Text → List Text × Text
pop_last [] = ([], [])
pop_last (x ∷ []) = ([], x)
pop_last (x ∷ y ∷ ys) = let (init, last) = pop_last (y ∷ ys) in (x ∷ init, last)

-- "data: "
abbrev data_prefix : Text
data_prefix = b'd' ∷ b'a' ∷ b't' ∷ b'a' ∷ b':' ∷ b' ' ∷ []

pub find_line : List Text → Option Text
find_line [] = none
find_line (l ∷ ls) = if is_prefix data_prefix l then some l else find_line ls

-- The text that a chunk hands to `JSON.parse`, `none` where the loop goes on without parsing.
unfoldable pub payload : Text → Option Text
unfolding find_line split_at
payload chunk = elim (find_line (split_at newline chunk)) [
  | none ↦ none
  | some line ↦ some (drop 6 line)
]

-- One turn of the inner loop: the finished chunks, and the buffer that is kept.
unfoldable pub feed : Text → Text → List Text × Text
unfolding split_blank pop_last
feed buffer piece = pop_last (split_blank (buffer ++ piece))

-- The whole read loop, over the pieces in the order of their arrival.
unfoldable pub feed_all : Text → List Text → List Text × Text
unfolding feed
feed_all buffer [] = ([], buffer)
feed_all buffer (piece ∷ pieces) =
    let (chunks, buffer') = feed buffer piece in
    let (later, last) = feed_all buffer' pieces in (chunks ++ later, last)
