-- ===== src/Stream/Tests.antt =====
-- Runs of the read loop, and the theorems on it at concrete streams.
use dtsys.Prelude.{◌≡◌, refl, List, [], ◌∷◌, All, arith}
use dtsys.Stream.{Text, newline, split_blank, pop_last, feed_all}
use dtsys.Stream.Feed.{join}
use dtsys.Stream.Frames.{Frame, event, keep_alive, encode, payloads, frames_delivered}
use dtsys.Stream.Lossless.{rejoin, HasNoBlank, feed_all_lossless}

abbrev frames : List Frame
frames = event (b'{' ∷ b'}' ∷ []) ∷ keep_alive ∷ event (b'1' ∷ []) ∷ []

-- The first cut stands inside a separator.
abbrev pieces : List Text
pieces =
    (b'd' ∷ b'a' ∷ b't' ∷ b'a' ∷ b':' ∷ b' ' ∷ b'{' ∷ b'}' ∷ newline ∷ [])
    ∷ (newline ∷ encode (keep_alive ∷ []))
    ∷ encode (event (b'1' ∷ []) ∷ [])
    ∷ []

two_chunks :
    feed_all [] ((b'a' ∷ newline ∷ []) ∷ (newline ∷ b'b' ∷ []) ∷ []) ≡ ((b'a' ∷ []) ∷ [], b'b' ∷ [])
unfolding feed_all split_blank pop_last
two_chunks = refl

frames_delivered_example :
    (payloads (feed_all [] pieces).0 ≡ (b'{' ∷ b'}' ∷ []) ∷ (b'1' ∷ []) ∷ [])
    × ((feed_all [] pieces).1 ≡ [])
frames_delivered_example = frames_delivered frames pieces (omega arith) refl

feed_all_lossless_example :
    let (chunks, buffer) = feed_all [] pieces in
    (rejoin chunks buffer ≡ join pieces) × All HasNoBlank chunks × HasNoBlank buffer
feed_all_lossless_example = feed_all_lossless pieces
