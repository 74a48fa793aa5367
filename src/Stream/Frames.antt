-- ===== src/Stream/Frames.antt =====
-- Frames: what the stream endpoints of the server write (server/app/api/v1/event_stream.py and
-- server/app/api/v1/activity_stream.py), and what the read loops make of it.
use dtsys.Prelude.{
  ◌≡◌, refl, ap, ◌∙◌, ◌≢◌, List, [], ◌∷◌, ◌++◌, arith, none, some, All, All-append, map,
}
use dtsys.Prelude.Text.{split_at}
use dtsys.Stream.{Text, newline, data_prefix, split_blank, pop_last, payload, feed, feed_all}
use dtsys.Stream.Chunks.{split_blank-ne-nil, pop_last-cons}
use dtsys.Stream.Feed.{join, feed_all_one_piece}

pub data Frame : Type 0 where
  event : Text → Frame
  keep_alive : Frame

-- ": keep-alive"
abbrev pub comment : Text
comment = b':' ∷ b' ' ∷ b'k' ∷ b'e' ∷ b'e' ∷ b'p' ∷ b'-' ∷ b'a' ∷ b'l' ∷ b'i' ∷ b'v' ∷ b'e' ∷ []

abbrev pub body : Frame → Text
body (event p) = data_prefix ++ p
body keep_alive = comment

-- `yield f"data: {json.dumps(payload)}\n\n"`, and `yield ": keep-alive\n\n"`.
abbrev pub encode : List Frame → Text
encode [] = []
encode (f ∷ fs) = body f ++ (newline ∷ newline ∷ encode fs)

abbrev pub events : List Frame → List Text
events [] = []
events (event p ∷ fs) = p ∷ events fs
events (keep_alive ∷ fs) = events fs

-- JSON text as `json.dumps` writes it: on one line.
abbrev pub IsOneLine : Text → Type 0
IsOneLine t = All (λ c. c ≢ newline) t

abbrev pub IsSound : Frame → Type 0
IsSound (event p) = IsOneLine p
IsSound keep_alive = Unit {0}

-- The texts that the chunks hand to `JSON.parse`, in order.
pub payloads : List Text → List Text
payloads [] = []
payloads (c ∷ cs) = elim (payload c) [ none ↦ payloads cs | some p ↦ p ∷ payloads cs ]

split_blank_body :
    (b rest : Text)
    → IsOneLine b
    → split_blank (b ++ (newline ∷ newline ∷ rest)) ≡ b ∷ split_blank rest
unfolding split_blank
split_blank_body [] rest h = refl
split_blank_body (c ∷ []) rest h = ground (arith, h.0)
split_blank_body (c ∷ d ∷ b) rest h = ground (arith, h.0, split_blank_body (d ∷ b) rest h.1)

split_at_one : (b : Text) → IsOneLine b → split_at newline b ≡ b ∷ []
unfolding split_at
split_at_one [] h = refl
split_at_one (c ∷ b) h = ground (arith, split_at_one b h.1)

body-IsOneLine : (f : Frame) → IsSound f → IsOneLine (body f)
body-IsOneLine (event p) h = All-append (λ c. c ≢ newline) data_prefix p (omega arith) h
body-IsOneLine keep_alive h = omega arith

feed-encode : (fs : List Frame) → All IsSound fs → feed [] (encode fs) ≡ (map body fs, [])
unfolding feed split_blank pop_last
feed-encode [] h = refl
feed-encode (f ∷ fs) (h, hs) = rw (split_blank_body (body f) (encode fs) (body-IsOneLine f h)) (
    rw (pop_last-cons (body f) (split_blank (encode fs)) (split_blank-ne-nil (encode fs)))
      (ap (λ r. (body f ∷ r.0, r.1)) (feed-encode fs hs)))

payload-body_event : (p : Text) → IsOneLine p → payload (body (event p)) ≡ some p
unfolding payload
payload-body_event p h = rw (split_at_one (body (event p)) (body-IsOneLine (event p) h), payload)

payload-body_keep_alive : payload comment ≡ none
unfolding payload split_at
payload-body_keep_alive = refl

payloads-map-body : (fs : List Frame) → All IsSound fs → payloads (map body fs) ≡ events fs
unfolding payloads
payloads-map-body [] h = refl
payloads-map-body (event p ∷ fs) (h, hs) =
    rw (payload-body_event p h, payloads) (ap (λ r. p ∷ r) (payloads-map-body fs hs))
payloads-map-body (keep_alive ∷ fs) (h, hs) =
    rw (payload-body_keep_alive, payloads) (payloads-map-body fs hs)

-- Whatever pieces the frames that the server writes arrive in, the read loop hands exactly the
-- payloads of the event frames to `JSON.parse`, in order, and keeps an empty buffer, if each
-- payload is one line.
pub frames_delivered :
    (fs : List Frame) (pieces : List Text)
    → All IsSound fs
    → join pieces ≡ encode fs
    → (payloads (feed_all [] pieces).0 ≡ events fs) × ((feed_all [] pieces).1 ≡ [])
frames_delivered fs pieces h e =
    let all = feed_all_one_piece pieces ∙ (ap (feed []) e ∙ feed-encode fs h) in
    (rw all (payloads-map-body fs h), ap (λ r. r.1) all)
