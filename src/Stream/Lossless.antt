-- ===== src/Stream/Lossless.antt =====
-- The chunks that the read loop finishes and the buffer that it keeps, against the text that came.
use dtsys.Prelude.{
  ℕ, ◌≡◌, refl, ap, ◌∙◌, ◌≢◌, inl, inr, ◌&&◌, List, [], ◌∷◌, ◌++◌, arith, ◌==◌, All, Bool-cases,
}
use dtsys.Stream.{Text, newline, cons_head, split_blank, pop_last, feed, feed_all}
use dtsys.Stream.Chunks.{split_blank-ne-nil, pop_last-cons}
use dtsys.Stream.Feed.{join, feed_all_one_piece}

-- Each chunk with the separator behind it, then the buffer.
abbrev pub rejoin : List Text → Text → Text
rejoin [] buffer = buffer
rejoin (c ∷ cs) buffer = c ++ (newline ∷ newline ∷ rejoin cs buffer)

-- No two newlines stand side by side.
abbrev pub HasNoBlank : Text → Type 0
HasNoBlank [] = Unit
HasNoBlank (c ∷ []) = Unit
HasNoBlank (c ∷ d ∷ s) = ((c ≡ newline) → d ≢ newline) × HasNoBlank (d ∷ s)

abbrev rejoin_all : List Text → Text
rejoin_all xs = rejoin (pop_last xs).0 (pop_last xs).1

rejoin_all-cons_head :
    (c : ℕ) (xs : List Text) → xs ≢ [] → rejoin_all (cons_head c xs) ≡ c ∷ rejoin_all xs
unfolding pop_last
rejoin_all-cons_head c [] h = absurd (h refl)
rejoin_all-cons_head c (x ∷ []) h = refl
rejoin_all-cons_head c (x ∷ y ∷ ys) h = refl

rejoin_all-split_blank : (t : Text) → rejoin_all (split_blank t) ≡ t
unfolding split_blank
rejoin_all-split_blank [] = unfold pop_last in refl
rejoin_all-split_blank (c ∷ []) = unfold pop_last in refl
rejoin_all-split_blank (c ∷ d ∷ s) = elim (Bool-cases (c == newline && d == newline)) [
  | inl cut ↦ rw cut (
      rw (pop_last-cons [] (split_blank s) (split_blank-ne-nil s))
        (ground (arith, rejoin_all-split_blank s)))
  | inr go ↦ rw go (
      rejoin_all-cons_head c (split_blank (d ∷ s)) (split_blank-ne-nil (d ∷ s))
      ∙ ap (λ r. c ∷ r) (rejoin_all-split_blank (d ∷ s)))
]

-- The first chunk of a text is empty or starts as the text does.
abbrev StartsAs : ℕ → List Text → Type 0
StartsAs d [] = Unit
StartsAs d ([] ∷ xs) = Unit
StartsAs d ((e ∷ x) ∷ xs) = e ≡ d

StartsAs-cons_head : (d : ℕ) (xs : List Text) → StartsAs d (cons_head d xs)
StartsAs-cons_head d [] = refl
StartsAs-cons_head d (x ∷ xs) = refl

split_blank-StartsAs : (d : ℕ) (s : Text) → StartsAs d (split_blank (d ∷ s))
unfolding split_blank
split_blank-StartsAs d [] = refl
split_blank-StartsAs d (e ∷ s) = elim (Bool-cases (d == newline && e == newline)) [
  | inl cut ↦ rw cut tt
  | inr go ↦ rw go (StartsAs-cons_head d (split_blank (e ∷ s)))
]

cons_head-HasNoBlank :
    (c d : ℕ) (xs : List Text)
    → ((c ≡ newline) → d ≢ newline)
    → StartsAs d xs
    → All HasNoBlank xs
    → All HasNoBlank (cons_head c xs)
cons_head-HasNoBlank c d [] h k a = (tt, tt)
cons_head-HasNoBlank c d ([] ∷ xs) h k a = (tt, a.1)
cons_head-HasNoBlank c d ((e ∷ x) ∷ xs) h k a = (((λ p. rw k (h p)), a.0), a.1)

split_blank-HasNoBlank : (t : Text) → All HasNoBlank (split_blank t)
unfolding split_blank
split_blank-HasNoBlank [] = (tt, tt)
split_blank-HasNoBlank (c ∷ []) = (tt, tt)
split_blank-HasNoBlank (c ∷ d ∷ s) = elim (Bool-cases (c == newline && d == newline)) [
  | inl cut ↦ rw cut (tt, split_blank-HasNoBlank s)
  | inr go ↦ rw go (
      cons_head-HasNoBlank c d (split_blank (d ∷ s)) (ground arith) (split_blank-StartsAs d s)
        (split_blank-HasNoBlank (d ∷ s)))
]

pop_last-All {κ} :
    (P : Text → Type κ) (xs : List Text)
    → xs ≢ []
    → All P xs
    → All P (pop_last xs).0 × P (pop_last xs).1
unfolding pop_last
pop_last-All P [] h a = absurd (h refl)
pop_last-All P (x ∷ []) h a = (tt, a.0)
pop_last-All P (x ∷ y ∷ ys) h (p, a) =
    let (b, l) = pop_last-All P (y ∷ ys) (λ e. cc) a in ((p, b), l)

-- The read loop loses and adds nothing: its chunks, each with a blank line behind it, and then its
-- buffer make up the text that came, and neither a chunk nor the buffer holds a blank line.
pub feed_all_lossless :
    (pieces : List Text)
    → let (chunks, buffer) = feed_all [] pieces in
      (rejoin chunks buffer ≡ join pieces) × All HasNoBlank chunks × HasNoBlank buffer
unfolding feed
feed_all_lossless pieces = rw (feed_all_one_piece pieces) (
    let (chunks, buffer) =
      pop_last-All HasNoBlank (split_blank (join pieces)) (split_blank-ne-nil (join pieces))
        (split_blank-HasNoBlank (join pieces)) in
    (rejoin_all-split_blank (join pieces), chunks, buffer))
