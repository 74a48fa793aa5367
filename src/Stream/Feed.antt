-- ===== src/Stream/Feed.antt =====
-- The read loop, and where the network cuts the stream.
use mathlib.Core.List.{append_cancel_left}
use dtsys.Prelude.{◌≡◌, refl, sym, ap, ◌∙◌, ◌≢◌, List, [], ◌∷◌, ◌++◌, append-nil, append_assoc}
use dtsys.Stream.{Text, split_blank, pop_last, feed, feed_all}
use dtsys.Stream.Chunks.{split_blank-ne-nil, split_blank-append, pop_last-cons}

-- What `pop` takes off is the last element.
pop_last-snoc : (xs : List Text) → xs ≢ [] → (pop_last xs).0 ++ (pop_last xs).1 ∷ [] ≡ xs
unfolding pop_last
pop_last-snoc [] h = absurd (h refl)
pop_last-snoc (x ∷ []) h = refl
pop_last-snoc (x ∷ y ∷ ys) h = ap (λ r. x ∷ r) (pop_last-snoc (y ∷ ys) (λ e. cc))

append-ne-nil : (xs ys : List Text) → ys ≢ [] → xs ++ ys ≢ []
append-ne-nil [] ys h = h
append-ne-nil (x ∷ xs) ys h = λ e. cc

pop_last-append :
    (xs ys : List Text) → ys ≢ [] → pop_last (xs ++ ys) ≡ (xs ++ (pop_last ys).0, (pop_last ys).1)
pop_last-append [] ys h = refl
pop_last-append (x ∷ xs) ys h =
    rw (pop_last-cons x (xs ++ ys) (append-ne-nil xs ys h)) (rw (pop_last-append xs ys h) refl)

-- The buffer that is kept holds no blank line.
last_uncut :
    (t : Text) → split_blank (pop_last (split_blank t)).1 ≡ (pop_last (split_blank t)).1 ∷ []
last_uncut t =
    let again = split_blank-append t [] in
    let whole = pop_last-snoc (split_blank t) (split_blank-ne-nil t) in
    sym (
      append_cancel_left (pop_last (split_blank t)).0 _ _
        (whole ∙ (rw (append-nil t, append-nil (pop_last (split_blank t)).1) at again)))

-- The text that the pieces are cut from.
abbrev pub join : List Text → Text
join [] = []
join (p ∷ ps) = p ++ join ps

pub feed_all-join :
    (b : Text) (pieces : List Text)
    → split_blank b ≡ b ∷ []
    → feed_all b pieces ≡ feed b (join pieces)
unfolding feed_all feed
feed_all-join b [] h = rw (append-nil b, h) (unfold pop_last in refl)
feed_all-join b (p ∷ ps) h = rw (feed_all-join (feed b p).1 ps (last_uncut (b ++ p))) (
    rw (← append_assoc b p (join ps), split_blank-append (b ++ p) (join ps))
      (sym (
        pop_last-append (feed b p).0 (split_blank ((feed b p).1 ++ join ps))
          (split_blank-ne-nil ((feed b p).1 ++ join ps)))))

-- However the network cuts a stream into pieces, the read loop finishes the same chunks and keeps
-- the same buffer as if the whole text had come in one piece.
pub feed_all_one_piece : (pieces : List Text) → feed_all [] pieces ≡ feed [] (join pieces)
unfolding split_blank
feed_all_one_piece pieces = feed_all-join [] pieces refl
