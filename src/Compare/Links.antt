-- ===== src/Compare/Links.antt =====
-- The link to the comparison, as the page reads it.
use dtsys.Prelude.{
  Bool, false, ◌++◌, ◌==◌, ◌&&◌, ◌||◌, leb, get_or, ℕ, zero, suc, ◌≤◌, ◌≡◌, refl, ap, ◌∙◌, true,
  List, [], ◌∷◌, Option, some, arith, filter, map, take, length, length-take, All,
}
use dtsys.Prelude.Text.{Text, split_at, trim, trim_start, trim_end, is_filled, is_space}
use dtsys.Prelude.Sort.{All-map}
use dtsys.Prelude.Text.Split.{All-join_with, IsFree, join_with, split_at-join_with}
use dtsys.Compare.{compare_prefix, compare_link, parse_ids}

-- Letters, digits, and the signs - . _ ~, which a URL holds as they are.
abbrev pub is_unreserved : ℕ → Bool
is_unreserved c =
    (leb 97 c && leb c 122)
    || ((leb 65 c && leb c 90)
        || ((leb 48 c && leb c 57) || (c == 45 || (c == 46 || (c == 95 || c == 126)))))

-- A unit of the text of the ids: unreserved, or a comma, which a query holds as it is too.
abbrev pub is_query_unit : ℕ → Bool
is_query_unit c = c == b',' || is_unreserved c

abbrev pub IsQueryText : Text → Type 0
IsQueryText t = All (λ c. is_query_unit c ≡ true) t

-- An id of units that need no escape, and not the empty text.
pub record IsPlainId (id : Text) : Type 0 where
  pub unreserved : All (λ c. is_unreserved c ≡ true) id
  pub is_text : is_filled id ≡ true

no_comma : (id : Text) → All (λ c. is_unreserved c ≡ true) id → IsFree b',' id
no_comma [] h = tt
no_comma (c ∷ id) h = (ground (arith, h.0), no_comma id h.1)

no_space : (c : ℕ) → is_unreserved c ≡ true → is_space c ≡ false
no_space c h = ground (arith, h)

trim_end-unreserved : (id : Text) → All (λ c. is_unreserved c ≡ true) id → trim_end id ≡ id
unfolding trim_end
trim_end-unreserved [] h = refl
trim_end-unreserved (c ∷ []) h = rw (no_space c h.0) refl
trim_end-unreserved (c ∷ d ∷ id) h = rw (trim_end-unreserved (d ∷ id) h.1) refl

trim_start-unreserved : (id : Text) → All (λ c. is_unreserved c ≡ true) id → trim_start id ≡ id
unfolding trim_start
trim_start-unreserved [] h = refl
trim_start-unreserved (c ∷ id) h = rw (no_space c h.0) refl

trim-unreserved : (id : Text) → All (λ c. is_unreserved c ≡ true) id → trim id ≡ id
unfolding trim
trim-unreserved id h = rw (trim_start-unreserved id h) (trim_end-unreserved id h)

query_unit : (c : ℕ) → is_unreserved c ≡ true → is_query_unit c ≡ true
query_unit c h = ground (arith, h)

All-take {κ} : {A : Type 0} (P : A → Type κ) (n : ℕ) (xs : List A) → All P xs → All P (take n xs)
All-take P zero xs h = tt
All-take P (suc n) [] h = tt
All-take P (suc n) (x ∷ xs) h = (h.0, All-take P n xs h.1)

take_again : (n : ℕ) (xs : List Text) → take n (take n xs) ≡ take n xs
take_again zero xs = refl
take_again (suc n) [] = refl
take_again (suc n) (x ∷ xs) = ap (λ r. x ∷ r) (take_again n xs)

plain_kept : (ids : List Text) → All IsPlainId ids → filter is_filled (map trim ids) ≡ ids
plain_kept [] h = refl
plain_kept (id ∷ ids) h =
    rw (trim-unreserved id h.0.unreserved, h.0.is_text, plain_kept ids h.1) refl

read_joined :
    (ids : List Text)
    → All IsPlainId ids
    → filter is_filled (map trim (split_at b',' (join_with b',' ids))) ≡ ids
unfolding join_with split_at trim trim_end trim_start
read_joined [] h = refl
read_joined (id ∷ ids) h =
    ap (λ parts. filter is_filled (map trim parts))
      (split_at-join_with b',' id ids
        (All-map (λ i (p : IsPlainId i). no_comma i p.unreserved) (id ∷ ids) h))
    ∙ plain_kept (id ∷ ids) h

joined-IsQueryText : (ids : List Text) → All IsPlainId ids → IsQueryText (join_with b',' ids)
joined-IsQueryText ids h =
    All-join_with (λ c. is_query_unit c ≡ true) b',' ids refl
      (All-map (λ i (p : IsPlainId i). All-map query_unit i p.unreserved) ids h)

-- Where navigating to the link of a text that needs no escape gives that text to `searchParams.get('ids')`: the
-- page that the Compare button leads to compares the first four of the selected devices, in their order, if
-- their ids are made of letters, digits and the signs - . _ ~; and from no link does it compare more than four.
pub parse_ids-compare_link :
    (ids_at : Text → Option Text)
    (law : (t : Text) → IsQueryText t → ids_at (compare_prefix ++ t) ≡ some t)
    (selected_ids : List Text) (link : Text)
    → All IsPlainId selected_ids
    → (parse_ids (ids_at (compare_link selected_ids)) ≡ take 4 selected_ids)
      × (length (parse_ids (ids_at link)) ≤ 4)
unfolding parse_ids compare_link
parse_ids-compare_link ids_at law selected_ids link h =
    let first = take 4 selected_ids in
    let plain = All-take IsPlainId 4 selected_ids h in
    (
      ap (λ ids. take 4 (filter is_filled (map trim (split_at b',' (get_or ids [])))))
            (law (join_with b',' first) (joined-IsQueryText first plain))
          ∙ (ap (take 4) (read_joined first plain) ∙ take_again 4 selected_ids),
      omega (
        arith,
        length-take 4 (filter is_filled (map trim (split_at b',' (get_or (ids_at link) [])))),
      ),
    )
