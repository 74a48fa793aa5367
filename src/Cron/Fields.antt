-- ===== src/Cron/Fields.antt =====
-- What the fields of a cron schedule mean (`parseField` of frontend/src/utils/cron.ts), against a
-- description of their syntax.
use dtsys.Prelude.{
  ℕ, suc, ◌+◌, ◌-◌, ◌%◌, ◌≡◌, refl, sym, ap, ◌∙◌, true, false, ◌&&◌, ◌||◌, List, [], ◌∷◌, ◌++◌,
  arith, map, ◌==◌, leb, filter, any, some,
}
use dtsys.Cron.{
  Text, Num, star, comma, dash, slash, text_eq, has, split_at, upto, values, on_step, piece,
  is_every, number_of, ends, parse_part, parse_parts, parse_field, includes, first_of, first_piece,
}
use dtsys.Cron.Syntax.{
  Part, exactly, from_to, in_steps, Field, every_value, every, listed, stands_for, allows,
  IsDecimal, print_part, print_parts, print_field,
}
use dtsys.Prelude.Text.Split.{any→IsFree, split_at-IsFree, split_at-IsFree_append}
use dtsys.Cron.Split.{has-append, includes-append, includes-upto}

starless-text_eq : (s : Text) → has star s ≡ false → text_eq s (star ∷ []) ≡ false
starless-text_eq [] h = refl
starless-text_eq (c ∷ s) h = ground arith

starless-is_every : (s : Text) → has star s ≡ false → is_every s ≡ false
starless-is_every [] h = refl
starless-is_every (c ∷ []) h = refl
starless-is_every (c ∷ d ∷ s) h = ground arith

filter-true : (xs : List ℕ) → filter (λ x. true) xs ≡ xs
filter-true [] = refl
filter-true (x ∷ xs) = ap (λ r. x ∷ r) (filter-true xs)

-- The values of a range, and those of them on a step.
includes-values :
    (v a b : ℕ) → includes v (map (λ n. some n) (values (some a) (some b))) ≡ (leb a v && leb v b)
unfolding values
includes-values v a b =
    rw (sym (filter-true (upto a (b + 1 - a))))
      (includes-upto v (λ k. true) a (b + 1 - a) ∙ ground arith)

includes-values-on_step :
    (v a b n : ℕ)
    → includes v (map (λ k. some k) (filter (on_step (some (suc n)) a) (values (some a) (some b))))
      ≡ (leb a v && (leb v b && (v - a) % suc n == 0))
unfolding values on_step
includes-values-on_step v a b n =
    ground (arith, includes-upto v (λ k. (k - a) % suc n == 0) a (b + 1 - a))

-- Two texts around a mark.
has_mark : (mark : ℕ) (x y : Text) → has mark (x ++ mark ∷ y) ≡ true
has_mark mark x y = ground (arith, has-append mark x (mark ∷ y))

split_two :
    (mark : ℕ) (x y : Text)
    → has mark x ≡ false
    → has mark y ≡ false
    → split_at mark (x ++ mark ∷ y) ≡ x ∷ y ∷ []
split_two mark x y h k =
    split_at-IsFree_append mark x y (any→IsFree mark x h)
    ∙ ap (λ r. x ∷ r) (split_at-IsFree mark y (any→IsFree mark y k))

without_mark :
    (mark other : ℕ) (x y : Text)
    → (other == mark) ≡ false
    → has mark x ≡ false
    → has mark y ≡ false
    → has mark (x ++ other ∷ y) ≡ false
without_mark mark other x y n h k = ground (arith, has-append mark x (other ∷ y))

module _ (number : Text → Num) (low high : ℕ) where
  parse_part_plain :
      (part : Text) {n : ℕ}
      → has slash part ≡ false
      → has dash part ≡ false
      → number part ≡ some n
      → parse_part number low high part ≡ some n ∷ []
  unfolding parse_part
  parse_part_plain part s d e = rw s (rw d (rw e refl))

  parse_part_range :
      (x y : Text) {a b : ℕ}
      → has slash (x ++ dash ∷ y) ≡ false
      → has dash x ≡ false
      → has dash y ≡ false
      → number x ≡ some a
      → number y ≡ some b
      → parse_part number low high (x ++ dash ∷ y) ≡ map (λ v. some v) (values (some a) (some b))
  unfolding parse_part
  parse_part_range x y s d d' e e' = rw s (
      rw (has_mark dash x y) (
        ap
          (λ ps.
            map (λ v. some v)
              (values (number_of number (piece ps 0)) (number_of number (piece ps 1))))
          (split_two dash x y d d')
        ∙ unfold piece number_of in rw e (rw e' refl)))

  ends_range :
      (x y : Text) {a b : ℕ}
      → has star (x ++ dash ∷ y) ≡ false
      → has dash x ≡ false
      → has dash y ≡ false
      → number x ≡ some a
      → number y ≡ some b
      → ends number (x ++ dash ∷ y) low high ≡ (some a, some b)
  unfolding ends
  ends_range x y s d d' e e' = rw (starless-text_eq (x ++ dash ∷ y) s) (
      ap (λ ps. (number_of number (piece ps 0), number_of number (piece ps 1)))
        (split_two dash x y d d')
      ∙ unfold piece number_of in rw e (rw e' refl))

  parse_part_steps :
      (range z : Text) {a b n : ℕ}
      → has slash range ≡ false
      → has slash z ≡ false
      → ends number range low high ≡ (some a, some b)
      → number z ≡ some n
      → parse_part number low high (range ++ slash ∷ z)
        ≡ map (λ v. some v) (filter (on_step (some n) a) (values (some a) (some b)))
  unfolding parse_part number_of piece
  parse_part_steps range z {a} {b} s s' e k = rw (has_mark slash range z) (
      ap
        (λ ps.
          map (λ v. some v)
            (filter
              (on_step (number_of number (piece ps 1))
                (first_of (ends number (first_piece ps) low high).0))
              (values (ends number (first_piece ps) low high).0
                (ends number (first_piece ps) low high).1)))
        (split_two slash range z s s')
      ∙ (ap (λ x. map (λ v. some v) (filter (on_step (number z) (first_of x.0)) (values x.0 x.1))) e
          ∙ ap (λ x. map (λ v. some v) (filter (on_step x a) (values (some a) (some b)))) k))

module _ {number : Text → Num} {digits : ℕ → Text} (decimal : IsDecimal number digits) where
  includes-parse_part :
      (low high : ℕ) (p : Part) (v : ℕ)
      → includes v (parse_part number low high (print_part digits p)) ≡ stands_for p v
  unfolding stands_for includes
  includes-parse_part low high (exactly n) v =
      ap (includes v) (
        parse_part_plain number low high (digits n) (decimal.no_slash n) (decimal.no_dash n)
          (decimal.reads n))
      ∙ ground arith
  includes-parse_part low high (from_to a b) v =
      ap (includes v) (
        parse_part_range number low high (digits a) (digits b)
          (without_mark slash dash (digits a) (digits b) refl (decimal.no_slash a)
            (decimal.no_slash b))
          (decimal.no_dash a) (decimal.no_dash b) (decimal.reads a) (decimal.reads b))
      ∙ includes-values v a b
  includes-parse_part low high (in_steps a b n) v =
      ap (includes v) (
        parse_part_steps number low high (digits a ++ dash ∷ digits b) (digits (suc n))
          (without_mark slash dash (digits a) (digits b) refl (decimal.no_slash a)
            (decimal.no_slash b))
          (decimal.no_slash (suc n))
          (ends_range number low high (digits a) (digits b)
            (without_mark star dash (digits a) (digits b) refl (decimal.no_star a)
              (decimal.no_star b))
            (decimal.no_dash a) (decimal.no_dash b) (decimal.reads a) (decimal.reads b))
          (decimal.reads (suc n)))
      ∙ includes-values-on_step v a b n

  print_part_free :
      (mark : ℕ) (p : Part)
      → (dash == mark) ≡ false
      → (slash == mark) ≡ false
      → ((n : ℕ) → has mark (digits n) ≡ false)
      → has mark (print_part digits p) ≡ false
  print_part_free mark (exactly n) d s h = h n
  print_part_free mark (from_to a b) d s h =
      without_mark mark dash (digits a) (digits b) d (h a) (h b)
  print_part_free mark (in_steps a b n) d s h =
      without_mark mark slash (digits a ++ dash ∷ digits b) (digits (suc n)) s
        (without_mark mark dash (digits a) (digits b) d (h a) (h b)) (h (suc n))

  print_part-no_comma : (p : Part) → has comma (print_part digits p) ≡ false
  print_part-no_comma p = print_part_free comma p refl refl decimal.no_comma

  print_parts-no_star : (p : Part) (ps : List Part) → has star (print_parts digits p ps) ≡ false
  print_parts-no_star p [] = print_part_free star p refl refl decimal.no_star
  print_parts-no_star p (q ∷ ps) =
      without_mark star comma (print_part digits p) (print_parts digits q ps) refl
        (print_part_free star p refl refl decimal.no_star) (print_parts-no_star q ps)

  includes-parse_parts :
      (low high : ℕ) (p : Part) (ps : List Part) (v : ℕ)
      → includes v (parse_parts number low high (split_at comma (print_parts digits p ps)))
        ≡ (stands_for p v || any (λ q. stands_for q v) ps)
  unfolding parse_parts includes
  includes-parse_parts low high p [] v =
      ap (λ s. includes v (parse_parts number low high s))
        (split_at-IsFree comma (print_part digits p)
          (any→IsFree comma (print_part digits p) (print_part-no_comma p)))
      ∙ (includes-append v (parse_part number low high (print_part digits p)) []
          ∙ ap (λ b. b || includes v []) (includes-parse_part low high p v))
  includes-parse_parts low high p (q ∷ ps) v =
      ap (λ s. includes v (parse_parts number low high s))
        (split_at-IsFree_append comma (print_part digits p) (print_parts digits q ps)
          (any→IsFree comma (print_part digits p) (print_part-no_comma p)))
      ∙ (includes-append v (parse_part number low high (print_part digits p)) _
          ∙ (ap
                (λ b.
                  b
                  || includes v
                      (parse_parts number low high (split_at comma (print_parts digits q ps))))
                (includes-parse_part low high p v)
              ∙ ap (λ b. stands_for p v || b)
                  (includes-parse_parts low high q ps v ∙ ground arith)))

  -- The field that is printed for a description allows exactly the values of the description, between
  -- the two limits where it names none of its own.
  pub includes-parse_field :
      (low high : ℕ) (f : Field) (v : ℕ)
      → includes v (parse_field number (print_field digits f) low high) ≡ allows low high f v
  unfolding parse_field allows
  includes-parse_field low high every_value v = includes-values v low high
  includes-parse_field low high (every n) v =
      ap
        (λ (x : Num).
          includes v (map (λ k. some k) (filter (on_step x low) (values (some low) (some high)))))
        (decimal.reads (suc n))
      ∙ includes-values-on_step v low high n
  includes-parse_field low high (listed p ps) v =
      let printed = print_parts digits p ps in
      let starless = print_parts-no_star p ps in
      rw (starless-text_eq printed starless)
        (rw (starless-is_every printed starless) (includes-parse_parts low high p ps v))
