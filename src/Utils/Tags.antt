-- ===== src/Utils/Tags.antt =====
-- The colour of a tag (frontend/src/utils/tags.ts). A tag is the list of its UTF-16 code units.
use dtsys.Prelude.{
  ℕ, zero, suc, ◌+◌, ◌*◌, ◌%◌, ◌<◌, ◌≡◌, refl, ◌∙◌, ap, String, List, [], ◌∷◌, Option, some, arith,
  length, get_elem?,
}

abbrev pub tag_colors : List String
tag_colors =
    "bg-blue-100 text-blue-700 dark:bg-blue-500/15 dark:text-blue-300"
    ∷ "bg-emerald-100 text-emerald-700 dark:bg-emerald-500/15 dark:text-emerald-300"
    ∷ "bg-amber-100 text-amber-700 dark:bg-amber-500/15 dark:text-amber-300"
    ∷ "bg-rose-100 text-rose-700 dark:bg-rose-500/15 dark:text-rose-300"
    ∷ "bg-violet-100 text-violet-700 dark:bg-violet-500/15 dark:text-violet-300"
    ∷ "bg-cyan-100 text-cyan-700 dark:bg-cyan-500/15 dark:text-cyan-300"
    ∷ "bg-orange-100 text-orange-700 dark:bg-orange-500/15 dark:text-orange-300"
    ∷ "bg-lime-100 text-lime-700 dark:bg-lime-500/15 dark:text-lime-300" ∷ []

-- `>>> 0`
abbrev pub to_uint32 : ℕ → ℕ
to_uint32 n = n % 4294967296

unfoldable pub hash_from : ℕ → List ℕ → ℕ
hash_from hash [] = hash
hash_from hash (c ∷ s) = hash_from (to_uint32 (hash * 31 + c)) s

unfoldable pub get_tag_color : List ℕ → Option String
get_tag_color tag = get_elem? tag_colors (hash_from 0 tag % length tag_colors)

-- The hash without the truncation to 32 bits.
pub exact_hash : ℕ → List ℕ → ℕ
exact_hash hash [] = hash
exact_hash hash (c ∷ s) = exact_hash (hash * 31 + c) s

hash_from-exact_hash : (h : ℕ) (s : List ℕ) → hash_from (to_uint32 h) s ≡ to_uint32 (exact_hash h s)
unfolding hash_from exact_hash
hash_from-exact_hash h [] = refl
hash_from-exact_hash h (c ∷ s) =
    let same : to_uint32 (to_uint32 h * 31 + c) ≡ to_uint32 (h * 31 + c) = omega arith in
    ap (λ x. hash_from x s) same ∙ hash_from-exact_hash (h * 31 + c) s

colored : (i : ℕ) → i < 8 → (colour : String) × (get_elem? tag_colors i ≡ some colour)
colored zero l = (_, refl)
colored (suc zero) l = (_, refl)
colored (suc (suc zero)) l = (_, refl)
colored (suc (suc (suc zero))) l = (_, refl)
colored (suc (suc (suc (suc zero)))) l = (_, refl)
colored (suc (suc (suc (suc (suc zero))))) l = (_, refl)
colored (suc (suc (suc (suc (suc (suc zero)))))) l = (_, refl)
colored (suc (suc (suc (suc (suc (suc (suc zero))))))) l = (_, refl)
colored (suc (suc (suc (suc (suc (suc (suc (suc n)))))))) l = absurd (omega arith)

-- Every tag has one of the eight colours, and it is the one of the tag's whole hash, without the
-- truncations to 32 bits, modulo eight.
pub get_tag_color_lem :
    (tag : List ℕ)
    → (get_tag_color tag ≡ get_elem? tag_colors (exact_hash 0 tag % 8))
      × ((colour : String) × (get_tag_color tag ≡ some colour))
unfolding get_tag_color
get_tag_color_lem tag =
    let cut = hash_from-exact_hash 0 tag in
    let index : hash_from 0 tag % 8 ≡ exact_hash 0 tag % 8 = omega arith in
    (ap (get_elem? tag_colors) index, colored (hash_from 0 tag % 8) (omega arith))
