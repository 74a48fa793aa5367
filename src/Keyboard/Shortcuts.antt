-- ===== src/Keyboard/Shortcuts.antt =====
-- The shortcuts that the help overlay lists (frontend/src/components/layout/Layout.tsx).
use dtsys.Prelude.{
  ◌≡◌, ◌≢◌, ◌∙◌, String, true, false, ◌∷◌, some, arith, str_eq, str_eq_iff, if◌then◌else◌,
}
use dtsys.Keyboard.{
  KeyEvent, prevented, navigated, Keys, clear_prefix, close_all, start_prefix, page_of,
  follow_prefix, is_search_key, is_plain, is_typing_target, on_key_down, on_search_key, dispatch,
}
use dtsys.Keyboard.Prefix.{IsQuiet}

-- With the search key, both listeners run, and the overlay is open afterwards, whether it was before
-- or not.
pub search_key_opens :
    (e : KeyEvent) (s : Keys) → is_search_key e ≡ true → (dispatch e s).search_open ≡ true
unfolding dispatch on_key_down on_search_key
search_key_opens e s h = ground arith

-- In a text field every key but the search key and Escape is left to the field.
pub typing_ignored :
    (e : KeyEvent) (s : Keys)
    → is_typing_target e.target ≡ true
    → is_search_key e ≡ false
    → e.key ≢ "Escape"
    → dispatch e s ≡ s
unfolding dispatch on_key_down on_search_key
typing_ignored e s t k n = ground (arith, str_eq_iff e.key "Escape")

-- Escape, in a text field too, closes the search overlay and the help and drops a pending `g`.
pub escape_closes :
    (e : KeyEvent) (s : Keys)
    → is_search_key e ≡ false
    → e.key ≡ "Escape"
    → let t = dispatch e s in (t.search_open ≡ false) × (t.show_help ≡ false) × (t.pending ≡ false)
unfolding dispatch on_key_down on_search_key clear_prefix close_all
escape_closes e s k h = ground (arith, str_eq_iff e.key "Escape")

-- A letter key, pressed outside a text field and with no modifier.
pub record IsLetter (e : KeyEvent) : Type 0 where
  pub plain : is_plain e ≡ true
  pub outside : is_typing_target e.target ≡ false
  pub not_escape : e.key ≢ "Escape"
  pub not_help : e.key ≢ "?"
  pub not_slash : e.key ≢ "/"

letter_key :
    (e : KeyEvent) (s : Keys)
    → IsLetter e
    → e.lower ≢ "r"
    → dispatch e s ≡ (
        if s.pending
        then follow_prefix e.lower s
        else if str_eq e.lower "g"
        then start_prefix s
        else s)
unfolding dispatch on_key_down on_search_key
letter_key e s l n = ground (
  arith,
  str_eq_iff e.key "Escape",
  str_eq_iff e.key "?",
  str_eq_iff e.key "/",
  str_eq_iff e.lower "r",
)

follow_prefix-effects :
    (key path : String) (s : Keys)
    → page_of key ≡ some path
    → ((follow_prefix key s).effects ≡ prevented ∷ navigated path ∷ s.effects)
      × ((follow_prefix key s).pending ≡ false)
unfolding follow_prefix clear_prefix
follow_prefix-effects key path s e = ground arith

-- A plain `g` and then a plain letter other than `r` that has a page navigate to that page, and
-- to nothing else, and leave no `g` pending.
pub prefix_navigates :
    (g e : KeyEvent) (s : Keys) {path : String}
    → IsQuiet s
    → IsLetter g
    → g.lower ≡ "g"
    → IsLetter e
    → e.lower ≢ "r"
    → page_of e.lower ≡ some path
    → let t = dispatch e (dispatch g s) in
      (t.effects ≡ prevented ∷ navigated path ∷ s.effects) × (t.pending ≡ false)
unfolding start_prefix
prefix_navigates g e s {path} q lg eg le ne p =
    let armed : dispatch g s ≡ start_prefix s =
      letter_key g s lg (ground (arith, str_eq_iff g.lower "r", str_eq_iff "g" "r"))
      ∙ ground (arith, str_eq_iff g.lower "g") in
    rw (armed, letter_key e (start_prefix s) le ne)
      (follow_prefix-effects e.lower path (start_prefix s) p)
