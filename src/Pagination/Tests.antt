-- ===== src/Pagination/Tests.antt =====
-- Rows of page links, and the theorems on them at concrete pages.
use dtsys.Prelude.{◌≡◌, refl, Bool, true, List, [], ◌∷◌}
use dtsys.Prelude.Int.{pos, ◌+ℤ◌, ◌-ℤ◌}
use dtsys.Pagination.{
  page, ellipsis, to_set, insert, sort, last_item, push_value, push_all, shown, build_pages, Button,
  number_buttons, pagination,
}

links : Unit {0}
unfolding build_pages shown to_set insert sort last_item push_value push_all number_buttons
    pagination ◌+ℤ◌ ◌-ℤ◌
links = tt

middle :
    build_pages (pos 6) (pos 20)
    ≡ page (pos 1)
      ∷ ellipsis
      ∷ page (pos 4)
      ∷ page (pos 5)
      ∷ page (pos 6)
      ∷ page (pos 7)
      ∷ page (pos 8)
      ∷ ellipsis
      ∷ page (pos 20)
      ∷ []
unfolding links
middle = refl

start : build_pages (pos 1) (pos 3) ≡ page (pos 1) ∷ page (pos 2) ∷ page (pos 3) ∷ []
unfolding links
start = refl

abbrev two_pages : List Button
two_pages =
    record { enabled = true; target = pos 1 }
    ∷ record { enabled = true; target = pos 1 }
    ∷ record { enabled = true; target = pos 2 }
    ∷ record { enabled = Bool.false; target = pos 3 }
    ∷ []
