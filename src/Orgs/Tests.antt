-- ===== src/Orgs/Tests.antt =====
-- The theorem about short names at a concrete name.
use dtsys.Prelude.{◌≡◌, refl, [], ◌∷◌, true, arith}
use dtsys.Prelude.Text.{Text}
use dtsys.Orgs.{slug_of, dash_runs, strip_back}
use dtsys.Orgs.Slugs.{IsSlug, is_server_slug, slug_of_lem}

-- " a & b!"
abbrev name : Text
name = 32 ∷ 97 ∷ 32 ∷ 38 ∷ 32 ∷ 98 ∷ 33 ∷ []

slug_of_name : slug_of (λ s. s) name ≡ 97 ∷ 45 ∷ 98 ∷ []
unfolding slug_of dash_runs strip_back
slug_of_name = refl

slug_of_lem_example :
    IsSlug true (slug_of (λ s. s) name) × (is_server_slug (slug_of (λ s. s) name) ≡ true)
unfolding slug_of dash_runs strip_back
slug_of_lem_example = slug_of_lem (λ s. s) name (omega arith)
