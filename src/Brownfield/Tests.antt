-- ===== src/Brownfield/Tests.antt =====
-- Slugs of titles.
use legion_cli.Prelude.{◌≡◌, refl}
use legion_cli.Text.{codes, ascii_lower_case}
use legion_cli.Brownfield.Slug.{slugify, IsSlug, slugify-IsSlug}

slug_of_title :
    slugify ascii_lower_case (codes "  Add OAuth2 (v2): tokens! ") ≡ codes "add-oauth2-v2-tokens"
unfolding slugify
slug_of_title = refl

slug_of_marks : slugify ascii_lower_case (codes "?!") ≡ codes "unnamed"
unfolding slugify
slug_of_marks = refl

slugify-IsSlug_example : IsSlug (slugify ascii_lower_case (codes "Add OAuth2 (v2): tokens!"))
slugify-IsSlug_example = slugify-IsSlug ascii_lower_case (codes "Add OAuth2 (v2): tokens!")
