-- ===== src/Governance/Overlap/Tests.antt =====
-- Scopes that collide and scopes that do not.
use legion_cli.Prelude.{◌≡◌, refl, ◌↔◌, List, [], ◌∷◌, Memᴰ}
use legion_cli.Text.{Text, codes, ascii_lower_case}
use legion_cli.Governance.Overlap.{Entry, overlapping_write_paths}
use legion_cli.Governance.Overlap.Laws.{Claim, Collide, claims, overlapping_write_paths-nil_iff}

abbrev entry : Text → List Text → Entry
entry id paths = record { id = id; paths = paths }

abbrev apart : List Entry
apart = entry (codes "a") (codes "src/x.ts" ∷ []) ∷ entry (codes "b") (codes "src2" ∷ []) ∷ []

abbrev nested : List Entry
nested = entry (codes "a") (codes "src/x.ts" ∷ []) ∷ entry (codes "b") (codes "SRC." ∷ []) ∷ []

overlap_nested : overlapping_write_paths ascii_lower_case nested ≡ codes "SRC. (a, b)" ∷ []
unfolding overlapping_write_paths
overlap_nested = refl

overlap_apart : overlapping_write_paths ascii_lower_case apart ≡ []
unfolding overlapping_write_paths
overlap_apart = refl

overlapping_write_paths-nil_iff_example : (overlapping_write_paths ascii_lower_case apart ≡ []) ↔ (
    (c d : Claim)
    → Memᴰ c (claims ascii_lower_case apart)
    → Memᴰ d (claims ascii_lower_case apart)
    → ¬ Collide d c)
overlapping_write_paths-nil_iff_example = overlapping_write_paths-nil_iff ascii_lower_case apart
