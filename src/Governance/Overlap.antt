-- ===== src/Governance/Overlap.antt =====
-- `overlappingWritePaths` of packages/schema/src/governance.ts: which write scopes collide.
pub mod Ancestors
mod OwnerMaps
pub mod Laws
mod Tests
use legion_cli.Prelude.{
  ℕ, Bool, true, false, not, ◌||◌, List, [], ◌∷◌, ◌++◌, map, ◌==◌, nat_eq, list_eq, contains,
  filter, any, if◌then◌else◌,
}
use legion_cli.Text.{Text, codes, split, join_text, sorted_set}
use legion_cli.Paths.{slash, normalize_path_key}

pub record Entry : Type 0 where
  pub id : Text
  pub paths : List Text

-- A `Map<string, Set<string>>`: each key with each id of its set.
abbrev pub Owners : Type 0
Owners = List (Text × Text)

-- `map.get(key) ?? []`
unfoldable pub owners_of : Owners → Text → List Text
owners_of [] key = []
owners_of ((k, id) ∷ m) key = if k == key then id ∷ owners_of m key else owners_of m key

-- `parts.slice(0, i + 1)` for each `i` below the last.
abbrev pub proper_prefixes : List Text → List (List Text)
proper_prefixes [] = []
proper_prefixes (p ∷ []) = []
proper_prefixes (p ∷ q ∷ r) = (p ∷ []) ∷ map (λ ps. p ∷ ps) (proper_prefixes (q ∷ r))

unfoldable pub ancestors : Text → List Text
unfolding split join_text
ancestors key = map (join_text slash) (proper_prefixes (split slash key))

abbrev pub concat_owners : Owners → List Text → List Text
concat_owners m [] = []
concat_owners m (k ∷ ks) = owners_of m k ++ concat_owners m ks

-- `[...others].sort()` after `others.delete(entry.id)`
unfoldable pub others : Owners → Owners → Text → Text → List Text
unfolding owners_of sorted_set ancestors
others owners below key id =
    filter (λ o. not (o == id))
      (sorted_set (concat_owners owners (key ∷ ancestors key) ++ owners_of below key))

-- `${path} (${other}, ${entry.id})`
abbrev pub overlap_text : Text → Text → Text → Text
overlap_text path id other = path ++ codes " (" ++ other ++ codes ", " ++ id ++ codes ")"

abbrev pub add_all : List Text → Text → Owners → Owners
add_all [] id m = m
add_all (k ∷ ks) id m = add_all ks id ((k, id) ∷ m)

module _ (lower : Text → Text) where
  -- The inner loop, over the paths of one entry, and the outer one.
  unfoldable pub overlaps_paths : Owners → Owners → Text → List Text → List Text × Owners × Owners
  unfolding others normalize_path_key
  overlaps_paths owners below id [] = ([], owners, below)
  overlaps_paths owners below id (path ∷ paths) =
      let key = normalize_path_key lower path in
      let here = map (overlap_text path id) (others owners below key id) in
      let (more, owners', below') =
        overlaps_paths ((key, id) ∷ owners) (add_all (ancestors key) id below) id paths in
      (here ++ more, owners', below')

  unfoldable pub overlaps_entries : Owners → Owners → List Entry → List Text
  unfolding overlaps_paths
  overlaps_entries owners below [] = []
  overlaps_entries owners below (e ∷ entries) =
      let (here, owners', below') = overlaps_paths owners below e.id e.paths in
      here ++ overlaps_entries owners' below' entries

  unfoldable pub overlapping_write_paths : List Entry → List Text
  unfolding overlaps_entries
  overlapping_write_paths entries = overlaps_entries [] [] entries
