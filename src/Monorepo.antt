-- ===== src/Monorepo.antt =====
-- project/monorepo.py: the conflicts between the projects of one repository. What `_declared_versions` reads
-- from a manifest, the tools with their ranges, is given with the manifest's directory.
pub mod Agreement
pub mod Nested
pub mod Compatible
mod Samples
use Prim.Native.String.{◌++◌ as str_append}
use devrepro_doctor.Prelude.{
  ℕ, String, Bool, true, false, not, ◌&&◌, ◌||◌, Option, none, some, List, [], ◌∷◌, ◌++◌, map, any,
  str_eq, if◌then◌else◌,
}
use devrepro_doctor.Versioning.{SpecSet, satisfied_by}
use devrepro_doctor.Versioning.Text.{codes}
use devrepro_doctor.Versioning.Parse.{parse_version}
use devrepro_doctor.Versioning.Spec.{parse_spec}
use devrepro_doctor.Score.{starts_with}

pub record NestedConflict : Type 0 where
  pub tool : String
  pub parent_path : String
  pub parent_spec : String
  pub child_path : String
  pub child_spec : String
  pub detail : String

-- A tool that a directory's manifest declares, with its range.
pub record Declared : Type 0 where
  pub tool : String
  pub rel : String
  pub spec : String

-- The manifests of `_detect_conflicts`: their directories, and what they declare.
abbrev pub Manifest : Type 0
Manifest = String × List (String × String)

abbrev pub declared_by : List Manifest → List Declared
declared_by [] = []
declared_by ((rel, versions) ∷ manifests) =
    map (λ (v : String × String). record { tool = v.0; rel = rel; spec = v.1 }) versions
    ++ declared_by manifests

-- `by_tool`, in the order in which the tools came.
abbrev pub Groups : Type 0
Groups = List (String × List Declared)

-- `by_tool.setdefault(tool, []).append(entry)`
unfoldable pub add_entry : Declared → Groups → Groups
add_entry d [] = (d.tool, d ∷ []) ∷ []
add_entry d ((tool, entries) ∷ groups) =
    let rest = add_entry d groups in
    if str_eq tool d.tool then (tool, entries ++ d ∷ []) ∷ groups else (tool, entries) ∷ rest

abbrev pub group_by_tool : Groups → List Declared → Groups
group_by_tool groups [] = groups
group_by_tool groups (d ∷ ds) = group_by_tool (add_entry d groups) ds

unfoldable pub is_nested : String → String → Bool
is_nested a_rel b_rel =
    str_eq a_rel "."
    || (str_eq b_rel "."
        || (starts_with (str_append b_rel "/") a_rel || starts_with (str_append a_rel "/") b_rel))

abbrev pub candidates : List String
candidates =
    "0.0.1" ∷ "3.0.0" ∷ "6.0.0" ∷ "8.0.0" ∷ "10.0.0" ∷ "12.0.0" ∷ "14.0.0" ∷ "16.0.0" ∷ "18.0.0"
    ∷ "20.0.0" ∷ "21.0.0" ∷ "22.0.0" ∷ "24.0.0" ∷ []

-- One turn of the loop of `_ranges_overlap`.
unfoldable pub is_common : SpecSet → SpecSet → String → Bool
unfolding parse_version satisfied_by
is_common a b candidate = elim (parse_version (codes candidate)) [
  | none ↦ false
  | some v ↦ satisfied_by a v && satisfied_by b v
]

unfoldable pub ranges_overlap : SpecSet → SpecSet → Bool
unfolding is_common
ranges_overlap a b = any (is_common a b) candidates

abbrev pub nested_conflict : Declared → Declared → String → NestedConflict
nested_conflict a b detail = record {
  tool = a.tool;
  parent_path = a.rel;
  parent_spec = a.spec;
  child_path = b.rel;
  child_spec = b.spec;
  detail = detail;
}

-- The conflict of two ranges, if both can be read.
unfoldable pub range_conflict :
    Declared → Declared → Option SpecSet → Option SpecSet → List NestedConflict
unfolding ranges_overlap
range_conflict a b (some ra) (some rb) =
    if ranges_overlap ra rb
    then []
    else nested_conflict a b "no version satisfies both parent and child constraints" ∷ []
range_conflict a b _ _ =
    nested_conflict a b "version specs could not be compared automatically" ∷ []

-- The body of the two inner loops.
unfoldable pub pair_conflicts : Declared → Declared → List NestedConflict
unfolding is_nested range_conflict parse_spec
pair_conflicts a b =
    if not (is_nested a.rel b.rel)
    then []
    else range_conflict a b (parse_spec (codes a.spec)) (parse_spec (codes b.spec))

abbrev pub against_later : Declared → List Declared → List NestedConflict
against_later a [] = []
against_later a (b ∷ later) = pair_conflicts a b ++ against_later a later

-- The loops over i and over j > i; a single entry has no pair.
abbrev pub entries_conflicts : List Declared → List NestedConflict
entries_conflicts [] = []
entries_conflicts (a ∷ later) = against_later a later ++ entries_conflicts later

abbrev pub groups_conflicts : Groups → List NestedConflict
groups_conflicts [] = []
groups_conflicts ((tool, entries) ∷ groups) = entries_conflicts entries ++ groups_conflicts groups

unfoldable pub detect_conflicts : List Manifest → List NestedConflict
unfolding add_entry pair_conflicts
detect_conflicts manifests = groups_conflicts (group_by_tool [] (declared_by manifests))
