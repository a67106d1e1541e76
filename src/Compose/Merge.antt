-- ===== src/Compose/Merge.antt =====
-- `_merge` and `_merge_env_names`: one policy from the layers, nearest first, and who said what. The
-- text that Python prints for a tuple of versions is the parameter `show_versions`.
pub mod Nearest
pub mod Names
use Prim.Native.String.{◌++◌ as str_append}
use devrepro_doctor.Prelude.{
  contains, String, Bool, true, false, not, ◌&&◌, ◌||◌, Option, none, some, List, [], ◌∷◌, ◌++◌,
  str_eq, if◌then◌else◌, any, map, filter, sort, str_leb,
}

pub record SupportedOs : Type 0 where
  pub windows : Bool
  pub linux : Bool
  pub macos : Bool

pub record Containers : Type 0 where
  pub require_devcontainer : Bool
  pub require_compose : Bool

pub record Policy : Type 0 where
  pub supported_os : SupportedOs
  pub required_runtimes : List (String × String)
  pub required_tools : List (String × String)
  pub optional_tools : List (String × String)
  pub known_bad_versions : List (String × List String)
  pub containers : Containers
  pub required_env_names : List String

-- What stands in a table: a range, or a tuple of versions.
pub data Value : Type 0 where
  range : String → Value
  versions : List String → Value

-- A setting: the name of its table, and its key there.
abbrev pub Identity : Type 0
Identity = String × String

abbrev pub same : Identity → Identity → Bool
same i j = str_eq i.0 j.0 && str_eq i.1 j.1

abbrev pub find : {V : Type 0} → Identity → List (Identity × V) → Option V
find i [] = none
find i ((j, v) ∷ m) = if same j i then some v else find i m

-- `m.setdefault(i, []).append(x)`
unfoldable pub push :
    Identity → String → List (Identity × List String) → List (Identity × List String)
push i x [] = (i, x ∷ []) ∷ []
push i x ((j, xs) ∷ m) =
    let rest = push i x m in if same j i then (j, xs ++ x ∷ []) ∷ m else (j, xs) ∷ rest

-- The dictionaries of `_merge`, in the order of insertion.
pub record MergeState : Type 0 where
  pub tables : List (Identity × Value)
  pub owner : List (Identity × String)
  pub overridden : List (Identity × List String)

abbrev pub is_owned : Identity → MergeState → Bool
is_owned i st = any (λ (e : Identity × String). same e.0 i) st.owner

-- The body of the inner loop.
unfoldable pub merge_item : MergeState → String → Identity → Value → MergeState
unfolding push
merge_item st label identity value =
    if is_owned identity st
    then record st { overridden = push identity label st.overridden }
    else record st {
      tables = st.tables ++ (identity, value) ∷ [];
      owner = st.owner ++ (identity, label) ∷ [];
    }

unfoldable pub merge_items : MergeState → String → String → List (String × Value) → MergeState
unfolding merge_item
merge_items st label table [] = st
merge_items st label table ((key, value) ∷ items) =
    merge_items (merge_item st label (table, key) value) label table items

abbrev pub ranges : List (String × String) → List (String × Value)
ranges table = map (λ (e : String × String). (e.0, range e.1)) table

-- `getattr(policy, table_name).items()` for the names of `_MERGED_TABLES`.
abbrev pub merged_tables : Policy → List (String × List (String × Value))
merged_tables policy =
    ("required_runtimes", ranges policy.required_runtimes)
    ∷ ("required_tools", ranges policy.required_tools)
    ∷ ("optional_tools", ranges policy.optional_tools)
    ∷ (
      "known_bad_versions",
      map (λ (e : String × List String). (e.0, versions e.1)) policy.known_bad_versions,
    )
    ∷ []

unfoldable pub merge_tables :
    MergeState → String → List (String × List (String × Value)) → MergeState
unfolding merge_items
merge_tables st label [] = st
merge_tables st label ((table, items) ∷ tables) =
    merge_tables (merge_items st label table items) label tables

unfoldable pub merge_layers : MergeState → List (String × Policy) → MergeState
unfolding merge_tables
merge_layers st [] = st
merge_layers st ((label, policy) ∷ parsed) =
    merge_layers (merge_tables st label (merged_tables policy)) parsed

-- `_merge_env_names`
abbrev pub add_names : List String → List String → List String
add_names names [] = names
add_names names (name ∷ more) =
    add_names (if contains name names then names else names ++ name ∷ []) more

unfoldable pub merge_env_names : List String → List (String × Policy) → List String
merge_env_names names [] = names
merge_env_names names ((label, policy) ∷ parsed) =
    merge_env_names (add_names names policy.required_env_names) parsed

pub record Provenance : Type 0 where
  pub key : String
  pub value : String
  pub layer : String
  pub overrides : List String

-- The items of one table.
abbrev pub items_of : String → List (Identity × Value) → List (String × Value)
items_of table entries =
    map (λ (e : Identity × Value). (e.0.1, e.1))
      (filter (λ (e : Identity × Value). str_eq e.0.0 table) entries)

abbrev pub or_nothing : {A : Type 0} → Option (List A) → List A
or_nothing none = []
or_nothing (some xs) = xs

-- Pairs of texts compare by the first text, then by the second.
abbrev pub comes_before : Identity → Identity → Bool
comes_before i j = if str_eq i.0 j.0 then str_leb i.1 j.1 else str_leb i.0 j.0

abbrev pub default_policy : Policy
default_policy = record {
  supported_os = record { windows = true; linux = true; macos = true };
  required_runtimes = [];
  required_tools = [];
  optional_tools = [];
  known_bad_versions = [];
  containers = record { require_devcontainer = false; require_compose = false };
  required_env_names = [];
}

abbrev pub nothing_merged : MergeState
nothing_merged = record { tables = []; owner = []; overridden = [] }

module _ (show_versions : List String → String) where
  -- `str(value)`
  abbrev pub show_value : Value → String
  show_value (range text) = text
  show_value (versions vs) = show_versions vs

  -- `tuple(v)` of a tuple, and a tuple of one otherwise.
  abbrev pub as_versions : Value → List String
  as_versions (range text) = text ∷ []
  as_versions (versions vs) = vs

  abbrev pub text_items : String → MergeState → List (String × String)
  text_items table st =
      map (λ (e : String × Value). (e.0, show_value e.1)) (items_of table st.tables)

  abbrev pub shown : Option Value → String
  shown none = ""
  shown (some v) = show_value v

  abbrev pub owned_by : Option String → String
  owned_by none = ""
  owned_by (some label) = label

  -- The entry for a setting that has an owner.
  abbrev pub provenance_of : MergeState → Identity → Provenance
  provenance_of st i = record {
    key = str_append i.0 (str_append "." i.1);
    value = shown (find i st.tables);
    layer = owned_by (find i st.owner);
    overrides = or_nothing (find i st.overridden);
  }

  unfoldable pub merge : List (String × Policy) → Policy × List Provenance
  unfolding merge_layers merge_env_names sort
  merge [] = (default_policy, [])
  merge ((label, nearest) ∷ parsed) =
      let layers = (label, nearest) ∷ parsed in
      let st = merge_layers nothing_merged layers in
      let identities = sort comes_before (map (λ (e : Identity × String). e.0) st.owner) in
      (
        record {
          supported_os = nearest.supported_os;
          required_runtimes = text_items "required_runtimes" st;
          required_tools = text_items "required_tools" st;
          optional_tools = text_items "optional_tools" st;
          known_bad_versions =
              map (λ (e : String × Value). (e.0, as_versions e.1))
                (items_of "known_bad_versions" st.tables);
          containers = nearest.containers;
          required_env_names = merge_env_names [] layers;
        },
        map (provenance_of st) identities,
      )
