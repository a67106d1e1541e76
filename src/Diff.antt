-- ===== src/Diff.antt =====
-- diff/engine.py: the comparison of two snapshots. The order in which Python goes through the set of
-- the platform's keys is the parameter `platform_keys`.
mod Model
mod Machine
unfoldable pub use Model.*
unfoldable pub use Machine.*
pub mod Same
mod Samples
use Prim.Native.String.{◌++◌ as str_append}
use devrepro_doctor.Prelude.Printing.{decimal}
use devrepro_doctor.Prelude.{
  ℕ, zero, suc, ◌/◌, ◌%◌, ltb, ◌==◌, String, Bool, true, false, not, ◌&&◌, ◌||◌, Option, none, some,
  List, [], ◌∷◌, ◌++◌, str_eq, if◌then◌else◌, any, all, map, filter, length, sort, distinct,
  sort_strings, str_leb, opt_eq,
}
use devrepro_doctor.Result.{Result, ok, err}

pub data PlatformKey : Type 0 where
  os_name os_version arch kernel : PlatformKey

abbrev pub platform_name : PlatformKey → String
platform_name os_name = "os_name"
platform_name os_version = "os_version"
platform_name arch = "arch"
platform_name kernel = "kernel"

abbrev pub platform_value : PlatformKey → Platform → Value
platform_value os_name p = text p.os_name
platform_value os_version p = text p.os_version
platform_value arch p = text p.arch
platform_value kernel p = of_text p.kernel

unfoldable pub platform_entries : List PlatformKey → Platform → Platform → List DiffEntry
platform_entries [] pa pb = []
platform_entries (key ∷ keys) pa pb =
    let rest = platform_entries keys pa pb in
    if value_eq (platform_value key pa) (platform_value key pb)
    then rest
    else entry "platform" (platform_name key) platform_expected
        (some (show (platform_value key pa))) (some (show (platform_value key pb)))
        "Platform differences are expected across machines; only flag if the project targets one OS."
        false
      ∷ rest

-- `d.get(k)` of `{key(x): value(x) for x in items}`: of several with one key the last counts.
abbrev pub find_last : {K I V : Type 0} → (K → K → Bool) → (I → K) → (I → V) → K → List I → Option V
find_last eq key value k [] = none
find_last eq key value k (x ∷ xs) = elim (find_last eq key value k xs) [
  | some later ↦ some later
  | none ↦ if eq (key x) k then some (value x) else none
]

abbrev pub find_tool : String → List Tool → Option Tool
find_tool name tools = find_last str_eq (λ (t : Tool). t.name) (λ (t : Tool). t) name tools

abbrev pub tool_names : List Tool → List Tool → List String
tool_names a b =
    sort_strings (distinct str_eq (map (λ (t : Tool). t.name) a ++ map (λ (t : Tool). t.name) b))

-- `text or ""`
abbrev pub or_empty : Option String → String
or_empty none = ""
or_empty (some s) = s

abbrev pub quoted : String → String
quoted name = str_append "'" (str_append name "'")

-- The entry for one name, which stands on one side at least.
unfoldable pub tool_entry : Bool → String → Option Tool → Option Tool → List DiffEntry
tool_entry critical name none none = []
tool_entry critical name none (some tb) =
    entry "tool" name missing none tb.version
      (str_append (quoted name) " exists on B but not on A.") critical
    ∷ []
tool_entry critical name (some ta) none =
    entry "tool" name missing ta.version none
      (str_append (quoted name) " exists on A but not on B.") critical
    ∷ []
tool_entry critical name (some ta) (some tb) =
    if not (str_eq (or_empty ta.version) (or_empty tb.version))
    then entry "tool" name version_drift ta.version tb.version
        (str_append "Version drift on " (str_append (quoted name) ".")) critical
      ∷ []
    else if not (str_eq (or_empty ta.exe_path) (or_empty tb.exe_path))
    then entry "tool" name path_precedence ta.exe_path tb.exe_path
        (str_append (quoted name) " resolves to different executables (same version).") critical
      ∷ []
    else record {
      component = "tool";
      name = name;
      classification = same;
      a_value = ta.version;
      b_value = tb.version;
      detail = none;
      project_critical = false;
    }
      ∷ []

abbrev pub is_required : String → List Requirement → Bool
is_required name reqs = any (λ (r : Requirement). str_eq r.name name) reqs

unfoldable pub tool_entries :
    List Tool → List Tool → List Requirement → List Requirement → List String → List DiffEntry
unfolding tool_entry
tool_entries a b a_reqs b_reqs [] = []
tool_entries a b a_reqs b_reqs (name ∷ names) =
    tool_entry (is_required name a_reqs || is_required name b_reqs) name (find_tool name a)
      (find_tool name b)
    ++ tool_entries a b a_reqs b_reqs names

abbrev pub texts_eq : List String → List String → Bool
texts_eq [] [] = true
texts_eq (s ∷ ss) (t ∷ ts) = str_eq s t && texts_eq ss ts
texts_eq _ _ = false

abbrev pub or_no_entries : Option (List String) → List String
or_no_entries none = []
or_no_entries (some entries) = entries

abbrev pub not_in : List String → List String → List String
not_in others paths = filter (λ p. not (any (λ q. str_eq q p) others)) paths

unfoldable pub path_value : String → List String → List String → String
unfolding decimal
path_value side entries only =
    let shown = str_append (decimal (length entries) (length entries)) " entries" in
    elim only [
      | [] ↦ shown
      | p ∷ ps ↦ str_append shown (
          str_append "; "
            (str_append side (str_append "-only: " (decimal (length (p ∷ ps)) (length (p ∷ ps))))))
    ]

unfoldable pub path_entries : List String → List String → List DiffEntry
unfolding path_value
path_entries a_norm b_norm =
    if texts_eq a_norm b_norm
    then []
    else entry "path" "PATH" path_precedence (some (path_value "A" a_norm (not_in b_norm a_norm)))
        (some (path_value "B" b_norm (not_in a_norm b_norm)))
        "PATH composition differs; resolution order may differ even for identical tool versions."
        false
      ∷ []

-- The key of a requirement: its ecosystem and its name.
abbrev pub Key : Type 0
Key = String × String

abbrev pub key_eq : Key → Key → Bool
key_eq k l = str_eq k.0 l.0 && str_eq k.1 l.1

abbrev pub key_of : Requirement → Key
key_of r = (r.ecosystem, r.name)

abbrev pub find_spec : Key → List Requirement → Option String
find_spec k reqs = find_last key_eq key_of (λ (r : Requirement). r.spec) k reqs

abbrev pub key_leb : Key → Key → Bool
key_leb k l = if str_eq k.0 l.0 then str_leb k.1 l.1 else str_leb k.0 l.0

abbrev pub requirement_keys : List Requirement → List Requirement → List Key
requirement_keys a b = sort key_leb (distinct key_eq (map key_of a ++ map key_of b))

unfoldable pub requirement_entries : List Requirement → List Requirement → List Key → List DiffEntry
requirement_entries a b [] = []
requirement_entries a b (k ∷ keys) =
    let rest = requirement_entries a b keys in
    if opt_eq (find_spec k a) (find_spec k b)
    then rest
    else entry "requirement" (str_append k.0 (str_append ":" k.1)) project_critical (find_spec k a)
        (find_spec k b) "Declared project requirements differ between the two snapshots." true
      ∷ rest

unfoldable pub diff_entries : List PlatformKey → Snapshot → Snapshot → List DiffEntry
unfolding platform_entries tool_entries path_entries requirement_entries daemon_entries
    engine_entries optional_entries distinct sort sort_strings
diff_entries platform_keys a b =
    let a_reqs = a.requirements_fingerprint in
    let b_reqs = b.requirements_fingerprint in
    platform_entries platform_keys a.platform b.platform
    ++ tool_entries a.tools b.tools a_reqs b_reqs (tool_names a.tools b.tools)
    ++ path_entries (or_no_entries a.path_analysis) (or_no_entries b.path_analysis)
    ++ requirement_entries a_reqs b_reqs (requirement_keys a_reqs b_reqs)
    ++ daemon_entries a.containers b.containers
    ++ engine_entries a.containers b.containers
    ++ optional_entries compared_facts a b

unfoldable pub diff_snapshots :
    List PlatformKey → Snapshot → Snapshot → Result DiffError EnvironmentDiff
unfolding diff_entries
diff_snapshots platform_keys a b =
    if not (str_eq a.schema_version b.schema_version)
    then err (incompatible_schemas a.schema_version b.schema_version)
    else ok (record {
      a_snapshot_id = a.snapshot_id;
      b_snapshot_id = b.snapshot_id;
      entries = diff_entries platform_keys a b;
    })
