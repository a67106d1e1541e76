-- ===== src/Diff/Model.antt =====
-- core/models.py: snapshots, the entries of a comparison, and the values that it compares.
use devrepro_doctor.Prelude.{String, Bool, true, false, not, Option, none, some, List, str_eq}

-- What the comparison reads of a snapshot.
pub record Platform : Type 0 where
  pub os_name : String
  pub os_version : String
  pub arch : String
  pub kernel : Option String

pub record Tool : Type 0 where
  pub name : String
  pub version : Option String
  pub exe_path : Option String

pub record Requirement : Type 0 where
  pub ecosystem : String
  pub name : String
  pub spec : String

pub record Containers : Type 0 where
  pub docker_cli_version : Option String
  pub docker_daemon_ok : Bool
  pub backend : Option String
  pub server_version : Option String
  pub server_arch : Option String
  pub storage_driver : Option String
  pub cgroup_version : Option String
  pub rootless : Option Bool
  pub buildx_version : Option String

pub record Wsl : Type 0 where
  pub available : Bool
  pub default_distro : Option String

pub record Gpu : Type 0 where
  pub nvidia_driver : Option String
  pub cuda_toolkit : Option String
  pub rocm : Option String

pub record Snapshot : Type 0 where
  pub schema_version : String
  pub snapshot_id : String
  pub platform : Platform
  pub tools : List Tool
  -- The normalized entries.
  pub path_analysis : Option (List String)
  pub requirements_fingerprint : List Requirement
  pub containers : Option Containers
  pub wsl : Option Wsl
  pub gpu : Option Gpu

pub data Classification : Type 0 where
  same version_drift missing extra path_precedence platform_expected project_critical :
      Classification

pub record DiffEntry : Type 0 where
  pub component : String
  pub name : String
  pub classification : Classification
  pub a_value : Option String
  pub b_value : Option String
  pub detail : Option String
  pub project_critical : Bool

pub record EnvironmentDiff : Type 0 where
  pub a_snapshot_id : String
  pub b_snapshot_id : String
  pub entries : List DiffEntry

pub data DiffError : Type 0 where
  incompatible_schemas : String → String → DiffError

-- An optional value: a text or a Boolean.
pub data Value : Type 0 where
  absent : Value
  text : String → Value
  flag : Bool → Value

abbrev pub of_text : Option String → Value
of_text none = absent
of_text (some s) = text s

abbrev pub of_flag : Option Bool → Value
of_flag none = absent
of_flag (some b) = flag b

abbrev pub bool_eq : Bool → Bool → Bool
bool_eq true b = b
bool_eq false b = not b

abbrev pub value_eq : Value → Value → Bool
value_eq absent absent = true
value_eq (text s) (text t) = str_eq s t
value_eq (flag a) (flag b) = bool_eq a b
value_eq _ _ = false

-- `str(value)`
abbrev pub show : Value → String
show absent = "None"
show (text s) = s
show (flag true) = "True"
show (flag false) = "False"

-- `str(value) if value is not None else None`
abbrev pub show_present : Value → Option String
show_present absent = none
show_present (text s) = some s
show_present (flag b) = some (show (flag b))

abbrev pub entry :
    String → String → Classification → Option String → Option String → String → Bool → DiffEntry
entry component name classification a_value b_value detail critical = record {
  component = component;
  name = name;
  classification = classification;
  a_value = a_value;
  b_value = b_value;
  detail = some detail;
  project_critical = critical;
}
