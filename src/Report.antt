-- ===== src/Report.antt =====
-- core/contract.py: the check of a JSON report against what its readers may rely on. A JSON value is what
-- `json.loads` returns; Python's `repr` of a text is the parameter `repr`.
pub mod Conforming
mod Samples
use devrepro_doctor.Prelude.{
  ℕ, zero, suc, ◌+◌, String, Bool, true, false, not, ◌&&◌, Option, none, some, List, [], ◌∷◌, ◌++◌,
  str_eq, if◌then◌else◌, contains,
}
use devrepro_doctor.Prelude.Printing.{show, text}

mutual
  pub data Json : Type 0 where
    null : Json
    boolean : Bool → Json
    integer : String → Json
    float : String → Json
    string : String → Json
    array : Items → Json
    object : Members → Json

  pub data Items : Type 0 where
    no_items : Items
    item : Json → Items → Items

  pub data Members : Type 0 where
    no_members : Members
    member : String → Json → Members → Members

-- `payload.get(field)`; a key stands once.
abbrev pub get : String → Members → Option Json
get field no_members = none
get field (member key value more) = if str_eq key field then some value else get field more

-- The types that the contract names.
pub data Kind : Type 0 where
  str : Kind
  dict : Kind
  list : Kind

abbrev pub is_instance : Kind → Json → Bool
is_instance str (string s) = true
is_instance dict (object fields) = true
is_instance list (array items) = true
is_instance _ _ = false

abbrev pub kind_name : Kind → String
kind_name str = "<class 'str'>"
kind_name dict = "<class 'dict'>"
kind_name list = "<class 'list'>"

-- `type(value).__name__`
abbrev pub type_name : Json → String
type_name null = "NoneType"
type_name (boolean b) = "bool"
type_name (integer n) = "int"
type_name (float s) = "float"
type_name (string s) = "str"
type_name (array items) = "list"
type_name (object fields) = "dict"

abbrev pub required_report_fields : List (String × Kind)
required_report_fields =
    ("schema_version", str)
    ∷ ("devrepro_version", str)
    ∷ ("created_at", str)
    ∷ ("platform", dict)
    ∷ ("findings", list)
    ∷ ("tools", list)
    ∷ []

abbrev pub required_finding_fields : List (String × Kind)
required_finding_fields =
    ("rule_id", str) ∷ ("state", str) ∷ ("summary", str) ∷ ("evidence", list) ∷ []

abbrev pub finding_states : List String
finding_states = "PASS" ∷ "INFO" ∷ "WARN" ∷ "ERROR" ∷ "BLOCKED" ∷ "UNKNOWN" ∷ []

module _ (repr : String → String) where
  -- One turn of the loop of `_field_problems`.
  unfoldable pub field_problem : String → String → Kind → Option Json → List String
  field_problem where_at field kind none =
      text (where_at ∷ ": missing required field " ∷ repr field ∷ []) ∷ []
  field_problem where_at field kind (some value) =
      if is_instance kind value
      then []
      else text (
          where_at
          ∷ ": "
          ∷ repr field
          ∷ " is "
          ∷ type_name value
          ∷ ", contract says "
          ∷ kind_name kind
          ∷ [])
        ∷ []

  unfoldable pub field_problems : Members → List (String × Kind) → String → List String
  unfolding field_problem
  field_problems payload [] where_at = []
  field_problems payload ((field, kind) ∷ required) where_at =
      field_problem where_at field kind (get field payload)
      ++ field_problems payload required where_at

  unfoldable pub state_problem : String → Option Json → List String
  state_problem where_at (some (string state)) =
      if contains state finding_states
      then []
      else text (where_at ∷ ": state " ∷ repr state ∷ " is not in the contract" ∷ []) ∷ []
  state_problem where_at _ = []

  unfoldable pub evidence_problem : String → Option Json → List String
  evidence_problem where_at (some (array no_items)) =
      text (where_at ∷ ": evidence is empty; every finding must carry some" ∷ []) ∷ []
  evidence_problem where_at _ = []

  -- One turn of the loop over the findings.
  unfoldable pub finding_problems : String → Json → List String
  unfolding field_problems state_problem evidence_problem
  finding_problems where_at (object finding) =
      field_problems finding required_finding_fields where_at
      ++ (state_problem where_at (get "state" finding)
          ++ evidence_problem where_at (get "evidence" finding))
  finding_problems where_at _ = text (where_at ∷ ": not an object" ∷ []) ∷ []

  unfoldable pub findings_problems : ℕ → Items → List String
  unfolding finding_problems show
  findings_problems index no_items = []
  findings_problems index (item finding more) =
      finding_problems (text ("findings[" ∷ show index ∷ "]" ∷ [])) finding
      ++ findings_problems (index + 1) more

  abbrev pub of_findings : Option Json → List String
  of_findings (some (array items)) = findings_problems 0 items
  of_findings _ = []

  unfoldable pub check_report : Members → List String
  unfolding field_problems findings_problems
  check_report payload =
      field_problems payload required_report_fields "report" ++ of_findings (get "findings" payload)
