-- ===== src/Mcp/Samples.antt =====
-- A server of two directories, and calls of its tools.
use devrepro_doctor.Prelude.{
  ℕ, suc, ◌≡◌, refl, String, true, false, Option, none, some, [], ◌∷◌, All, arith, sort_strings,
  distinct,
}
use devrepro_doctor.Result.{Result, ok}
use devrepro_doctor.Report.{Json, string, boolean, integer, object, Members, no_members, member}
use devrepro_doctor.Mcp.{McpError, no_response, answer, empty_cache, get_report, handle_request}
use devrepro_doctor.Mcp.Arguments.{Schema, invalid, project_arg, validate_arguments, call_error}
use devrepro_doctor.Mcp.Freshness.{Call, get_all, IsAnswer, get_all-IsAnswer, get_report-crosses}
use devrepro_doctor.Mcp.Answers.{accepts, accepts-validate_arguments}

abbrev quoted : String → String
quoted s = s

-- The report of a directory is its name.
abbrev scan_name : String → ℕ → String
scan_name root now = root

abbrev asks : ℕ → String → Call String
asks now root = record { now = now; root = root; refresh = false }

abbrev with_path : Members
with_path = member "path" (string "web") no_members

abbrev with_refresh : Json → Members
with_refresh value = member "project" (string "web") (member "refresh" value no_members)

checks :
    (call_error quoted "fix" no_members ≡ some (invalid "fix is deliberately not exposed"))
    × (call_error quoted "doctor" with_path ≡ some (invalid "unknown argument(s): path"))
    × (call_error quoted "which" no_members ≡ some (invalid "tool is required"))
    × (call_error quoted "info" (with_refresh (string "false"))
        ≡ some (invalid "refresh must be a boolean, got str"))
    × (call_error quoted "info" (with_refresh (boolean true)) ≡ none)
unfolding call_error sort_strings distinct
checks = (refl, refl, refl, refl, refl)

-- A schema that says nothing of additional properties, with a property of no type.
abbrev open_schema : Schema
open_schema = record {
  additional_properties = none;
  properties = ("any", none) ∷ [];
  required = [];
}

accepts_open :
    (validate_arguments quoted open_schema (member "any" (integer "1") with_path) ≡ none)
    × (validate_arguments quoted
          (record open_schema { additional_properties = some false })
          with_path
        ≡ some (invalid "unknown argument(s): path"))
unfolding validate_arguments sort_strings distinct
accepts_open = (refl, refl)

-- A dispatcher that answers everything and counts.
abbrev counts : Option Json → Option Json → ℕ → Result McpError Json × ℕ
counts method params n = (ok (integer "1"), suc n)

abbrev ping : Members
ping = member "jsonrpc" (string "2.0") (member "method" (string "ping") no_members)

answers :
    (handle_request counts (object ping) 0 ≡ (ok no_response, 1))
    × (handle_request counts (object (member "id" (integer "7") ping)) 0
        ≡ (ok (answer (some (integer "7")) (integer "1")), 1))
unfolding handle_request
answers = (refl, refl)

get_all-IsAnswer_example :
    All
      (IsAnswer scan_name 300)
      (get_all scan_name 300 empty_cache (asks 5 "a" ∷ asks 400 "a" ∷ []))
get_all-IsAnswer_example = get_all-IsAnswer scan_name 300 (asks 5 "a" ∷ asks 400 "a" ∷ [])

get_report-crosses_example :
    let first = get_report scan_name 300 5 "a" true empty_cache in
    let second = get_report scan_name 300 9 "b" false first.1 in second.0 ≡ ("a", false)
get_report-crosses_example = get_report-crosses scan_name 300 empty_cache 5 9 "a" "b" (omega arith)

accepts-validate_arguments_example :
    accepts (validate_arguments quoted project_arg (with_refresh (string "false"))) ≡ false
accepts-validate_arguments_example =
    accepts-validate_arguments quoted project_arg (with_refresh (string "false"))
