-- ===== src/Mcp.antt =====
-- mcp/protocol.py: the cache of the last scan, and the answer to a JSON-RPC request. What a tool's call answers is the parameter `dispatch`, which may raise; `data` of an error, a hint for
-- its reader, is left out. The clock is in whole ticks.
pub mod Arguments
pub mod Freshness
pub mod Answers
mod Samples
use devrepro_doctor.Prelude.{
  ℕ, suc, ◌+◌, String, Bool, true, false, not, ◌&&◌, ◌||◌, Option, none, some, List, [], ◌∷◌, map,
  filter, ltb, str_eq, if◌then◌else◌, lookup, contains, distinct, sort_strings,
}
use devrepro_doctor.Prelude.Printing.{text, join}
use devrepro_doctor.Result.{Result, ok, err}
use devrepro_doctor.Report.{
  Json, null, boolean, integer, float, string, array, object, Members, no_members, member, get,
  type_name,
}

pub data ErrorCode : Type 0 where
  invalid_request : ErrorCode
  method_not_found : ErrorCode
  invalid_params : ErrorCode
  confinement_error : ErrorCode

pub record McpError : Type 0 where
  pub code : ErrorCode
  pub message : String

-- The numbers of the codes.
abbrev pub code_text : ErrorCode → String
code_text invalid_request = "-32600"
code_text method_not_found = "-32601"
code_text invalid_params = "-32602"
code_text confinement_error = "-32000"

-- The fields of the cache that its methods change.
pub record ReportCache (Report : Type 0) : Type 0 where
  pub report : Option Report
  pub taken_at : Option ℕ
  pub scans : ℕ

-- The report, if there is one and `now - taken_at < cache_seconds`.
abbrev pub fresh_report : {Report : Type 0} → ℕ → ℕ → Option Report → Option ℕ → Option Report
fresh_report cache_seconds now none taken_at = none
fresh_report cache_seconds now (some report) none = none
fresh_report cache_seconds now (some report) (some t) =
    if ltb now (t + cache_seconds) then some report else none

module _ {Root Report : Type 0} (scanner : Root → ℕ → Report) (cache_seconds : ℕ) where
  -- `ReportCache.get` at a time: the report, whether it is a fresh scan, and the cache after it. The report may depend
  -- on when the machine is scanned.
  unfoldable pub get_report :
      ℕ → Root → Bool → ReportCache Report → (Report × Bool) × ReportCache Report
  get_report now root refresh cache =
      let scanned = scanner root now in
      let after : ReportCache Report = record {
        report = some scanned;
        taken_at = some now;
        scans = suc cache.scans;
      } in
      if refresh
      then ((scanned, true), after)
      else elim (fresh_report cache_seconds now cache.report cache.taken_at) [
        | some report ↦ ((report, false), cache)
        | none ↦ ((scanned, true), after)
      ]

abbrev pub empty_cache : {Report : Type 0} → ReportCache Report
empty_cache = record { report = none; taken_at = none; scans = 0 }

-- The keys of a JSON object.
abbrev pub keys_of : Members → List String
keys_of no_members = []
keys_of (member key value more) = key ∷ keys_of more

-- What `handle_request` returns: nothing, or the id with the result or the error.
pub data Response : Type 0 where
  no_response : Response
  answer : Option Json → Json → Response
  failure : Option Json → McpError → Response

abbrev pub is_version_2 : Option Json → Bool
is_version_2 (some (string v)) = str_eq v "2.0"
is_version_2 _ = false

-- `request.get("params") or {}`: an empty list, text or object is false, as are zero and false; dispatching on what
-- is no object is left to the parameter.
abbrev pub has_id : Members → Bool
has_id request = contains "id" (keys_of request)

abbrev pub respond : Members → Result McpError Json → Response
respond request (ok result) =
    if has_id request then answer (get "id" request) result else no_response
respond request (err e) = if has_id request then failure (get "id" request) e else no_response

module _ {State : Type 0}
    (dispatch : Option Json → Option Json → State → Result McpError Json × State) where
  -- `handle_request`, with what dispatching does to the state of the server. A request that is no object, or is not of
  -- version 2.0, raises.
  unfoldable pub handle_request : Json → State → Result McpError Response × State
  handle_request (object request) st =
      let done = dispatch (get "method" request) (get "params" request) st in
      if is_version_2 (get "jsonrpc" request)
      then (ok (respond request done.0), done.1)
      else (err (record { code = invalid_request; message = "not a JSON-RPC 2.0 request" }), st)
  handle_request _ st =
      (err (record { code = invalid_request; message = "not a JSON-RPC 2.0 request" }), st)
