-- ===== src/Report/Samples.antt =====
-- A report with one finding, and reports that break the contract.
use devrepro_doctor.Prelude.{◌≡◌, refl, String, true, [], ◌∷◌, length, ℕ}
use devrepro_doctor.Report.{
  Json, string, array, object, integer, Items, no_items, item, Members, no_members, member,
  check_report,
}
use devrepro_doctor.Report.Conforming.{is_clear, is_clear-check_report}

abbrev quoted : String → String
quoted s = s

abbrev finding : String → Items → Json
finding state evidence = object (
    member "rule_id" (string "node/version-ok") (
      member "state" (string state)
        (member "summary" (string "") (member "evidence" (array evidence) no_members))))

abbrev report : Items → Members
report findings = member "schema_version" (string "1.0") (
    member "devrepro_version" (string "0.9") (
      member "created_at" (string "") (
        member "platform" (object no_members)
          (member "findings" (array findings) (member "tools" (array no_items) no_members)))))

abbrev good : Members
good = report (item (finding "PASS" (item (string "node --version") no_items)) no_items)

abbrev problems : Members → ℕ
problems payload = length (check_report quoted payload)

counts :
    (problems (report (item (finding "FINE" no_items) (item (integer "3") no_items))) ≡ 3)
    × (problems no_members ≡ 6)
    × (check_report quoted (report (item (integer "3") no_items))
        ≡ "findings[0]: not an object" ∷ [])
unfolding check_report
counts = (refl, refl, refl)

is_clear-check_report_example : is_clear (check_report quoted good) ≡ true
is_clear-check_report_example = is_clear-check_report quoted good
