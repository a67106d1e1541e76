-- ===== src/Rules/Engine.antt =====
-- rules/base.py: `RuleEngine`. A pack is a function of a context of any type that returns findings or raises;
-- what is raised is the name of its type and its text. `RuleContext` and the models in it are frozen, so no pack changes
-- what the next one sees. The dictionary of the packs is an association list.
use devrepro_doctor.Prelude.{
  ℕ, zero, suc, String, none, some, Option, List, [], ◌∷◌, ◌++◌, map, str_eq, if◌then◌else◌, lookup,
  sort_strings,
}
use devrepro_doctor.Prelude.Printing.{text}
use devrepro_doctor.Result.{Result, ok, err}
use devrepro_doctor.Remediation.{unknown}
use devrepro_doctor.Rules.{Finding}

-- An exception: the name of its type, and its text.
pub record Raised : Type 0 where
  pub type_name : String
  pub message : String

abbrev pub PackFunc : Type 0 → Type 0
PackFunc Context = Context → Result Raised (List Finding)

-- `self._packs`
abbrev pub Packs : Type 0 → Type 0
Packs Context = List (String × PackFunc Context)

-- `excerpt[:n]`
abbrev pub take_chars : ℕ → String → String
take_chars zero s = String.[]
take_chars (suc n) String.[] = String.[]
take_chars (suc n) (String.◌∷◌ c s) = String.◌∷◌ c (take_chars n s)

abbrev pub pack_failed : String → Raised → Finding
pack_failed name raised = record {
  rule_id = text ("rulepack/" ∷ name ∷ "/failed" ∷ []);
  state = unknown;
  summary = text (
      "Rule pack '" ∷ name ∷ "' failed internally: " ∷ raised.type_name ∷ ": " ∷ raised.message
      ∷ []);
  evidence = take_chars 500 raised.message;
  detected = none;
  required = none;
  component = none;
  remediation_hint = none;
  references = [];
}

module _ {Context : Type 0} where
  -- `self._packs[name] = func`
  unfoldable pub register : String → PackFunc Context → Packs Context → Packs Context
  register name func [] = (name, func) ∷ []
  register name func ((other, g) ∷ packs) =
      let rest = register name func packs in
      if str_eq other name then (name, func) ∷ packs else (other, g) ∷ rest

  unfoldable pub pack_names : Packs Context → List String
  unfolding sort_strings
  pack_names packs = sort_strings (map (λ (p : String × PackFunc Context). p.0) packs)

  -- `packs or sorted(self._packs)`
  abbrev pub selected : Option (List String) → Packs Context → List String
  selected none packs = pack_names packs
  selected (some []) packs = pack_names packs
  selected (some (name ∷ names)) packs = name ∷ names

  -- One turn of the loop.
  abbrev pub pack_findings : String → Option (PackFunc Context) → Context → List Finding
  pack_findings name none ctx = []
  pack_findings name (some func) ctx = elim (func ctx) [
    | ok findings ↦ findings
    | err raised ↦ pack_failed name raised ∷ []
  ]

  unfoldable pub evaluate_loop : Packs Context → Context → List String → List Finding
  evaluate_loop packs ctx [] = []
  evaluate_loop packs ctx (name ∷ names) =
      pack_findings name (lookup name packs) ctx ++ evaluate_loop packs ctx names

  unfoldable pub evaluate : Packs Context → Context → Option (List String) → List Finding
  unfolding evaluate_loop pack_names
  evaluate packs ctx packs_asked = evaluate_loop packs ctx (selected packs_asked packs)
