-- ===== src/Lib.antt =====
-- A verification library of DevRepro Doctor, a tool that scans a developer's machine, compares it with
-- other machines and with what a project requires, and says what to do.
--
-- The program's parts. Probes fill a report and a snapshot of the machine; rules turn a report and the
-- project's policy into findings; the planner turns findings into a plan and executes what is safe of it;
-- the diff engine compares two snapshots, and the bisection finds which of their differences makes a
-- reproduction fail; the chain records snapshots so that a change of the history shows. The version
-- engine is what the rules, the baselines and the conflicts of a monorepo compare versions with. The contract says
-- which changed files concern the environment: the watch loop waits for them, and they select the rules to
-- run. The score rates what a project declares; the readiness and the briefing decide at the gate whether
-- an agent may start. Modelled are the parts below that decide; probes,
-- files, subprocesses, the network, the server and the rendering of reports are not: they are inputs
-- and outputs of these parts.
--
-- - Bisect is devrepro/reproduce/bisect.py: `bisect_dimensions` and `minimise_dimensions`, with the nested
--   `ask` as a state of verdicts and trail. The oracle `fails` is a parameter, a pure predicate. `halve`
--   runs on the number of dimensions, since each turn makes the rest shorter, and `refine` on the limit
--   of verdicts and one more, since each turn asks for one verdict at least.
-- - Chain is devrepro/snapshots/chain.py: `append_entry`, `read_chain`, `head_digest` and `verify_chain` on a
--   directory that is a value. sha256 and the JSON of an entry are the parameter `Codec`; where a theorem
--   needs them to round-trip or to have no collision, that is a hypothesis of it. The file of the chain is
--   a list of complete lines.
-- - Versioning is devrepro/core/versioning.py: versions with both of their orders (`_cmp_versions` here,
--   `_key` in Versioning/Keys), and the parsers. A text is a list of code points and is ASCII. A regular
--   expression is the list of its matches in the order of backtracking; the fuel of `nums_splits` is the
--   length of the text, of which every number takes a character. The field `raw` is left out.
-- - Remediation is devrepro/remediation/planner.py: `build_plan`, and `execute_plan` over a machine of any
--   type, with the executor and the check of the preconditions as parameters that change it. A result is a
--   record in place of the source's dictionary, without its fixed text `detail`.
-- - Compose is devrepro/project/compose.py: `_chain` over the parameter `extends_of`, with fuel from
--   `entries`, the number of entries that a file can put on the frontier, and in Compose/Merge `_merge`
--   and `_merge_env_names`. How Python prints a tuple is the parameter `show_versions`. The search for the
--   policy file and its TOML are not modelled.
-- - Diff is devrepro/diff/engine.py: `diff_snapshots`, each part of it a function, with the snapshots in
--   Diff/Model and the containers, WSL and GPU in Diff/Machine. Python's order in a set of
--   platform keys is the parameter `platform_keys`; `snapshot_id`, a hash, is a field.
-- - Rules is devrepro/rules/base.py: `check_version_requirement` over the version engine, with Python's `repr`
--   as a parameter, and in Rules/Engine `RuleEngine`, whose packs are functions that may raise and that leave the
--   frozen context as it is. Which packs there are, and what they check, is not modelled.
-- - Contract is devrepro/project/contract.py: `classify_contract_path` with its table, in Contract/Git
--   `changed_files` over the parameter `run`, which answers for git, and in Contract/Collect `contract_changes`
--   and `relevant_rule_prefixes`. Of `fnmatch` the `*` is modelled, which is the only sign of the table, with the
--   case of a path counting, as on POSIX.
-- - Watch is devrepro/watch.py: in Watch/Walk `watched_paths` on a tree that is a value, with the number of
--   directories as fuel, since each turn takes a directory off the stack; then `fingerprint`, `_diff`, `_merge` and the
--   loop of `watch`, on a list of polls that stands for `max_polls`, the clock, the sleep and the files. Time is
--   in whole ticks. The hash of a file's bytes is a parameter.
-- - Agents is devrepro/agents/score.py; Agents/Radius and Agents/Briefing are devrepro/agents/blast_radius.py with
--   `looks_like_credential_name` of devrepro/privacy/gate.py, and Agents/Gate is `evaluate_gate` of
--   devrepro/agents/gate.py. The programs that are asked, the home directory and the user are parameters.
-- - Score is devrepro/rules/score.py: `compute_score`, with the files at the root as a parameter.
-- - Monorepo is devrepro/project/monorepo.py: `_detect_conflicts` and `_ranges_overlap`, on manifests that come
--   with the versions that they declare.
-- - Baselines is devrepro/snapshots/baseline.py: `diff_against_baseline` over the version engine.
-- - Report is devrepro/core/contract.py: `check_report` on JSON values.
-- - Mcp is devrepro/mcp/protocol.py: `ReportCache.get` with the scanner as a parameter, `validate_arguments` with
--   the tools' schemas in Mcp/Arguments, and `handle_request` over the parameter `dispatch`, with the state of the
--   server passed on.
-- - Result holds results that may be errors; Prelude the shared tests, lists, texts and sorting.
--
-- Models of devrepro/core/models.py stand beside the part that reads them, with the fields it reads. An
-- exception is an error of a result, and a dictionary is an association list.
mod Prelude
pub mod Result
pub mod Bisect
pub mod Chain
pub mod Versioning
pub mod Remediation
pub mod Compose
pub mod Diff
pub mod Rules
pub mod Contract
pub mod Watch
pub mod Agents
pub mod Score
pub mod Baselines
pub mod Report
pub mod Monorepo
pub mod Mcp
