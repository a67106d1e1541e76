-- ===== src/Diff/Same/Sections.antt =====
-- What each part of a comparison reports, as a test of the two snapshots.
use devrepro_doctor.Prelude.{
  ◌≡◌, refl, String, Bool, true, false, not, ◌&&◌, ◌||◌, Option, none, some, List, [], ◌∷◌, str_eq,
  all, arith, opt_eq,
}
use devrepro_doctor.Diff.{
  Classification, Value, value_eq, texts_eq, Platform, PlatformKey, Tool, Requirement, Containers,
  Axis, Key, platform_value, platform_entries, compare_optional, tool_entry, tool_entries,
  find_tool, or_empty, path_entries, requirement_entries, find_spec, daemon_differs, daemon_entries,
  axis_entries, is_required,
}
use devrepro_doctor.Diff.Same.{is_same, is_same_class, all-append}

pub all-compare_optional :
    (component name : String) (a b : Value) (c : Classification) (detail : String) (critical : Bool)
    → is_same_class c ≡ false
    → all is_same (compare_optional component name a b c detail critical) ≡ value_eq a b
unfolding compare_optional
all-compare_optional component name a b c detail critical h = ground arith

pub all-platform_entries :
    (keys : List PlatformKey) (pa pb : Platform)
    → all is_same (platform_entries keys pa pb)
      ≡ all (λ k. value_eq (platform_value k pa) (platform_value k pb)) keys
unfolding platform_entries
all-platform_entries [] pa pb = refl
all-platform_entries (k ∷ keys) pa pb = ground (arith, all-platform_entries keys pa pb)

-- Both are absent, or the versions and the paths are the same texts.
abbrev pub tools_eq : Option Tool → Option Tool → Bool
tools_eq none none = true
tools_eq (some a) (some b) =
    str_eq (or_empty a.version) (or_empty b.version)
    && str_eq (or_empty a.exe_path) (or_empty b.exe_path)
tools_eq _ _ = false

all-tool_entry :
    (critical : Bool) (name : String) (a b : Option Tool)
    → all is_same (tool_entry critical name a b) ≡ tools_eq a b
unfolding tool_entry
all-tool_entry critical name none none = refl
all-tool_entry critical name none (some b) = refl
all-tool_entry critical name (some a) none = refl
all-tool_entry critical name (some a) (some b) = ground arith

pub all-tool_entries :
    (a b : List Tool) (a_reqs b_reqs : List Requirement) (names : List String)
    → all is_same (tool_entries a b a_reqs b_reqs names)
      ≡ all (λ name. tools_eq (find_tool name a) (find_tool name b)) names
unfolding tool_entries
all-tool_entries a b a_reqs b_reqs [] = refl
all-tool_entries a b a_reqs b_reqs (name ∷ names) =
    let critical = is_required name a_reqs || is_required name b_reqs in
    let first = tool_entry critical name (find_tool name a) (find_tool name b) in
    ground (
      arith,
      all-append is_same first (tool_entries a b a_reqs b_reqs names),
      all-tool_entry critical name (find_tool name a) (find_tool name b),
      all-tool_entries a b a_reqs b_reqs names,
    )

pub all-path_entries : (a b : List String) → all is_same (path_entries a b) ≡ texts_eq a b
unfolding path_entries
all-path_entries a b = ground arith

pub all-requirement_entries :
    (a b : List Requirement) (keys : List Key)
    → all is_same (requirement_entries a b keys)
      ≡ all (λ k. opt_eq (find_spec k a) (find_spec k b)) keys
unfolding requirement_entries
all-requirement_entries a b [] = refl
all-requirement_entries a b (k ∷ keys) = ground (arith, all-requirement_entries a b keys)

pub all-daemon_entries :
    (a b : Option Containers) → all is_same (daemon_entries a b) ≡ not (daemon_differs a b)
unfolding daemon_entries
all-daemon_entries a b = ground arith

pub all-axis_entries :
    (axes : List Axis) (a b : Containers)
    → all is_same (axis_entries axes a b) ≡ all (λ (x : Axis). value_eq (x.fact a) (x.fact b)) axes
unfolding axis_entries
all-axis_entries [] a b = refl
all-axis_entries (x ∷ axes) a b = ground (arith, all-axis_entries axes a b)
