-- ===== src/Diff/Same/Agreement.antt =====
-- `diff_snapshots` against what it means for two snapshots to agree.
use devrepro_doctor.Prelude.{
  ◌≡◌, ◌↔◌, refl, sym, ap, ◌∙◌, String, Bool, true, false, not, ◌&&◌, Option, none, some, List, [],
  ◌∷◌, ◌++◌, str_eq, str_eq_iff, str_leb, all, arith, opt_eq, opt_eq_iff, sort_strings,
}
use devrepro_doctor.Result.{ok}
use devrepro_doctor.Diff.{
  DiffEntry, EnvironmentDiff, value_eq, texts_eq, PlatformKey, Tool, Requirement, Containers, Axis,
  Key, Snapshot, platform_value, platform_entries, compare_optional, tool_entries, find_tool,
  tool_names, path_entries, or_no_entries, requirement_entries, requirement_keys, find_spec, key_eq,
  key_of, key_leb, daemon_differs, daemon_entries, engine_entries, container_axes, optional_entries,
  compared_facts, Fact, diff_entries, diff_snapshots,
}
use devrepro_doctor.Diff.Same.{is_same, is_same_class, all-append, texts_eq_iff}
use devrepro_doctor.Diff.Same.Tools.{every_key}
use devrepro_doctor.Diff.Same.Sections.{
  all-compare_optional, all-platform_entries, tools_eq, all-tool_entries, all-path_entries,
  all-requirement_entries, all-daemon_entries, all-axis_entries,
}

-- The engines agree if one side reports none.
abbrev pub engines_eq : Option Containers → Option Containers → Bool
engines_eq (some a) (some b) = all (λ (x : Axis). value_eq (x.fact a) (x.fact b)) container_axes
engines_eq _ _ = true

-- What both snapshots say alike: each tool by its name, present or not, with its version and path; each
-- declared requirement by its key; PATH; and the facts of the platform, the containers, WSL and the GPU.
pub record Agree (keys : List PlatformKey) (a b : Snapshot) : Type 0 where
  pub platform :
      all (λ k. value_eq (platform_value k a.platform) (platform_value k b.platform)) keys ≡ true
  pub tools : (name : String) → tools_eq (find_tool name a.tools) (find_tool name b.tools) ≡ true
  pub path : or_no_entries a.path_analysis ≡ or_no_entries b.path_analysis
  pub requirements :
      (k : Key) → find_spec k a.requirements_fingerprint ≡ find_spec k b.requirements_fingerprint
  pub daemon : daemon_differs a.containers b.containers ≡ false
  pub engines : engines_eq a.containers b.containers ≡ true
  pub optional : all (λ (f : Fact). value_eq (f.value a) (f.value b)) compared_facts ≡ true

all-engine_entries : (a b : Option Containers) → all is_same (engine_entries a b) ≡ engines_eq a b
unfolding engine_entries
all-engine_entries (some a) (some b) = all-axis_entries container_axes a b
all-engine_entries none none = refl
all-engine_entries none (some b) = refl
all-engine_entries (some a) none = refl

all-optional_entries :
    (facts : List Fact) (a b : Snapshot)
    → all (λ (f : Fact). not (is_same_class f.classification)) facts ≡ true
    → all is_same (optional_entries facts a b)
      ≡ all (λ (f : Fact). value_eq (f.value a) (f.value b)) facts
unfolding optional_entries
all-optional_entries [] a b reported = refl
all-optional_entries (f ∷ facts) a b reported =
    let first =
      compare_optional f.component f.name (f.value a) (f.value b) f.classification f.detail
        f.critical in
    ground (
      arith,
      all-append is_same first (optional_entries facts a b),
      all-compare_optional f.component f.name (f.value a) (f.value b) f.classification f.detail
          f.critical,
      all-optional_entries facts a b,
    )

-- The tests that decide `Agree`, in the order of the comparison.
abbrev agreed : List PlatformKey → Snapshot → Snapshot → Bool
agreed keys a b =
    let a_reqs = a.requirements_fingerprint in
    let b_reqs = b.requirements_fingerprint in
    all (λ k. value_eq (platform_value k a.platform) (platform_value k b.platform)) keys
    && (all (λ name. tools_eq (find_tool name a.tools) (find_tool name b.tools))
          (tool_names a.tools b.tools)
        && (texts_eq (or_no_entries a.path_analysis) (or_no_entries b.path_analysis)
            && (all (λ k. opt_eq (find_spec k a_reqs) (find_spec k b_reqs))
                  (requirement_keys a_reqs b_reqs)
                && (not (daemon_differs a.containers b.containers)
                    && (engines_eq a.containers b.containers
                        && all (λ (f : Fact). value_eq (f.value a) (f.value b)) compared_facts)))))

-- Seven lists that report by the given tests.
all-append-seven :
    (xs ys zs us vs ws ts : List DiffEntry) (p q r s t u v : Bool)
    → all is_same xs ≡ p
    → all is_same ys ≡ q
    → all is_same zs ≡ r
    → all is_same us ≡ s
    → all is_same vs ≡ t
    → all is_same ws ≡ u
    → all is_same ts ≡ v
    → all is_same (xs ++ ys ++ zs ++ us ++ vs ++ ws ++ ts)
      ≡ (p && (q && (r && (s && (t && (u && v))))))
all-append-seven xs ys zs us vs ws ts p q r s t u v a b c d e f g = ground (
  arith,
  all-append is_same xs ys,
  all-append is_same (xs ++ ys) zs,
  all-append is_same (xs ++ ys ++ zs) us,
  all-append is_same (xs ++ ys ++ zs ++ us) vs,
  all-append is_same (xs ++ ys ++ zs ++ us ++ vs) ws,
  all-append is_same (xs ++ ys ++ zs ++ us ++ vs ++ ws) ts,
)

all-diff_entries :
    (keys : List PlatformKey) (a b : Snapshot)
    → all is_same (diff_entries keys a b) ≡ agreed keys a b
unfolding diff_entries
all-diff_entries keys a b =
    let a_reqs = a.requirements_fingerprint in
    let b_reqs = b.requirements_fingerprint in
    all-append-seven (platform_entries keys a.platform b.platform)
      (tool_entries a.tools b.tools a_reqs b_reqs (tool_names a.tools b.tools))
      (path_entries (or_no_entries a.path_analysis) (or_no_entries b.path_analysis))
      (requirement_entries a_reqs b_reqs (requirement_keys a_reqs b_reqs))
      (daemon_entries a.containers b.containers) (engine_entries a.containers b.containers)
      (optional_entries compared_facts a b) _ _ _ _ _ _ _
      (all-platform_entries keys a.platform b.platform)
      (all-tool_entries a.tools b.tools a_reqs b_reqs (tool_names a.tools b.tools))
      (all-path_entries (or_no_entries a.path_analysis) (or_no_entries b.path_analysis))
      (all-requirement_entries a_reqs b_reqs (requirement_keys a_reqs b_reqs))
      (all-daemon_entries a.containers b.containers) (all-engine_entries a.containers b.containers)
      (all-optional_entries compared_facts a b refl)

key_eq-path : (k l : Key) → key_eq k l ≡ true → k ≡ l
key_eq-path (a, b) (c, d) h =
    let left : a ≡ c = (str_eq_iff a c).0 (ground arith) in
    let right : b ≡ d = (str_eq_iff b d).0 (ground arith) in cc (left, right)

not-true : (b : Bool) → not b ≡ true → b ≡ false
not-true b h = ground arith

and-seven_iff :
    (p q r s t u v : Bool)
    → ((p && (q && (r && (s && (t && (u && v)))))) ≡ true)
      ↔ ((p ≡ true) × (q ≡ true) × (r ≡ true) × (s ≡ true) × (t ≡ true) × (u ≡ true) × (v ≡ true))
and-seven_iff p q r s t u v = ground arith

agreed_iff : (keys : List PlatformKey) (a b : Snapshot) → (agreed keys a b ≡ true) ↔ Agree keys a b
unfolding sort_strings
agreed_iff keys a b =
    let a_reqs = a.requirements_fingerprint in
    let b_reqs = b.requirements_fingerprint in
    let tools =
      every_key str_eq (λ s t e. (str_eq_iff s t).0 e) (λ (t : Tool). t.name) (λ (t : Tool). t)
        str_leb tools_eq a.tools b.tools refl in
    let specs =
      every_key key_eq key_eq-path key_of (λ (r : Requirement). r.spec) key_leb opt_eq a_reqs b_reqs
        refl in
    let paths = texts_eq_iff (or_no_entries a.path_analysis) (or_no_entries b.path_analysis) in
    let parts =
      and-seven_iff
        (all (λ k. value_eq (platform_value k a.platform) (platform_value k b.platform)) keys)
        (all (λ name. tools_eq (find_tool name a.tools) (find_tool name b.tools))
          (tool_names a.tools b.tools))
        (texts_eq (or_no_entries a.path_analysis) (or_no_entries b.path_analysis))
        (all (λ k. opt_eq (find_spec k a_reqs) (find_spec k b_reqs))
          (requirement_keys a_reqs b_reqs))
        (not (daemon_differs a.containers b.containers)) (engines_eq a.containers b.containers)
        (all (λ (f : Fact). value_eq (f.value a) (f.value b)) compared_facts) in
    (
      λ h.
          let (p, q, r, s, t, u, v) = parts.0 h in
          record {
            platform = p;
            tools = tools.0 q;
            path = paths.0 r;
            requirements =
                λ k. (opt_eq_iff (find_spec k a_reqs) (find_spec k b_reqs)).0 (specs.0 s k);
            daemon = not-true (daemon_differs a.containers b.containers) t;
            engines = u;
            optional = v;
          },
      λ agree. parts.1 (
        agree.platform,
        tools.1 agree.tools,
        paths.1 agree.path,
        specs.1
            (λ k. (opt_eq_iff (find_spec k a_reqs) (find_spec k b_reqs)).1 (agree.requirements k)),
        ap not agree.daemon,
        agree.engines,
        agree.optional,
      ),
    )

-- Snapshots of one schema are compared to the end, and the entries are all `same` exactly when the
-- snapshots agree: on every tool by its name, every declared requirement by its key, PATH, and each
-- fact of the platform, the containers, WSL and the GPU that is compared.
pub diff_snapshots_iff :
    (keys : List PlatformKey) (a b : Snapshot)
    → a.schema_version ≡ b.schema_version
    → (d : EnvironmentDiff) × (diff_snapshots keys a b ≡ ok d)
      × ((all is_same d.entries ≡ true) ↔ Agree keys a b)
unfolding diff_snapshots
diff_snapshots_iff keys a b schema =
    let e = (str_eq_iff a.schema_version b.schema_version).1 schema in
    let same_entries = all-diff_entries keys a b in
    (
      record {
        a_snapshot_id = a.snapshot_id;
        b_snapshot_id = b.snapshot_id;
        entries = diff_entries keys a b;
      },
      rw e refl,
      (
        λ h. (agreed_iff keys a b).0 (sym same_entries ∙ h),
        λ agree. same_entries ∙ (agreed_iff keys a b).1 agree,
      ),
    )
