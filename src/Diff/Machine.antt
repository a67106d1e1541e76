-- ===== src/Diff/Machine.antt =====
-- diff/engine.py: the parts of the comparison on containers, WSL and the GPU.
use devrepro_doctor.Prelude.{
  String, Bool, true, false, not, Option, none, some, List, [], ◌∷◌, ◌++◌, if◌then◌else◌,
}
use devrepro_doctor.Diff.Model.{
  Containers, Wsl, Gpu, Snapshot, Classification, version_drift, platform_expected,
  project_critical, DiffEntry, Value, absent, flag, of_text, of_flag, bool_eq, value_eq, show,
  show_present, entry,
}

-- `_compare_optional`: absent on both sides is equal, too.
unfoldable pub compare_optional :
    String → String → Value → Value → Classification → String → Bool → List DiffEntry
compare_optional component name a b classification detail critical =
    if value_eq a b
    then []
    else entry component name classification (some (show a)) (some (show b)) detail critical ∷ []

abbrev pub daemon_ok : Option Containers → Value
daemon_ok none = absent
daemon_ok (some c) = flag c.docker_daemon_ok

-- One side has no container state, or both have one and the health of the daemon differs.
abbrev pub daemon_differs : Option Containers → Option Containers → Bool
daemon_differs none none = false
daemon_differs (some a) (some b) = not (bool_eq a.docker_daemon_ok b.docker_daemon_ok)
daemon_differs _ _ = true

unfoldable pub daemon_entries : Option Containers → Option Containers → List DiffEntry
daemon_entries a b =
    if daemon_differs a b
    then entry "container" "docker-daemon" project_critical (some (show (daemon_ok a)))
        (some (show (daemon_ok b)))
        "Docker daemon health differs; container builds will behave differently." true
      ∷ []
    else []

-- A row of `_CONTAINER_AXES`.
pub record Axis : Type 0 where
  pub name : String
  pub fact : Containers → Value
  pub detail : String
  pub critical : Bool

abbrev axis : String → (Containers → Value) → String → Bool → Axis
axis name fact detail critical = record {
  name = name;
  fact = fact;
  detail = detail;
  critical = critical;
}

abbrev pub container_axes : List Axis
container_axes =
    axis "engine-backend" (λ c. of_text c.backend)
      "A different container engine is behind `docker`. Bind-mount behaviour, file-sharing performance and available host paths all differ between them."
      true
    ∷ axis "engine-arch" (λ c. of_text c.server_arch)
        "The engines run different architectures; one of these is emulating, which is correct and roughly ten times slower."
        true
    ∷ axis "cgroup-version" (λ c. of_text c.cgroup_version)
        "cgroup versions differ. Memory and CPU limits behave differently, so a container that is OOM-killed on one machine can pass on the other."
        true
    ∷ axis "storage-driver" (λ c. of_text c.storage_driver)
        "Storage drivers differ. Layer caching and build times differ with them, and some drivers are removed in current engines."
        false
    ∷ axis "engine-version" (λ c. of_text c.server_version) "Container engine versions differ."
        false
    ∷ axis "buildx-version" (λ c. of_text c.buildx_version)
        "buildx versions differ. Multi-platform builds, build secrets and cache mounts depend on it."
        false
    ∷ axis "rootless" (λ c. of_flag c.rootless)
        "One engine runs rootless and the other does not. Port binding below 1024, file ownership in bind mounts and some network modes differ."
        true
    ∷ []

unfoldable pub axis_entries : List Axis → Containers → Containers → List DiffEntry
axis_entries [] a b = []
axis_entries (x ∷ axes) a b =
    let rest = axis_entries axes a b in
    if value_eq (x.fact a) (x.fact b)
    then rest
    else entry "container" x.name (if x.critical then project_critical else version_drift)
        (show_present (x.fact a)) (show_present (x.fact b)) x.detail x.critical
      ∷ rest

unfoldable pub engine_entries : Option Containers → Option Containers → List DiffEntry
unfolding axis_entries
engine_entries (some a) (some b) = axis_entries container_axes a b
engine_entries _ _ = []

-- `getattr(x, name) if x else None`
abbrev pub fact_of : {A : Type 0} → (A → Value) → Option A → Value
fact_of fact none = absent
fact_of fact (some x) = fact x

-- A call of `_compare_optional`.
pub record Fact : Type 0 where
  pub component : String
  pub name : String
  pub value : Snapshot → Value
  pub classification : Classification
  pub detail : String
  pub critical : Bool

abbrev fact : String → String → (Snapshot → Value) → Classification → String → Bool → Fact
fact component name value classification detail critical = record {
  component = component;
  name = name;
  value = value;
  classification = classification;
  detail = detail;
  critical = critical;
}

abbrev pub compared_facts : List Fact
compared_facts =
    fact "container" "docker-cli"
      (λ s. fact_of (λ (c : Containers). of_text c.docker_cli_version) s.containers) version_drift
      "Docker CLI version differs between the two machines." false
    ∷ fact "wsl" "wsl-available" (λ s. fact_of (λ (w : Wsl). flag w.available) s.wsl)
        platform_expected "WSL availability differs; Linux-path builds behave differently." false
    ∷ fact "wsl" "wsl-default-distro" (λ s. fact_of (λ (w : Wsl). of_text w.default_distro) s.wsl)
        platform_expected "The default WSL distro differs; commands run against another filesystem."
        false
    ∷ fact "gpu" "nvidia-driver" (λ s. fact_of (λ (g : Gpu). of_text g.nvidia_driver) s.gpu)
        project_critical "nvidia-driver differs; GPU workloads may not reproduce." true
    ∷ fact "gpu" "cuda-toolkit" (λ s. fact_of (λ (g : Gpu). of_text g.cuda_toolkit) s.gpu)
        project_critical "cuda-toolkit differs; GPU workloads may not reproduce." true
    ∷ fact "gpu" "rocm" (λ s. fact_of (λ (g : Gpu). of_text g.rocm) s.gpu) project_critical
        "rocm differs; GPU workloads may not reproduce." true
    ∷ []

unfoldable pub optional_entries : List Fact → Snapshot → Snapshot → List DiffEntry
unfolding compare_optional
optional_entries [] a b = []
optional_entries (f ∷ facts) a b =
    compare_optional f.component f.name (f.value a) (f.value b) f.classification f.detail f.critical
    ++ optional_entries facts a b
