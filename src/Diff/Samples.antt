-- ===== src/Diff/Samples.antt =====
-- Two machines that run one version of node from different places.
use devrepro_doctor.Prelude.Printing.{decimal}
use devrepro_doctor.Prelude.{◌≡◌, ◌↔◌, refl, String, true, none, some, List, [], ◌∷◌, all, map}
use devrepro_doctor.Result.{ok, err}
use devrepro_doctor.Diff.{
  Snapshot, PlatformKey, EnvironmentDiff, DiffEntry, Classification, os_name, os_version, arch,
  kernel, diff_snapshots, diff_entries, incompatible_schemas,
}
use devrepro_doctor.Diff.Same.{is_same}
use devrepro_doctor.Diff.Same.Agreement.{Agree, diff_snapshots_iff}

abbrev keys : List PlatformKey
keys = arch ∷ kernel ∷ os_name ∷ os_version ∷ []

abbrev here : Snapshot
here = record {
  schema_version = "1.0";
  snapshot_id = "aaaa";
  platform = record { os_name = "Linux"; os_version = "6.1"; arch = "x86_64"; kernel = none };
  tools =
      record { name = "node"; version = some "20.11.0"; exe_path = some "/usr/bin/node" }
      ∷ record { name = "git"; version = none; exe_path = none }
      ∷ [];
  path_analysis = some ("/usr/bin" ∷ "/bin" ∷ []);
  requirements_fingerprint = record { ecosystem = "node"; name = "node"; spec = ">=20" } ∷ [];
  containers = none;
  wsl = none;
  gpu = none;
}

abbrev there : Snapshot
there = record here {
  snapshot_id = "bbbb";
  tools = record { name = "node"; version = some "20.11.0"; exe_path = some "/opt/node" } ∷ [];
  path_analysis = some ("/opt" ∷ "/usr/bin" ∷ []);
}

abbrev summary : List DiffEntry → List (String × Classification)
summary es = map (λ (e : DiffEntry). (e.name, e.classification)) es

runs :
    (summary (diff_entries keys here there)
      ≡ ("git", Classification.missing)
        ∷ ("node", Classification.path_precedence)
        ∷ ("PATH", Classification.path_precedence)
        ∷ [])
    × (all is_same (diff_entries keys here here) ≡ true)
    × (diff_snapshots keys here (record here { schema_version = "2.0" })
        ≡ err (incompatible_schemas "1.0" "2.0"))
    × (decimal 120 120 ≡ "120")
unfolding diff_snapshots diff_entries decimal
runs = (refl, refl, refl, refl)

diff_snapshots_iff_example :
    (d : EnvironmentDiff) × (diff_snapshots keys here there ≡ ok d)
    × ((all is_same d.entries ≡ true) ↔ Agree keys here there)
diff_snapshots_iff_example = diff_snapshots_iff keys here there refl
