-- ===== src/Inventory/Discovery/Run.antt =====
-- `SkillshareInventoryDiscovery.discover` and `_run`. What Skillshare prints, what the file system
-- answers and the clock are arguments.
use skill_governance_control.Base.{
  String, Bool, not, List, [], ◌∷◌, ◌++◌, map, contains, select, none, some, Result, ok, err,
  safety_violation, ◌>>=◌, string_eq, list_eq, if◌then◌else◌, DateTime,
}
use skill_governance_control.Base.Files.{FilePath, path_text}
use skill_governance_control.Models.{Value, get_field}
use skill_governance_control.Inventory.{
  ScanLimits, RuntimeTarget, RuntimeIgnoredSkill, RuntimeInventorySnapshot,
}
use skill_governance_control.Inventory.Discovery.Values.{
  require_mapping, require_absolute_directory,
}
use skill_governance_control.Inventory.Discovery.Targets.{parse_targets, parse_version}
use skill_governance_control.Inventory.Discovery.Ignored.{parse_ignored}
use skill_governance_control.Inventory.Discovery.Scan.{
  FileSystem, ScannedSkill, Scanned, scan_shared, scan_targets,
}
use skill_governance_control.Inventory.Discovery.Aggregate.{aggregate_assets}

-- The four commands.
abbrev pub version_command : List String
version_command = "version" ∷ []

abbrev pub status_command : List String
status_command = "status" ∷ "--json" ∷ "--no-tui" ∷ []

abbrev pub list_command : List String
list_command = "list" ∷ "--json" ∷ "--no-tui" ∷ []

abbrev pub target_list_command : List String
target_list_command = "target" ∷ "list" ∷ "--json" ∷ "--no-tui" ∷ []

abbrev allowed_commands : List (List String)
allowed_commands = version_command ∷ status_command ∷ list_command ∷ target_list_command ∷ []

-- `_run`; `runner` is the payload of what the command runner returns.
unfoldable pub run_command : (List String → Result Value) → List String → Result Value
run_command runner args =
    if contains allowed_commands args
    then runner args
    else err (safety_violation "Skillshare inventory command is not allowed")

-- What `discover` uses of its surroundings.
pub record Surroundings : Type 0 where
  pub runner : List String → Result Value
  pub files : FileSystem
  pub matches : String → String → Bool
  pub find_versions : String → List String
  pub now : DateTime

-- `skill.name not in ignored_names`
unfoldable pub not_ignored : List RuntimeIgnoredSkill → List ScannedSkill → List ScannedSkill
not_ignored ignored skills =
    select (λ skill. not (contains (map (λ i. i.name) ignored) skill.name)) skills

-- What `discover` gets from the commands and from the shared directory, or fails to get.
pub record Readings : Type 0 where
  pub source_path : FilePath
  pub configured : List RuntimeTarget
  pub ignored : List RuntimeIgnoredSkill
  pub shared_scan : Scanned
  pub version : String

unfoldable pub gather : Surroundings → ScanLimits → Result Readings
gather s limits = do
  version_payload ← run_command s.runner version_command
  status_payload ← run_command s.runner status_command
  list_payload ← run_command s.runner list_command
  target_list_payload ← run_command s.runner target_list_command
  status ← require_mapping (some status_payload) "status"
  source ← require_mapping (get_field "source" status) "status source"
  source_path ← require_absolute_directory s.files.is_dir (get_field "path" source) "source path"
  configured ← parse_targets target_list_payload
  ignored ← parse_ignored source_path source list_payload
  shared_scan ← scan_shared s.files limits source_path list_payload
  version ← parse_version s.find_versions version_payload (get_field "version" status)
  ok (record {
    source_path = source_path;
    configured = configured;
    ignored = ignored;
    shared_scan = shared_scan;
    version = version;
  })

-- The snapshot of what was got and what is in the targets.
unfoldable pub snapshot_of : Surroundings → ScanLimits → Readings → RuntimeInventorySnapshot
snapshot_of s limits r =
    let ((target_skills, target_warnings), targets) = scan_targets s.files limits r.configured in
    let (shared_skills, shared_warnings) = r.shared_scan in
    record {
      generated_at = s.now;
      skillshare_version = r.version;
      source_path = path_text r.source_path;
      targets = targets;
      assets =
          aggregate_assets s.matches (not_ignored r.ignored shared_skills)
            (not_ignored r.ignored target_skills) targets;
      ignored = r.ignored;
      warnings = shared_warnings ++ target_warnings;
      snapshot_digest = none;
    }

unfoldable pub discover : Surroundings → ScanLimits → Result RuntimeInventorySnapshot
discover s limits = do readings ← gather s limits; ok (snapshot_of s limits readings)
