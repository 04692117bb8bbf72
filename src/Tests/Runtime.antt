-- ===== src/Tests/Runtime.antt =====
-- Runs of the theorems on the runtime inventory.
use skill_governance_control.Base.{
  String, Bool, true, false, Option, none, some, List, [], ◌∷◌, Result, ok, ◌≡◌, ◌≢◌, refl,
  find_first, ◌==◌, string_eq, list_eq, nat_eq, option_eq, ◌++◌, if◌then◌else◌,
}
use skill_governance_control.Base.Bytes.{Bytes}
use skill_governance_control.Base.Sorting.{sort_by, insert_by}
use skill_governance_control.Base.Reading.{read_limited, read_chunks}
use skill_governance_control.Base.Lines.{strip}
use skill_governance_control.Base.Text.{codes, is_blank, is_space}
use skill_governance_control.Base.Files.{
  path_of, root_of, leading_slashes, split_slash, path_text, join_slash, abs_path, normal_parts,
  path_name,
}
use skill_governance_control.Models.{Value, text, object, array, item, item_end, field, field_end}
use skill_governance_control.Inventory.{
  ScanLimits, RuntimeTarget, RuntimeSkillAsset, shared, target, consistent,
}
use skill_governance_control.Inventory.Discovery.{
  FileAnswer, opened, folder, regular, Listing, listed, entry, entry_end, FoundFile, walk_root,
  exhausted, directory_digest, digest_walked, walk, has_failed, scan_entries, descending,
  ignore_file, ends_with_pyc, is_ignored_directory, folders_of_listing, hash_files, hashed_files,
  hash_file, read_regular_file, read_opened, frame, decimal_digits, group_skills, add_group,
  asset_of, source_of, targets_of, is_shared, first_skill, missing_targets_of, target_expects_skill,
  is_present, asset_status, asset_description, has_scan_problem, differs_from, ScannedSkill,
  aggregate_assets, FileSystem, Surroundings, Readings, require_sequence, parse_entries, items_of,
  parse_target, require_absolute_path, string_tuple, all_texts, skillignore_entries,
  collect_skillignore, parse_skillignore, require_relative_path, normalized_source_path,
  put_ignored, collect_disabled, fallback_version, with_v, scan_shared_entries, version_command,
  status_command, list_command, snapshot_of, gather, run_command, require_mapping,
  require_absolute_directory, require_string, parse_targets, parse_ignored, scan_shared,
  parse_version, discover,
}
use skill_governance_control.Inventory.Discovery.Laws.Walking.{walk_root_ends}
use skill_governance_control.Inventory.Discovery.Laws.Whole.{
  IsWholeDigest, directory_digest-complete,
}
use skill_governance_control.Inventory.Discovery.Laws.Groups.{named}
use skill_governance_control.Inventory.Discovery.Laws.Grouping.{
  expected_asset, aggregate_assets-find,
}
use skill_governance_control.Inventory.Discovery.Laws.Status.{
  IsConsistent, aggregate_assets-IsConsistent,
}
use skill_governance_control.Inventory.Discovery.Laws.Ignoring.{IsIgnoring, discover-IsIgnoring}
use skill_governance_control.Tests.Data.{noon}

abbrev limits : ScanLimits
limits = record { max_files = 8; max_file_bytes = 100; max_total_bytes = 200 }

abbrev file_with : Bytes → FileAnswer
file_with content =
    opened
      (record { is_regular = some true; content = content; answers = λ i. some 0; closes = true })

abbrev tree : Listing
tree = listed (
    entry "SKILL.md" (regular (file_with (1 ∷ 2 ∷ []))) (
      entry "more" (folder (listed (entry "a" (regular (file_with (3 ∷ []))) entry_end)))
        entry_end))

walk_root_ends_example : walk_root limits "/s" tree [] ≢ exhausted
walk_root_ends_example = walk_root_ends limits "/s" tree []

tree_complete : (directory_digest codes (λ b. "digest") limits "/s" tree []).complete ≡ true
unfolding directory_digest digest_walked walk_root walk has_failed scan_entries descending sort_by
    insert_by ignore_file string_eq ends_with_pyc list_eq nat_eq is_ignored_directory
    folders_of_listing hash_files hashed_files hash_file read_regular_file read_opened read_limited
    read_chunks frame decimal_digits
tree_complete = refl

directory_digest-complete_example :
    (hashed : List (FoundFile × Bytes)) × IsWholeDigest codes
      (λ b. "digest")
      limits
      "/s"
      tree
      (directory_digest codes (λ b. "digest") limits "/s" tree []).digest
      hashed
directory_digest-complete_example =
    directory_digest-complete codes (λ b. "digest") limits "/s" tree [] tree_complete

abbrev skill_at : String → Option String → Bool → ScannedSkill
skill_at path target_name is_shared = record {
  name = "a";
  description = none;
  instance_ = record {
    location_kind = if is_shared then shared else target;
    target_name = target_name;
    path = path;
    distribution_mode = "copy";
    digest = some "digest";
    is_symlink = false;
    readable = true;
    scan_warnings = [];
  };
}

abbrev source_skills : List ScannedSkill
source_skills = skill_at "/s/a" none true ∷ []

abbrev target_skills : List ScannedSkill
target_skills = skill_at "/t/a" (some "t") false ∷ []

abbrev pub configured : List RuntimeTarget
configured =
    record { name = "t"; path = "/t"; mode = "copy"; include = []; exclude = []; readable = true }
    ∷ []

abbrev assets : List RuntimeSkillAsset
assets = aggregate_assets (λ name pattern. true) source_skills target_skills configured

aggregate_assets-find_example :
    find_first (λ a. a.name == "a") assets
    ≡ expected_asset
        (λ name pattern. true)
        configured
        "a"
        (skill_at "/s/a" none true ∷ skill_at "/t/a" (some "t") false ∷ [])
unfolding string_eq
aggregate_assets-find_example =
    aggregate_assets-find (λ name pattern. true) source_skills target_skills configured "a"

abbrev pub found_asset : RuntimeSkillAsset
found_asset = record {
  key = "a";
  name = "a";
  description = none;
  status = consistent;
  source_instance = some (skill_at "/s/a" none true).instance_;
  target_instances = (skill_at "/t/a" (some "t") false).instance_ ∷ [];
  missing_targets = [];
}

asset_found : find_first (λ a. a.name == "a") assets ≡ some found_asset
unfolding aggregate_assets sort_by insert_by group_skills add_group asset_of source_of targets_of
    is_shared first_skill missing_targets_of target_expects_skill is_present asset_status
    asset_description has_scan_problem differs_from string_eq option_eq
asset_found = refl

aggregate_assets-IsConsistent_example :
    (source : ScannedSkill) × IsConsistent
      (λ name pattern. true)
      configured
      "a"
      (named "a" (source_skills ++ target_skills))
      source
    × (found_asset.source_instance ≡ some source.instance_)
aggregate_assets-IsConsistent_example =
    aggregate_assets-IsConsistent (λ name pattern. true) source_skills target_skills configured "a"
      found_asset asset_found refl

abbrev status_output : Value
status_output = object (
    field "source"
      (object (
        field "path" (text "/s") (
          field "skillignore"
            (object (field "ignored_skills" (array (item (text "b") item_end)) field_end))
            field_end)))
      field_end)

abbrev targets_output : Value
targets_output = object (
    field "targets"
      (array (
        item
          (object (
            field "name" (text "t")
              (field "path" (text "/t") (field "mode" (text "copy") field_end))))
          item_end))
      field_end)

abbrev command_output : List String → Result Value
command_output args =
    if args == version_command
    then ok (text "1.2.3")
    else if args == status_command
    then ok status_output
    else if args == list_command
    then ok (array item_end)
    else ok targets_output

-- The target has the skills "a" and "b".
abbrev file_system : FileSystem
file_system = record {
  is_dir = λ p. true;
  is_file = λ p. true;
  is_link = λ p. false;
  names_in = λ p. some ("a" ∷ "b" ∷ []);
  listing_of = λ p. tree;
  open_file = λ p. file_with (1 ∷ []);
  encode = codes;
  decode = λ b. none;
  sha256_hex = λ b. "digest";
  load_yaml = λ b. none;
}

abbrev surroundings : Surroundings
surroundings = record {
  runner = command_output;
  files = file_system;
  matches = λ name pattern. true;
  find_versions = λ s. s ∷ [];
  now = noon;
}

abbrev readings : Readings
readings = record {
  source_path = record { root = "/"; parts = "s" ∷ [] };
  configured = configured;
  ignored = record { name = "b"; path = "/s/b"; reason = "skillignore" } ∷ [];
  shared_scan = ([], []);
  version = "v1.2.3";
}

discovered : discover surroundings limits ≡ ok (snapshot_of surroundings limits readings)
unfolding discover gather run_command require_mapping require_absolute_directory require_string
    parse_targets parse_ignored scan_shared parse_version string_eq list_eq is_blank is_space
    path_of strip sort_by insert_by root_of leading_slashes split_slash path_text join_slash
    abs_path normal_parts require_sequence parse_entries items_of parse_target require_absolute_path
    string_tuple all_texts skillignore_entries collect_skillignore parse_skillignore
    require_relative_path normalized_source_path put_ignored collect_disabled fallback_version
    with_v scan_shared_entries path_name
discovered = refl

discover-IsIgnoring_example : IsIgnoring (snapshot_of surroundings limits readings)
discover-IsIgnoring_example =
    discover-IsIgnoring surroundings limits (snapshot_of surroundings limits readings) discovered
