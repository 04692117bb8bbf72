-- ===== src/Presentation.antt =====
-- web/inventory_presentation.py: what the inventory's page shows. `casefold` is `str.casefold`.
mod Views
mod Texts
pub mod Shown
pub mod Matching
pub mod Filters
pub mod Laws
unfoldable pub use Views.*
unfoldable pub use Texts.*
use skill_governance_control.Base.{
  ℕ, zero, suc, ◌/◌, ◌%◌, String, ◌<>◌, Bool, true, false, not, ◌&&◌, ◌||◌, Option, none, some,
  List, [], ◌∷◌, ◌++◌, map, select, any, contains, length, ltb, nat_eqb, DateTime, ◌==◌, ◌!=◌,
  string_eq, option_eq, list_eq, nat_eq, if◌then◌else◌,
}
use Prim.Native.Char.{code}
use skill_governance_control.Base.Sorting.{sort_by}
use skill_governance_control.Base.Text.{codes}
use skill_governance_control.Base.Lines.{strip}
use skill_governance_control.Inventory.{
  RuntimeSkillStatus, consistent, diverged, missing, local_only, scan_warning, shared, target,
  invalid_snapshot, RuntimeTarget, RuntimeSkillInstance, RuntimeIgnoredSkill, RuntimeSkillAsset,
  RuntimeInventorySnapshot, RuntimeInventoryReadResult, RuntimeInventoryErrorCode, is_absent,
}
use skill_governance_control.Inventory.Dump.{status_text}

abbrev pub or_empty : Option String → String
or_empty none = ""
or_empty (some s) = s

abbrev is_shared_instance : RuntimeSkillInstance → Bool
is_shared_instance i = elim i.location_kind [ shared ↦ true | target ↦ false ]

-- `instance.target_name or "未知目标"`
abbrev target_label : Option String → String
target_label none = "未知目标"
target_label (some s) = if s == "" then "未知目标" else s

-- `_instance_presentation`
unfoldable pub instance_presentation : RuntimeSkillInstance → InventoryInstancePresentation
instance_presentation i = record {
  location_label = if is_shared_instance i then "共享源" else target_label i.target_name;
  path = i.path;
  distribution_mode = i.distribution_mode;
  digest_short = short_digest i.digest;
  readable = i.readable;
  readable_label = if i.readable then "可读" else "不可读";
  is_symlink = i.is_symlink;
}

-- The instances by whether they are shared, the target's name and the path; the sorts are stable.
unfoldable pub sorted_instances :
    (String → String) → List RuntimeSkillInstance → List RuntimeSkillInstance
sorted_instances casefold is =
    let by_target = sort_by (λ i. casefold (or_empty i.target_name)) (sort_by (λ i. i.path) is) in
    select is_shared_instance by_target ++ select (λ i. not (is_shared_instance i)) by_target

abbrev instance_list : Option RuntimeSkillInstance → List RuntimeSkillInstance
instance_list none = []
instance_list (some i) = i ∷ []

-- `_asset_presentation`
unfoldable pub asset_presentation :
    (String → String) → ℕ → RuntimeSkillAsset → InventoryAssetPresentation
asset_presentation casefold target_count a = record {
  key = a.key;
  name = a.name;
  description = a.description;
  status = a.status;
  status_label = status_label a.status;
  source_label = if is_absent a.source_instance then "目标本地" else "共享源";
  coverage_label =
      text_of_number (length a.target_instances) <> ("/" <> text_of_number target_count);
  missing_targets = sort_by casefold a.missing_targets;
  instances =
      map instance_presentation
        (sorted_instances casefold (instance_list a.source_instance ++ a.target_instances));
}

-- The tests of `_matches_filters`, each on one filter.
unfoldable pub matches_query : (String → String) → String → RuntimeSkillAsset → Bool
matches_query casefold q a =
    let query = casefold (strip q) in
    query == ""
    || is_part query (casefold a.name)
    || is_part query (casefold (or_empty a.description))

unfoldable pub matches_status : String → RuntimeSkillAsset → Bool
matches_status status a =
    status == ""
    || (any (λ s. status_text s == status) status_order && status_text a.status == status)

unfoldable pub matches_source : String → RuntimeSkillAsset → Bool
matches_source source a =
    source == ""
    || (source == "shared" && not (is_absent a.source_instance))
    || (source == "local_only" && is_absent a.source_instance)

unfoldable pub matches_target : List RuntimeTarget → String → RuntimeSkillAsset → Bool
matches_target targets name a =
    name == ""
    || (contains (map (λ t. t.name) targets) name
        && (any (λ i. i.target_name == some name) a.target_instances
            || contains a.missing_targets name))

-- `_matches_filters`
unfoldable pub matches_filters :
    (String → String) → RuntimeInventorySnapshot → InventoryFilters → RuntimeSkillAsset → Bool
matches_filters casefold snapshot filters a =
    matches_query casefold filters.q a
    && matches_status filters.status a
    && matches_source filters.source a
    && matches_target snapshot.targets filters.target a

unfoldable pub target_presentation : RuntimeTarget → InventoryTargetPresentation
target_presentation t = record {
  name = t.name;
  path = t.path;
  mode = t.mode;
  readable = t.readable;
  connection_label = if t.readable then "已连接" else "不可用";
}

-- `_status_options` and `_source_options`
abbrev pub status_options : List InventoryFilterOption
status_options = map (λ s. record { value = status_text s; label = status_label s }) status_order

abbrev pub source_options : List InventoryFilterOption
source_options =
    record { value = "shared"; label = "共享源" }
    ∷ record { value = "local_only"; label = "目标本地" }
    ∷ []

abbrev error_text : Option RuntimeInventoryErrorCode → String
error_text (some invalid_snapshot) = "盘点快照无法读取，请重新盘点"
error_text _ = "尚无可用的运行态盘点快照"

-- `_unavailable_presentation`
unfoldable pub unavailable_presentation :
    RuntimeInventoryReadResult → InventoryFilters → InventoryPresentation
unavailable_presentation result filters = record {
  available = false;
  error_label = some (error_text result.error_code);
  stale = false;
  stale_label = none;
  generated_at = none;
  skillshare_version = none;
  source_path = none;
  unique_skill_count = 0;
  connected_agent_count = 0;
  diverged_count = 0;
  local_only_count = 0;
  ignored_count = 0;
  warning_count = 0;
  warnings = [];
  targets = [];
  assets = [];
  ignored = [];
  filters = filters;
  status_options = status_options;
  source_options = source_options;
  target_options = [];
}

abbrev has_status : RuntimeSkillStatus → RuntimeSkillAsset → Bool
has_status status a = status_text a.status == status_text status

-- The assets that are shown.
unfoldable pub shown_assets :
    (String → String)
    → RuntimeInventorySnapshot
    → InventoryFilters
    → List InventoryAssetPresentation
shown_assets casefold s filters = map (asset_presentation casefold (length s.targets)) (
    select (matches_filters casefold s filters)
      (sort_by (λ a. casefold a.name) (sort_by (λ a. casefold a.key) s.assets)))

unfoldable pub snapshot_presentation :
    (String → String)
    → RuntimeInventoryReadResult
    → RuntimeInventorySnapshot
    → InventoryFilters
    → InventoryPresentation
snapshot_presentation casefold result s filters =
    let sorted_targets = sort_by (λ t. casefold t.name) s.targets in
    record {
      available = true;
      error_label = none;
      stale = result.stale;
      stale_label = if result.stale then some "上次重新盘点失败，当前快照可能已陈旧" else none;
      generated_at = some s.generated_at;
      skillshare_version = some s.skillshare_version;
      source_path = some s.source_path;
      unique_skill_count = length s.assets;
      connected_agent_count = length (select (λ t. t.readable) s.targets);
      diverged_count = length (select (has_status diverged) s.assets);
      local_only_count = length (select (has_status local_only) s.assets);
      ignored_count = length s.ignored;
      warning_count = length s.warnings;
      warnings = s.warnings;
      targets = map target_presentation sorted_targets;
      assets = shown_assets casefold s filters;
      ignored = sort_by (λ i. casefold i.name) (sort_by (λ i. i.path) s.ignored);
      filters = filters;
      status_options = status_options;
      source_options = source_options;
      target_options = map (λ t. record { value = t.name; label = t.name }) sorted_targets;
    }

abbrev pub presentation_of :
    (String → String)
    → RuntimeInventoryReadResult
    → InventoryFilters
    → Option RuntimeInventorySnapshot
    → InventoryPresentation
presentation_of casefold result filters none = unavailable_presentation result filters
presentation_of casefold result filters (some s) = snapshot_presentation casefold result s filters

unfoldable pub build_inventory_presentation :
    (String → String) → RuntimeInventoryReadResult → InventoryFilters → InventoryPresentation
build_inventory_presentation casefold result filters =
    if result.available
    then presentation_of casefold result filters result.snapshot
    else unavailable_presentation result filters
