-- ===== src/Presentation/Views.antt =====
-- web/inventory_presentation.py: the classes of what the page shows, and the labels of a status.
-- `InventoryIgnoredPresentation` has the fields of `RuntimeIgnoredSkill`, which stands for it.
use skill_governance_control.Base.{
  ℕ, String, Bool, Option, List, [], ◌∷◌, DateTime, string_eq, option_eq, list_eq, nat_eq,
}
use skill_governance_control.Inventory.{
  RuntimeSkillStatus, consistent, diverged, missing, local_only, scan_warning, RuntimeIgnoredSkill,
}

-- `_STATUS_LABELS`
unfoldable pub status_label : RuntimeSkillStatus → String
status_label consistent = "一致"
status_label diverged = "版本不一致"
status_label missing = "缺失"
status_label local_only = "仅本地"
status_label scan_warning = "扫描告警"

abbrev pub status_order : List RuntimeSkillStatus
status_order = consistent ∷ diverged ∷ missing ∷ local_only ∷ scan_warning ∷ []

pub record InventoryFilters : Type 0 where
  pub q : String
  pub status : String
  pub source : String
  pub target : String

pub record InventoryFilterOption : Type 0 where
  pub value : String
  pub label : String

pub record InventoryTargetPresentation : Type 0 where
  pub name : String
  pub path : String
  pub mode : String
  pub readable : Bool
  pub connection_label : String

pub record InventoryInstancePresentation : Type 0 where
  pub location_label : String
  pub path : String
  pub distribution_mode : String
  pub digest_short : String
  pub readable : Bool
  pub readable_label : String
  pub is_symlink : Bool

pub record InventoryAssetPresentation : Type 0 where
  pub key : String
  pub name : String
  pub description : Option String
  pub status : RuntimeSkillStatus
  pub status_label : String
  pub source_label : String
  pub coverage_label : String
  pub missing_targets : List String
  pub instances : List InventoryInstancePresentation

pub record InventoryPresentation : Type 0 where
  pub available : Bool
  pub error_label : Option String
  pub stale : Bool
  pub stale_label : Option String
  pub generated_at : Option DateTime
  pub skillshare_version : Option String
  pub source_path : Option String
  pub unique_skill_count : ℕ
  pub connected_agent_count : ℕ
  pub diverged_count : ℕ
  pub local_only_count : ℕ
  pub ignored_count : ℕ
  pub warning_count : ℕ
  pub warnings : List String
  pub targets : List InventoryTargetPresentation
  pub assets : List InventoryAssetPresentation
  pub ignored : List RuntimeIgnoredSkill
  pub filters : InventoryFilters
  pub status_options : List InventoryFilterOption
  pub source_options : List InventoryFilterOption
  pub target_options : List InventoryFilterOption
