-- ===== src/Inventory/Dump.antt =====
-- `model_dump(mode="json")` of the snapshot of runtime_inventory/models.py.
use skill_governance_control.Base.{String, Option, none, some, DateTime}
use skill_governance_control.Models.{
  Value, bool, text, array, object, Fields, field, field_end, texts, values, or_null, null,
}
use skill_governance_control.Inventory.{
  RuntimeSkillStatus, consistent, diverged, missing, local_only, scan_warning, RuntimeLocationKind,
  shared, target, RuntimeTarget, RuntimeSkillInstance, RuntimeIgnoredSkill, RuntimeSkillAsset,
  RuntimeInventorySnapshot,
}

abbrev pub status_text : RuntimeSkillStatus → String
status_text consistent = "consistent"
status_text diverged = "diverged"
status_text missing = "missing"
status_text local_only = "local_only"
status_text scan_warning = "scan_warning"

abbrev kind_text : RuntimeLocationKind → String
kind_text shared = "shared"
kind_text target = "target"

unfoldable pub dump_target : RuntimeTarget → Value
dump_target t = object (
    field "name" (text t.name) (
      field "path" (text t.path) (
        field "mode" (text t.mode) (
          field "include" (array (texts t.include)) (
            field "exclude" (array (texts t.exclude))
              (field "readable" (bool t.readable) field_end))))))

unfoldable pub dump_instance : RuntimeSkillInstance → Value
dump_instance i = object (
    field "location_kind" (text (kind_text i.location_kind)) (
      field "target_name" (or_null i.target_name) (
        field "path" (text i.path) (
          field "distribution_mode" (text i.distribution_mode) (
            field "digest" (or_null i.digest) (
              field "is_symlink" (bool i.is_symlink) (
                field "readable" (bool i.readable)
                  (field "scan_warnings" (array (texts i.scan_warnings)) field_end))))))))

unfoldable pub dump_ignored : RuntimeIgnoredSkill → Value
dump_ignored i = object (
    field "name" (text i.name)
      (field "path" (text i.path) (field "reason" (text i.reason) field_end)))

abbrev instance_or_null : Option RuntimeSkillInstance → Value
instance_or_null none = null
instance_or_null (some i) = dump_instance i

unfoldable pub dump_skill_asset : RuntimeSkillAsset → Value
dump_skill_asset a = object (
    field "key" (text a.key) (
      field "name" (text a.name) (
        field "description" (or_null a.description) (
          field "status" (text (status_text a.status)) (
            field "source_instance" (instance_or_null a.source_instance) (
              field "target_instances" (array (values dump_instance a.target_instances))
                (field "missing_targets" (array (texts a.missing_targets)) field_end)))))))

-- The fields of a snapshot before the last.
unfoldable pub snapshot_fields : (DateTime → String) → RuntimeInventorySnapshot → Fields → Fields
snapshot_fields iso s rest = field "generated_at" (text (iso s.generated_at)) (
    field "skillshare_version" (text s.skillshare_version) (
      field "source_path" (text s.source_path) (
        field "targets" (array (values dump_target s.targets)) (
          field "assets" (array (values dump_skill_asset s.assets)) (
            field "ignored" (array (values dump_ignored s.ignored))
              (field "warnings" (array (texts s.warnings)) rest))))))

-- `model_dump(mode="json", exclude={"snapshot_digest"})`
unfoldable pub dump_content : (DateTime → String) → RuntimeInventorySnapshot → Value
dump_content iso s = object (snapshot_fields iso s field_end)

unfoldable pub dump_snapshot : (DateTime → String) → RuntimeInventorySnapshot → Value
dump_snapshot iso s =
    object (snapshot_fields iso s (field "snapshot_digest" (or_null s.snapshot_digest) field_end))
