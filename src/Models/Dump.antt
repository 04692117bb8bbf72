-- ===== src/Models/Dump.antt =====
-- `model_dump(mode="json")`: each document as a JSON object, its fields in declaration order.
-- The text of a `datetime` is the serialiser's, a parameter.
use skill_governance_control.Base.{String, DateTime}
use skill_governance_control.Models.Json.{
  Value, text, array, object, Fields, field, field_end, texts, values, or_null, text_fields,
}
use skill_governance_control.Models.Entities.{
  CapabilityState, supported, unsupported, unverified, ChangeType, create, update, bind, unbind,
  deprecate, prune, publish, RiskLevel, low, medium, high, critical, ApprovalDecision, approved,
  rejected, OwnerType, command_owner, plan_owner, observation_owner, deployment_owner, review_owner,
  Operation, deploy, rollback, Protocol, filesystem, api_import, plugin, package_protocol,
  manual_assisted, EvidenceRef, Asset, CapabilityManifest, PlanChange, AdapterPlanEvidence, Plan,
  Approval, ObservedState, ProjectionDescriptor, DeploymentLedgerEntry,
}

abbrev state_text : CapabilityState → String
state_text supported = "supported"
state_text unsupported = "unsupported"
state_text unverified = "unverified"

abbrev change_type_text : ChangeType → String
change_type_text create = "create"
change_type_text update = "update"
change_type_text bind = "bind"
change_type_text unbind = "unbind"
change_type_text deprecate = "deprecate"
change_type_text prune = "prune"
change_type_text publish = "publish"

abbrev risk_text : RiskLevel → String
risk_text low = "low"
risk_text medium = "medium"
risk_text high = "high"
risk_text critical = "critical"

abbrev decision_text : ApprovalDecision → String
decision_text approved = "approved"
decision_text rejected = "rejected"

abbrev pub owner_type_text : OwnerType → String
owner_type_text command_owner = "command"
owner_type_text plan_owner = "plan"
owner_type_text observation_owner = "observation"
owner_type_text deployment_owner = "deployment"
owner_type_text review_owner = "review"

abbrev operation_text : Operation → String
operation_text deploy = "deploy"
operation_text rollback = "rollback"

abbrev pub protocol_text : Protocol → String
protocol_text filesystem = "filesystem"
protocol_text api_import = "api-import"
protocol_text plugin = "plugin"
protocol_text package_protocol = "package"
protocol_text manual_assisted = "manual-assisted"

unfoldable pub dump_evidence_ref : EvidenceRef → Value
dump_evidence_ref r = object (
    field "owner_type" (text (owner_type_text r.owner_type)) (
      field "owner_id" (text r.owner_id) (
        field "relative_path" (text r.relative_path)
          (field "sha256" (text r.sha256) (field "media_type" (text r.media_type) field_end)))))

unfoldable pub dump_capabilities : CapabilityManifest → Value
dump_capabilities c = object (
    field "discover" (text (state_text c.discover)) (
      field "plan" (text (state_text c.plan)) (
        field "apply" (text (state_text c.apply)) (
          field "verify" (text (state_text c.verify)) (
            field "rollback" (text (state_text c.rollback)) (
              field "bindings" (text (state_text c.bindings))
                (field "delete" (text (state_text c.delete)) field_end)))))))

unfoldable pub dump_asset : Asset → Value
dump_asset a = object (
    field "id" (text a.id) (
      field "name" (text a.name) (
        field "asset_type" (text a.asset_type) (
          field "owner" (text a.owner) (
            field "visibility" (text a.visibility) (
              field "lifecycle" (text a.lifecycle) (
                field "authority_class" (text a.authority_class) (
                  field "source_uri" (or_null a.source_uri) (
                    field "source_path" (or_null a.source_path) (
                      field "source_revision" (text a.source_revision) (
                        field "source_checksum" (text a.source_checksum) (
                          field "license_state" (text a.license_state)
                            (field "revision_policy" (text a.revision_policy) field_end)))))))))))))

unfoldable pub dump_change : PlanChange → Value
unfolding dump_evidence_ref
dump_change c = object (
    field "change_type" (text (change_type_text c.change_type)) (
      field "asset_id" (text c.asset_id) (
        field "before_revision" (or_null c.before_revision) (
          field "after_revision" (or_null c.after_revision) (
            field "before_visibility" (or_null c.before_visibility) (
              field "after_visibility" (or_null c.after_visibility) (
                field "binding_id" (or_null c.binding_id) (
                  field "permission_delta" (array (texts c.permission_delta)) (
                    field "evidence_refs" (array (values dump_evidence_ref c.evidence_refs))
                      field_end)))))))))

unfoldable pub dump_projection : ProjectionDescriptor → Value
dump_projection p = object (
    field "plan_id" (text p.plan_id) (
      field "root" (text p.root) (
        field "manifest_digest" (text p.manifest_digest) (
          field "config_digest" (text p.config_digest)
            (field "runtime_target_paths_digest" (text p.runtime_target_paths_digest) field_end)))))

unfoldable pub dump_adapter_evidence : AdapterPlanEvidence → Value
unfolding dump_evidence_ref
dump_adapter_evidence e = object (
    field "adapter_id" (text e.adapter_id) (
      field "target_id" (text e.target_id) (
        field "changes_digest" (text e.changes_digest) (
          field "resolved_target_paths" (array (texts e.resolved_target_paths)) (
            field "evidence_refs" (array (values dump_evidence_ref e.evidence_refs))
              (field "raw_evidence_digest" (text e.raw_evidence_digest) field_end))))))

module _ (iso : DateTime → String) where
  unfoldable pub dump_observed_state : ObservedState → Value
  unfolding dump_evidence_ref
  dump_observed_state o = object (
      field "id" (text o.id) (
        field "target_id" (text o.target_id) (
          field "asset_id" (text o.asset_id) (
            field "revision" (text o.revision) (
              field "checksum" (text o.checksum) (
                field "discovered_at" (text (iso o.discovered_at)) (
                  field "evidence_refs" (array (values dump_evidence_ref o.evidence_refs))
                    field_end)))))))

  unfoldable pub dump_approval : Approval → Value
  dump_approval a = object (
      field "id" (text a.id) (
        field "plan_id" (text a.plan_id) (
          field "plan_digest" (text a.plan_digest) (
            field "decision" (text (decision_text a.decision)) (
              field "approver" (text a.approver) (
                field "reason" (text a.reason)
                  (field "decided_at" (text (iso a.decided_at)) field_end)))))))

  -- The fields of a plan up to `plan_digest`, and those that follow.
  abbrev plan_fields : Plan → Fields → Fields
  plan_fields p rest = field "id" (text p.id) (
      field "operation" (text (operation_text p.operation)) (
        field "target_id" (text p.target_id) (
          field "parent_deployment_id" (or_null p.parent_deployment_id) (
            field "changes" (array (values dump_change p.changes)) (
              field "risk" (text (risk_text p.risk)) (
                field "policy_decision" (text p.policy_decision) (
                  field "policy_reasons" (array (texts p.policy_reasons)) (
                    field "created_at" (text (iso p.created_at)) (
                      field "expires_at" (text (iso p.expires_at))
                        (plan_digest_fields p rest))))))))))
    where
      plan_digest_fields : Plan → Fields → Fields
      plan_digest_fields p rest = field "source_state_digest" (text p.source_state_digest) (
          field "desired_state_digest" (text p.desired_state_digest) (
            field "observed_state_digest" (text p.observed_state_digest) (
              field "adapter_manifest_digest" (text p.adapter_manifest_digest) (
                field "adapter_evidence_digest" (text p.adapter_evidence_digest) (
                  field "runtime_target_paths" (array (texts p.runtime_target_paths)) (
                    field "runtime_target_paths_digest" (text p.runtime_target_paths_digest) (
                      field "evidence_refs" (array (values dump_evidence_ref p.evidence_refs))
                        rest)))))))

  unfoldable pub dump_plan : Plan → Value
  unfolding dump_evidence_ref dump_change
  dump_plan p = object (plan_fields p (field "plan_digest" (text p.plan_digest) field_end))

  -- `plan.model_dump(mode="json", exclude={"plan_digest"})`
  unfoldable pub dump_unsigned_plan : Plan → Value
  unfolding dump_evidence_ref dump_change
  dump_unsigned_plan p = object (plan_fields p field_end)

  -- The fields of a ledger entry up to `entry_hash`, and those that follow.
  abbrev entry_fields : DeploymentLedgerEntry → Fields → Fields
  entry_fields e rest = field "schema_version" (text e.schema_version) (
      field "deployment_id" (text e.deployment_id) (
        field "plan_id" (text e.plan_id) (
          field "parent_deployment_id" (or_null e.parent_deployment_id) (
            field "target_id" (text e.target_id) (
              field "asset_ids" (array (texts e.asset_ids)) (
                field "source_revisions" (object (text_fields e.source_revisions)) (
                  field "change_types"
                    (array (values (λ t. text (change_type_text t)) e.change_types))
                    (field "approval_ref" (text e.approval_ref) (
                      field "started_at" (text (iso e.started_at)) (
                        field "finished_at" (text (iso e.finished_at)) (
                          field "result" (text e.result) (
                            field "evidence_refs" (array (values dump_evidence_ref e.evidence_refs))
                              (field "previous_entry_hash" (or_null e.previous_entry_hash)
                                rest)))))))))))))

  unfoldable pub dump_entry : DeploymentLedgerEntry → Value
  unfolding dump_evidence_ref
  dump_entry e = object (entry_fields e (field "entry_hash" (text e.entry_hash) field_end))

  -- `entry.model_dump(mode="json", exclude={"entry_hash"})`
  unfoldable pub dump_unhashed_entry : DeploymentLedgerEntry → Value
  unfolding dump_evidence_ref
  dump_unhashed_entry e = object (entry_fields e field_end)
