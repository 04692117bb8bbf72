-- ===== src/Models/Entities.antt =====
-- The classes of models.py as records, their literals as enumerations.
use skill_governance_control.Base.{String, Bool, Option, List, DateTime, Eq}
use skill_governance_control.Models.Json.{Fields}

pub data CapabilityState : Type 0 where
  supported unsupported unverified : CapabilityState

pub data ChangeType : Type 0 where
  create update bind unbind deprecate prune publish : ChangeType

pub data RiskLevel : Type 0 where
  low medium high critical : RiskLevel

pub data ApprovalDecision : Type 0 where
  approved rejected : ApprovalDecision

pub data OwnerType : Type 0 where
  command_owner plan_owner observation_owner deployment_owner review_owner : OwnerType

pub data Operation : Type 0 where
  deploy rollback : Operation

pub data Protocol : Type 0 where
  filesystem api_import plugin package_protocol manual_assisted : Protocol

CapabilityState-discrete : Discrete CapabilityState
CapabilityState-discrete = hlevel

instance unfoldable pub capability_state_eq : Eq CapabilityState
unfolding CapabilityState-discrete
capability_state_eq = record { dec = CapabilityState-discrete }

ApprovalDecision-discrete : Discrete ApprovalDecision
ApprovalDecision-discrete = hlevel

instance unfoldable pub approval_decision_eq : Eq ApprovalDecision
unfolding ApprovalDecision-discrete
approval_decision_eq = record { dec = ApprovalDecision-discrete }

OwnerType-discrete : Discrete OwnerType
OwnerType-discrete = hlevel

instance unfoldable pub owner_type_eq : Eq OwnerType
unfolding OwnerType-discrete
owner_type_eq = record { dec = OwnerType-discrete }

Operation-discrete : Discrete Operation
Operation-discrete = hlevel

instance unfoldable pub operation_eq : Eq Operation
unfolding Operation-discrete
operation_eq = record { dec = Operation-discrete }

pub record EvidenceRef : Type 0 where
  pub owner_type : OwnerType
  pub owner_id : String
  pub relative_path : String
  pub sha256 : String
  pub media_type : String

pub record Asset : Type 0 where
  pub id : String
  pub name : String
  pub asset_type : String
  pub owner : String
  pub visibility : String
  pub lifecycle : String
  pub authority_class : String
  pub source_uri : Option String
  pub source_path : Option String
  pub source_revision : String
  pub source_checksum : String
  pub license_state : String
  pub revision_policy : String

pub record CapabilityManifest : Type 0 where
  pub discover : CapabilityState
  pub plan : CapabilityState
  pub apply : CapabilityState
  pub verify : CapabilityState
  pub rollback : CapabilityState
  pub bindings : CapabilityState
  pub delete : CapabilityState

CapabilityManifest-discrete : Discrete CapabilityManifest
CapabilityManifest-discrete = hlevel

instance unfoldable pub capability_manifest_eq : Eq CapabilityManifest
unfolding CapabilityManifest-discrete
capability_manifest_eq = record { dec = CapabilityManifest-discrete }

pub record Target : Type 0 where
  pub id : String
  pub adapter_id : String
  pub protocol : Protocol
  pub credential_ref : Option String
  pub config : Fields
  pub capabilities : CapabilityManifest

pub record DeploymentProfile : Type 0 where
  pub id : String
  pub name : String
  pub selector : Fields
  pub policy_id : String

pub record ProfileMembership : Type 0 where
  pub id : String
  pub asset_id : String
  pub profile_id : String
  pub approved_at : DateTime
  pub approval_ref : String

pub record ConsumerBinding : Type 0 where
  pub id : String
  pub asset_id : String
  pub target_id : String
  pub consumer_type : String
  pub consumer_id : String
  pub approved_at : DateTime
  pub approval_ref : String

pub record PlanChange : Type 0 where
  pub change_type : ChangeType
  pub asset_id : String
  pub before_revision : Option String
  pub after_revision : Option String
  pub before_visibility : Option String
  pub after_visibility : Option String
  pub binding_id : Option String
  pub permission_delta : List String
  pub evidence_refs : List EvidenceRef

pub record AdapterPlanEvidence : Type 0 where
  pub adapter_id : String
  pub target_id : String
  pub changes_digest : String
  pub resolved_target_paths : List String
  pub evidence_refs : List EvidenceRef
  pub raw_evidence_digest : String

pub record Plan : Type 0 where
  pub id : String
  pub operation : Operation
  pub target_id : String
  pub parent_deployment_id : Option String
  pub changes : List PlanChange
  pub risk : RiskLevel
  pub policy_decision : String
  pub policy_reasons : List String
  pub created_at : DateTime
  pub expires_at : DateTime
  pub source_state_digest : String
  pub desired_state_digest : String
  pub observed_state_digest : String
  pub adapter_manifest_digest : String
  pub adapter_evidence_digest : String
  pub runtime_target_paths : List String
  pub runtime_target_paths_digest : String
  pub evidence_refs : List EvidenceRef
  pub plan_digest : String

pub record Approval : Type 0 where
  pub id : String
  pub plan_id : String
  pub plan_digest : String
  pub decision : ApprovalDecision
  pub approver : String
  pub reason : String
  pub decided_at : DateTime

pub record ObservedState : Type 0 where
  pub id : String
  pub target_id : String
  pub asset_id : String
  pub revision : String
  pub checksum : String
  pub discovered_at : DateTime
  pub evidence_refs : List EvidenceRef

pub record ProjectionDescriptor : Type 0 where
  pub plan_id : String
  pub root : String
  pub manifest_digest : String
  pub config_digest : String
  pub runtime_target_paths_digest : String

pub record DeploymentResult : Type 0 where
  pub deployment_id : String
  pub target_id : String
  pub resolved_target_paths : List String
  pub changed_asset_ids : List String
  pub result : String
  pub evidence_refs : List EvidenceRef

pub record VerificationResult : Type 0 where
  pub deployment_id : String
  pub target_id : String
  pub resolved_target_paths : List String
  pub healthy : Bool
  pub drift : Fields
  pub evidence_refs : List EvidenceRef

pub record DeploymentLedgerEntry : Type 0 where
  pub schema_version : String
  pub deployment_id : String
  pub plan_id : String
  pub parent_deployment_id : Option String
  pub target_id : String
  pub asset_ids : List String
  pub source_revisions : List (String × String)
  pub change_types : List ChangeType
  pub approval_ref : String
  pub started_at : DateTime
  pub finished_at : DateTime
  pub result : String
  pub evidence_refs : List EvidenceRef
  pub previous_entry_hash : Option String
  pub entry_hash : String
