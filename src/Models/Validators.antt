-- ===== src/Models/Validators.antt =====
-- The `model_validator` methods that relate evidence to its owner and a rollback to its parent.
-- `true` means that the method returns, `false` that it raises `ValueError`.
use skill_governance_control.Base.{
  String, Bool, true, false, not, ◌&&◌, ◌||◌, Option, none, some, List, ◌++◌, any, ◌==◌, ◌!=◌,
  string_eq, list_eq, if◌then◌else◌,
}
use skill_governance_control.Base.Sorting.{sort_by}
use skill_governance_control.Models.Entities.{
  OwnerType, plan_owner, observation_owner, deployment_owner, owner_type_eq, operation_eq, deploy,
  rollback, EvidenceRef, PlanChange, AdapterPlanEvidence, Plan, ObservedState, DeploymentResult,
  VerificationResult, DeploymentLedgerEntry,
}

abbrev pub owned_by : OwnerType → String → EvidenceRef → Bool
owned_by kind id ref = not (ref.owner_type != kind || ref.owner_id != id)

abbrev pub is_none {ℓ} : {A : Type ℓ} → Option A → Bool
is_none none = true
is_none (some _) = false

abbrev change_refs : List PlanChange → List EvidenceRef
change_refs List.[] = List.[]
change_refs (List.◌∷◌ c cs) = c.evidence_refs ++ change_refs cs

-- `AdapterPlanEvidence.require_plan_evidence_owner`
unfoldable pub adapter_evidence_owner_ok : AdapterPlanEvidence → Bool
adapter_evidence_owner_ok e = not (any (λ ref. ref.owner_type != plan_owner) e.evidence_refs)

-- `Plan.require_rollback_parent`
unfoldable pub plan_ok : Plan → Bool
plan_ok p =
    if p.operation == rollback && is_none p.parent_deployment_id
    then false
    else if p.operation == deploy && not (is_none p.parent_deployment_id)
    then false
    else not
        (any (λ ref. not (owned_by plan_owner p.id ref)) (p.evidence_refs ++ change_refs p.changes))

-- `ObservedState.require_observation_evidence_owner`
unfoldable pub observation_owner_ok : ObservedState → Bool
observation_owner_ok o =
    not (any (λ ref. not (owned_by observation_owner o.id ref)) o.evidence_refs)

-- `require_deployment_evidence_owner` of the three documents of a deployment.
abbrev deployment_refs_ok : String → List EvidenceRef → Bool
deployment_refs_ok id refs = not (any (λ ref. not (owned_by deployment_owner id ref)) refs)

unfoldable pub result_owner_ok : DeploymentResult → Bool
result_owner_ok r = deployment_refs_ok r.deployment_id r.evidence_refs

unfoldable pub verification_owner_ok : VerificationResult → Bool
verification_owner_ok r = deployment_refs_ok r.deployment_id r.evidence_refs

unfoldable pub entry_owner_ok : DeploymentLedgerEntry → Bool
entry_owner_ok e = deployment_refs_ok e.deployment_id e.evidence_refs

-- `_require_target_paths`; `is_resolved` says of a text that it is an absolute path which `resolve`
-- leaves as it is.
unfoldable pub target_paths_ok : (String → Bool) → List String → Bool
target_paths_ok is_resolved paths =
    not (paths != sort_by (λ s. s) paths || any (λ path. not (is_resolved path)) paths)
