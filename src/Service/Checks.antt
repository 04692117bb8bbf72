-- ===== src/Service/Checks.antt =====
-- The checks of service.py and adapters/base.py.
use skill_governance_control.Base.{
  String, Bool, ◌||◌, Option, none, some, List, [], ◌∷◌, map, find_first, DateTime, at_or_after,
  Result, ok, err, approval_required, stale_plan, unsupported_capability_error, ledger_corruption,
  validation_error, raise_if, ◌>>=◌, ◌==◌, ◌!=◌, string_eq, list_eq, option_eq, if◌then◌else◌,
}
use skill_governance_control.Canonical.{Canon, canonical_digest}
use skill_governance_control.Models.{
  Asset, Target, Plan, PlanChange, Approval, approved, approval_decision_eq, CapabilityState,
  supported, capability_state_eq, operation_eq, rollback, prune, update, ProjectionDescriptor,
  DeploymentLedgerEntry, EvidenceRef, text, object, field, field_end, dump_projection,
  entry_owner_ok, is_none,
}
use skill_governance_control.Repository.Snapshot.{GovernanceSnapshot}
use skill_governance_control.Planner.{
  source_digest, desired_digest, observed_digest, paths_digest, manifest_digest,
  target_observations,
}

-- `require_capability`, of the state that the manifest gives for the operation.
unfoldable pub require_capability : CapabilityState → Result (Unit {0})
require_capability state =
    raise_if (state != supported)
      (unsupported_capability_error "adapter capability is not supported")

-- `_target`
unfoldable pub target_of : GovernanceSnapshot → String → Result Target
target_of snapshot target_id = elim (find_first (λ t. t.id == target_id) snapshot.targets) [
  | none ↦ err (stale_plan "deployment: stale plan")
  | some target ↦ ok target
]

-- `approval is None or approval.decision != "approved"`
unfoldable pub require_approved : String → Option Approval → Result Approval
require_approved message none = err (approval_required message)
require_approved message (some a) =
    if a.decision != approved then err (approval_required message) else ok a

-- `now >= plan.expires_at or approval.plan_digest != plan.plan_digest`
unfoldable pub require_current : String → DateTime → Plan → Approval → Result (Unit {0})
require_current message now plan approval = do
  expired ← at_or_after now plan.expires_at
  raise_if (expired || approval.plan_digest != plan.plan_digest) (stale_plan message)

-- The second look at the clock.
unfoldable pub require_unexpired : String → DateTime → Plan → Result (Unit {0})
require_unexpired message now plan = do
  expired ← at_or_after now plan.expires_at
  raise_if expired (stale_plan message)

-- `_validate_fresh_state`, on the paths that the resolver returns.
unfoldable pub state_differs :
    Canon → Plan → GovernanceSnapshot → Target → List Asset → List String → Bool
state_differs c plan snapshot target desired paths =
    plan.source_state_digest != source_digest c desired
    || plan.desired_state_digest != desired_digest c desired
    || plan.observed_state_digest != observed_digest c (target_observations snapshot target.id)
    || plan.adapter_manifest_digest != manifest_digest c target
    || plan.runtime_target_paths != paths
    || plan.runtime_target_paths_digest != paths_digest c paths

-- `canonical_digest({"snapshot_manifest": projection.manifest_digest})`
unfoldable pub snapshot_digest : Canon → ProjectionDescriptor → String
snapshot_digest c projection =
    canonical_digest c
      (object (field "snapshot_manifest" (text projection.manifest_digest) field_end))

-- The condition of `_validate_rollback_plan`.
unfoldable pub rollback_differs :
    Canon → Plan → DeploymentLedgerEntry → Plan → Target → ProjectionDescriptor → List String → Bool
rollback_differs c plan parent parent_plan target projection paths =
    plan.operation != rollback
    || plan.parent_deployment_id != some parent.deployment_id
    || plan.target_id != target.id
    || plan.source_state_digest != parent_plan.desired_state_digest
    || plan.desired_state_digest != snapshot_digest c projection
    || plan.observed_state_digest != parent_plan.desired_state_digest
    || plan.adapter_manifest_digest != manifest_digest c target
    || plan.adapter_evidence_digest != canonical_digest c (dump_projection projection)
    || plan.runtime_target_paths != paths
    || plan.runtime_target_paths_digest != paths_digest c paths

-- The search of `_deployment`.
unfoldable pub deployment_of : List DeploymentLedgerEntry → String → Result DeploymentLedgerEntry
deployment_of entries deployment_id =
    elim (find_first (λ e. e.deployment_id == deployment_id) entries) [
      | none ↦ err (ledger_corruption "deployment: unknown deployment")
      | some entry ↦ ok entry
    ]

-- `_inverse_change`
unfoldable pub inverse_change : PlanChange → PlanChange
inverse_change change = record change {
  change_type = if is_none change.before_revision then prune else update;
  before_revision = change.after_revision;
  after_revision = change.before_revision;
  before_visibility = change.after_visibility;
  after_visibility = change.before_visibility;
  evidence_refs = [];
}

-- `{key: value, ...}` for the revisions: a later value of a key replaces the earlier one in place.
unfoldable pub put_revision : String → String → List (String × String) → List (String × String)
put_revision k v [] = (k, v) ∷ []
put_revision k v ((j, w) ∷ rest) = if j == k then (k, v) ∷ rest else (j, w) ∷ put_revision k v rest

unfoldable pub change_revisions : List PlanChange → List (String × String) → List (String × String)
change_revisions [] done = done
change_revisions (change ∷ changes) done = elim change.after_revision [
  | none ↦ change_revisions changes done
  | some revision ↦ change_revisions changes (put_revision change.asset_id revision done)
]

unfoldable pub asset_revisions : List Asset → List (String × String) → List (String × String)
asset_revisions [] done = done
asset_revisions (a ∷ assets) done =
    asset_revisions assets (put_revision a.id a.source_revision done)

-- `_entry`, from the desired assets and the time that the clock shows.
unfoldable pub make_entry :
    String
    → Plan
    → String
    → DateTime
    → String
    → List EvidenceRef
    → List Asset
    → DateTime
    → Result DeploymentLedgerEntry
make_entry deployment_id plan approval_ref started_at result evidence_refs desired finished_at =
    let entry : DeploymentLedgerEntry = record {
      schema_version = "1.0";
      deployment_id = deployment_id;
      plan_id = plan.id;
      parent_deployment_id = plan.parent_deployment_id;
      target_id = plan.target_id;
      asset_ids = map (λ change. change.asset_id) plan.changes;
      source_revisions =
          if plan.operation == rollback
          then change_revisions plan.changes []
          else asset_revisions desired [];
      change_types = map (λ change. change.change_type) plan.changes;
      approval_ref = approval_ref;
      started_at = started_at;
      finished_at = finished_at;
      result = result;
      evidence_refs = evidence_refs;
      previous_entry_hash = none;
      entry_hash = "";
    } in
    if entry_owner_ok entry then ok entry else err validation_error
