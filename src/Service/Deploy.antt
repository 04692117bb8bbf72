-- ===== src/Service/Deploy.antt =====
-- `apply` of service.py, in two parts: all that stands before the call of the adapter, and the call
-- with the record of its outcome.
use skill_governance_control.Base.{
  String, Option, List, [], ◌++◌, DateTime, Result, ok, err, Failure, adapter_failure, stale_plan,
  raise_if, ◌!=◌, if◌then◌else◌,
}
use skill_governance_control.Models.{
  Plan, Approval, Target, CapabilityManifest, capability_manifest_eq, ProjectionDescriptor,
  DeploymentResult, VerificationResult, DeploymentLedgerEntry, EvidenceRef,
}
use skill_governance_control.Repository.Snapshot.{GovernanceSnapshot}
use skill_governance_control.Planner.{desired_assets}
use skill_governance_control.Service.Env.{
  plan_read, approval_read, snapshot_read, clock_read, projection_made, adapter_found,
  paths_resolved, adapter_discovered, deployment_named, state_captured, adapter_applied,
  adapter_verified, entry_appended, ServiceEnv, Exec, ◌>>=◌, ◌>>◌, pure, raise, lift, call, attempt,
}
use skill_governance_control.Service.Checks.{
  require_capability, target_of, require_approved, require_current, require_unexpired,
  state_differs, make_entry,
}

-- What is known when the adapter is called.
pub record Prepared : Type 0 where
  pub plan : Plan
  pub snapshot : GovernanceSnapshot
  pub target : Target
  pub approval : Approval
  pub started_at : DateTime
  pub projection : ProjectionDescriptor
  pub deployment_id : String

module _ (env : ServiceEnv) where
  unfoldable pub read_plan : String → Exec Plan
  read_plan id = call (plan_read id) (λ t. env.get_plan t id)

  unfoldable pub read_snapshot : Exec GovernanceSnapshot
  read_snapshot = call snapshot_read env.load_snapshot

  unfoldable pub read_approval : String → Exec (Option Approval)
  read_approval id = call (approval_read id) (λ t. env.get_approval t id)

  unfoldable pub read_clock : Exec DateTime
  read_clock = call clock_read (λ t. ok (env.now t))

  unfoldable pub resolve_paths : Target → Exec (List String)
  resolve_paths target = call (paths_resolved target) (λ t. env.runtime_target_paths t target)

  unfoldable pub make_projection : Plan → Exec ProjectionDescriptor
  make_projection plan = call (projection_made plan) (λ t. env.projection_for_plan t plan)

  unfoldable pub find_adapter : Target → Exec CapabilityManifest
  find_adapter target = call (adapter_found target) (λ t. env.adapter_for_target t target)

  unfoldable pub discover_target : Target → ProjectionDescriptor → Exec (Unit {0})
  discover_target target projection =
      call (adapter_discovered target projection) (λ t. env.discover t target projection)

  unfoldable pub name_deployment : Exec String
  name_deployment = call deployment_named (λ t. ok (env.new_deployment_id t))

  unfoldable pub capture_state : String → Target → Plan → ProjectionDescriptor → Exec (Unit {0})
  capture_state id target plan projection =
      call (state_captured id plan) (λ t. env.capture t id target plan projection)

  -- `_validate_fresh_state`
  unfoldable pub validate_fresh_state : Plan → GovernanceSnapshot → Target → Exec (Unit {0})
  validate_fresh_state plan snapshot target = do
    desired ← lift (desired_assets snapshot target.id)
    paths ← resolve_paths target
    lift (
        raise_if (state_differs env.canon plan snapshot target desired paths)
          (stale_plan "deployment: stale plan"))

  -- `apply` up to the `try`.
  unfoldable pub prepare : String → Exec Prepared
  prepare plan_id = do
    plan ← read_plan plan_id
    snapshot ← read_snapshot
    target ← lift (target_of snapshot plan.target_id)
    found ← read_approval plan.id
    approval ← lift (require_approved "deployment: approved plan required" found)
    started_at ← read_clock
    lift (require_current "deployment: stale plan" started_at plan approval)
    projection ← make_projection plan
    manifest ← find_adapter target
    lift (raise_if (manifest != target.capabilities) (stale_plan "deployment: stale plan"))
    lift (require_capability target.capabilities.discover)
    discover_target target projection
    validate_fresh_state plan snapshot target
    lift (require_capability target.capabilities.apply)
    lift (require_capability target.capabilities.verify)
    deployment_id ← name_deployment
    capture_state deployment_id target plan projection
    again ← read_clock
    lift (require_unexpired "deployment: stale plan" again plan)
    pure (record {
      plan = plan;
      snapshot = snapshot;
      target = target;
      approval = approval;
      started_at = started_at;
      projection = projection;
      deployment_id = deployment_id;
    })

  -- `self._ledger.append(self._entry(...))`
  unfoldable pub append_entry : Prepared → String → List EvidenceRef → Exec DeploymentLedgerEntry
  append_entry p result refs = do
    desired ← lift (desired_assets p.snapshot p.plan.target_id)
    finished_at ← read_clock
    entry ← lift (
        make_entry p.deployment_id p.plan p.approval.id p.started_at result refs desired
          finished_at)
    call (entry_appended entry) (λ t. env.ledger_append t entry)
    pure entry

  -- `adapter.verify` and the test of its answer.
  unfoldable pub verify_result : String → Prepared → DeploymentResult → Exec VerificationResult
  verify_result message p result = do
    verification ← call (adapter_verified result) (λ t. env.verify t p.target result p.projection)
    if verification.healthy then pure verification else raise (adapter_failure message)

  -- The `except` clause.
  unfoldable pub record_failure : Prepared → List EvidenceRef → Failure → Exec DeploymentLedgerEntry
  record_failure p refs failure = do append_entry p "failed" refs; raise failure

  -- The `try` statement and what follows it, around one call of the adapter.
  unfoldable pub record_outcome :
      String → String → Prepared → Result DeploymentResult → Exec DeploymentLedgerEntry
  record_outcome label message p (err failure) = record_failure p [] failure
  record_outcome label message p (ok result) = do
    verified ← attempt (verify_result message p result)
    elim verified [
      | err failure ↦ record_failure p result.evidence_refs failure
      | ok verification ↦ append_entry p label (result.evidence_refs ++ verification.evidence_refs)
    ]

  unfoldable pub apply_plan : Prepared → Exec DeploymentResult
  apply_plan p =
      call (adapter_applied p.plan p.deployment_id)
        (λ t. env.adapter_apply t p.target p.plan p.deployment_id p.projection)

  unfoldable pub apply : String → Exec DeploymentLedgerEntry
  apply plan_id = do
    p ← prepare plan_id
    outcome ← attempt (apply_plan p)
    record_outcome "succeeded" "deployment: verification failed" p outcome
