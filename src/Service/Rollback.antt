-- ===== src/Service/Rollback.antt =====
-- `create_rollback_plan` and `rollback` of service.py.
use skill_governance_control.Base.{
  String, not, ◌&&◌, ◌||◌, some, List, [], map, DateTime, is_naive, add_span, forward, ok,
  stale_plan, ledger_corruption, validation_error, raise_if, ◌!=◌, string_eq,
}
use skill_governance_control.Canonical.{canonical_digest}
use skill_governance_control.Models.{
  Plan, Target, capability_manifest_eq, ProjectionDescriptor, DeploymentResult,
  DeploymentLedgerEntry, rollback as rollback_operation, dump_projection, plan_ok, target_paths_ok,
  is_none,
}
use skill_governance_control.Planner.{paths_digest, manifest_digest, sign_plan}
use skill_governance_control.Service.Env.{
  ledger_read, plan_named, rollback_projected, plan_created, adapter_rolled_back, ServiceEnv, Exec,
  ◌>>=◌, ◌>>◌, pure, lift, call, attempt,
}
use skill_governance_control.Service.Checks.{
  require_capability, target_of, require_approved, require_current, require_unexpired,
  snapshot_digest, rollback_differs, deployment_of, inverse_change,
}
use skill_governance_control.Service.Deploy.{
  Prepared, read_plan, read_snapshot, read_approval, read_clock, resolve_paths, make_projection,
  find_adapter, discover_target, name_deployment, record_outcome,
}

module _ (env : ServiceEnv) where
  -- `_deployment`
  unfoldable pub find_deployment : String → Exec DeploymentLedgerEntry
  find_deployment deployment_id = do
    entries ← call ledger_read env.ledger_read_all
    lift (deployment_of entries deployment_id)

  -- The `Plan` that `create_rollback_plan` builds, before it is signed. It lives for 30 minutes.
  unfoldable pub unsigned_rollback :
      String → String → Plan → Target → List String → ProjectionDescriptor → DateTime → Plan
  unsigned_rollback plan_id deployment_id parent_plan target paths projection now = record {
    id = plan_id;
    operation = rollback_operation;
    target_id = target.id;
    parent_deployment_id = some deployment_id;
    changes = map inverse_change parent_plan.changes;
    risk = parent_plan.risk;
    policy_decision = "allow";
    policy_reasons = [];
    created_at = now;
    expires_at = add_span now (forward 1_800_000_000);
    source_state_digest = parent_plan.desired_state_digest;
    desired_state_digest = snapshot_digest env.canon projection;
    observed_state_digest = parent_plan.desired_state_digest;
    adapter_manifest_digest = manifest_digest env.canon target;
    adapter_evidence_digest = canonical_digest env.canon (dump_projection projection);
    runtime_target_paths = paths;
    runtime_target_paths_digest = paths_digest env.canon paths;
    evidence_refs = [];
    plan_digest = "";
  }

  unfoldable pub create_rollback_plan : String → DateTime → Exec Plan
  create_rollback_plan deployment_id now = do
    lift (raise_if (is_naive now) (stale_plan "rollback: invalid plan time"))
    parent ← find_deployment deployment_id
    lift (
        raise_if (parent.result != "succeeded" || not (is_none parent.parent_deployment_id))
          (ledger_corruption "rollback: invalid deployment state"))
    parent_plan ← read_plan env parent.plan_id
    snapshot ← read_snapshot env
    target ← lift (target_of snapshot parent.target_id)
    paths ← resolve_paths env target
    plan_id ← call plan_named (λ t. ok (env.new_plan_id t))
    projection ←
        call (rollback_projected deployment_id plan_id)
          (λ t. env.rollback_projection t deployment_id plan_id target paths)
    let unsigned = unsigned_rollback plan_id deployment_id parent_plan target paths projection now
    lift (
        raise_if (not (plan_ok unsigned && target_paths_ok env.is_resolved paths)) validation_error)
    let plan = sign_plan env.canon unsigned
    call (plan_created plan) (λ t. env.create_plan t plan)
    pure plan

  -- `_validate_rollback_plan`
  unfoldable pub validate_rollback_plan :
      Plan → DeploymentLedgerEntry → Target → ProjectionDescriptor → Exec (Unit {0})
  validate_rollback_plan plan parent target projection = do
    parent_plan ← read_plan env parent.plan_id
    paths ← resolve_paths env target
    lift (
        raise_if (rollback_differs env.canon plan parent parent_plan target projection paths)
          (stale_plan "rollback: stale plan"))

  -- `rollback` up to the `try`.
  unfoldable pub prepare_rollback : String → String → Exec Prepared
  prepare_rollback deployment_id rollback_plan_id = do
    parent ← find_deployment deployment_id
    plan ← read_plan env rollback_plan_id
    snapshot ← read_snapshot env
    target ← lift (target_of snapshot parent.target_id)
    found ← read_approval env plan.id
    approval ← lift (require_approved "rollback: approved plan required" found)
    started_at ← read_clock env
    lift (require_current "rollback: stale plan" started_at plan approval)
    projection ← make_projection env plan
    validate_rollback_plan plan parent target projection
    manifest ← find_adapter env target
    lift (raise_if (manifest != target.capabilities) (stale_plan "rollback: stale plan"))
    lift (require_capability target.capabilities.discover)
    discover_target env target projection
    lift (require_capability target.capabilities.rollback)
    lift (require_capability target.capabilities.verify)
    rollback_id ← name_deployment env
    again ← read_clock env
    lift (require_unexpired "rollback: stale plan" again plan)
    pure (record {
      plan = plan;
      snapshot = snapshot;
      target = target;
      approval = approval;
      started_at = started_at;
      projection = projection;
      deployment_id = rollback_id;
    })

  unfoldable pub roll_back_plan : Prepared → Exec DeploymentResult
  roll_back_plan p =
      call (adapter_rolled_back p.plan p.deployment_id)
        (λ t. env.adapter_rollback t p.target p.plan p.deployment_id p.projection)

  unfoldable pub rollback : String → String → Exec DeploymentLedgerEntry
  rollback deployment_id rollback_plan_id = do
    p ← prepare_rollback deployment_id rollback_plan_id
    outcome ← attempt (roll_back_plan p)
    record_outcome env "rolled_back" "rollback: verification failed" p outcome
