-- ===== src/Tests/Deployments.antt =====
-- Runs of the theorems on the deployments.
use skill_governance_control.Base.{
  String, true, List, [], ◌∷◌, none, some, ok, err, governance_validation_error, ◌≡◌, refl,
  string_eq, list_eq, nat_eq, option_eq, subst, sym, ap, ok-injective, ◌∙◌,
}
use skill_governance_control.Base.Sorting.{sort_by}
use skill_governance_control.Base.Text.{is_blank}
use skill_governance_control.Canonical.{canonical_json, canonical_digest}
use skill_governance_control.Models.{
  Asset, Plan, DeploymentResult, VerificationResult, field_end, rollback, operation_eq,
  capability_state_eq, capability_manifest_eq, approval_decision_eq, dump_projection,
  result_owner_ok, verification_owner_ok,
}
use skill_governance_control.Repository.Snapshot.{is_disallowed}
use skill_governance_control.Planner.{
  desired_assets, selector_targets, matching_profiles, approved_asset_ids, paths_digest,
  manifest_digest,
}
use skill_governance_control.Service.Env.{
  ServiceEnv, ◌>>=◌, pure, lift, call, adapter_applied, adapter_rolled_back,
}
use skill_governance_control.Service.Checks.{
  require_capability, target_of, require_approved, require_current, require_unexpired,
  snapshot_digest, rollback_differs, deployment_of,
}
use skill_governance_control.Service.Deploy.{
  Prepared, read_plan, read_snapshot, read_approval, read_clock, resolve_paths, make_projection,
  find_adapter, discover_target, name_deployment, prepare, apply,
}
use skill_governance_control.Service.Rollback.{
  find_deployment, validate_rollback_plan, prepare_rollback, rollback as rollback_deployment,
}
use skill_governance_control.Service.Laws.Effects.{effects}
use skill_governance_control.Service.Laws.Authorised.{Authorised}
use skill_governance_control.Service.Laws.Entries.{EchoesDeployment}
use skill_governance_control.Service.Laws.Recorded.{
  IsRecorded, apply-IsRecorded, rollback-IsRecorded, rollback_unrecorded,
}
use skill_governance_control.Tests.Data.{
  canon, snapshot, target, plan, plan_id, approval, projection, noon, entry, asset,
}

abbrev result_for : String → DeploymentResult
result_for id = record {
  deployment_id = id;
  target_id = "target-t";
  resolved_target_paths = [];
  changed_asset_ids = [];
  result = "applied";
  evidence_refs = [];
}

abbrev verification_for : String → VerificationResult
verification_for id = record {
  deployment_id = id;
  target_id = "target-t";
  resolved_target_paths = [];
  healthy = true;
  drift = field_end;
  evidence_refs = [];
}

-- The collaborators, with one stored plan and a profile whose selector has this key.
abbrev env : Plan → String → ServiceEnv
env stored key = record {
  canon = canon;
  get_plan = λ t id. ok stored;
  load_snapshot = λ t. ok (snapshot key);
  get_approval = λ t id. ok (some approval);
  create_plan = λ t p. ok tt;
  now = λ t. noon;
  projection_for_plan = λ t p. ok projection;
  adapter_for_target = λ t u. ok u.capabilities;
  discover = λ t u p. ok tt;
  runtime_target_paths = λ t u. ok [];
  capture = λ t id u p q. ok tt;
  rollback_projection = λ t id other u paths. ok projection;
  adapter_apply = λ t u p id q. ok (result_for id);
  adapter_rollback = λ t u p id q. ok (result_for id);
  verify = λ t u r q. ok (verification_for r.deployment_id);
  ledger_append = λ t e. ok tt;
  ledger_read_all = λ t. ok (entry "one" none "sha256:0" ∷ []);
  new_deployment_id = λ t. "two";
  new_plan_id = λ t. plan_id;
  is_resolved = λ path. true;
}

abbrev prepared : Plan → String → Prepared
prepared stored key = record {
  plan = stored;
  snapshot = snapshot key;
  target = target;
  approval = approval;
  started_at = noon;
  projection = projection;
  deployment_id = "two";
}

echoes : (stored : Plan) (key : String) → EchoesDeployment (env stored key)
unfolding result_owner_ok verification_owner_ok
echoes stored key = record {
  applied = λ t u p id q r h. (
    sym (ap (λ x. x.deployment_id) (ok-injective h)),
    subst (λ x. result_owner_ok x ≡ true) (ok-injective h) refl,
  );
  rolled_back = λ t u p id q r h. (
    sym (ap (λ x. x.deployment_id) (ok-injective h)),
    subst (λ x. result_owner_ok x ≡ true) (ok-injective h) refl,
  );
  verified = λ t u r q v h. (
    sym (ap (λ x. x.deployment_id) (ok-injective h)),
    subst (λ x. verification_owner_ok x ≡ true) (ok-injective h) refl,
  );
}

apply-IsRecorded_example :
    IsRecorded
      (λ p.
        Authorised (env plan "target_ids") plan_id p (prepare (env plan "target_ids") plan_id []).1)
      (λ p. adapter_applied p.plan p.deployment_id)
      "succeeded"
      (apply (env plan "target_ids") plan_id)
      []
apply-IsRecorded_example =
    apply-IsRecorded (env plan "target_ids") plan_id [] (echoes plan "target_ids")

-- The rollback of deployment "one".
abbrev rollback_plan : Plan
rollback_plan = record plan { operation = rollback; parent_deployment_id = some "one" }

prepares_rollback :
    (key : String)
    → (prepare_rollback (env rollback_plan key) "one" plan_id []).0
      ≡ ok (prepared rollback_plan key)
unfolding prepare_rollback find_deployment validate_rollback_plan read_plan read_snapshot
    read_approval read_clock resolve_paths make_projection find_adapter discover_target
    name_deployment ◌>>=◌ pure lift call require_capability target_of require_approved
    require_current require_unexpired rollback_differs deployment_of snapshot_digest paths_digest
    manifest_digest dump_projection canonical_json canonical_digest string_eq list_eq nat_eq
    option_eq operation_eq capability_state_eq capability_manifest_eq approval_decision_eq
prepares_rollback key = refl

planned : desired_assets (snapshot "target_ids") "target-t" ≡ ok (asset ∷ [])
unfolding desired_assets selector_targets matching_profiles approved_asset_ids is_disallowed
    is_blank sort_by string_eq
planned = refl

planned_rollback :
    (p : Prepared)
    → (prepare_rollback (env rollback_plan "target_ids") "one" plan_id []).0 ≡ ok p
    → (assets : List Asset) × (desired_assets p.snapshot p.plan.target_id ≡ ok assets)
planned_rollback p h =
    subst (λ q. (assets : List Asset) × (desired_assets q.snapshot q.plan.target_id ≡ ok assets))
      (ok-injective (sym (prepares_rollback "target_ids") ∙ h)) (asset ∷ [], planned)

rollback-IsRecorded_example :
    IsRecorded
      (λ p. (prepare_rollback (env rollback_plan "target_ids") "one" plan_id []).0 ≡ ok p)
      (λ p. adapter_rolled_back p.plan p.deployment_id)
      "rolled_back"
      (rollback_deployment (env rollback_plan "target_ids") "one" plan_id)
      []
rollback-IsRecorded_example =
    rollback-IsRecorded (env rollback_plan "target_ids") "one" plan_id []
      (echoes rollback_plan "target_ids") planned_rollback

unplanned :
    desired_assets (snapshot "tags") "target-t"
    ≡ err (governance_validation_error "planner: invalid selector")
unfolding desired_assets selector_targets matching_profiles string_eq
unplanned = refl

-- A profile that is read with another selector after the deployment.
rollback_unrecorded_example :
    ((rollback_deployment (env rollback_plan "tags") "one" plan_id []).0
      ≡ err (governance_validation_error "planner: invalid selector"))
    × (effects (rollback_deployment (env rollback_plan "tags") "one" plan_id []).1
        ≡ adapter_rolled_back rollback_plan "two" ∷ [])
rollback_unrecorded_example =
    rollback_unrecorded (env rollback_plan "tags") "one" plan_id [] (prepared rollback_plan "tags")
      (governance_validation_error "planner: invalid selector") (prepares_rollback "tags") unplanned
