-- ===== src/Planner/Service.antt =====
-- `PlanService` of planner.py. The paths of the file system, the id and the collaborators are
-- arguments.
use package.text.Mathlib.Text.{starts_with}
use skill_governance_control.Base.{
  String, Bool, not, ◌&&◌, ◌||◌, Option, none, some, List, [], ◌∷◌, any, find_first, select,
  DateTime, Span, is_naive, not_positive, add_span, Result, ok, err, governance_validation_error,
  validation_error, raise_if, ◌>>=◌, ◌>>◌, ◌==◌, ◌!=◌, string_eq, list_eq, if◌then◌else◌,
}
use skill_governance_control.Canonical.{Canon, canonical_digest}
use skill_governance_control.Models.{
  Asset, Target, ObservedState, AdapterPlanEvidence, Plan, PlanChange, deploy, low, Value, text,
  array, object, field, field_end, values, texts, or_null, get_field, protocol_text, dump_asset,
  dump_change, dump_observed_state, dump_capabilities, dump_adapter_evidence, plan_ok,
  target_paths_ok,
}
use skill_governance_control.Repository.Snapshot.{GovernanceSnapshot}
use skill_governance_control.Repository.Records.{
  PublishIo, RecordStore, plan_digest_of, create_plan,
}
use skill_governance_control.Planner.Desired.{desired_assets}
use skill_governance_control.Planner.Changes.{calculate_changes}

module _ (c : Canon) where
  unfoldable pub changes_digest : List PlanChange → String
  changes_digest changes = canonical_digest c (array (values dump_change changes))

  unfoldable pub desired_digest : List Asset → String
  desired_digest assets = canonical_digest c (array (values dump_asset assets))

  unfoldable pub observed_digest : List ObservedState → String
  observed_digest os = canonical_digest c (array (values (dump_observed_state c.iso) os))

  unfoldable pub paths_digest : List String → String
  paths_digest paths = canonical_digest c (array (texts paths))

  unfoldable pub source_state : Asset → Value
  source_state a = object (
      field "id" (text a.id) (
        field "source_uri" (or_null a.source_uri) (
          field "source_path" (or_null a.source_path) (
            field "source_revision" (text a.source_revision)
              (field "source_checksum" (text a.source_checksum) field_end)))))

  unfoldable pub source_digest : List Asset → String
  source_digest assets = canonical_digest c (array (values source_state assets))

  unfoldable pub manifest_digest : Target → String
  manifest_digest t = canonical_digest c (
      object (
        field "adapter_id" (text t.adapter_id) (
          field "protocol" (text (protocol_text t.protocol))
            (field "capabilities" (dump_capabilities t.capabilities) field_end))))

-- What `PlanService` is given when it is built, and what its factories and the system answer.
pub record PlanEnv : Type 0 where
  pub canon : Canon
  pub adapter_manifest_digest : Option String
  pub runtime_target_paths : Target → Result (List String)
  pub is_resolved : String → Bool
  pub new_id : String
  pub io : PublishIo
  pub uuid : String

-- `Plan(...)`: the validators of the class.
unfoldable pub construct_plan : PlanEnv → Plan → Result Plan
construct_plan env p =
    if plan_ok p && target_paths_ok env.is_resolved p.runtime_target_paths
    then ok p
    else err validation_error

-- `snapshot.observations` of one target.
abbrev pub target_observations : GovernanceSnapshot → String → List ObservedState
target_observations snapshot target_id =
    select (λ o. o.target_id == target_id) snapshot.observations

-- `adapter_evidence` does not belong to this plan.
unfoldable pub evidence_mismatch :
    PlanEnv → Target → String → List PlanChange → List String → AdapterPlanEvidence → Bool
evidence_mismatch env target target_id changes paths evidence =
    evidence.adapter_id != target.adapter_id
    || evidence.target_id != target_id
    || evidence.changes_digest != changes_digest env.canon changes
    || evidence.resolved_target_paths != paths
    || any (λ ref. ref.owner_id != env.new_id) evidence.evidence_refs

abbrev manifest_of : PlanEnv → Target → String
manifest_of env target = elim env.adapter_manifest_digest [
  | none ↦ manifest_digest env.canon target
  | some digest ↦ if digest == "" then manifest_digest env.canon target else digest
]

-- The `Plan` that `create` builds, before it is signed.
unfoldable pub unsigned_plan :
    PlanEnv
    → Target
    → String
    → List Asset
    → List ObservedState
    → List PlanChange
    → List String
    → AdapterPlanEvidence
    → DateTime
    → Span
    → Plan
unsigned_plan env target target_id desired observations changes paths evidence now expires_in =
    record {
      id = env.new_id;
      operation = deploy;
      target_id = target_id;
      parent_deployment_id = none;
      changes = changes;
      risk = low;
      policy_decision = "allow";
      policy_reasons = [];
      created_at = now;
      expires_at = add_span now expires_in;
      source_state_digest = source_digest env.canon desired;
      desired_state_digest = desired_digest env.canon desired;
      observed_state_digest = observed_digest env.canon observations;
      adapter_manifest_digest = manifest_of env target;
      adapter_evidence_digest = canonical_digest env.canon (dump_adapter_evidence evidence);
      runtime_target_paths = paths;
      runtime_target_paths_digest = paths_digest env.canon paths;
      evidence_refs = evidence.evidence_refs;
      plan_digest = "";
    }

-- `unsigned.model_copy(update={"plan_digest": plan_digest(unsigned)})`
unfoldable pub sign_plan : Canon → Plan → Plan
sign_plan c p = record p { plan_digest = plan_digest_of c p }

-- `create` up to the call of the repository; `snapshot` is what `load_snapshot` returns.
unfoldable pub draft_plan :
    PlanEnv
    → Result GovernanceSnapshot
    → String
    → AdapterPlanEvidence
    → DateTime
    → Span
    → Result Plan
draft_plan env loaded target_id evidence now expires_in = do
  raise_if (is_naive now || not_positive expires_in)
      (governance_validation_error "plan: invalid expiry")
  snapshot ← loaded
  target ← elim (find_first (λ t. t.id == target_id) snapshot.targets) [
    | none ↦ err (governance_validation_error "plan: unknown target")
    | some t ↦ ok t
  ]
  raise_if (not (starts_with env.new_id "plan-")) (governance_validation_error "plan: invalid id")
  desired ← desired_assets snapshot target_id
  changes ← calculate_changes desired (target_observations snapshot target_id)
  paths ← env.runtime_target_paths target
  raise_if (evidence_mismatch env target target_id changes paths evidence)
      (governance_validation_error "plan: adapter evidence mismatch")
  unsigned ← construct_plan env (
      unsigned_plan env target target_id desired (target_observations snapshot target_id) changes
        paths evidence now expires_in)
  ok (sign_plan env.canon unsigned)

unfoldable pub store_plan : PlanEnv → Plan → RecordStore → Result Plan × RecordStore
store_plan env plan s =
    let (r, s') = create_plan env.canon env.io env.uuid plan s in (r >> ok plan, s')

unfoldable pub create :
    PlanEnv
    → Result GovernanceSnapshot
    → String
    → AdapterPlanEvidence
    → DateTime
    → Span
    → RecordStore
    → Result Plan × RecordStore
create env loaded target_id evidence now expires_in s =
    elim (draft_plan env loaded target_id evidence now expires_in) [
      | err e ↦ (err e, s)
      | ok plan ↦ store_plan env plan s
    ]

-- `_default_runtime_target_paths`; `is_absolute` and `resolve` are those of `pathlib`.
unfoldable pub default_runtime_target_paths :
    (String → Bool) → (String → String) → Target → Result (List String)
default_runtime_target_paths is_absolute resolve t = elim (get_field "root" t.config) [
  | some (text root) ↦
      if root == "" || not (is_absolute root) || resolve root != root
      then err (governance_validation_error "plan: runtime target paths unavailable")
      else ok (resolve root ∷ [])
  | _ ↦ err (governance_validation_error "plan: runtime target paths unavailable")
]
