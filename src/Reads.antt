-- ===== src/Reads.antt =====
-- read_service.py: the reports on the targets, which read the documents, the ledger and the adapters.
pub mod Laws
use skill_governance_control.Base.{
  ℕ, zero, suc, String, ◌<>◌, Bool, true, false, not, ◌||◌, Option, none, some, List, [], ◌∷◌, ◌++◌,
  map, select, DateTime, Result, ok, err, governance_validation_error, stale_plan, validation_error,
  raise_if, ◌>>=◌, ◌>>◌, ◌==◌, ◌!=◌, string_eq, if◌then◌else◌,
}
use skill_governance_control.Models.{
  Value, text, object, Fields, field, field_end, EvidenceRef, Plan, Target, CapabilityManifest,
  capability_manifest_eq, ProjectionDescriptor, ObservedState, DeploymentResult, VerificationResult,
  DeploymentLedgerEntry, result_owner_ok,
}
use skill_governance_control.Repository.Snapshot.{GovernanceSnapshot}
use skill_governance_control.Service.Checks.{require_capability}

-- `StatusReport` and `DriftReport`
pub record StatusReport : Type 0 where
  pub generated_at : DateTime
  pub target_id : Option String
  pub target_health : List (String × Value)
  pub observed_revisions : List (String × String)
  pub drift_count : ℕ
  pub evidence_refs : List EvidenceRef

pub record DriftReport : Type 0 where
  pub generated_at : DateTime
  pub target_id : Option String
  pub changes : List Fields
  pub has_drift : Bool
  pub evidence_refs : List EvidenceRef

-- The collaborators, as what they answer. The paths of a plan were checked when it was read.
pub record ReadEnv : Type 0 where
  pub load_snapshot : Result GovernanceSnapshot
  pub read_all : Result (List DeploymentLedgerEntry)
  pub get_plan : String → Result Plan
  pub projection_for_plan : Plan → Result ProjectionDescriptor
  pub adapter_manifest : Target → Result CapabilityManifest
  pub discover : Target → ProjectionDescriptor → Result (List ObservedState)
  pub verify : Target → DeploymentResult → ProjectionDescriptor → Result VerificationResult
  pub now : DateTime

-- `mapping[key] = value` and `mapping.get(key)`, on the pairs in the order of the keys.
unfoldable pub put_item {ℓ} : {A : Type ℓ} → String → A → List (String × A) → List (String × A)
put_item key value [] = (key, value) ∷ []
put_item key value ((k, v) ∷ rest) =
    let rest' = put_item key value rest in if k == key then (k, value) ∷ rest else (k, v) ∷ rest'

unfoldable pub get_item {ℓ} : {A : Type ℓ} → String → List (String × A) → Option A
get_item key [] = none
get_item key ((k, v) ∷ rest) = let found = get_item key rest in if k == key then some v else found

-- `entry.result in {"succeeded", "rolled_back"}`
unfoldable pub is_successful : DeploymentLedgerEntry → Bool
is_successful e = e.result == "succeeded" || e.result == "rolled_back"

-- The loop of `_latest_successful_deployments`.
unfoldable pub latest_from :
    List DeploymentLedgerEntry
    → List (String × DeploymentLedgerEntry)
    → List (String × DeploymentLedgerEntry)
latest_from [] latest = latest
latest_from (e ∷ es) latest =
    latest_from es (if is_successful e then put_item e.target_id e latest else latest)

unfoldable pub latest_successful_deployments :
    ReadEnv → Result (List (String × DeploymentLedgerEntry))
latest_successful_deployments env = do entries ← env.read_all; ok (latest_from entries [])

-- `_selected_targets`
unfoldable pub selected_targets :
    ReadEnv → Option String → Result (GovernanceSnapshot × List Target)
selected_targets env none = do snapshot ← env.load_snapshot; ok (snapshot, snapshot.targets)
selected_targets env (some target_id) = do
  snapshot ← env.load_snapshot
  elim (select (λ t. t.id == target_id) snapshot.targets) [
    | [] ↦ err (governance_validation_error "read service: unknown target")
    | t ∷ ts ↦ ok (snapshot, t ∷ ts)
  ]

unfoldable pub refs_of : List ObservedState → List EvidenceRef
refs_of [] = []
refs_of (o ∷ os) = o.evidence_refs ++ refs_of os

-- The `DeploymentResult` that is verified, whose class checks it.
unfoldable pub deployment_result : Target → Plan → DeploymentLedgerEntry → Result DeploymentResult
deployment_result target plan e =
    let result : DeploymentResult = record {
      deployment_id = e.deployment_id;
      target_id = target.id;
      resolved_target_paths = plan.runtime_target_paths;
      changed_asset_ids = e.asset_ids;
      result = e.result;
      evidence_refs = e.evidence_refs;
    } in
    if result_owner_ok result then ok result else err validation_error

-- `_verification`
unfoldable pub verification_of :
    ReadEnv → Target → DeploymentLedgerEntry → Result (VerificationResult × List EvidenceRef)
verification_of env target deployment = do
  plan ← env.get_plan deployment.plan_id
  raise_if (plan.target_id != target.id) (stale_plan "read service: stale deployment")
  projection ← env.projection_for_plan plan
  manifest ← env.adapter_manifest target
  raise_if (manifest != target.capabilities) (stale_plan "read service: stale adapter")
  require_capability manifest.discover
  observations ← env.discover target projection
  require_capability manifest.verify
  result ← deployment_result target plan deployment
  verification ← env.verify target result projection
  ok (verification, refs_of observations)

-- What `status` collects.
pub record Collected : Type 0 where
  pub health : List (String × Value)
  pub revisions : List (String × String)
  pub drifted : ℕ
  pub refs : List EvidenceRef

-- The observations of a target without a deployment.
unfoldable pub collect_observations : Target → List ObservedState → Collected → Collected
collect_observations target [] c = c
collect_observations target (o ∷ os) c = collect_observations target os (
    if o.target_id == target.id
    then record c {
      revisions = put_item (target.id <> (":" <> o.asset_id)) o.revision c.revisions;
      refs = c.refs ++ o.evidence_refs;
    }
    else c)

unfoldable pub put_revisions :
    Target → List (String × String) → List (String × String) → List (String × String)
put_revisions target [] revisions = revisions
put_revisions target ((asset_id, revision) ∷ rest) revisions =
    put_revisions target rest (put_item (target.id <> (":" <> asset_id)) revision revisions)

unfoldable pub collect_verified :
    Target → DeploymentLedgerEntry → VerificationResult × List EvidenceRef → Collected → Collected
collect_verified target deployment (v, discovered_refs) c = record {
  health =
      put_item target.id
        (object (
          field "status" (text (if v.healthy then "healthy" else "drifted")) (
            field "deployment_id" (text deployment.deployment_id)
              (field "drift" (object v.drift) field_end))))
        c.health;
  revisions = put_revisions target deployment.source_revisions c.revisions;
  drifted = if v.healthy then c.drifted else suc c.drifted;
  refs = (c.refs ++ discovered_refs) ++ v.evidence_refs;
}

abbrev pub with_unmanaged : Target → Collected → Collected
with_unmanaged t c = record c {
  health = put_item t.id (object (field "status" (text "unmanaged") field_end)) c.health;
}

-- The loop of `status`.
unfoldable pub collect_status :
    ReadEnv
    → List ObservedState
    → List (String × DeploymentLedgerEntry)
    → List Target
    → Collected
    → Result Collected
collect_status env observations latest [] c = ok c
collect_status env observations latest (t ∷ ts) c = elim (get_item t.id latest) [
  | none ↦
      collect_status env observations latest ts
        (collect_observations t observations (with_unmanaged t c))
  | some deployment ↦ verification_of env t deployment >>= λ verified.
      collect_status env observations latest ts (collect_verified t deployment verified c)
]

unfoldable pub status : ReadEnv → Option String → Result StatusReport
status env target_id = do
  selected ← selected_targets env target_id
  latest ← latest_successful_deployments env
  c ←
      collect_status env selected.0.observations latest selected.1
        (record { health = []; revisions = []; drifted = 0; refs = [] })
  ok (record {
    generated_at = env.now;
    target_id = target_id;
    target_health = c.health;
    observed_revisions = c.revisions;
    drift_count = c.drifted;
    evidence_refs = c.refs;
  })

-- What `drift` collects from one target, before what it collects from the others.
unfoldable pub add_drift :
    Target
    → DeploymentLedgerEntry
    → VerificationResult × List EvidenceRef
    → List Fields × List EvidenceRef
    → List Fields × List EvidenceRef
add_drift target deployment (v, discovered_refs) (changes, refs) = (
  if v.healthy
      then changes
      else field "target_id" (text target.id) (
          field "deployment_id" (text deployment.deployment_id)
            (field "drift" (object v.drift) field_end))
        ∷ changes,
  discovered_refs ++ (v.evidence_refs ++ refs),
)

-- The loop of `drift`.
unfoldable pub collect_drift :
    ReadEnv
    → List (String × DeploymentLedgerEntry)
    → List Target
    → Result (List Fields × List EvidenceRef)
collect_drift env latest [] = ok ([], [])
collect_drift env latest (t ∷ ts) = elim (get_item t.id latest) [
  | none ↦ collect_drift env latest ts
  | some deployment ↦ verification_of env t deployment >>= λ verified.
      collect_drift env latest ts >>= λ rest. ok (add_drift t deployment verified rest)
]

abbrev pub is_filled : List Fields → Bool
is_filled [] = false
is_filled (c ∷ cs) = true

unfoldable pub drift : ReadEnv → Option String → Result DriftReport
drift env target_id = do
  selected ← selected_targets env target_id
  latest ← latest_successful_deployments env
  found ← collect_drift env latest selected.1
  ok (record {
    generated_at = env.now;
    target_id = target_id;
    changes = found.0;
    has_drift = is_filled found.0;
    evidence_refs = found.1;
  })
