-- ===== src/Service/Env.antt =====
-- The collaborators of `DeploymentService` and the actions that call them.
use skill_governance_control.Base.{
  String, Bool, Option, List, ◌∷◌, DateTime, Result, ok, err, Failure,
}
use skill_governance_control.Canonical.{Canon}
use skill_governance_control.Models.{
  Plan, Approval, Target, CapabilityManifest, ProjectionDescriptor, DeploymentResult,
  VerificationResult, DeploymentLedgerEntry,
}
use skill_governance_control.Repository.Snapshot.{GovernanceSnapshot}

-- A call to a collaborator, with what distinguishes it.
pub data Event : Type 0 where
  plan_read approval_read : String → Event
  snapshot_read clock_read ledger_read : Event
  projection_made : Plan → Event
  adapter_found paths_resolved : Target → Event
  adapter_discovered : Target → ProjectionDescriptor → Event
  deployment_named plan_named : Event
  state_captured : String → Plan → Event
  adapter_applied adapter_rolled_back : Plan → String → Event
  adapter_verified : DeploymentResult → Event
  entry_appended : DeploymentLedgerEntry → Event
  rollback_projected : String → String → Event
  plan_created : Plan → Event

-- The calls of a run, the newest first.
abbrev pub Trace : Type 0
Trace = List Event

pub record ServiceEnv : Type 0 where
  pub canon : Canon
  pub get_plan : Trace → String → Result Plan
  pub load_snapshot : Trace → Result GovernanceSnapshot
  pub get_approval : Trace → String → Result (Option Approval)
  pub create_plan : Trace → Plan → Result (Unit {0})
  pub now : Trace → DateTime
  pub projection_for_plan : Trace → Plan → Result ProjectionDescriptor
  -- The manifest of the adapter of a target.
  pub adapter_for_target : Trace → Target → Result CapabilityManifest
  pub discover : Trace → Target → ProjectionDescriptor → Result (Unit {0})
  pub runtime_target_paths : Trace → Target → Result (List String)
  pub capture : Trace → String → Target → Plan → ProjectionDescriptor → Result (Unit {0})
  pub rollback_projection :
      Trace → String → String → Target → List String → Result ProjectionDescriptor
  pub adapter_apply :
      Trace → Target → Plan → String → ProjectionDescriptor → Result DeploymentResult
  pub adapter_rollback :
      Trace → Target → Plan → String → ProjectionDescriptor → Result DeploymentResult
  pub verify : Trace → Target → DeploymentResult → ProjectionDescriptor → Result VerificationResult
  pub ledger_append : Trace → DeploymentLedgerEntry → Result (Unit {0})
  pub ledger_read_all : Trace → Result (List DeploymentLedgerEntry)
  pub new_deployment_id : Trace → String
  pub new_plan_id : Trace → String
  pub is_resolved : String → Bool

abbrev pub Exec : Type 0 → Type 0
Exec A = Trace → Result A × Trace

abbrev continue : {A B : Type 0} → Result A → (A → Exec B) → Exec B
continue (ok a) f t = f a t
continue (err e) f t = (err e, t)

infixl 5 ◌>>=◌ ◌>>◌
unfoldable pub ◌>>=◌ : {A B : Type 0} → Exec A → (A → Exec B) → Exec B
◌>>=◌ m f t = let (r, t') = m t in continue r f t'

abbrev pub ◌>>◌ : {A B : Type 0} → Exec A → Exec B → Exec B
m >> k = m >>= λ _. k

unfoldable pub pure : {A : Type 0} → A → Exec A
pure a t = (ok a, t)

unfoldable pub raise : {A : Type 0} → Failure → Exec A
raise e t = (err e, t)

unfoldable pub lift : {A : Type 0} → Result A → Exec A
lift r t = (r, t)

-- One call: its answer, from what happened before, and its entry in the trace.
unfoldable pub call : {A : Type 0} → Event → (Trace → Result A) → Exec A
call event answer t = (answer t, event ∷ t)

-- `try`: the exception as a value.
unfoldable pub attempt : {A : Type 0} → Exec A → Exec (Result A)
attempt m t = let (r, t') = m t in (ok r, t')
