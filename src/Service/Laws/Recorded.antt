-- ===== src/Service/Laws/Recorded.antt =====
-- When a call of an adapter that changes a target is followed by one ledger entry, and when it is not.
use skill_governance_control.Base.{
  String, true, List, [], ◌∷◌, ◌++◌, Result, ok, err, Failure, ◌≡◌, refl, sym, ap, subst, ◌∙◌,
  arith, string_eq, Result-cases, inl, inr,
}
use skill_governance_control.Models.{
  Asset, EvidenceRef, owner_type_eq, DeploymentResult, VerificationResult, DeploymentLedgerEntry,
  result_owner_ok,
}
use skill_governance_control.Planner.{desired_assets}
use skill_governance_control.Service.Env.{
  Event, Trace, ServiceEnv, Exec, entry_appended, adapter_applied, adapter_rolled_back, ◌>>=◌, lift,
  call, attempt,
}
use skill_governance_control.Service.Deploy.{
  Prepared, read_plan, read_snapshot, read_approval, read_clock, resolve_paths, make_projection,
  find_adapter, discover_target, name_deployment, capture_state, validate_fresh_state, prepare,
  append_entry, verify_result, record_failure, record_outcome, apply_plan, apply,
}
use skill_governance_control.Service.Rollback.{
  find_deployment, validate_rollback_plan, prepare_rollback, roll_back_plan, rollback,
}
use skill_governance_control.Service.Laws.Effects.{is_effect, effects, Quiet, quiet_rules}
use skill_governance_control.Service.Laws.Authorised.{Authorised, prepare-Authorised}
use skill_governance_control.Service.Laws.Entries.{EchoesDeployment}
use skill_governance_control.Service.Laws.Outcome.{
  IsEntryOf, run-Appended, verify_result-Quiet, after_verify, record_outcome-after_verify,
}

prepare-Quiet : (env : ServiceEnv) (plan_id : String) → Quiet (prepare env plan_id)
unfolding prepare read_plan read_snapshot read_approval read_clock make_projection find_adapter
    discover_target validate_fresh_state resolve_paths name_deployment capture_state
prepare-Quiet env plan_id = search quiet_rules depth 60

prepare_rollback-Quiet :
    (env : ServiceEnv) (id plan_id : String) → Quiet (prepare_rollback env id plan_id)
unfolding prepare_rollback find_deployment validate_rollback_plan read_plan read_snapshot
    read_approval read_clock make_projection find_adapter discover_target resolve_paths
    name_deployment
prepare_rollback-Quiet env id plan_id = search quiet_rules depth 60

-- How a run ends that prepares and then makes one call of an adapter that changes the target: with
-- an error and no effect, or with the adapter's call and one append to the ledger about it.
pub data IsRecorded (P : Prepared → Type 0) (event : Prepared → Event) (label : String)
    (m : Exec DeploymentLedgerEntry) (t : Trace) : Type 0 where
  refused :
      (failure : Failure)
      → (m t).0 ≡ err failure
      → effects (m t).1 ≡ effects t
      → IsRecorded P event label m t
  recorded :
      (p : Prepared) (entry : DeploymentLedgerEntry)
      → P p
      → effects (m t).1 ≡ entry_appended entry ∷ event p ∷ effects t
      → IsEntryOf p entry
      → ((e : DeploymentLedgerEntry) → (m t).0 ≡ ok e → (e ≡ entry) × (e.result ≡ label))
      → IsRecorded P event label m t

-- An action, then what follows it, by how the action ends.
bind-ok :
    (m : Exec Prepared) (f : Prepared → Exec DeploymentLedgerEntry) (t : Trace) (p : Prepared)
    → (m t).0 ≡ ok p
    → (m >>= f) t ≡ f p (m t).1
unfolding ◌>>=◌
bind-ok m f t p h = rw h

bind-err :
    (m : Exec Prepared) (f : Prepared → Exec DeploymentLedgerEntry) (t : Trace) (e : Failure)
    → (m t).0 ≡ err e
    → (m >>= f) t ≡ (err e, (m t).1)
unfolding ◌>>=◌
bind-err m f t e h = rw h

run-IsRecorded :
    (env : ServiceEnv) (P : Prepared → Type 0) (m : Exec Prepared) (event : Prepared → Event)
    (answer : Prepared → Trace → Result DeploymentResult) (label message : String) (t : Trace)
    → EchoesDeployment env
    → Quiet m
    → ((p : Prepared)
        → (m t).0 ≡ ok p
        → P p × ((assets : List Asset) × (desired_assets p.snapshot p.plan.target_id ≡ ok assets)))
    → ((p : Prepared) → is_effect (event p) ≡ true)
    → ((p : Prepared) (u : Trace) (r : DeploymentResult)
        → answer p u ≡ ok r
        → (r.deployment_id ≡ p.deployment_id) × (result_owner_ok r ≡ true))
    → IsRecorded P event label
        (m >>= λ p. attempt (call (event p) (answer p)) >>= record_outcome env label message p)
        t
run-IsRecorded env P m event answer label message t echoes quiet known counted answers =
    elim (Result-cases (m t).0) [
      | inl (p, h) ↦
          let (holds, (assets, planned)) = known p h in
          let same =
            bind-ok m
              (λ p. attempt (call (event p) (answer p)) >>= record_outcome env label message p) t p
              h in
          let (entry, appended, is_entry, returned) =
            run-Appended env p assets planned label message (event p) (answer p) (m t).1 echoes
              (counted p) (answers p (m t).1) in
          recorded p entry holds
            (ap (λ x. effects x.1) same
              ∙ appended
              ∙ ap (λ l. entry_appended entry ∷ event p ∷ l) (quiet.at t))
            is_entry (λ e k. returned e (sym (ap (λ x. x.0) same) ∙ k))
      | inr (failure, h) ↦
          let same =
            bind-err m
              (λ p. attempt (call (event p) (answer p)) >>= record_outcome env label message p) t
              failure h in
          refused failure (ap (λ x. x.0) same) (ap (λ x. effects x.1) same ∙ quiet.at t)
    ]

-- `apply` either raises and has no effect, or calls the adapter once, for a plan that is authorised,
-- and then hands exactly one entry to the ledger, about that deployment, plan and approval, whether
-- the adapter's call and its verification succeed or raise; if it returns, it returns that entry, as
-- "succeeded". The adapter's answers are instances of their classes and name the deployment that it
-- was given.
pub apply-IsRecorded :
    (env : ServiceEnv) (plan_id : String) (t : Trace)
    → EchoesDeployment env
    → IsRecorded
        (λ p. Authorised env plan_id p (prepare env plan_id t).1)
        (λ p. adapter_applied p.plan p.deployment_id)
        "succeeded"
        (apply env plan_id)
        t
unfolding apply apply_plan
apply-IsRecorded env plan_id t echoes =
    run-IsRecorded env (λ p. Authorised env plan_id p (prepare env plan_id t).1)
      (prepare env plan_id) (λ p. adapter_applied p.plan p.deployment_id)
      (λ p u. env.adapter_apply u p.target p.plan p.deployment_id p.projection) "succeeded"
      "deployment: verification failed" t echoes (prepare-Quiet env plan_id)
      (λ p h.
        let a = prepare-Authorised env plan_id t p h in
        (
          a,
          subst (λ id. (assets : List Asset) × (desired_assets p.snapshot id ≡ ok assets))
              a.own_target a.planned,
        ))
      (λ p. refl) (λ p u r h. echoes.applied u p.target p.plan p.deployment_id p.projection r h)

-- `rollback` either raises and has no effect, or calls the adapter once and then hands exactly one
-- entry about that rollback to the ledger, if assets can be planned for the target of the plan that
-- it prepared. The adapter's answers are instances of their classes and name the deployment that it
-- was given.
pub rollback-IsRecorded :
    (env : ServiceEnv) (deployment_id rollback_plan_id : String) (t : Trace)
    → EchoesDeployment env
    → ((p : Prepared)
        → (prepare_rollback env deployment_id rollback_plan_id t).0 ≡ ok p
        → (assets : List Asset) × (desired_assets p.snapshot p.plan.target_id ≡ ok assets))
    → IsRecorded
        (λ p. (prepare_rollback env deployment_id rollback_plan_id t).0 ≡ ok p)
        (λ p. adapter_rolled_back p.plan p.deployment_id)
        "rolled_back"
        (rollback env deployment_id rollback_plan_id)
        t
unfolding rollback roll_back_plan
rollback-IsRecorded env deployment_id rollback_plan_id t echoes planned =
    run-IsRecorded env (λ p. (prepare_rollback env deployment_id rollback_plan_id t).0 ≡ ok p)
      (prepare_rollback env deployment_id rollback_plan_id)
      (λ p. adapter_rolled_back p.plan p.deployment_id)
      (λ p u. env.adapter_rollback u p.target p.plan p.deployment_id p.projection) "rolled_back"
      "rollback: verification failed" t echoes
      (prepare_rollback-Quiet env deployment_id rollback_plan_id) (λ p h. (h, planned p h))
      (λ p. refl) (λ p u r h. echoes.rolled_back u p.target p.plan p.deployment_id p.projection r h)

append_entry-unplanned :
    (env : ServiceEnv) (p : Prepared) (label : String) (refs : List EvidenceRef) (t : Trace)
    (failure : Failure)
    → desired_assets p.snapshot p.plan.target_id ≡ err failure
    → append_entry env p label refs t ≡ (err failure, t)
unfolding append_entry lift ◌>>=◌
append_entry-unplanned env p label refs t failure h = rw h

record_failure-unplanned :
    (env : ServiceEnv) (p : Prepared) (refs : List EvidenceRef) (t : Trace)
    (failure cause : Failure)
    → desired_assets p.snapshot p.plan.target_id ≡ err failure
    → record_failure env p refs cause t ≡ (err failure, t)
unfolding record_failure ◌>>=◌
record_failure-unplanned env p refs t failure cause h =
    rw (append_entry-unplanned env p "failed" refs t failure h)

record_outcome-unplanned :
    (env : ServiceEnv) (p : Prepared) (label message : String) (outcome : Result DeploymentResult)
    (t : Trace) (failure : Failure)
    → desired_assets p.snapshot p.plan.target_id ≡ err failure
    → ((record_outcome env label message p outcome t).0 ≡ err failure)
      × (effects (record_outcome env label message p outcome t).1 ≡ effects t)
unfolding record_outcome after_verify
record_outcome-unplanned env p label message (err cause) t failure h =
    let same = record_failure-unplanned env p [] t failure cause h in
    (ap (λ x. x.0) same, ap (λ x. effects x.1) same)
record_outcome-unplanned env p label message (ok r) t failure h =
    let t' = (verify_result env message p r t).1 in
    let same =
      record_outcome-after_verify env p label message r t
      ∙ stop (verify_result env message p r t).0 t' in
    (ap (λ x. x.0) same, ap (λ x. effects x.1) same ∙ (verify_result-Quiet env p message r).at t)
  where
    stop :
        (v : Result VerificationResult) (u : Trace)
        → after_verify env p label r v u ≡ (err failure, u)
    stop (err cause) u = record_failure-unplanned env p r.evidence_refs u failure cause h
    stop (ok v) u =
        append_entry-unplanned env p label (r.evidence_refs ++ v.evidence_refs) u failure h

-- A rollback leaves no entry if the assets of its target cannot be planned: whatever the adapter
-- answers, the adapter has been called, nothing is appended, and the error is the planner's.
pub rollback_unrecorded :
    (env : ServiceEnv) (deployment_id rollback_plan_id : String) (t : Trace) (p : Prepared)
    (failure : Failure)
    → (prepare_rollback env deployment_id rollback_plan_id t).0 ≡ ok p
    → desired_assets p.snapshot p.plan.target_id ≡ err failure
    → ((rollback env deployment_id rollback_plan_id t).0 ≡ err failure)
      × (effects (rollback env deployment_id rollback_plan_id t).1
          ≡ adapter_rolled_back p.plan p.deployment_id ∷ effects t)
unfolding rollback roll_back_plan attempt call ◌>>=◌
rollback_unrecorded env deployment_id rollback_plan_id t p failure prepared unplanned =
    let t' = (prepare_rollback env deployment_id rollback_plan_id t).1 in
    let event = adapter_rolled_back p.plan p.deployment_id in
    let answer = env.adapter_rollback t' p.target p.plan p.deployment_id p.projection in
    let quiet = (prepare_rollback-Quiet env deployment_id rollback_plan_id).at t in
    let (fails, same) =
      record_outcome-unplanned env p "rolled_back" "rollback: verification failed" answer
        (event ∷ t') failure unplanned in
    (ground (arith, fails), ground (arith, same, quiet))
