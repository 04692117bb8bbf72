-- ===== src/Service/Laws/Outcome.antt =====
-- What follows one call of an adapter in service.py: one ledger entry about it.
use skill_governance_control.Base.{
  String, true, List, [], ◌∷◌, ◌++◌, Result, ok, err, Failure, ◌≡◌, ◌≢◌, refl, sym, ap,
  adapter_failure, subst, ◌∙◌, arith, string_eq, Result-cases, Bool-cases, inl, inr, if◌then◌else◌,
}
use skill_governance_control.Models.{
  Asset, EvidenceRef, owner_type_eq, DeploymentResult, VerificationResult, DeploymentLedgerEntry,
  result_owner_ok,
}
use skill_governance_control.Planner.{desired_assets}
use skill_governance_control.Service.Env.{
  Event, Trace, ServiceEnv, Exec, entry_appended, ◌>>=◌, pure, raise, lift, call, attempt,
}
use skill_governance_control.Service.Deploy.{
  Prepared, read_clock, append_entry, verify_result, record_failure, record_outcome,
}
use skill_governance_control.Service.Laws.Effects.{
  is_effect, effects, Quiet, Quiet-bind, Quiet-call, Quiet-pure, Quiet-raise,
}
use skill_governance_control.Service.Laws.Entries.{
  Owned, EchoesDeployment, result-Owned, verification-Owned, Owned-append, make_entry-ok,
}

then_raise :
    (m : Exec DeploymentLedgerEntry) (failure : Failure) (t : Trace)
    → (effects ((m >>= λ _. raise {A = DeploymentLedgerEntry} failure) t).1 ≡ effects (m t).1)
      × ((e : DeploymentLedgerEntry)
          → ((m >>= λ _. raise {A = DeploymentLedgerEntry} failure) t).0 ≢ ok e)
unfolding raise ◌>>=◌
then_raise m failure t = elim (Result-cases (m t).0) [
  | inl (e, k) ↦ (ground arith, λ e' h. ground arith)
  | inr (x, k) ↦ (ground arith, λ e' h. ground arith)
]

-- The entry names the deployment, the plan and the approval that were prepared.
pub record IsEntryOf (p : Prepared) (entry : DeploymentLedgerEntry) : Type 0 where
  pub of_deployment : entry.deployment_id ≡ p.deployment_id
  pub of_plan : entry.plan_id ≡ p.plan.id
  pub by_approval : entry.approval_ref ≡ p.approval.id

-- A run appended one entry, about the deployment that was prepared. If it returns, it returns that
-- entry, with this label.
pub record Appended (p : Prepared) (label : String) (m : Exec DeploymentLedgerEntry) (t : Trace)
    : Type 0 where
  pub entry : DeploymentLedgerEntry
  pub appended : effects (m t).1 ≡ entry_appended entry ∷ effects t
  pub of_deployment : entry.deployment_id ≡ p.deployment_id
  pub of_plan : entry.plan_id ≡ p.plan.id
  pub by_approval : entry.approval_ref ≡ p.approval.id
  pub returned : (e : DeploymentLedgerEntry) → (m t).0 ≡ ok e → (e ≡ entry) × (e.result ≡ label)

module _ (env : ServiceEnv) (p : Prepared) where
  pub verify_result-Quiet :
      (message : String) (r : DeploymentResult) → Quiet (verify_result env message p r)
  unfolding verify_result
  verify_result-Quiet message r = Quiet-bind _ _ (Quiet-call _ _ refl) λ v.
      elim (Bool-cases v.healthy) [
        | inl h ↦
            subst (λ b. Quiet (if b then pure v else raise (adapter_failure message))) (sym h)
              (Quiet-pure v)
        | inr h ↦
            subst (λ b. Quiet (if b then pure v else raise (adapter_failure message))) (sym h)
              (Quiet-raise (adapter_failure message))
      ]

  verify_result-ok :
      (message : String) (r : DeploymentResult) (t : Trace) (v : VerificationResult)
      → (verify_result env message p r t).0 ≡ ok v
      → env.verify t p.target r p.projection ≡ ok v
  unfolding verify_result call pure raise ◌>>=◌
  verify_result-ok message r t v h = elim (Result-cases (env.verify t p.target r p.projection)) [
    | inl (w, k) ↦ elim (Bool-cases w.healthy) [
      | inl healthy ↦ ground arith
      | inr ill ↦ ground arith
    ]
    | inr (failure, k) ↦ ground arith
  ]

  -- What `record_outcome` does with the answer of `verify_result`.
  unfoldable pub after_verify :
      String → DeploymentResult → Result VerificationResult → Exec DeploymentLedgerEntry
  after_verify label r (err failure) = record_failure env p r.evidence_refs failure
  after_verify label r (ok v) = append_entry env p label (r.evidence_refs ++ v.evidence_refs)

  pub record_outcome-after_verify :
      (label message : String) (r : DeploymentResult) (t : Trace)
      → record_outcome env label message p (ok r) t
        ≡ after_verify label r
            (verify_result env message p r t).0
            (verify_result env message p r t).1
  unfolding record_outcome after_verify attempt ◌>>=◌
  record_outcome-after_verify label message r t =
      elim (Result-cases (verify_result env message p r t).0) [
        | inl (v, k) ↦ rw k
        | inr (failure, k) ↦ rw k
      ]

module _ (env : ServiceEnv) (p : Prepared) (assets : List Asset)
    (planned : desired_assets p.snapshot p.plan.target_id ≡ ok assets) where
  append_entry-Appended :
      (label : String) (refs : List EvidenceRef) (t : Trace)
      → Owned p.deployment_id refs
      → Appended p label (append_entry env p label refs) t
  unfolding append_entry read_clock call lift pure ◌>>=◌
  append_entry-Appended label refs t owned =
      let (e, made, id, plan, approval, result) =
        make_entry-ok p.deployment_id p.plan p.approval.id p.started_at label refs assets
          (env.now t) owned in
      record {
        entry = e;
        appended = ground arith;
        of_deployment = id;
        of_plan = plan;
        by_approval = approval;
        returned = λ e' h. ground arith;
      }

  record_failure-Appended :
      (label : String) (refs : List EvidenceRef) (failure : Failure) (t : Trace)
      → Owned p.deployment_id refs
      → Appended p label (record_failure env p refs failure) t
  unfolding record_failure
  record_failure-Appended label refs failure t owned =
      let a = append_entry-Appended "failed" refs t owned in
      let (same, never) = then_raise (append_entry env p "failed" refs) failure t in
      record {
        entry = a.entry;
        appended = same ∙ a.appended;
        of_deployment = a.of_deployment;
        of_plan = a.of_plan;
        by_approval = a.by_approval;
        returned = λ e h. absurd (never e h);
      }

  after_verify-Appended :
      (label : String) (r : DeploymentResult) (verified : Result VerificationResult) (t : Trace)
      → Owned p.deployment_id r.evidence_refs
      → ((v : VerificationResult) → verified ≡ ok v → Owned p.deployment_id v.evidence_refs)
      → Appended p label (after_verify env p label r verified) t
  unfolding after_verify
  after_verify-Appended label r (err failure) t own_r own_v =
      record_failure-Appended label r.evidence_refs failure t own_r
  after_verify-Appended label r (ok v) t own_r own_v =
      append_entry-Appended label (r.evidence_refs ++ v.evidence_refs) t
        (Owned-append p.deployment_id r.evidence_refs v.evidence_refs own_r (own_v v refl))

  verify_result-Owned :
      (message : String) (r : DeploymentResult) (t : Trace)
      → EchoesDeployment env
      → r.deployment_id ≡ p.deployment_id
      → (v : VerificationResult) → (verify_result env message p r t).0 ≡ ok v
      → Owned p.deployment_id v.evidence_refs
  verify_result-Owned message r t echoes same_id v h =
      let (same, k) =
        echoes.verified t p.target r p.projection v (verify_result-ok env p message r t v h) in
      verification-Owned v p.deployment_id (same ∙ same_id) k

  outcome_ok :
      (label message : String) (r : DeploymentResult) (t : Trace)
      → EchoesDeployment env
      → r.deployment_id ≡ p.deployment_id
      → result_owner_ok r ≡ true
      → Appended p label (record_outcome env label message p (ok r)) t
  outcome_ok label message r t echoes same_id owned =
      let t' = (verify_result env message p r t).1 in
      let a =
        after_verify-Appended label r (verify_result env message p r t).0 t'
          (result-Owned r p.deployment_id same_id owned)
          (verify_result-Owned message r t echoes same_id) in
      let step = record_outcome-after_verify env p label message r t in
      record {
        entry = a.entry;
        appended =
            ap (λ x. effects x.1) step
            ∙ a.appended
            ∙ ap (λ l. entry_appended a.entry ∷ l) ((verify_result-Quiet env p message r).at t);
        of_deployment = a.of_deployment;
        of_plan = a.of_plan;
        by_approval = a.by_approval;
        returned = λ e h. a.returned e (sym (ap (λ x. x.0) step) ∙ h);
      }

  record_outcome-Appended :
      (label message : String) (outcome : Result DeploymentResult) (t : Trace)
      → EchoesDeployment env
      → ((r : DeploymentResult)
          → outcome ≡ ok r
          → (r.deployment_id ≡ p.deployment_id) × (result_owner_ok r ≡ true))
      → Appended p label (record_outcome env label message p outcome) t
  unfolding record_outcome
  record_outcome-Appended label message (err failure) t echoes answers =
      record_failure-Appended label [] failure t refl
  record_outcome-Appended label message (ok r) t echoes answers =
      outcome_ok label message r t echoes (answers r refl).0 (answers r refl).1

  -- One call of an adapter and the record of its outcome.
  pub run-Appended :
      (label message : String) (event : Event) (answer : Trace → Result DeploymentResult)
      (t : Trace)
      → EchoesDeployment env
      → is_effect event ≡ true
      → ((r : DeploymentResult)
          → answer t ≡ ok r
          → (r.deployment_id ≡ p.deployment_id) × (result_owner_ok r ≡ true))
      → (entry : DeploymentLedgerEntry) × (effects
            ((attempt (call event answer) >>= record_outcome env label message p) t).1
          ≡ entry_appended entry ∷ event ∷ effects t)
        × IsEntryOf p entry
        × ((e : DeploymentLedgerEntry)
            → ((attempt (call event answer) >>= record_outcome env label message p) t).0 ≡ ok e
            → (e ≡ entry) × (e.result ≡ label))
  unfolding attempt call ◌>>=◌
  run-Appended label message event answer t echoes counted answers =
      let a = record_outcome-Appended label message (answer t) (event ∷ t) echoes answers in
      (
        a.entry,
        a.appended ∙ rw counted,
        record {
          of_deployment = a.of_deployment;
          of_plan = a.of_plan;
          by_approval = a.by_approval;
        },
        a.returned,
      )
