-- ===== src/Service/Laws/Entries.antt =====
-- The entry that `_entry` of service.py makes, and when its evidence belongs to the deployment.
use skill_governance_control.Base.{
  String, true, false, not, List, [], ◌∷◌, ◌++◌, any, ok, err, ◌≡◌, refl, ap, ap₂, validation_error,
  subst, ◌∙◌, arith, string_eq, if◌then◌else◌, DateTime,
}
use skill_governance_control.Models.{
  Asset, Plan, Target, ProjectionDescriptor, EvidenceRef, deployment_owner, owned_by, owner_type_eq,
  DeploymentResult, VerificationResult, DeploymentLedgerEntry, entry_owner_ok, result_owner_ok,
  verification_owner_ok,
}
use skill_governance_control.Service.Env.{Trace, ServiceEnv}
use skill_governance_control.Service.Checks.{make_entry}

-- All references name the deployment as their owner.
abbrev pub Owned : String → List EvidenceRef → Type 0
Owned id refs = any (λ ref. not (owned_by deployment_owner id ref)) refs ≡ false

-- What an adapter answers is an instance of its class, and names the deployment that it was given.
pub record EchoesDeployment (env : ServiceEnv) : Type 0 where
  pub applied :
      (t : Trace) (target : Target) (plan : Plan) (id : String) (projection : ProjectionDescriptor)
      (r : DeploymentResult)
      → env.adapter_apply t target plan id projection ≡ ok r
      → (r.deployment_id ≡ id) × (result_owner_ok r ≡ true)
  pub rolled_back :
      (t : Trace) (target : Target) (plan : Plan) (id : String) (projection : ProjectionDescriptor)
      (r : DeploymentResult)
      → env.adapter_rollback t target plan id projection ≡ ok r
      → (r.deployment_id ≡ id) × (result_owner_ok r ≡ true)
  pub verified :
      (t : Trace) (target : Target) (r : DeploymentResult) (projection : ProjectionDescriptor)
      (v : VerificationResult)
      → env.verify t target r projection ≡ ok v
      → (v.deployment_id ≡ r.deployment_id) × (verification_owner_ok v ≡ true)

pub result-Owned :
    (r : DeploymentResult) (id : String)
    → r.deployment_id ≡ id
    → result_owner_ok r ≡ true
    → Owned id r.evidence_refs
unfolding result_owner_ok
result-Owned r id e h = subst (λ i. Owned i r.evidence_refs) e (ground arith)

pub verification-Owned :
    (v : VerificationResult) (id : String)
    → v.deployment_id ≡ id
    → verification_owner_ok v ≡ true
    → Owned id v.evidence_refs
unfolding verification_owner_ok
verification-Owned v id e h = subst (λ i. Owned i v.evidence_refs) e (ground arith)

pub Owned-append :
    (id : String) (xs ys : List EvidenceRef) → Owned id xs → Owned id ys → Owned id (xs ++ ys)
Owned-append id [] ys hx hy = hy
Owned-append id (x ∷ xs) ys hx hy = ground (arith, Owned-append id xs ys)

make_entry-checks :
    (id : String) (plan : Plan) (approval : String) (started : DateTime) (label : String)
    (refs : List EvidenceRef) (desired : List Asset) (finished : DateTime)
    → (e : DeploymentLedgerEntry) × (make_entry id plan approval started label refs desired finished
        ≡ (if entry_owner_ok e then ok e else err validation_error))
      × (e.deployment_id ≡ id)
      × (e.plan_id ≡ plan.id)
      × (e.approval_ref ≡ approval)
      × (e.result ≡ label)
      × (e.evidence_refs ≡ refs)
unfolding make_entry
make_entry-checks id plan approval started label refs desired finished =
    (_, refl, refl, refl, refl, refl, refl)

entry-Owned :
    (e : DeploymentLedgerEntry) (id : String) (refs : List EvidenceRef)
    → e.deployment_id ≡ id
    → e.evidence_refs ≡ refs
    → Owned id refs
    → entry_owner_ok e ≡ true
unfolding entry_owner_ok
entry-Owned e id refs same_id same_refs h =
    let k =
      ap₂ (λ i r. not (any (λ ref. not (owned_by deployment_owner i ref)) r)) same_id same_refs in
    k ∙ ap not h

pub make_entry-ok :
    (id : String) (plan : Plan) (approval : String) (started : DateTime) (label : String)
    (refs : List EvidenceRef) (desired : List Asset) (finished : DateTime)
    → Owned id refs
    → (e : DeploymentLedgerEntry) × (make_entry id plan approval started label refs desired finished
        ≡ ok e)
      × (e.deployment_id ≡ id)
      × (e.plan_id ≡ plan.id)
      × (e.approval_ref ≡ approval)
      × (e.result ≡ label)
make_entry-ok id plan approval started label refs desired finished h =
    let (e, made, same_id, same_plan, same_approval, same_label, same_refs) =
      make_entry-checks id plan approval started label refs desired finished in
    let owned = entry-Owned e id refs same_id same_refs h in
    (
      e,
      made ∙ ap (λ b. if b then ok e else err validation_error) owned,
      same_id,
      same_plan,
      same_approval,
      same_label,
    )
