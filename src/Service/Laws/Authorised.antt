-- ===== src/Service/Laws/Authorised.antt =====
-- What has been established when the adapter is called.
use skill_governance_control.Base.{
  String, false, ◌||◌, Option, none, some, List, ◌∷◌, DateTime, at_or_after, ok, raise_if, ◌≡◌,
  refl, sym, ap, subst, ◌∙◌, arith, ◌==◌, ◌!=◌, string_eq, Option-cases, inl, inr, find_first,
  stale_plan, ok-injective, find_first_sound, eq_of_==, raise_if-ok, >>=-eq-ok as bind-eq-ok,
}
use skill_governance_control.Models.{
  Asset, Plan, Approval, Target, approved, approval_decision_eq, supported, capability_state_eq,
  CapabilityManifest, capability_manifest_eq,
}
use skill_governance_control.Repository.Snapshot.{GovernanceSnapshot}
use skill_governance_control.Planner.{desired_assets}
use skill_governance_control.Service.Env.{Trace, ServiceEnv, clock_read, state_captured, lift, call}
use skill_governance_control.Service.Checks.{
  require_capability, target_of, require_approved, require_current, require_unexpired,
}
use skill_governance_control.Service.Deploy.{
  Prepared, read_plan, read_snapshot, read_approval, read_clock, make_projection, find_adapter,
  discover_target, name_deployment, capture_state, validate_fresh_state, prepare,
}
use skill_governance_control.Service.Laws.Effects.{Returns, Returns-bind, Returns-pure, >>=-eq-ok}

-- The plan, the target and the approval, as the collaborators gave them at the times of the calls,
-- and what they allow. The last two calls before `end` are the capture of the state and the second
-- look at the clock.
pub record Authorised (env : ServiceEnv) (plan_id : String) (p : Prepared) (end : Trace)
    : Type 0 where
  pub plan_asked : Trace
  pub plan_stored : env.get_plan plan_asked plan_id ≡ ok p.plan
  pub own_target : p.target.id ≡ p.plan.target_id
  pub approval_asked : Trace
  pub approval_stored : env.get_approval approval_asked p.plan.id ≡ ok (some p.approval)
  pub is_approved : p.approval.decision ≡ approved
  pub same_digest : p.approval.plan_digest ≡ p.plan.plan_digest
  pub started_asked : Trace
  pub looked_first : p.started_at ≡ env.now started_asked
  pub started_in_time : at_or_after p.started_at p.plan.expires_at ≡ ok false
  pub captured : Trace
  pub looked_last : end ≡ clock_read ∷ state_captured p.deployment_id p.plan ∷ captured
  pub called_in_time :
      at_or_after (env.now (state_captured p.deployment_id p.plan ∷ captured)) p.plan.expires_at
      ≡ ok false
  pub adapter_asked : Trace
  pub same_manifest : env.adapter_for_target adapter_asked p.target ≡ ok p.target.capabilities
  pub can_discover : p.target.capabilities.discover ≡ supported
  pub can_apply : p.target.capabilities.apply ≡ supported
  pub can_verify : p.target.capabilities.verify ≡ supported
  pub planned : (assets : List Asset) × (desired_assets p.snapshot p.target.id ≡ ok assets)

require_capability-ok : (state : _) → require_capability state ≡ ok tt → state ≡ supported
unfolding require_capability
require_capability-ok state h = ground arith

require_approved-ok :
    (message : String) (o : Option Approval) (a : Approval)
    → require_approved message o ≡ ok a
    → (o ≡ some a) × (a.decision ≡ approved)
unfolding require_approved
require_approved-ok message none a h = ground arith
require_approved-ok message (some b) a h = ground arith

require_current-ok :
    (message : String) (now : DateTime) (plan : Plan) (a : Approval)
    → require_current message now plan a ≡ ok tt
    → (at_or_after now plan.expires_at ≡ ok false) × (a.plan_digest ≡ plan.plan_digest)
unfolding require_current
require_current-ok message now plan a h =
    let (late, e, k) = bind-eq-ok (at_or_after now plan.expires_at) _ h in
    let both = raise_if-ok (late || a.plan_digest != plan.plan_digest) _ k in
    (e ∙ ground arith, ground arith)

require_unexpired-ok :
    (message : String) (now : DateTime) (plan : Plan)
    → require_unexpired message now plan ≡ ok tt
    → at_or_after now plan.expires_at ≡ ok false
unfolding require_unexpired
require_unexpired-ok message now plan h =
    let (late, e, k) = bind-eq-ok (at_or_after now plan.expires_at) _ h in
    e ∙ ap ok (raise_if-ok late _ k)

target_of-ok :
    (snapshot : GovernanceSnapshot) (id : String) (target : Target)
    → target_of snapshot id ≡ ok target
    → target.id ≡ id
unfolding target_of
target_of-ok snapshot id target h =
    elim (Option-cases (find_first (λ t. t.id == id) snapshot.targets)) [
      | inl e ↦ ground arith
      | inr (found, e) ↦ ground (arith, find_first_sound (λ t. t.id == id) snapshot.targets found e)
    ]

same_manifest_lem :
    (m n : CapabilityManifest)
    → raise_if (m != n) (stale_plan "deployment: stale plan") ≡ ok tt
    → m ≡ n
same_manifest_lem m n h = let e = raise_if-ok (m != n) _ h in eq_of_== m n (ground arith)

validate_fresh_state-desired :
    (env : ServiceEnv) (plan : Plan) (snapshot : GovernanceSnapshot) (target : Target) (t : Trace)
    → (validate_fresh_state env plan snapshot target t).0 ≡ ok tt
    → (assets : List Asset) × (desired_assets snapshot target.id ≡ ok assets)
unfolding validate_fresh_state lift
validate_fresh_state-desired env plan snapshot target t h =
    let (assets, e, _) = >>=-eq-ok (lift (desired_assets snapshot target.id)) _ t h in (assets, e)

prepare-Returns :
    (env : ServiceEnv) (plan_id : String) (t : Trace)
    → Returns (Authorised env plan_id) (prepare env plan_id) t
unfolding prepare read_plan read_snapshot read_approval read_clock make_projection find_adapter
    discover_target name_deployment capture_state call lift
prepare-Returns env plan_id t = Returns-bind _ _ _ λ plan e₀. Returns-bind _ _ _ λ snapshot e₁.
    Returns-bind _ _ _ λ target e₂. Returns-bind _ _ _ λ found e₃. Returns-bind _ _ _ λ approval e₄.
      Returns-bind _ _ _ λ started e₅. Returns-bind _ _ _ λ _ e₆.
        Returns-bind _ _ _ λ projection e₇. Returns-bind _ _ _ λ manifest e₈.
          Returns-bind _ _ _ λ _ e₉. Returns-bind _ _ _ λ _ e₁₀. Returns-bind _ _ _ λ _ e₁₁.
            Returns-bind _ _ _ λ _ e₁₂. Returns-bind _ _ _ λ _ e₁₃. Returns-bind _ _ _ λ _ e₁₄.
              Returns-bind _ _ _ λ deployment_id e₁₅. Returns-bind _ _ _ λ _ e₁₆.
                Returns-bind _ _ _ λ again e₁₇. Returns-bind _ _ _ λ _ e₁₈.
                  Returns-pure _ _ (record {
                    plan_asked = t;
                    plan_stored = e₀;
                    own_target = target_of-ok snapshot plan.target_id target e₂;
                    approval_asked = _;
                    approval_stored = e₃ ∙ ap ok (require_approved-ok _ found approval e₄).0;
                    is_approved = (require_approved-ok _ found approval e₄).1;
                    same_digest = (require_current-ok _ started plan approval e₆).1;
                    started_asked = _;
                    looked_first = sym (ok-injective e₅);
                    started_in_time = (require_current-ok _ started plan approval e₆).0;
                    captured = _;
                    looked_last = refl;
                    called_in_time =
                        subst (λ now. at_or_after now plan.expires_at ≡ ok false)
                          (sym (ok-injective e₁₇)) (require_unexpired-ok _ again plan e₁₈);
                    adapter_asked = _;
                    same_manifest = e₈ ∙ ap ok (same_manifest_lem manifest target.capabilities e₉);
                    can_discover = require_capability-ok _ e₁₀;
                    can_apply = require_capability-ok _ e₁₃;
                    can_verify = require_capability-ok _ e₁₄;
                    planned = validate_fresh_state-desired env plan snapshot target _ e₁₂;
                  })

pub prepare-Authorised :
    (env : ServiceEnv) (plan_id : String) (t : Trace) (p : Prepared)
    → (prepare env plan_id t).0 ≡ ok p
    → Authorised env plan_id p (prepare env plan_id t).1
prepare-Authorised env plan_id t p h = (prepare-Returns env plan_id t).at p h
