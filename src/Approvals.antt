-- ===== src/Approvals.antt =====
-- approvals.py: `ApprovalService.record`.
use skill_governance_control.Base.{
  String, ◌<>◌, Bool, true, false, ◌||◌, Option, none, some, DateTime, is_naive, at_or_after,
  Result, ok, err, policy_denied, stale_plan, if◌then◌else◌, ◌≡◌, arith, Result-cases, inl, inr,
  refl,
}
use skill_governance_control.Base.Bytes.{Bytes}
use skill_governance_control.Base.Text.{is_blank}
use skill_governance_control.Canonical.{Canon}
use skill_governance_control.Models.{Plan, Approval, ApprovalDecision}
use skill_governance_control.Repository.Records.{
  PublishIo, RecordStore, ReadIo, readable, get_plan, get_approval, create_approval, plan_digest_of,
  approval_json,
}
use skill_governance_control.Repository.Records.Roundtrip.{
  get_plan-checked, get_approval-create_approval,
}

-- What one call of `record` is given.
pub record Request : Type 0 where
  pub plan_id : String
  pub approver : String
  pub decision : ApprovalDecision
  pub reason : String
  pub now : DateTime

-- `Approval(id=f"approval-{plan.id}", ...)`
unfoldable pub approval_of : Request → Plan → Approval
approval_of r p = record {
  id = "approval-" <> p.id;
  plan_id = p.id;
  plan_digest = p.plan_digest;
  decision = r.decision;
  approver = r.approver;
  reason = r.reason;
  decided_at = r.now;
}

module _ (c : Canon) (contains_secret_like : String → Bool) (decode : Bytes → Option Plan) where
  -- What follows `get_plan`.
  unfoldable pub decide :
      PublishIo → String → Request → RecordStore → Result Plan → Result Approval × RecordStore
  decide io uuid r s (err failure) = (err failure, s)
  decide io uuid r s (ok p) = elim (at_or_after r.now p.expires_at) [
    | err failure ↦ (err failure, s)
    | ok true ↦ (err (stale_plan "approval: plan expired"), s)
    | ok false ↦
        let (created, s') = create_approval c io uuid (approval_of r p) s in
        elim created [ err failure ↦ (err failure, s') | ok _ ↦ (ok (approval_of r p), s') ]
  ]

  unfoldable pub record_decision :
      ReadIo → PublishIo → String → Request → RecordStore → Result Approval × RecordStore
  record_decision read_io io uuid r s =
      if is_blank r.approver || is_blank r.reason
      then (err (policy_denied "approval: identity and reason required"), s)
      else if contains_secret_like r.reason
      then (err (policy_denied "approval: secret-like reason is forbidden"), s)
      else if is_naive r.now
      then (err (policy_denied "approval: invalid decision time"), s)
      else decide io uuid r s (get_plan c decode read_io r.plan_id s)

  -- What is true of a decision that was recorded for a plan.
  pub record IsRecorded (r : Request) (s s' : RecordStore)
      (decode_approval : Bytes → Option Approval) (a : Approval) (p : Plan) : Type 0 where
    pub own_id : a.id ≡ "approval-" <> r.plan_id
    pub same_plan : a.plan_id ≡ r.plan_id
    pub same_digest : a.plan_digest ≡ plan_digest_of c p
    pub same_decision : a.decision ≡ r.decision
    pub same_approver : a.approver ≡ r.approver
    pub same_reason : a.reason ≡ r.reason
    pub decided_now : a.decided_at ≡ r.now
    pub in_time : at_or_after a.decided_at p.expires_at ≡ ok false
    pub named : is_blank a.approver ≡ false
    pub explained : is_blank a.reason ≡ false
    pub no_secret : contains_secret_like a.reason ≡ false
    pub first : get_approval c decode_approval readable r.plan_id s ≡ ok none
    pub reads_back : get_approval c decode_approval readable r.plan_id s' ≡ ok (some a)

  decide-ok :
      (io : PublishIo) (uuid : String) (r : Request) (s : RecordStore) (found : Result Plan)
      (a : Approval)
      → (decide io uuid r s found).0 ≡ ok a
      → (p : Plan) × (found ≡ ok p)
        × (at_or_after r.now p.expires_at ≡ ok false)
        × (a ≡ approval_of r p)
        × ((create_approval c io uuid (approval_of r p) s).0 ≡ ok tt)
        × ((decide io uuid r s found).1 ≡ (create_approval c io uuid (approval_of r p) s).1)
  unfolding decide
  decide-ok io uuid r s (err failure) a h = ground arith
  decide-ok io uuid r s (ok p) a h =
      (p, refl, ground arith, ground arith, ground arith, ground arith)

  -- If the JSON of the approval decodes to it, a decision that `record` returns is for the plan that
  -- is stored under the given id, after which it is named, carries the digest of that plan's content
  -- and the decision, approver and reason that were asked for, of which the latter two are not blank
  -- and the reason shows no secret, and the time of the request, before the plan expired; the plan had
  -- no decision before, and its stored decision is now this one.
  pub record_decision-IsRecorded :
      (read_io : ReadIo) (io : PublishIo) (uuid : String) (r : Request) (s : RecordStore)
      (decode_approval : Bytes → Option Approval) (a : Approval)
      → ((p : Plan)
          → get_plan c decode read_io r.plan_id s ≡ ok p
          → decode_approval (approval_json c (approval_of r p)) ≡ some (approval_of r p))
      → (record_decision read_io io uuid r s).0 ≡ ok a
      → (p : Plan) × (get_plan c decode read_io r.plan_id s ≡ ok p)
        × IsRecorded r s (record_decision read_io io uuid r s).1 decode_approval a p
  unfolding record_decision approval_of
  record_decision-IsRecorded read_io io uuid r s decode_approval a decodes h =
      let (p, stored, in_time, e, created, after) =
        decide-ok io uuid r s (get_plan c decode read_io r.plan_id s) a (ground arith) in
      let (same_id, digest, _, _, _) = get_plan-checked c decode read_io r.plan_id s p stored in
      let (back, free) =
        get_approval-create_approval c decode_approval io uuid (approval_of r p) s
          (decodes p stored) created in
      (
        p,
        stored,
        record {
          own_id = ground arith;
          same_plan = ground arith;
          same_digest = ground arith;
          same_decision = ground arith;
          same_approver = ground arith;
          same_reason = ground arith;
          decided_now = ground arith;
          in_time = ground arith;
          named = ground arith;
          explained = ground arith;
          no_secret = ground arith;
          first = ground arith;
          reads_back = ground arith;
        },
      )

  -- Whatever `record` answers, it writes nothing unless the plan is stored and has not expired.
  pub record_decision-denied :
      (read_io : ReadIo) (io : PublishIo) (uuid : String) (r : Request) (s : RecordStore)
      → ((p : Plan)
          → get_plan c decode read_io r.plan_id s ≡ ok p
          → at_or_after r.now p.expires_at ≡ ok true)
      → (record_decision read_io io uuid r s).1 ≡ s
  unfolding record_decision decide
  record_decision-denied read_io io uuid r s late =
      elim (Result-cases (get_plan c decode read_io r.plan_id s)) [
        | inl (p, e) ↦ ground (arith, late p e)
        | inr (failure, e) ↦ ground arith
      ]
