-- ===== src/Repository/Records/Roundtrip.antt =====
-- What is created is read back, what is read was checked, and a decision is taken once.
use Prim.Native.String.{count}
use text.Mathlib.TextLemmas.{length-append}
use skill_governance_control.Base.{
  String, ◌<>◌, true, Option, none, some, ok, ◌≡◌, ◌≢◌, refl, ap, arith, string_eq, list_eq, nat_eq,
  Option-cases, inl, inr,
}
use skill_governance_control.Base.Bytes.{Bytes}
use skill_governance_control.Base.Text.{is_plan_id}
use skill_governance_control.Canonical.{Canon}
use skill_governance_control.Models.{Plan, Approval, plan_ok}
use skill_governance_control.Repository.Records.{
  Directory, read_file, PublishIo, published, publish, temporary_name, RecordStore, files, ReadIo,
  readable, plan_file, approval_file, plan_json, plan_digest_of, approval_json, create_plan,
  create_approval, plan_accepted, approval_accepted, get_plan, get_approval,
}
use skill_governance_control.Repository.Records.Publish.{publish_immutable, publish_atomic}

temporary_name-ne : (final uuid : String) → final ≢ temporary_name final uuid
unfolding temporary_name
temporary_name-ne final uuid e = omega (
  arith,
  ap count e,
  length-append "." (final <> ("." <> (uuid <> ".tmp"))),
  length-append final ("." <> (uuid <> ".tmp")),
  one,
)
  where
    one : count "." ≡ 1
    one = refl

publish-published :
    (io : PublishIo) (final uuid : String) (payload : Bytes) (d : Directory)
    → (publish io final (temporary_name final uuid) payload d).0 ≡ published
    → (read_file final d ≡ none)
      × (read_file final (publish io final (temporary_name final uuid) payload d).1 ≡ some payload)
publish-published io final uuid payload d h = elim (Option-cases (read_file final d)) [
  | inl free ↦ (
    free,
    ground (
      arith,
      publish_atomic io final (temporary_name final uuid) payload d (temporary_name-ne final uuid)
          free,
    ),
  )
  | inr (old, e) ↦ absurd (
      (publish_immutable io final (temporary_name final uuid) payload d
          (temporary_name-ne final uuid) old e).1
        h)
]

module _ (c : Canon) where
  -- A plan that `get_plan` returns has the id that was asked for, the digest of its own content,
  -- and passes the validator of its class.
  pub get_plan-checked :
      (decode : Bytes → Option Plan) (io : ReadIo) (plan_id : String) (s : RecordStore) (p : Plan)
      → get_plan c decode io plan_id s ≡ ok p
      → (p.id ≡ plan_id)
        × (p.plan_digest ≡ plan_digest_of c p)
        × (plan_ok p ≡ true)
        × (is_plan_id plan_id ≡ true)
        × (read_file (plan_file plan_id) (files s.plans) ≡ some (plan_json c p))
  unfolding get_plan plan_accepted
  get_plan-checked decode io plan_id s p h = ground arith

  -- A plan that `create_plan` stores is the plan that `get_plan` returns for its id.
  pub get_plan-create_plan :
      (decode : Bytes → Option Plan) (io : PublishIo) (uuid : String) (p : Plan) (s : RecordStore)
      → plan_ok p ≡ true
      → p.plan_digest ≡ plan_digest_of c p
      → decode (plan_json c p) ≡ some p
      → (create_plan c io uuid p s).0 ≡ ok tt
      → get_plan c decode readable p.id (create_plan c io uuid p s).1 ≡ ok p
  unfolding get_plan create_plan plan_accepted
  get_plan-create_plan decode io uuid p s valid digest decodes h =
      ground (arith, publish-published io (plan_file p.id) uuid (plan_json c p) (files s.plans))

  -- An approval that `create_approval` stores is the one that `get_approval` returns for its plan,
  -- and the plan had none before.
  pub get_approval-create_approval :
      (decode : Bytes → Option Approval) (io : PublishIo) (uuid : String) (a : Approval)
      (s : RecordStore)
      → decode (approval_json c a) ≡ some a
      → (create_approval c io uuid a s).0 ≡ ok tt
      → (get_approval c decode readable a.plan_id (create_approval c io uuid a s).1 ≡ ok (some a))
        × (get_approval c decode readable a.plan_id s ≡ ok none)
  unfolding get_approval create_approval approval_accepted
  get_approval-create_approval decode io uuid a s decodes h = ground (
    arith,
    publish-published io (approval_file a.plan_id) uuid (approval_json c a) (files s.approvals),
  )

  -- A decision is terminal: once an approval is stored for a plan, no later `create_approval` for
  -- that plan returns, and the stored approval reads as before.
  pub create_approval_terminal :
      (decode : Bytes → Option Approval) (io : PublishIo) (uuid : String) (a b : Approval)
      (s : RecordStore)
      → get_approval c decode readable b.plan_id s ≡ ok (some a)
      → ((create_approval c io uuid b s).0 ≢ ok tt)
        × (get_approval c decode readable b.plan_id (create_approval c io uuid b s).1 ≡ ok (some a))
  unfolding get_approval create_approval
  create_approval_terminal decode io uuid a b s h =
      elim (Option-cases (read_file (approval_file b.plan_id) (files s.approvals))) [
        | inl absent ↦ ground arith
        | inr (old, e) ↦ ground (
          arith,
          publish_immutable io (approval_file b.plan_id)
              (temporary_name (approval_file b.plan_id) uuid) (approval_json c b)
              (files s.approvals) (temporary_name-ne (approval_file b.plan_id) uuid) old e,
        )
      ]
