-- ===== src/Tests/Documents.antt =====
-- Runs of the theorems on the repository, the planner and the approvals.
use Prim.Native.String.{count}
use skill_governance_control.Base.{
  sym, subst, ◌∙◌, ok-injective, String, true, false, [], ◌∷◌, Option, none, some, ok, ◌≡◌, ◌≢◌,
  refl, ap, list_eq, nat_eq, string_eq, option_eq, arith, All, ◌↔◌, at_or_after,
}
use skill_governance_control.Base.Bytes.{Bytes}
use skill_governance_control.Base.Sorting.{sort_by}
use skill_governance_control.Base.Text.{is_plan_id, is_blank}
use skill_governance_control.Canonical.{canonical_json, canonical_digest}
use skill_governance_control.Models.{
  Plan, Approval, plan_ok, owner_type_eq, operation_eq, approved, dump_plan, dump_unsigned_plan,
  dump_approval,
}
use skill_governance_control.Repository.Snapshot.{
  Documents, items, load_document, reject_duplicate_ids, is_disallowed, reject_disallowed_asset,
  check_memberships, check_bindings, check_observations, check_snapshot, load_snapshot,
}
use skill_governance_control.Repository.Snapshot.Integrity.{
  IsLoaded, HasIntegrity, load_snapshot-HasIntegrity,
}
use skill_governance_control.Repository.Records.{
  read_file, put_file, remove_file, PublishIo, published, write_all, remove_temporary, publish_link,
  publish, temporary_name, RecordStore, readable, plan_json, plan_digest_of, approval_json,
  create_plan, create_approval, plan_accepted, approval_accepted, get_plan, get_approval, files,
  plan_file,
}
use skill_governance_control.Repository.Records.Publish.{
  write_all_total, publish_immutable, publish_atomic, Fills,
}
use skill_governance_control.Repository.Records.Roundtrip.{
  get_plan-checked, get_plan-create_plan, get_approval-create_approval, create_approval_terminal,
}
use skill_governance_control.Planner.{
  desired_assets, calculate_changes, reject_duplicate_observations, selector_targets,
  matching_profiles, approved_asset_ids,
}
use skill_governance_control.Planner.Laws.Selection.{IsDesired, desired_assets-IsDesired}
use skill_governance_control.Planner.Laws.Convergence.{InSync, calculate_changes-nil}
use skill_governance_control.Approvals.{
  Request, approval_of, decide, record_decision, IsRecorded, record_decision-IsRecorded,
  record_decision-denied,
}
use skill_governance_control.Tests.Data.{
  canon, asset, target, profile, membership, binding, observation, snapshot, plan, plan_id,
  approval, noon, evening,
}

abbrev documents : Documents
documents = record {
  asset_file = items (asset ∷ []);
  target_file = items (target ∷ []);
  profile_file = items (profile "target_ids" ∷ []);
  membership_file = items (membership ∷ []);
  binding_file = items (binding ∷ []);
  observation_file = items (observation ∷ []);
}

loaded : load_snapshot documents ≡ ok (snapshot "target_ids")
unfolding load_snapshot load_document check_snapshot reject_duplicate_ids reject_disallowed_asset
    is_disallowed check_memberships check_bindings check_observations string_eq is_blank sort_by
loaded = refl

load_snapshot-HasIntegrity_example :
    IsLoaded documents (snapshot "target_ids") × HasIntegrity (snapshot "target_ids")
load_snapshot-HasIntegrity_example =
    load_snapshot-HasIntegrity documents (snapshot "target_ids") loaded

desired : desired_assets (snapshot "target_ids") "target-t" ≡ ok (asset ∷ [])
unfolding desired_assets matching_profiles selector_targets approved_asset_ids is_disallowed
    string_eq is_blank sort_by
desired = refl

desired_assets-IsDesired_example : All (IsDesired (snapshot "target_ids") "target-t") (asset ∷ [])
desired_assets-IsDesired_example =
    desired_assets-IsDesired (snapshot "target_ids") "target-t" (asset ∷ []) desired

unique : reject_duplicate_observations [] (observation ∷ []) ≡ ok tt
unfolding reject_duplicate_observations
unique = refl

calculate_changes-nil_example :
    (calculate_changes (asset ∷ []) (observation ∷ []) ≡ ok [])
    ↔ All (InSync (observation ∷ [])) (asset ∷ [])
calculate_changes-nil_example = calculate_changes-nil (asset ∷ []) (observation ∷ []) unique

write_all_total_example : write_all 3 (λ i. some 2) 0 (1 ∷ 2 ∷ 3 ∷ []) ≡ (true, 1 ∷ 2 ∷ 3 ∷ [])
write_all_total_example =
    write_all_total 3 (λ i. some 2) 0 (1 ∷ 2 ∷ 3 ∷ []) (λ i. (1, refl)) (omega arith)

abbrev io : PublishIo
io = record {
  directory = true;
  open_temporary = true;
  write = λ i. some 1;
  fsync = true;
  close = true;
  link = true;
  unlink = true;
  fsync_directory = true;
}

abbrev short : String
short = "a"

abbrev long : String
long = "bc"

differ : short ≢ long
differ e = omega (arith, ap count e, one, two)
  where
    one : count "a" ≡ 1
    one = refl

    two : count "bc" ≡ 2
    two = refl

stored : read_file "a" (("a", 5 ∷ []) ∷ []) ≡ some (5 ∷ [])
unfolding read_file string_eq
stored = refl

publish_immutable_example :
    (read_file "a" (publish io "a" "bc" (7 ∷ []) (("a", 5 ∷ []) ∷ [])).1 ≡ some (5 ∷ []))
    × ((publish io "a" "bc" (7 ∷ []) (("a", 5 ∷ []) ∷ [])).0 ≢ published)
publish_immutable_example =
    publish_immutable io "a" "bc" (7 ∷ []) (("a", 5 ∷ []) ∷ []) differ (5 ∷ []) stored

absent : read_file "a" [] ≡ none
unfolding read_file
absent = refl

publish_atomic_example : Fills "a" (7 ∷ []) (publish io "a" "bc" (7 ∷ []) [])
publish_atomic_example = publish_atomic io "a" "bc" (7 ∷ []) [] differ absent

abbrev decode : Bytes → Option Plan
decode b = some plan

abbrev decode_approval : Bytes → Option Approval
decode_approval b = some approval

abbrev empty : RecordStore
empty = record { plans = none; approvals = none }

abbrev with_plan : RecordStore
with_plan = record {
  plans = some (("plan-00000000000000000000000000000000.json", 120 ∷ []) ∷ []);
  approvals = none;
}

abbrev with_approval : RecordStore
with_approval = record {
  plans = none;
  approvals = some (("approval-plan-00000000000000000000000000000000.json", 120 ∷ []) ∷ []);
}

read_plan : get_plan canon decode readable plan_id with_plan ≡ ok plan
unfolding get_plan plan_accepted plan_json plan_digest_of canonical_json canonical_digest dump_plan
    dump_unsigned_plan read_file string_eq list_eq nat_eq plan_ok owner_type_eq operation_eq
    is_plan_id
read_plan = refl

get_plan-checked_example :
    (plan.id ≡ plan_id)
    × (plan.plan_digest ≡ plan_digest_of canon plan)
    × (plan_ok plan ≡ true)
    × (is_plan_id plan_id ≡ true)
    × (read_file (plan_file plan_id) (files with_plan.plans) ≡ some (plan_json canon plan))
get_plan-checked_example = get_plan-checked canon decode readable plan_id with_plan plan read_plan

valid : plan_ok plan ≡ true
unfolding plan_ok owner_type_eq operation_eq
valid = refl

digest : plan.plan_digest ≡ plan_digest_of canon plan
unfolding plan_digest_of canonical_json canonical_digest dump_unsigned_plan string_eq list_eq nat_eq
digest = refl

created : (create_plan canon io "u" plan empty).0 ≡ ok tt
unfolding create_plan publish publish_link write_all remove_temporary put_file read_file remove_file
    temporary_name plan_json canonical_json dump_plan string_eq is_plan_id
created = refl

get_plan-create_plan_example :
    get_plan canon decode readable plan_id (create_plan canon io "u" plan empty).1 ≡ ok plan
get_plan-create_plan_example =
    get_plan-create_plan canon decode io "u" plan empty valid digest refl created

decided : (create_approval canon io "u" approval empty).0 ≡ ok tt
unfolding create_approval publish publish_link write_all remove_temporary put_file read_file
    remove_file temporary_name approval_json canonical_json dump_approval string_eq is_plan_id
decided = refl

get_approval-create_approval_example :
    (get_approval canon decode_approval readable plan_id
        (create_approval canon io "u" approval empty).1
      ≡ ok (some approval))
    × (get_approval canon decode_approval readable plan_id empty ≡ ok none)
get_approval-create_approval_example =
    get_approval-create_approval canon decode_approval io "u" approval empty refl decided

read_approval :
    get_approval canon decode_approval readable plan_id with_approval ≡ ok (some approval)
unfolding get_approval approval_accepted approval_json canonical_json dump_approval read_file
    string_eq list_eq nat_eq is_plan_id
read_approval = refl

create_approval_terminal_example :
    ((create_approval canon io "u" approval with_approval).0 ≢ ok tt)
    × (get_approval canon decode_approval readable plan_id
          (create_approval canon io "u" approval with_approval).1
        ≡ ok (some approval))
create_approval_terminal_example =
    create_approval_terminal canon decode_approval io "u" approval approval with_approval
      read_approval

abbrev request : Request
request = record {
  plan_id = plan_id;
  approver = "ann";
  decision = approved;
  reason = "reviewed";
  now = noon;
}

-- The approval of a plan, decoded from the plan's own request.
abbrev late_request : Request
late_request = record request { now = evening }

recorded :
    (record_decision canon (λ s. false) decode readable io "u" request with_plan).0
    ≡ ok (approval_of request plan)
unfolding record_decision decide approval_of create_approval publish publish_link write_all
    remove_temporary put_file read_file remove_file temporary_name approval_json canonical_json
    dump_approval string_eq list_eq nat_eq is_plan_id is_blank get_plan plan_accepted plan_json
    plan_digest_of canonical_digest dump_plan dump_unsigned_plan plan_ok owner_type_eq operation_eq
recorded = refl

denied :
    (p : Plan)
    → get_plan canon decode readable plan_id with_plan ≡ ok p
    → at_or_after evening p.expires_at ≡ ok true
denied p h = ground (arith, read_plan)

record_decision-denied_example :
    (record_decision canon (λ s. false) decode readable io "u" late_request with_plan).1 ≡ with_plan
record_decision-denied_example =
    record_decision-denied canon (λ s. false) decode readable io "u" late_request with_plan denied

decodes :
    (p : Plan)
    → get_plan canon decode readable plan_id with_plan ≡ ok p
    → decode_approval (approval_json canon (approval_of request p)) ≡ some (approval_of request p)
unfolding approval_of
decodes p h =
    subst (λ q. some approval ≡ some (approval_of request q)) (ok-injective (sym read_plan ∙ h))
      same
  where
    same : some approval ≡ some (approval_of request plan)
    same = refl

record_decision-IsRecorded_example :
    (p : Plan) × (get_plan canon decode readable plan_id with_plan ≡ ok p)
    × IsRecorded canon
        (λ s. false)
        decode
        request
        with_plan
        (record_decision canon (λ s. false) decode readable io "u" request with_plan).1
        decode_approval
        (approval_of request plan)
        p
record_decision-IsRecorded_example =
    record_decision-IsRecorded canon (λ s. false) decode readable io "u" request with_plan
      decode_approval (approval_of request plan) decodes recorded
