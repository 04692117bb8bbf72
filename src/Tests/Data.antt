-- ===== src/Tests/Data.antt =====
-- Documents that the tests share.
use skill_governance_control.Base.{
  String, Option, none, some, [], ◌∷◌, DateTime, aware, ◌==◌, list_eq, nat_eq, string_eq,
  if◌then◌else◌,
}
use skill_governance_control.Base.Bytes.{Bytes}
use skill_governance_control.Canonical.{Canon}
use skill_governance_control.Models.{
  Value, text, array, object, field, field_end, item, item_end, get_field, supported, deploy, low,
  approved, filesystem, Asset, CapabilityManifest, Target, DeploymentProfile, ProfileMembership,
  ConsumerBinding, ObservedState, Plan, Approval, ProjectionDescriptor, DeploymentLedgerEntry,
}
use skill_governance_control.Repository.Snapshot.{GovernanceSnapshot}

-- Values that differ in what they say of an entry before are written differently.
abbrev written : Value → Bytes
written (object f) = elim (get_field "previous_entry_hash" f) [
  | some (text _) ↦ 121 ∷ []
  | _ ↦ 120 ∷ []
]
written _ = 120 ∷ []

abbrev pub canon : Canon
canon = record {
  dumps = λ v. written v;
  sha256_hex = λ b. if b == 120 ∷ [] then "0" else "1";
  iso = λ d. "time";
}

abbrev pub noon : DateTime
noon = aware 1000

abbrev pub evening : DateTime
evening = aware 2000

abbrev pub asset : Asset
asset = record {
  id = "skill-a";
  name = "A";
  asset_type = "skill";
  owner = "team";
  visibility = "private";
  lifecycle = "active";
  authority_class = "canonical";
  source_uri = none;
  source_path = some "skills/a";
  source_revision = "r1";
  source_checksum = "c1";
  license_state = "known";
  revision_policy = "pinned";
}

abbrev manifest : CapabilityManifest
manifest = record {
  discover = supported;
  plan = supported;
  apply = supported;
  verify = supported;
  rollback = supported;
  bindings = supported;
  delete = supported;
}

abbrev pub target : Target
target = record {
  id = "target-t";
  adapter_id = "skillshare";
  protocol = filesystem;
  credential_ref = none;
  config = field_end;
  capabilities = manifest;
}

abbrev pub profile : String → DeploymentProfile
profile key = record {
  id = "profile-p";
  name = "P";
  selector = field key (array (item (text "target-t") item_end)) field_end;
  policy_id = "policy";
}

abbrev pub membership : ProfileMembership
membership = record {
  id = "member-m";
  asset_id = "skill-a";
  profile_id = "profile-p";
  approved_at = noon;
  approval_ref = "ref";
}

abbrev pub binding : ConsumerBinding
binding = record {
  id = "binding-b";
  asset_id = "skill-a";
  target_id = "target-t";
  consumer_type = "agent";
  consumer_id = "agent-1";
  approved_at = noon;
  approval_ref = "ref";
}

abbrev pub observation : ObservedState
observation = record {
  id = "seen-o";
  target_id = "target-t";
  asset_id = "skill-a";
  revision = "r1";
  checksum = "c1";
  discovered_at = noon;
  evidence_refs = [];
}

-- A snapshot whose profile has a selector with this key.
abbrev pub snapshot : String → GovernanceSnapshot
snapshot key = record {
  assets = asset ∷ [];
  targets = target ∷ [];
  profiles = profile key ∷ [];
  memberships = membership ∷ [];
  bindings = binding ∷ [];
  observations = observation ∷ [];
}

abbrev pub plan_id : String
plan_id = "plan-00000000000000000000000000000000"

abbrev pub plan : Plan
plan = record {
  id = plan_id;
  operation = deploy;
  target_id = "target-t";
  parent_deployment_id = none;
  changes = [];
  risk = low;
  policy_decision = "allow";
  policy_reasons = [];
  created_at = noon;
  expires_at = evening;
  source_state_digest = "sha256:0";
  desired_state_digest = "sha256:0";
  observed_state_digest = "sha256:0";
  adapter_manifest_digest = "sha256:0";
  adapter_evidence_digest = "sha256:0";
  runtime_target_paths = [];
  runtime_target_paths_digest = "sha256:0";
  evidence_refs = [];
  plan_digest = "sha256:0";
}

abbrev pub approval : Approval
approval = record {
  id = "approval-plan-00000000000000000000000000000000";
  plan_id = plan_id;
  plan_digest = "sha256:0";
  decision = approved;
  approver = "ann";
  reason = "reviewed";
  decided_at = noon;
}

abbrev pub projection : ProjectionDescriptor
projection = record {
  plan_id = plan_id;
  root = "/tmp/p";
  manifest_digest = "m";
  config_digest = "c";
  runtime_target_paths_digest = "sha256:0";
}

abbrev pub entry : String → Option String → String → DeploymentLedgerEntry
entry id previous hash = record {
  schema_version = "1.0";
  deployment_id = id;
  plan_id = plan_id;
  parent_deployment_id = none;
  target_id = "target-t";
  asset_ids = [];
  source_revisions = [];
  change_types = [];
  approval_ref = "approval";
  started_at = noon;
  finished_at = noon;
  result = "succeeded";
  evidence_refs = [];
  previous_entry_hash = previous;
  entry_hash = hash;
}
