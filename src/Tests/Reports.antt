-- ===== src/Tests/Reports.antt =====
-- Runs of the theorems on the read service and on the evidence of deployments.
use skill_governance_control.Base.{
  String, ◌<>◌, true, false, ◌&&◌, none, some, List, [], ◌∷◌, any, all, length, last?, ltb, ok,
  string_eq, bool_eq, ◌≡◌, refl, ◌≤◌, nat_eq,
}
use skill_governance_control.Base.Text.{is_digest, hex_after, is_hex_digit}
use skill_governance_control.Base.Files.{
  path_of, root_of, leading_slashes, split_slash, path_text, join_slash,
}
use skill_governance_control.Base.Reading.{read_limited, read_chunks}
use skill_governance_control.Models.{
  text, object, field, field_end, deployment_owner, owner_type_eq, EvidenceRef,
  DeploymentLedgerEntry, VerificationResult, result_owner_ok, capability_manifest_eq,
  capability_state_eq,
}
use skill_governance_control.Service.Checks.{require_capability}
use skill_governance_control.Reads.{
  StatusReport, DriftReport, ReadEnv, put_item, get_item, is_successful, latest_from,
  latest_successful_deployments, selected_targets, deployment_result, verification_of,
  collect_verified, collect_status, put_revisions, refs_of, status, drift,
}
use skill_governance_control.Reads.Laws.{
  successes, latest_successful_deployments-last, drift-of_status,
}
use skill_governance_control.Evidence.{
  ResolvedEvidence, regular_file, directory, FileStat, EvidenceEnv, owner_id_ok, relative_path_ok,
  ref_ok, same_ref, is_trusted_directory, require_trusted_directory, is_trusted_leaf,
  require_trusted_leaf, same_kind, is_unchanged, check_content, read_leaf, open_parts, parts_of,
  open_and_read, read_evidence, resolve,
}
use skill_governance_control.Evidence.Laws.{IsTrustedContent, resolve-IsTrusted}
use skill_governance_control.Tests.Data.{noon, target, plan, projection, entry, snapshot}

abbrev drifted : VerificationResult
drifted = record {
  deployment_id = "deployment-2";
  target_id = "target-t";
  resolved_target_paths = [];
  healthy = false;
  drift = field_end;
  evidence_refs = [];
}

abbrev entries : List DeploymentLedgerEntry
entries = entry "deployment-1" none "" ∷ entry "deployment-2" (some "") "" ∷ []

abbrev reads : ReadEnv
reads = record {
  load_snapshot = ok (snapshot "targets");
  read_all = ok entries;
  get_plan = λ id. ok plan;
  projection_for_plan = λ p. ok projection;
  adapter_manifest = λ t. ok target.capabilities;
  discover = λ t p. ok [];
  verify = λ t r p. ok drifted;
  now = noon;
}

abbrev latest : List (String × DeploymentLedgerEntry)
latest = ("target-t", entry "deployment-2" (some "") "") ∷ []

latest_found : latest_successful_deployments reads ≡ ok latest
unfolding latest_successful_deployments latest_from is_successful put_item string_eq
latest_found = refl

latest_successful_deployments-last_example :
    get_item "target-t" latest ≡ last? (successes "target-t" entries)
latest_successful_deployments-last_example =
    latest_successful_deployments-last reads entries latest "target-t" refl latest_found

abbrev report : StatusReport
report = record {
  generated_at = noon;
  target_id = none;
  target_health =
      (
        "target-t",
        object (
            field "status" (text "drifted") (
              field "deployment_id" (text "deployment-2")
                (field "drift" (object field_end) field_end))),
      )
      ∷ [];
  observed_revisions = [];
  drift_count = 1;
  evidence_refs = [];
}

reported : status reads none ≡ ok report
unfolding status selected_targets latest_successful_deployments latest_from is_successful put_item
    get_item collect_status verification_of deployment_result result_owner_ok require_capability
    collect_verified put_revisions refs_of string_eq capability_manifest_eq capability_state_eq
reported = refl

drift-of_status_example :
    (d : DriftReport) × (drift reads none ≡ ok d)
    × (report.drift_count ≡ length d.changes)
    × (d.has_drift ≡ ltb 0 report.drift_count)
drift-of_status_example = drift-of_status reads none report reported

abbrev digest : String
digest = "sha256:0000000000000000000000000000000000000000000000000000000000000000"

abbrev ref : EvidenceRef
ref = record {
  owner_type = deployment_owner;
  owner_id = "d";
  relative_path = "a";
  sha256 = digest;
  media_type = "text/plain";
}

abbrev evidence_entry : DeploymentLedgerEntry
evidence_entry = record (entry "d" none "") { evidence_refs = ref ∷ [] }

abbrev folder_stat : FileStat
folder_stat = record { kind = directory; device = 1; inode = 2; owner = 7; size = 0 }

abbrev leaf_stat : FileStat
leaf_stat = record { kind = regular_file; device = 1; inode = 3; owner = 7; size = 2 }

abbrev system : EvidenceEnv
system = record {
  max_evidence_bytes = 4;
  trusted_owner = 7;
  is_supported = true;
  open_directory = λ path. some folder_stat;
  open_leaf = λ path. some (record {
    before = some leaf_stat;
    content = 1 ∷ 2 ∷ [];
    answers = λ i. some 0;
    after = some leaf_stat;
  });
  closes = true;
  sha256_hex = λ b. "0000000000000000000000000000000000000000000000000000000000000000";
  has_control = λ s. false;
  has_drive = λ s. false;
}

abbrev evidence : ResolvedEvidence
evidence = record {
  owner_type = deployment_owner;
  owner_id = "d";
  relative_path = "a";
  sha256 = digest;
  media_type = "text/plain";
  byte_length = 2;
  content = 1 ∷ 2 ∷ [];
}

resolved : resolve system evidence_entry ref ≡ ok evidence
unfolding resolve ref_ok owner_id_ok relative_path_ok same_ref is_digest hex_after is_hex_digit
    path_of root_of leading_slashes split_slash path_text join_slash read_evidence open_and_read
    open_parts parts_of read_leaf check_content require_trusted_directory is_trusted_directory
    require_trusted_leaf is_trusted_leaf is_unchanged same_kind read_limited read_chunks string_eq
    nat_eq owner_type_eq
resolved = refl

resolve-IsTrusted_example :
    ((ref_ok system ref && all (ref_ok system) evidence_entry.evidence_refs) ≡ true)
    × (any (same_ref ref) evidence_entry.evidence_refs ≡ true)
    × (ref.owner_type ≡ deployment_owner)
    × (ref.owner_id ≡ evidence_entry.deployment_id)
    × IsTrustedContent system ref evidence.content
    × (length evidence.content ≤ system.max_evidence_bytes)
    × (("sha256:" <> system.sha256_hex evidence.content) ≡ ref.sha256)
resolve-IsTrusted_example = resolve-IsTrusted system evidence_entry ref evidence resolved
