-- ===== src/Evidence.antt =====
-- evidence_refs.py: `DeploymentEvidenceResolver`, and the validators of `EvidenceRef` in models.py.
pub mod Laws
use skill_governance_control.Base.{
  ℕ, suc, String, ◌<>◌, Bool, true, false, not, ◌&&◌, ◌||◌, Option, none, some, List, [], ◌∷◌, ◌++◌,
  any, all, contains, length, ltb, nat_eqb, Result, ok, err, safety_violation, other_exception,
  raise_if, ◌>>=◌, ◌>>◌, ◌==◌, ◌!=◌, string_eq, nat_eq, if◌then◌else◌,
}
use skill_governance_control.Base.Bytes.{Bytes}
use skill_governance_control.Base.Text.{codes, is_digest}
use skill_governance_control.Base.Files.{path_of, path_text, is_absolute}
use skill_governance_control.Base.Reading.{ReadAnswers, read_limited}
use skill_governance_control.Models.{
  OwnerType, deployment_owner, owner_type_eq, owner_type_text, EvidenceRef, DeploymentLedgerEntry,
}

-- `ResolvedEvidence`
pub record ResolvedEvidence : Type 0 where
  pub owner_type : OwnerType
  pub owner_id : String
  pub relative_path : String
  pub sha256 : String
  pub media_type : String
  pub byte_length : ℕ
  pub content : Bytes

pub data FileKind : Type 0 where
  regular_file directory other_file : FileKind

-- What `os.fstat` returns.
pub record FileStat : Type 0 where
  pub kind : FileKind
  pub device : ℕ
  pub inode : ℕ
  pub owner : ℕ
  pub size : ℕ

-- What the system answers on a file that was opened: `none` is an `OSError`.
pub record LeafFile : Type 0 where
  pub before : Option FileStat
  pub content : Bytes
  pub answers : ReadAnswers
  pub after : Option FileStat

-- The resolver, and what it calls. A directory and a file are opened below the evidence root, by
-- their parts, without following a link; a directory that is opened is given by its `os.fstat`.
pub record EvidenceEnv : Type 0 where
  pub max_evidence_bytes : ℕ
  pub trusted_owner : ℕ
  pub is_supported : Bool
  pub open_directory : List String → Option FileStat
  pub open_leaf : List String → Option LeafFile
  pub closes : Bool
  pub sha256_hex : Bytes → String
  pub has_control : String → Bool
  pub has_drive : String → Bool

abbrev has_code : ℕ → String → Bool
has_code n s = any (nat_eqb n) (codes s)

-- `EvidenceRef.require_owner_id`
unfoldable pub owner_id_ok : EvidenceEnv → String → Bool
owner_id_ok env value = not (
    value == ""
    || value == "."
    || value == ".."
    || has_code 47 value
    || has_code 92 value
    || env.has_control value)

-- `EvidenceRef.require_relative_path`
unfoldable pub relative_path_ok : EvidenceEnv → String → Bool
relative_path_ok env value =
    let path = path_of value in
    not (
      value == ""
      || value == "."
      || is_absolute path
      || has_code 92 value
      || contains path.parts ".."
      || env.has_drive value
      || env.has_control value
      || path_text path != value)

-- `EvidenceRef.model_validate`
unfoldable pub ref_ok : EvidenceEnv → EvidenceRef → Bool
ref_ok env ref =
    owner_id_ok env ref.owner_id && relative_path_ok env ref.relative_path && is_digest ref.sha256

-- The equality of two `_EvidenceRefSnapshot`s.
unfoldable pub same_ref : EvidenceRef → EvidenceRef → Bool
same_ref a b =
    a.owner_type == b.owner_type
    && a.owner_id == b.owner_id
    && a.relative_path == b.relative_path
    && a.sha256 == b.sha256
    && a.media_type == b.media_type

-- `_require_trusted_directory`
unfoldable pub is_trusted_directory : EvidenceEnv → FileStat → Bool
is_trusted_directory env s =
    (elim s.kind [ directory ↦ true | _ ↦ false ]) && s.owner == env.trusted_owner

unfoldable pub require_trusted_directory : EvidenceEnv → FileStat → Result (Unit {0})
require_trusted_directory env s =
    raise_if (not (is_trusted_directory env s))
      (safety_violation "deployment evidence directory is not trusted")

-- `_require_trusted_leaf`
unfoldable pub is_trusted_leaf : EvidenceEnv → FileStat → Bool
is_trusted_leaf env s =
    (elim s.kind [ regular_file ↦ true | _ ↦ false ]) && s.owner == env.trusted_owner

unfoldable pub require_trusted_leaf : EvidenceEnv → FileStat → Result (Unit {0})
require_trusted_leaf env s = do
  raise_if (not (is_trusted_leaf env s))
      (safety_violation "deployment evidence file is not trusted")
  raise_if (ltb env.max_evidence_bytes s.size)
      (safety_violation "deployment evidence size exceeds limit")

unfoldable pub same_kind : FileKind → FileKind → Bool
same_kind regular_file regular_file = true
same_kind directory directory = true
same_kind other_file other_file = true
same_kind _ _ = false

-- `_require_unchanged_leaf`
unfoldable pub is_unchanged : EvidenceEnv → FileStat → FileStat → ℕ → Bool
is_unchanged env before after byte_length =
    same_kind before.kind after.kind
    && before.device == after.device
    && before.inode == after.inode
    && before.size == after.size
    && before.owner == after.owner
    && after.owner == env.trusted_owner
    && byte_length == before.size

abbrev unsafe {ℓ} : {A : Type ℓ} → Result A
unsafe = err (safety_violation "deployment evidence could not be read safely")

abbrev pub or_unsafe {ℓ} : {A : Type ℓ} → Option A → Result A
or_unsafe none = unsafe
or_unsafe (some a) = ok a

-- The checks behind the reading.
unfoldable pub check_content : EvidenceEnv → String → FileStat → FileStat → Bytes → Result Bytes
check_content env sha256 before after content = do
  raise_if (not (is_unchanged env before after (length content)))
      (safety_violation "deployment evidence changed while reading")
  raise_if (ltb env.max_evidence_bytes (length content))
      (safety_violation "deployment evidence size exceeds limit")
  raise_if (("sha256:" <> env.sha256_hex content) != sha256)
      (safety_violation "deployment evidence checksum mismatch")
  ok content

-- What happens to the file that was opened.
unfoldable pub read_leaf : EvidenceEnv → String → LeafFile → Result Bytes
read_leaf env sha256 leaf = do
  before ← or_unsafe leaf.before
  require_trusted_leaf env before
  content ← or_unsafe (read_limited leaf.answers (suc env.max_evidence_bytes) leaf.content)
  after ← or_unsafe leaf.after
  check_content env sha256 before after content

-- The loop over the directories, from one that is open on.
unfoldable pub open_parts : EvidenceEnv → List String → List String → Result LeafFile
open_parts env path [] = err (other_exception "IndexError")
open_parts env path (part ∷ []) = or_unsafe (env.open_leaf (path ++ part ∷ []))
open_parts env path (part ∷ next ∷ parts) = do
  s ← or_unsafe (env.open_directory (path ++ part ∷ []))
  require_trusted_directory env s
  open_parts env (path ++ part ∷ []) (next ∷ parts)

unfoldable pub parts_of : EvidenceRef → List String
parts_of ref = owner_type_text ref.owner_type ∷ ref.owner_id ∷ (path_of ref.relative_path).parts

-- `_read_evidence` in its `try`.
unfoldable pub open_and_read : EvidenceEnv → EvidenceRef → Result Bytes
open_and_read env ref = do
  root ← or_unsafe (env.open_directory [])
  require_trusted_directory env root
  leaf ← open_parts env [] (parts_of ref)
  read_leaf env ref.sha256 leaf

-- `_read_evidence`
unfoldable pub read_evidence : EvidenceEnv → EvidenceRef → Result Bytes
read_evidence env ref = do
  raise_if (not env.is_supported)
      (safety_violation "deployment evidence platform lacks required safe-open capabilities")
  content ← open_and_read env ref
  raise_if (not env.closes) (safety_violation "deployment evidence descriptor cleanup failed")
  ok content

-- `DeploymentEvidenceResolver.resolve`
unfoldable pub resolve : EvidenceEnv → DeploymentLedgerEntry → EvidenceRef → Result ResolvedEvidence
resolve env entry ref = do
  raise_if (not (ref_ok env ref && all (ref_ok env) entry.evidence_refs))
      (safety_violation "deployment evidence reference is invalid")
  raise_if (not (any (same_ref ref) entry.evidence_refs))
      (safety_violation "deployment evidence membership is required")
  raise_if (ref.owner_type != deployment_owner || ref.owner_id != entry.deployment_id)
      (safety_violation "deployment evidence owner is invalid")
  content ← read_evidence env ref
  ok (record {
    owner_type = ref.owner_type;
    owner_id = ref.owner_id;
    relative_path = ref.relative_path;
    sha256 = ref.sha256;
    media_type = ref.media_type;
    byte_length = length content;
    content = content;
  })
