-- ===== src/Evidence/Laws.antt =====
-- What is resolved is the evidence that the entry names, read in full from trusted places.
use skill_governance_control.Base.{
  suc, ◌≤◌, String, ◌<>◌, Bool, true, false, not, ◌&&◌, ◌||◌, Option, none, some, List, [], ◌∷◌,
  ◌++◌, any, all, length, ltb, ok, >>=-eq-ok, >>-eq-ok, raise_if, raise_if-ok, ok-injective, ◌!=◌,
  string_eq, ◌≡◌, sym, ap, ◌∙◌, subst, arith, append_assoc,
}
use skill_governance_control.Base.Bytes.{Bytes}
use skill_governance_control.Base.Reading.{read_limited, read_limited_whole}
use skill_governance_control.Models.{
  deployment_owner, owner_type_eq, EvidenceRef, DeploymentLedgerEntry,
}
use skill_governance_control.Evidence.{
  ResolvedEvidence, FileStat, LeafFile, EvidenceEnv, ref_ok, same_ref, is_trusted_directory,
  require_trusted_directory, is_trusted_leaf, require_trusted_leaf, or_unsafe, check_content,
  read_leaf, open_parts, parts_of, open_and_read, read_evidence, resolve,
}

-- The directories on the way to a file are the trusted owner's.
unfoldable pub AreTrusted : EvidenceEnv → List String → List String → Type 0
AreTrusted env path [] = Unit
AreTrusted env path (part ∷ []) = Unit
AreTrusted env path (part ∷ next ∷ parts) =
    ((s : FileStat) × (env.open_directory (path ++ part ∷ []) ≡ some s)
      × (is_trusted_directory env s ≡ true))
    × AreTrusted env (path ++ part ∷ []) (next ∷ parts)

-- The content of the reference's file, which is the trusted owner's like all directories on the way.
pub IsTrustedContent : EvidenceEnv → EvidenceRef → Bytes → Type 0
IsTrustedContent env ref content =
    ((root : FileStat) × (env.open_directory [] ≡ some root)
      × (is_trusted_directory env root ≡ true))
    × AreTrusted env [] (parts_of ref)
    × ((leaf : LeafFile) × (env.open_leaf (parts_of ref) ≡ some leaf)
        × (leaf.content ≡ content)
        × ((s : FileStat) × (leaf.before ≡ some s) × (is_trusted_leaf env s ≡ true)))

or_unsafe-ok {ℓ} : {A : Type ℓ} (o : Option A) (a : A) → or_unsafe o ≡ ok a → o ≡ some a
or_unsafe-ok none a h = ground arith
or_unsafe-ok (some b) a h = ground arith

true-of_not : (b : Bool) → not b ≡ false → b ≡ true
true-of_not b h = ground arith

trusted_directory :
    (env : EvidenceEnv) (s : FileStat)
    → require_trusted_directory env s ≡ ok tt
    → is_trusted_directory env s ≡ true
unfolding require_trusted_directory
trusted_directory env s h = true-of_not _ (raise_if-ok _ _ h)

open_parts-AreTrusted :
    (env : EvidenceEnv) (path parts : List String) (leaf : LeafFile)
    → open_parts env path parts ≡ ok leaf
    → AreTrusted env path parts × (env.open_leaf (path ++ parts) ≡ some leaf)
unfolding open_parts AreTrusted
open_parts-AreTrusted env path [] leaf h = ground arith
open_parts-AreTrusted env path (part ∷ []) leaf h = (tt, or_unsafe-ok _ leaf h)
open_parts-AreTrusted env path (part ∷ next ∷ parts) leaf h =
    let (s, e, h1) = >>=-eq-ok (or_unsafe (env.open_directory (path ++ part ∷ []))) _ h in
    let (trusted, h2) = >>-eq-ok (require_trusted_directory env s) _ h1 in
    let (rest, found) = open_parts-AreTrusted env (path ++ part ∷ []) (next ∷ parts) leaf h2 in
    (
      ((s, or_unsafe-ok _ s e, trusted_directory env s trusted), rest),
      ap env.open_leaf (sym (append_assoc path (part ∷ []) (next ∷ parts))) ∙ found,
    )

trusted_leaf :
    (env : EvidenceEnv) (s : FileStat)
    → require_trusted_leaf env s ≡ ok tt
    → is_trusted_leaf env s ≡ true
unfolding require_trusted_leaf
trusted_leaf env s h = ground arith

check_content-ok :
    (env : EvidenceEnv) (sha256 : String) (before after : FileStat) (bytes content : Bytes)
    → check_content env sha256 before after bytes ≡ ok content
    → (bytes ≡ content)
      × (ltb env.max_evidence_bytes (length bytes) ≡ false)
      × (("sha256:" <> env.sha256_hex bytes) ≡ sha256)
unfolding check_content
check_content-ok env sha256 before after bytes content h = ground arith

read_leaf-whole :
    (env : EvidenceEnv) (sha256 : String) (leaf : LeafFile) (content : Bytes)
    → read_leaf env sha256 leaf ≡ ok content
    → (leaf.content ≡ content)
      × (length content ≤ env.max_evidence_bytes)
      × (("sha256:" <> env.sha256_hex content) ≡ sha256)
      × ((s : FileStat) × (leaf.before ≡ some s) × (is_trusted_leaf env s ≡ true))
unfolding read_leaf
read_leaf-whole env sha256 leaf content h =
    let (before, b, h1) = >>=-eq-ok (or_unsafe leaf.before) _ h in
    let (trusted, h2) = >>-eq-ok (require_trusted_leaf env before) _ h1 in
    let (bytes, r, h3) =
      >>=-eq-ok (or_unsafe (read_limited leaf.answers (suc env.max_evidence_bytes) leaf.content)) _
        h2 in
    let (after, a, h4) = >>=-eq-ok (or_unsafe leaf.after) _ h3 in
    let (same, small, digest) = check_content-ok env sha256 before after bytes content h4 in
    let fits : length bytes ≤ env.max_evidence_bytes = ground arith in
    let whole : leaf.content ≡ bytes =
      read_limited_whole leaf.answers env.max_evidence_bytes leaf.content bytes
        (or_unsafe-ok _ bytes r) fits in
    (
      whole ∙ same,
      subst (λ l. length l ≤ env.max_evidence_bytes) same fits,
      ap (λ l. "sha256:" <> env.sha256_hex l) (sym same) ∙ digest,
      (before, or_unsafe-ok _ before b, trusted_leaf env before trusted),
    )

read_evidence-IsTrustedContent :
    (env : EvidenceEnv) (ref : EvidenceRef) (content : Bytes)
    → read_evidence env ref ≡ ok content
    → IsTrustedContent env ref content
      × (length content ≤ env.max_evidence_bytes)
      × (("sha256:" <> env.sha256_hex content) ≡ ref.sha256)
unfolding read_evidence open_and_read IsTrustedContent
read_evidence-IsTrustedContent env ref content h =
    let (_, h1) = >>-eq-ok (raise_if (not env.is_supported) _) _ h in
    let (bytes, body, h2) = >>=-eq-ok (open_and_read env ref) _ h1 in
    let (_, h3) = >>-eq-ok (raise_if (not env.closes) _) _ h2 in
    let (root, r, b1) = >>=-eq-ok (or_unsafe (env.open_directory [])) _ body in
    let (trusted, b2) = >>-eq-ok (require_trusted_directory env root) _ b1 in
    let (leaf, l, b3) = >>=-eq-ok (open_parts env [] (parts_of ref)) _ b2 in
    let (way, found) = open_parts-AreTrusted env [] (parts_of ref) leaf l in
    let (whole, fits, digest, owned) = read_leaf-whole env ref.sha256 leaf content (b3 ∙ h3) in
    (
      (
        (root, or_unsafe-ok _ root r, trusted_directory env root trusted),
        way,
        (leaf, found, whole, owned),
      ),
      fits,
      digest,
    )

-- Evidence that `resolve` returns is of the entry's deployment and among its references, which are
-- all valid. It has the bytes of the reference's file, all of them, within the limit and with the
-- digest of the reference; the file and each directory on the way to it are the trusted owner's.
pub resolve-IsTrusted :
    (env : EvidenceEnv) (entry : DeploymentLedgerEntry) (ref : EvidenceRef) (r : ResolvedEvidence)
    → resolve env entry ref ≡ ok r
    → ((ref_ok env ref && all (ref_ok env) entry.evidence_refs) ≡ true)
      × (any (same_ref ref) entry.evidence_refs ≡ true)
      × (ref.owner_type ≡ deployment_owner)
      × (ref.owner_id ≡ entry.deployment_id)
      × IsTrustedContent env ref r.content
      × (length r.content ≤ env.max_evidence_bytes)
      × (("sha256:" <> env.sha256_hex r.content) ≡ ref.sha256)
unfolding resolve
resolve-IsTrusted env entry ref r h =
    let (valid, h1) =
      >>-eq-ok (raise_if (not (ref_ok env ref && all (ref_ok env) entry.evidence_refs)) _) _ h in
    let (member, h2) = >>-eq-ok (raise_if (not (any (same_ref ref) entry.evidence_refs)) _) _ h1 in
    let (owned, h3) =
      >>-eq-ok
        (raise_if (ref.owner_type != deployment_owner || ref.owner_id != entry.deployment_id) _) _
        h2 in
    let (content, read, h4) = >>=-eq-ok (read_evidence env ref) _ h3 in
    let owner = raise_if-ok _ _ owned in
    let same : content ≡ r.content = ap (λ x. x.content) (ok-injective h4) in
    let (trusted, fits, digest) =
      read_evidence-IsTrustedContent env ref r.content (read ∙ ap ok same) in
    (
      true-of_not _ (raise_if-ok _ _ valid),
      true-of_not _ (raise_if-ok _ _ member),
      ground arith,
      ground arith,
      trusted,
      fits,
      digest,
    )
