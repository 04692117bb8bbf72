-- ===== src/Inventory/Discovery/Laws/Whole.antt =====
-- What a digest of a directory stands for, if it is said to be complete.
use skill_governance_control.Base.{
  suc, ◌+◌, ◌≤◌, String, true, Option, some, List, [], ◌∷◌, length, take, take-length, map,
  reverse_onto, All, Any, first, later, ◌≡◌, refl, ap, subst, arith,
}
use skill_governance_control.Base.Bytes.{Bytes}
use skill_governance_control.Base.Sorting.{All-of_sort_by}
use skill_governance_control.Inventory.{ScanLimits}
use skill_governance_control.Inventory.Discovery.{
  Listing, FoundFile, Walked, walked, scan_failed, exhausted, walk_root, folders_of_listing, Hashed,
  hashed_files, digest_walked, directory_digest,
}
use skill_governance_control.Inventory.Discovery.Laws.Complete.{
  files_of_listing, walk-IsCovered, All-of_reverse_onto,
}
use skill_governance_control.Inventory.Discovery.Laws.Hashing.{
  IsContentOf, frames, total_size, IsHashed, hash_files-IsHashed, hash_files-complete,
}

-- The file is one of those that were hashed.
abbrev IsAmong : List (FoundFile × Bytes) → FoundFile → Type 0
IsAmong hashed f = Any (λ p. p.0 ≡ f) hashed

All-IsAmong :
    (hashed rest : List (FoundFile × Bytes))
    → ((f : FoundFile) → IsAmong rest f → IsAmong hashed f)
    → All (IsAmong hashed) (map (λ p. p.0) rest)
All-IsAmong hashed [] include = tt
All-IsAmong hashed (p ∷ rest) include =
    (include p.0 (first refl), All-IsAmong hashed rest (λ f k. include f (later k)))

length-reverse_onto {ℓ} :
    {A : Type ℓ} (xs acc : List A) → length (reverse_onto xs acc) ≡ length xs + length acc
length-reverse_onto [] acc = omega arith
length-reverse_onto (x ∷ xs) acc = omega (arith, length-reverse_onto xs (x ∷ acc))

-- What holds of the files that are hashed holds of all that were found, if they are not too many.
All-of_hashed_files {κ} :
    (P : FoundFile → Type κ) (limits : ScanLimits) (found : List FoundFile)
    → length found ≤ limits.max_files
    → All P (hashed_files limits found)
    → All P found
unfolding hashed_files
All-of_hashed_files P limits found few h =
    let all : take limits.max_files (reverse_onto found []) ≡ reverse_onto found [] =
      take-length limits.max_files (reverse_onto found [])
        (omega (arith, length-reverse_onto found [])) in
    (All-of_reverse_onto P found []
      (subst (All P) all (All-of_sort_by (λ f. f.relative_path) P _ h))).0

-- What the digest is made from, if the scan of the directory is complete.
pub IsWholeDigest :
    (String → Bytes)
    → (Bytes → String)
    → ScanLimits
    → String
    → Listing
    → Option String
    → List (FoundFile × Bytes)
    → Type 0
IsWholeDigest encode sha256_hex limits root listing digest hashed =
    (digest ≡ some (sha256_hex (frames encode hashed)))
    × All (λ p. IsContentOf p.0.answer p.1) hashed
    × (total_size hashed ≤ limits.max_total_bytes)
    × All (IsAmong hashed) (files_of_listing root "" listing)

digest_walked-complete :
    (encode : String → Bytes) (sha256_hex : Bytes → String) (limits : ScanLimits) (root : String)
    (listing : Listing) (warnings : List String) (w : Walked)
    → walk_root limits root listing warnings ≡ w
    → (digest_walked encode sha256_hex limits root w).complete ≡ true
    → (hashed : List (FoundFile × Bytes)) × IsWholeDigest encode sha256_hex limits root listing
        (digest_walked encode sha256_hex limits root w).digest
        hashed
unfolding digest_walked walk_root IsWholeDigest IsHashed
digest_walked-complete encode sha256_hex limits root listing warnings exhausted e complete =
    ground arith
digest_walked-complete encode sha256_hex limits root listing warnings (scan_failed ws) e complete =
    ground arith
digest_walked-complete encode sha256_hex limits root listing warnings (walked s) e complete =
    let h : Hashed = record {
      input = [];
      total_bytes = 0;
      warnings = s.warnings;
      complete = s.complete;
    } in
    let fs : List FoundFile = hashed_files limits s.files in
    let (hashed, files, contents, input, total) =
      hash_files-IsHashed encode limits root fs h (omega arith) complete in
    let (mono, bound) = hash_files-complete encode limits root fs h (omega arith) in
    let (_, few, covers) =
      walk-IsCovered (IsAmong hashed) (suc (folders_of_listing listing)) limits root _ _ s e
        (mono complete) (omega arith) in
    let among : All (IsAmong hashed) s.files =
      All-of_hashed_files (IsAmong hashed) limits s.files few
        (subst (All (IsAmong hashed)) files (All-IsAmong hashed hashed (λ f k. k))) in
    (hashed, (ap (λ l. some (sha256_hex l)) input, contents, omega arith, (covers among).1.0))

-- If a directory's scan is said to be complete, its digest is the hash of the frames of files, each
-- with the whole content of a regular file and all together within the limit, and every file below
-- the directory that the digest does not ignore is among them.
pub directory_digest-complete :
    (encode : String → Bytes) (sha256_hex : Bytes → String) (limits : ScanLimits) (root : String)
    (listing : Listing) (warnings : List String)
    → (directory_digest encode sha256_hex limits root listing warnings).complete ≡ true
    → (hashed : List (FoundFile × Bytes)) × IsWholeDigest encode sha256_hex limits root listing
        (directory_digest encode sha256_hex limits root listing warnings).digest
        hashed
unfolding directory_digest
directory_digest-complete encode sha256_hex limits root listing warnings complete =
    digest_walked-complete encode sha256_hex limits root listing warnings _ refl complete
