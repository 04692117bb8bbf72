-- ===== src/Inventory/Discovery/Digest.antt =====
-- `_directory_digest`: the bytes that the digest of a directory is made from.
use skill_governance_control.Base.{
  ℕ, zero, suc, ◌+◌, ◌-◌, ◌/◌, ◌%◌, String, ◌<>◌, Bool, true, false, Option, none, some, List, [],
  ◌∷◌, ◌++◌, length, take, min, ltb, ◌==◌, string_eq, if◌then◌else◌, list_eq, nat_eq,
}
use skill_governance_control.Base.Bytes.{Bytes}
use skill_governance_control.Base.Sorting.{sort_by}
use skill_governance_control.Inventory.{ScanLimits}
use skill_governance_control.Base.{reverse_onto}
use skill_governance_control.Inventory.Discovery.Opened.{
  content, failure, limit_exceeded, read_regular_file,
}
use skill_governance_control.Inventory.Discovery.Walk.{
  Listing, FoundFile, Walked, walked, scan_failed, exhausted, walk, folders_of_listing,
}

-- `str(n).encode("ascii")`, given a round for each digit.
unfoldable pub decimal_digits : ℕ → ℕ → Bytes
decimal_digits zero n = []
decimal_digits (suc fuel) n =
    let rest = decimal_digits fuel (n / 10) ++ (48 + n % 10) ∷ [] in
    if ltb n 10 then (48 + n) ∷ [] else rest

abbrev pub decimal : ℕ → Bytes
decimal n = decimal_digits (suc n) n

-- What `digest.update` is given for one file.
unfoldable pub frame : (String → Bytes) → String → Bytes → Bytes
frame encode relative_path c = encode relative_path ++ (0 ∷ decimal (length c) ++ (0 ∷ c))

-- The state of the second loop: the bytes that were hashed, and how many of them are of files.
pub record Hashed : Type 0 where
  pub input : Bytes
  pub total_bytes : ℕ
  pub warnings : List String
  pub complete : Bool

-- One round; `false` is the `break`.
unfoldable pub hash_file :
    (String → Bytes) → ScanLimits → String → FoundFile → Hashed → Bool × Hashed
hash_file encode limits root f h =
    let remaining_total = limits.max_total_bytes - h.total_bytes in
    elim (read_regular_file f.answer (min limits.max_file_bytes remaining_total)) [
      | content c ↦ (
        true,
        record h {
          input = h.input ++ frame encode f.relative_path c;
          total_bytes = h.total_bytes + length c;
        },
      )
      | failure reason ↦
          if reason == limit_exceeded
          then if ltb remaining_total limits.max_file_bytes
            then (
              false,
              record h {
                warnings = (root <> ": total byte limit exceeded") ∷ h.warnings;
                complete = false;
              },
            )
            else (
              true,
              record h {
                warnings = (f.path <> ": file size limit exceeded") ∷ h.warnings;
                complete = false;
              },
            )
          else (
            true,
            record h { warnings = (f.path <> (": " <> reason)) ∷ h.warnings; complete = false },
          )
    ]

unfoldable pub hash_files :
    (String → Bytes) → ScanLimits → String → List FoundFile → Hashed → Hashed
hash_files encode limits root [] h = h
hash_files encode limits root (f ∷ fs) h =
    let (goes_on, h') = hash_file encode limits root f h in
    let rest = hash_files encode limits root fs h' in if goes_on then rest else h'

-- `sorted(files[: limits.max_files])`; the paths from the root differ.
unfoldable pub hashed_files : ScanLimits → List FoundFile → List FoundFile
hashed_files limits found =
    sort_by (λ f. f.relative_path) (take limits.max_files (reverse_onto found []))

-- What the digest, the flag and the warnings are made from.
pub record Digested : Type 0 where
  pub digest : Option String
  pub complete : Bool
  pub warnings : List String

-- `exhausted` is no end of the program's loop.
unfoldable pub digest_walked :
    (String → Bytes) → (Bytes → String) → ScanLimits → String → Walked → Digested
digest_walked encode sha256_hex limits root exhausted = record {
  digest = none;
  complete = false;
  warnings = [];
}
digest_walked encode sha256_hex limits root (scan_failed warnings) = record {
  digest = none;
  complete = false;
  warnings = warnings;
}
digest_walked encode sha256_hex limits root (walked w) =
    let h =
      hash_files encode limits root (hashed_files limits w.files)
        (record { input = []; total_bytes = 0; warnings = w.warnings; complete = w.complete }) in
    record { digest = some (sha256_hex h.input); complete = h.complete; warnings = h.warnings }

-- The walk from a root, with a round for each folder.
unfoldable pub walk_root : ScanLimits → String → Listing → List String → Walked
walk_root limits root listing warnings =
    walk (suc (folders_of_listing listing)) limits root
      (record { path = root; prefix = ""; listing = listing } ∷ [])
      (record {
        directories = [];
        files = [];
        warnings = warnings;
        complete = true;
        failed = false;
      })

-- `_directory_digest` on a root directory, with the warnings so far in reverse. `encode` is
-- `str.encode("utf-8")`.
unfoldable pub directory_digest :
    (String → Bytes) → (Bytes → String) → ScanLimits → String → Listing → List String → Digested
directory_digest encode sha256_hex limits root listing warnings =
    digest_walked encode sha256_hex limits root (walk_root limits root listing warnings)
