-- ===== src/Inventory/Store.antt =====
-- runtime_inventory/store.py: the snapshot in its directory. The calls of the system answer in turn
-- whether they work; the names of temporary files are random, so that no two are the same.
pub mod Saving
pub mod Loading
use skill_governance_control.Base.{
  ℕ, zero, suc, ◌-◌, String, Bool, true, false, not, ◌&&◌, ◌||◌, Option, none, some, List, [], ◌∷◌,
  ◌++◌, length, take, drop, min, ltb, Result, ok, err, other_exception, validation_error, ◌==◌,
  string_eq, option_eq, if◌then◌else◌, ◌+◌,
}
use skill_governance_control.Base.Bytes.{Bytes}
use skill_governance_control.Base.Text.{is_digest}
use skill_governance_control.Base.Reading.{ReadAnswers, read_limited}
use skill_governance_control.Canonical.{Canon, canonical_json, canonical_digest}
use skill_governance_control.Inventory.{
  RuntimeInventorySnapshot, RuntimeInventoryReadResult, RuntimeInventoryErrorCode, unavailable,
  invalid_snapshot, new_read_result,
}
use skill_governance_control.Inventory.Dump.{dump_content, dump_snapshot}

-- What stands under the name of the snapshot, and in the directory.
pub data Stored : Type 0 where
  absent : Stored
  regular : Bytes → Stored
  special : Stored

pub record Folder : Type 0 where
  pub snapshot : Stored
  pub temporaries : List Bytes

pub data Directory : Type 0 where
  missing : Directory
  no_directory : Directory
  folder : Folder → Directory

-- The store, and the libraries that it calls. `parse` is `model_validate_json`.
pub record StoreEnv : Type 0 where
  pub canon : Canon
  pub parse : Bytes → Option RuntimeInventorySnapshot
  pub max_snapshot_bytes : ℕ

-- Which of the calls in `save` work, in their order; `writes` says how many bytes more than one an
-- `os.write` at an offset takes, if it takes any.
pub record SaveCalls : Type 0 where
  pub mkdir : Bool
  pub open_directory : Bool
  pub stat_before : Bool
  pub open_temporary : Bool
  pub writes : ℕ → Option ℕ
  pub fsync_temporary : Bool
  pub close_temporary : Bool
  pub stat_again : Bool
  pub replace : Bool
  pub fsync_directory : Bool
  pub unlink : Bool

-- Those in `read`.
pub record ReadCalls : Type 0 where
  pub lstat : Bool
  pub open_directory : Bool
  pub stat : Bool
  pub open_snapshot : Bool
  pub answers : ReadAnswers

abbrev pub store_error : {A : Type 0} → Result A
store_error = err (other_exception "RuntimeInventoryStoreError")

-- The digest of what a snapshot says, without its digest.
unfoldable pub content_digest : StoreEnv → RuntimeInventorySnapshot → String
content_digest env s = canonical_digest env.canon (dump_content env.canon.iso s)

-- `stored`, before it is validated.
unfoldable pub sealed : StoreEnv → RuntimeInventorySnapshot → RuntimeInventorySnapshot
sealed env s = record s { snapshot_digest = some (content_digest env s) }

unfoldable pub payload_of : StoreEnv → RuntimeInventorySnapshot → Bytes
payload_of env s = canonical_json env.canon (dump_snapshot env.canon.iso s)

-- `_write_all`, given a round for each byte: what is in the file, and whether all is.
unfoldable pub write_all : ℕ → (ℕ → Option ℕ) → ℕ → Bytes → Bytes × Bool
write_all fuel writes offset [] = ([], true)
write_all zero writes offset (b ∷ rest) = ([], false)
write_all (suc fuel) writes offset (b ∷ rest) = elim (writes offset) [
  | none ↦ ([], false)
  | some n ↦
      let (more, done) =
        write_all fuel writes (offset + suc (length (take n rest))) (drop n rest) in
      (b ∷ take n rest ++ more, done)
]

-- `_require_safe_snapshot_target`
unfoldable pub is_safe_target : Stored → Bool
is_safe_target special = false
is_safe_target _ = true

-- The calls between the writing and the replacement, which work or raise in turn.
unfoldable pub is_replaced : SaveCalls → Bool → Stored → Bool
is_replaced c written old =
    written
    && c.fsync_temporary
    && c.close_temporary
    && c.stat_again
    && is_safe_target old
    && c.replace

-- What `save` does in the directory, from the writing of the temporary file on.
unfoldable pub replace_snapshot : SaveCalls → Bytes → Folder → Bool × Folder
replace_snapshot c payload f =
    let (content, written) = write_all (length payload) c.writes 0 payload in
    if is_replaced c written f.snapshot
    then (c.fsync_directory, record f { snapshot = regular content })
    else (false, if c.unlink then f else record f { temporaries = content ∷ f.temporaries })

-- The calls before it.
unfoldable pub is_opened : SaveCalls → Stored → Bool
is_opened c old = c.open_directory && c.stat_before && is_safe_target old && c.open_temporary

unfoldable pub save_in : SaveCalls → Bytes → Folder → Bool × Folder
save_in c payload f = if is_opened c f.snapshot then replace_snapshot c payload f else (false, f)

abbrev in_folder : Bool × Folder → Bool × Directory
in_folder (done, f) = (done, folder f)

-- The body of `save` in its `try`: whether it raises nothing, and the directory behind it.
unfoldable pub save_payload : SaveCalls → Bytes → Directory → Bool × Directory
save_payload c payload d =
    if c.mkdir
    then elim d [
      | missing ↦ in_folder (save_in c payload (record { snapshot = absent; temporaries = [] }))
      | no_directory ↦ (false, no_directory)
      | folder f ↦ in_folder (save_in c payload f)
    ]
    else (false, d)

-- `RuntimeInventoryStore.save`
unfoldable pub save :
    StoreEnv
    → SaveCalls
    → RuntimeInventorySnapshot
    → Directory
    → Result RuntimeInventorySnapshot × Directory
save env c s d =
    let stored = sealed env s in
    let payload = payload_of env stored in
    if not (is_digest (content_digest env s))
    then (err validation_error, d)
    else if ltb env.max_snapshot_bytes (length payload)
    then (store_error, d)
    else (let (done, d') = save_payload c payload d in
        (if done then ok stored else store_error, d'))

-- `_unavailable`
unfoldable pub unavailable_result : RuntimeInventoryErrorCode → Result RuntimeInventoryReadResult
unavailable_result code =
    new_read_result
      (record { available = false; snapshot = none; stale = false; error_code = some code })

-- The snapshot that was parsed.
unfoldable pub accept_snapshot :
    StoreEnv → RuntimeInventorySnapshot → Result RuntimeInventoryReadResult
accept_snapshot env s =
    if s.snapshot_digest == some (content_digest env s)
    then new_read_result
        (record { available = true; snapshot = some s; stale = false; error_code = none })
    else unavailable_result invalid_snapshot

-- From `os.open` of the snapshot on; `content` stands in the file.
unfoldable pub read_content : StoreEnv → ReadCalls → Bytes → Result RuntimeInventoryReadResult
read_content env c content =
    if not c.open_snapshot
    then unavailable_result invalid_snapshot
    else elim (read_limited c.answers (suc env.max_snapshot_bytes) content) [
      | none ↦ unavailable_result invalid_snapshot
      | some payload ↦
          if ltb env.max_snapshot_bytes (length payload)
          then unavailable_result invalid_snapshot
          else elim (env.parse payload) [
            | none ↦ unavailable_result invalid_snapshot
            | some s ↦ accept_snapshot env s
          ]
    ]

unfoldable pub read_in : StoreEnv → ReadCalls → Stored → Result RuntimeInventoryReadResult
read_in env c absent = unavailable_result unavailable
read_in env c special = unavailable_result invalid_snapshot
read_in env c (regular content) = read_content env c content

-- `RuntimeInventoryStore.read`
unfoldable pub read_store : StoreEnv → ReadCalls → Directory → Result RuntimeInventoryReadResult
read_store env c d = if not c.lstat then unavailable_result invalid_snapshot else elim d [
  | missing ↦ unavailable_result unavailable
  | no_directory ↦ unavailable_result invalid_snapshot
  | folder f ↦
      if c.open_directory && c.stat
      then read_in env c f.snapshot
      else unavailable_result invalid_snapshot
]
