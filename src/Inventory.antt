-- ===== src/Inventory.antt =====
-- runtime_inventory/models.py and runtime_inventory/service.py: the snapshots of the runtime
-- directories, the results that carry them, and the service that refreshes and reads them.
pub mod Laws
pub mod Discovery
pub mod Dump
pub mod Store
pub mod Refinement
use skill_governance_control.Base.{
  ℕ, String, Bool, true, false, not, ◌&&◌, ◌||◌, Option, none, some, List, [], ◌∷◌, contains,
  find_first, DateTime, Result, ok, err, Failure, validation_error, other_exception, Eq, ◌==◌, ◌!=◌,
  string_eq, option_eq, bool_eq, if◌then◌else◌, leb, ◌&&◌, refl, subst, ◌≢◌, ◌≡◌,
}

pub data RuntimeSkillStatus : Type 0 where
  consistent diverged missing local_only scan_warning : RuntimeSkillStatus

pub data RuntimeLocationKind : Type 0 where
  shared target : RuntimeLocationKind

pub data RuntimeInventoryErrorCode : Type 0 where
  unavailable invalid_snapshot discovery_failed persistence_failed : RuntimeInventoryErrorCode

pub record ScanLimits : Type 0 where
  pub max_files : ℕ
  pub max_file_bytes : ℕ
  pub max_total_bytes : ℕ

-- The bounds of the fields.
unfoldable pub scan_limits_ok : ScanLimits → Bool
scan_limits_ok l =
    leb 1 l.max_files
    && leb l.max_files 512
    && leb 1 l.max_file_bytes
    && leb l.max_file_bytes 1048576
    && leb 1 l.max_total_bytes
    && leb l.max_total_bytes 16777216

pub record RuntimeTarget : Type 0 where
  pub name : String
  pub path : String
  pub mode : String
  pub include : List String
  pub exclude : List String
  pub readable : Bool

pub record RuntimeSkillInstance : Type 0 where
  pub location_kind : RuntimeLocationKind
  pub target_name : Option String
  pub path : String
  pub distribution_mode : String
  pub digest : Option String
  pub is_symlink : Bool
  pub readable : Bool
  pub scan_warnings : List String

pub record RuntimeIgnoredSkill : Type 0 where
  pub name : String
  pub path : String
  pub reason : String

pub record RuntimeSkillAsset : Type 0 where
  pub key : String
  pub name : String
  pub description : Option String
  pub status : RuntimeSkillStatus
  pub source_instance : Option RuntimeSkillInstance
  pub target_instances : List RuntimeSkillInstance
  pub missing_targets : List String

pub record RuntimeInventorySnapshot : Type 0 where
  pub generated_at : DateTime
  pub skillshare_version : String
  pub source_path : String
  pub targets : List RuntimeTarget
  pub assets : List RuntimeSkillAsset
  pub ignored : List RuntimeIgnoredSkill
  pub warnings : List String
  pub snapshot_digest : Option String

pub record RuntimeInventoryReadResult : Type 0 where
  pub available : Bool
  pub snapshot : Option RuntimeInventorySnapshot
  pub stale : Bool
  pub error_code : Option RuntimeInventoryErrorCode

pub record RuntimeInventoryRefreshResult : Type 0 where
  pub success : Bool
  pub snapshot : Option RuntimeInventorySnapshot
  pub error_code : Option RuntimeInventoryErrorCode

-- `RuntimeSkillAsset.target`
unfoldable pub asset_target : RuntimeSkillAsset → String → Result RuntimeSkillInstance
asset_target a name = elim (find_first (λ i. i.target_name == some name) a.target_instances) [
  | none ↦ err (other_exception "KeyError")
  | some i ↦ ok i
]

-- `RuntimeInventorySnapshot.asset`
unfoldable pub snapshot_asset : RuntimeInventorySnapshot → String → Result RuntimeSkillAsset
snapshot_asset s name = elim (find_first (λ a. a.name == name) s.assets) [
  | none ↦ err (other_exception "KeyError")
  | some a ↦ ok a
]

-- `self.error_code in {"discovery_failed", "persistence_failed"}`
unfoldable pub is_refresh_error : Option RuntimeInventoryErrorCode → Bool
is_refresh_error (some discovery_failed) = true
is_refresh_error (some persistence_failed) = true
is_refresh_error _ = false

-- `self.error_code in {"unavailable", "invalid_snapshot"}`
unfoldable pub is_read_error : Option RuntimeInventoryErrorCode → Bool
is_read_error (some unavailable) = true
is_read_error (some invalid_snapshot) = true
is_read_error _ = false

abbrev pub is_absent {ℓ} : {A : Type ℓ} → Option A → Bool
is_absent none = true
is_absent (some _) = false

-- `validate_result_state` of the result of a reading.
unfoldable pub read_result_ok : RuntimeInventoryReadResult → Bool
read_result_ok r =
    if r.available
    then not (is_absent r.snapshot) && not (r.stale != is_refresh_error r.error_code)
    else not (not (is_absent r.snapshot) || r.stale || not (is_read_error r.error_code))

-- `validate_result_state` of the result of a refreshment.
unfoldable pub refresh_result_ok : RuntimeInventoryRefreshResult → Bool
refresh_result_ok r =
    if r.success
    then not (is_absent r.snapshot || not (is_absent r.error_code))
    else not (not (is_absent r.snapshot) || not (is_refresh_error r.error_code))

-- The classes construct a result only if its validator accepts it.
unfoldable pub new_read_result : RuntimeInventoryReadResult → Result RuntimeInventoryReadResult
new_read_result r = if read_result_ok r then ok r else err validation_error

unfoldable pub new_refresh_result :
    RuntimeInventoryRefreshResult → Result RuntimeInventoryRefreshResult
new_refresh_result r = if refresh_result_ok r then ok r else err validation_error

-- The state of the service: its last error. What `discover`, `save` and `read` do is given by what
-- they answer.
abbrev pub LastError : Type 0
LastError = Option RuntimeInventoryErrorCode

-- A refreshment that failed.
unfoldable pub refresh_failed :
    RuntimeInventoryErrorCode → Result RuntimeInventoryRefreshResult × LastError
refresh_failed code = (
  new_refresh_result (record { success = false; snapshot = none; error_code = some code }),
  some code,
)

unfoldable pub refresh :
    Result RuntimeInventorySnapshot
    → (RuntimeInventorySnapshot → Result RuntimeInventorySnapshot)
    → LastError
    → Result RuntimeInventoryRefreshResult × LastError
refresh discovered save last_error = elim discovered [
  | err _ ↦ refresh_failed discovery_failed
  | ok snapshot ↦ elim (save snapshot) [
    | err _ ↦ refresh_failed persistence_failed
    | ok stored ↦ (
      new_refresh_result (record { success = true; snapshot = some stored; error_code = none }),
      none,
    )
  ]
]

unfoldable pub read :
    Result RuntimeInventoryReadResult → LastError → Result RuntimeInventoryReadResult
read stored last_error = elim stored [
  | err _ ↦ new_read_result (record {
    available = false;
    snapshot = none;
    stale = false;
    error_code = some invalid_snapshot;
  })
  | ok result ↦
      if result.available && not (is_absent last_error)
      then new_read_result (record {
        available = true;
        snapshot = result.snapshot;
        stale = true;
        error_code = last_error;
      })
      else ok result
]
