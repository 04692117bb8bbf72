-- ===== src/Tests/Stores.antt =====
-- Runs of the theorems on the inventory's store, its service and its page.
use skill_governance_control.Base.{
  length, ◌≤◌, String, Bool, true, false, none, some, List, [], ◌∷◌, ok, err, other_exception, ◌≡◌,
  refl, inl, string_eq, list_eq, nat_eq, option_eq, arith, ◌⊎◌, Failure,
}
use skill_governance_control.Base.Text.{is_digest, hex_after, is_hex_digit}
use skill_governance_control.Canonical.{Canon, canonical_json, canonical_digest}
use skill_governance_control.Inventory.{RuntimeInventorySnapshot, RuntimeInventoryReadResult}
use skill_governance_control.Inventory.Store.{
  missing, StoreEnv, SaveCalls, ReadCalls, sealed, save, content_digest, payload_of,
}
use skill_governance_control.Inventory.Store.Saving.{IsSaving, IsStorable, IsHolding, save-cases}
use skill_governance_control.Inventory.Refinement.{
  ServiceState, Operation, refresh_now, read_now, operate_all, Remembered, IsRun, IsRemembering,
  operate_all_refines,
}
use skill_governance_control.Presentation.{InventoryFilters, build_inventory_presentation}
use skill_governance_control.Presentation.Laws.{IsFiltered, build_inventory_presentation-IsFiltered}
use skill_governance_control.Tests.Data.{noon}
use skill_governance_control.Tests.Runtime.{configured, found_asset}

abbrev canon : Canon
canon = record {
  dumps = λ v. 1 ∷ [];
  sha256_hex = λ b. "0000000000000000000000000000000000000000000000000000000000000000";
  iso = λ d. "time";
}

abbrev snapshot : RuntimeInventorySnapshot
snapshot = record {
  generated_at = noon;
  skillshare_version = "v1.2.3";
  source_path = "/s";
  targets = configured;
  assets = found_asset ∷ [];
  ignored = [];
  warnings = [];
  snapshot_digest = none;
}

abbrev stored_digest : String
stored_digest = "sha256:0000000000000000000000000000000000000000000000000000000000000000"

abbrev env : StoreEnv
env = record {
  canon = canon;
  parse = λ b. some (record snapshot { snapshot_digest = some stored_digest });
  max_snapshot_bytes = 10;
}

snapshot-IsStorable : IsStorable env snapshot
unfolding IsStorable sealed content_digest payload_of canonical_digest canonical_json is_digest
    hex_after is_hex_digit
snapshot-IsStorable = (refl, refl, omega arith)

-- The directory cannot be synchronised.
abbrev calls : Bool → SaveCalls
calls synchronised = record {
  mkdir = true;
  open_directory = true;
  stat_before = true;
  open_temporary = true;
  writes = λ i. some 0;
  fsync_temporary = true;
  close_temporary = true;
  stat_again = true;
  replace = true;
  fsync_directory = synchronised;
  unlink = true;
}

abbrev read_calls : ReadCalls
read_calls = record {
  lstat = true;
  open_directory = true;
  stat = true;
  open_snapshot = true;
  answers = λ i. some 0;
}

save-cases_example :
    ((save env (calls false) snapshot missing
        ≡ (ok (sealed env snapshot), (save env (calls false) snapshot missing).1))
      × IsHolding env (some (sealed env snapshot)) (save env (calls false) snapshot missing).1)
    ⊎ ((e : Failure) × (save env (calls false) snapshot missing
          ≡ (err e, (save env (calls false) snapshot missing).1))
        × (IsSaving (calls false) → ⊥)
        × (IsHolding env none (save env (calls false) snapshot missing).1
            ⊎ IsHolding env
                (some (sealed env snapshot))
                (save env (calls false) snapshot missing).1))
save-cases_example =
    save-cases env (calls false) snapshot none missing snapshot-IsStorable (inl refl)

abbrev operations : List Operation
operations =
    refresh_now (ok snapshot) (calls true)
    ∷ refresh_now (err (other_exception "OSError")) (calls true)
    ∷ read_now read_calls
    ∷ []

abbrev nothing : Remembered
nothing = record { saved = none; last_error = none }

abbrev start : ServiceState
start = record { directory = missing; last_error = none }

operate_all_refines_example :
    (m' : Remembered) × IsRun env nothing operations (operate_all env operations start).0 m'
    × IsRemembering env m' (operate_all env operations start).1
operate_all_refines_example =
    operate_all_refines env nothing start operations (snapshot-IsStorable, (tt, (tt, tt)))
      (inl refl, refl, inl refl)

abbrev result : RuntimeInventoryReadResult
result = record { available = true; snapshot = some snapshot; stale = false; error_code = none }

abbrev filters : InventoryFilters
filters = record { q = ""; status = "consistent"; source = "shared"; target = "t" }

build_inventory_presentation-IsFiltered_example :
    IsFiltered
      (λ s. s)
      snapshot
      filters
      (build_inventory_presentation (λ s. s) result filters).assets
    × (length (build_inventory_presentation (λ s. s) result filters).assets
        ≤ (build_inventory_presentation (λ s. s) result filters).unique_skill_count)
build_inventory_presentation-IsFiltered_example =
    build_inventory_presentation-IsFiltered (λ s. s) result snapshot filters refl refl
