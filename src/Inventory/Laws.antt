-- ===== src/Inventory/Laws.antt =====
-- The inventory service never fails: what the collaborators raise becomes a result, and a snapshot is
-- stale exactly after a refreshment that failed.
use skill_governance_control.Base.{
  true, false, none, some, Result, ok, err, Failure, ◌≡◌, refl, arith, ◌⊎◌, inl, inr, Result-cases,
  Bool-cases, ok-injective, ap,
}
use skill_governance_control.Inventory.{
  RuntimeInventoryErrorCode, discovery_failed, persistence_failed, RuntimeInventorySnapshot,
  RuntimeInventoryReadResult, RuntimeInventoryRefreshResult, is_refresh_error, is_read_error,
  read_result_ok, refresh_result_ok, new_read_result, new_refresh_result, LastError, refresh_failed,
  refresh, read,
}

-- How `refresh` answers its collaborators: with the snapshot that the store returned, or with no
-- snapshot and the error of the one that raised.
pub data IsAnswer (discovered : Result RuntimeInventorySnapshot)
    (save : RuntimeInventorySnapshot → Result RuntimeInventorySnapshot)
    (r : RuntimeInventoryRefreshResult) : Type 0 where
  stored_anew :
      (snapshot stored : RuntimeInventorySnapshot)
      → discovered ≡ ok snapshot
      → save snapshot ≡ ok stored
      → r ≡ record { success = true; snapshot = some stored; error_code = none }
      → IsAnswer discovered save r
  not_discovered :
      (failure : Failure)
      → discovered ≡ err failure
      → r ≡ record { success = false; snapshot = none; error_code = some discovery_failed }
      → IsAnswer discovered save r
  not_saved :
      (snapshot : RuntimeInventorySnapshot) (failure : Failure)
      → discovered ≡ ok snapshot
      → save snapshot ≡ err failure
      → r ≡ record { success = false; snapshot = none; error_code = some persistence_failed }
      → IsAnswer discovered save r

-- `refresh` always returns a result, which passes its validator, and its error becomes the last
-- error. If both collaborators answer, it is a success with the snapshot that the store returned and
-- no error; if the discovery raises, a failure with no snapshot and `discovery_failed`; if only the
-- store raises, a failure with no snapshot and `persistence_failed`.
pub refresh-total :
    (discovered : Result RuntimeInventorySnapshot)
    (save : RuntimeInventorySnapshot → Result RuntimeInventorySnapshot) (last_error : LastError)
    → (r : RuntimeInventoryRefreshResult) × (refresh discovered save last_error
        ≡ (ok r, r.error_code))
      × (refresh_result_ok r ≡ true)
      × IsAnswer discovered save r
unfolding refresh refresh_failed new_refresh_result refresh_result_ok is_refresh_error
refresh-total (err e) save last_error = (_, refl, refl, not_discovered e refl refl)
refresh-total (ok snapshot) save last_error = elim (Result-cases (save snapshot)) [
  | inl (stored, e) ↦ (
    record { success = true; snapshot = some stored; error_code = none },
    ground arith,
    refl,
    stored_anew snapshot stored refl e refl,
  )
  | inr (failure, e) ↦ (
    record { success = false; snapshot = none; error_code = some persistence_failed },
    ground arith,
    refl,
    not_saved snapshot failure refl e refl,
  )
]

-- What the last error can be: nothing, or what a refreshment that failed left.
pub data IsReachable : LastError → Type 0 where
  initial : IsReachable none
  refreshed :
      (discovered : Result RuntimeInventorySnapshot)
      (save : RuntimeInventorySnapshot → Result RuntimeInventorySnapshot) (last_error : LastError)
      → IsReachable last_error
      → IsReachable (refresh discovered save last_error).1

refresh_error-of_refresh :
    (discovered : Result RuntimeInventorySnapshot)
    (save : RuntimeInventorySnapshot → Result RuntimeInventorySnapshot) (last_error : LastError)
    → ((refresh discovered save last_error).1 ≡ none)
      ⊎ (is_refresh_error (refresh discovered save last_error).1 ≡ true)
unfolding refresh refresh_failed is_refresh_error
refresh_error-of_refresh discovered save last_error = elim (Result-cases discovered) [
  | inl (snapshot, d) ↦ elim (Result-cases (save snapshot)) [
    | inl (stored, e) ↦ inl (ground arith)
    | inr (failure, e) ↦ inr (ground arith)
  ]
  | inr (failure, d) ↦ inr (ground arith)
]

reachable-error :
    (last_error : LastError)
    → IsReachable last_error
    → (last_error ≡ none) ⊎ (is_refresh_error last_error ≡ true)
reachable-error _ initial = inl refl
reachable-error _ (refreshed discovered save last_error _) =
    refresh_error-of_refresh discovered save last_error

-- A snapshot that the store returns after a refreshment that failed.
stale_read :
    (s : RuntimeInventoryReadResult) (code : RuntimeInventoryErrorCode)
    → read_result_ok s ≡ true
    → s.available ≡ true
    → is_refresh_error (some code) ≡ true
    → let r : RuntimeInventoryReadResult = record {
      available = true;
      snapshot = s.snapshot;
      stale = true;
      error_code = some code;
    } in
      (read (ok s) (some code) ≡ ok r) × (read_result_ok r ≡ true)
unfolding read new_read_result read_result_ok
stale_read s code valid available failed = (ground arith, ground arith)

-- In every state that refreshments lead to, `read` returns a result that passes its validator,
-- whatever the store raises or returns, if what the store returns passes it. If the store has a
-- snapshot and the last refreshment failed, the result has that snapshot and is stale.
pub read-total :
    (stored : Result RuntimeInventoryReadResult) (last_error : LastError)
    → IsReachable last_error
    → ((s : RuntimeInventoryReadResult) → stored ≡ ok s → read_result_ok s ≡ true)
    → (r : RuntimeInventoryReadResult) × (read stored last_error ≡ ok r)
      × (read_result_ok r ≡ true)
      × ((s : RuntimeInventoryReadResult)
          → stored ≡ ok s
          → s.available ≡ true
          → (code : RuntimeInventoryErrorCode) → last_error ≡ some code
          → (r.snapshot ≡ s.snapshot) × (r.stale ≡ true) × (r.error_code ≡ some code))
unfolding read new_read_result read_result_ok is_read_error
read-total (err e) last_error reached valid = (_, refl, refl, λ s h. ground arith)
read-total (ok s) none reached valid =
    (s, ground arith, valid s refl, λ s' h a code n. ground arith)
read-total (ok s) (some code) reached valid = elim (Bool-cases s.available) [
  | inl a ↦
      let failed : is_refresh_error (some code) ≡ true =
        ground (arith, reachable-error (some code) reached) in
      let (e, k) = stale_read s code (valid s refl) a failed in
      (_, e, k, λ s' h a' code' n. (ap (λ t. t.snapshot) (ok-injective h), refl, n))
  | inr a ↦ (s, ground arith, valid s refl, λ s' h a' code' n. ground (arith, ok-injective h))
]
