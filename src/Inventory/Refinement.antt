-- ===== src/Inventory/Refinement.antt =====
-- The service with the store is, for any sequence of refreshments and readings, an inventory that
-- remembers the snapshot that was saved last and how the last refreshment failed.
use skill_governance_control.Base.{
  true, false, Option, none, some, List, [], ◌∷◌, All, Result, ok, err, Failure, ◌≡◌, ◌⊎◌, refl,
  sym, ap, ap₂, ◌∙◌, subst, inl, inr, arith,
}
use skill_governance_control.Inventory.{
  RuntimeInventorySnapshot, RuntimeInventoryReadResult, RuntimeInventoryRefreshResult,
  RuntimeInventoryErrorCode, discovery_failed, persistence_failed, unavailable, invalid_snapshot,
  is_refresh_error, read_result_ok, refresh_result_ok, new_read_result, new_refresh_result,
  LastError, refresh_failed, refresh, read,
}
use skill_governance_control.Inventory.Store.{
  Directory, StoreEnv, SaveCalls, ReadCalls, sealed, save, read_store,
}
use skill_governance_control.Inventory.Store.Saving.{IsSaving, IsStorable, IsHolding, save-cases}
use skill_governance_control.Inventory.Store.Loading.{
  IsReading, no_snapshot, what_is_held, read_store-IsRead,
}

-- The service and the directory of its store.
pub record ServiceState : Type 0 where
  pub directory : Directory
  pub last_error : LastError

-- What is called, with what discovery answers and with the system's answers.
pub data Operation : Type 0 where
  refresh_now : Result RuntimeInventorySnapshot → SaveCalls → Operation
  read_now : ReadCalls → Operation

pub data Answer : Type 0 where
  refreshed : Result RuntimeInventoryRefreshResult → Answer
  was_read : Result RuntimeInventoryReadResult → Answer

-- The directory behind a refreshment.
unfoldable pub directory_after :
    StoreEnv → Result RuntimeInventorySnapshot → SaveCalls → Directory → Directory
directory_after env (err e) c d = d
directory_after env (ok s) c d = (save env c s d).1

-- `RuntimeInventoryService` with `RuntimeInventoryStore` as its store.
unfoldable pub operate : StoreEnv → Operation → ServiceState → Answer × ServiceState
operate env (refresh_now discovered c) st =
    let (result, last_error) =
      refresh discovered (λ s. (save env c s st.directory).0) st.last_error in
    (
      refreshed result,
      record { directory = directory_after env discovered c st.directory; last_error = last_error },
    )
operate env (read_now c) st = (was_read (read (read_store env c st.directory) st.last_error), st)

unfoldable pub operate_all : StoreEnv → List Operation → ServiceState → List Answer × ServiceState
operate_all env [] st = ([], st)
operate_all env (op ∷ ops) st =
    let (answer, st1) = operate env op st in
    let (answers, st2) = operate_all env ops st1 in (answer ∷ answers, st2)

-- The specification: the snapshot that was saved last, and the last failure.
pub record Remembered : Type 0 where
  pub saved : Option RuntimeInventorySnapshot
  pub last_error : LastError

abbrev pub failed_with : RuntimeInventoryErrorCode → RuntimeInventoryRefreshResult
failed_with code = record { success = false; snapshot = none; error_code = some code }

-- What a reading returns.
abbrev pub remembered_read : Remembered → RuntimeInventoryReadResult
remembered_read m = elim m.saved [
  | none ↦ no_snapshot unavailable
  | some s ↦ elim m.last_error [
    | none ↦ record { available = true; snapshot = some s; stale = false; error_code = none }
    | some code ↦ record {
      available = true;
      snapshot = some s;
      stale = true;
      error_code = some code;
    }
  ]
]

-- How an operation may go. A refreshment that cannot save leaves the snapshot that was there or the
-- new one, and that only if a call did not work; so does a reading that says invalid.
pub data IsStep (env : StoreEnv) : Remembered → Operation → Answer → Remembered → Type 0 where
  discovery_fails :
      {m : Remembered} {e : Failure} {c : SaveCalls}
      → IsStep env m
          (refresh_now (err e) c)
          (refreshed (ok (failed_with discovery_failed)))
          (record { saved = m.saved; last_error = some discovery_failed })
  stores :
      {m : Remembered} {s : RuntimeInventorySnapshot} {c : SaveCalls}
      → IsStep env m
          (refresh_now (ok s) c)
          (refreshed
            (ok (record { success = true; snapshot = some (sealed env s); error_code = none })))
          (record { saved = some (sealed env s); last_error = none })
  store_fails :
      {m : Remembered} {s : RuntimeInventorySnapshot} {c : SaveCalls}
      {saved : Option RuntimeInventorySnapshot}
      → (IsSaving c → ⊥)
      → (saved ≡ m.saved) ⊎ (saved ≡ some (sealed env s))
      → IsStep env m
          (refresh_now (ok s) c)
          (refreshed (ok (failed_with persistence_failed)))
          (record { saved = saved; last_error = some persistence_failed })
  reads :
      {m : Remembered} {c : ReadCalls}
      → IsStep env m (read_now c) (was_read (ok (remembered_read m))) m
  read_fails :
      {m : Remembered} {c : ReadCalls}
      → (IsReading c → ⊥)
      → IsStep env m (read_now c) (was_read (ok (no_snapshot invalid_snapshot))) m

pub data IsRun (env : StoreEnv)
    : Remembered → List Operation → List Answer → Remembered → Type 0 where
  done : {m : Remembered} → IsRun env m [] [] m
  next :
      {m m' m'' : Remembered} {op : Operation} {ops : List Operation} {a : Answer}
      {answers : List Answer}
      → IsStep env m op a m'
      → IsRun env m' ops answers m''
      → IsRun env m (op ∷ ops) (a ∷ answers) m''

-- The state stands for what is remembered.
abbrev pub IsRemembering : StoreEnv → Remembered → ServiceState → Type 0
IsRemembering env m st =
    IsHolding env m.saved st.directory
    × (st.last_error ≡ m.last_error)
    × ((m.last_error ≡ none) ⊎ (is_refresh_error m.last_error ≡ true))

-- What is discovered can be stored.
abbrev pub IsStorableIn : StoreEnv → Operation → Type 0
IsStorableIn env (refresh_now (ok s) c) = IsStorable env s
IsStorableIn env _ = Unit

abbrev IsStepped : StoreEnv → Remembered → Operation → Answer × ServiceState → Type 0
IsStepped env m op r = (m' : Remembered) × IsStep env m op r.0 m' × IsRemembering env m' r.1

-- The end of a refreshment, for what `save` returned and left.
abbrev saved_state :
    RuntimeInventorySnapshot
    → LastError
    → Directory
    → Result RuntimeInventorySnapshot
    → Answer × ServiceState
saved_state s last_error d r =
    let (result, last_error') = refresh (ok s) (λ x. r) last_error in
    (refreshed result, record { directory = d; last_error = last_error' })

refresh_refines :
    (env : StoreEnv) (m : Remembered) (st : ServiceState) (s : RuntimeInventorySnapshot)
    (c : SaveCalls)
    → IsStorable env s
    → IsRemembering env m st
    → IsStepped env m (refresh_now (ok s) c) (operate env (refresh_now (ok s) c) st)
unfolding operate directory_after refresh refresh_failed new_refresh_result refresh_result_ok
    is_refresh_error
refresh_refines env m st s c storable (held, same, valid) =
    let d : Directory = (save env c s st.directory).1 in
    let ends : (r : Result RuntimeInventorySnapshot)
        → (save env c s st.directory).0 ≡ r
        → IsStepped env m (refresh_now (ok s) c) (saved_state s st.last_error d r)
        → IsStepped env m (refresh_now (ok s) c) (operate env (refresh_now (ok s) c) st) =
      λ r e.
        subst (λ x. IsStepped env m (refresh_now (ok s) c) (saved_state s st.last_error d x))
          (sym e) in
    elim (save-cases env c s m.saved st.directory storable held) [
      | inl (e, held') ↦ ends (ok (sealed env s)) (ap (λ x. x.0) e) (
        record { saved = some (sealed env s); last_error = none },
        stores,
        (held', refl, inl refl),
      )
      | inr (failure, e, not_saving, inl old) ↦ ends (err failure) (ap (λ x. x.0) e) (
        record { saved = m.saved; last_error = some persistence_failed },
        store_fails not_saving (inl refl),
        (old, refl, inr refl),
      )
      | inr (failure, e, not_saving, inr new) ↦ ends (err failure) (ap (λ x. x.0) e) (
        record { saved = some (sealed env s); last_error = some persistence_failed },
        store_fails not_saving (inr refl),
        (new, refl, inr refl),
      )
    ]

-- What `read` of the service makes of what the store returns.
read-remembered :
    (m : Remembered)
    → (m.last_error ≡ none) ⊎ (is_refresh_error m.last_error ≡ true)
    → read (ok (what_is_held m.saved)) m.last_error ≡ ok (remembered_read m)
unfolding read new_read_result read_result_ok
read-remembered m valid = read_held m.saved m.last_error valid
  where
    read_held :
        (saved : Option RuntimeInventorySnapshot) (last_error : LastError)
        → (last_error ≡ none) ⊎ (is_refresh_error last_error ≡ true)
        → read (ok (what_is_held saved)) last_error
          ≡ ok (remembered_read (record { saved = saved; last_error = last_error }))
    read_held none last_error v = refl
    read_held (some s) none v = refl
    read_held (some s) (some code) (inl v) = ground arith
    read_held (some s) (some code) (inr v) = ground arith

read_refines :
    (env : StoreEnv) (m : Remembered) (st : ServiceState) (c : ReadCalls)
    → IsRemembering env m st
    → IsStepped env m (read_now c) (operate env (read_now c) st)
unfolding operate read
read_refines env m st c (held, same, valid) =
    elim (read_store-IsRead env c m.saved st.directory held) [
      | inl e ↦
          let r : read (read_store env c st.directory) st.last_error ≡ ok (remembered_read m) =
            ap₂ read e same ∙ read-remembered m valid in
          (m, rw r reads, (held, same, valid))
      | inr (e, not_reading) ↦
          let r : read (read_store env c st.directory) st.last_error
              ≡ ok (no_snapshot invalid_snapshot) =
            ap (λ x. read x st.last_error) e in
          (m, rw r (read_fails not_reading), (held, same, valid))
    ]

operate_refines :
    (env : StoreEnv) (m : Remembered) (st : ServiceState) (op : Operation)
    → IsStorableIn env op
    → IsRemembering env m st
    → IsStepped env m op (operate env op st)
unfolding operate directory_after refresh refresh_failed new_refresh_result refresh_result_ok
    is_refresh_error
operate_refines env m st (refresh_now (ok s) c) storable h = refresh_refines env m st s c storable h
operate_refines env m st (refresh_now (err e) c) storable (held, same, valid) = (
  record { saved = m.saved; last_error = some discovery_failed },
  discovery_fails,
  (held, refl, inr refl),
)
operate_refines env m st (read_now c) storable h = read_refines env m st c h

-- Any sequence of refreshments and readings answers as a run of the specification does, from a state
-- that stands for what is remembered, if what is discovered can be stored: a reading returns the
-- snapshot that was saved last, stale exactly if the last refreshment failed, and a refreshment
-- that fails to save leaves that snapshot or the new one.
pub operate_all_refines :
    (env : StoreEnv) (m : Remembered) (st : ServiceState) (ops : List Operation)
    → All (IsStorableIn env) ops
    → IsRemembering env m st
    → (m' : Remembered) × IsRun env m ops (operate_all env ops st).0 m'
      × IsRemembering env m' (operate_all env ops st).1
unfolding operate_all
operate_all_refines env m st [] storable h = (m, done, h)
operate_all_refines env m st (op ∷ ops) (storable, rest) h =
    let (m1, step, h1) = operate_refines env m st op storable h in
    let (m2, run, h2) = operate_all_refines env m1 (operate env op st).1 ops rest h1 in
    (m2, next step run, h2)
