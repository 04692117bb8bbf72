-- ===== src/Inventory/Store/Loading.antt =====
-- What `read` returns for what the directory holds.
use skill_governance_control.Base.{
  take-length, ℕ, suc, ◌≤◌, true, false, ◌&&◌, Option, none, some, length, ltb, Result, ok,
  Bool-cases, Option-cases, string_eq, option_eq, ◌≡◌, ◌⊎◌, refl, sym, ap, ◌∙◌, subst, inl, inr,
  arith,
}
use skill_governance_control.Base.Bytes.{Bytes}
use skill_governance_control.Base.Reading.{read_limited, read_chunks-take, read_chunks_total}
use skill_governance_control.Inventory.{
  RuntimeInventorySnapshot, RuntimeInventoryReadResult, RuntimeInventoryErrorCode, unavailable,
  invalid_snapshot, new_read_result, read_result_ok, is_read_error, is_refresh_error,
}
use skill_governance_control.Inventory.Store.{
  Folder, Directory, missing, no_directory, folder, StoreEnv, ReadCalls, content_digest, payload_of,
  unavailable_result, accept_snapshot, read_content, read_in, read_store,
}
use skill_governance_control.Inventory.Store.Saving.{
  IsKept, IsHolding, folder-injective, no_holding,
}

unavailable_result-ok :
    (code : RuntimeInventoryErrorCode)
    → is_read_error (some code) ≡ true
    → unavailable_result code
      ≡ ok (record { available = false; snapshot = none; stale = false; error_code = some code })
unfolding unavailable_result new_read_result read_result_ok
unavailable_result-ok code h = ground arith

-- Every call of `read` works.
pub IsReading : ReadCalls → Type 0
IsReading c =
    ((c.lstat && c.open_directory && c.stat && c.open_snapshot) ≡ true)
    × ((i : ℕ) → (n : ℕ) × (c.answers i ≡ some n))

abbrev pub no_snapshot : RuntimeInventoryErrorCode → RuntimeInventoryReadResult
no_snapshot code = record {
  available = false;
  snapshot = none;
  stale = false;
  error_code = some code;
}

-- What is read from a directory that holds a snapshot or none.
abbrev pub what_is_held : Option RuntimeInventorySnapshot → RuntimeInventoryReadResult
what_is_held none = no_snapshot unavailable
what_is_held (some s) = record {
  available = true;
  snapshot = some s;
  stale = false;
  error_code = none;
}

abbrev pub IsRead :
    ReadCalls → RuntimeInventoryReadResult → Result RuntimeInventoryReadResult → Type 0
IsRead c expected r =
    (r ≡ ok expected) ⊎ ((r ≡ ok (no_snapshot invalid_snapshot)) × (IsReading c → ⊥))

invalid-ok : unavailable_result invalid_snapshot ≡ ok (no_snapshot invalid_snapshot)
unfolding is_read_error
invalid-ok = unavailable_result-ok invalid_snapshot refl

accept_snapshot-ok :
    (env : StoreEnv) (s : RuntimeInventorySnapshot)
    → s.snapshot_digest ≡ some (content_digest env s)
    → accept_snapshot env s ≡ ok (what_is_held (some s))
unfolding accept_snapshot new_read_result read_result_ok is_refresh_error
accept_snapshot-ok env s h = ground arith

-- The bytes are those of the file, or a call did not work.
read_limited-cases :
    (env : StoreEnv) (c : ReadCalls) (content : Bytes)
    → length content ≤ env.max_snapshot_bytes
    → (read_limited c.answers (suc env.max_snapshot_bytes) content ≡ some content)
      ⊎ ((read_limited c.answers (suc env.max_snapshot_bytes) content ≡ none) × (IsReading c → ⊥))
unfolding read_limited IsReading
read_limited-cases env c content fits =
    let limit : ℕ = suc env.max_snapshot_bytes in
    elim (Option-cases (read_limited c.answers limit content)) [
      | inl e ↦ inr (
        e,
        λ k.
            let (bytes, e') =
              read_chunks_total (suc limit) c.answers limit 0 content k.1 (omega arith) in
            let broken : none ≡ some bytes = sym e ∙ e' in ground arith,
      )
      | inr (bytes, e) ↦
          let same = read_chunks-take (suc limit) c.answers limit 0 content bytes e in
          inl (e ∙ ap some (same ∙ take-length limit content (omega arith)))
    ]

read_content-IsRead :
    (env : StoreEnv) (c : ReadCalls) (s : RuntimeInventorySnapshot)
    → IsKept env s
    → IsRead c (what_is_held (some s)) (read_content env c (payload_of env s))
unfolding read_content IsReading IsKept
read_content-IsRead env c s (parses, digest, fits) = elim (Bool-cases c.open_snapshot) [
  | inr e ↦ inr (ground (arith, invalid-ok), λ k. ground (arith, k.0))
  | inl e ↦ elim (read_limited-cases env c (payload_of env s) fits) [
    | inl all ↦
        let within : ltb env.max_snapshot_bytes (length (payload_of env s)) ≡ false =
          ground arith in
        inl (ground (arith, accept_snapshot-ok env s digest))
    | inr (none_read, not_reading) ↦ inr (ground (arith, invalid-ok), not_reading)
  ]
]

unavailable-ok : unavailable_result unavailable ≡ ok (no_snapshot unavailable)
unfolding is_read_error
unavailable-ok = unavailable_result-ok unavailable refl

read_in-IsRead :
    (env : StoreEnv) (c : ReadCalls) (saved : Option RuntimeInventorySnapshot) (f : Folder)
    → IsHolding env saved (folder f)
    → IsRead c (what_is_held saved) (read_in env c f.snapshot)
unfolding read_in
read_in-IsRead env c none f (inl e) = ground arith
read_in-IsRead env c none f (inr (g, e, empty)) =
    inl (rw (ap (λ x. x.snapshot) (folder-injective f g e) ∙ empty) unavailable-ok)
read_in-IsRead env c (some s) f (kept, (g, e, full)) =
    rw (ap (λ x. x.snapshot) (folder-injective f g e) ∙ full) (read_content-IsRead env c s kept)

found_directory :
    (env : StoreEnv) (c : ReadCalls) (saved : Option RuntimeInventorySnapshot) (d : Directory)
    → IsHolding env saved d
    → c.lstat ≡ true
    → IsRead c (what_is_held saved) (read_store env c d)
unfolding read_store IsReading
found_directory env c none missing h e = inl (ground (arith, unavailable-ok))
found_directory env c (some s) missing (kept, (g, q, full)) e = ground arith
found_directory env c saved no_directory h e = elim (no_holding env saved h) [ ]
found_directory env c saved (folder f) h e = elim (Bool-cases (c.open_directory && c.stat)) [
  | inl opens ↦
      let same : read_store env c (folder f) ≡ read_in env c f.snapshot = ground arith in
      subst (IsRead c (what_is_held saved)) (sym same) (read_in-IsRead env c saved f h)
  | inr fails ↦ inr (ground (arith, invalid-ok), λ k. ground (arith, k.0))
]

-- What `read` returns, for a directory that holds a snapshot or none: that, or that the snapshot is
-- invalid, and then some call did not work.
pub read_store-IsRead :
    (env : StoreEnv) (c : ReadCalls) (saved : Option RuntimeInventorySnapshot) (d : Directory)
    → IsHolding env saved d
    → IsRead c (what_is_held saved) (read_store env c d)
unfolding read_store IsReading
read_store-IsRead env c saved d h = elim (Bool-cases c.lstat) [
  | inl e ↦ found_directory env c saved d h e
  | inr e ↦ inr (ground (arith, invalid-ok), λ k. ground (arith, k.0))
]
