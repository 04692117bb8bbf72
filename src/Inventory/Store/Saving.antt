-- ===== src/Inventory/Store/Saving.antt =====
-- What `save` leaves in the directory.
use skill_governance_control.Base.{
  ℕ, zero, suc, ◌+◌, ◌≤◌, Bool, true, false, ◌&&◌, Option, none, some, [], ◌∷◌, ◌++◌, length, take,
  drop, ltb, take-append-drop, length-drop, Result, ok, err, Failure, Bool-cases, Option-cases,
  string_eq, option_eq, if◌then◌else◌, ◌≡◌, ◌⊎◌, refl, sym, ap, ◌∙◌, subst, inl, inr, arith,
}
use skill_governance_control.Base.Bytes.{Bytes}
use skill_governance_control.Base.Text.{is_digest}
use skill_governance_control.Inventory.{RuntimeInventorySnapshot}
use skill_governance_control.Inventory.Dump.{dump_content, snapshot_fields}
use skill_governance_control.Inventory.Store.{
  Stored, absent, regular, Folder, Directory, missing, no_directory, folder, StoreEnv, SaveCalls,
  content_digest, sealed, payload_of, write_all, is_safe_target, is_replaced, is_opened,
  replace_snapshot, save_in, save_payload, save, store_error,
}

write_all-done :
    (fuel : ℕ) (writes : ℕ → Option ℕ) (offset : ℕ) (payload : Bytes)
    → (write_all fuel writes offset payload).1 ≡ true
    → (write_all fuel writes offset payload).0 ≡ payload
unfolding write_all
write_all-done fuel writes offset [] h = refl
write_all-done zero writes offset (b ∷ rest) h = ground arith
write_all-done (suc fuel) writes offset (b ∷ rest) h = elim (Option-cases (writes offset)) [
  | inl e ↦ let broken : false ≡ true = rw (e, write_all) at h in ground arith
  | inr (n, e) ↦
      let next : ℕ = offset + suc (length (take n rest)) in
      rw (e, write_all)
        (ap (λ l. b ∷ take n rest ++ l)
            (write_all-done fuel writes next (drop n rest) (rw (e, write_all) at h))
          ∙ ap (λ l. b ∷ l) (take-append-drop n rest))
]

-- With a round for each byte, the loop ends with everything written, if every `os.write` works.
write_all_ends :
    (fuel : ℕ) (writes : ℕ → Option ℕ) (offset : ℕ) (payload : Bytes)
    → ((i : ℕ) → (n : ℕ) × (writes i ≡ some n))
    → length payload ≤ fuel
    → (write_all fuel writes offset payload).1 ≡ true
unfolding write_all
write_all_ends fuel writes offset [] works h = refl
write_all_ends zero writes offset (b ∷ rest) works h = ground arith
write_all_ends (suc fuel) writes offset (b ∷ rest) works h =
    let (n, e) = works offset in
    let next : ℕ = offset + suc (length (take n rest)) in
    rw (e, write_all)
      (write_all_ends fuel writes next (drop n rest) works (omega (arith, length-drop n rest)))

-- Every call of `save` works.
unfoldable pub all_flags : SaveCalls → Bool
all_flags c =
    c.mkdir && c.open_directory && c.stat_before && c.open_temporary && c.fsync_temporary
    && c.close_temporary && c.stat_again && c.replace && c.fsync_directory

pub IsSaving : SaveCalls → Type 0
IsSaving c = (all_flags c ≡ true) × ((i : ℕ) → (n : ℕ) × (c.writes i ≡ some n))

-- How `save` can end, for what stood under the name before: it is done with the payload there, or it
-- raised, with one of the two there.
abbrev pub IsOutcome : SaveCalls → Bytes → Stored → Bool → Stored → Type 0
IsOutcome c payload old done new =
    ((done ≡ true) × (new ≡ regular payload))
    ⊎ ((done ≡ false) × (IsSaving c → ⊥) × ((new ≡ old) ⊎ (new ≡ regular payload)))

replaced_written :
    (c : SaveCalls) (written : Bool) (old : Stored)
    → is_replaced c written old ≡ true
    → written ≡ true
unfolding is_replaced
replaced_written c written old h = ground arith

not_replaced :
    (c : SaveCalls) (written : Bool) (old : Stored)
    → is_replaced c written old ≡ false
    → is_safe_target old ≡ true
    → written ≡ true
    → all_flags c ≡ true
    → ⊥
unfolding is_replaced all_flags
not_replaced c written old h safe done works = ground arith

replace_snapshot-IsOutcome :
    (c : SaveCalls) (payload : Bytes) (f : Folder)
    → is_safe_target f.snapshot ≡ true
    → IsOutcome c payload f.snapshot
        (replace_snapshot c payload f).0
        (replace_snapshot c payload f).1.snapshot
unfolding replace_snapshot IsSaving all_flags
replace_snapshot-IsOutcome c payload f safe =
    let written : Bool = (write_all (length payload) c.writes 0 payload).1 in
    elim (Bool-cases (is_replaced c written f.snapshot)) [
      | inl works ↦
          let done : written ≡ true = replaced_written c written f.snapshot works in
          let same = write_all-done (length payload) c.writes 0 payload done in
          elim (Bool-cases c.fsync_directory) [
            | inl e ↦ inl (rw (works, replace_snapshot) (e, ap regular same))
            | inr e ↦ inr (
                rw (works, replace_snapshot) (e, (λ k. ground (arith, k.0)), inr (ap regular same)))
          ]
      | inr fails ↦
          let not_saving : IsSaving c → ⊥ = λ k.
            not_replaced c written f.snapshot fails safe
              (write_all_ends (length payload) c.writes 0 payload k.1 (omega arith)) k.0 in
          elim (Bool-cases c.unlink) [
            | inl e ↦ inr (rw (fails, e, replace_snapshot) (refl, not_saving, inl refl))
            | inr e ↦ inr (rw (fails, e, replace_snapshot) (refl, not_saving, inl refl))
          ]
    ]

save_in-IsOutcome :
    (c : SaveCalls) (payload : Bytes) (f : Folder)
    → is_safe_target f.snapshot ≡ true
    → IsOutcome c payload f.snapshot (save_in c payload f).0 (save_in c payload f).1.snapshot
unfolding save_in is_opened IsSaving all_flags
save_in-IsOutcome c payload f safe = elim (Bool-cases (is_opened c f.snapshot)) [
  | inl e ↦ rw (e, save_in) (replace_snapshot-IsOutcome c payload f safe)
  | inr e ↦ inr (rw (e, save_in) (refl, (λ k. ground (arith, k.0)), inl refl))
]

-- What a snapshot in the store must be to be read again.
unfoldable pub IsKept : StoreEnv → RuntimeInventorySnapshot → Type 0
IsKept env s =
    (env.parse (payload_of env s) ≡ some s)
    × (s.snapshot_digest ≡ some (content_digest env s))
    × (length (payload_of env s) ≤ env.max_snapshot_bytes)

-- What a snapshot must be to be stored: the validation accepts it, JSON gives it back, and it is not
-- too large.
unfoldable pub IsStorable : StoreEnv → RuntimeInventorySnapshot → Type 0
IsStorable env s =
    (is_digest (content_digest env s) ≡ true)
    × (env.parse (payload_of env (sealed env s)) ≡ some (sealed env s))
    × (length (payload_of env (sealed env s)) ≤ env.max_snapshot_bytes)

sealed-IsKept :
    (env : StoreEnv) (s : RuntimeInventorySnapshot) → IsStorable env s → IsKept env (sealed env s)
unfolding IsKept IsStorable sealed content_digest dump_content snapshot_fields
sealed-IsKept env s (valid, parses, fits) = (parses, refl, fits)

-- The payload stands under the name of the snapshot.
abbrev pub IsWritten : Bytes → Directory → Type 0
IsWritten payload d = (f : Folder) × (d ≡ folder f) × (f.snapshot ≡ regular payload)

-- The snapshot that the directory holds, if it holds one.
abbrev pub IsHolding : StoreEnv → Option RuntimeInventorySnapshot → Directory → Type 0
IsHolding env none d = (d ≡ missing) ⊎ ((f : Folder) × (d ≡ folder f) × (f.snapshot ≡ absent))
IsHolding env (some s) d = IsKept env s × IsWritten (payload_of env s) d

-- How `save` can end in the directory.
abbrev IsEnd :
    StoreEnv → SaveCalls → Bytes → Option RuntimeInventorySnapshot → Bool → Directory → Type 0
IsEnd env c payload saved done d =
    ((done ≡ true) × IsWritten payload d)
    ⊎ ((done ≡ false) × (IsSaving c → ⊥) × (IsHolding env saved d ⊎ IsWritten payload d))

save_in-IsEnd :
    (env : StoreEnv) (c : SaveCalls) (payload : Bytes) (saved : Option RuntimeInventorySnapshot)
    (f : Folder)
    → is_safe_target f.snapshot ≡ true
    → ((f' : Folder) → f'.snapshot ≡ f.snapshot → IsHolding env saved (folder f'))
    → IsEnd env c payload saved (save_in c payload f).0 (folder (save_in c payload f).1)
save_in-IsEnd env c payload saved f safe kept = elim (save_in-IsOutcome c payload f safe) [
  | inl (done, new) ↦ inl (done, ((save_in c payload f).1, refl, new))
  | inr (failed, not_saving, inl old) ↦
      inr (failed, not_saving, inl (kept (save_in c payload f).1 old))
  | inr (failed, not_saving, inr new) ↦
      inr (failed, not_saving, inr ((save_in c payload f).1, refl, new))
]

pub folder-injective : (f g : Folder) → folder f ≡ folder g → f ≡ g
folder-injective f g h = ground arith

-- A directory that holds a snapshot or none has a safe target, and what stands there is all of it.
IsHolding-folder :
    (env : StoreEnv) (saved : Option RuntimeInventorySnapshot) (f : Folder)
    → IsHolding env saved (folder f)
    → (is_safe_target f.snapshot ≡ true)
      × ((f' : Folder) → f'.snapshot ≡ f.snapshot → IsHolding env saved (folder f'))
unfolding is_safe_target
IsHolding-folder env none f (inl e) = ground arith
IsHolding-folder env none f (inr (g, e, empty)) =
    let empty' : f.snapshot ≡ absent = ap (λ x. x.snapshot) (folder-injective f g e) ∙ empty in
    (rw empty' refl, λ f' same. inr (f', refl, same ∙ empty'))
IsHolding-folder env (some s) f (kept, (g, e, full)) =
    let full' : f.snapshot ≡ regular (payload_of env s) =
      ap (λ x. x.snapshot) (folder-injective f g e) ∙ full in
    (rw full' refl, λ f' same. (kept, (f', refl, same ∙ full')))

IsHolding-new_folder :
    (env : StoreEnv) (saved : Option RuntimeInventorySnapshot) (f : Folder)
    → IsHolding env saved missing
    → f.snapshot ≡ absent
    → IsHolding env saved (folder f)
IsHolding-new_folder env none f h empty = inr (f, refl, empty)
IsHolding-new_folder env (some s) f (kept, (g, e, full)) empty = ground arith

pub no_holding :
    (env : StoreEnv) (saved : Option RuntimeInventorySnapshot)
    → IsHolding env saved no_directory
    → ⊥
no_holding env none (inl e) = ground arith
no_holding env none (inr (g, e, empty)) = ground arith
no_holding env (some s) (kept, (g, e, full)) = ground arith

made_directory :
    (env : StoreEnv) (c : SaveCalls) (payload : Bytes) (saved : Option RuntimeInventorySnapshot)
    (d : Directory)
    → IsHolding env saved d
    → c.mkdir ≡ true
    → IsEnd env c payload saved (save_payload c payload d).0 (save_payload c payload d).1
unfolding save_payload is_safe_target
made_directory env c payload saved missing h made =
    let f : Folder = record { snapshot = absent; temporaries = [] } in
    let (done, f') = save_in c payload f in
    subst (λ (r : Bool × Directory). IsEnd env c payload saved r.0 r.1)
      (sym (ap (λ b. if b then (done, folder f') else (false, missing)) made))
      (save_in-IsEnd env c payload saved f refl (λ g same. IsHolding-new_folder env saved g h same))
made_directory env c payload saved no_directory h made = elim (no_holding env saved h) [ ]
made_directory env c payload saved (folder f) h made =
    let (safe, kept) = IsHolding-folder env saved f h in
    let (done, f') = save_in c payload f in
    subst (λ (r : Bool × Directory). IsEnd env c payload saved r.0 r.1)
      (sym (ap (λ b. if b then (done, folder f') else (false, folder f)) made))
      (save_in-IsEnd env c payload saved f safe kept)

save_payload-IsEnd :
    (env : StoreEnv) (c : SaveCalls) (payload : Bytes) (saved : Option RuntimeInventorySnapshot)
    (d : Directory)
    → IsHolding env saved d
    → IsEnd env c payload saved (save_payload c payload d).0 (save_payload c payload d).1
unfolding save_payload IsSaving all_flags
save_payload-IsEnd env c payload saved d h = elim (Bool-cases c.mkdir) [
  | inl made ↦ made_directory env c payload saved d h made
  | inr failed ↦ inr (rw (failed, save_payload) (refl, (λ k. ground (arith, k.0)), inl h))
]

abbrev outcome :
    RuntimeInventorySnapshot → Bool × Directory → Result RuntimeInventorySnapshot × Directory
outcome stored (done, d) = (if done then ok stored else store_error, d)

save_storable :
    (env : StoreEnv) (c : SaveCalls) (s : RuntimeInventorySnapshot) (d : Directory)
    → IsStorable env s
    → save env c s d ≡ outcome (sealed env s) (save_payload c (payload_of env (sealed env s)) d)
unfolding save IsStorable
save_storable env c s d (valid, parses, fits) =
    let within : ltb env.max_snapshot_bytes (length (payload_of env (sealed env s))) ≡ false =
      ground arith in
    rw (valid, within, save) refl

-- `save` on a directory that is missing, has no snapshot, or holds one that can be read back, for a
-- snapshot that can be stored: it returns the sealed snapshot, which the directory then holds, or it
-- raises, some call did not work, and the directory holds what it held or the sealed snapshot, never
-- anything else.
pub save-cases :
    (env : StoreEnv) (c : SaveCalls) (s : RuntimeInventorySnapshot)
    (saved : Option RuntimeInventorySnapshot) (d : Directory)
    → IsStorable env s
    → IsHolding env saved d
    → ((save env c s d ≡ (ok (sealed env s), (save env c s d).1))
        × IsHolding env (some (sealed env s)) (save env c s d).1)
      ⊎ ((e : Failure) × (save env c s d ≡ (err e, (save env c s d).1))
          × (IsSaving c → ⊥)
          × (IsHolding env saved (save env c s d).1
              ⊎ IsHolding env (some (sealed env s)) (save env c s d).1))
save-cases env c s saved d storable held =
    let stored : RuntimeInventorySnapshot = sealed env s in
    let kept = sealed-IsKept env s storable in
    let r = save_payload c (payload_of env stored) d in
    let same = save_storable env c s d storable in
    elim (save_payload-IsEnd env c (payload_of env stored) saved d held) [
      | inl (done, written) ↦
          let e : save env c s d ≡ (ok stored, r.1) =
            same ∙ ap (λ b. outcome stored (b, r.1)) done in
          inl (rw e (refl, (kept, written)))
      | inr (failed, not_saving, left) ↦
          let e : save env c s d ≡ (store_error, r.1) =
            same ∙ ap (λ b. outcome stored (b, r.1)) failed in
          inr (
            rw e (
              _,
              refl,
              not_saving,
              elim left [ inl old ↦ inl old | inr written ↦ inr (kept, written) ],
            ))
    ]
