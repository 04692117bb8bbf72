-- ===== src/Repository/Records.antt =====
-- The immutable records of repository.py: plans and approvals, one file each, published once. A
-- directory is its files by name; what the operating system answers to a publication is an argument.
pub mod Publish
pub mod Roundtrip
use skill_governance_control.Base.{
  ℕ, zero, suc, ◌+◌, ◌-◌, String, ◌<>◌, Bool, true, false, not, ◌&&◌, ◌||◌, Option, none, some,
  List, [], ◌∷◌, ◌++◌, take, drop, length, Result, ok, err, os_error, Failure,
  governance_validation_error, stale_plan, policy_denied, state_corruption, ◌==◌, ◌!=◌, string_eq,
  list_eq, nat_eq, min, nat_eqb, if◌then◌else◌,
}
use skill_governance_control.Base.Bytes.{Bytes}
use skill_governance_control.Base.Text.{is_plan_id}
use skill_governance_control.Canonical.{Canon, canonical_json, canonical_digest}
use skill_governance_control.Models.{
  Plan, Approval, dump_plan, dump_unsigned_plan, dump_approval, plan_ok,
}

-- A directory that holds regular files.
abbrev pub Directory : Type 0
Directory = List (String × Bytes)

unfoldable pub read_file : String → Directory → Option Bytes
read_file name [] = none
read_file name ((k, v) ∷ d) = if name == k then some v else read_file name d

unfoldable pub put_file : String → Bytes → Directory → Directory
put_file name v d = (name, v) ∷ d

unfoldable pub remove_file : String → Directory → Directory
remove_file name [] = []
remove_file name ((k, v) ∷ d) =
    let rest = remove_file name d in if name == k then rest else (k, v) ∷ rest

-- The answers to one publication. `write` is the count that `os.write` returns at an offset, `none`
-- an `OSError`; the others say whether the call succeeds.
pub record PublishIo : Type 0 where
  pub directory : Bool
  pub open_temporary : Bool
  pub write : ℕ → Option ℕ
  pub fsync : Bool
  pub close : Bool
  pub link : Bool
  pub unlink : Bool
  pub fsync_directory : Bool

-- How a publication ends: `_RecordAlreadyExists`, `_RecordPersistenceFailed` or a return.
pub data Published : Type 0 where
  published already_exists persistence_failed : Published

-- `_write_all` from an offset: whether it returns, and the bytes that it wrote. It is given one round
-- for each byte of the payload, and one to leave the loop.
unfoldable pub write_all : ℕ → (ℕ → Option ℕ) → ℕ → Bytes → Bool × Bytes
write_all fuel write offset [] = (true, [])
write_all zero write offset (b ∷ bs) = (false, [])
write_all (suc fuel) write offset (b ∷ bs) = elim (write offset) [
  | none ↦ (false, [])
  | some zero ↦ (false, [])
  | some (suc n) ↦
      let (done, more) = write_all fuel write (offset + suc n) (drop (suc n) (b ∷ bs)) in
      (done, take (suc n) (b ∷ bs) ++ more)
]

-- `_remove_temporary`; a file that is gone is no error.
unfoldable pub remove_temporary : Bool → String → Directory → Bool × Directory
remove_temporary allowed name d = elim (read_file name d) [
  | none ↦ (true, d)
  | some _ ↦ if allowed then (true, remove_file name d) else (false, d)
]

-- The part of `_publish_exclusive_record` from `os.link` on: the temporary file is written and closed.
-- `os.link` makes the final name unless it is there already or the system refuses.
unfoldable pub publish_link :
    PublishIo → String → String → Bytes → Directory → Published × Directory
publish_link io final temporary payload d = elim io.link [
  | false ↦ (persistence_failed, (remove_temporary io.unlink temporary d).1)
  | true ↦ elim (read_file final d) [
    | some _ ↦
        let (removed, d') = remove_temporary io.unlink temporary d in
        (if removed then already_exists else persistence_failed, d')
    | none ↦
        let (removed, d') = remove_temporary io.unlink temporary (put_file final payload d) in
        (if removed && io.fsync_directory then published else persistence_failed, d')
  ]
]

-- `_publish_exclusive_record`; `temporary` is the fresh name of the temporary file.
unfoldable pub publish : PublishIo → String → String → Bytes → Directory → Published × Directory
publish io final temporary payload d = elim (read_file temporary d) [
  | some _ ↦ (persistence_failed, (remove_temporary io.unlink temporary d).1)
  | none ↦ elim io.open_temporary [
    | false ↦ (persistence_failed, (remove_temporary io.unlink temporary d).1)
    | true ↦
        let (written, bytes) = write_all (length payload) io.write 0 payload in
        let d' = put_file temporary bytes d in
        if written && io.fsync && io.close
        then publish_link io final temporary bytes d'
        else (persistence_failed, (remove_temporary io.unlink temporary d').1)
  ]
]

-- `f".{final_name}.{uuid4().hex}.tmp"`
unfoldable pub temporary_name : String → String → String
temporary_name final uuid = "." <> (final <> ("." <> (uuid <> ".tmp")))

-- The two directories of records under `state_root`; `none` is a directory that does not exist.
pub record RecordStore : Type 0 where
  pub plans : Option Directory
  pub approvals : Option Directory

abbrev pub files : Option Directory → Directory
files none = []
files (some d) = d

-- What the operating system answers to a reading.
pub data ReadIo : Type 0 where
  readable open_error read_error : ReadIo

abbrev pub invalid_plan {ℓ} : {A : Type ℓ} → Result A
invalid_plan = err (stale_plan "plan: invalid stored record")

abbrev pub plan_file : String → String
plan_file id = id <> ".json"

abbrev pub approval_file : String → String
approval_file plan_id = "approval-" <> plan_id <> ".json"

-- The `except` clauses of `create_plan` and `create_approval`.
abbrev plan_outcome : Published → Result (Unit {0})
plan_outcome published = ok tt
plan_outcome already_exists =
    err (governance_validation_error "plan: immutable record already exists")
plan_outcome persistence_failed = err (governance_validation_error "plan: persistence failed")

abbrev approval_outcome : Published → Result (Unit {0})
approval_outcome published = ok tt
approval_outcome already_exists = err (policy_denied "approval: terminal decision already recorded")
approval_outcome persistence_failed = err (policy_denied "approval: persistence failed")

module _ (c : Canon) where
  unfoldable pub plan_json : Plan → Bytes
  plan_json p = canonical_json c (dump_plan c.iso p)

  -- `canonical_digest(plan.model_dump(mode="json", exclude={"plan_digest"}))`
  unfoldable pub plan_digest_of : Plan → String
  plan_digest_of p = canonical_digest c (dump_unsigned_plan c.iso p)

  unfoldable pub approval_json : Approval → Bytes
  approval_json a = canonical_json c (dump_approval c.iso a)

  unfoldable pub create_plan :
      PublishIo → String → Plan → RecordStore → Result (Unit {0}) × RecordStore
  create_plan io uuid p s =
      if not (is_plan_id p.id)
      then (err (governance_validation_error "plan: invalid id"), s)
      else if not io.directory
      then (err (governance_validation_error "record storage unavailable"), s)
      else (let (outcome, d) =
            publish io (plan_file p.id) (temporary_name (plan_file p.id) uuid) (plan_json p)
              (files s.plans) in
          (plan_outcome outcome, record s { plans = some d }))

  unfoldable pub create_approval :
      PublishIo → String → Approval → RecordStore → Result (Unit {0}) × RecordStore
  create_approval io uuid a s =
      if not (is_plan_id a.plan_id) || a.id != ("approval-" <> a.plan_id)
      then (err (policy_denied "approval: invalid record"), s)
      else if not io.directory
      then (err (governance_validation_error "record storage unavailable"), s)
      else (let (outcome, d) =
            publish io (approval_file a.plan_id) (temporary_name (approval_file a.plan_id) uuid)
              (approval_json a) (files s.approvals) in
          (approval_outcome outcome, record s { approvals = some d }))

  -- The tests of `get_plan` on a record that was decoded.
  unfoldable pub plan_accepted : String → Bytes → Plan → Bool
  plan_accepted plan_id raw p =
      if p.id != plan_id
      then false
      else if plan_json p != raw
      then false
      else if p.plan_digest != plan_digest_of p
      then false
      else true

  unfoldable pub approval_accepted : String → Bytes → Approval → Bool
  approval_accepted plan_id raw a =
      not (a.id != ("approval-" <> plan_id) || a.plan_id != plan_id || approval_json a != raw)

  -- `get_plan`; `decode` is `json.loads` with the field checks of the `Plan` class.
  unfoldable pub get_plan : (Bytes → Option Plan) → ReadIo → String → RecordStore → Result Plan
  get_plan decode io plan_id s = if not (is_plan_id plan_id) then invalid_plan else elim io [
    | open_error ↦ invalid_plan
    | read_error ↦ invalid_plan
    | readable ↦ elim (read_file (plan_file plan_id) (files s.plans)) [
      | none ↦ invalid_plan
      | some raw ↦ elim (decode raw) [
        | none ↦ invalid_plan
        | some p ↦ if plan_ok p && plan_accepted plan_id raw p then ok p else invalid_plan
      ]
    ]
  ]

  unfoldable pub get_approval :
      (Bytes → Option Approval) → ReadIo → String → RecordStore → Result (Option Approval)
  get_approval decode io plan_id s =
      if not (is_plan_id plan_id)
      then err (policy_denied "approval: invalid stored record")
      else elim io [
        | open_error ↦ err (state_corruption "approval: invalid stored record")
        | read_error ↦ elim (read_file (approval_file plan_id) (files s.approvals)) [
          | none ↦ ok none
          | some _ ↦ err (state_corruption "approval: invalid stored record")
        ]
        | readable ↦ elim (read_file (approval_file plan_id) (files s.approvals)) [
          | none ↦ ok none
          | some raw ↦ elim (decode raw) [
            | none ↦ err (state_corruption "approval: invalid stored record")
            | some a ↦
                if approval_accepted plan_id raw a
                then ok (some a)
                else err (state_corruption "approval: invalid stored record")
          ]
        ]
      ]
