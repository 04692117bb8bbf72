-- ===== src/Inventory/Discovery/Opened.antt =====
-- `_read_regular_file`: a file that is opened without following a link, and read up to a limit.
use skill_governance_control.Base.{
  ℕ, suc, String, Bool, true, false, Option, none, some, length, ltb, string_eq, if◌then◌else◌,
  list_eq, nat_eq,
}
use skill_governance_control.Base.Bytes.{Bytes}
use skill_governance_control.Base.Reading.{ReadAnswers, read_limited}

-- What the system answers to `os.open` with `O_NOFOLLOW` and to the calls on the descriptor;
-- `is_regular` is `none` where `os.fstat` raises.
pub record OpenFile : Type 0 where
  pub is_regular : Option Bool
  pub content : Bytes
  pub answers : ReadAnswers
  pub closes : Bool

pub data FileAnswer : Type 0 where
  refused : FileAnswer
  opened : OpenFile → FileAnswer

-- The content, or why there is none.
pub data ReadResult : Type 0 where
  content : Bytes → ReadResult
  failure : String → ReadResult

abbrev pub limit_exceeded : String
limit_exceeded = "read limit exceeded"

-- The part of `_read_regular_file` in its `try`.
unfoldable pub read_opened : OpenFile → ℕ → ReadResult
read_opened f max_bytes = elim f.is_regular [
  | none ↦ failure "file could not be read safely"
  | some false ↦ failure "file is not a regular file"
  | some true ↦ elim (read_limited f.answers (suc max_bytes) f.content) [
    | none ↦ failure "file could not be read safely"
    | some candidate ↦
        if ltb max_bytes (length candidate) then failure limit_exceeded else content candidate
  ]
]

unfoldable pub read_regular_file : FileAnswer → ℕ → ReadResult
read_regular_file refused max_bytes = failure "file could not be read safely"
read_regular_file (opened f) max_bytes =
    if f.closes
    then read_opened f max_bytes
    else failure "file descriptor could not be closed safely"
