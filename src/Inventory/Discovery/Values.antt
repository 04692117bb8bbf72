-- ===== src/Inventory/Discovery/Values.antt =====
-- The `_require_*` helpers: what a JSON value of Skillshare's output must be.
use skill_governance_control.Base.{
  String, ◌<>◌, Bool, true, false, not, ◌||◌, Option, none, some, List, [], ◌∷◌, any, contains,
  Result, ok, err, adapter_failure, ◌==◌, string_eq, if◌then◌else◌, ◌>>=◌,
}
use skill_governance_control.Base.Text.{is_blank}
use skill_governance_control.Base.Lines.{strip}
use skill_governance_control.Base.Files.{FilePath, path_of, is_absolute}
use skill_governance_control.Models.{Value, text, array, object, Items, item, item_end, Fields}

abbrev pub invalid_output {ℓ} : {A : Type ℓ} → String → Result A
invalid_output label = err (adapter_failure ("Skillshare " <> (label <> " output is invalid")))

-- The keys of a JSON object are texts.
unfoldable pub require_mapping : Option Value → String → Result Fields
require_mapping (some (object f)) label = ok f
require_mapping _ label = invalid_output label

unfoldable pub items_of : Items → List Value
items_of item_end = []
items_of (item v rest) = v ∷ items_of rest

unfoldable pub require_sequence : Option Value → String → Result (List Value)
require_sequence (some (array items)) label = ok (items_of items)
require_sequence _ label = invalid_output label

unfoldable pub require_string : Option Value → String → Result String
require_string (some (text s)) label = if is_blank s then invalid_output label else ok (strip s)
require_string _ label = invalid_output label

unfoldable pub require_absolute_path : Option Value → String → Result FilePath
require_absolute_path value label = do
  s ← require_string value label
  let path = path_of s
  if not (is_absolute path) || contains path.parts ".."
      then err (adapter_failure ("Skillshare " <> (label <> " is not a safe absolute path")))
      else ok path

-- `is_dir` is what the file system answers.
unfoldable pub require_absolute_directory :
    (FilePath → Bool) → Option Value → String → Result FilePath
require_absolute_directory is_dir value label = do
  s ← require_string value label
  let path = path_of s
  if not (is_absolute path) || not (is_dir path)
      then err
          (adapter_failure ("Skillshare " <> (label <> " is not an available absolute directory")))
      else ok path

abbrev is_empty : List String → Bool
is_empty [] = true
is_empty (s ∷ ss) = false

unfoldable pub require_relative_path : Option Value → String → Result FilePath
require_relative_path value label = do
  s ← require_string value label
  let path = path_of s
  if is_absolute path || is_empty path.parts || any (λ part. part == "." || part == "..") path.parts
      then err (adapter_failure ("Skillshare " <> (label <> " is not a safe relative path")))
      else ok path

unfoldable pub all_texts : List Value → Option (List String)
all_texts [] = some []
all_texts (text s ∷ vs) = elim (all_texts vs) [ none ↦ none | some ss ↦ some (s ∷ ss) ]
all_texts (_ ∷ vs) = none

-- `_string_tuple`: a missing value and `null` are no texts.
unfoldable pub string_tuple : Option Value → String → Result (List String)
string_tuple none label = ok []
string_tuple (some Value.null) label = ok []
string_tuple (some value) label = do
  entries ← require_sequence (some value) label
  elim (all_texts entries) [ none ↦ invalid_output label | some ss ↦ ok ss ]
