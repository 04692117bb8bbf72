-- ===== src/Inventory/Discovery/Ignored.antt =====
-- `_parse_ignored`: the skills that Skillshare ignores or that are disabled, by their path.
use skill_governance_control.Base.{
  String, Bool, false, Option, none, some, List, [], ◌∷◌, Result, ok, ◌>>=◌, ◌==◌, string_eq,
  if◌then◌else◌,
}
use skill_governance_control.Base.Sorting.{sort_by}
use skill_governance_control.Base.Text.{is_blank}
use skill_governance_control.Base.Lines.{strip}
use skill_governance_control.Base.Files.{FilePath, path_text, path_name, join_parts, abs_path}
use skill_governance_control.Models.{Value, bool, text, array, object, item_end, Fields, get_field}
use skill_governance_control.Inventory.{RuntimeIgnoredSkill}
use skill_governance_control.Inventory.Discovery.Values.{
  require_mapping, require_sequence, require_string, require_relative_path,
}

-- `_normalized_source_path`
unfoldable pub normalized_source_path : FilePath → FilePath → String
normalized_source_path source relative = path_text (abs_path (join_parts source relative.parts))

-- The dictionary `ignored`: its values in the order of their keys, which are their paths.
abbrev pub Ignored : Type 0
Ignored = List RuntimeIgnoredSkill

-- `ignored[path] = skill`
unfoldable pub put_ignored : RuntimeIgnoredSkill → Ignored → Ignored
put_ignored skill [] = skill ∷ []
put_ignored skill (s ∷ rest) =
    if s.path == skill.path then skill ∷ rest else s ∷ put_ignored skill rest

-- `ignored.setdefault(path, skill)`
unfoldable pub keep_ignored : RuntimeIgnoredSkill → Ignored → Ignored
keep_ignored skill [] = skill ∷ []
keep_ignored skill (s ∷ rest) =
    if s.path == skill.path then s ∷ rest else s ∷ keep_ignored skill rest

-- `mapping.get(key, default)`
abbrev get_default : String → Value → Fields → Option Value
get_default key default fields = elim (get_field key fields) [
  | none ↦ some default
  | some v ↦ some v
]

-- `reason_value.strip()` if it is a text that is not blank.
unfoldable pub reason_of : Option Value → String
reason_of (some (text s)) = if is_blank s then "skillignore" else strip s
reason_of _ = "skillignore"

unfoldable pub ignored_entry : FilePath → Fields → Result RuntimeIgnoredSkill
ignored_entry source entry = do
  name ← require_string (get_field "name" entry) "ignored skill name"
  relative ← require_relative_path (get_default "relPath" (text name) entry) "ignored skill relPath"
  ok (record {
    name = name;
    path = normalized_source_path source relative;
    reason = reason_of (get_field "reason" entry);
  })

unfoldable pub parse_skillignore : FilePath → Value → Result RuntimeIgnoredSkill
parse_skillignore source (text s) = do
  relative ← require_relative_path (some (text s)) "ignored skill relPath"
  ok (record {
    name = path_name relative;
    path = normalized_source_path source relative;
    reason = "skillignore";
  })
parse_skillignore source raw_entry = do
  entry ← require_mapping (some raw_entry) "ignored skill entry"
  ignored_entry source entry

-- The first loop.
unfoldable pub collect_skillignore : FilePath → List Value → Ignored → Result Ignored
collect_skillignore source [] ignored = ok ignored
collect_skillignore source (raw_entry ∷ rest) ignored = do
  skill ← parse_skillignore source raw_entry
  collect_skillignore source rest (put_ignored skill ignored)

-- `entry.get("kind") == "skill"`
unfoldable pub is_skill : Fields → Bool
is_skill entry = elim (get_field "kind" entry) [ some (text s) ↦ s == "skill" | _ ↦ false ]

-- `entry.get("disabled") is True`
unfoldable pub is_disabled : Fields → Bool
is_disabled entry = elim (get_field "disabled" entry) [ some (bool b) ↦ b | _ ↦ false ]

unfoldable pub disabled_skill : FilePath → Fields → Result RuntimeIgnoredSkill
disabled_skill source entry = do
  name ← require_string (get_field "name" entry) "disabled skill name"
  relative ← require_relative_path (get_field "relPath" entry) "disabled skill relPath"
  ok (record { name = name; path = normalized_source_path source relative; reason = "disabled" })

-- The second loop.
unfoldable pub collect_disabled : FilePath → List Value → Ignored → Result Ignored
collect_disabled source [] ignored = ok ignored
collect_disabled source (raw_entry ∷ rest) ignored = do
  entry ← require_mapping (some raw_entry) "skill list entry"
  if is_skill entry
      then (if is_disabled entry
          then (disabled_skill source entry >>= λ skill.
              collect_disabled source rest (keep_ignored skill ignored))
          else collect_disabled source rest ignored)
      else collect_disabled source rest ignored

unfoldable pub skillignore_entries : Fields → Result (List Value)
skillignore_entries source_fields = elim (get_field "skillignore" source_fields) [
  | some (object f) ↦
      require_sequence (get_default "ignored_skills" (array item_end) f) "ignored skill list"
  | _ ↦ ok []
]

unfoldable pub parse_ignored : FilePath → Fields → Value → Result Ignored
parse_ignored source source_fields list_payload = do
  raw_ignored ← skillignore_entries source_fields
  first ← collect_skillignore source raw_ignored []
  entries ← require_sequence (some list_payload) "skill list"
  ignored ← collect_disabled source entries first
  ok (sort_by (λ s. s.name) (sort_by (λ s. s.path) ignored))
