-- ===== src/Inventory/Discovery/Targets.antt =====
-- `_parse_targets` and `_parse_version`.
use skill_governance_control.Base.{
  String, ◌<>◌, true, Option, none, some, List, [], ◌∷◌, last?, Result, ok, err, adapter_failure,
  ◌>>=◌, if◌then◌else◌,
}
use Prim.Native.Char.{code}
use skill_governance_control.Base.{nat_eqb}
use skill_governance_control.Base.Sorting.{sort_by}
use skill_governance_control.Base.Text.{is_blank}
use skill_governance_control.Base.Lines.{strip}
use skill_governance_control.Base.Files.{path_text}
use skill_governance_control.Models.{Value, text, get_field}
use skill_governance_control.Inventory.{RuntimeTarget}
use skill_governance_control.Inventory.Discovery.Values.{
  require_mapping, require_sequence, require_string, require_absolute_path, string_tuple,
}

unfoldable pub parse_target : Value → Result RuntimeTarget
parse_target raw_entry = do
  entry ← require_mapping (some raw_entry) "target list entry"
  name ← require_string (get_field "name" entry) "target name"
  path ← require_absolute_path (get_field "path" entry) "target path"
  mode ← require_string (get_field "mode" entry) "target mode"
  include ← string_tuple (get_field "include" entry) "target include"
  exclude ← string_tuple (get_field "exclude" entry) "target exclude"
  ok (record {
    name = name;
    path = path_text path;
    mode = mode;
    include = include;
    exclude = exclude;
    readable = true;
  })

unfoldable pub parse_entries : List Value → Result (List RuntimeTarget)
parse_entries [] = ok []
parse_entries (raw_entry ∷ rest) = do
  target ← parse_target raw_entry
  targets ← parse_entries rest
  ok (target ∷ targets)

unfoldable pub parse_targets : Value → Result (List RuntimeTarget)
parse_targets payload = do
  document ← require_mapping (some payload) "target list"
  entries ← require_sequence (get_field "targets" document) "target list targets"
  targets ← parse_entries entries
  ok (sort_by (λ t. t.name) targets)

-- `version if version.startswith("v") else f"v{version}"`
unfoldable pub with_v : String → String
with_v String.[] = "v"
with_v (String.◌∷◌ c s) = if nat_eqb (code c) 118 then String.◌∷◌ c s else "v" <> String.◌∷◌ c s

unfoldable pub fallback_version : Option Value → Result String
fallback_version (some (text s)) =
    if is_blank s
    then err (adapter_failure "Skillshare version output is invalid")
    else ok (with_v (strip s))
fallback_version _ = err (adapter_failure "Skillshare version output is invalid")

-- `find_versions` is `findall` of the pattern of versions.
unfoldable pub parse_version : (String → List String) → Value → Option Value → Result String
parse_version find_versions (text s) fallback = elim (last? (find_versions s)) [
  | none ↦ fallback_version fallback
  | some version ↦ ok (with_v version)
]
parse_version find_versions _ fallback = fallback_version fallback
