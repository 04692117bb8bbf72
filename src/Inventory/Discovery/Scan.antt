-- ===== src/Inventory/Discovery/Scan.antt =====
-- `_read_frontmatter`, `_scan_skill`, `_scan_shared` and `_scan_targets`: what is found in the
-- directories. What the file system answers, the decoding of UTF-8 and YAML are arguments.
use skill_governance_control.Base.{
  ℕ, String, ◌<>◌, Bool, true, false, not, ◌&&◌, ◌||◌, Option, none, some, List, [], ◌∷◌, ◌++◌,
  reverse_onto, Result, ok, ◌>>=◌, ◌==◌, string_eq, if◌then◌else◌, list_eq, nat_eq,
}
use skill_governance_control.Base.Bytes.{Bytes}
use skill_governance_control.Base.Sorting.{sort_by}
use skill_governance_control.Base.Text.{codes, is_blank}
use skill_governance_control.Base.Lines.{Line, lines_from, strip_line, strip}
use skill_governance_control.Base.Files.{FilePath, path_of, path_text, path_name, join_parts}
use skill_governance_control.Models.{Value, get_field}
use skill_governance_control.Inventory.{
  ScanLimits, RuntimeLocationKind, shared, target, RuntimeTarget, RuntimeSkillInstance,
}
use skill_governance_control.Inventory.Discovery.Values.{
  require_mapping, require_sequence, require_relative_path,
}
use skill_governance_control.Inventory.Discovery.Ignored.{is_skill, is_disabled}
use skill_governance_control.Inventory.Discovery.Opened.{
  FileAnswer, content, failure, limit_exceeded, read_regular_file,
}
use skill_governance_control.Inventory.Discovery.Walk.{Listing}
use skill_governance_control.Inventory.Discovery.Digest.{directory_digest}

-- A value in a YAML mapping, a missing one and `null` included, and what `yaml.safe_load` returns.
pub data YamlField : Type 0 where
  absent : YamlField
  text : String → YamlField
  other : YamlField

pub data YamlValue : Type 0 where
  mapping : (String → YamlField) → YamlValue
  no_mapping : YamlValue

-- The calls on paths, and the libraries that read what is in a file: `names_in` is `iterdir`, and
-- `listing_of` the tree below a directory. `load_yaml` gets the lines that are joined.
pub record FileSystem : Type 0 where
  pub is_dir : FilePath → Bool
  pub is_file : FilePath → Bool
  pub is_link : FilePath → Bool
  pub names_in : FilePath → Option (List String)
  pub listing_of : FilePath → Listing
  pub open_file : FilePath → FileAnswer
  pub encode : String → Bytes
  pub decode : Bytes → Option String
  pub sha256_hex : Bytes → String
  pub load_yaml : List Line → Option YamlValue

-- `_ScannedSkill`
pub record ScannedSkill : Type 0 where
  pub name : String
  pub description : Option String
  pub instance_ : RuntimeSkillInstance

-- The lines before the first that is `---`, if one is.
unfoldable pub before_marker : List Line → Option (List Line)
before_marker [] = none
before_marker (l ∷ ls) =
    let rest = before_marker ls in
    if strip_line l == codes "---"
    then some []
    else elim rest [ none ↦ none | some before ↦ some (l ∷ before) ]

-- The name, the description and the warning that comes before the others.
abbrev pub Frontmatter : Type 0
Frontmatter = String × Option String × List String

unfoldable pub name_of : String → String → YamlField → String × List String
name_of file fallback (text s) =
    if is_blank s then (fallback, (file <> ": frontmatter name is invalid") ∷ []) else (s, [])
name_of file fallback _ = (fallback, (file <> ": frontmatter name is invalid") ∷ [])

-- An empty description is none.
unfoldable pub description_of : String → YamlField → Option String × List String
description_of file absent = (none, [])
description_of file (text s) = (if s == "" then none else some (strip s), [])
description_of file other = (none, (file <> ": frontmatter description is invalid") ∷ [])

unfoldable pub fields_of : String → String → (String → YamlField) → Frontmatter
fields_of file fallback get =
    let (name, name_warnings) = name_of file fallback (get "name") in
    let (description, description_warnings) = description_of file (get "description") in
    (strip name, description, description_warnings ++ name_warnings)

unfoldable pub frontmatter_of_lines : FileSystem → String → String → List Line → Frontmatter
frontmatter_of_lines fs file fallback [] =
    (fallback, none, (file <> ": YAML frontmatter is missing") ∷ [])
frontmatter_of_lines fs file fallback (l ∷ ls) =
    if strip_line l == codes "---"
    then elim (before_marker ls) [
      | none ↦ (fallback, none, (file <> ": YAML frontmatter is incomplete") ∷ [])
      | some header ↦ elim (fs.load_yaml header) [
        | none ↦ (fallback, none, (file <> ": YAML frontmatter is invalid") ∷ [])
        | some no_mapping ↦ (fallback, none, (file <> ": YAML frontmatter must be a mapping") ∷ [])
        | some (mapping get) ↦ fields_of file fallback get
      ]
    ]
    else (fallback, none, (file <> ": YAML frontmatter is missing") ∷ [])

-- `_read_frontmatter`, with the warnings in reverse.
unfoldable pub read_frontmatter : FileSystem → FilePath → ℕ → Frontmatter
read_frontmatter fs path max_bytes =
    let fallback = path_name path in
    let skill_file = join_parts path ("SKILL.md" ∷ []) in
    let file = path_text skill_file in
    elim (read_regular_file (fs.open_file skill_file) max_bytes) [
      | failure reason ↦ (
        fallback,
        none,
        (if reason == limit_exceeded
              then file <> ": frontmatter read limit exceeded"
              else file <> (": " <> reason))
            ∷ [],
      )
      | content prefix ↦ elim (fs.decode prefix) [
        | none ↦ (fallback, none, (file <> ": SKILL.md is not valid UTF-8") ∷ [])
        | some decoded ↦ frontmatter_of_lines fs file fallback (lines_from false (codes decoded))
      ]
    ]

-- `_has_intermediate_symlink`
unfoldable pub has_intermediate_symlink : FileSystem → FilePath → List String → Bool
has_intermediate_symlink fs current [] = false
has_intermediate_symlink fs current (part ∷ []) = false
has_intermediate_symlink fs current (part ∷ next ∷ parts) =
    let path = join_parts current (part ∷ []) in
    let rest = has_intermediate_symlink fs path (next ∷ parts) in
    if fs.is_link path then true else rest

-- `_scan_skill`
unfoldable pub scan_skill :
    FileSystem → ScanLimits → FilePath → RuntimeLocationKind → Option String → String → ScannedSkill
scan_skill fs limits path location_kind target_name distribution_mode =
    let (name, description, warnings) = read_frontmatter fs path limits.max_file_bytes in
    let digested =
      directory_digest fs.encode fs.sha256_hex limits (path_text path) (fs.listing_of path)
        warnings in
    record {
      name = name;
      description = description;
      instance_ = record {
        location_kind = location_kind;
        target_name = target_name;
        path = path_text path;
        distribution_mode = distribution_mode;
        digest = digested.digest;
        is_symlink = fs.is_link path;
        readable = digested.complete;
        scan_warnings = reverse_onto digested.warnings [];
      };
    }

-- The skills that were found, and the warnings.
abbrev pub Scanned : Type 0
Scanned = List ScannedSkill × List String

-- A skill before the others.
abbrev pub with_skill : ScannedSkill → Scanned → Scanned
with_skill skill (skills, warnings) = (skill ∷ skills, skill.instance_.scan_warnings ++ warnings)

abbrev pub with_warning : String → Scanned → Scanned
with_warning warning (skills, warnings) = (skills, warning ∷ warnings)

-- One entry of the list, before what is found from the others.
unfoldable pub scan_shared_entry : FileSystem → ScanLimits → FilePath → FilePath → Scanned → Scanned
scan_shared_entry fs limits source_path relative_path rest =
    let skill_path = join_parts source_path relative_path.parts in
    if has_intermediate_symlink fs source_path relative_path.parts
    then with_warning (path_text skill_path <> ": shared skill path has an intermediate symlink")
        rest
    else if not (fs.is_dir skill_path)
    then with_warning (path_text skill_path <> ": shared skill directory is unavailable") rest
    else with_skill (scan_skill fs limits skill_path shared none "shared") rest

unfoldable pub scan_shared_entries :
    FileSystem → ScanLimits → FilePath → List Value → Result Scanned
scan_shared_entries fs limits source_path [] = ok ([], [])
scan_shared_entries fs limits source_path (raw_entry ∷ entries) = do
  entry ← require_mapping (some raw_entry) "skill list entry"
  if not (is_skill entry) || is_disabled entry
      then scan_shared_entries fs limits source_path entries
      else (require_relative_path (get_field "relPath" entry) "skill relPath" >>= λ relative_path.
          scan_shared_entries fs limits source_path entries >>= λ rest.
          ok (scan_shared_entry fs limits source_path relative_path rest))

-- `_scan_shared`
unfoldable pub scan_shared : FileSystem → ScanLimits → FilePath → Value → Result Scanned
scan_shared fs limits source_path list_payload = do
  entries ← require_sequence (some list_payload) "skill list"
  scan_shared_entries fs limits source_path entries

-- The loop over the entries of a target directory.
unfoldable pub scan_children :
    FileSystem → ScanLimits → RuntimeTarget → FilePath → List String → Scanned
scan_children fs limits t root [] = ([], [])
scan_children fs limits t root (name ∷ names) =
    let skill_path = join_parts root (name ∷ []) in
    let skill_file = join_parts skill_path ("SKILL.md" ∷ []) in
    let rest = scan_children fs limits t root names in
    if name == ".git" || name == "__pycache__" || not (fs.is_dir skill_path)
    then rest
    else if not (fs.is_file skill_file) && not (fs.is_link skill_file)
    then rest
    else with_skill (scan_skill fs limits skill_path target (some t.name) t.mode) rest

-- One target: what is found in it, and whether it is readable.
unfoldable pub scan_target : FileSystem → ScanLimits → RuntimeTarget → Scanned × RuntimeTarget
scan_target fs limits t =
    let root = path_of t.path in
    if not (fs.is_dir root)
    then (
      ([], (path_text root <> ": target directory is unavailable") ∷ []),
      record t { readable = false },
    )
    else elim (fs.names_in root) [
      | none ↦ (
        ([], (path_text root <> ": target directory is unreadable") ∷ []),
        record t { readable = false },
      )
      | some names ↦ (scan_children fs limits t root (sort_by (λ name. name) names), t)
    ]

-- `_scan_targets`
unfoldable pub scan_targets :
    FileSystem → ScanLimits → List RuntimeTarget → Scanned × List RuntimeTarget
scan_targets fs limits [] = (([], []), [])
scan_targets fs limits (t ∷ ts) =
    let ((skills, warnings), t') = scan_target fs limits t in
    let ((more, more_warnings), ts') = scan_targets fs limits ts in
    ((skills ++ more, warnings ++ more_warnings), t' ∷ ts')
