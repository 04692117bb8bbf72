-- ===== src/Inventory/Discovery/Aggregate.antt =====
-- `_aggregate_assets`: the skills that were found, by their name, and the status of each.
use skill_governance_control.Base.{
  String, Bool, true, false, not, ◌&&◌, ◌||◌, Option, none, some, List, [], ◌∷◌, ◌++◌, map, any,
  select, find_first, ◌==◌, ◌!=◌, string_eq, option_eq, if◌then◌else◌,
}
use skill_governance_control.Base.Sorting.{sort_by}
use skill_governance_control.Inventory.{
  shared, target, RuntimeSkillStatus, consistent, diverged, missing, local_only, scan_warning,
  RuntimeTarget, RuntimeSkillInstance, RuntimeSkillAsset, is_absent,
}
use skill_governance_control.Inventory.Discovery.Scan.{ScannedSkill}

-- `grouped`: a name and the skills that have it, in the order of the keys.
abbrev pub Grouped : Type 0
Grouped = List (String × List ScannedSkill)

-- `grouped.setdefault(skill.name, []).append(skill)`
unfoldable pub add_group : ScannedSkill → Grouped → Grouped
add_group skill [] = (skill.name, skill ∷ []) ∷ []
add_group skill ((name, skills) ∷ rest) =
    let rest' = add_group skill rest in
    if name == skill.name then (name, skills ++ skill ∷ []) ∷ rest else (name, skills) ∷ rest'

unfoldable pub group_skills : List ScannedSkill → Grouped → Grouped
group_skills [] grouped = grouped
group_skills (skill ∷ skills) grouped = group_skills skills (add_group skill grouped)

unfoldable pub is_shared : ScannedSkill → Bool
is_shared skill = elim skill.instance_.location_kind [ shared ↦ true | target ↦ false ]

unfoldable pub first_skill : List ScannedSkill → Option ScannedSkill
first_skill [] = none
first_skill (skill ∷ skills) = some skill

-- `sources`, and `source`.
unfoldable pub source_of : List ScannedSkill → Option ScannedSkill
source_of skills = first_skill (sort_by (λ s. s.instance_.path) (select is_shared skills))

abbrev target_key : ScannedSkill → String
target_key skill = elim skill.instance_.target_name [ none ↦ "" | some name ↦ name ]

-- `targets`; the sort is stable.
unfoldable pub targets_of : List ScannedSkill → List ScannedSkill
targets_of skills =
    sort_by target_key (sort_by (λ s. s.instance_.path) (select (λ s. not (is_shared s)) skills))

-- `matches` is `fnmatchcase`, of a name and a pattern.
unfoldable pub target_expects_skill : (String → String → Bool) → RuntimeTarget → String → Bool
target_expects_skill matches t name =
    (elim t.include [ [] ↦ true | _ ∷ _ ↦ any (matches name) t.include ])
    && not (any (matches name) t.exclude)

-- `target.name in present`
unfoldable pub is_present : String → List ScannedSkill → Bool
is_present name target_skills = any (λ s. s.instance_.target_name == some name) target_skills

unfoldable pub missing_targets_of :
    (String → String → Bool)
    → String
    → Option ScannedSkill
    → List ScannedSkill
    → List RuntimeTarget
    → List String
missing_targets_of matches name none target_skills configured = []
missing_targets_of matches name (some source) target_skills configured =
    map (λ t. t.name)
      (select (λ t. target_expects_skill matches t name && not (is_present t.name target_skills))
        configured)

-- `not instance.readable or instance.scan_warnings`
unfoldable pub has_scan_problem : RuntimeSkillInstance → Bool
has_scan_problem i = not i.readable || (elim i.scan_warnings [ [] ↦ false | _ ∷ _ ↦ true ])

unfoldable pub differs_from : Option ScannedSkill → List ScannedSkill → Bool
differs_from none targets = false
differs_from (some source) targets =
    any (λ t. t.instance_.digest != source.instance_.digest) targets

unfoldable pub asset_status :
    Option ScannedSkill
    → List ScannedSkill
    → List RuntimeSkillInstance
    → List String
    → RuntimeSkillStatus
asset_status source targets instances missing_targets =
    if any has_scan_problem instances
    then scan_warning
    else if differs_from source targets
    then diverged
    else elim missing_targets [
      | _ ∷ _ ↦ missing
      | [] ↦ if is_absent source then local_only else consistent
    ]

-- The description of the source, or else the first that a target has.
unfoldable pub asset_description : Option ScannedSkill → List ScannedSkill → Option String
asset_description source targets =
    let of_target : Option String = elim (find_first (λ s. not (is_absent s.description)) targets) [
      | none ↦ none
      | some skill ↦ skill.description
    ] in
    elim source [
      | none ↦ of_target
      | some skill ↦ elim skill.description [ none ↦ of_target | some d ↦ some d ]
    ]

abbrev pub source_instance_of : Option ScannedSkill → Option RuntimeSkillInstance
source_instance_of none = none
source_instance_of (some skill) = some skill.instance_

-- One round of the second loop.
unfoldable pub asset_of :
    (String → String → Bool) → List RuntimeTarget → String × List ScannedSkill → RuntimeSkillAsset
asset_of matches configured (name, skills) =
    let source = source_of skills in
    let targets = targets_of skills in
    let missing_targets = missing_targets_of matches name source targets configured in
    record {
      key = name;
      name = name;
      description = asset_description source targets;
      status = asset_status source targets (map (λ s. s.instance_) skills) missing_targets;
      source_instance = source_instance_of source;
      target_instances = map (λ s. s.instance_) targets;
      missing_targets = missing_targets;
    }

unfoldable pub aggregate_assets :
    (String → String → Bool)
    → List ScannedSkill
    → List ScannedSkill
    → List RuntimeTarget
    → List RuntimeSkillAsset
aggregate_assets matches shared_skills target_skills configured =
    sort_by (λ a. a.name)
      (map (asset_of matches configured) (group_skills (shared_skills ++ target_skills) []))
