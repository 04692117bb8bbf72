-- ===== src/Inventory/Discovery/Laws/Grouping.antt =====
-- `_aggregate_assets` makes an asset of exactly the skills that have its name.
use skill_governance_control.Base.{
  String, Bool, false, Option, none, some, List, [], ◌∷◌, ◌++◌, map, find_first, All, Option-cases,
  find_first_sound, ◌==◌, string_eq, Bool-cases, ◌≡◌, refl, sym, ap, ◌∙◌, subst, inl, inr, arith,
  eq_of_==,
}
use skill_governance_control.Base.Sorting.{All-sort_by, All-of_sort_by}
use skill_governance_control.Inventory.{RuntimeTarget, RuntimeSkillAsset}
use skill_governance_control.Inventory.Discovery.{
  ScannedSkill, Grouped, group_skills, asset_of, aggregate_assets,
}
use skill_governance_control.Inventory.Discovery.Laws.Groups.{
  named, is_nil, IsFresh, IsGroupOf, group_skills-IsGrouping,
}

-- Each asset is the one that its name and the skills that have it make, and some skill has it.
abbrev pub IsAssetOf :
    (String → String → Bool) → List RuntimeTarget → List ScannedSkill → RuntimeSkillAsset → Type 0
IsAssetOf matches configured skills a =
    (a ≡ asset_of matches configured (a.name, named a.name skills))
    × (is_nil (named a.name skills) ≡ false)

All-map_assets :
    (matches : String → String → Bool) (configured : List RuntimeTarget)
    (skills : List ScannedSkill) (g : Grouped)
    → All (IsGroupOf skills) g
    → All (IsAssetOf matches configured skills) (map (asset_of matches configured) g)
unfolding asset_of
All-map_assets matches configured skills [] h = tt
All-map_assets matches configured skills ((n, ss) ∷ rest) ((same, some_skill), h) = (
  (
    ap (λ l. asset_of matches configured (n, l)) same,
    subst (λ l. is_nil l ≡ false) same some_skill,
  ),
  All-map_assets matches configured skills rest h,
)

-- The names of the assets are those of the groups.
IsFresh-of_assets :
    (matches : String → String → Bool) (configured : List RuntimeTarget) (name : String)
    (g : Grouped)
    → All (λ a. (a.name == name) ≡ false) (map (asset_of matches configured) g)
    → IsFresh name g
unfolding asset_of
IsFresh-of_assets matches configured name [] h = tt
IsFresh-of_assets matches configured name ((n, ss) ∷ rest) (k, ks) =
    (k, IsFresh-of_assets matches configured name rest ks)

find_first-none {ℓ} :
    {A : Type ℓ} (p : A → Bool) (xs : List A) → find_first p xs ≡ none → All (λ x. p x ≡ false) xs
find_first-none p [] h = tt
find_first-none p (x ∷ xs) h = elim (Bool-cases (p x)) [
  | inl e ↦ ground arith
  | inr e ↦ (e, find_first-none p xs (ground arith))
]

pub find_first-All {ℓ κ} :
    {A : Type ℓ} (P : A → Type κ) (p : A → Bool) (xs : List A) (a : A)
    → All P xs
    → find_first p xs ≡ some a
    → P a
find_first-All P p [] a h k = ground arith
find_first-All P p (x ∷ xs) a (h, hs) k = elim (Bool-cases (p x)) [
  | inl e ↦ subst P (ground arith) h
  | inr e ↦ find_first-All P p xs a hs (ground arith)
]

pub aggregate_assets-IsAssetOf :
    (matches : String → String → Bool) (shared_skills target_skills : List ScannedSkill)
    (configured : List RuntimeTarget)
    → All
        (IsAssetOf matches configured (shared_skills ++ target_skills))
        (aggregate_assets matches shared_skills target_skills configured)
unfolding aggregate_assets
aggregate_assets-IsAssetOf matches shared_skills target_skills configured =
    let skills : List ScannedSkill = shared_skills ++ target_skills in
    let (_, groups, _) = group_skills-IsGrouping [] skills [] (tt, tt, λ name fresh. refl) in
    All-sort_by (λ a. a.name) (IsAssetOf matches configured skills)
      (map (asset_of matches configured) (group_skills skills []))
      (All-map_assets matches configured skills (group_skills skills []) groups)

-- What `snapshot.asset(name)` looks for, from the skills themselves.
abbrev pub expected_asset :
    (String → String → Bool)
    → List RuntimeTarget
    → String
    → List ScannedSkill
    → Option RuntimeSkillAsset
expected_asset matches configured name [] = none
expected_asset matches configured name (s ∷ skills) =
    some (asset_of matches configured (name, s ∷ skills))

expected_asset-some :
    (matches : String → String → Bool) (configured : List RuntimeTarget) (name : String)
    (skills : List ScannedSkill)
    → is_nil skills ≡ false
    → expected_asset matches configured name skills
      ≡ some (asset_of matches configured (name, skills))
expected_asset-some matches configured name [] h = ground arith
expected_asset-some matches configured name (s ∷ skills) h = refl

-- No asset has the name: no skill has it.
named-of_assets :
    (matches : String → String → Bool) (shared_skills target_skills : List ScannedSkill)
    (configured : List RuntimeTarget) (name : String)
    → find_first
        (λ a. a.name == name)
        (aggregate_assets matches shared_skills target_skills configured)
      ≡ none
    → named name (shared_skills ++ target_skills) ≡ []
unfolding aggregate_assets
named-of_assets matches shared_skills target_skills configured name h =
    let skills : List ScannedSkill = shared_skills ++ target_skills in
    let g : Grouped = group_skills skills [] in
    let (_, _, absent) = group_skills-IsGrouping [] skills [] (tt, tt, λ n fresh. refl) in
    absent name (
      IsFresh-of_assets matches configured name g (
        All-of_sort_by (λ a. a.name) (λ a. (a.name == name) ≡ false)
          (map (asset_of matches configured) g) (find_first-none (λ a. a.name == name) _ h)))

-- Looking a name up in the assets gives the asset of exactly the skills that have this name, in the
-- order in which they were found, and nothing if no skill has it.
pub aggregate_assets-find :
    (matches : String → String → Bool) (shared_skills target_skills : List ScannedSkill)
    (configured : List RuntimeTarget) (name : String)
    → find_first
        (λ a. a.name == name)
        (aggregate_assets matches shared_skills target_skills configured)
      ≡ expected_asset matches configured name (named name (shared_skills ++ target_skills))
aggregate_assets-find matches shared_skills target_skills configured name =
    let skills : List ScannedSkill = shared_skills ++ target_skills in
    let assets = aggregate_assets matches shared_skills target_skills configured in
    elim (Option-cases (find_first (λ a. a.name == name) assets)) [
      | inl e ↦
          e
          ∙ sym (
              ap (expected_asset matches configured name)
                (named-of_assets matches shared_skills target_skills configured name e))
      | inr (a, e) ↦
          let (same, some_skill) =
            find_first-All (IsAssetOf matches configured skills) (λ x. x.name == name) assets a
              (aggregate_assets-IsAssetOf matches shared_skills target_skills configured) e in
          let n : a.name ≡ name =
            eq_of_== a.name name (find_first_sound (λ x. x.name == name) assets a e) in
          e
          ∙ ap some same
          ∙ sym (expected_asset-some matches configured a.name (named a.name skills) some_skill)
          ∙ ap (λ m. expected_asset matches configured m (named m skills)) n
    ]
