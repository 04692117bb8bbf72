-- ===== src/Inventory/Discovery/Laws/Status.antt =====
-- What the status `consistent` of an asset says.
use skill_governance_control.Base.{
  String, Bool, true, false, not, Option, none, some, List, [], ◌∷◌, ◌++◌, map, any, select,
  find_first, All, All-weaken, ◌==◌, ◌!=◌, string_eq, option_eq, Bool-cases, ◌≡◌, refl, ap, ◌∙◌,
  inl, inr, arith, eq_of_==, find_first_sound,
}
use skill_governance_control.Base.Sorting.{All-of_sort_by}
use skill_governance_control.Inventory.{
  RuntimeTarget, RuntimeSkillInstance, RuntimeSkillAsset, consistent,
}
use skill_governance_control.Inventory.Discovery.{
  ScannedSkill, asset_of, aggregate_assets, asset_status, source_of, targets_of, is_shared,
  has_scan_problem, differs_from, missing_targets_of, target_expects_skill, is_present,
  source_instance_of,
}
use skill_governance_control.Inventory.Discovery.Laws.Groups.{named}
use skill_governance_control.Inventory.Discovery.Laws.Grouping.{
  find_first-All, aggregate_assets-IsAssetOf,
}

any-false {ℓ} :
    {A : Type ℓ} (p : A → Bool) (xs : List A) → any p xs ≡ false → All (λ x. p x ≡ false) xs
any-false p [] h = tt
any-false p (x ∷ xs) h = (ground arith, any-false p xs (ground arith))

select-nil {ℓ} :
    {A : Type ℓ} (p : A → Bool) (xs : List A) → select p xs ≡ [] → All (λ x. p x ≡ false) xs
select-nil p [] h = tt
select-nil p (x ∷ xs) h = elim (Bool-cases (p x)) [
  | inl e ↦ ground arith
  | inr e ↦ (e, select-nil p xs (ground arith))
]

All-of_map {ℓ κ μ} :
    {A : Type ℓ} {B : Type κ} (P : B → Type μ) (f : A → B) (xs : List A)
    → All P (map f xs)
    → All (λ x. P (f x)) xs
All-of_map P f [] h = tt
All-of_map P f (x ∷ xs) (h, hs) = (h, All-of_map P f xs hs)

All-of_select {ℓ κ} :
    {A : Type ℓ} (P : A → Type κ) (p : A → Bool) (xs : List A)
    → All P (select p xs)
    → All (λ x. p x ≡ true → P x) xs
All-of_select P p [] h = tt
All-of_select P p (x ∷ xs) h = elim (Bool-cases (p x)) [
  | inl e ↦ let (k, ks) : P x × All P (select p xs) = rw e at h in (λ i. k, All-of_select P p xs ks)
  | inr e ↦ let ks : All P (select p xs) = rw e at h in (λ i. ground arith, All-of_select P p xs ks)
]

-- A source and no other content: every skill was read in full without a warning, those in the
-- targets have the digest of the source, and no target lacks the skill that it expects.
pub IsConsistent :
    (String → String → Bool)
    → List RuntimeTarget
    → String
    → List ScannedSkill
    → ScannedSkill
    → Type 0
IsConsistent matches configured name skills source =
    (source_of skills ≡ some source)
    × All
        (λ s.
          (s.instance_.readable ≡ true)
          × (s.instance_.scan_warnings ≡ [])
          × (is_shared s ≡ false → s.instance_.digest ≡ source.instance_.digest))
        skills
    × All
        (λ t.
          target_expects_skill matches t name ≡ true → is_present t.name (targets_of skills) ≡ true)
        configured

no_scan_problem :
    (i : RuntimeSkillInstance)
    → has_scan_problem i ≡ false
    → (i.readable ≡ true) × (i.scan_warnings ≡ [])
unfolding has_scan_problem
no_scan_problem i h = ground arith

-- What the four tests of `_asset_status` come to.
asset_status-consistent :
    (source : Option ScannedSkill) (targets : List ScannedSkill)
    (instances : List RuntimeSkillInstance) (missing_targets : List String)
    → asset_status source targets instances missing_targets ≡ consistent
    → (s : ScannedSkill) × (source ≡ some s)
      × (any has_scan_problem instances ≡ false)
      × (differs_from source targets ≡ false)
      × (missing_targets ≡ [])
unfolding asset_status
asset_status-consistent none targets instances [] h = ground arith
asset_status-consistent none targets instances (t ∷ ts) h = ground arith
asset_status-consistent (some s) targets instances [] h =
    (s, refl, ground arith, ground arith, refl)
asset_status-consistent (some s) targets instances (t ∷ ts) h = ground arith

not_different : (a b : Option String) → (a != b) ≡ false → a ≡ b
not_different a b h = ground arith

map-nil {ℓ κ} : {A : Type ℓ} {B : Type κ} (f : A → B) (xs : List A) → map f xs ≡ [] → xs ≡ []
map-nil f [] h = refl
map-nil f (x ∷ xs) h = ground arith

same_digests :
    (s : ScannedSkill) (skills : List ScannedSkill)
    → differs_from (some s) (targets_of skills) ≡ false
    → All (λ t. is_shared t ≡ false → t.instance_.digest ≡ s.instance_.digest) skills
unfolding differs_from targets_of
same_digests s skills h =
    let same : ScannedSkill → Type 0 = λ t. (t.instance_.digest != s.instance_.digest) ≡ false in
    All-weaken _ _ (λ t k i. not_different _ _ (k (ground arith))) skills
      (All-of_select same (λ t. not (is_shared t)) skills
        (All-of_sort_by (λ t. t.instance_.path) same _ (All-of_sort_by _ same _ (any-false _ _ h))))

none_missing :
    (matches : String → String → Bool) (name : String) (s : ScannedSkill)
    (target_skills : List ScannedSkill) (configured : List RuntimeTarget)
    → missing_targets_of matches name (some s) target_skills configured ≡ []
    → All
        (λ t. target_expects_skill matches t name ≡ true → is_present t.name target_skills ≡ true)
        configured
unfolding missing_targets_of
none_missing matches name s target_skills configured h =
    All-weaken _ _ (λ t k e. ground arith) configured (select-nil _ configured (map-nil _ _ h))

All-zip {ℓ κ μ} :
    {A : Type ℓ} (P : A → Type κ) (Q : A → Type μ) (xs : List A)
    → All P xs
    → All Q xs
    → All (λ x. P x × Q x) xs
All-zip P Q [] h k = tt
All-zip P Q (x ∷ xs) (h, hs) (k, ks) = ((h, k), All-zip P Q xs hs ks)

asset_of-IsConsistent :
    (matches : String → String → Bool) (configured : List RuntimeTarget) (name : String)
    (skills : List ScannedSkill)
    → (asset_of matches configured (name, skills)).status ≡ consistent
    → (source : ScannedSkill) × IsConsistent matches configured name skills source
unfolding asset_of IsConsistent
asset_of-IsConsistent matches configured name skills h =
    let (s, found, fine, same, none_lacks) = asset_status-consistent _ _ _ _ h in
    (
      s,
      (
        found,
        All-weaken _ _ (λ t p. (p.0.0, p.0.1, p.1)) skills
            (All-zip _ _ skills
              (All-weaken _ _ (λ t k. no_scan_problem t.instance_ k) skills
                (All-of_map (λ i. has_scan_problem i ≡ false) (λ t. t.instance_) skills
                  (any-false has_scan_problem _ fine)))
              (same_digests s skills (rw found at same))),
        none_missing matches name s (targets_of skills) configured (rw found at none_lacks),
      ),
    )

-- An asset that `_aggregate_assets` calls consistent has a source. All the skills of its name were
-- read in full without a warning, those in the targets have the digest of the source, and every
-- configured target that expects the skill has it.
pub aggregate_assets-IsConsistent :
    (matches : String → String → Bool) (shared_skills target_skills : List ScannedSkill)
    (configured : List RuntimeTarget) (name : String) (a : RuntimeSkillAsset)
    → find_first
        (λ x. x.name == name)
        (aggregate_assets matches shared_skills target_skills configured)
      ≡ some a
    → a.status ≡ consistent
    → (source : ScannedSkill) × IsConsistent matches configured name
        (named name (shared_skills ++ target_skills))
        source
      × (a.source_instance ≡ some source.instance_)
unfolding asset_of IsConsistent
aggregate_assets-IsConsistent matches shared_skills target_skills configured name a found h =
    let skills : List ScannedSkill = shared_skills ++ target_skills in
    let assets = aggregate_assets matches shared_skills target_skills configured in
    let (same, _) =
      find_first-All _ (λ x. x.name == name) assets a
        (aggregate_assets-IsAssetOf matches shared_skills target_skills configured) found in
    let n : a.name ≡ name =
      eq_of_== a.name name (find_first_sound (λ x. x.name == name) assets a found) in
    let same' : a ≡ asset_of matches configured (name, named name skills) =
      same ∙ ap (λ m. asset_of matches configured (m, named m skills)) n in
    let (source, c) =
      asset_of-IsConsistent matches configured name (named name skills) (rw same' at h) in
    (source, c, ap (λ x. x.source_instance) same' ∙ ap source_instance_of c.0)
