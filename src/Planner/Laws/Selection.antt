-- ===== src/Planner/Laws/Selection.antt =====
-- `desired_assets`: which assets a target should have.
use skill_governance_control.Base.{
  String, Bool, true, false, not, ◌&&◌, some, List, [], ◌∷◌, map, contains, select, All, Any, first,
  later, ok, >>=-eq-ok, ok-injective, ◌≡◌, sym, subst, arith, ◌==◌, eq_of_==, string_eq, Bool-cases,
  Option-cases, inl, inr, if◌then◌else◌,
}
use skill_governance_control.Base.Sorting.{All-sort_by}
use skill_governance_control.Base.Text.{is_blank}
use skill_governance_control.Models.{Asset, DeploymentProfile, ProfileMembership}
use skill_governance_control.Repository.Snapshot.{GovernanceSnapshot, is_disallowed}
use skill_governance_control.Planner.Desired.{
  selector_targets, matching_profiles, approved_asset_ids, desired_assets,
}

-- A profile with this id selects the target.
abbrev pub Selects : String → String → DeploymentProfile → Type 0
Selects target_id profile_id p =
    (p.id ≡ profile_id)
    × ((ids : List String) × (selector_targets p.selector ≡ some ids)
        × (contains ids target_id ≡ true))

-- A membership of the asset with an approval, in a profile that selects the target.
abbrev pub Approves : List DeploymentProfile → String → String → ProfileMembership → Type 0
Approves profiles target_id asset_id m =
    (m.asset_id ≡ asset_id)
    × (is_blank m.approval_ref ≡ false)
    × Any (Selects target_id m.profile_id) profiles

abbrev pub IsDesired : GovernanceSnapshot → String → Asset → Type 0
IsDesired s target_id a =
    (is_disallowed a ≡ false) × Any (Approves s.profiles target_id a.id) s.memberships

Any-step :
    (target_id x : String) (p : DeploymentProfile) (ps : List DeploymentProfile)
    (ts rest ids : List String)
    → selector_targets p.selector ≡ some ts
    → (contains rest x ≡ true → Any (Selects target_id x) ps)
    → (if contains ts target_id then p.id ∷ rest else rest) ≡ ids
    → contains ids x ≡ true
    → Any (Selects target_id x) (p ∷ ps)
Any-step target_id x p ps ts rest ids e ih s k = elim (Bool-cases (contains ts target_id)) [
  | inr other ↦ later (ih (rw (← s, other) at k))
  | inl chosen ↦ elim (Bool-cases (x == p.id)) [
    | inl same ↦ first (sym (eq_of_== x p.id same), (ts, e, chosen))
    | inr differ ↦ later (ih (rw (← s, chosen, differ) at k))
  ]
]

matching_profiles-Any :
    (target_id x : String) (profiles : List DeploymentProfile) (ids : List String)
    → matching_profiles target_id profiles ≡ ok ids
    → contains ids x ≡ true
    → Any (Selects target_id x) profiles
unfolding matching_profiles
matching_profiles-Any target_id x [] ids h k =
    let e : [] ≡ ids = ok-injective h in absurd (ground arith)
matching_profiles-Any target_id x (p ∷ ps) ids h k =
    elim (Option-cases (selector_targets p.selector)) [
      | inl invalid ↦ absurd (ground arith)
      | inr (ts, e) ↦
          let (rest, r, s) =
            >>=-eq-ok (matching_profiles target_id ps)
              (λ rest. ok (if contains ts target_id then p.id ∷ rest else rest))
              (rw (e, matching_profiles) at h) in
          Any-step target_id x p ps ts rest ids e
            (λ q. matching_profiles-Any target_id x ps rest r q) (ok-injective s) k
    ]

approved-Any :
    (profiles : List DeploymentProfile) (target_id x : String) (ids : List String)
    (ms : List ProfileMembership)
    → matching_profiles target_id profiles ≡ ok ids
    → contains (approved_asset_ids ids ms) x ≡ true
    → Any (Approves profiles target_id x) ms
unfolding approved_asset_ids
approved-Any profiles target_id x ids [] h k = ground arith
approved-Any profiles target_id x ids (m ∷ ms) h k =
    elim (Bool-cases (contains ids m.profile_id && not (is_blank m.approval_ref))) [
      | inr other ↦
          later (approved-Any profiles target_id x ids ms h (rw (other, approved_asset_ids) at k))
      | inl kept ↦ elim (Bool-cases (x == m.asset_id)) [
        | inl same ↦ first (
          sym (eq_of_== x m.asset_id same),
          ground arith,
          matching_profiles-Any target_id m.profile_id profiles ids h (ground arith),
        )
        | inr differ ↦ later (
            approved-Any profiles target_id x ids ms h (rw (kept, differ, approved_asset_ids) at k))
      ]
    ]

All-select {ℓ κ} :
    {A : Type ℓ} (P : A → Type κ) (test : A → Bool) (xs : List A)
    → ((x : A) → test x ≡ true → P x)
    → All P (select test xs)
All-select P test [] f = tt
All-select P test (x ∷ xs) f = elim (Bool-cases (test x)) [
  | inl t ↦ rw t (f x t, All-select P test xs f)
  | inr n ↦ rw n (All-select P test xs f)
]

-- Every desired asset is neither quarantined nor deferred, and an approved membership puts it into a
-- profile whose selector names the target.
pub desired_assets-IsDesired :
    (s : GovernanceSnapshot) (target_id : String) (assets : List Asset)
    → desired_assets s target_id ≡ ok assets
    → All (IsDesired s target_id) assets
unfolding desired_assets
desired_assets-IsDesired s target_id assets h =
    elim (Bool-cases (contains (map (λ t. t.id) s.targets) target_id)) [
      | inr unknown ↦ absurd (ground arith)
      | inl known ↦
          let (ids, r, e) =
            >>=-eq-ok (matching_profiles target_id s.profiles) _
              (rw (known, desired_assets) at h) in
          subst (All (IsDesired s target_id)) (ok-injective e) (
            All-sort_by (λ a. a.id) (IsDesired s target_id) _
              (All-select (IsDesired s target_id) _ s.assets (λ a t. (
                ground arith,
                approved-Any s.profiles target_id a.id ids s.memberships r (ground arith),
              ))))
    ]
