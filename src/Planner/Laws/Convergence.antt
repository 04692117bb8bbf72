-- ===== src/Planner/Laws/Convergence.antt =====
-- `calculate_changes`: when nothing is left to do.
use skill_governance_control.Base.{
  none, some, List, [], ◌∷◌, All, ok, ◌≡◌, ◌↔◌, refl, arith, string_eq, Option-cases, inl, inr,
  ok-injective,
}
use skill_governance_control.Base.Sorting.{sort_by, All-sort_by, All-of_sort_by}
use skill_governance_control.Models.{Asset, ObservedState}
use skill_governance_control.Planner.Changes.{
  observed, change_for, changes_for, calculate_changes, reject_duplicate_observations,
}

-- The target was observed to hold the asset at its source revision and checksum.
abbrev pub InSync : List ObservedState → Asset → Type 0
InSync observations a =
    (o : ObservedState) × (observed observations a.id ≡ some o)
    × (o.revision ≡ a.source_revision)
    × (o.checksum ≡ a.source_checksum)

InSync-of_no_change :
    (observations : List ObservedState) (a : Asset)
    → change_for observations a ≡ none
    → InSync observations a
unfolding change_for
InSync-of_no_change observations a h = elim (Option-cases (observed observations a.id)) [
  | inl unseen ↦ ground arith
  | inr (o, e) ↦ (o, e, ground arith, ground arith)
]

no_change_of_InSync :
    (observations : List ObservedState) (a : Asset)
    → InSync observations a
    → change_for observations a ≡ none
unfolding change_for
no_change_of_InSync observations a (o, e, r, k) = ground arith

changes_for-nil :
    (observations : List ObservedState) (assets : List Asset)
    → (changes_for observations assets ≡ []) ↔ All (InSync observations) assets
unfolding changes_for
changes_for-nil observations [] = (λ h. tt, λ h. refl)
changes_for-nil observations (a ∷ assets) = elim (Option-cases (change_for observations a)) [
  | inl same ↦
      let ih = changes_for-nil observations assets in
      (
        λ h. (InSync-of_no_change observations a same, ih.0 (rw (same, changes_for) at h)),
        λ h. rw (same, changes_for) (ih.1 h.1),
      )
  | inr (change, e) ↦
      (λ h. ground arith, λ h. absurd (ground (arith, no_change_of_InSync observations a h.0)))
]

-- Over observations without duplicates no change is planned exactly when every desired asset was
-- observed at its source revision and checksum.
pub calculate_changes-nil :
    (desired : List Asset) (observations : List ObservedState)
    → reject_duplicate_observations [] observations ≡ ok tt
    → (calculate_changes desired observations ≡ ok []) ↔ All (InSync observations) desired
unfolding calculate_changes
calculate_changes-nil desired observations unique =
    let sorted = sort_by (λ a. a.id) desired in
    let step = changes_for-nil observations sorted in
    (
      λ h.
          All-of_sort_by (λ a. a.id) (InSync observations) desired
            (step.0 (ok-injective (rw (unique, calculate_changes) at h))),
      λ h. rw (
        unique,
        calculate_changes,
        step.1 (All-sort_by (λ a. a.id) (InSync observations) desired h),
      ),
    )
