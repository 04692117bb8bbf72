-- ===== src/Planner/Desired.antt =====
-- `desired_assets` of planner.py.
use skill_governance_control.Base.{
  String, true, false, not, ◌&&◌, Option, none, some, List, [], ◌∷◌, map, contains, select, Result,
  ok, err, governance_validation_error, ◌>>=◌, string_eq, if◌then◌else◌,
}
use skill_governance_control.Base.Sorting.{sort_by}
use skill_governance_control.Base.Text.{is_blank}
use skill_governance_control.Models.{
  Asset, DeploymentProfile, ProfileMembership, array, Fields, get_field, has_only_key, text_items,
}
use skill_governance_control.Repository.Snapshot.{GovernanceSnapshot, is_disallowed}

-- The `target_ids` of a selector, unless it is invalid.
unfoldable pub selector_targets : Fields → Option (List String)
selector_targets selector = elim (has_only_key "target_ids" selector) [
  | false ↦ none
  | true ↦ elim (get_field "target_ids" selector) [
    | some (array items) ↦ text_items items
    | _ ↦ none
  ]
]

-- The loop over the profiles: the ids of those that select the target.
unfoldable pub matching_profiles : String → List DeploymentProfile → Result (List String)
matching_profiles target_id [] = ok []
matching_profiles target_id (p ∷ ps) = elim (selector_targets p.selector) [
  | none ↦ err (governance_validation_error "planner: invalid selector")
  | some target_ids ↦ do
    rest ← matching_profiles target_id ps
    ok (if contains target_ids target_id then p.id ∷ rest else rest)
]

-- The comprehension `approved_asset_ids`.
unfoldable pub approved_asset_ids : List String → List ProfileMembership → List String
approved_asset_ids profile_ids memberships =
    map (λ m. m.asset_id)
      (select (λ m. contains profile_ids m.profile_id && not (is_blank m.approval_ref)) memberships)

unfoldable pub desired_assets : GovernanceSnapshot → String → Result (List Asset)
desired_assets snapshot target_id =
    if not (contains (map (λ t. t.id) snapshot.targets) target_id)
    then err (governance_validation_error "planner: unknown target")
    else (do
      profile_ids ← matching_profiles target_id snapshot.profiles
      let approved = approved_asset_ids profile_ids snapshot.memberships
      ok (
          sort_by (λ a. a.id)
            (select (λ a. contains approved a.id && not (is_disallowed a)) snapshot.assets)))
