-- ===== src/Planner/Changes.antt =====
-- `calculate_changes` of planner.py.
use skill_governance_control.Base.{
  String, ◌||◌, Option, none, some, List, [], ◌∷◌, contains, find_first, Result, ok, err,
  governance_validation_error, ◌>>◌, ◌==◌, ◌!=◌, string_eq, if◌then◌else◌,
}
use skill_governance_control.Base.Sorting.{sort_by}
use skill_governance_control.Models.{Asset, ObservedState, PlanChange, ChangeType, create, update}

-- The loop that fills `observed_by_asset`: the ids seen so far are refused.
unfoldable pub reject_duplicate_observations : List String → List ObservedState → Result (Unit {0})
reject_duplicate_observations seen [] = ok tt
reject_duplicate_observations seen (o ∷ os) =
    let rest = reject_duplicate_observations (o.asset_id ∷ seen) os in
    if contains seen o.asset_id
    then err (governance_validation_error "planner: duplicate observation")
    else rest

-- `observed_by_asset.get(asset_id)`
abbrev pub observed : List ObservedState → String → Option ObservedState
observed observations asset_id = find_first (λ o. o.asset_id == asset_id) observations

unfoldable pub plan_change : ChangeType → Option String → Asset → PlanChange
plan_change change_type before_revision a = record {
  change_type = change_type;
  asset_id = a.id;
  before_revision = before_revision;
  after_revision = some a.source_revision;
  before_visibility = none;
  after_visibility = some a.visibility;
  binding_id = none;
  permission_delta = [];
  evidence_refs = [];
}

-- The change for one asset, if it needs one.
unfoldable pub change_for : List ObservedState → Asset → Option PlanChange
change_for observations a = elim (observed observations a.id) [
  | none ↦ some (plan_change create none a)
  | some current ↦
      if current.revision != a.source_revision || current.checksum != a.source_checksum
      then some (plan_change update (some current.revision) a)
      else none
]

-- The loop over the sorted assets.
unfoldable pub changes_for : List ObservedState → List Asset → List PlanChange
changes_for observations [] = []
changes_for observations (a ∷ assets) =
    let rest = changes_for observations assets in
    elim (change_for observations a) [ none ↦ rest | some change ↦ change ∷ rest ]

unfoldable pub calculate_changes : List Asset → List ObservedState → Result (List PlanChange)
calculate_changes desired observations = do
  reject_duplicate_observations [] observations
  ok (changes_for observations (sort_by (λ a. a.id) desired))
