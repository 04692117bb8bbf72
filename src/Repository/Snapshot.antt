-- ===== src/Repository/Snapshot.antt =====
-- `load_snapshot` of repository.py. What YAML and the field checks make of a file is an argument.
pub mod Integrity
use skill_governance_control.Base.{
  String, ◌<>◌, Bool, true, false, ◌||◌, Option, none, some, List, [], ◌∷◌, map, contains,
  find_first, Result, ok, err, governance_validation_error, other_exception, raise_if, ◌>>=◌, ◌>>◌,
  ◌==◌, string_eq, not, if◌then◌else◌,
}
use skill_governance_control.Base.Sorting.{sort_by}
use skill_governance_control.Base.Text.{is_blank}
use skill_governance_control.Models.{
  Asset, Target, DeploymentProfile, ProfileMembership, ConsumerBinding, ObservedState,
}

pub record GovernanceSnapshot : Type 0 where
  pub assets : List Asset
  pub targets : List Target
  pub profiles : List DeploymentProfile
  pub memberships : List ProfileMembership
  pub bindings : List ConsumerBinding
  pub observations : List ObservedState

-- What reading, parsing and validating a file ends in: the `items` of the document, an `OSError`,
-- `YAMLError` or `ValidationError`, or another exception, such as the `UnicodeDecodeError` of a file
-- that is not UTF-8.
pub data Document (A : Type 0) : Type 0 where
  items : List A → Document A
  invalid : Document A
  raised : String → Document A

-- The six files.
pub record Documents : Type 0 where
  pub asset_file : Document Asset
  pub target_file : Document Target
  pub profile_file : Document DeploymentProfile
  pub membership_file : Document ProfileMembership
  pub binding_file : Document ConsumerBinding
  pub observation_file : Document ObservedState

-- `load_document`
unfoldable pub load_document : {A : Type 0} → String → Document A → Result (List A)
load_document kind invalid = err (governance_validation_error (kind <> ": invalid document"))
load_document kind (raised name) = err (other_exception name)
load_document kind (items xs) = ok xs

-- `_reject_duplicate_ids`
unfoldable pub reject_duplicate_ids : String → List String → List String → Result (Unit {0})
reject_duplicate_ids kind seen [] = ok tt
reject_duplicate_ids kind seen (id ∷ ids) =
    let rest = reject_duplicate_ids kind (id ∷ seen) ids in
    if contains seen id
    then err (governance_validation_error (kind <> ": duplicate id " <> id))
    else rest

-- `lifecycle in {"quarantined", "deferred"}`
unfoldable pub is_disallowed : Asset → Bool
is_disallowed a = a.lifecycle == "quarantined" || a.lifecycle == "deferred"

abbrev pub find_asset : List Asset → String → Option Asset
find_asset assets id = find_first (λ a. a.id == id) assets

-- `_reject_disallowed_relationship_asset`; the caller has checked that the asset is known.
unfoldable pub reject_disallowed_asset : String → String → List Asset → Result (Unit {0})
reject_disallowed_asset kind id assets = elim (find_asset assets id) [
  | none ↦ ok tt
  | some a ↦
      raise_if (is_disallowed a) (governance_validation_error (kind <> ": disallowed asset " <> id))
]

-- The three loops over the relations of `load_snapshot`.
unfoldable pub check_memberships :
    List Asset → List DeploymentProfile → List ProfileMembership → Result (Unit {0})
check_memberships assets profiles [] = ok tt
check_memberships assets profiles (m ∷ ms) = do
  raise_if (not (contains (map (λ a. a.id) assets) m.asset_id))
      (governance_validation_error ("profile-memberships: unknown asset " <> m.asset_id))
  raise_if (not (contains (map (λ p. p.id) profiles) m.profile_id))
      (governance_validation_error ("profile-memberships: unknown profile " <> m.profile_id))
  reject_disallowed_asset "profile-memberships" m.asset_id assets
  check_memberships assets profiles ms

unfoldable pub check_bindings : List Asset → List Target → List ConsumerBinding → Result (Unit {0})
check_bindings assets targets [] = ok tt
check_bindings assets targets (b ∷ bs) = do
  raise_if (not (contains (map (λ a. a.id) assets) b.asset_id))
      (governance_validation_error ("consumer-bindings: unknown asset " <> b.asset_id))
  raise_if (not (contains (map (λ t. t.id) targets) b.target_id))
      (governance_validation_error ("consumer-bindings: unknown target " <> b.target_id))
  raise_if (is_blank b.consumer_id)
      (governance_validation_error ("consumer-bindings: blank consumer id " <> b.id))
  reject_disallowed_asset "consumer-bindings" b.asset_id assets
  check_bindings assets targets bs

unfoldable pub check_observations :
    List Asset → List Target → List ObservedState → Result (Unit {0})
check_observations assets targets [] = ok tt
check_observations assets targets (o ∷ os) = do
  raise_if (not (contains (map (λ a. a.id) assets) o.asset_id))
      (governance_validation_error ("observed-states: unknown asset " <> o.asset_id))
  raise_if (not (contains (map (λ t. t.id) targets) o.target_id))
      (governance_validation_error ("observed-states: unknown target " <> o.target_id))
  check_observations assets targets os

-- The checks of `load_snapshot`, on the sorted documents.
unfoldable pub check_snapshot : GovernanceSnapshot → Result (Unit {0})
check_snapshot s = do
  reject_duplicate_ids "assets" [] (map (λ a. a.id) s.assets)
  reject_duplicate_ids "targets" [] (map (λ t. t.id) s.targets)
  reject_duplicate_ids "profiles" [] (map (λ p. p.id) s.profiles)
  reject_duplicate_ids "profile-memberships" [] (map (λ m. m.id) s.memberships)
  reject_duplicate_ids "consumer-bindings" [] (map (λ b. b.id) s.bindings)
  reject_duplicate_ids "observed-states" [] (map (λ o. o.id) s.observations)
  check_memberships s.assets s.profiles s.memberships
  check_bindings s.assets s.targets s.bindings
  check_observations s.assets s.targets s.observations

unfoldable pub load_snapshot : Documents → Result GovernanceSnapshot
load_snapshot d = do
  assets ← load_document "assets" d.asset_file
  targets ← load_document "targets" d.target_file
  profiles ← load_document "profiles" d.profile_file
  memberships ← load_document "profile-memberships" d.membership_file
  bindings ← load_document "consumer-bindings" d.binding_file
  observations ← load_document "observed-states" d.observation_file
  let s : GovernanceSnapshot = record {
    assets = sort_by (λ a. a.id) assets;
    targets = sort_by (λ t. t.id) targets;
    profiles = sort_by (λ p. p.id) profiles;
    memberships = sort_by (λ m. m.id) memberships;
    bindings = sort_by (λ b. b.id) bindings;
    observations = sort_by (λ o. o.id) observations;
  }
  check_snapshot s
  ok s
