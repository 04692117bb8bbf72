-- ===== src/Repository/Snapshot/Integrity.antt =====
-- What a snapshot that `load_snapshot` returns guarantees to the planner and to the deployments.
use skill_governance_control.Base.{
  String, Bool, true, false, some, List, [], ◌∷◌, map, contains, All, ok, >>=-eq-ok, ◌≡◌, arith,
  Bool-cases, inl, inr, ◌==◌, string_eq, subst, ok-injective, sym, ap, raise_if-ok, >>-eq-ok, not,
}
use skill_governance_control.Base.Sorting.{sort_by}
use skill_governance_control.Base.Text.{is_blank}
use skill_governance_control.Models.{
  Asset, Target, DeploymentProfile, ProfileMembership, ConsumerBinding, ObservedState,
}
use skill_governance_control.Repository.Snapshot.{
  GovernanceSnapshot, Document, items, invalid, raised, Documents, load_document,
  reject_duplicate_ids, is_disallowed, find_asset, reject_disallowed_asset, check_memberships,
  check_bindings, check_observations, check_snapshot, load_snapshot,
}

-- No id stands twice, and none among `seen`.
abbrev pub Fresh : List String → List String → Type 0
Fresh seen [] = Unit
Fresh seen (id ∷ ids) = (contains seen id ≡ false) × Fresh (id ∷ seen) ids

reject_duplicate_ids-Fresh :
    (kind : String) (seen ids : List String)
    → reject_duplicate_ids kind seen ids ≡ ok tt
    → Fresh seen ids
unfolding reject_duplicate_ids
reject_duplicate_ids-Fresh kind seen [] h = tt
reject_duplicate_ids-Fresh kind seen (id ∷ ids) h =
    ground (arith, reject_duplicate_ids-Fresh kind (id ∷ seen) ids)

-- The asset of a relation is known, and neither quarantined nor deferred.
abbrev pub IsAllowed : List Asset → String → Type 0
IsAllowed assets id = (a : Asset) × (find_asset assets id ≡ some a) × (is_disallowed a ≡ false)

find_asset-known :
    (assets : List Asset) (id : String)
    → contains (map (λ a. a.id) assets) id ≡ true
    → (a : Asset) × (find_asset assets id ≡ some a)
find_asset-known [] id h = ground arith
find_asset-known (a ∷ assets) id h = elim (Bool-cases (a.id == id)) [
  | inl same ↦ (a, rw same)
  | inr differ ↦ let (b, e) = find_asset-known assets id (ground arith) in (b, rw differ e)
]

abbrev pub MembershipHolds : List Asset → List DeploymentProfile → ProfileMembership → Type 0
MembershipHolds assets profiles m =
    IsAllowed assets m.asset_id × (contains (map (λ p. p.id) profiles) m.profile_id ≡ true)

abbrev pub BindingHolds : List Asset → List Target → ConsumerBinding → Type 0
BindingHolds assets targets b =
    IsAllowed assets b.asset_id
    × (contains (map (λ t. t.id) targets) b.target_id ≡ true)
    × (is_blank b.consumer_id ≡ false)

abbrev pub ObservationHolds : List Asset → List Target → ObservedState → Type 0
ObservationHolds assets targets o =
    (contains (map (λ a. a.id) assets) o.asset_id ≡ true)
    × (contains (map (λ t. t.id) targets) o.target_id ≡ true)

not-eq-false : (b : Bool) → not b ≡ false → b ≡ true
not-eq-false b h = ground arith

IsAllowed-of_checks :
    (kind : String) (assets : List Asset) (id : String)
    → contains (map (λ a. a.id) assets) id ≡ true
    → reject_disallowed_asset kind id assets ≡ ok tt
    → IsAllowed assets id
unfolding reject_disallowed_asset
IsAllowed-of_checks kind assets id known h =
    let (a, e) = find_asset-known assets id known in
    (a, e, raise_if-ok (is_disallowed a) _ (rw (e, reject_disallowed_asset) at h))

check_memberships-All :
    (assets : List Asset) (profiles : List DeploymentProfile) (ms : List ProfileMembership)
    → check_memberships assets profiles ms ≡ ok tt
    → All (MembershipHolds assets profiles) ms
unfolding check_memberships
check_memberships-All assets profiles [] h = tt
check_memberships-All assets profiles (m ∷ ms) h =
    let (p, h₁) = >>-eq-ok _ _ h in
    let (q, h₂) = >>-eq-ok _ _ h₁ in
    let (r, h₃) = >>-eq-ok _ _ h₂ in
    let known = not-eq-false _ (raise_if-ok _ _ p) in
    (
      (
        IsAllowed-of_checks "profile-memberships" assets m.asset_id known r,
        not-eq-false _ (raise_if-ok _ _ q),
      ),
      check_memberships-All assets profiles ms h₃,
    )

check_bindings-All :
    (assets : List Asset) (targets : List Target) (bs : List ConsumerBinding)
    → check_bindings assets targets bs ≡ ok tt
    → All (BindingHolds assets targets) bs
unfolding check_bindings
check_bindings-All assets targets [] h = tt
check_bindings-All assets targets (b ∷ bs) h =
    let (p, h₁) = >>-eq-ok _ _ h in
    let (q, h₂) = >>-eq-ok _ _ h₁ in
    let (r, h₃) = >>-eq-ok _ _ h₂ in
    let (s, h₄) = >>-eq-ok _ _ h₃ in
    let known = not-eq-false _ (raise_if-ok _ _ p) in
    (
      (
        IsAllowed-of_checks "consumer-bindings" assets b.asset_id known s,
        not-eq-false _ (raise_if-ok _ _ q),
        raise_if-ok _ _ r,
      ),
      check_bindings-All assets targets bs h₄,
    )

check_observations-All :
    (assets : List Asset) (targets : List Target) (os : List ObservedState)
    → check_observations assets targets os ≡ ok tt
    → All (ObservationHolds assets targets) os
unfolding check_observations
check_observations-All assets targets [] h = tt
check_observations-All assets targets (o ∷ os) h =
    let (p, h₁) = >>-eq-ok _ _ h in
    let (q, h₂) = >>-eq-ok _ _ h₁ in
    (
      (not-eq-false _ (raise_if-ok _ _ p), not-eq-false _ (raise_if-ok _ _ q)),
      check_observations-All assets targets os h₂,
    )

-- Every id is unique in its document, and every relation refers to what the snapshot holds.
pub record HasIntegrity (s : GovernanceSnapshot) : Type 0 where
  pub assets_unique : Fresh [] (map (λ a. a.id) s.assets)
  pub targets_unique : Fresh [] (map (λ t. t.id) s.targets)
  pub profiles_unique : Fresh [] (map (λ p. p.id) s.profiles)
  pub memberships_unique : Fresh [] (map (λ m. m.id) s.memberships)
  pub bindings_unique : Fresh [] (map (λ b. b.id) s.bindings)
  pub observations_unique : Fresh [] (map (λ o. o.id) s.observations)
  pub memberships_hold : All (MembershipHolds s.assets s.profiles) s.memberships
  pub bindings_hold : All (BindingHolds s.assets s.targets) s.bindings
  pub observations_hold : All (ObservationHolds s.assets s.targets) s.observations

check_snapshot-HasIntegrity : (s : GovernanceSnapshot) → check_snapshot s ≡ ok tt → HasIntegrity s
unfolding check_snapshot
check_snapshot-HasIntegrity s h =
    let (a, h₁) = >>-eq-ok _ _ h in
    let (b, h₂) = >>-eq-ok _ _ h₁ in
    let (d, h₃) = >>-eq-ok _ _ h₂ in
    let (e, h₄) = >>-eq-ok _ _ h₃ in
    let (f, h₅) = >>-eq-ok _ _ h₄ in
    let (g, h₆) = >>-eq-ok _ _ h₅ in
    let (i, h₇) = >>-eq-ok _ _ h₆ in
    let (j, k) = >>-eq-ok _ _ h₇ in
    record {
      assets_unique = reject_duplicate_ids-Fresh _ _ _ a;
      targets_unique = reject_duplicate_ids-Fresh _ _ _ b;
      profiles_unique = reject_duplicate_ids-Fresh _ _ _ d;
      memberships_unique = reject_duplicate_ids-Fresh _ _ _ e;
      bindings_unique = reject_duplicate_ids-Fresh _ _ _ f;
      observations_unique = reject_duplicate_ids-Fresh _ _ _ g;
      memberships_hold = check_memberships-All _ _ _ i;
      bindings_hold = check_bindings-All _ _ _ j;
      observations_hold = check_observations-All _ _ _ k;
    }

-- What a document lists, in the order of its ids.
abbrev pub Lists : {A : Type 0} → (A → String) → Document A → List A → Type 0
Lists {A} key file xs = (listed : List A) × (file ≡ items listed) × (xs ≡ sort_by key listed)

-- All six documents were loaded, and the snapshot has their items, sorted by id.
pub record IsLoaded (d : Documents) (s : GovernanceSnapshot) : Type 0 where
  pub assets_loaded : Lists (λ x. x.id) d.asset_file s.assets
  pub targets_loaded : Lists (λ x. x.id) d.target_file s.targets
  pub profiles_loaded : Lists (λ x. x.id) d.profile_file s.profiles
  pub memberships_loaded : Lists (λ x. x.id) d.membership_file s.memberships
  pub bindings_loaded : Lists (λ x. x.id) d.binding_file s.bindings
  pub observations_loaded : Lists (λ x. x.id) d.observation_file s.observations

load_document-ok :
    {A : Type 0} (kind : String) (file : Document A) (xs : List A)
    → load_document kind file ≡ ok xs
    → file ≡ items xs
unfolding load_document
load_document-ok kind (items ys) xs h = ap items (ok-injective h)
load_document-ok kind invalid xs h = ground arith
load_document-ok kind (raised name) xs h = ground arith

-- A snapshot is returned only if all six documents were loaded, and it has exactly their items, sorted
-- by id; then no document lists an id twice, every membership and binding refers to a known asset that
-- is neither quarantined nor deferred and to a known profile or target, no binding has a blank
-- consumer, and every observation is of a known asset on a known target.
pub load_snapshot-HasIntegrity :
    (d : Documents) (s : GovernanceSnapshot)
    → load_snapshot d ≡ ok s
    → IsLoaded d s × HasIntegrity s
unfolding load_snapshot
load_snapshot-HasIntegrity d s h =
    let (a, p, h₁) = >>=-eq-ok (load_document "assets" d.asset_file) _ h in
    let (b, q, h₂) = >>=-eq-ok (load_document "targets" d.target_file) _ h₁ in
    let (e, r, h₃) = >>=-eq-ok (load_document "profiles" d.profile_file) _ h₂ in
    let (f, u, h₄) = >>=-eq-ok (load_document "profile-memberships" d.membership_file) _ h₃ in
    let (g, v, h₅) = >>=-eq-ok (load_document "consumer-bindings" d.binding_file) _ h₄ in
    let (i, w, h₆) = >>=-eq-ok (load_document "observed-states" d.observation_file) _ h₅ in
    let (k, h₇) = >>-eq-ok _ _ h₆ in
    let same = ok-injective h₇ in
    (
      record {
        assets_loaded = (a, load_document-ok _ _ _ p, sym (ap (λ x. x.assets) same));
        targets_loaded = (b, load_document-ok _ _ _ q, sym (ap (λ x. x.targets) same));
        profiles_loaded = (e, load_document-ok _ _ _ r, sym (ap (λ x. x.profiles) same));
        memberships_loaded = (f, load_document-ok _ _ _ u, sym (ap (λ x. x.memberships) same));
        bindings_loaded = (g, load_document-ok _ _ _ v, sym (ap (λ x. x.bindings) same));
        observations_loaded = (i, load_document-ok _ _ _ w, sym (ap (λ x. x.observations) same));
      },
      subst HasIntegrity same (check_snapshot-HasIntegrity _ k),
    )
