-- ===== src/Presentation/Laws.antt =====
-- The page shows exactly the assets of the snapshot that match the filters.
use skill_governance_control.Base.{
  ℕ, ◌≤◌, String, Bool, true, none, some, List, map, select, length, All, All-weaken, Any,
  Option-cases, ◌⊎◌, ◌≡◌, refl, sym, ap, ◌∙◌, subst, inl, inr, arith, if◌then◌else◌,
}
use skill_governance_control.Base.Sorting.{sort_by, All-sort_by, All-of_sort_by}
use skill_governance_control.Inventory.{
  RuntimeSkillInstance, RuntimeSkillAsset, RuntimeInventorySnapshot, RuntimeInventoryReadResult,
}
use skill_governance_control.Presentation.{
  InventoryFilters, InventoryAssetPresentation, InventoryPresentation, asset_presentation,
  matches_filters, shown_assets, snapshot_presentation, unavailable_presentation, presentation_of,
  build_inventory_presentation,
}
use skill_governance_control.Presentation.Shown.{
  Any-map, All-in, All-select, length-select, length-sort_by, All-map_of, length-map, All-shown,
}
use skill_governance_control.Presentation.Matching.{Matches}
use skill_governance_control.Presentation.Filters.{matches_filters-Matches, Matches-matches_filters}

-- What the page says of an asset.
pub record IsView (v : InventoryAssetPresentation) (a : RuntimeSkillAsset) : Type 0 where
  pub same_key : v.key ≡ a.key
  pub same_name : v.name ≡ a.name
  pub same_description : v.description ≡ a.description
  pub same_status : v.status ≡ a.status
  pub same_source :
      ((a.source_instance ≡ none) × (v.source_label ≡ "目标本地"))
      ⊎ ((i : RuntimeSkillInstance) × (a.source_instance ≡ some i) × (v.source_label ≡ "共享源"))

asset_presentation-IsView :
    (casefold : String → String) (n : ℕ) (v : InventoryAssetPresentation) (a : RuntimeSkillAsset)
    → v ≡ asset_presentation casefold n a
    → IsView v a
unfolding asset_presentation
asset_presentation-IsView casefold n v a e = record {
  same_key = ap (λ x. x.key) e;
  same_name = ap (λ x. x.name) e;
  same_description = ap (λ x. x.description) e;
  same_status = ap (λ x. x.status) e;
  same_source = elim (Option-cases a.source_instance) [
    | inl k ↦ inl (k, ap (λ x. x.source_label) e ∙ rw k refl)
    | inr (i, k) ↦ inr (i, k, ap (λ x. x.source_label) e ∙ rw k refl)
  ];
}

-- The assets shown are those of the snapshot that have what the filters ask.
pub IsFiltered :
    (String → String)
    → RuntimeInventorySnapshot
    → InventoryFilters
    → List InventoryAssetPresentation
    → Type 0
IsFiltered casefold s filters shown =
    All (λ v. Any (λ a. IsView v a × Matches casefold s filters a) s.assets) shown
    × All (λ a. Matches casefold s filters a → Any (λ v. IsView v a) shown) s.assets

-- The same, by the test and the view that the code makes.
abbrev IsSelected :
    (String → String)
    → RuntimeInventorySnapshot
    → InventoryFilters
    → List InventoryAssetPresentation
    → Type 0
IsSelected casefold s filters shown =
    All
      (λ v.
        Any
          (λ a.
            (v ≡ asset_presentation casefold (length s.targets) a)
            × (matches_filters casefold s filters a ≡ true))
          s.assets)
      shown
    × All
        (λ a.
          matches_filters casefold s filters a ≡ true
          → Any (λ v. v ≡ asset_presentation casefold (length s.targets) a) shown)
        s.assets

IsSelected-IsFiltered :
    (casefold : String → String) (s : RuntimeInventorySnapshot) (filters : InventoryFilters)
    (shown : List InventoryAssetPresentation)
    → IsSelected casefold s filters shown
    → IsFiltered casefold s filters shown
unfolding IsFiltered
IsSelected-IsFiltered casefold s filters shown (sound, complete) =
    let n : ℕ = length s.targets in
    (
      All-weaken _ _
          (λ v k.
            Any-map
              (λ a q. (
                asset_presentation-IsView casefold n v a q.0,
                matches_filters-Matches casefold s filters a q.1,
              ))
              s.assets k)
          shown sound,
      All-weaken _ _
          (λ a f m.
            Any-map (λ v e. asset_presentation-IsView casefold n v a e) shown
              (f (Matches-matches_filters casefold s filters a m)))
          s.assets complete,
    )

shown_assets-IsSelected :
    (casefold : String → String) (s : RuntimeInventorySnapshot) (filters : InventoryFilters)
    → IsSelected casefold s filters (shown_assets casefold s filters)
      × (length (shown_assets casefold s filters) ≤ length s.assets)
unfolding shown_assets
shown_assets-IsSelected casefold s filters =
    let view : RuntimeSkillAsset → InventoryAssetPresentation =
      asset_presentation casefold (length s.targets) in
    let p : RuntimeSkillAsset → Bool = matches_filters casefold s filters in
    let by_key : List RuntimeSkillAsset = sort_by (λ a. casefold a.key) s.assets in
    let sorted : List RuntimeSkillAsset = sort_by (λ a. casefold a.name) by_key in
    let In : RuntimeSkillAsset → Type 0 = λ a. Any (λ b. a ≡ b) s.assets in
    let Shown : InventoryAssetPresentation → Type 0 =
      λ v. Any (λ a. (v ≡ view a) × (p a ≡ true)) s.assets in
    let Found : RuntimeSkillAsset → Type 0 =
      λ a. p a ≡ true → Any (λ v. v ≡ view a) (map view (select p sorted)) in
    (
      (
        All-map_of view Shown (select p sorted) (
            All-select In (λ a. Shown (view a)) p
              (λ a k e. Any-map (λ b q. (ap view q, subst (λ x. p x ≡ true) q e)) s.assets k) sorted
              (All-sort_by (λ a. casefold a.name) In by_key
                (All-sort_by (λ a. casefold a.key) In s.assets
                  (All-in s.assets s.assets (λ a k. k))))),
        All-of_sort_by (λ a. casefold a.key) Found s.assets
            (All-of_sort_by (λ a. casefold a.name) Found by_key
              (All-shown view p (map view (select p sorted)) sorted (λ v k. k))),
      ),
      omega (
        arith,
        length-map view (select p sorted),
        length-select p sorted,
        length-sort_by (λ a. casefold a.name) by_key,
        length-sort_by (λ a. casefold a.key) s.assets,
      ),
    )

-- For a result with a snapshot: each asset that the page shows has the key, name, description, status
-- and kind of source of an asset of the snapshot that has what every filter asks, and each such asset
-- is shown. A blank filter asks nothing; the search text has to stand in the name or the description,
-- with case folded; the status has to be the asset's; a shared or a local source has to be there or
-- not; the target has to be one of the snapshot, with the asset on it or missing there. The page
-- shows no more assets than it counts in all.
pub build_inventory_presentation-IsFiltered :
    (casefold : String → String) (result : RuntimeInventoryReadResult)
    (s : RuntimeInventorySnapshot) (filters : InventoryFilters)
    → result.available ≡ true
    → result.snapshot ≡ some s
    → let page = build_inventory_presentation casefold result filters in
      IsFiltered casefold s filters page.assets × (length page.assets ≤ page.unique_skill_count)
unfolding build_inventory_presentation snapshot_presentation
build_inventory_presentation-IsFiltered casefold result s filters available found =
    let same : build_inventory_presentation casefold result filters
        ≡ snapshot_presentation casefold result s filters =
      ap
        (λ b.
          if b
          then presentation_of casefold result filters result.snapshot
          else unavailable_presentation result filters)
        available
      ∙ ap (presentation_of casefold result filters) found in
    let shown = shown_assets-IsSelected casefold s filters in
    subst
      (λ (page : InventoryPresentation).
        IsFiltered casefold s filters page.assets × (length page.assets ≤ page.unique_skill_count))
      (sym same)
      (IsSelected-IsFiltered casefold s filters (shown_assets casefold s filters) shown.0, shown.1)
