-- ===== src/Inventory/Discovery/Laws/Ignoring.antt =====
-- What Skillshare ignores is in no asset of the inventory.
use skill_governance_control.Base.{
  String, true, false, List, [], ◌∷◌, ◌++◌, map, contains, All, All-weaken, ok, >>=-eq-ok,
  ok-injective, ◌==◌, string_eq, Bool-cases, ◌≡◌, refl, sym, ap, ap₂, ◌∙◌, subst, inl, inr, arith,
  eq_of_==,
}
use skill_governance_control.Inventory.{ScanLimits, RuntimeIgnoredSkill, RuntimeInventorySnapshot}
use skill_governance_control.Inventory.Discovery.{
  ScannedSkill, Surroundings, not_ignored, gather, snapshot_of, discover,
}
use skill_governance_control.Inventory.Discovery.Laws.Groups.{named, is_nil}
use skill_governance_control.Inventory.Discovery.Laws.Grouping.{aggregate_assets-IsAssetOf}

named-append :
    (name : String) (xs ys : List ScannedSkill)
    → named name (xs ++ ys) ≡ named name xs ++ named name ys
named-append name [] ys = refl
named-append name (x ∷ xs) ys = elim (Bool-cases (x.name == name)) [
  | inl e ↦ rw e (ap (λ l. x ∷ l) (named-append name xs ys))
  | inr e ↦ rw e (named-append name xs ys)
]

named-not_ignored :
    (ignored : List RuntimeIgnoredSkill) (name : String) (skills : List ScannedSkill)
    → contains (map (λ i. i.name) ignored) name ≡ true
    → named name (not_ignored ignored skills) ≡ []
unfolding not_ignored
named-not_ignored ignored name [] h = refl
named-not_ignored ignored name (s ∷ skills) h =
    elim (Bool-cases (contains (map (λ i. i.name) ignored) s.name)) [
      | inl e ↦ rw (e, not_ignored) (named-not_ignored ignored name skills h)
      | inr e ↦ elim (Bool-cases (s.name == name)) [
        | inl same ↦
            let n : s.name ≡ name = eq_of_== s.name name same in
            let broken : true ≡ false = sym (rw n h) ∙ e in ground arith
        | inr other ↦ rw (e, not_ignored, other) (named-not_ignored ignored name skills h)
      ]
    ]

-- A name that is left is not ignored.
named_left :
    (ignored : List RuntimeIgnoredSkill) (xs ys : List ScannedSkill) (name : String)
    → is_nil (named name (not_ignored ignored xs ++ not_ignored ignored ys)) ≡ false
    → contains (map (λ i. i.name) ignored) name ≡ false
named_left ignored xs ys name h = elim (Bool-cases (contains (map (λ i. i.name) ignored) name)) [
  | inl e ↦
      let none_left : named name (not_ignored ignored xs ++ not_ignored ignored ys) ≡ [] =
        named-append name (not_ignored ignored xs) (not_ignored ignored ys)
        ∙ ap₂ (λ l m. l ++ m) (named-not_ignored ignored name xs e)
            (named-not_ignored ignored name ys e) in
      let broken : true ≡ false = subst (λ l. is_nil l ≡ false) none_left h in ground arith
  | inr e ↦ e
]

-- No asset has an ignored name.
abbrev pub IsIgnoring : RuntimeInventorySnapshot → Type 0
IsIgnoring s = All (λ a. contains (map (λ i. i.name) s.ignored) a.name ≡ false) s.assets

-- A snapshot that `discover` returns has no asset whose name is that of an ignored skill.
pub discover-IsIgnoring :
    (s : Surroundings) (limits : ScanLimits) (snapshot : RuntimeInventorySnapshot)
    → discover s limits ≡ ok snapshot
    → IsIgnoring snapshot
unfolding discover snapshot_of
discover-IsIgnoring s limits snapshot h =
    let (r, _, same) = >>=-eq-ok (gather s limits) (λ r. ok (snapshot_of s limits r)) h in
    subst IsIgnoring (ok-injective same) (
      All-weaken _ _ (λ a k. named_left r.ignored _ _ a.name k.1) _
        (aggregate_assets-IsAssetOf s.matches _ _ _))
