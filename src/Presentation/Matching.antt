-- ===== src/Presentation/Matching.antt =====
-- What the filters of the inventory's page ask of an asset, apart from how `_matches_filters` of
-- web/inventory_presentation.py tests it.
use skill_governance_control.Base.{
  ℕ, String, Bool, true, ◌&&◌, ◌||◌, none, some, List, [], ◌∷◌, ◌++◌, Any, string_eq, Bool-cases,
  ◌≡◌, refl, ap, ◌⊎◌, inl, inr, arith,
}
use skill_governance_control.Base.Text.{codes}
use skill_governance_control.Base.Lines.{strip}
use skill_governance_control.Inventory.{
  RuntimeTarget, RuntimeSkillInstance, RuntimeSkillAsset, RuntimeInventorySnapshot,
}
use skill_governance_control.Inventory.Dump.{status_text}
use skill_governance_control.Presentation.{
  InventoryFilters, begins_with, occurs_in, is_part, or_empty,
}

-- A text stands somewhere in another.
pub IsPart : String → String → Type 0
IsPart needle text = (before behind : List ℕ) × (codes text ≡ before ++ (codes needle ++ behind))

-- The search text is blank, or stands in the name or in the description, with case folded.
pub data AsksQuery (casefold : String → String) (q : String) (a : RuntimeSkillAsset) : Type 0 where
  any_query : casefold (strip q) ≡ "" → AsksQuery casefold q a
  in_name : IsPart (casefold (strip q)) (casefold a.name) → AsksQuery casefold q a
  in_description :
      IsPart (casefold (strip q)) (casefold (or_empty a.description)) → AsksQuery casefold q a

pub data AsksStatus (status : String) (a : RuntimeSkillAsset) : Type 0 where
  any_status : status ≡ "" → AsksStatus status a
  has_status : status ≡ status_text a.status → AsksStatus status a

pub data AsksSource (source : String) (a : RuntimeSkillAsset) : Type 0 where
  any_source : source ≡ "" → AsksSource source a
  from_shared :
      (i : RuntimeSkillInstance)
      → source ≡ "shared"
      → a.source_instance ≡ some i
      → AsksSource source a
  from_target : source ≡ "local_only" → a.source_instance ≡ none → AsksSource source a

-- The target is one of the snapshot, and the asset is on it or is missing there.
pub data AsksTarget (targets : List RuntimeTarget) (name : String) (a : RuntimeSkillAsset)
    : Type 0 where
  any_target : name ≡ "" → AsksTarget targets name a
  on_target :
      Any (λ t. t.name ≡ name) targets
      → Any (λ i. i.target_name ≡ some name) a.target_instances
      → AsksTarget targets name a
  not_on_target :
      Any (λ t. t.name ≡ name) targets
      → Any (λ m. m ≡ name) a.missing_targets
      → AsksTarget targets name a

pub record Matches (casefold : String → String) (s : RuntimeInventorySnapshot)
    (filters : InventoryFilters) (a : RuntimeSkillAsset) : Type 0 where
  pub query : AsksQuery casefold filters.q a
  pub status : AsksStatus filters.status a
  pub source : AsksSource filters.source a
  pub target : AsksTarget s.targets filters.target a

pub or_true : (a b : Bool) → (a || b) ≡ true → (a ≡ true) ⊎ (b ≡ true)
or_true a b h = elim (Bool-cases a) [ inl e ↦ inl e | inr e ↦ inr (ground arith) ]

pub and_true : (a b : Bool) → (a && b) ≡ true → (a ≡ true) × (b ≡ true)
and_true a b h = (ground arith, ground arith)

begins_with_sound :
    (ns cs : List ℕ) → begins_with ns cs ≡ true → (behind : List ℕ) × (cs ≡ ns ++ behind)
unfolding begins_with
begins_with_sound [] cs h = (cs, refl)
begins_with_sound (n ∷ ns) [] h = ground arith
begins_with_sound (n ∷ ns) (c ∷ cs) h =
    let (behind, e) = begins_with_sound ns cs (ground arith) in (behind, ground arith)

begins_with-append : (ns behind : List ℕ) → begins_with ns (ns ++ behind) ≡ true
unfolding begins_with
begins_with-append [] behind = refl
begins_with-append (n ∷ ns) behind = ground (arith, begins_with-append ns behind)

occurs_in_sound :
    (ns cs : List ℕ)
    → occurs_in ns cs ≡ true
    → (before behind : List ℕ) × (cs ≡ before ++ (ns ++ behind))
unfolding occurs_in
occurs_in_sound ns [] h = let (behind, e) = begins_with_sound ns [] h in ([], behind, e)
occurs_in_sound ns (c ∷ cs) h = elim (or_true (begins_with ns (c ∷ cs)) (occurs_in ns cs) h) [
  | inl here ↦ let (behind, e) = begins_with_sound ns (c ∷ cs) here in ([], behind, e)
  | inr there ↦
      let (before, behind, e) = occurs_in_sound ns cs there in
      (c ∷ before, behind, ap (λ l. c ∷ l) e)
]

occurs_in-start : (ns cs : List ℕ) → begins_with ns cs ≡ true → occurs_in ns cs ≡ true
unfolding occurs_in
occurs_in-start ns [] h = h
occurs_in-start ns (c ∷ cs) h = rw h

occurs_in-append : (ns before behind : List ℕ) → occurs_in ns (before ++ (ns ++ behind)) ≡ true
unfolding occurs_in
occurs_in-append ns [] behind = occurs_in-start ns (ns ++ behind) (begins_with-append ns behind)
occurs_in-append ns (c ∷ before) behind = ground (arith, occurs_in-append ns before behind)

pub is_part_sound : (needle text : String) → is_part needle text ≡ true → IsPart needle text
unfolding IsPart
is_part_sound needle text h = occurs_in_sound (codes needle) (codes text) h

pub is_part-IsPart : (needle text : String) → IsPart needle text → is_part needle text ≡ true
unfolding IsPart
is_part-IsPart needle text (before, behind, e) =
    rw e (occurs_in-append (codes needle) before behind)
