-- ===== src/Presentation/Filters.antt =====
-- `_matches_filters` of web/inventory_presentation.py tests exactly what the filters ask.
use skill_governance_control.Base.{
  String, Bool, true, ◌||◌, not, Option, none, some, List, [], ◌∷◌, map, any, contains, Any, first,
  later, ◌==◌, string_eq, option_eq, eq_of_==, ==_refl, ◌≡◌, refl, sym, ap, ◌∙◌, inl, inr, arith,
}
use skill_governance_control.Base.Lines.{strip}
use skill_governance_control.Inventory.{
  RuntimeSkillStatus, RuntimeTarget, RuntimeSkillAsset, RuntimeInventorySnapshot, is_absent,
  consistent, diverged, missing, local_only, scan_warning,
}
use skill_governance_control.Inventory.Dump.{status_text}
use skill_governance_control.Presentation.{
  InventoryFilters, or_empty, status_order, matches_query, matches_status, matches_source,
  matches_target, matches_filters,
}
use skill_governance_control.Presentation.Matching.{
  AsksQuery, any_query, in_name, in_description, AsksStatus, any_status, has_status, AsksSource,
  any_source, from_shared, from_target, AsksTarget, any_target, on_target, not_on_target, Matches,
  or_true, and_true, is_part_sound, is_part-IsPart,
}

-- Python's `any` and `in`, by an item of the list.
module _ {ℓ} {A : Type ℓ} where
  Any-of_any {κ} :
      (P : A → Type κ) (p : A → Bool) (xs : List A)
      → ((x : A) → p x ≡ true → P x)
      → any p xs ≡ true
      → Any P xs
  Any-of_any P p [] f h = ground arith
  Any-of_any P p (x ∷ xs) f h = elim (or_true (p x) (any p xs) h) [
    | inl here ↦ first (f x here)
    | inr there ↦ later (Any-of_any P p xs f there)
  ]

  any-of_Any {κ} :
      (P : A → Type κ) (p : A → Bool) (xs : List A)
      → ((x : A) → P x → p x ≡ true)
      → Any P xs
      → any p xs ≡ true
  any-of_Any P p [] f k = elim k [ ]
  any-of_Any P p (x ∷ xs) f (first h) = rw (f x h)
  any-of_Any P p (x ∷ xs) f (later k) = ground (arith, any-of_Any P p xs f k)

  contains-map-any :
      (key : A → String) (name : String) (xs : List A)
      → contains (map key xs) name ≡ any (λ x. name == key x) xs
  contains-map-any key name [] = refl
  contains-map-any key name (x ∷ xs) = ap (λ b. name == key x || b) (contains-map-any key name xs)

contains-any : (name : String) (xs : List String) → contains xs name ≡ any (λ x. name == x) xs
contains-any name [] = refl
contains-any name (x ∷ xs) = ap (λ b. name == x || b) (contains-any name xs)

matches_query-Asks :
    (casefold : String → String) (q : String) (a : RuntimeSkillAsset)
    → matches_query casefold q a ≡ true
    → AsksQuery casefold q a
unfolding matches_query
matches_query-Asks casefold q a h = elim (or_true _ _ h) [
  | inl early ↦ elim (or_true _ _ early) [
    | inl blank ↦ any_query (eq_of_== _ _ blank)
    | inr found ↦ in_name (is_part_sound _ _ found)
  ]
  | inr found ↦ in_description (is_part_sound _ _ found)
]

Asks-matches_query :
    (casefold : String → String) (q : String) (a : RuntimeSkillAsset)
    → AsksQuery casefold q a
    → matches_query casefold q a ≡ true
unfolding matches_query
Asks-matches_query casefold q a (any_query e) = ground arith
Asks-matches_query casefold q a (in_name p) =
    let e = is_part-IsPart (casefold (strip q)) (casefold a.name) p in ground arith
Asks-matches_query casefold q a (in_description p) =
    let e = is_part-IsPart (casefold (strip q)) (casefold (or_empty a.description)) p in
    ground arith

matches_status-Asks :
    (status : String) (a : RuntimeSkillAsset) → matches_status status a ≡ true → AsksStatus status a
unfolding matches_status
matches_status-Asks status a h = elim (or_true _ _ h) [
  | inl e ↦ any_status (eq_of_== _ _ e)
  | inr e ↦ has_status (sym (eq_of_== _ _ (and_true _ _ e).1))
]

-- Every status has its label.
known_status :
    (s : RuntimeSkillStatus) → any (λ t. status_text t == status_text s) status_order ≡ true
unfolding string_eq
known_status consistent = refl
known_status diverged = refl
known_status missing = refl
known_status local_only = refl
known_status scan_warning = refl

Asks-matches_status :
    (status : String) (a : RuntimeSkillAsset) → AsksStatus status a → matches_status status a ≡ true
unfolding matches_status
Asks-matches_status status a (any_status e) = ground arith
Asks-matches_status status a (has_status e) =
    rw (e, known_status a.status, ==_refl (status_text a.status)) (ground arith)

absent-eq-none : {A : Type 0} (o : Option A) → is_absent o ≡ true → o ≡ none
absent-eq-none none h = refl
absent-eq-none (some x) h = ground arith

present-some : {A : Type 0} (o : Option A) → not (is_absent o) ≡ true → (x : A) × (o ≡ some x)
present-some none h = ground arith
present-some (some x) h = (x, refl)

matches_source-Asks :
    (source : String) (a : RuntimeSkillAsset) → matches_source source a ≡ true → AsksSource source a
unfolding matches_source
matches_source-Asks source a h = elim (or_true _ _ h) [
  | inl early ↦ elim (or_true _ _ early) [
    | inl k ↦ any_source (eq_of_== _ _ k)
    | inr k ↦
        let (same, present) = and_true _ _ k in
        let (i, e) = present-some a.source_instance present in from_shared i (eq_of_== _ _ same) e
  ]
  | inr k ↦
      let (same, absent) = and_true _ _ k in
      from_target (eq_of_== _ _ same) (absent-eq-none a.source_instance absent)
]

Asks-matches_source :
    (source : String) (a : RuntimeSkillAsset) → AsksSource source a → matches_source source a ≡ true
unfolding matches_source
Asks-matches_source source a (any_source e) = ground arith
Asks-matches_source source a (from_shared i e k) = ground arith
Asks-matches_source source a (from_target e k) = ground arith

matches_target-Asks :
    (targets : List RuntimeTarget) (name : String) (a : RuntimeSkillAsset)
    → matches_target targets name a ≡ true
    → AsksTarget targets name a
unfolding matches_target
matches_target-Asks targets name a h = elim (or_true _ _ h) [
  | inl e ↦ any_target (eq_of_== _ _ e)
  | inr both ↦
      let (known, placed) = and_true _ _ both in
      let known' =
        Any-of_any (λ t. t.name ≡ name) (λ t. name == t.name) targets (λ t e. sym (eq_of_== _ _ e))
          (sym (contains-map-any (λ t. t.name) name targets) ∙ known) in
      elim (or_true _ _ placed) [
        | inl e ↦ on_target known' (
            Any-of_any (λ i. i.target_name ≡ some name) (λ i. i.target_name == some name)
              a.target_instances (λ i k. eq_of_== _ _ k) e)
        | inr e ↦ not_on_target known' (
            Any-of_any (λ m. m ≡ name) (λ m. name == m) a.missing_targets
              (λ m k. sym (eq_of_== _ _ k)) (sym (contains-any name a.missing_targets) ∙ e))
      ]
]

contains-target :
    (targets : List RuntimeTarget) (name : String)
    → Any (λ t. t.name ≡ name) targets
    → contains (map (λ t. t.name) targets) name ≡ true
contains-target targets name k =
    contains-map-any (λ t. t.name) name targets
    ∙ any-of_Any (λ t. t.name ≡ name) (λ t. name == t.name) targets (λ t e. rw e (==_refl name)) k

Asks-matches_target :
    (targets : List RuntimeTarget) (name : String) (a : RuntimeSkillAsset)
    → AsksTarget targets name a
    → matches_target targets name a ≡ true
unfolding matches_target
Asks-matches_target targets name a (any_target e) = ground arith
Asks-matches_target targets name a (on_target known k) =
    let e = contains-target targets name known in
    let f =
      any-of_Any (λ i. i.target_name ≡ some name) (λ i. i.target_name == some name)
        a.target_instances (λ i q. rw q (==_refl (some name))) k in
    rw (e, f) (ground arith)
Asks-matches_target targets name a (not_on_target known k) =
    let e = contains-target targets name known in
    let f =
      contains-any name a.missing_targets
      ∙ any-of_Any (λ m. m ≡ name) (λ m. name == m) a.missing_targets (λ m q. rw q (==_refl name))
          k in
    rw (e, f) (ground arith)

-- The test accepts an asset exactly if it has what all four filters ask.
pub matches_filters-Matches :
    (casefold : String → String) (s : RuntimeInventorySnapshot) (filters : InventoryFilters)
    (a : RuntimeSkillAsset)
    → matches_filters casefold s filters a ≡ true
    → Matches casefold s filters a
unfolding matches_filters
matches_filters-Matches casefold s filters a h =
    let (three, target) = and_true _ _ h in
    let (two, source) = and_true _ _ three in
    let (query, status) = and_true _ _ two in
    record {
      query = matches_query-Asks casefold filters.q a query;
      status = matches_status-Asks filters.status a status;
      source = matches_source-Asks filters.source a source;
      target = matches_target-Asks s.targets filters.target a target;
    }

pub Matches-matches_filters :
    (casefold : String → String) (s : RuntimeInventorySnapshot) (filters : InventoryFilters)
    (a : RuntimeSkillAsset)
    → Matches casefold s filters a
    → matches_filters casefold s filters a ≡ true
unfolding matches_filters
Matches-matches_filters casefold s filters a m =
    rw
      (
        Asks-matches_query casefold filters.q a m.query,
        Asks-matches_status filters.status a m.status,
        Asks-matches_source filters.source a m.source,
        Asks-matches_target s.targets filters.target a m.target,
      )
      refl
