-- ===== src/Reads/Laws.antt =====
-- The reports go by the last deployment of a target that succeeded, and agree on what drifted.
use skill_governance_control.Base.{
  ◌+◌, String, true, false, ◌&&◌, Option, none, some, List, [], ◌∷◌, select, length, last?, ltb, ok,
  >>=-eq-ok, ok-injective, Bool-cases, Option-cases, ◌==◌, string_eq, ◌≡◌, refl, sym, ap, ◌∙◌, inl,
  inr, arith,
}
use skill_governance_control.Models.{
  Fields, EvidenceRef, Target, ObservedState, VerificationResult, DeploymentLedgerEntry,
}
use skill_governance_control.Repository.Snapshot.{GovernanceSnapshot}
use skill_governance_control.Reads.{
  StatusReport, DriftReport, ReadEnv, put_item, get_item, is_successful, latest_from,
  latest_successful_deployments, selected_targets, verification_of, Collected, collect_observations,
  with_unmanaged, collect_verified, collect_status, status, add_drift, collect_drift, is_filled,
  drift,
}

get_item-put_item_same {ℓ} :
    {A : Type ℓ} (key id : String) (value : A) (items : List (String × A))
    → (key == id) ≡ true
    → get_item id (put_item key value items) ≡ some value
unfolding get_item put_item
get_item-put_item_same key id value [] h = ground arith
get_item-put_item_same key id value ((k, v) ∷ rest) h = elim (Bool-cases (k == key)) [
  | inl e ↦ let same : (k == id) ≡ true = ground arith in rw (e, put_item, get_item, same) refl
  | inr e ↦
      let other : (k == id) ≡ false = ground arith in
      rw (e, put_item, get_item, other) (get_item-put_item_same key id value rest h)
]

get_item-put_item_other {ℓ} :
    {A : Type ℓ} (key id : String) (value : A) (items : List (String × A))
    → (key == id) ≡ false
    → get_item id (put_item key value items) ≡ get_item id items
unfolding get_item put_item
get_item-put_item_other key id value [] h = ground arith
get_item-put_item_other key id value ((k, v) ∷ rest) h = elim (Bool-cases (k == key)) [
  | inl e ↦ let other : (k == id) ≡ false = ground arith in rw (e, put_item, get_item, other) refl
  | inr e ↦ elim (Bool-cases (k == id)) [
    | inl same ↦ rw (e, put_item, get_item, same) refl
    | inr other ↦ rw (e, put_item, get_item, other) (get_item-put_item_other key id value rest h)
  ]
]

-- The successful entries of a target, in the order of the ledger.
abbrev pub successes : String → List DeploymentLedgerEntry → List DeploymentLedgerEntry
successes id entries = select (λ e. is_successful e && e.target_id == id) entries

abbrev or_else {ℓ} : {A : Type ℓ} → Option A → Option A → Option A
or_else none b = b
or_else (some a) b = some a

last_exists {ℓ} : {A : Type ℓ} (x : A) (xs : List A) → (a : A) × (last? (x ∷ xs) ≡ some a)
last_exists x [] = (x, refl)
last_exists x (y ∷ ys) = last_exists y ys

last?-cons {ℓ} : {A : Type ℓ} (a : A) (xs : List A) → last? (a ∷ xs) ≡ or_else (last? xs) (some a)
last?-cons a [] = refl
last?-cons a (x ∷ xs) = let (z, e) = last_exists x xs in rw e refl

or_else-some {ℓ} :
    {A : Type ℓ} (o : Option A) (a : A) (b : Option A)
    → or_else (or_else o (some a)) b ≡ or_else o (some a)
or_else-some none a b = refl
or_else-some (some x) a b = refl

get_item-latest_from :
    (id : String) (entries : List DeploymentLedgerEntry)
    (latest : List (String × DeploymentLedgerEntry))
    → get_item id (latest_from entries latest)
      ≡ or_else (last? (successes id entries)) (get_item id latest)
unfolding latest_from
get_item-latest_from id [] latest = refl
get_item-latest_from id (e ∷ es) latest = elim (Bool-cases (is_successful e)) [
  | inl good ↦ elim (Bool-cases (e.target_id == id)) [
    | inl same ↦
        let found = get_item-latest_from id es (put_item e.target_id e latest) in
        let last : Option DeploymentLedgerEntry = last? (successes id es) in
        rw (good, same, latest_from)
          (found
            ∙ ap (or_else last) (get_item-put_item_same e.target_id id e latest same)
            ∙ sym (
                ap (λ o. or_else o (get_item id latest)) (last?-cons e (successes id es))
                ∙ or_else-some last e (get_item id latest)))
    | inr other ↦
        rw (good, other, latest_from)
          (get_item-latest_from id es (put_item e.target_id e latest)
            ∙ ap (or_else (last? (successes id es)))
                (get_item-put_item_other e.target_id id e latest other))
  ]
  | inr bad ↦ rw (bad, latest_from) (get_item-latest_from id es latest)
]

-- What is looked up for a target among the latest deployments is the last entry of the ledger for
-- this target that succeeded or was rolled back, if there is one.
pub latest_successful_deployments-last :
    (env : ReadEnv) (entries : List DeploymentLedgerEntry)
    (latest : List (String × DeploymentLedgerEntry)) (id : String)
    → env.read_all ≡ ok entries
    → latest_successful_deployments env ≡ ok latest
    → get_item id latest ≡ last? (successes id entries)
unfolding latest_successful_deployments get_item
latest_successful_deployments-last env entries latest id h k =
    let same : latest_from entries [] ≡ latest = ground arith in
    ap (get_item id) (sym same)
    ∙ get_item-latest_from id entries []
    ∙ none_else (last? (successes id entries))
  where
    none_else : (o : Option DeploymentLedgerEntry) → or_else o none ≡ o
    none_else none = refl
    none_else (some e) = refl

drifted-collect_observations :
    (t : Target) (observations : List ObservedState) (c : Collected)
    → (collect_observations t observations c).drifted ≡ c.drifted
unfolding collect_observations
drifted-collect_observations t [] c = refl
drifted-collect_observations t (o ∷ os) c = elim (Bool-cases (o.target_id == t.id)) [
  | inl e ↦ rw (e, collect_observations) (drifted-collect_observations t os _)
  | inr e ↦ rw (e, collect_observations) (drifted-collect_observations t os c)
]

collect_drift-some :
    (env : ReadEnv) (latest : List (String × DeploymentLedgerEntry)) (t : Target) (ts : List Target)
    (deployment : DeploymentLedgerEntry) (verified : VerificationResult × List EvidenceRef)
    (found : List Fields × List EvidenceRef)
    → get_item t.id latest ≡ some deployment
    → verification_of env t deployment ≡ ok verified
    → collect_drift env latest ts ≡ ok found
    → collect_drift env latest (t ∷ ts) ≡ ok (add_drift t deployment verified found)
unfolding collect_drift
collect_drift-some env latest t ts deployment verified found e v k =
    rw (e, v, k, collect_drift) refl

abbrev report_of : ReadEnv → Option String → List Fields × List EvidenceRef → DriftReport
report_of env target_id found = record {
  generated_at = env.now;
  target_id = target_id;
  changes = found.0;
  has_drift = is_filled found.0;
  evidence_refs = found.1;
}

drift-ok :
    (env : ReadEnv) (target_id : Option String) (selected : GovernanceSnapshot × List Target)
    (latest : List (String × DeploymentLedgerEntry)) (found : List Fields × List EvidenceRef)
    → selected_targets env target_id ≡ ok selected
    → latest_successful_deployments env ≡ ok latest
    → collect_drift env latest selected.1 ≡ ok found
    → drift env target_id ≡ ok (report_of env target_id found)
unfolding drift
drift-ok env target_id selected latest found a b k = rw (a, b, k, drift) refl

drifted_once :
    (t : Target) (deployment : DeploymentLedgerEntry)
    (verified : VerificationResult × List EvidenceRef) (c : Collected)
    (found : List Fields × List EvidenceRef)
    → (collect_verified t deployment verified c).drifted + length found.0
      ≡ c.drifted + length (add_drift t deployment verified found).0
unfolding collect_verified add_drift
drifted_once t deployment (v, refs) c found = elim (Bool-cases v.healthy) [
  | inl e ↦ rw (e, collect_verified, add_drift) refl
  | inr e ↦ rw (e, collect_verified, add_drift) (omega arith)
]

-- Where the loop of `status` ends, that of `drift` does, and has one change for each target that
-- was counted.
collect_drift-of_status :
    (env : ReadEnv) (observations : List ObservedState)
    (latest : List (String × DeploymentLedgerEntry)) (ts : List Target) (c c' : Collected)
    → collect_status env observations latest ts c ≡ ok c'
    → (found : List Fields × List EvidenceRef) × (collect_drift env latest ts ≡ ok found)
      × (c'.drifted ≡ c.drifted + length found.0)
unfolding collect_status collect_drift collect_verified add_drift
collect_drift-of_status env observations latest [] c c' h =
    let same : c ≡ c' = ok-injective h in (([], []), refl, omega (arith, ap (λ x. x.drifted) same))
collect_drift-of_status env observations latest (t ∷ ts) c c' h =
    elim (Option-cases (get_item t.id latest)) [
      | inl e ↦
          let c1 : Collected = collect_observations t observations (with_unmanaged t c) in
          let (found, k, n) =
            collect_drift-of_status env observations latest ts c1 c'
              (rw (e, collect_status) at h) in
          (
            found,
            rw (e, collect_drift) k,
            omega (arith, n, drifted-collect_observations t observations (with_unmanaged t c)),
          )
      | inr (deployment, e) ↦
          let (verified, v, rest) =
            >>=-eq-ok (verification_of env t deployment)
              (λ x. collect_status env observations latest ts (collect_verified t deployment x c))
              (rw (e, collect_status) at h) in
          let c1 : Collected = collect_verified t deployment verified c in
          let (found, k, n) = collect_drift-of_status env observations latest ts c1 c' rest in
          (
            add_drift t deployment verified found,
            collect_drift-some env latest t ts deployment verified found e v k,
            n ∙ drifted_once t deployment verified c found,
          )
    ]

pub is_filled-length : (changes : List Fields) → is_filled changes ≡ ltb 0 (length changes)
is_filled-length [] = refl
is_filled-length (x ∷ xs) = ground arith

-- Where `status` returns, `drift` does too, for the same answers of the collaborators, and the two
-- agree: the count of the one is the number of changes of the other, which has drift exactly if the
-- count is not zero.
pub drift-of_status :
    (env : ReadEnv) (target_id : Option String) (s : StatusReport)
    → status env target_id ≡ ok s
    → (d : DriftReport) × (drift env target_id ≡ ok d)
      × (s.drift_count ≡ length d.changes)
      × (d.has_drift ≡ ltb 0 s.drift_count)
unfolding status
drift-of_status env target_id s h =
    let (selected, a, h1) = >>=-eq-ok (selected_targets env target_id) _ h in
    let (latest, b, h2) = >>=-eq-ok (latest_successful_deployments env) _ h1 in
    let (c, k, h3) =
      >>=-eq-ok
        (collect_status env selected.0.observations latest selected.1
          (record { health = []; revisions = []; drifted = 0; refs = [] }))
        _ h2 in
    let (found, d, n) =
      collect_drift-of_status env selected.0.observations latest selected.1 _ c k in
    let count : s.drift_count ≡ length found.0 =
      sym (ap (λ x. x.drift_count) (ok-injective h3)) ∙ (omega (arith, n)) in
    (
      report_of env target_id found,
      drift-ok env target_id selected latest found a b d,
      count,
      is_filled-length found.0 ∙ ap (ltb 0) (sym count),
    )
