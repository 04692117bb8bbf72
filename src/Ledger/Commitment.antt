-- ===== src/Ledger/Commitment.antt =====
-- What the last hash of a ledger commits to.
use skill_governance_control.Base.{
  String, Option, none, some, List, [], ◌∷◌, ◌++◌, append-nil, All, ok, ◌≡◌, refl, sym, ap, ap₂,
  ◌∙◌, arith,
}
use skill_governance_control.Canonical.{Canon}
use skill_governance_control.Models.{DeploymentLedgerEntry}
use skill_governance_control.Base.Bytes.{Bytes}
use skill_governance_control.Ledger.{entry_digest, last_hash, parse}
use skill_governance_control.Ledger.Chain.{IsChain, parse-IsChain}

abbrev pub head_hash : List DeploymentLedgerEntry → Option String
head_hash [] = none
head_hash (e ∷ es) = some e.entry_hash

module _ (c : Canon) where
  -- A chain, its newest entry first.
  abbrev pub IsLinked : List DeploymentLedgerEntry → Type 0
  IsLinked [] = Unit
  IsLinked (e ∷ es) =
      (e.previous_entry_hash ≡ head_hash es) × (e.entry_hash ≡ entry_digest c e) × IsLinked es

  -- No two different entries of the two ledgers have one digest and one stored hash.
  abbrev pub NoCollision : List DeploymentLedgerEntry → List DeploymentLedgerEntry → Type 0
  NoCollision xs ys =
      All
        (λ x.
          All (λ y. entry_digest c x ≡ entry_digest c y → x.entry_hash ≡ y.entry_hash → x ≡ y) ys)
        xs

  NoCollision-drop :
      (y : DeploymentLedgerEntry) (xs ys : List DeploymentLedgerEntry)
      → NoCollision xs (y ∷ ys)
      → NoCollision xs ys
  NoCollision-drop y [] ys h = tt
  NoCollision-drop y (x ∷ xs) ys h = (h.0.1, NoCollision-drop y xs ys h.1)

  -- Two ledgers whose newest entries have one hash are one ledger, unless two of their entries
  -- collide.
  pub commitment :
      (xs ys : List DeploymentLedgerEntry)
      → IsLinked xs
      → IsLinked ys
      → NoCollision xs ys
      → head_hash xs ≡ head_hash ys
      → xs ≡ ys
  commitment [] [] lx ly nc h = refl
  commitment [] (y ∷ ys) lx ly nc h = ground arith
  commitment (x ∷ xs) [] lx ly nc h = ground arith
  commitment (x ∷ xs) (y ∷ ys) (px, hx, lx) (py, hy, ly) ((collide, _), nc) h =
      let same_hash : x.entry_hash ≡ y.entry_hash = ground arith in
      let same : x ≡ y = collide (cc (same_hash, hx, hy)) same_hash in
      let before : head_hash xs ≡ head_hash ys =
        sym px ∙ (ap (λ e. e.previous_entry_hash) same ∙ py) in
      ap₂ ◌∷◌ same (commitment xs ys lx ly (NoCollision-drop y xs ys nc) before)

rev_onto {ℓ} : {A : Type ℓ} → List A → List A → List A
rev_onto [] acc = acc
rev_onto (x ∷ xs) acc = rev_onto xs (x ∷ acc)

rev_onto-rev_onto {ℓ} :
    {A : Type ℓ} (xs acc rest : List A)
    → rev_onto (rev_onto xs acc) rest ≡ rev_onto acc (xs ++ rest)
unfolding rev_onto
rev_onto-rev_onto [] acc rest = refl
rev_onto-rev_onto (x ∷ xs) acc rest = rev_onto-rev_onto xs (x ∷ acc) rest

rev_inj {ℓ} : {A : Type ℓ} (xs ys : List A) → rev_onto xs [] ≡ rev_onto ys [] → xs ≡ ys
unfolding rev_onto
rev_inj xs ys h =
    sym (append-nil xs)
    ∙ (sym (rev_onto-rev_onto xs [] [])
        ∙ (ap (λ l. rev_onto l []) h ∙ (rev_onto-rev_onto ys [] [] ∙ append-nil ys)))

All-rev_onto {ℓ κ} :
    {A : Type ℓ} (P : A → Type κ) (xs acc : List A) → All P xs → All P acc → All P (rev_onto xs acc)
unfolding rev_onto
All-rev_onto P [] acc h k = k
All-rev_onto P (x ∷ xs) acc h k = All-rev_onto P xs (x ∷ acc) h.1 (h.0, k)

All-map {ℓ κ μ} :
    {A : Type ℓ} (P : A → Type κ) (Q : A → Type μ) (xs : List A)
    → ((x : A) → P x → Q x)
    → All P xs
    → All Q xs
All-map P Q [] f h = tt
All-map P Q (x ∷ xs) f h = (f x h.0, All-map P Q xs f h.1)

head_hash-rev_onto :
    (es acc : List DeploymentLedgerEntry) (e : DeploymentLedgerEntry)
    → head_hash (rev_onto (e ∷ es) acc) ≡ last_hash (e ∷ es)
unfolding rev_onto last_hash
head_hash-rev_onto [] acc e = refl
head_hash-rev_onto (d ∷ es) acc e = head_hash-rev_onto es (e ∷ acc) d

head_hash-rev : (es : List DeploymentLedgerEntry) → head_hash (rev_onto es []) ≡ last_hash es
unfolding rev_onto last_hash
head_hash-rev [] = refl
head_hash-rev (e ∷ es) = head_hash-rev_onto es [] e

module _ (c : Canon) where
  IsLinked-rev_onto :
      (es acc : List DeploymentLedgerEntry) (seen : List String)
      → IsChain c seen (head_hash acc) es
      → IsLinked c acc
      → IsLinked c (rev_onto es acc)
  unfolding rev_onto
  IsLinked-rev_onto [] acc seen h l = l
  IsLinked-rev_onto (e ∷ es) acc seen (p, q, _, _, h) l =
      IsLinked-rev_onto es (e ∷ acc) (e.deployment_id ∷ seen) h (p, q, l)

  NoCollision-rev :
      (xs ys : List DeploymentLedgerEntry)
      → NoCollision c xs ys
      → NoCollision c (rev_onto xs []) (rev_onto ys [])
  NoCollision-rev xs ys h =
      All-rev_onto _ xs [] (All-map _ _ xs (λ x k. All-rev_onto _ ys [] k tt) h) tt

  -- Two readable ledger files whose last entries carry the same hash hold the same entries, from
  -- the first on, unless two of these entries have one digest and differ.
  pub parse-commitment :
      (decode : Bytes → Option DeploymentLedgerEntry) (raw other : Bytes)
      (es ds : List DeploymentLedgerEntry)
      → parse c decode raw ≡ ok es
      → parse c decode other ≡ ok ds
      → NoCollision c es ds
      → last_hash es ≡ last_hash ds
      → es ≡ ds
  parse-commitment decode raw other es ds p q nc h = rev_inj es ds (
      commitment c (rev_onto es []) (rev_onto ds [])
        (IsLinked-rev_onto es [] [] (parse-IsChain c decode raw es p).0 tt)
        (IsLinked-rev_onto ds [] [] (parse-IsChain c decode other ds q).0 tt)
        (NoCollision-rev es ds nc) (head_hash-rev es ∙ (h ∙ sym (head_hash-rev ds))))
