-- ===== src/Presentation/Shown.antt =====
-- Lists that are sorted, selected from and mapped, as the pages of the web application show them.
use skill_governance_control.Base.{
  suc, ◌≤◌, String, Bool, true, List, [], ◌∷◌, map, select, length, All, Any, first, later,
  Bool-cases, ◌≡◌, refl, ap, ◌∙◌, inl, inr, arith,
}
use skill_governance_control.Base.Sorting.{text_leb, insert_by, sort_by}

module _ {ℓ} {A : Type ℓ} where
  pub Any-map {κ μ} :
      {P : A → Type κ} {Q : A → Type μ} (f : (a : A) → P a → Q a) (xs : List A)
      → Any P xs
      → Any Q xs
  Any-map f [] k = elim k [ ]
  Any-map f (x ∷ xs) (first p) = first (f x p)
  Any-map f (x ∷ xs) (later k) = later (Any-map f xs k)

  -- Every item of a list is in one that has its items.
  pub All-in :
      (ys xs : List A)
      → ((a : A) → Any (λ b. a ≡ b) xs → Any (λ b. a ≡ b) ys)
      → All (λ a. Any (λ b. a ≡ b) ys) xs
  All-in ys [] include = tt
  All-in ys (x ∷ xs) include = (include x (first refl), All-in ys xs (λ a k. include a (later k)))

  pub All-select {κ μ} :
      (P : A → Type κ) (R : A → Type μ) (p : A → Bool) (f : (a : A) → P a → p a ≡ true → R a)
      (xs : List A)
      → All P xs
      → All R (select p xs)
  All-select P R p f [] h = tt
  All-select P R p f (x ∷ xs) (h, hs) = elim (Bool-cases (p x)) [
    | inl e ↦ rw e (f x h e, All-select P R p f xs hs)
    | inr e ↦ rw e (All-select P R p f xs hs)
  ]

  pub length-select : (p : A → Bool) (xs : List A) → length (select p xs) ≤ length xs
  length-select p [] = omega arith
  length-select p (x ∷ xs) = elim (Bool-cases (p x)) [
    | inl e ↦ rw e (omega (arith, length-select p xs))
    | inr e ↦ rw e (omega (arith, length-select p xs))
  ]

  length-insert_by :
      (key : A → String) (a : A) (xs : List A) → length (insert_by key a xs) ≡ suc (length xs)
  unfolding insert_by
  length-insert_by key a [] = refl
  length-insert_by key a (x ∷ xs) = elim (Bool-cases (text_leb (key a) (key x))) [
    | inl low ↦ rw low refl
    | inr high ↦ rw high (ap suc (length-insert_by key a xs))
  ]

  pub length-sort_by : (key : A → String) (xs : List A) → length (sort_by key xs) ≡ length xs
  unfolding sort_by
  length-sort_by key [] = refl
  length-sort_by key (x ∷ xs) =
      length-insert_by key x (sort_by key xs) ∙ ap suc (length-sort_by key xs)

module _ {ℓ κ} {A : Type ℓ} {B : Type κ} (f : A → B) where
  pub All-map_of {μ} : (R : B → Type μ) (xs : List A) → All (λ a. R (f a)) xs → All R (map f xs)
  All-map_of R [] h = tt
  All-map_of R (x ∷ xs) (h, hs) = (h, All-map_of R xs hs)

  pub length-map : (xs : List A) → length (map f xs) ≡ length xs
  length-map [] = refl
  length-map (x ∷ xs) = ap suc (length-map xs)

  -- What passes the test is among the images.
  pub All-shown :
      (p : A → Bool) (vs : List B) (xs : List A)
      → ((v : B) → Any (λ w. w ≡ v) (map f (select p xs)) → Any (λ w. w ≡ v) vs)
      → All (λ a. p a ≡ true → Any (λ w. w ≡ f a) vs) xs
  All-shown p vs [] include = tt
  All-shown p vs (x ∷ xs) include = elim (Bool-cases (p x)) [
    | inl e ↦
        let include' : (v : B)
            → Any (λ w. w ≡ v) (f x ∷ map f (select p xs))
            → Any (λ w. w ≡ v) vs =
          rw e at include in
        (λ t. include' (f x) (first refl), All-shown p vs xs (λ v k. include' v (later k)))
    | inr e ↦
        let include' : (v : B) → Any (λ w. w ≡ v) (map f (select p xs)) → Any (λ w. w ≡ v) vs =
          rw e at include in
        (λ t. ground arith, All-shown p vs xs include')
  ]
