-- ===== src/Base/Sorting.antt =====
-- `sorted(xs, key=...)` for a text key: a stable insertion sort by Python's order of texts, which
-- goes by code points.
use Prim.Native.Nat.{Ordering}
use Prim.Native.String.{String, compare}
use mathlib.Core.Bool.{Bool, true, false, cond}
use mathlib.Core.Logic.{inl, inr}
use mathlib.Core.List.{List, [], ◌∷◌}
use skill_governance_control.Base.Lists.{All}
use skill_governance_control.Base.Tests.{Bool-cases}

abbrev pub text_leb : String → String → Bool
text_leb s t = elim (compare s t) [ Ordering.gt ↦ false | _ ↦ true ]

module _ {ℓ} {A : Type ℓ} (key : A → String) where
  unfoldable pub insert_by : A → List A → List A
  insert_by a [] = a ∷ []
  insert_by a (x ∷ xs) = cond (text_leb (key a) (key x)) (a ∷ x ∷ xs) (x ∷ insert_by a xs)

  unfoldable pub sort_by : List A → List A
  unfolding insert_by
  sort_by [] = []
  sort_by (x ∷ xs) = insert_by x (sort_by xs)

module _ {ℓ κ} {A : Type ℓ} (key : A → String) (P : A → Type κ) where
  All-insert_by : (a : A) (xs : List A) → P a → All P xs → All P (insert_by key a xs)
  unfolding insert_by
  All-insert_by a [] p h = (p, tt)
  All-insert_by a (x ∷ xs) p h = elim (Bool-cases (text_leb (key a) (key x))) [
    | inl low ↦ rw low (p, h)
    | inr high ↦ rw high (h.0, All-insert_by a xs p h.1)
  ]

  -- Sorting keeps what holds of every item, in both directions.
  pub All-sort_by : (xs : List A) → All P xs → All P (sort_by key xs)
  unfolding sort_by
  All-sort_by [] h = tt
  All-sort_by (x ∷ xs) h = All-insert_by x (sort_by key xs) h.0 (All-sort_by xs h.1)

  All-of_insert_by : (a : A) (xs : List A) → All P (insert_by key a xs) → P a × All P xs
  unfolding insert_by
  All-of_insert_by a [] h = (h.0, tt)
  All-of_insert_by a (x ∷ xs) h = elim (Bool-cases (text_leb (key a) (key x))) [
    | inl low ↦ rw (low, insert_by) at h
    | inr high ↦
        let h' : P x × All P (insert_by key a xs) = rw (high, insert_by) at h in
        let (p, rest) = All-of_insert_by a xs h'.1 in (p, (h'.0, rest))
  ]

  pub All-of_sort_by : (xs : List A) → All P (sort_by key xs) → All P xs
  unfolding sort_by
  All-of_sort_by [] h = tt
  All-of_sort_by (x ∷ xs) h =
      let (p, rest) = All-of_insert_by x (sort_by key xs) h in (p, All-of_sort_by xs rest)
