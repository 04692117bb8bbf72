-- ===== src/Inventory/Discovery/Laws/Groups.antt =====
-- The groups of `_aggregate_assets` have exactly the skills of their names.
use skill_governance_control.Base.{
  String, Bool, true, false, List, [], ◌∷◌, ◌++◌, select, All, ◌==◌, string_eq, Bool-cases, ◌≡◌,
  refl, sym, ap, ◌∙◌, subst, inl, inr, arith, append-nil, append_assoc, eq_of_==, ==_refl,
}
use skill_governance_control.Inventory.Discovery.{ScannedSkill, Grouped, add_group, group_skills}

-- The skills with a name, in their order.
abbrev pub named : String → List ScannedSkill → List ScannedSkill
named name skills = select (λ s. s.name == name) skills

abbrev pub is_nil {ℓ} : {A : Type ℓ} → List A → Bool
is_nil [] = true
is_nil (x ∷ xs) = false

named-snoc_same :
    (name : String) (skills : List ScannedSkill) (s : ScannedSkill)
    → (s.name == name) ≡ true
    → named name (skills ++ s ∷ []) ≡ named name skills ++ s ∷ []
named-snoc_same name [] s h = rw h refl
named-snoc_same name (x ∷ xs) s h = elim (Bool-cases (x.name == name)) [
  | inl e ↦ rw e (ap (λ l. x ∷ l) (named-snoc_same name xs s h))
  | inr e ↦ rw e (named-snoc_same name xs s h)
]

named-snoc_other :
    (name : String) (skills : List ScannedSkill) (s : ScannedSkill)
    → (s.name == name) ≡ false
    → named name (skills ++ s ∷ []) ≡ named name skills
named-snoc_other name [] s h = rw h refl
named-snoc_other name (x ∷ xs) s h = elim (Bool-cases (x.name == name)) [
  | inl e ↦ rw e (ap (λ l. x ∷ l) (named-snoc_other name xs s h))
  | inr e ↦ rw e (named-snoc_other name xs s h)
]

-- No group has the name.
abbrev pub IsFresh : String → Grouped → Type 0
IsFresh name g = All (λ p. (p.0 == name) ≡ false) g

abbrev pub IsDistinct : Grouped → Type 0
IsDistinct [] = Unit
IsDistinct ((name, skills) ∷ rest) = IsFresh name rest × IsDistinct rest

-- A group has the skills of its name, and has one.
abbrev pub IsGroupOf : List ScannedSkill → String × List ScannedSkill → Type 0
IsGroupOf done p = (p.1 ≡ named p.0 done) × (is_nil p.1 ≡ false)

unequal_swap : (s t : String) → (s == t) ≡ false → (t == s) ≡ false
unequal_swap s t h = ground arith

unequal-of_equal : (s t u : String) → (s == t) ≡ true → (s == u) ≡ false → (t == u) ≡ false
unequal-of_equal s t u h k = ground arith

add_group-IsFresh :
    (name : String) (s : ScannedSkill) (g : Grouped)
    → (s.name == name) ≡ false
    → IsFresh name g
    → IsFresh name (add_group s g)
unfolding add_group
add_group-IsFresh name s [] h k = (h, tt)
add_group-IsFresh name s ((n, skills) ∷ rest) h (k, ks) = elim (Bool-cases (n == s.name)) [
  | inl e ↦ rw e (k, ks)
  | inr e ↦ rw e (k, add_group-IsFresh name s rest h ks)
]

IsFresh-of_add_group :
    (name : String) (s : ScannedSkill) (g : Grouped)
    → IsFresh name (add_group s g)
    → ((s.name == name) ≡ false) × IsFresh name g
unfolding add_group
IsFresh-of_add_group name s [] h = (h.0, tt)
IsFresh-of_add_group name s ((n, skills) ∷ rest) h = elim (Bool-cases (n == s.name)) [
  | inl e ↦
      let (k, ks) : ((n == name) ≡ false) × IsFresh name rest = rw (e, add_group) at h in
      (unequal-of_equal n s.name name e k, (k, ks))
  | inr e ↦
      let (k, ks) : ((n == name) ≡ false) × IsFresh name (add_group s rest) =
        rw (e, add_group) at h in
      let (same, fresh) = IsFresh-of_add_group name s rest ks in (same, (k, fresh))
]

add_group-IsDistinct : (s : ScannedSkill) (g : Grouped) → IsDistinct g → IsDistinct (add_group s g)
unfolding add_group
add_group-IsDistinct s [] h = (tt, tt)
add_group-IsDistinct s ((n, skills) ∷ rest) (fresh, distinct) = elim (Bool-cases (n == s.name)) [
  | inl e ↦ rw e (fresh, distinct)
  | inr e ↦ rw e (
    add_group-IsFresh n s rest (unequal_swap n s.name e) fresh,
    add_group-IsDistinct s rest distinct,
  )
]

IsGroupOf-snoc :
    (done : List ScannedSkill) (s : ScannedSkill) (g : Grouped)
    → IsFresh s.name g
    → All (IsGroupOf done) g
    → All (IsGroupOf (done ++ s ∷ [])) g
IsGroupOf-snoc done s [] fresh h = tt
IsGroupOf-snoc done s ((n, skills) ∷ rest) (k, ks) ((same, some_skill), h) = (
  (same ∙ sym (named-snoc_other n done s (unequal_swap n s.name k)), some_skill),
  IsGroupOf-snoc done s rest ks h,
)

is_nil-snoc {ℓ} : {A : Type ℓ} (xs : List A) (a : A) → is_nil (xs ++ a ∷ []) ≡ false
is_nil-snoc [] a = refl
is_nil-snoc (x ∷ xs) a = refl

IsFresh-equal : (s t : String) (g : Grouped) → (s == t) ≡ true → IsFresh s g → IsFresh t g
IsFresh-equal s t g h = subst (λ u. IsFresh u g) (eq_of_== s t h)

add_group-IsGroupOf :
    (done : List ScannedSkill) (s : ScannedSkill) (g : Grouped)
    → IsDistinct g
    → All (IsGroupOf done) g
    → (IsFresh s.name g → named s.name done ≡ [])
    → All (IsGroupOf (done ++ s ∷ [])) (add_group s g)
unfolding add_group
add_group-IsGroupOf done s [] distinct h absent = (
  (sym (named-snoc_same s.name done s (==_refl s.name) ∙ ap (λ l. l ++ s ∷ []) (absent tt)), refl),
  tt,
)
add_group-IsGroupOf done s ((n, skills) ∷ rest) (fresh, distinct) ((same, some_skill), h) absent =
    elim (Bool-cases (n == s.name)) [
      | inl e ↦ rw e (
        (
          ap (λ l. l ++ s ∷ []) same
              ∙ sym (
                  named-snoc_same n done s (
                    subst (λ t. (s.name == t) ≡ true) (sym (eq_of_== n s.name e))
                      (==_refl s.name))),
          is_nil-snoc skills s,
        ),
        IsGroupOf-snoc done s rest (IsFresh-equal n s.name rest e fresh) h,
      )
      | inr e ↦ rw e (
        (same ∙ sym (named-snoc_other n done s (unequal_swap n s.name e)), some_skill),
        add_group-IsGroupOf done s rest distinct h (λ ks. absent (e, ks)),
      )
    ]

-- The groups of the skills so far.
abbrev pub IsGrouping : List ScannedSkill → Grouped → Type 0
IsGrouping done g =
    IsDistinct g
    × All (IsGroupOf done) g
    × ((name : String) → IsFresh name g → named name done ≡ [])

add_group-IsGrouping :
    (done : List ScannedSkill) (s : ScannedSkill) (g : Grouped)
    → IsGrouping done g
    → IsGrouping (done ++ s ∷ []) (add_group s g)
add_group-IsGrouping done s g (distinct, groups, absent) = (
  add_group-IsDistinct s g distinct,
  add_group-IsGroupOf done s g distinct groups (absent s.name),
  λ name fresh.
      let (other, fresh') = IsFresh-of_add_group name s g fresh in
      named-snoc_other name done s other ∙ absent name fresh',
)

pub group_skills-IsGrouping :
    (done skills : List ScannedSkill) (g : Grouped)
    → IsGrouping done g
    → IsGrouping (done ++ skills) (group_skills skills g)
unfolding group_skills
group_skills-IsGrouping done [] g h = subst (λ l. IsGrouping l g) (sym (append-nil done)) h
group_skills-IsGrouping done (s ∷ skills) g h =
    subst (λ l. IsGrouping l (group_skills skills (add_group s g)))
      (append_assoc done (s ∷ []) skills)
      (group_skills-IsGrouping (done ++ s ∷ []) skills (add_group s g)
        (add_group-IsGrouping done s g h))
