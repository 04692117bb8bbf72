-- ===== src/Base/Errors.antt =====
-- errors.py: what the program raises. The classes of `ControlPlaneError` carry the message before
-- it is sanitised; the others are exceptions of the language and of the libraries.
use Prim.Native.String.{String}
use mathlib.Core.Path.{◌≡◌, refl}
use mathlib.Core.Logic.{◌⊎◌, inl, inr}
use mathlib.Core.Bool.{Bool, true, false}
use native.Mathlib.Omega.{arith}

pub data Failure : Type 0 where
  schema_error reference_error governance_validation_error safety_violation : String → Failure
  policy_denied approval_required stale_plan unsupported_capability : String → Failure
  unsupported_capability_error adapter_failure ledger_corruption : String → Failure
  state_corruption : String → Failure
  type_error validation_error os_error : Failure
  other_exception : String → Failure

pub data Result {ℓ} (A : Type ℓ) : Type ℓ where
  ok : A → Result A
  err : Failure → Result A

-- `if condition: raise e`
abbrev pub raise_if : Bool → Failure → Result (Unit {0})
raise_if false failure = ok tt
raise_if true failure = err failure

-- A statement, and what follows it when it raises nothing.
infixl 5 ◌>>=◌ ◌>>◌
abbrev pub ◌>>=◌ {ℓ κ} : {B : Type ℓ} {A : Type κ} → Result B → (B → Result A) → Result A
err failure >>= next = err failure
ok value >>= next = next value

abbrev pub ◌>>◌ {ℓ} : {A : Type ℓ} → Result (Unit {0}) → Result A → Result A
check >> next = check >>= λ done. next

pub Result-cases {ℓ} :
    {A : Type ℓ} (r : Result A) → ((a : A) × (r ≡ ok a)) ⊎ ((e : Failure) × (r ≡ err e))
Result-cases (ok a) = inl (a, refl)
Result-cases (err e) = inr (e, refl)

-- A sequence that returns: its first part returned, and the rest did on that value.
pub >>=-eq-ok {ℓ κ} :
    {A : Type ℓ} {B : Type κ} (m : Result A) (next : A → Result B) {result : B}
    → (m >>= next) ≡ ok result
    → (value : A) × (m ≡ ok value) × (next value ≡ ok result)
>>=-eq-ok (err failure) next h = ground arith
>>=-eq-ok (ok value) next h = (value, refl, h)

pub >>-eq-ok {ℓ} :
    {A : Type ℓ} (m : Result (Unit {0})) (n : Result A) {a : A}
    → (m >> n) ≡ ok a
    → (m ≡ ok tt) × (n ≡ ok a)
>>-eq-ok (ok tt) n h = (refl, h)
>>-eq-ok (err e) n h = ground arith

pub ok-injective {ℓ} : {A : Type ℓ} {a b : A} → ok a ≡ ok b → a ≡ b
ok-injective h = ground arith

pub raise_if-ok : (b : Bool) (e : Failure) → raise_if b e ≡ ok tt → b ≡ false
raise_if-ok true e h = ground arith
raise_if-ok false e h = refl
