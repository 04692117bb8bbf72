-- ===== src/Service/Laws/Effects.antt =====
-- The calls that are counted as effects: the adapter's two mutations and the ledger's append. The
-- capture of the state before a deployment, which writes to the disk too, is not among them. An action
-- that makes none of them is quiet.
use skill_governance_control.Base.{
  Bool, true, false, List, select, Result, ok, err, Failure, ◌≡◌, refl, subst, ok-injective, ◌∙◌,
  arith,
}
use skill_governance_control.Service.Env.{
  Event, adapter_applied, adapter_rolled_back, entry_appended, Trace, Exec, ◌>>=◌, pure, raise,
  lift, call, attempt,
}

abbrev pub is_effect : Event → Bool
is_effect (adapter_applied _ _) = true
is_effect (adapter_rolled_back _ _) = true
is_effect (entry_appended _) = true
is_effect _ = false

-- The effects of a trace, the newest first.
abbrev pub effects : Trace → List Event
effects = select is_effect

pub record Quiet {A : Type 0} (m : Exec A) : Type 0 where
  pub at : (t : Trace) → effects (m t).1 ≡ effects t

module _ {A : Type 0} where
  pub Quiet-pure : (a : A) → Quiet (pure a)
  unfolding pure
  Quiet-pure a = record { at = λ t. refl }

  pub Quiet-lift : (r : Result A) → Quiet (lift r)
  unfolding lift
  Quiet-lift r = record { at = λ t. refl }

  pub Quiet-raise : (e : Failure) → Quiet (raise {A = A} e)
  unfolding raise
  Quiet-raise e = record { at = λ t. refl }

  pub Quiet-call :
      (event : Event) (f : Trace → Result A) → is_effect event ≡ false → Quiet (call event f)
  unfolding call
  Quiet-call event f h = record { at = λ t. rw h }

  pub Quiet-attempt : (m : Exec A) → Quiet m → Quiet (attempt m)
  unfolding attempt
  Quiet-attempt m h = record { at = λ t. h.at t }

module _ {A B : Type 0} where
  after_bind :
      (r : Result A) (f : A → Exec B) (t : Trace)
      → ((a : A) → Quiet (f a))
      → effects ((lift r >>= f) t).1 ≡ effects t
  unfolding ◌>>=◌ lift
  after_bind (ok a) f t h = (h a).at t
  after_bind (err e) f t h = refl

  pub Quiet-bind :
      (m : Exec A) (f : A → Exec B) → Quiet m → ((a : A) → Quiet (f a)) → Quiet (m >>= f)
  unfolding ◌>>=◌ lift
  Quiet-bind m f hm hf = record { at = λ t. let (r, t') = m t in after_bind r f t' hf ∙ hm.at t }

  -- Inversion of a bind that returns.
  pub >>=-eq-ok :
      (m : Exec A) (f : A → Exec B) (t : Trace) {b : B}
      → ((m >>= f) t).0 ≡ ok b
      → (a : A) × ((m t).0 ≡ ok a) × ((f a (m t).1).0 ≡ ok b)
  unfolding ◌>>=◌ lift
  >>=-eq-ok m f t {b} h = go (m t).0 refl h
    where
      go :
          (r : Result A)
          → (m t).0 ≡ r
          → ((lift r >>= f) (m t).1).0 ≡ ok b
          → (a : A) × ((m t).0 ≡ ok a) × ((f a (m t).1).0 ≡ ok b)
      go (ok a) e k = (a, e, k)
      go (err x) e k = ground arith

-- What an action returns, run behind the trace `t`, satisfies `P` with the trace that it leaves.
pub record Returns {A : Type 0} (P : A → Trace → Type 0) (m : Exec A) (t : Trace) : Type 0 where
  pub at : (a : A) → (m t).0 ≡ ok a → P a (m t).1

pub Returns-bind :
    {A B : Type 0} {P : B → Trace → Type 0} (m : Exec A) (f : A → Exec B) (t : Trace)
    → ((a : A) → (m t).0 ≡ ok a → Returns P (f a) (m t).1)
    → Returns P (m >>= f) t
unfolding ◌>>=◌
Returns-bind m f t h = record {
  at = λ b e. let (a, e', k) = >>=-eq-ok m f t e in rw e' ((h a e').at b k);
}

pub Returns-pure :
    {A : Type 0} {P : A → Trace → Type 0} (a : A) (t : Trace) → P a t → Returns P (pure a) t
unfolding pure
Returns-pure {P = P} a t h = record { at = λ b e. subst (λ x. P x t) (ok-injective e) h }

pub ruleset quiet_rules =
    (Quiet-pure, Quiet-lift, Quiet-raise, Quiet-call, Quiet-attempt, Quiet-bind)
