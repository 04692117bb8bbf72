-- ===== src/Tokens/Laws.antt =====
-- Tokens are accepted once, for their binding and before they expire, and their number is bounded.
use skill_governance_control.Base.{
  ◌≤◌, String, Bool, true, false, none, some, List, [], ◌∷◌, length, Any, first, later, All, Span,
  DateTime, naive, aware, is_naive, at_or_after, add_span, leb, ok, ◌≡◌, ◌≢◌, refl, ap, ◌∙◌, arith,
  ◌==◌, string_eq, Result-cases, Option-cases, Bool-cases, inl, inr, >>=-eq-ok,
}
use skill_governance_control.Tokens.{
  TokenBinding, Tokens, TokenStore, remove_expired, token_get, token_delete, compare_digest,
  same_binding, issue_live, issue, consume_live, consume, current_time,
}

remove_expired-length :
    (current : DateTime) (tokens live : Tokens)
    → remove_expired current tokens ≡ ok live
    → length live ≤ length tokens
unfolding remove_expired
remove_expired-length current [] live h = ground arith
remove_expired-length current ((token, b) ∷ rest) live h =
    let (expired, _, k) = >>=-eq-ok (at_or_after current b.expires_at) _ h in
    let (live', e, k') = >>=-eq-ok (remove_expired current rest) _ k in
    let less = remove_expired-length current rest live' e in ground arith

token_delete-length :
    (token : String) (tokens : Tokens) → length (token_delete token tokens) ≤ length tokens
unfolding token_delete
token_delete-length token [] = omega arith
token_delete-length token ((k, b) ∷ rest) = ground (arith, token_delete-length token rest)

-- The store never holds more tokens than `max_entries`: `issue` and `consume` keep the bound,
-- whatever they answer.
pub tokens-bounded :
    (draws : List String) (clock : DateTime) (token plan_id plan_digest : String) (s : TokenStore)
    → length s.tokens ≤ s.max_entries
    → (length (issue draws clock plan_id plan_digest s).1.tokens ≤ s.max_entries)
      × (length (consume clock token plan_id plan_digest s).1.tokens ≤ s.max_entries)
unfolding issue issue_live consume consume_live current_time
tokens-bounded draws clock token plan_id plan_digest s h =
    elim (Result-cases (remove_expired clock s.tokens)) [
      | inl (live, e) ↦
          let less = remove_expired-length clock s.tokens live e in
          (ground arith, ground (arith, token_delete-length token live))
      | inr (failure, e) ↦ (ground arith, ground arith)
    ]

token_get-token_delete :
    (token : String) (tokens : Tokens) → token_get token (token_delete token tokens) ≡ none
unfolding token_get token_delete
token_get-token_delete token [] = refl
token_get-token_delete token ((k, b) ∷ rest) = ground (arith, token_get-token_delete token rest)

token_get-remove_expired :
    (current : DateTime) (token : String) (tokens live : Tokens)
    → token_get token tokens ≡ none
    → remove_expired current tokens ≡ ok live
    → token_get token live ≡ none
unfolding token_get remove_expired
token_get-remove_expired current token [] live h e = ground arith
token_get-remove_expired current token ((k, b) ∷ rest) live h e =
    let (expired, _, e₁) = >>=-eq-ok (at_or_after current b.expires_at) _ e in
    let (live', e₂, e₃) = >>=-eq-ok (remove_expired current rest) _ e₁ in
    ground (arith, token_get-remove_expired current token rest live')

consume-ok :
    (clock : DateTime) (token plan_id plan_digest : String) (s : TokenStore)
    → (consume clock token plan_id plan_digest s).0 ≡ ok tt
    → (live : Tokens) × (b : TokenBinding) × (remove_expired clock s.tokens ≡ ok live)
      × (token_get token live ≡ some b)
      × (same_binding b plan_id plan_digest ≡ ok true)
      × ((consume clock token plan_id plan_digest s).1.tokens ≡ token_delete token live)
unfolding consume consume_live current_time
consume-ok clock token plan_id plan_digest s h =
    elim (Result-cases (remove_expired clock s.tokens)) [
      | inl (live, e) ↦ elim (Option-cases (token_get token live)) [
        | inl n ↦ ground arith
        | inr (b, f) ↦ (live, b, e, f, ground arith, ground arith)
      ]
      | inr (failure, e) ↦ ground arith
    ]

-- A token is accepted once: after a `consume` that returns, no `consume` of that token returns, at
-- any time and for any binding.
pub consume-once :
    (clock later_clock : DateTime) (token plan_id plan_digest plan_id' plan_digest' : String)
    (s : TokenStore)
    → (consume clock token plan_id plan_digest s).0 ≡ ok tt
    → (consume later_clock token plan_id' plan_digest'
        (consume clock token plan_id plan_digest s).1).0
      ≢ ok tt
consume-once clock later_clock token plan_id plan_digest plan_id' plan_digest' s h again =
    let (live, b, _, _, _, gone) = consume-ok clock token plan_id plan_digest s h in
    let s' = (consume clock token plan_id plan_digest s).1 in
    let (live', b', e', found, _, _) =
      consume-ok later_clock token plan_id' plan_digest' s' again in
    let missing =
      token_get-remove_expired later_clock token s'.tokens live'
        (ap (token_get token) gone ∙ token_get-token_delete token live) e' in
    ground arith

remove_expired-live :
    (current : DateTime) (token : String) (tokens live : Tokens) (b : TokenBinding)
    → remove_expired current tokens ≡ ok live
    → token_get token live ≡ some b
    → (at_or_after current b.expires_at ≡ ok false) × Any (λ item. item ≡ (token, b)) tokens
unfolding token_get remove_expired
remove_expired-live current token [] live b e h = ground arith
remove_expired-live current token ((k, c) ∷ rest) live b e h =
    let (expired, e₁, k₁) = >>=-eq-ok (at_or_after current c.expires_at) _ e in
    let (live', e₂, k₂) = >>=-eq-ok (remove_expired current rest) _ k₁ in
    let ih = remove_expired-live current token rest live' b e₂ in
    elim (Bool-cases expired) [
      | inl gone ↦ (let (f, m) = ih (ground arith) in (f, later m))
      | inr kept ↦ elim (Bool-cases (token == k)) [
        | inl same ↦ (ground arith, first (ground arith))
        | inr other ↦ (let (f, m) = ih (ground arith) in (f, later m))
      ]
    ]

same_binding-ok :
    (b : TokenBinding) (plan_id plan_digest : String)
    → same_binding b plan_id plan_digest ≡ ok true
    → (b.plan_id ≡ plan_id) × (b.plan_digest ≡ plan_digest)
unfolding same_binding compare_digest
same_binding-ok b plan_id plan_digest h = (ground arith, ground arith)

-- A token that `consume` accepts was issued for that plan and that digest, and has not expired.
pub consume-bound :
    (clock : DateTime) (token plan_id plan_digest : String) (s : TokenStore)
    → (consume clock token plan_id plan_digest s).0 ≡ ok tt
    → (b : TokenBinding) × Any (λ item. item ≡ (token, b)) s.tokens
      × (b.plan_id ≡ plan_id)
      × (b.plan_digest ≡ plan_digest)
      × (at_or_after clock b.expires_at ≡ ok false)
consume-bound clock token plan_id plan_digest s h =
    let (live, b, e, found, same, _) = consume-ok clock token plan_id plan_digest s h in
    let (unexpired, stored) = remove_expired-live clock token s.tokens live b e found in
    let (p, d) = same_binding-ok b plan_id plan_digest same in (b, stored, p, d, unexpired)

-- What `_TokenBinding` values are under the store's clock checks.
abbrev pub AllAware : Tokens → Type 0
AllAware = All (λ item. is_naive item.1.expires_at ≡ false)

at_or_after-aware :
    (a b : DateTime)
    → is_naive a ≡ false
    → is_naive b ≡ false
    → (r : Bool) × (at_or_after a b ≡ ok r)
at_or_after-aware (aware m) (aware n) h k = (leb n m, refl)
at_or_after-aware (naive m) b h k = ground arith
at_or_after-aware (aware m) (naive n) h k = ground arith

remove_expired-total :
    (current : DateTime) (tokens : Tokens)
    → is_naive current ≡ false
    → AllAware tokens
    → (live : Tokens) × (remove_expired current tokens ≡ ok live) × AllAware live
unfolding remove_expired
remove_expired-total current [] h all_aware = ([], refl, tt)
remove_expired-total current ((token, b) ∷ rest) h (now, all_aware) =
    let (expired, e) = at_or_after-aware current b.expires_at h now in
    let (live, e', aware_live) = remove_expired-total current rest h all_aware in
    elim (Bool-cases expired) [
      | inl gone ↦ (live, ground arith, aware_live)
      | inr kept ↦ ((token, b) ∷ live, ground arith, (now, aware_live))
    ]

-- The binding that `issue` makes.
abbrev bind_token : DateTime → String → String → TokenStore → TokenBinding
bind_token current plan_id plan_digest s = record {
  plan_id = plan_id;
  plan_digest = plan_digest;
  created_at = current;
  expires_at = add_span current s.ttl;
}

issue-ok :
    (draws : List String) (clock : DateTime) (token plan_id plan_digest : String) (s : TokenStore)
    → AllAware s.tokens
    → (issue draws clock plan_id plan_digest s).0 ≡ some (ok token)
    → (live : Tokens) × AllAware live
      × (is_naive clock ≡ false)
      × ((issue draws clock plan_id plan_digest s).1.tokens
          ≡ (token, bind_token clock plan_id plan_digest s) ∷ live)
unfolding issue issue_live current_time
issue-ok draws clock token plan_id plan_digest s all_aware h =
    let now : is_naive clock ≡ false = ground arith in
    let (live, e, aware_live) = remove_expired-total clock s.tokens now all_aware in
    (live, aware_live, now, ground arith)

add_span-aware :
    (clock : DateTime) (d : Span) → is_naive clock ≡ false → is_naive (add_span clock d) ≡ false
unfolding add_span
add_span-aware (aware n) d h = refl
add_span-aware (naive n) d h = ground arith

same_binding_refl :
    (b : TokenBinding)
    → compare_digest b.plan_id b.plan_id ≡ ok true
    → compare_digest b.plan_digest b.plan_digest ≡ ok true
    → same_binding b b.plan_id b.plan_digest ≡ ok true
unfolding same_binding
same_binding_refl b h k = ground arith

consume-first :
    (clock : DateTime) (token : String) (b : TokenBinding) (rest : Tokens) (s : TokenStore)
    → s.tokens ≡ (token, b) ∷ rest
    → is_naive clock ≡ false
    → AllAware rest
    → at_or_after clock b.expires_at ≡ ok false
    → same_binding b b.plan_id b.plan_digest ≡ ok true
    → (consume clock token b.plan_id b.plan_digest s).0 ≡ ok tt
unfolding consume consume_live current_time remove_expired token_get
consume-first clock token b rest s e now all_aware in_time same =
    let (live, e', _) = remove_expired-total clock rest now all_aware in ground arith

-- An issued token is accepted: at every later time before its expiry, `consume` with the plan and the
-- digest that `issue` was given returns, on a store whose expiry times all carry a time zone and for
-- a plan and a digest in ASCII.
pub consume-issue :
    (draws : List String) (clock later_clock : DateTime) (token plan_id plan_digest : String)
    (s : TokenStore)
    → AllAware s.tokens
    → (issue draws clock plan_id plan_digest s).0 ≡ some (ok token)
    → is_naive later_clock ≡ false
    → at_or_after later_clock (add_span clock s.ttl) ≡ ok false
    → compare_digest plan_id plan_id ≡ ok true
    → compare_digest plan_digest plan_digest ≡ ok true
    → (consume later_clock token plan_id plan_digest (issue draws clock plan_id plan_digest s).1).0
      ≡ ok tt
consume-issue draws clock later_clock token plan_id plan_digest s all_aware h aware_later in_time
      id_ascii digest_ascii =
    let (live, aware_live, _, e) = issue-ok draws clock token plan_id plan_digest s all_aware h in
    let b = bind_token clock plan_id plan_digest s in
    consume-first later_clock token b live (issue draws clock plan_id plan_digest s).1 e aware_later
      aware_live in_time (same_binding_refl b id_ascii digest_ascii)
