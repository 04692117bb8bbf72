-- ===== src/Tokens.antt =====
-- web/security.py: the one-time tokens of `DecisionTokenStore` and `InventoryRefreshTokenStore`. The
-- time that the clock shows and the tokens that `secrets` draws are arguments of each operation.
pub mod Laws
use skill_governance_control.Base.{
  ℕ, String, Bool, true, false, not, ◌&&◌, ◌||◌, Option, none, some, List, [], ◌∷◌, length, all,
  any, find_first, DateTime, is_naive, at_or_after, add_span, Span, forward, backward, not_positive,
  leb, Result, ok, err, other_exception, type_error, raise_if, ◌>>=◌, ◌==◌, string_eq,
  if◌then◌else◌, ◌>>◌, ◌!=◌, nat_eqb, Failure,
}
use skill_governance_control.Base.Lines.{strip}
use skill_governance_control.Base.Text.{codes, is_space, is_blank, is_plan_id, is_digest}

pub record TokenBinding : Type 0 where
  pub plan_id : String
  pub plan_digest : String
  pub created_at : DateTime
  pub expires_at : DateTime

abbrev pub Tokens : Type 0
Tokens = List (String × TokenBinding)

pub record TokenStore : Type 0 where
  pub allowed_origins : List String
  pub approver : String
  pub ttl : Span
  pub max_entries : ℕ
  pub tokens : Tokens

-- `ttl <= timedelta(minutes=10)`, in microseconds.
unfoldable pub is_short : Span → Bool
is_short (forward d) = leb d 600000000
is_short (backward d) = true

-- What `urlsplit` finds in a text.
pub record SplitUrl : Type 0 where
  pub scheme : String
  pub hostname : Option String
  pub username : Option String
  pub password : Option String
  pub path : String
  pub query : String
  pub fragment : String
  pub geturl : String

abbrev is_given : Option String → Bool
is_given none = false
is_given (some s) = true

-- `bool(parsed.hostname)`
abbrev has_text : Option String → Bool
has_text none = false
has_text (some s) = s != ""

-- `_valid_origin`, on what `urlsplit` returns.
unfoldable pub valid_origin : SplitUrl → String → Bool
valid_origin parsed origin =
    (parsed.scheme == "http" || parsed.scheme == "https")
    && has_text parsed.hostname
    && not (is_given parsed.username)
    && not (is_given parsed.password)
    && parsed.path == ""
    && parsed.query == ""
    && parsed.fragment == ""
    && parsed.geturl == origin

-- `any(not self._valid_origin(origin) for origin in allowed_origins)`; `urlsplit` may raise.
unfoldable pub any_invalid : (String → Result SplitUrl) → List String → Result Bool
any_invalid urlsplit [] = ok false
any_invalid urlsplit (origin ∷ origins) =
    let rest = any_invalid urlsplit origins in
    elim (urlsplit origin) [
      | err failure ↦ err failure
      | ok parsed ↦ if valid_origin parsed origin then rest else ok true
    ]

abbrev pub invalid_configuration : Failure
invalid_configuration = other_exception "invalid decision token configuration"

-- `__init__`
unfoldable pub open_store :
    (String → Result SplitUrl) → List String → String → Span → ℕ → Result TokenStore
open_store urlsplit allowed_origins approver ttl max_entries = do
  raise_if
      (is_blank approver
        || not (not (not_positive ttl) && is_short ttl)
        || not (leb 1 max_entries && leb max_entries 1024))
      invalid_configuration
  raise_if (nat_eqb (length allowed_origins) 0) invalid_configuration
  invalid ← any_invalid urlsplit allowed_origins
  raise_if invalid invalid_configuration
  ok (record {
    allowed_origins = allowed_origins;
    approver = strip approver;
    ttl = ttl;
    max_entries = max_entries;
    tokens = [];
  })

-- `current_time`, of what the clock shows.
unfoldable pub current_time : DateTime → Result DateTime
current_time current =
    if is_naive current then err (other_exception "decision token unavailable") else ok current

-- `_remove_expired`: nothing is deleted when a comparison raises.
unfoldable pub remove_expired : DateTime → Tokens → Result Tokens
remove_expired current [] = ok []
remove_expired current ((token, binding) ∷ rest) = do
  expired ← at_or_after current binding.expires_at
  live ← remove_expired current rest
  ok (if expired then live else (token, binding) ∷ live)

-- `self._tokens.get(token)`
unfoldable pub token_get : String → Tokens → Option TokenBinding
token_get token [] = none
token_get token ((k, b) ∷ rest) = if token == k then some b else token_get token rest

-- `del self._tokens[token]`
unfoldable pub token_delete : String → Tokens → Tokens
token_delete token [] = []
token_delete token ((k, b) ∷ rest) =
    let rest' = token_delete token rest in if token == k then rest' else (k, b) ∷ rest'

-- The `while` loop over the tokens that are drawn: the first one that is not in use. `none` says that
-- all of them are, and that the loop goes on.
unfoldable pub draw : List String → Tokens → Option String
draw [] tokens = none
draw (token ∷ draws) tokens = elim (token_get token tokens) [
  | none ↦ some token
  | some _ ↦ draw draws tokens
]

-- `hmac.compare_digest` on two texts, which refuses characters outside ASCII.
unfoldable pub compare_digest : String → String → Result Bool
compare_digest a b =
    if all (λ c. leb c 127) (codes a) && all (λ c. leb c 127) (codes b)
    then ok (a == b)
    else err type_error

-- The condition of `consume` on a binding.
unfoldable pub same_binding : TokenBinding → String → String → Result Bool
same_binding binding plan_id plan_digest = do
  same_id ← compare_digest binding.plan_id plan_id
  if same_id then compare_digest binding.plan_digest plan_digest else ok false

-- What stands under the lock in `issue`, on the tokens that are left. The answer is `none` as long as
-- every token that was drawn is in use.
unfoldable pub issue_live :
    List String
    → DateTime
    → String
    → String
    → TokenStore
    → Tokens
    → Option (Result String) × TokenStore
issue_live draws current plan_id plan_digest s live =
    let s' : TokenStore = record s { tokens = live } in
    if leb s.max_entries (length live)
    then (some (err (other_exception "decision token capacity reached")), s')
    else elim (draw draws live) [
      | none ↦ (none, s')
      | some token ↦
          let binding : TokenBinding = record {
            plan_id = plan_id;
            plan_digest = plan_digest;
            created_at = current;
            expires_at = add_span current s.ttl;
          } in
          (some (ok token), record s { tokens = (token, binding) ∷ live })
    ]

-- `issue`. A token goes in at the front: no operation reads the order.
unfoldable pub issue :
    List String → DateTime → String → String → TokenStore → Option (Result String) × TokenStore
issue draws clock plan_id plan_digest s =
    if not (is_plan_id plan_id) || not (is_digest plan_digest)
    then (some (err (other_exception "invalid decision token binding")), s)
    else elim (current_time clock) [
      | err failure ↦ (some (err failure), s)
      | ok current ↦ elim (remove_expired current s.tokens) [
        | err failure ↦ (some (err failure), s)
        | ok live ↦ issue_live draws current plan_id plan_digest s live
      ]
    ]

-- What stands under the lock in `consume`, on the tokens that are left.
unfoldable pub consume_live :
    String → String → String → TokenStore → Tokens → Result (Unit {0}) × TokenStore
consume_live token plan_id plan_digest s live =
    let s' : TokenStore = record s { tokens = live } in
    elim (token_get token live) [
      | none ↦ (err (other_exception "invalid decision token"), s')
      | some binding ↦ elim (same_binding binding plan_id plan_digest) [
        | err failure ↦ (err failure, s')
        | ok false ↦ (err (other_exception "invalid decision token"), s')
        | ok true ↦ (ok tt, record s { tokens = token_delete token live })
      ]
    ]

unfoldable pub consume :
    DateTime → String → String → String → TokenStore → Result (Unit {0}) × TokenStore
consume clock token plan_id plan_digest s = elim (current_time clock) [
  | err failure ↦ (err failure, s)
  | ok current ↦ elim (remove_expired current s.tokens) [
    | err failure ↦ (err failure, s)
    | ok live ↦ consume_live token plan_id plan_digest s live
  ]
]

-- `InventoryRefreshTokenStore`: the same store with one binding.
abbrev pub inventory_refresh_binding_id : String
inventory_refresh_binding_id = "plan-696e76656e746f72792d726566726573"

unfoldable pub issue_refresh :
    List String → DateTime → String → TokenStore → Option (Result String) × TokenStore
issue_refresh draws clock snapshot_digest s =
    issue draws clock inventory_refresh_binding_id snapshot_digest s

unfoldable pub consume_refresh :
    DateTime → String → String → TokenStore → Result (Unit {0}) × TokenStore
consume_refresh clock token snapshot_digest s =
    consume clock token inventory_refresh_binding_id snapshot_digest s
