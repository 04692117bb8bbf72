-- ===== src/Base/Instant.antt =====
-- `datetime` and `timedelta`: a count of microseconds, with or without a time zone.
use Prim.Native.Nat.{ℕ, ◌+◌, ◌-◌}
use mathlib.Core.Bool.{Bool, true, false}
use skill_governance_control.Base.Tests.{leb}
use skill_governance_control.Base.Errors.{Result, ok, err, type_error}

pub data DateTime : Type 0 where
  naive aware : ℕ → DateTime

-- `value.tzinfo is None or value.utcoffset() is None`
abbrev pub is_naive : DateTime → Bool
is_naive (naive _) = true
is_naive (aware _) = false

-- `a >= b`: Python refuses to order a naive value and an aware one.
abbrev pub at_or_after : DateTime → DateTime → Result Bool
at_or_after (naive a) (naive b) = ok (leb b a)
at_or_after (aware a) (aware b) = ok (leb b a)
at_or_after _ _ = err type_error

-- A `timedelta`, forwards or backwards.
pub data Span : Type 0 where
  forward backward : ℕ → Span

-- `span <= timedelta(0)`
abbrev pub not_positive : Span → Bool
not_positive (forward d) = leb d 0
not_positive (backward d) = true

shift : ℕ → Span → ℕ
shift a (forward d) = a + d
shift a (backward d) = a - d

-- `a + span`
unfoldable pub add_span : DateTime → Span → DateTime
unfolding shift
add_span (naive a) d = naive (shift a d)
add_span (aware a) d = aware (shift a d)
