-- ===== src/Base/Bytes.antt =====
-- `bytes`: a list of numbers, and the methods that the ledger file is read by.
use Prim.Native.Nat.{ℕ, zero, suc, ◌<◌}
use mathlib.Core.Path.{◌≡◌, refl}
use mathlib.Core.Bool.{Bool, true, false, not, ◌||◌}
use mathlib.Core.List.{List, [], ◌∷◌, ◌++◌, append_assoc, append-nil}
use native.Mathlib.Omega.{arith}
use skill_governance_control.Base.Equality.{if◌then◌else◌}
use skill_governance_control.Base.Tests.{nat_eqb}
use skill_governance_control.Base.Lists.{all, take, length}

abbrev pub Bytes : Type 0
Bytes = List ℕ

abbrev pub newline : ℕ
newline = 10

abbrev pub carriage_return : ℕ
carriage_return = 13

-- `raw.endswith(b"\n")`
unfoldable pub ends_with_newline : Bytes → Bool
ends_with_newline [] = false
ends_with_newline (b ∷ []) = nat_eqb b newline
ends_with_newline (b ∷ d ∷ bs) = ends_with_newline (d ∷ bs)

pub data Position : Type 0 where
  after_return : Position
  within : Bytes → Position

current : Position → Bytes
current after_return = []
current (within line) = line

pub data Kind : Type 0 where
  skipped line_feed return_mark other : Kind

kind : Position → ℕ → Kind
kind after_return b =
    if nat_eqb b newline then skipped else if nat_eqb b carriage_return then return_mark else other
kind (within line) b =
    if nat_eqb b newline
    then line_feed
    else if nat_eqb b carriage_return
    then return_mark
    else other

rest_of_line : Position → List Bytes
rest_of_line after_return = []
rest_of_line (within []) = []
rest_of_line (within (b ∷ bs)) = (b ∷ bs) ∷ []

lines_from : Position → Bytes → List Bytes
unfolding current kind rest_of_line
lines_from p [] = rest_of_line p
lines_from p (b ∷ bs) = elim (kind p b) [
  | skipped ↦ lines_from (within []) bs
  | line_feed ↦ current p ∷ lines_from (within []) bs
  | return_mark ↦ current p ∷ lines_from after_return bs
  | other ↦ lines_from (within (current p ++ b ∷ [])) bs
]

-- `raw.splitlines()`: a line ends with `\n`, `\r` or `\r\n`.
unfoldable pub splitlines : Bytes → List Bytes
unfolding lines_from
splitlines raw = lines_from (within []) raw

-- A line of text holds neither of the two marks.
abbrev pub is_one_line : Bytes → Bool
is_one_line = all (λ b. not (nat_eqb b newline || nat_eqb b carriage_return))

lines_from_one :
    (cur line : Bytes)
    → is_one_line line ≡ true
    → lines_from (within cur) (line ++ newline ∷ []) ≡ (cur ++ line) ∷ []
unfolding lines_from
lines_from_one cur [] h = rw append-nil
lines_from_one cur (b ∷ bs) h =
    ground (arith, lines_from_one (cur ++ b ∷ []) bs (ground arith), append_assoc cur (b ∷ []) bs)

lines_from-append :
    (p : Position) (raw rest : Bytes)
    → ends_with_newline raw ≡ true
    → lines_from p (raw ++ rest) ≡ lines_from p raw ++ lines_from (within []) rest
unfolding lines_from ends_with_newline
lines_from-append p [] rest h = ground arith
lines_from-append after_return (b ∷ []) rest h = ground arith
lines_from-append (within line) (b ∷ []) rest h = ground arith
lines_from-append p (b ∷ d ∷ bs) rest h = ground (
  arith,
  lines_from-append (within []) (d ∷ bs) rest h,
  lines_from-append after_return (d ∷ bs) rest h,
  lines_from-append (within (current p ++ b ∷ [])) (d ∷ bs) rest h,
)

-- A line that is written at the end of a file of whole lines is its last line.
pub splitlines-append_line :
    (raw line : Bytes)
    → ends_with_newline raw ≡ true
    → is_one_line line ≡ true
    → splitlines (raw ++ (line ++ newline ∷ [])) ≡ splitlines raw ++ line ∷ []
unfolding splitlines
splitlines-append_line raw line h one =
    rw (lines_from-append (within []) raw (line ++ newline ∷ []) h, lines_from_one [] line one)

pub splitlines_one :
    (line : Bytes) → is_one_line line ≡ true → splitlines (line ++ newline ∷ []) ≡ line ∷ []
unfolding splitlines
splitlines_one line one = lines_from_one [] line one

pub ends_with_newline-append :
    (raw line : Bytes) → ends_with_newline (raw ++ (line ++ newline ∷ [])) ≡ true
unfolding ends_with_newline
ends_with_newline-append [] [] = refl
ends_with_newline-append [] (b ∷ []) = refl
ends_with_newline-append [] (b ∷ d ∷ bs) = ends_with_newline-append [] (d ∷ bs)
ends_with_newline-append (r ∷ []) [] = refl
ends_with_newline-append (r ∷ []) (b ∷ bs) = ends_with_newline-append [] (b ∷ bs)
ends_with_newline-append (r ∷ s ∷ rs) line = ends_with_newline-append (s ∷ rs) line

-- A non-empty part of a line that stops before its end does not end the file's last line.
pub ends_with_newline_torn :
    (raw line : Bytes) (n : ℕ)
    → is_one_line line ≡ true
    → n < length line
    → ends_with_newline (raw ++ take (suc n) line) ≡ false
unfolding ends_with_newline
ends_with_newline_torn [] [] n one h = elim h [ ]
ends_with_newline_torn [] (b ∷ bs) zero one h = ground arith
ends_with_newline_torn [] (b ∷ []) (suc n) one h = absurd (omega arith)
ends_with_newline_torn [] (b ∷ d ∷ bs) (suc n) one h =
    ends_with_newline_torn [] (d ∷ bs) n (ground arith) (omega arith)
ends_with_newline_torn (r ∷ []) [] n one h = elim h [ ]
ends_with_newline_torn (r ∷ []) (b ∷ bs) n one h = ends_with_newline_torn [] (b ∷ bs) n one h
ends_with_newline_torn (r ∷ s ∷ rs) line n one h = ends_with_newline_torn (s ∷ rs) line n one h

pub splitlines-nil : splitlines [] ≡ []
unfolding splitlines
splitlines-nil = refl
