-- ===== src/Base/Lines.antt =====
-- `str.splitlines` and `str.strip`, on texts and on their code points.
use Prim.Native.Nat.{ℕ}
use Prim.Native.String.{String}
use mathlib.Core.Bool.{Bool, ◌&&◌, ◌||◌}
use mathlib.Core.List.{List, [], ◌∷◌}
use skill_governance_control.Base.Equality.{if◌then◌else◌}
use skill_governance_control.Base.Tests.{leb, nat_eqb}
use skill_governance_control.Base.Lists.{all}
use skill_governance_control.Base.Text.{is_space, is_blank}

abbrev pub Line : Type 0
Line = List ℕ

-- The ends of lines of `str.splitlines()`, but for the two characters of `\r\n`.
unfoldable pub is_break : ℕ → Bool
is_break c =
    (leb 10 c && leb c 13)
    || (leb 28 c && leb c 30)
    || nat_eqb c 133
    || nat_eqb c 8232
    || nat_eqb c 8233

abbrev push : ℕ → List Line → List Line
push c [] = (c ∷ []) ∷ []
push c (l ∷ ls) = (c ∷ l) ∷ ls

-- `str.splitlines()`, behind a `\r` or not.
unfoldable pub lines_from : Bool → List ℕ → List Line
lines_from after_cr [] = []
lines_from after_cr (c ∷ cs) =
    let rest = lines_from (nat_eqb c 13) cs in
    if after_cr && nat_eqb c 10 then rest else if is_break c then [] ∷ rest else push c rest

-- `line.strip()`
unfoldable pub strip_start : Line → Line
strip_start [] = []
strip_start (c ∷ cs) = let rest = strip_start cs in if is_space c then rest else c ∷ cs

unfoldable pub strip_end : Line → Line
strip_end [] = []
strip_end (c ∷ cs) = let rest = strip_end cs in if all is_space (c ∷ cs) then [] else c ∷ rest

unfoldable pub strip_line : Line → Line
strip_line l = strip_end (strip_start l)

-- `str.strip`
strip_left : String → String
strip_left String.[] = String.[]
strip_left (String.◌∷◌ c s) =
    let rest = strip_left s in if is_blank (String.◌∷◌ c String.[]) then rest else String.◌∷◌ c s

strip_right : String → String
strip_right String.[] = String.[]
strip_right (String.◌∷◌ c s) =
    let rest = strip_right s in if is_blank (String.◌∷◌ c s) then String.[] else String.◌∷◌ c rest

unfoldable pub strip : String → String
unfolding strip_left strip_right
strip s = strip_right (strip_left s)
