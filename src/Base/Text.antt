-- ===== src/Base/Text.antt =====
-- Tests on texts by their code points: `str.strip`, and the patterns of identifiers and digests.
use Prim.Native.Nat.{ℕ}
use Prim.Native.Char.{code}
use Prim.Native.String.{String}
use mathlib.Core.Bool.{Bool, false, ◌&&◌, ◌||◌}
use mathlib.Core.List.{List, [], ◌∷◌}
use skill_governance_control.Base.Tests.{leb, nat_eqb}
use skill_governance_control.Base.Lists.{all, length}

abbrev pub codes : String → List ℕ
codes String.[] = []
codes (String.◌∷◌ c s) = code c ∷ codes s

abbrev between : ℕ → ℕ → ℕ → Bool
between lo hi c = leb lo c && leb c hi

-- The white space of `str.strip()`.
unfoldable pub is_space : ℕ → Bool
is_space c =
    between 9 13 c
    || between 28 32 c
    || nat_eqb c 133
    || nat_eqb c 160
    || nat_eqb c 5760
    || between 8192 8202 c
    || nat_eqb c 8232
    || nat_eqb c 8233
    || nat_eqb c 8239
    || nat_eqb c 8287
    || nat_eqb c 12288

-- `not text.strip()`
unfoldable pub is_blank : String → Bool
unfolding is_space
is_blank s = all is_space (codes s)

unfoldable pub is_hex_digit : ℕ → Bool
is_hex_digit c = between b'0' b'9' c || between b'a' b'f' c

-- `re.fullmatch(prefix + r"[0-9a-f]{n}", text)` for a literal prefix.
unfoldable pub hex_after : List ℕ → ℕ → List ℕ → Bool
unfolding is_hex_digit
hex_after [] n text = nat_eqb (length text) n && all is_hex_digit text
hex_after (p ∷ ps) n [] = false
hex_after (p ∷ ps) n (c ∷ cs) = nat_eqb p c && hex_after ps n cs

-- `plan-[0-9a-f]{32}`
unfoldable pub is_plan_id : String → Bool
unfolding hex_after
is_plan_id s = hex_after (codes "plan-") 32 (codes s)

-- `sha256:[0-9a-f]{64}`
unfoldable pub is_digest : String → Bool
unfolding hex_after
is_digest s = hex_after (codes "sha256:") 64 (codes s)
