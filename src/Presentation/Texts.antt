-- ===== src/Presentation/Texts.antt =====
-- web/inventory_presentation.py: the texts that the page makes, and the search in them.
use skill_governance_control.Base.{
  ℕ, zero, suc, ◌/◌, ◌%◌, String, ◌<>◌, Bool, true, false, ◌&&◌, ◌||◌, Option, none, some, List, [],
  ◌∷◌, ltb, nat_eqb, string_eq, option_eq, list_eq, nat_eq, if◌then◌else◌,
}
use Prim.Native.Char.{code}
use skill_governance_control.Base.Text.{codes}

-- `str(n)`, given a round for each digit.
abbrev digit : ℕ → String
digit n =
    if nat_eqb n 0
    then "0"
    else if nat_eqb n 1
    then "1"
    else if nat_eqb n 2
    then "2"
    else if nat_eqb n 3
    then "3"
    else if nat_eqb n 4
    then "4"
    else if nat_eqb n 5
    then "5"
    else if nat_eqb n 6
    then "6"
    else if nat_eqb n 7
    then "7"
    else if nat_eqb n 8
    then "8"
    else "9"

unfoldable pub decimal_text : ℕ → ℕ → String
decimal_text zero n = ""
decimal_text (suc fuel) n =
    let rest = decimal_text fuel (n / 10) <> digit (n % 10) in if ltb n 10 then digit n else rest

abbrev pub text_of_number : ℕ → String
text_of_number n = decimal_text (suc n) n

-- `text[:n]`
unfoldable pub first_characters : ℕ → String → String
first_characters zero s = String.[]
first_characters (suc n) String.[] = String.[]
first_characters (suc n) (String.◌∷◌ c s) = String.◌∷◌ c (first_characters n s)

-- `text.partition(":")`, if there is one.
unfoldable pub partition_colon : String → Option (String × String)
partition_colon String.[] = none
partition_colon (String.◌∷◌ c s) =
    let rest = partition_colon s in
    if nat_eqb (code c) 58
    then some ("", s)
    else elim rest [ none ↦ none | some (before, behind) ↦ some (String.◌∷◌ c before, behind) ]

-- `needle in text`
unfoldable pub begins_with : List ℕ → List ℕ → Bool
begins_with [] cs = true
begins_with (n ∷ ns) [] = false
begins_with (n ∷ ns) (c ∷ cs) = nat_eqb n c && begins_with ns cs

unfoldable pub occurs_in : List ℕ → List ℕ → Bool
occurs_in needle [] = begins_with needle []
occurs_in needle (c ∷ cs) = begins_with needle (c ∷ cs) || occurs_in needle cs

abbrev pub is_part : String → String → Bool
is_part needle text = occurs_in (codes needle) (codes text)

-- `_short_digest`
unfoldable pub short_digest : Option String → String
short_digest none = "未生成"
short_digest (some digest) = elim (partition_colon digest) [
  | none ↦ first_characters 12 digest
  | some (before, value) ↦ before <> (":" <> first_characters 12 value)
]
