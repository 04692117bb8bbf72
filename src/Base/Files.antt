-- ===== src/Base/Files.antt =====
-- `pathlib.PurePosixPath`: a root, `/`, `//` or none, and the parts behind it.
use skill_governance_control.Base.{
  ℕ, zero, suc, String, ◌<>◌, Bool, not, ◌||◌, List, [], ◌∷◌, ◌++◌, last?, none, some, ◌==◌, ◌!=◌,
  string_eq, nat_eqb, if◌then◌else◌, select, ◌≡◌, refl,
}
use Prim.Native.Char.{code}
use skill_governance_control.Base.Lists.{reverse_onto}

pub record FilePath : Type 0 where
  pub root : String
  pub parts : List String

-- `text.split("/")`
unfoldable pub split_slash : String → List String
split_slash String.[] = "" ∷ []
split_slash (String.◌∷◌ c s) =
    let rest = split_slash s in
    if nat_eqb (code c) 47
    then "" ∷ rest
    else elim rest [ [] ↦ String.◌∷◌ c String.[] ∷ [] | t ∷ ts ↦ String.◌∷◌ c t ∷ ts ]

-- The slashes that a text begins with.
unfoldable pub leading_slashes : String → ℕ
leading_slashes String.[] = 0
leading_slashes (String.◌∷◌ c s) =
    let rest = leading_slashes s in if nat_eqb (code c) 47 then suc rest else 0

-- POSIX keeps exactly two slashes apart.
unfoldable pub root_of : ℕ → String
root_of zero = ""
root_of (suc zero) = "/"
root_of (suc (suc zero)) = "//"
root_of (suc (suc (suc n))) = "/"

-- `Path(text)`
unfoldable pub path_of : String → FilePath
path_of s = record {
  root = root_of (leading_slashes s);
  parts = select (λ part. not (part == "" || part == ".")) (split_slash s);
}

abbrev pub is_absolute : FilePath → Bool
is_absolute p = p.root != ""

-- `"/".join(parts)`
unfoldable pub join_slash : List String → String
join_slash [] = ""
join_slash (s ∷ []) = s
join_slash (s ∷ t ∷ ts) = s <> ("/" <> join_slash (t ∷ ts))

-- `str(path)`
unfoldable pub path_text : FilePath → String
path_text p = let text = p.root <> join_slash p.parts in if text == "" then "." else text

-- `path.name`
unfoldable pub path_name : FilePath → String
path_name p = elim (last? p.parts) [ none ↦ "" | some name ↦ name ]

-- `path.joinpath(*parts)` for parts of a relative path.
abbrev pub join_parts : FilePath → List String → FilePath
join_parts p parts = record { root = p.root; parts = p.parts ++ parts }

-- `os.path.abspath` of an absolute path: `..` takes the part before it away, and nothing at the root.
-- The parts so far stand in reverse.
unfoldable pub normal_parts : List String → List String → List String
normal_parts done [] = done
normal_parts done (part ∷ parts) =
    normal_parts (if part == ".." then elim done [ [] ↦ [] | d ∷ ds ↦ ds ] else part ∷ done) parts

unfoldable pub abs_path : FilePath → FilePath
abs_path p = record { root = p.root; parts = reverse_onto (normal_parts [] p.parts) [] }

path_of_example : path_text (path_of "/a//./b/../c") ≡ "/a/b/../c"
unfolding path_text path_of root_of leading_slashes split_slash join_slash string_eq
path_of_example = refl

abs_path_example : path_text (abs_path (path_of "/a//./b/../c")) ≡ "/a/c"
unfolding path_text path_of abs_path normal_parts root_of leading_slashes split_slash join_slash
    string_eq
abs_path_example = refl
