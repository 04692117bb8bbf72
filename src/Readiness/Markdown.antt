-- ===== src/Readiness/Markdown.antt =====
-- web/readiness.py: `_parse_markdown` and `_text_block_after_marker`. A text is its code points.
use skill_governance_control.Base.{
  ℕ, zero, suc, ◌-◌, false, Option, none, some, List, [], ◌∷◌, ◌++◌, length, drop, all, any,
  find_first, ◌!=◌, list_eq, nat_eq, nat_eqb, leb, if◌then◌else◌,
}
use skill_governance_control.Base.Lines.{Line, lines_from, strip_line}
use skill_governance_control.Base.Text.{codes, is_space}

-- What follows a prefix.
unfoldable pub after_prefix : List ℕ → List ℕ → Option (List ℕ)
after_prefix [] text = some text
after_prefix (p ∷ ps) [] = none
after_prefix (p ∷ ps) (c ∷ cs) = if nat_eqb p c then after_prefix ps cs else none

-- At most so many spaces, then the rest.
unfoldable pub skip_spaces : ℕ → Line → Line
skip_spaces zero l = l
skip_spaces (suc n) [] = []
skip_spaces (suc n) (c ∷ cs) = let rest = skip_spaces n cs in if nat_eqb c 32 then rest else c ∷ cs

-- `_FENCE_LINE.fullmatch(line)`: the group `info`.
unfoldable pub fence : Line → Option Line
fence l = elim (after_prefix (codes "```") (skip_spaces 3 l)) [
  | none ↦ none
  | some info ↦ if any (λ c. nat_eqb c 96) info then none else some info
]

pub record FenceBlock : Type 0 where
  pub opening_line : ℕ
  pub closing_line : ℕ
  pub info : Line
  pub content : List Line

-- The text outside the blocks is kept as its lines: one for each line of the document.
pub record MarkdownDocument : Type 0 where
  pub lines : List Line
  pub outside_lines : List Line
  pub blocks : List FenceBlock

-- `opening_line`, `info` and `content` of the block that is open.
pub record OpenBlock : Type 0 where
  pub opening_line : ℕ
  pub info : Line
  pub content : List Line

abbrev pub Parsed : Type 0
Parsed = Option (List Line × List FenceBlock)

abbrev pub outside : Line → Parsed → Parsed
outside l none = none
outside l (some (ls, bs)) = some (l ∷ ls, bs)

abbrev pub block : FenceBlock → Parsed → Parsed
block b none = none
block b (some (ls, bs)) = some ([] ∷ ls, b ∷ bs)

-- The loop, from a line number on: the outside lines and the blocks that are still to come.
unfoldable pub parse_from : List Line → ℕ → Option OpenBlock → Parsed
parse_from [] n none = some ([], [])
parse_from [] n (some o) = none
parse_from (l ∷ ls) n none = elim (fence l) [
  | none ↦ outside l (parse_from ls (suc n) none)
  | some info ↦ outside [] (
      parse_from ls (suc n)
        (some (record { opening_line = n; info = strip_line info; content = [] })))
]
parse_from (l ∷ ls) n (some o) = elim (fence l) [
  | none ↦ outside [] (parse_from ls (suc n) (some (record o { content = o.content ++ l ∷ [] })))
  | some info ↦
      if strip_line info != []
      then none
      else block
          (record {
            opening_line = o.opening_line;
            closing_line = n;
            info = o.info;
            content = o.content;
          })
          (parse_from ls (suc n) none)
]

unfoldable pub parse_markdown : List ℕ → Option MarkdownDocument
parse_markdown text =
    let lines = lines_from false text in
    elim (parse_from lines 0 none) [
      | none ↦ none
      | some (outside_lines, blocks) ↦
          some (record { lines = lines; outside_lines = outside_lines; blocks = blocks })
    ]

-- `"\n".join(outside_lines)`
unfoldable pub join_lines : List Line → List ℕ
join_lines [] = []
join_lines (l ∷ []) = l
join_lines (l ∷ m ∷ ls) = l ++ 10 ∷ join_lines (m ∷ ls)

unfoldable pub outside_text : MarkdownDocument → List ℕ
outside_text d = join_lines d.outside_lines

-- `text.count(marker)` for a marker that is not empty: behind an occurrence, its other characters are
-- skipped.
unfoldable pub count_from : ℕ → List ℕ → List ℕ → ℕ
count_from skip marker [] = 0
count_from (suc skip) marker (c ∷ cs) = count_from skip marker cs
count_from zero marker (c ∷ cs) = elim (after_prefix marker (c ∷ cs)) [
  | none ↦ count_from 0 marker cs
  | some _ ↦ suc (count_from (length marker - 1) marker cs)
]

-- The indices, from `n` on, of the lines that contain the marker.
unfoldable pub lines_with : List ℕ → ℕ → List Line → List ℕ
lines_with marker n [] = []
lines_with marker n (l ∷ ls) =
    let rest = lines_with marker (suc n) ls in
    if leb 1 (count_from 0 marker l) then n ∷ rest else rest

-- The first index, from `n` on, of a line that is not blank.
unfoldable pub next_text : ℕ → List Line → ℕ
next_text n [] = n
next_text n (l ∷ ls) = let next = next_text (suc n) ls in if all is_space l then next else n

abbrev next_from : List Line → ℕ → ℕ
next_from lines n = next_text n (drop n lines)

abbrev opened_at : List FenceBlock → ℕ → Option FenceBlock
opened_at blocks n = find_first (λ b. nat_eqb b.opening_line n) blocks

unfoldable pub text_block_after_marker : MarkdownDocument → List ℕ → Option (List Line)
text_block_after_marker d marker =
    if nat_eqb (count_from 0 marker (outside_text d)) 1
    then elim (lines_with marker 0 d.lines) [
      | n ∷ [] ↦ elim (opened_at d.blocks (next_from d.lines (suc n))) [
        | none ↦ none
        | some b ↦
            if b.info != codes "text"
            then none
            else elim (opened_at d.blocks (next_from d.lines (suc b.closing_line))) [
              | none ↦ some b.content
              | some _ ↦ none
            ]
      ]
      | _ ↦ none
    ]
    else none
