-- ===== src/Readiness/Splits.antt =====
-- How a document divides into the lines outside its fences and the blocks between them, which
-- `_parse_markdown` of web/readiness.py finds line by line.
use skill_governance_control.Base.{
  ℕ, zero, suc, ◌+◌, Option, none, some, List, [], ◌∷◌, ◌++◌, length, All, append_assoc, append-nil,
  ◌≡◌, refl, sym, ap, ◌∙◌, arith, ◌!=◌, list_eq, nat_eq, Bool-cases, Option-cases, inl, inr,
}
use skill_governance_control.Base.Lines.{Line, strip_line}
use skill_governance_control.Readiness.Markdown.{
  FenceBlock, OpenBlock, Parsed, outside, block, parse_from, fence,
}

-- So many blank lines before others.
abbrev pub blank_lines : ℕ → List Line → List Line
blank_lines zero out = out
blank_lines (suc k) out = [] ∷ blank_lines k out

-- The lines of a document from line `n` on, its outside lines and its blocks: a line that is no fence
-- is its own outside line; a block is a fence, lines that are none, which are its content, and a fence
-- with nothing behind it, and a blank outside line stands for each of these.
pub data Splits : ℕ → List Line → List Line → List FenceBlock → Type 0 where
  no_lines :
      (n : ℕ) (out : List Line) (blocks : List FenceBlock)
      → out ≡ []
      → blocks ≡ []
      → Splits n [] out blocks
  text_line :
      (n : ℕ) (l : Line) (lines rest out : List Line) (blocks : List FenceBlock)
      → fence l ≡ none
      → out ≡ l ∷ rest
      → Splits (suc n) lines rest blocks
      → Splits n (l ∷ lines) out blocks
  fenced :
      (n closing_line : ℕ) (opening info closing last : Line)
      (lines content rest out rest_out : List Line) (blocks rest_blocks : List FenceBlock)
      → closing_line ≡ suc n + length content
      → lines ≡ content ++ closing ∷ rest
      → fence opening ≡ some info
      → All (λ l. fence l ≡ none) content
      → fence closing ≡ some last
      → strip_line last ≡ []
      → out ≡ blank_lines (suc (suc (length content))) rest_out
      → blocks
        ≡ record {
          opening_line = n;
          closing_line = closing_line;
          info = strip_line info;
          content = content;
        }
          ∷ rest_blocks
      → Splits (suc closing_line) rest rest_out rest_blocks
      → Splits n (opening ∷ lines) out blocks

-- The same for the lines behind the opening fence of a block.
pub record Closes (n : ℕ) (o : OpenBlock) (lines out : List Line) (blocks : List FenceBlock)
    : Type 0 where
  pub closing_line : ℕ
  pub closing : Line
  pub last : Line
  pub content : List Line
  pub rest : List Line
  pub rest_out : List Line
  pub rest_blocks : List FenceBlock
  pub placed : closing_line ≡ n + length content
  pub divided : lines ≡ content ++ closing ∷ rest
  pub no_fence : All (λ l. fence l ≡ none) content
  pub closes : fence closing ≡ some last
  pub blank_end : strip_line last ≡ []
  pub blanked : out ≡ blank_lines (suc (length content)) rest_out
  pub listed :
      blocks
      ≡ record {
        opening_line = o.opening_line;
        closing_line = closing_line;
        info = o.info;
        content = o.content ++ content;
      }
        ∷ rest_blocks
  pub after : Splits (suc closing_line) rest rest_out rest_blocks

abbrev pub Divides : ℕ → Option OpenBlock → List Line → List Line → List FenceBlock → Type 0
Divides n none = Splits n
Divides n (some o) = Closes n o

pub outside-some :
    (l : Line) (r : Parsed) (out : List Line) (bs : List FenceBlock)
    → outside l r ≡ some (out, bs)
    → (rest : List Line) × (r ≡ some (rest, bs)) × (out ≡ l ∷ rest)
outside-some l none out bs h = ground arith
outside-some l (some (rest, bs')) out bs h = (rest, ground arith, ground arith)

pub block-some :
    (b : FenceBlock) (r : Parsed) (out : List Line) (bs : List FenceBlock)
    → block b r ≡ some (out, bs)
    → (rest : List Line) × (bs' : List FenceBlock) × (r ≡ some (rest, bs'))
      × (out ≡ [] ∷ rest)
      × (bs ≡ b ∷ bs')
block-some b none out bs h = ground arith
block-some b (some (rest, bs')) out bs h = (rest, bs', refl, ground arith, ground arith)

Closes-longer :
    (n : ℕ) (o : OpenBlock) (l : Line) (lines out rest : List Line) (bs : List FenceBlock)
    → fence l ≡ none
    → out ≡ [] ∷ rest
    → Closes (suc n) (record o { content = o.content ++ l ∷ [] }) lines rest bs
    → Closes n o (l ∷ lines) out bs
Closes-longer n o l lines out rest bs e same c = record {
  closing_line = c.closing_line;
  closing = c.closing;
  last = c.last;
  content = l ∷ c.content;
  rest = c.rest;
  rest_out = c.rest_out;
  rest_blocks = c.rest_blocks;
  placed = omega (arith, c.placed);
  divided = ap (λ x. l ∷ x) c.divided;
  no_fence = (e, c.no_fence);
  closes = c.closes;
  blank_end = c.blank_end;
  blanked = same ∙ ap (λ x. [] ∷ x) c.blanked;
  listed =
      c.listed
      ∙ ap
          (λ x.
            record {
              opening_line = o.opening_line;
              closing_line = c.closing_line;
              info = o.info;
              content = x;
            }
            ∷ c.rest_blocks)
          (append_assoc o.content (l ∷ []) c.content);
  after = c.after;
}

Splits-fenced :
    (n : ℕ) (l info : Line) (lines out rest : List Line) (bs : List FenceBlock)
    → fence l ≡ some info
    → out ≡ [] ∷ rest
    → Closes
        (suc n)
        (record { opening_line = n; info = strip_line info; content = [] })
        lines
        rest
        bs
    → Splits n (l ∷ lines) out bs
Splits-fenced n l info lines out rest bs e same c =
    fenced n c.closing_line l info c.closing c.last lines c.content c.rest out c.rest_out bs
      c.rest_blocks c.placed c.divided e c.no_fence c.closes c.blank_end
      (same ∙ ap (λ x. [] ∷ x) c.blanked) c.listed c.after

pub parse_from-Divides :
    (ls : List Line) (n : ℕ) (o : Option OpenBlock) (out : List Line) (bs : List FenceBlock)
    → parse_from ls n o ≡ some (out, bs)
    → Divides n o ls out bs
unfolding parse_from
parse_from-Divides [] n none out bs h = no_lines n out bs (ground arith) (ground arith)
parse_from-Divides [] n (some o) out bs h = ground arith
parse_from-Divides (l ∷ ls) n none out bs h = elim (Option-cases (fence l)) [
  | inl e ↦
      let (rest, r, same) =
        outside-some l (parse_from ls (suc n) none) out bs (rw (e, parse_from) at h) in
      text_line n l ls rest out bs e same (parse_from-Divides ls (suc n) none rest bs r)
  | inr (info, e) ↦
      let opened : OpenBlock = record { opening_line = n; info = strip_line info; content = [] } in
      let (rest, r, same) =
        outside-some [] (parse_from ls (suc n) (some opened)) out bs (rw (e, parse_from) at h) in
      Splits-fenced n l info ls out rest bs e same
        (parse_from-Divides ls (suc n) (some opened) rest bs r)
]
parse_from-Divides (l ∷ ls) n (some o) out bs h = elim (Option-cases (fence l)) [
  | inl e ↦
      let longer : OpenBlock = record o { content = o.content ++ l ∷ [] } in
      let (rest, r, same) =
        outside-some [] (parse_from ls (suc n) (some longer)) out bs (rw (e, parse_from) at h) in
      Closes-longer n o l ls out rest bs e same
        (parse_from-Divides ls (suc n) (some longer) rest bs r)
  | inr (info, e) ↦ elim (Bool-cases (strip_line info != [])) [
    | inl bad ↦ ground arith
    | inr closing ↦
        let closed : FenceBlock = record {
          opening_line = o.opening_line;
          closing_line = n;
          info = o.info;
          content = o.content;
        } in
        let (rest, bs', r, same, same_blocks) =
          block-some closed (parse_from ls (suc n) none) out bs
            (rw (e, closing, parse_from) at h) in
        record {
          closing_line = n;
          closing = l;
          last = info;
          content = [];
          rest = ls;
          rest_out = rest;
          rest_blocks = bs';
          placed = omega arith;
          divided = refl;
          no_fence = tt;
          closes = e;
          blank_end = ground arith;
          blanked = same;
          listed =
              same_blocks
              ∙ ap
                  (λ x.
                    record {
                      opening_line = o.opening_line;
                      closing_line = n;
                      info = o.info;
                      content = x;
                    }
                    ∷ bs')
                  (sym (append-nil o.content));
          after = parse_from-Divides ls (suc n) none rest bs' r;
        }
  ]
]
