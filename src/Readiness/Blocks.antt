-- ===== src/Readiness/Blocks.antt =====
-- Where the blocks of a document that `_parse_markdown` of web/readiness.py returns lie.
use skill_governance_control.Base.{
  ℕ, suc, ◌+◌, ◌≤◌, Option, none, some, List, [], ◌∷◌, ◌++◌, length, length-append, ◌≡◌, sym, ap,
  subst, ◌∙◌, arith, ◌!=◌, list_eq, nat_eq, string_eq, Bool-cases, Option-cases, inl, inr,
}
use skill_governance_control.Base.Lines.{Line, strip_line}
use skill_governance_control.Readiness.Markdown.{FenceBlock, OpenBlock, parse_from, fence}
use skill_governance_control.Readiness.Splits.{outside-some, block-some}

-- The blocks lie one behind the other from line `n` on, before line `end`, each with as many lines
-- between its two fences as it has in its content.
abbrev pub AreBlocks : ℕ → ℕ → List FenceBlock → Type 0
AreBlocks n end [] = n ≤ end
AreBlocks n end (b ∷ bs) =
    (n ≤ b.opening_line)
    × (b.opening_line + suc (length b.content) ≡ b.closing_line)
    × AreBlocks (suc b.closing_line) end bs

AreBlocks-weaken :
    (m n end : ℕ) (bs : List FenceBlock) → m ≤ n → AreBlocks n end bs → AreBlocks m end bs
AreBlocks-weaken m n end [] h k = omega arith
AreBlocks-weaken m n end (b ∷ bs) h (k, c, rest) = (omega arith, c, rest)

-- Where the blocks that are still to come may begin, and what is known of the block that is open.
abbrev pub start : ℕ → Option OpenBlock → ℕ
start n none = n
start n (some o) = o.opening_line

abbrev pub Fits : ℕ → Option OpenBlock → Type 0
Fits n none = Unit
Fits n (some o) = o.opening_line + suc (length o.content) ≡ n

grow :
    {l : Line} {out rest : List Line} {k : ℕ}
    → out ≡ l ∷ rest
    → length rest ≡ k
    → length out ≡ suc k
grow same size = ap length same ∙ ap suc size

move :
    (m n : ℕ) (ls : List Line) (bs : List FenceBlock)
    → AreBlocks m (suc n + length ls) bs
    → AreBlocks m (n + suc (length ls)) bs
move m n ls bs h = subst (λ end. AreBlocks m end bs) (omega arith) h

pub parse_from-blocks :
    (ls : List Line) (n : ℕ) (o : Option OpenBlock) (out : List Line) (bs : List FenceBlock)
    → Fits n o
    → parse_from ls n o ≡ some (out, bs)
    → (length out ≡ length ls) × AreBlocks (start n o) (n + length ls) bs
unfolding parse_from
parse_from-blocks [] n none out bs fits h = (ground arith, ground arith)
parse_from-blocks [] n (some o) out bs fits h = ground arith
parse_from-blocks (l ∷ ls) n none out bs fits h = elim (Option-cases (fence l)) [
  | inl e ↦
      let (rest, r, same) =
        outside-some l (parse_from ls (suc n) none) out bs (rw (e, parse_from) at h) in
      let (size, blocks) = parse_from-blocks ls (suc n) none rest bs tt r in
      (grow same size, AreBlocks-weaken n (suc n) _ bs (omega arith) (move (suc n) n ls bs blocks))
  | inr (info, e) ↦
      let opened : OpenBlock = record { opening_line = n; info = strip_line info; content = [] } in
      let (rest, r, same) =
        outside-some [] (parse_from ls (suc n) (some opened)) out bs (rw (e, parse_from) at h) in
      let (size, blocks) = parse_from-blocks ls (suc n) (some opened) rest bs (omega arith) r in
      (grow same size, move n n ls bs blocks)
]
parse_from-blocks (l ∷ ls) n (some o) out bs fits h = elim (Option-cases (fence l)) [
  | inl e ↦
      let longer : OpenBlock = record o { content = o.content ++ l ∷ [] } in
      let (rest, r, same) =
        outside-some [] (parse_from ls (suc n) (some longer)) out bs (rw (e, parse_from) at h) in
      let (size, blocks) =
        parse_from-blocks ls (suc n) (some longer) rest bs
          (omega (arith, length-append o.content (l ∷ []))) r in
      (grow same size, move o.opening_line n ls bs blocks)
  | inr (info, e) ↦ elim (Bool-cases (strip_line info != [])) [
    | inl bad ↦ ground arith
    | inr closing ↦
        let closed : FenceBlock = record {
          opening_line = o.opening_line;
          closing_line = n;
          info = o.info;
          content = o.content;
        } in
        let (rest, bs', r, same, same_blocks) =
          block-some closed (parse_from ls (suc n) none) out bs
            (rw (e, closing, parse_from) at h) in
        let (size, blocks) = parse_from-blocks ls (suc n) none rest bs' tt r in
        (
          grow same size,
          subst (AreBlocks o.opening_line (n + suc (length ls))) (sym same_blocks)
              (omega arith, fits, move (suc n) n ls bs' blocks),
        )
  ]
]
