-- ===== src/Readiness/Laws.antt =====
-- The blocks of a parsed document, and what a closed readiness has been read from.
use skill_governance_control.Base.{
  ℕ, ◌+◌, true, false, Option, none, some, List, [], ◌∷◌, length, ◌≡◌, refl, subst, arith, list_eq,
  nat_eq, string_eq, Option-cases, inl, inr,
}
use skill_governance_control.Base.Text.{codes}
use skill_governance_control.Models.{Fields}
use skill_governance_control.Base.Lines.{lines_from}
use skill_governance_control.Readiness.Markdown.{
  MarkdownDocument, parse_from, parse_markdown, text_block_after_marker,
}
use skill_governance_control.Readiness.Blocks.{AreBlocks, parse_from-blocks}
use skill_governance_control.Readiness.Splits.{Splits, parse_from-Divides}
use skill_governance_control.Readiness.Gates.{
  GateReadiness, ReadinessStatus, verified, completed_with_concerns, completed, pass, unknown, fail,
  has_verified, has_completed, has_passed, Evidence, unavailable, malformed, document, evidence_of,
  single_gate_2_conclusion, digest_block, gate_1, gate_3, gate_4, gate_3_done, get_object,
  safety_checks, readiness, is_closed, build_readiness_presentation,
}

-- A document that is parsed divides into outside lines and blocks (`Splits`): a line that is no fence,
-- outside the blocks, is its own outside line; a block has as its content exactly the lines, none of
-- them a fence, between a fence, whose stripped rest is its info, and the next fence, which has nothing
-- behind it; a blank outside line stands for each line of a block, the fences included, and there are
-- no other blocks. So there is one outside line for each line, and the blocks lie one behind the other
-- within the document, each with the line numbers of its fences.
pub parse_markdown-AreBlocks :
    (text : List ℕ) (d : MarkdownDocument)
    → parse_markdown text ≡ some d
    → Splits 0 d.lines d.outside_lines d.blocks
      × (length d.outside_lines ≡ length d.lines)
      × AreBlocks 0 (length d.lines) d.blocks
unfolding parse_markdown
parse_markdown-AreBlocks text d h =
    let lines = lines_from false text in
    elim (Option-cases (parse_from lines 0 none)) [
      | inl e ↦ ground arith
      | inr ((out, bs), e) ↦
          let found : MarkdownDocument = record {
            lines = lines;
            outside_lines = out;
            blocks = bs;
          } in
          let same : found ≡ d = ground arith in
          let blocks = parse_from-blocks lines 0 none out bs tt e in
          let all : 0 + length lines ≡ length lines = omega arith in
          subst
            (λ (x : MarkdownDocument).
              Splits 0 x.lines x.outside_lines x.blocks
              × (length x.outside_lines ≡ length x.lines)
              × AreBlocks 0 (length x.lines) x.blocks)
            same
            (
              parse_from-Divides lines 0 none out bs e,
              blocks.0,
              subst (λ n. AreBlocks 0 n bs) all blocks.1,
            )
    ]

-- The evidence that a closed record needs.
pub record IsEvidence (gate_2_text gate_3_text : Option (List ℕ))
    (lifecycle compatibility : Option Fields) : Type 0 where
  pub adjudication : MarkdownDocument
  pub parsed : evidence_of gate_2_text ≡ document adjudication
  pub concluded : single_gate_2_conclusion adjudication ≡ true
  pub baseline :
      digest_block (text_block_after_marker adjudication (codes "结果与 Gate 1 不可变基线完全一致")) ≡ true
  pub candidate : MarkdownDocument
  pub candidate_parsed : evidence_of gate_3_text ≡ document candidate
  pub candidate_done : gate_3_done candidate ≡ true
  pub life : Fields
  pub life_read : lifecycle ≡ some life
  pub life_safety : Fields
  pub life_safety_read : get_object "safety_after" life ≡ some life_safety
  pub compat : Fields
  pub compat_read : compatibility ≡ some compat
  pub compat_safety : Fields
  pub compat_safety_read : get_object "safety_verification" compat ≡ some compat_safety
  pub safe : safety_checks life compat life_safety compat_safety ≡ true

gate_1-verified :
    (e : Evidence)
    → (gate_1 e).status ≡ verified
    → (d : MarkdownDocument) × (e ≡ document d)
      × (single_gate_2_conclusion d ≡ true)
      × (digest_block (text_block_after_marker d (codes "结果与 Gate 1 不可变基线完全一致")) ≡ true)
unfolding gate_1
gate_1-verified unavailable h = ground arith
gate_1-verified malformed h = ground arith
gate_1-verified (document d) h = (d, refl, ground arith, ground arith)

gate_3-completed :
    (e : Evidence)
    → (gate_3 e).status ≡ completed
    → (d : MarkdownDocument) × (e ≡ document d) × (gate_3_done d ≡ true)
unfolding gate_3
gate_3-completed unavailable h = ground arith
gate_3-completed malformed h = ground arith
gate_3-completed (document d) h = (d, refl, ground arith)

gate_4-pass :
    (lifecycle compatibility : Option Fields)
    → (gate_4 lifecycle compatibility).status ≡ pass
    → (life : Fields) × (lifecycle ≡ some life)
      × (compat : Fields) × (compatibility ≡ some compat)
      × (s : Fields) × (get_object "safety_after" life ≡ some s)
      × (t : Fields) × (get_object "safety_verification" compat ≡ some t)
      × (safety_checks life compat s t ≡ true)
unfolding gate_4
gate_4-pass none b h = ground arith
gate_4-pass (some l) none h = ground arith
gate_4-pass (some l) (some c) h = elim (Option-cases (get_object "safety_after" l)) [
  | inl e ↦ ground arith
  | inr (s, e) ↦ elim (Option-cases (get_object "safety_verification" c)) [
    | inl f ↦ ground arith
    | inr (t, f) ↦ (l, refl, c, refl, s, e, t, f, ground arith)
  ]
]

closed_statuses :
    (a b c d : GateReadiness)
    → is_closed (a ∷ b ∷ c ∷ d ∷ []) ≡ true
    → (a.status ≡ verified) × (c.status ≡ completed) × (d.status ≡ pass)
unfolding is_closed
closed_statuses a b c d h = (
  verified_of a.status (ground arith),
  completed_of c.status (ground arith),
  pass_of d.status (ground arith),
)
  where
    verified_of : (s : ReadinessStatus) → has_verified s ≡ true → s ≡ verified
    verified_of verified h = refl
    verified_of completed_with_concerns h = ground arith
    verified_of completed h = ground arith
    verified_of pass h = ground arith
    verified_of unknown h = ground arith
    verified_of fail h = ground arith

    completed_of : (s : ReadinessStatus) → has_completed s ≡ true → s ≡ completed
    completed_of completed h = refl
    completed_of completed_with_concerns h = ground arith
    completed_of verified h = ground arith
    completed_of pass h = ground arith
    completed_of unknown h = ground arith
    completed_of fail h = ground arith

    pass_of : (s : ReadinessStatus) → has_passed s ≡ true → s ≡ pass
    pass_of pass h = refl
    pass_of completed_with_concerns h = ground arith
    pass_of completed h = ground arith
    pass_of verified h = ground arith
    pass_of unknown h = ground arith
    pass_of fail h = ground arith

-- The presentation shows closed evidence only if the evidence is there: both documents parse, the one
-- of Gate 2 has the single conclusion and the two digests, the one of Gate 3 the single conclusion and
-- the 13 paths, and both JSON files have their safety records, which pass all checks.
pub readiness-IsEvidence :
    (gate_2_text gate_3_text : Option (List ℕ)) (lifecycle compatibility : Option Fields)
    → (build_readiness_presentation
        (readiness gate_2_text gate_3_text lifecycle compatibility)).evidence_closed
      ≡ true
    → IsEvidence gate_2_text gate_3_text lifecycle compatibility
unfolding readiness build_readiness_presentation
readiness-IsEvidence gate_2_text gate_3_text lifecycle compatibility h =
    let (one, three, four) = closed_statuses _ _ _ _ h in
    let (d, parsed, concluded, baseline) = gate_1-verified (evidence_of gate_2_text) one in
    let (e, candidate_parsed, candidate_done) = gate_3-completed (evidence_of gate_3_text) three in
    let (life, life_read, compat, compat_read, s, sr, t, tr, safe) =
      gate_4-pass lifecycle compatibility four in
    record {
      adjudication = d;
      parsed = parsed;
      concluded = concluded;
      baseline = baseline;
      candidate = e;
      candidate_parsed = candidate_parsed;
      candidate_done = candidate_done;
      life = life;
      life_read = life_read;
      life_safety = s;
      life_safety_read = sr;
      compat = compat;
      compat_read = compat_read;
      compat_safety = t;
      compat_safety_read = tr;
      safe = safe;
    }
