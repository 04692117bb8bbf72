-- ===== src/Readiness/Gates.antt =====
-- web/readiness.py: the four gates and the presentation of their status. What `_read_text` and
-- `_read_json` return is given: the text or the fields of a file, or that it is not available.
use skill_governance_control.Base.{
  ◌+◌, ℕ, zero, suc, String, Bool, true, false, not, ◌&&◌, Option, none, some, List, [], ◌∷◌, map,
  length, ◌==◌, list_eq, nat_eq, nat_eqb, string_eq, if◌then◌else◌,
}
use skill_governance_control.Base.Text.{codes, hex_after}
use skill_governance_control.Models.{bool, text, array, object, item_end, Fields, get_field}
use skill_governance_control.Base.Lines.{Line}
use skill_governance_control.Readiness.Markdown.{
  MarkdownDocument, parse_markdown, outside_text, after_prefix, text_block_after_marker,
}

pub data ReadinessStatus : Type 0 where
  verified completed_with_concerns completed pass unknown fail : ReadinessStatus

pub record GateReadiness : Type 0 where
  pub gate : String
  pub title : String
  pub status : ReadinessStatus
  pub detail : String

pub record ReadinessPresentation : Type 0 where
  pub rows : List GateReadiness
  pub evidence_closed : Bool
  pub overall_label : String

-- The comparisons of one status.
abbrev pub has_verified : ReadinessStatus → Bool
has_verified verified = true
has_verified _ = false

abbrev pub has_concerns : ReadinessStatus → Bool
has_concerns completed_with_concerns = true
has_concerns _ = false

abbrev pub has_completed : ReadinessStatus → Bool
has_completed completed = true
has_completed _ = false

abbrev pub has_passed : ReadinessStatus → Bool
has_passed pass = true
has_passed _ = false

-- The comparison with the four rows of a closed record.
unfoldable pub is_closed : List GateReadiness → Bool
is_closed (a ∷ b ∷ c ∷ d ∷ []) =
    a.gate == "Gate 1"
    && has_verified a.status
    && b.gate == "Gate 2"
    && has_concerns b.status
    && c.gate == "Gate 3"
    && has_completed c.status
    && d.gate == "Gate 4"
    && has_passed d.status
is_closed _ = false

unfoldable pub build_readiness_presentation : List GateReadiness → ReadinessPresentation
build_readiness_presentation rows =
    let closed = is_closed rows in
    record {
      rows = rows;
      evidence_closed = closed;
      overall_label = if closed then "Gate 1–4 已完成" else "证据未完整闭合";
    }

-- The characters up to the next backtick, and what follows it.
unfoldable pub until_backtick : List ℕ → Option (List ℕ × List ℕ)
until_backtick [] = none
until_backtick (c ∷ cs) = elim (until_backtick cs) [
  | none ↦ if nat_eqb c 96 then some ([], cs) else none
  | some (before, after) ↦ if nat_eqb c 96 then some ([], cs) else some (c ∷ before, after)
]

-- The pattern 结论：`([^`]+)`。 at the start of a text: its group.
unfoldable pub conclusion_at : List ℕ → Option (List ℕ)
conclusion_at cs = elim (after_prefix (codes "结论：`") cs) [
  | none ↦ none
  | some rest ↦ elim (until_backtick rest) [
    | none ↦ none
    | some ([], _) ↦ none
    | some (group, after) ↦ elim (after_prefix (codes "。") after) [
      | none ↦ none
      | some _ ↦ some group
    ]
  ]
]

-- `re.findall` of the pattern at the starts of lines; `skip` characters belong to the match before.
unfoldable pub conclusions_from : Bool → ℕ → List ℕ → List (List ℕ)
conclusions_from at_start skip [] = []
conclusions_from at_start (suc skip) (c ∷ cs) = conclusions_from (nat_eqb c 10) skip cs
conclusions_from at_start zero (c ∷ cs) = elim (if at_start then conclusion_at (c ∷ cs) else none) [
  | none ↦ conclusions_from (nat_eqb c 10) 0 cs
  | some group ↦ group ∷ conclusions_from (nat_eqb c 10) (length group + 5) cs
]

unfoldable pub conclusions : MarkdownDocument → List (List ℕ)
conclusions d = conclusions_from true 0 (outside_text d)

-- `_single_gate_2_conclusion`
unfoldable pub single_gate_2_conclusion : MarkdownDocument → Bool
single_gate_2_conclusion d = conclusions d == codes "DONE_WITH_CONCERNS" ∷ []

-- The two lines that the block of Gate 1 must have.
unfoldable pub digest_block : Option (List Line) → Bool
digest_block (some (status ∷ tree ∷ [])) =
    hex_after (codes "status_digest=") 64 status && hex_after (codes "tree_digest=") 64 tree
digest_block _ = false

abbrev row : String → String → ReadinessStatus → String → GateReadiness
row gate title status detail = record {
  gate = gate;
  title = title;
  status = status;
  detail = detail;
}

-- The document of Gate 2: unavailable, malformed or parsed.
pub data Evidence : Type 0 where
  unavailable malformed : Evidence
  document : MarkdownDocument → Evidence

unfoldable pub evidence_of : Option (List ℕ) → Evidence
evidence_of none = unavailable
evidence_of (some t) = elim (parse_markdown t) [ none ↦ malformed | some d ↦ document d ]

unfoldable pub gate_1 : Evidence → GateReadiness
gate_1 unavailable = row "Gate 1" "运行源基线" unknown "复核证据不可用"
gate_1 malformed = row "Gate 1" "运行源基线" fail "复核证据格式无效"
gate_1 (document d) =
    if not (single_gate_2_conclusion d)
    then row "Gate 1" "运行源基线" fail "复核证据存在冲突"
    else if digest_block (text_block_after_marker d (codes "结果与 Gate 1 不可变基线完全一致"))
    then row "Gate 1" "运行源基线" verified "由 Gate 2 复核证据证明"
    else row "Gate 1" "运行源基线" fail "基线复核证据不完整"

unfoldable pub gate_2 : Evidence → GateReadiness
gate_2 unavailable = row "Gate 2" "核心资产裁决" unknown "裁决证据不可用"
gate_2 malformed = row "Gate 2" "核心资产裁决" fail "裁决证据格式无效"
gate_2 (document d) =
    if single_gate_2_conclusion d
    then row "Gate 2" "核心资产裁决" completed_with_concerns "裁决完成，保留已记录关注项"
    else row "Gate 2" "核心资产裁决" fail "裁决结论缺失或冲突"

abbrev pub gate_3_paths : List Line
gate_3_paths = map codes (
    "SKILL_REGISTRY.md" ∷ "SKILL_ROUTING.md" ∷ "docs/governance/single-writer-policy.md"
    ∷ "docs/local-distribution.md" ∷ "prd-architect/SKILL.md" ∷ "prd-architect/evals/evals.json"
    ∷ "prd-architect/evals/fixtures/legacy-five-tab-dashboard.html"
    ∷ "prd-architect/references/mockup-handoff.md" ∷ "prd-architect/references/prd-shape-gates.md"
    ∷ "prd-architect/scripts/check_prd_shape.py" ∷ "prd-architect/tests/test_check_prd_shape.py"
    ∷ "scripts/audit_skills.py" ∷ "tests/test_audit_skills.py" ∷ [])

-- The condition of Gate 3 on a document.
unfoldable pub gate_3_done : MarkdownDocument → Bool
gate_3_done d =
    conclusions d == codes "DONE" ∷ [] && elim (text_block_after_marker d (codes "精确为 13 个路径")) [
      | none ↦ false
      | some paths ↦ paths == gate_3_paths
    ]

unfoldable pub gate_3 : Evidence → GateReadiness
gate_3 unavailable = row "Gate 3" "Authority 候选" unknown "候选证据不可用"
gate_3 malformed = row "Gate 3" "Authority 候选" fail "候选证据格式无效"
gate_3 (document d) =
    if gate_3_done d
    then row "Gate 3" "Authority 候选" completed "13 个批准路径已完成"
    else row "Gate 3" "Authority 候选" fail "候选结论或路径清单不匹配"

-- `fields.get(key) == "..."`, `fields.get(key) is True` and `fields.get(key) == []`.
unfoldable pub has_text : String → String → Fields → Bool
has_text key wanted fields = elim (get_field key fields) [ some (text t) ↦ t == wanted | _ ↦ false ]

unfoldable pub has_true : String → Fields → Bool
has_true key fields = elim (get_field key fields) [ some (bool b) ↦ b | _ ↦ false ]

unfoldable pub has_empty : String → Fields → Bool
has_empty key fields = elim (get_field key fields) [ some (array item_end) ↦ true | _ ↦ false ]

-- `fields.get(key)` if it is a dict.
unfoldable pub get_object : String → Fields → Option Fields
get_object key fields = elim (get_field key fields) [ some (object f) ↦ some f | _ ↦ none ]

unfoldable pub both_true : Option Fields → String → Bool
both_true none key = false
both_true (some f) key = has_true key f

-- `safety_checks`
unfoldable pub safety_checks : Fields → Fields → Fields → Fields → Bool
safety_checks lifecycle compatibility lifecycle_safety compatibility_safety =
    let global_cli = get_object "global_cli" compatibility_safety in
    let global_tree = get_object "global_skills_tree" compatibility_safety in
    has_text "result" "PASS" lifecycle
    && has_text "result" "compatible" compatibility
    && has_true "global_cli_unchanged" lifecycle_safety
    && has_true "global_skills_tree_unchanged" lifecycle_safety
    && has_true "all_sync_commands_were_dry_run" compatibility_safety
    && has_empty "runtime_target_entries_after" compatibility_safety
    && has_empty "apply_commands_run" compatibility_safety
    && both_true global_cli "version_matches_baseline"
    && both_true global_cli "sha256_matches_baseline"
    && both_true global_tree "sha256_matches_baseline"

unfoldable pub gate_4 : Option Fields → Option Fields → GateReadiness
gate_4 (some lifecycle) (some compatibility) = elim (get_object "safety_after" lifecycle) [
  | none ↦ row "Gate 4" "Adapter 兼容性" fail "安全证据不完整"
  | some lifecycle_safety ↦ elim (get_object "safety_verification" compatibility) [
    | none ↦ row "Gate 4" "Adapter 兼容性" fail "安全证据不完整"
    | some compatibility_safety ↦
        if safety_checks lifecycle compatibility lifecycle_safety compatibility_safety
        then row "Gate 4" "Adapter 兼容性" pass "隔离兼容性与安全校验通过"
        else row "Gate 4" "Adapter 兼容性" fail "兼容性或安全校验未通过"
  ]
]
gate_4 _ _ = row "Gate 4" "Adapter 兼容性" unknown "兼容性证据不可用"

-- `readiness`, from the texts of the two documents and the fields of the two JSON files.
unfoldable pub readiness :
    Option (List ℕ) → Option (List ℕ) → Option Fields → Option Fields → List GateReadiness
readiness gate_2_text gate_3_text lifecycle compatibility =
    gate_1 (evidence_of gate_2_text)
    ∷ gate_2 (evidence_of gate_2_text)
    ∷ gate_3 (evidence_of gate_3_text)
    ∷ gate_4 lifecycle compatibility
    ∷ []
