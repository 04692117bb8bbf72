-- ===== src/Tests/Web.antt =====
-- Runs of the theorems on the tokens, the runtime inventory and the readiness of the gates.
use skill_governance_control.Base.{
  ℕ, ◌≤◌, String, true, false, List, [], ◌∷◌, none, some, Any, ok, err, ◌≡◌, ◌≢◌, refl, arith,
  length, subst, ok-injective, aware, at_or_after, forward, add_span, os_error, string_eq, list_eq,
  nat_eq, bool_eq, ◌++◌,
}
use skill_governance_control.Base.Text.{
  codes, is_plan_id, is_digest, hex_after, is_space, is_hex_digit,
}
use skill_governance_control.Tokens.{
  TokenBinding, TokenStore, remove_expired, token_get, draw, compare_digest, same_binding,
  issue_live, issue, consume_live, consume, current_time,
}
use skill_governance_control.Tokens.Laws.{
  tokens-bounded, consume-once, consume-bound, consume-issue,
}
use skill_governance_control.Inventory.{
  RuntimeInventoryErrorCode, discovery_failed, RuntimeInventorySnapshot, RuntimeInventoryReadResult,
  RuntimeInventoryRefreshResult, is_refresh_error, read_result_ok, refresh_result_ok, refresh,
  refresh_failed, read,
}
use skill_governance_control.Inventory.Laws.{
  IsAnswer, refresh-total, IsReachable, initial, refreshed, read-total,
}
use skill_governance_control.Models.{Fields, bool, text, array, object, item_end, field, field_end}
use skill_governance_control.Base.Lines.{lines_from, strip_line, strip_start, strip_end, is_break}
use skill_governance_control.Readiness.Markdown.{
  MarkdownDocument, parse_markdown, parse_from, fence, after_prefix, skip_spaces, outside_text,
  join_lines, text_block_after_marker, count_from, lines_with, next_text,
}
use skill_governance_control.Readiness.Gates.{
  build_readiness_presentation, readiness, is_closed, gate_1, gate_2, gate_3, gate_4, evidence_of,
  single_gate_2_conclusion, conclusions, conclusions_from, conclusion_at, until_backtick,
  digest_block, gate_3_done, gate_3_paths, get_object, safety_checks, has_text, has_true, has_empty,
  both_true,
}
use skill_governance_control.Readiness.Blocks.{AreBlocks}
use skill_governance_control.Readiness.Splits.{Splits}
use skill_governance_control.Readiness.Laws.{
  parse_markdown-AreBlocks, IsEvidence, readiness-IsEvidence,
}

abbrev plan_id : String
plan_id = "plan-00000000000000000000000000000000"

abbrev plan_digest : String
plan_digest = "sha256:0000000000000000000000000000000000000000000000000000000000000000"

abbrev store : TokenStore
store = record {
  allowed_origins = "http://localhost" ∷ [];
  approver = "ann";
  ttl = forward 100;
  max_entries = 2;
  tokens =
      (
        "old",
        record {
          plan_id = plan_id;
          plan_digest = plan_digest;
          created_at = aware 0;
          expires_at = aware 100;
        },
      )
      ∷ [];
}

tokens-bounded_example :
    (length (issue ("new" ∷ []) (aware 50) plan_id plan_digest store).1.tokens ≤ 2)
    × (length (consume (aware 50) "old" plan_id plan_digest store).1.tokens ≤ 2)
tokens-bounded_example =
    tokens-bounded ("new" ∷ []) (aware 50) "old" plan_id plan_digest store (omega arith)

consumed : (consume (aware 50) "old" plan_id plan_digest store).0 ≡ ok tt
unfolding consume consume_live current_time remove_expired token_get same_binding compare_digest
    string_eq
consumed = refl

consume-once_example :
    (consume
      (aware 60)
      "old"
      plan_id
      plan_digest
      (consume (aware 50) "old" plan_id plan_digest store).1).0
    ≢ ok tt
consume-once_example =
    consume-once (aware 50) (aware 60) "old" plan_id plan_digest plan_id plan_digest store consumed

consume-bound_example :
    (b : TokenBinding) × Any (λ item. item ≡ ("old", b)) store.tokens
    × (b.plan_id ≡ plan_id)
    × (b.plan_digest ≡ plan_digest)
    × (at_or_after (aware 50) b.expires_at ≡ ok false)
consume-bound_example = consume-bound (aware 50) "old" plan_id plan_digest store consumed

issued : (issue ("old" ∷ "new" ∷ []) (aware 50) plan_id plan_digest store).0 ≡ some (ok "new")
unfolding issue issue_live current_time remove_expired draw token_get string_eq is_plan_id is_digest
    add_span
issued = refl

in_time : at_or_after (aware 140) (add_span (aware 50) (forward 100)) ≡ ok false
unfolding add_span
in_time = refl

ascii :
    (compare_digest plan_id plan_id ≡ ok true) × (compare_digest plan_digest plan_digest ≡ ok true)
unfolding compare_digest string_eq
ascii = (refl, refl)

consume-issue_example :
    (consume
      (aware 140)
      "new"
      plan_id
      plan_digest
      (issue ("old" ∷ "new" ∷ []) (aware 50) plan_id plan_digest store).1).0
    ≡ ok tt
consume-issue_example =
    consume-issue ("old" ∷ "new" ∷ []) (aware 50) (aware 140) "new" plan_id plan_digest store
      (refl, tt) issued refl in_time ascii.0 ascii.1

abbrev inventory : RuntimeInventorySnapshot
inventory = record {
  generated_at = aware 0;
  skillshare_version = "1";
  source_path = "/s";
  targets = [];
  assets = [];
  ignored = [];
  warnings = [];
  snapshot_digest = none;
}

refresh-total_example :
    (r : RuntimeInventoryRefreshResult) × (refresh
        (ok inventory)
        (λ s. ok s)
        (some discovery_failed)
      ≡ (ok r, r.error_code))
    × (refresh_result_ok r ≡ true)
    × IsAnswer (ok inventory) (λ s. ok s) r
refresh-total_example = refresh-total (ok inventory) (λ s. ok s) (some discovery_failed)

abbrev stored : RuntimeInventoryReadResult
stored = record { available = true; snapshot = some inventory; stale = false; error_code = none }

reached : IsReachable (some discovery_failed)
unfolding refresh refresh_failed
reached = refreshed (err os_error) (λ s. ok s) none initial

accepted : read_result_ok stored ≡ true
unfolding read_result_ok is_refresh_error bool_eq
accepted = refl

valid : (s : RuntimeInventoryReadResult) → ok stored ≡ ok s → read_result_ok s ≡ true
valid s h = subst (λ r. read_result_ok r ≡ true) (ok-injective h) accepted

read-total_example :
    (r : RuntimeInventoryReadResult) × (read (ok stored) (some discovery_failed) ≡ ok r)
    × (read_result_ok r ≡ true)
    × ((s : RuntimeInventoryReadResult)
        → ok stored ≡ ok s
        → s.available ≡ true
        → (code : RuntimeInventoryErrorCode) → some discovery_failed ≡ some code
        → (r.snapshot ≡ s.snapshot) × (r.stale ≡ true) × (r.error_code ≡ some code))
read-total_example = read-total (ok stored) (some discovery_failed) reached valid

abbrev fenced : List ℕ
fenced = 97 ∷ 10 ∷ 96 ∷ 96 ∷ 96 ∷ 10 ∷ 98 ∷ 10 ∷ 96 ∷ 96 ∷ 96 ∷ 10 ∷ []

abbrev parsed : MarkdownDocument
parsed = record {
  lines = (97 ∷ []) ∷ (96 ∷ 96 ∷ 96 ∷ []) ∷ (98 ∷ []) ∷ (96 ∷ 96 ∷ 96 ∷ []) ∷ [];
  outside_lines = (97 ∷ []) ∷ [] ∷ [] ∷ [] ∷ [];
  blocks = record { opening_line = 1; closing_line = 3; info = []; content = (98 ∷ []) ∷ [] } ∷ [];
}

parses : parse_markdown fenced ≡ some parsed
unfolding parse_markdown parse_from lines_from fence after_prefix skip_spaces strip_line strip_start
    strip_end is_break list_eq nat_eq
parses = refl

parse_markdown-AreBlocks_example :
    Splits 0 parsed.lines parsed.outside_lines parsed.blocks
    × (length parsed.outside_lines ≡ length parsed.lines)
    × AreBlocks 0 (length parsed.lines) parsed.blocks
parse_markdown-AreBlocks_example = parse_markdown-AreBlocks fenced parsed parses

abbrev newline : List ℕ
newline = 10 ∷ []

abbrev fence_line : String → List ℕ
fence_line info = 96 ∷ 96 ∷ 96 ∷ codes info ++ newline

abbrev zeros : String
zeros = "0000000000000000000000000000000000000000000000000000000000000000"

abbrev gate_2_text : List ℕ
gate_2_text =
    codes "结论：`DONE_WITH_CONCERNS`。"
    ++ (newline
        ++ (codes "结果与 Gate 1 不可变基线完全一致"
            ++ (newline
                ++ (fence_line "text"
                    ++ (codes "status_digest="
                        ++ (codes zeros
                            ++ (newline
                                ++ (codes "tree_digest="
                                    ++ (codes zeros ++ (newline ++ fence_line ""))))))))))

abbrev lines_text : List (List ℕ) → List ℕ
lines_text [] = []
lines_text (l ∷ ls) = l ++ (newline ++ lines_text ls)

abbrev gate_3_text : List ℕ
gate_3_text =
    codes "结论：`DONE`。"
    ++ (newline
        ++ (codes "精确为 13 个路径"
            ++ (newline ++ (fence_line "text" ++ (lines_text gate_3_paths ++ fence_line "")))))

abbrev lifecycle : Fields
lifecycle = field "result" (text "PASS") (
    field "safety_after"
      (object (
        field "global_cli_unchanged" (bool true)
          (field "global_skills_tree_unchanged" (bool true) field_end)))
      field_end)

abbrev compatibility : Fields
compatibility = field "result" (text "compatible") (
    field "safety_verification"
      (object (
        field "all_sync_commands_were_dry_run" (bool true) (
          field "runtime_target_entries_after" (array item_end) (
            field "apply_commands_run" (array item_end) (
              field "global_cli"
                (object (
                  field "version_matches_baseline" (bool true)
                    (field "sha256_matches_baseline" (bool true) field_end)))
                (field "global_skills_tree"
                  (object (field "sha256_matches_baseline" (bool true) field_end)) field_end))))))
      field_end)

closed :
    (build_readiness_presentation (
      readiness
        (some gate_2_text)
        (some gate_3_text)
        (some lifecycle)
        (some compatibility))).evidence_closed
    ≡ true
unfolding build_readiness_presentation readiness is_closed gate_1 gate_2 gate_3 gate_4 evidence_of
    parse_markdown parse_from lines_from fence after_prefix skip_spaces strip_line strip_start
    strip_end is_break single_gate_2_conclusion conclusions conclusions_from conclusion_at
    until_backtick outside_text join_lines digest_block text_block_after_marker count_from
    lines_with next_text gate_3_done get_object safety_checks has_text has_true has_empty both_true
    string_eq list_eq nat_eq hex_after is_space is_hex_digit
closed = refl

readiness-IsEvidence_example :
    IsEvidence (some gate_2_text) (some gate_3_text) (some lifecycle) (some compatibility)
readiness-IsEvidence_example =
    readiness-IsEvidence (some gate_2_text) (some gate_3_text) (some lifecycle) (some compatibility)
      closed
