-- ===== src/Ledger/Snoc.antt =====
-- One more line behind those that `_parse` of ledger.py accepts.
use mathlib.Core.Bool.{false≢true}
use skill_governance_control.Base.{
  ℕ, String, true, false, ◌||◌, Option, none, some, List, [], ◌∷◌, ◌++◌, any, contains, ok, ◌≡◌,
  refl, sym, ◌∙◌, arith, ◌==◌, string_eq, list_eq, option_eq, nat_eq, Bool-cases, inl, inr,
}
use skill_governance_control.Base.Bytes.{
  Bytes, newline, splitlines, splitlines-append_line, splitlines_one, ends_with_newline,
  ends_with_newline-append, is_one_line,
}
use skill_governance_control.Canonical.{Canon}
use skill_governance_control.Models.{DeploymentLedgerEntry, entry_owner_ok, dump_unhashed_entry}
use skill_governance_control.Ledger.Chain.{parse_lines-cons}
use skill_governance_control.Ledger.{
  entry_digest, entry_line, entry_accepted, load_entry, parse_lines, parse, last_hash, chain_entry,
  next_line, invalid_chain,
}

load_entry_intro :
    (decode : Bytes → Option DeploymentLedgerEntry) (line : Bytes) (e : DeploymentLedgerEntry)
    → decode line ≡ some e
    → entry_owner_ok e ≡ true
    → load_entry decode line ≡ some e
unfolding load_entry
load_entry_intro decode line e d o = ground arith

-- The hash that the next entry refers to.
hash_after : Option String → List DeploymentLedgerEntry → Option String
hash_after expected [] = expected
hash_after expected (e ∷ es) = hash_after (some e.entry_hash) es

hash_after-cons :
    (expected : Option String) (e : DeploymentLedgerEntry) (es : List DeploymentLedgerEntry)
    → hash_after expected (e ∷ es) ≡ last_hash (e ∷ es)
unfolding hash_after last_hash
hash_after-cons expected e [] = refl
hash_after-cons expected e (d ∷ es) = hash_after-cons (some e.entry_hash) d es

hash_after-none : (es : List DeploymentLedgerEntry) → hash_after none es ≡ last_hash es
unfolding hash_after last_hash
hash_after-none [] = refl
hash_after-none (e ∷ es) = hash_after-cons none e es

module _ (c : Canon) where
  -- The entry that `append` stores for `e` behind `entries`.
  abbrev pub stored_entry :
      DeploymentLedgerEntry → List DeploymentLedgerEntry → DeploymentLedgerEntry
  stored_entry e entries =
      let chained : DeploymentLedgerEntry = record e {
        previous_entry_hash = last_hash entries;
        entry_hash = "";
      } in
      record chained { entry_hash = entry_digest c chained }

  -- The hash covers every field but itself.
  entry_digest-stored :
      (e : DeploymentLedgerEntry) (es : List DeploymentLedgerEntry)
      → (stored_entry e es).entry_hash ≡ entry_digest c (stored_entry e es)
  unfolding entry_digest dump_unhashed_entry
  entry_digest-stored e es = refl

  pub entry_owner_ok-stored :
      (e : DeploymentLedgerEntry) (es : List DeploymentLedgerEntry)
      → entry_owner_ok (stored_entry e es) ≡ entry_owner_ok e
  unfolding entry_owner_ok
  entry_owner_ok-stored e es = refl

module _ (c : Canon) (decode : Bytes → Option DeploymentLedgerEntry) where
  -- The loop of `_parse` over one more line.
  entry_accepted_intro :
      (line : Bytes) (seen : List String) (expected : Option String) (e : DeploymentLedgerEntry)
      → entry_line c e ≡ line
      → e.entry_hash ≡ entry_digest c e
      → e.previous_entry_hash ≡ expected
      → contains seen e.deployment_id ≡ false
      → entry_accepted c line seen expected e ≡ true
  unfolding entry_accepted
  entry_accepted_intro line seen expected e same hashed linked fresh = ground arith

  parse_lines-snoc :
      (lines : List Bytes) (line : Bytes) (seen : List String) (expected : Option String)
      (es : List DeploymentLedgerEntry) (e : DeploymentLedgerEntry)
      → parse_lines c decode lines seen expected ≡ ok es
      → load_entry decode line ≡ some e
      → entry_line c e ≡ line
      → e.entry_hash ≡ entry_digest c e
      → e.previous_entry_hash ≡ hash_after expected es
      → contains seen e.deployment_id ≡ false
      → any (λ item. item.deployment_id == e.deployment_id) es ≡ false
      → parse_lines c decode (lines ++ line ∷ []) seen expected ≡ ok (es ++ e ∷ [])
  unfolding parse_lines hash_after
  parse_lines-snoc [] line seen expected [] e h load same hashed linked fresh unlisted =
      rw (load, parse_lines)
        (ground (arith, entry_accepted_intro line seen expected e same hashed linked fresh))
  parse_lines-snoc [] line seen expected (d ∷ es) e h load same hashed linked fresh unlisted =
      ground arith
  parse_lines-snoc (l ∷ lines) line seen expected es e h load same hashed linked fresh unlisted =
      let (d, rest, p, q, r, s) = parse_lines-cons c decode l lines seen expected es h in
      let linked' : e.previous_entry_hash ≡ hash_after (some d.entry_hash) rest =
        rw (← s) at linked in
      let unlisted' : (d.deployment_id == e.deployment_id
            || any (λ item. item.deployment_id == e.deployment_id) rest)
          ≡ false =
        rw (← s) at unlisted in
      let fresh' : contains (d.deployment_id ∷ seen) e.deployment_id ≡ false = ground arith in
      let ih =
        parse_lines-snoc lines line (d.deployment_id ∷ seen) (some d.entry_hash) rest e r load same
          hashed linked' fresh' (ground arith) in
      rw (p, q, parse_lines, ih, ← s)

  -- Why the append can go through: the evidence belongs to the deployment, the id is new, and the
  -- JSON of the stored entry is one line that decodes to it.
  pub record IsAppendable (e : DeploymentLedgerEntry) (es : List DeploymentLedgerEntry)
      : Type 0 where
    pub owned : entry_owner_ok e ≡ true
    pub unlisted : any (λ item. item.deployment_id == e.deployment_id) es ≡ false
    pub one_line : is_one_line (entry_line c (stored_entry c e es)) ≡ true
    pub decodes : decode (entry_line c (stored_entry c e es)) ≡ some (stored_entry c e es)

module _ (c : Canon) (decode : Bytes → Option DeploymentLedgerEntry) where
  parse_whole :
      (raw : Bytes)
      → ends_with_newline raw ≡ true
      → parse c decode raw ≡ parse_lines c decode (splitlines raw) [] none
  unfolding parse
  parse_whole [] h = absurd (false≢true (unfold ends_with_newline in h))
  parse_whole (b ∷ bs) h = rw h

  pub parse_torn :
      (raw rest : Bytes) (b : ℕ)
      → ends_with_newline (raw ++ b ∷ rest) ≡ false
      → parse c decode (raw ++ b ∷ rest) ≡ invalid_chain
  unfolding parse
  parse_torn [] rest b h = rw h
  parse_torn (r ∷ raw) rest b h = rw h

  whole_of_parse :
      (r : ℕ) (raw : Bytes) (es : List DeploymentLedgerEntry)
      → parse c decode (r ∷ raw) ≡ ok es
      → ends_with_newline (r ∷ raw) ≡ true
  unfolding parse
  whole_of_parse r raw es h = elim (Bool-cases (ends_with_newline (r ∷ raw))) [
    | inl whole ↦ whole
    | inr torn ↦ ground arith
  ]

  pub next_line-stored :
      (e : DeploymentLedgerEntry) (es : List DeploymentLedgerEntry)
      → IsAppendable c decode e es
      → next_line c e es ≡ ok (entry_line c (stored_entry c e es) ++ newline ∷ [])
  unfolding next_line chain_entry
  next_line-stored e es a = ground arith

  lines_snoc :
      (lines : List Bytes) (es : List DeploymentLedgerEntry) (e : DeploymentLedgerEntry)
      → parse_lines c decode lines [] none ≡ ok es
      → IsAppendable c decode e es
      → parse_lines c decode (lines ++ entry_line c (stored_entry c e es) ∷ []) [] none
        ≡ ok (es ++ stored_entry c e es ∷ [])
  lines_snoc lines es e h a =
      parse_lines-snoc c decode lines (entry_line c (stored_entry c e es)) [] none es
        (stored_entry c e es) h
        (load_entry_intro decode _ _ a.decodes (entry_owner_ok-stored c e es ∙ a.owned)) refl
        (entry_digest-stored c e es) (sym (hash_after-none es)) refl a.unlisted

  pub parse-snoc :
      (raw : Bytes) (es : List DeploymentLedgerEntry) (e : DeploymentLedgerEntry)
      → parse c decode raw ≡ ok es
      → IsAppendable c decode e es
      → parse c decode (raw ++ (entry_line c (stored_entry c e es) ++ newline ∷ []))
        ≡ ok (es ++ stored_entry c e es ∷ [])
  unfolding parse
  parse-snoc [] es e h a =
      rw
        (
          parse_whole _ (ends_with_newline-append [] (entry_line c (stored_entry c e es))),
          splitlines_one (entry_line c (stored_entry c e es)) a.one_line,
        )
        (lines_snoc [] es e h' a)
    where
      h' : parse_lines c decode [] [] none ≡ ok es
      h' = unfold parse_lines in h
  parse-snoc (r ∷ raw) es e h a =
      let whole = whole_of_parse r raw es h in
      rw
        (
          parse_whole _ (ends_with_newline-append (r ∷ raw) (entry_line c (stored_entry c e es))),
          splitlines-append_line (r ∷ raw) (entry_line c (stored_entry c e es)) whole a.one_line,
        )
        (lines_snoc (splitlines (r ∷ raw)) es e (sym (parse_whole (r ∷ raw) whole) ∙ h) a)
