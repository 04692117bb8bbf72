-- ===== src/Ledger/Chain.antt =====
-- What `_parse` of ledger.py has checked when it returns.
use skill_governance_control.Base.{
  String, true, false, Option, none, some, List, [], ◌∷◌, map, contains, ok, >>=-eq-ok, ◌≡◌, refl,
  sym, ◌∙◌, ap₂, arith, Bool-cases, string_eq, Option-cases, inl, inr,
}
use skill_governance_control.Base.Bytes.{Bytes, splitlines, splitlines-nil, ends_with_newline}
use skill_governance_control.Canonical.{Canon}
use skill_governance_control.Models.{DeploymentLedgerEntry, entry_owner_ok}
use skill_governance_control.Ledger.{
  entry_digest, entry_line, load_entry, entry_accepted, parse_lines, parse,
}

module _ (c : Canon) where
  -- A chain that goes on from the hash `expected`, behind entries with the ids `seen`.
  abbrev pub IsChain : List String → Option String → List DeploymentLedgerEntry → Type 0
  IsChain seen expected [] = Unit
  IsChain seen expected (e ∷ es) =
      (e.previous_entry_hash ≡ expected)
      × (e.entry_hash ≡ entry_digest c e)
      × (contains seen e.deployment_id ≡ false)
      × (entry_owner_ok e ≡ true)
      × IsChain (e.deployment_id ∷ seen) (some e.entry_hash) es

  -- The four tests that an entry has passed when it is accepted.
  pub entry_accepted_facts :
      (line : Bytes) (seen : List String) (expected : Option String) (e : DeploymentLedgerEntry)
      → entry_accepted c line seen expected e ≡ true
      → (entry_line c e ≡ line)
        × (contains seen e.deployment_id ≡ false)
        × (e.previous_entry_hash ≡ expected)
        × (e.entry_hash ≡ entry_digest c e)
  unfolding entry_accepted
  entry_accepted_facts line seen expected e h = ground arith

pub load_entry_owner :
    (decode : Bytes → Option DeploymentLedgerEntry) (line : Bytes) (e : DeploymentLedgerEntry)
    → load_entry decode line ≡ some e
    → entry_owner_ok e ≡ true
unfolding load_entry
load_entry_owner decode line e h = ground arith

module _ (c : Canon) (decode : Bytes → Option DeploymentLedgerEntry) where
  -- One accepted line is one entry before the rest.
  pub parse_lines-cons :
      (line : Bytes) (lines : List Bytes) (seen : List String) (expected : Option String)
      (es : List DeploymentLedgerEntry)
      → parse_lines c decode (line ∷ lines) seen expected ≡ ok es
      → (e : DeploymentLedgerEntry) × (rest : List DeploymentLedgerEntry) × (load_entry decode line
          ≡ some e)
        × (entry_accepted c line seen expected e ≡ true)
        × (parse_lines c decode lines (e.deployment_id ∷ seen) (some e.entry_hash) ≡ ok rest)
        × (e ∷ rest ≡ es)
  unfolding parse_lines
  parse_lines-cons line lines seen expected es h = elim (Option-cases (load_entry decode line)) [
    | inl p ↦ ground arith
    | inr (e, p) ↦ elim (Bool-cases (entry_accepted c line seen expected e)) [
      | inr q ↦ ground arith
      | inl q ↦
          let (rest, r, s) =
            >>=-eq-ok _ (λ entries. ok (e ∷ entries)) (rw (p, q, parse_lines) at h) in
          (e, rest, p, q, r, ground arith)
    ]
  ]

  pub parse_lines-IsChain :
      (lines : List Bytes) (seen : List String) (expected : Option String)
      (es : List DeploymentLedgerEntry)
      → parse_lines c decode lines seen expected ≡ ok es
      → (IsChain c seen expected es) × (map (entry_line c) es ≡ lines)
  unfolding parse_lines
  parse_lines-IsChain [] seen expected es h = rw (← nil_of h) (tt, refl)
    where
      nil_of : ok [] ≡ ok es → [] ≡ es
      nil_of e = ground arith
  parse_lines-IsChain (line ∷ lines) seen expected es h =
      let (e, rest, p, q, r, s) = parse_lines-cons line lines seen expected es h in
      let (chain, canonical) =
        parse_lines-IsChain lines (e.deployment_id ∷ seen) (some e.entry_hash) rest r in
      let (same, fresh, linked, hashed) = entry_accepted_facts c line seen expected e q in
      rw (← s)
        ((linked, hashed, fresh, load_entry_owner decode line e p, chain), ap₂ ◌∷◌ same canonical)

  -- A ledger file that is read without an error is a hash chain from its first entry on, with no
  -- deployment listed twice, and its lines are the canonical lines of those entries, in order.
  pub parse-IsChain :
      (raw : Bytes) (es : List DeploymentLedgerEntry)
      → parse c decode raw ≡ ok es
      → (IsChain c [] none es) × (splitlines raw ≡ map (entry_line c) es)
  unfolding parse
  parse-IsChain [] es h =
      let (chain, lines) = parse_lines-IsChain [] [] none es (unfold parse_lines in h) in
      (chain, splitlines-nil ∙ sym lines)
  parse-IsChain (b ∷ bs) es h = elim (Bool-cases (ends_with_newline (b ∷ bs))) [
    | inr torn ↦ ground arith
    | inl whole ↦
        let (chain, lines) =
          parse_lines-IsChain (splitlines (b ∷ bs)) [] none es (rw (whole, parse) at h) in
        (chain, sym lines)
  ]
