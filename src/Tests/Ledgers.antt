-- ===== src/Tests/Ledgers.antt =====
-- Runs of the theorems on the ledger.
use skill_governance_control.Base.{
  [], ◌∷◌, Option, none, some, length, ◌<◌, arith, ok, ◌≡◌, refl, ◌==◌, list_eq, nat_eq, string_eq,
  option_eq, if◌then◌else◌, map,
}
use skill_governance_control.Base.Bytes.{Bytes, splitlines, ends_with_newline}
use skill_governance_control.Canonical.{canonical_json, canonical_digest}
use skill_governance_control.Models.{
  DeploymentLedgerEntry, dump_entry, dump_unhashed_entry, entry_owner_ok,
}
use skill_governance_control.Ledger.{
  completes, write_cut, readable, last_hash, load_entry, entry_digest, entry_line, entry_accepted,
  parse_lines, parse, read_all, append, or_empty, append_failed, invalid_chain,
}
use skill_governance_control.Ledger.Chain.{IsChain, parse-IsChain}
use skill_governance_control.Ledger.Commitment.{parse-commitment}
use skill_governance_control.Ledger.Snoc.{stored_entry, IsAppendable}
use skill_governance_control.Ledger.Append.{IsAppend, append-IsPrefix, append-read_all, append_torn}
use skill_governance_control.Tests.Data.{canon, entry}

abbrev first_entry : DeploymentLedgerEntry
first_entry = entry "one" none "sha256:0"

abbrev second_entry : DeploymentLedgerEntry
second_entry = entry "two" (some "sha256:0") "sha256:1"

abbrev given : DeploymentLedgerEntry
given = entry "two" none ""

abbrev decode : Bytes → Option DeploymentLedgerEntry
decode b =
    if b == 120 ∷ [] then some first_entry else if b == 121 ∷ [] then some second_entry else none

abbrev raw : Bytes
raw = 120 ∷ 10 ∷ []

parsed : parse canon decode raw ≡ ok (first_entry ∷ [])
unfolding parse parse_lines load_entry entry_accepted entry_line entry_digest canonical_json
    canonical_digest dump_entry dump_unhashed_entry entry_owner_ok splitlines ends_with_newline
    string_eq list_eq nat_eq option_eq
parsed = refl

parse-IsChain_example :
    IsChain canon [] none (first_entry ∷ [])
    × (splitlines raw ≡ map (entry_line canon) (first_entry ∷ []))
parse-IsChain_example = parse-IsChain canon decode raw (first_entry ∷ []) parsed

parse-commitment_example : first_entry ∷ [] ≡ first_entry ∷ []
parse-commitment_example =
    parse-commitment canon decode raw raw (first_entry ∷ []) (first_entry ∷ []) parsed parsed
      (((λ d h. refl), tt), tt) refl

append-IsPrefix_example :
    IsAppend canon decode given raw
      (append canon decode (write_cut 1) given (some raw)).0
      (or_empty (append canon decode (write_cut 1) given (some raw)).1)
append-IsPrefix_example = append-IsPrefix canon decode (write_cut 1) given (some raw)

appendable : IsAppendable canon decode given (first_entry ∷ [])
unfolding entry_line entry_digest canonical_json canonical_digest dump_entry dump_unhashed_entry
    entry_owner_ok string_eq list_eq nat_eq option_eq last_hash
appendable = record { owned = refl; unlisted = refl; one_line = refl; decodes = refl }

append-read_all_example :
    ((append canon decode completes given (some raw)).0 ≡ ok tt)
    × (read_all canon decode readable (append canon decode completes given (some raw)).1
        ≡ ok (first_entry ∷ stored_entry canon given (first_entry ∷ []) ∷ []))
append-read_all_example =
    append-read_all canon decode raw (first_entry ∷ []) given parsed appendable

one_byte : 0 < length (entry_line canon (stored_entry canon given (first_entry ∷ [])))
unfolding entry_line entry_digest canonical_json canonical_digest dump_entry dump_unhashed_entry
    string_eq list_eq nat_eq last_hash
one_byte = omega arith

append_torn_example :
    ((append canon decode (write_cut 1) given (some raw)).0 ≡ append_failed)
    × (read_all canon decode readable (append canon decode (write_cut 1) given (some raw)).1
        ≡ invalid_chain)
append_torn_example =
    append_torn canon decode raw (first_entry ∷ []) given 0 parsed appendable one_byte
