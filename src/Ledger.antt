-- ===== src/Ledger.antt =====
-- ledger.py: the deployment ledger, an append-only file of hash-chained lines. The file is its bytes;
-- what the operating system answers is an argument. Decoding a line (`json.loads` and the field
-- checks of the `DeploymentLedgerEntry` class) is the libraries', so it is a parameter.
pub mod Chain
pub mod Commitment
pub mod Snoc
pub mod Append
use skill_governance_control.Base.{
  ℕ, String, Bool, true, false, Option, none, some, List, [], ◌∷◌, ◌++◌, take, drop, length, ◌+◌,
  any, contains, last?, Result, ok, err, ledger_corruption, validation_error, ◌>>=◌, ◌==◌, ◌!=◌,
  nat_eq, string_eq, option_eq, list_eq, if◌then◌else◌,
}
use skill_governance_control.Base.Bytes.{Bytes, newline, splitlines, ends_with_newline}
use skill_governance_control.Canonical.{Canon, canonical_json, canonical_digest}
use skill_governance_control.Models.{
  DeploymentLedgerEntry, dump_entry, dump_unhashed_entry, entry_owner_ok,
}

abbrev pub invalid_chain {ℓ} : {A : Type ℓ} → Result A
invalid_chain = err (ledger_corruption "ledger: invalid entry chain")

abbrev pub append_failed {ℓ} : {A : Type ℓ} → Result A
append_failed = err (ledger_corruption "ledger: append failed")

-- What the operating system answers to one `append`: the directory or the file does not open, the
-- file cannot be locked or read, the write (or its flush) fails after that many bytes of the line, or all goes
-- well.
pub data AppendIo : Type 0 where
  open_refused read_refused completes : AppendIo
  write_cut : ℕ → AppendIo

-- What it answers to one `read_all`.
pub data ReadIo : Type 0 where
  not_found open_error read_error readable : ReadIo

-- `entries[-1].entry_hash if entries else None`
unfoldable pub last_hash : List DeploymentLedgerEntry → Option String
last_hash entries = elim (last? entries) [ none ↦ none | some last ↦ some last.entry_hash ]

-- Where a write goes: `O_APPEND` and `stream.seek(0, os.SEEK_END)` put it at the end of the file.
unfoldable pub seek_end : Bytes → ℕ
seek_end raw = length raw

-- A write at a position: it covers what stands there.
unfoldable pub write_at : ℕ → Bytes → Bytes → Bytes
write_at position raw written =
    take position raw ++ (written ++ drop (position + length written) raw)

-- `stream.seek`, `stream.write` and the flush.
unfoldable pub write_line : AppendIo → Bytes → Bytes → Result (Unit {0}) × Bytes
write_line (write_cut n) raw line = (append_failed, write_at (seek_end raw) raw (take n line))
write_line _ raw line = (ok tt, write_at (seek_end raw) raw line)

abbrev pub or_empty : Option Bytes → Bytes
or_empty none = []
or_empty (some raw) = raw

-- `json.loads(line)` and `DeploymentLedgerEntry.model_validate(payload)`
unfoldable pub load_entry :
    (Bytes → Option DeploymentLedgerEntry) → Bytes → Option DeploymentLedgerEntry
load_entry decode line = elim (decode line) [
  | none ↦ none
  | some e ↦ if entry_owner_ok e then some e else none
]

module _ (c : Canon) where
  -- `canonical_digest(entry.model_dump(mode="json", exclude={"entry_hash"}))`
  unfoldable pub entry_digest : DeploymentLedgerEntry → String
  entry_digest e = canonical_digest c (dump_unhashed_entry c.iso e)

  unfoldable pub entry_line : DeploymentLedgerEntry → Bytes
  entry_line e = canonical_json c (dump_entry c.iso e)

  -- The body of the loop of `_parse` for an entry that was decoded.
  unfoldable pub entry_accepted : Bytes → List String → Option String → DeploymentLedgerEntry → Bool
  entry_accepted line seen expected e =
      if entry_line e != line
      then false
      else if contains seen e.deployment_id
      then false
      else if e.previous_entry_hash != expected
      then false
      else if e.entry_hash != entry_digest e
      then false
      else true

  -- `entry.model_copy(update={"previous_entry_hash": ..., "entry_hash": ""})` and the second copy.
  unfoldable pub chain_entry : Option String → DeploymentLedgerEntry → Result DeploymentLedgerEntry
  chain_entry previous e =
      if entry_owner_ok e
      then (let chained : DeploymentLedgerEntry = record e {
        previous_entry_hash = previous;
        entry_hash = "";
      } in
          ok (record chained { entry_hash = entry_digest chained }))
      else err validation_error

  -- What `append` does with the entries that it read: the line to write.
  unfoldable pub next_line : DeploymentLedgerEntry → List DeploymentLedgerEntry → Result Bytes
  next_line e entries =
      if any (λ item. item.deployment_id == e.deployment_id) entries
      then err (ledger_corruption "ledger: duplicate deployment id")
      else elim (chain_entry (last_hash entries) e) [
        | ok persisted ↦ ok (entry_line persisted ++ newline ∷ [])
        | err _ ↦ append_failed
      ]

module _ (c : Canon) (decode : Bytes → Option DeploymentLedgerEntry) where
  -- The loop of `_parse` over the lines, from the ids and the hash of the entries before.
  unfoldable pub parse_lines :
      List Bytes → List String → Option String → Result (List DeploymentLedgerEntry)
  parse_lines [] seen expected = ok []
  parse_lines (line ∷ lines) seen expected = elim (load_entry decode line) [
    | none ↦ invalid_chain
    | some e ↦
        let rest = parse_lines lines (e.deployment_id ∷ seen) (some e.entry_hash) in
        if entry_accepted c line seen expected e
        then (rest >>= λ entries. ok (e ∷ entries))
        else invalid_chain
  ]

  unfoldable pub parse : Bytes → Result (List DeploymentLedgerEntry)
  parse [] = ok []
  parse (b ∷ bs) =
      if ends_with_newline (b ∷ bs)
      then parse_lines (splitlines (b ∷ bs)) [] none
      else invalid_chain

  -- `read_all`; `none` is a file that does not exist.
  unfoldable pub read_all : ReadIo → Option Bytes → Result (List DeploymentLedgerEntry)
  read_all not_found file = ok []
  read_all open_error file = invalid_chain
  read_all read_error file = invalid_chain
  read_all readable none = ok []
  read_all readable (some raw) = parse raw

  -- The part of `append` behind `stream.read()`, on the bytes that the file holds.
  unfoldable pub append_line : AppendIo → DeploymentLedgerEntry → Bytes → Result (Unit {0}) × Bytes
  append_line io e raw = elim (parse raw >>= next_line c e) [
    | ok line ↦ write_line io raw line
    | err failure ↦ (err failure, raw)
  ]

  -- `append`. `O_CREAT` makes the file.
  unfoldable pub append :
      AppendIo → DeploymentLedgerEntry → Option Bytes → Result (Unit {0}) × Option Bytes
  append open_refused e file = (append_failed, file)
  append read_refused e file = (append_failed, some (or_empty file))
  append io e file = let (r, raw) = append_line io e (or_empty file) in (r, some raw)
