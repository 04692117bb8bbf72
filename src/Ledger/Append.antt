-- ===== src/Ledger/Append.antt =====
-- What one `append` of ledger.py leaves in the file.
use skill_governance_control.Base.{
  take-length, drop-past, Result, err, Failure, ap, >>=-eq-ok as bind-eq-ok, ◌+◌, ℕ, suc, ◌<◌, true,
  false, Option, some, List, [], ◌∷◌, ◌++◌, append-nil, any, take, take-append, length, ok, ◌>>=◌,
  ◌≡◌, refl, ◌∙◌, arith, ◌==◌, string_eq, list_eq, option_eq, nat_eq, inl, inr, Result-cases,
}
use skill_governance_control.Base.Bytes.{Bytes, newline, ends_with_newline_torn, is_one_line}
use skill_governance_control.Canonical.{Canon}
use skill_governance_control.Models.{DeploymentLedgerEntry, entry_owner_ok}
use skill_governance_control.Ledger.Snoc.{
  stored_entry, IsAppendable, next_line-stored, parse-snoc, parse_torn,
}
use skill_governance_control.Ledger.{
  AppendIo, open_refused, read_refused, completes, write_cut, readable, entry_line, parse, read_all,
  chain_entry, next_line, append_line, append, append_failed, invalid_chain, write_line, or_empty,
  write_at, seek_end,
}

write_at-end : (raw written : Bytes) → write_at (seek_end raw) raw written ≡ raw ++ written
unfolding write_at seek_end
write_at-end raw written =
    rw
      (
        take-length (length raw) raw (omega arith),
        drop-past (length raw + length written) raw (omega arith),
        append-nil,
      )
      refl

write_line-completes : (raw line : Bytes) → write_line completes raw line ≡ (ok tt, raw ++ line)
unfolding write_line
write_line-completes raw line = rw (write_at-end raw line) refl

write_line-cut :
    (n : ℕ) (raw line : Bytes)
    → write_line (write_cut n) raw line ≡ (append_failed, raw ++ take n line)
unfolding write_line
write_line-cut n raw line = rw (write_at-end raw (take n line)) refl

module _ (c : Canon) (decode : Bytes → Option DeploymentLedgerEntry) where
  -- The line that `append` adds for `e` behind `entries`.
  abbrev pub stored_line : DeploymentLedgerEntry → List DeploymentLedgerEntry → Bytes
  stored_line e entries = entry_line c (stored_entry c e entries) ++ newline ∷ []

  -- How `append` can end, by the file before and after.
  pub data IsAppend (e : DeploymentLedgerEntry) (old : Bytes) (r : Result (Unit {0})) (new : Bytes)
      : Type 0 where
    refused : (failure : Failure) → r ≡ err failure → new ≡ old → IsAppend e old r new
    cut_off :
        (n : ℕ) (entries : List DeploymentLedgerEntry)
        → parse c decode old ≡ ok entries
        → r ≡ append_failed
        → new ≡ old ++ take n (stored_line e entries)
        → IsAppend e old r new
    appended :
        (entries : List DeploymentLedgerEntry)
        → parse c decode old ≡ ok entries
        → any (λ item. item.deployment_id == e.deployment_id) entries ≡ false
        → entry_owner_ok e ≡ true
        → r ≡ ok tt
        → new ≡ old ++ stored_line e entries
        → IsAppend e old r new

  next_line-ok :
      (e : DeploymentLedgerEntry) (entries : List DeploymentLedgerEntry) (line : Bytes)
      → next_line c e entries ≡ ok line
      → (any (λ item. item.deployment_id == e.deployment_id) entries ≡ false)
        × (entry_owner_ok e ≡ true)
        × (line ≡ stored_line e entries)
  unfolding next_line chain_entry
  next_line-ok e entries line h = (ground arith, ground arith, ground arith)

  write_line-IsAppend :
      (io : AppendIo) (e : DeploymentLedgerEntry) (raw line : Bytes)
      (entries : List DeploymentLedgerEntry)
      → parse c decode raw ≡ ok entries
      → any (λ item. item.deployment_id == e.deployment_id) entries ≡ false
      → entry_owner_ok e ≡ true
      → line ≡ stored_line e entries
      → IsAppend e raw (write_line io raw line).0 (write_line io raw line).1
  unfolding write_line
  write_line-IsAppend (write_cut n) e raw line entries parsed unlisted owned same =
      cut_off n entries parsed refl
        (write_at-end raw (take n line) ∙ ap (λ l. raw ++ take n l) same)
  write_line-IsAppend _ e raw line entries parsed unlisted owned same =
      appended entries parsed unlisted owned refl (write_at-end raw line ∙ ap (λ l. raw ++ l) same)

  append_line-IsAppend :
      (io : AppendIo) (e : DeploymentLedgerEntry) (raw : Bytes)
      → IsAppend e raw (append_line c decode io e raw).0 (append_line c decode io e raw).1
  unfolding append_line
  append_line-IsAppend io e raw = elim (Result-cases (parse c decode raw >>= next_line c e)) [
    | inr (f, p) ↦ rw (p, append_line) (refused f refl refl)
    | inl (line, p) ↦
        let (entries, parsed, q) = bind-eq-ok (parse c decode raw) (next_line c e) p in
        let (unlisted, owned, same) = next_line-ok e entries line q in
        rw (p, append_line) (write_line-IsAppend io e raw line entries parsed unlisted owned same)
  ]

  -- Whatever happens, `append` leaves the bytes that the file held before where they are. It raises and
  -- adds nothing; or it raises and has added a first part of the line of `e`, linked and hashed behind
  -- the entries that the file held; or it returns and has added the whole line, and no entry had the
  -- id of `e`, whose evidence belongs to its deployment.
  pub append-IsPrefix :
      (io : AppendIo) (e : DeploymentLedgerEntry) (file : Option Bytes)
      → IsAppend e
          (or_empty file)
          (append c decode io e file).0
          (or_empty (append c decode io e file).1)
  unfolding append
  append-IsPrefix open_refused e file = refused _ refl refl
  append-IsPrefix read_refused e file = refused _ refl refl
  append-IsPrefix completes e file = append_line-IsAppend completes e (or_empty file)
  append-IsPrefix (write_cut n) e file = append_line-IsAppend (write_cut n) e (or_empty file)

module _ (c : Canon) (decode : Bytes → Option DeploymentLedgerEntry) where
  append_line-stored :
      (io : AppendIo) (raw : Bytes) (es : List DeploymentLedgerEntry) (e : DeploymentLedgerEntry)
      → parse c decode raw ≡ ok es
      → IsAppendable c decode e es
      → append_line c decode io e raw
        ≡ write_line io raw (entry_line c (stored_entry c e es) ++ newline ∷ [])
  unfolding append_line
  append_line-stored io raw es e h a = ground (arith, next_line-stored c decode e es a)

  -- After an append that the system lets complete, the ledger reads as before with the stored entry
  -- behind: the entry given, linked to the last hash and hashed.
  pub append-read_all :
      (raw : Bytes) (es : List DeploymentLedgerEntry) (e : DeploymentLedgerEntry)
      → parse c decode raw ≡ ok es
      → IsAppendable c decode e es
      → ((append c decode completes e (some raw)).0 ≡ ok tt)
        × (read_all c decode readable (append c decode completes e (some raw)).1
            ≡ ok (es ++ stored_entry c e es ∷ []))
  unfolding append read_all
  append-read_all raw es e h a =
      rw (append_line-stored completes raw es e h a, write_line-completes)
        (refl, parse-snoc c decode raw es e h a)

  -- A write that stops inside the line is reported, and every later reading of the ledger fails.
  pub append_torn :
      (raw : Bytes) (es : List DeploymentLedgerEntry) (e : DeploymentLedgerEntry) (n : ℕ)
      → parse c decode raw ≡ ok es
      → IsAppendable c decode e es
      → n < length (entry_line c (stored_entry c e es))
      → ((append c decode (write_cut (suc n)) e (some raw)).0 ≡ append_failed)
        × (read_all c decode readable (append c decode (write_cut (suc n)) e (some raw)).1
            ≡ invalid_chain)
  unfolding append read_all
  append_torn raw es e n h a cut =
      rw (append_line-stored (write_cut (suc n)) raw es e h a, write_line-cut)
        (refl, torn raw (entry_line c (stored_entry c e es)) cut a.one_line)
    where
      torn :
          (raw line : Bytes)
          → n < length line
          → is_one_line line ≡ true
          → parse c decode (raw ++ take (suc n) (line ++ newline ∷ [])) ≡ invalid_chain
      torn raw [] h one = elim h [ ]
      torn raw (b ∷ bs) h one =
          rw (take-append n (b ∷ bs) (newline ∷ []) h)
            (parse_torn c decode raw (take n bs) b (ends_with_newline_torn raw (b ∷ bs) n one h))
