-- ===== src/Service/Snapshot/Rows.antt =====
-- The rows that `Service::write_snapshot` (src/service/mod.rs) writes.
use nda_takehome.Base.{
  ℕ, ◌+◌, ⊤, some, List, [], ◌∷◌, ◌++◌, length, if◌then◌else◌, ◌≡◌, refl, ap, sym, ◌∙◌, arith,
  subst, append_assoc, append-nil,
}
use nda_takehome.Base.Action.{◌>>=◌, ◌>>◌, bind_ok, modify}
use nda_takehome.Base.Outcome.{Outcome, ok}
use nda_takehome.Collections.{HashMap}
use nda_takehome.Domain.Account.State.{Account}
use nda_takehome.Message.Output.{Field, from_account}
use nda_takehome.Infrastructure.CsvWriter.{
  Serializer, IsRecording, WriteError, header, message_row, header_failed, record_failed,
  flush_failed, with_context, write_header, write_message, flush,
}
use nda_takehome.Service.Snapshot.{
  Snapshot, SnapshotAction, with_writer, write_accounts, write_snapshot,
}

-- The rows of the accounts.
abbrev pub account_rows : HashMap Account → List (List Field)
account_rows [] = []
account_rows ((client_id, entry) ∷ accounts) =
    message_row (from_account entry) ∷ account_rows accounts

-- The number of the locked accounts.
abbrev pub locked_accounts : HashMap Account → ℕ
locked_accounts [] = 0
locked_accounts ((client_id, entry) ∷ accounts) =
    let rest = locked_accounts accounts in if entry.locked then 1 + rest else rest

module _ {W : Type 0} (serializer : Serializer W) (rows : W → List (List Field))
    (recording : IsRecording serializer rows) where
  -- A writer that has written `new`.
  abbrev Wrote :
      {A : Type 0} → A → List (List Field) → Snapshot W → Outcome WriteError A × Snapshot W → Type 0
  Wrote a new self (result, self') = (result ≡ ok a) × (rows self'.writer ≡ rows self.writer ++ new)

  write_fields :
      (e : WriteError) (fields : List Field) (w : W)
      → (with_context e (serializer.serialize fields w).0 ≡ ok tt)
        × (rows (serializer.serialize fields w).1 ≡ rows w ++ fields ∷ [])
  write_fields e fields w =
      let (good, more) = recording.serialized fields w in (ap (with_context e) good, more)

  write_accounts_lem :
      (accounts : HashMap Account) (locked_count : ℕ) (self : Snapshot W)
      → Wrote
          (locked_count + locked_accounts accounts)
          (account_rows accounts)
          self
          (write_accounts serializer accounts locked_count self)
  unfolding write_accounts write_message
  write_accounts_lem [] locked_count self =
      (ap ok (omega arith), sym (append-nil (rows self.writer)))
  write_accounts_lem ((client_id, entry) ∷ accounts) locked_count self =
      let row = message_row (from_account entry) in
      let (good, more) = write_fields record_failed row self.writer in
      let n = if entry.locked then locked_count + 1 else locked_count in
      let self' : Snapshot W = record self { writer = (serializer.serialize row self.writer).1 } in
      let (good', more') = write_accounts_lem accounts n self' in
      subst
        (Wrote (locked_count + locked_accounts ((client_id, entry) ∷ accounts))
          (row ∷ account_rows accounts) self)
        (sym (
          bind_ok (with_writer (write_message serializer (from_account entry)))
            (λ _. write_accounts serializer accounts n) self tt good))
        (
          good' ∙ ap ok (ground arith),
          more'
              ∙ ap (λ l. l ++ account_rows accounts) more
              ∙ append_assoc (rows self.writer) (row ∷ []) (account_rows accounts),
        )

  -- The rest of the snapshot, after the accounts.
  abbrev close : HashMap Account → ℕ → SnapshotAction W ⊤
  close accounts locked_count = do
    with_writer (flush serializer)
    modify λ self. record self { snapshot_accounts_written = some (length accounts) }
    modify λ self. record self { snapshot_accounts_locked = some locked_count }

  abbrev note : HashMap Account → ℕ → Snapshot W → Snapshot W
  note accounts locked_count self = record self {
    snapshot_accounts_written = some (length accounts);
    snapshot_accounts_locked = some locked_count;
  }

  close_lem :
      (accounts : HashMap Account) (locked_count : ℕ) (self : Snapshot W)
      → let (result, self') = close accounts locked_count self in
        (result ≡ ok tt)
        × (rows self'.writer ≡ rows self.writer)
        × (self'.snapshot_accounts_written ≡ some (length accounts))
        × (self'.snapshot_accounts_locked ≡ some locked_count)
  unfolding flush
  close_lem accounts locked_count self =
      let (good, same) = recording.flushed self.writer in
      let good' = ap (with_context flush_failed) good in
      subst {A = Outcome WriteError ⊤ × Snapshot W}
        (λ (result, self').
          (result ≡ ok tt)
          × (rows self'.writer ≡ rows self.writer)
          × (self'.snapshot_accounts_written ≡ some (length accounts))
          × (self'.snapshot_accounts_locked ≡ some locked_count))
        (sym (
          bind_ok (with_writer (flush serializer)) (λ _. modify (note accounts locked_count)) self
            tt good'))
        (refl, same, refl, refl)

  pub write_snapshot_lem :
      (accounts : HashMap Account) (self : Snapshot W)
      → let (result, self') = write_snapshot serializer accounts self in
        (result ≡ ok tt)
        × (rows self'.writer ≡ rows self.writer ++ header ∷ account_rows accounts)
        × (self'.snapshot_accounts_written ≡ some (length accounts))
        × (self'.snapshot_accounts_locked ≡ some (locked_accounts accounts))
  unfolding write_snapshot write_header
  write_snapshot_lem accounts self =
      let (good, more) = write_fields header_failed header self.writer in
      let self1 : Snapshot W = record self {
        writer = (serializer.serialize header self.writer).1;
      } in
      let (good1, more1) = write_accounts_lem accounts 0 self1 in
      let self2 = (write_accounts serializer accounts 0 self1).1 in
      let (good2, same, written, locked) = close_lem accounts (locked_accounts accounts) self2 in
      subst {A = Outcome WriteError ⊤ × Snapshot W}
        (λ (result, self').
          (result ≡ ok tt)
          × (rows self'.writer ≡ rows self.writer ++ header ∷ account_rows accounts)
          × (self'.snapshot_accounts_written ≡ some (length accounts))
          × (self'.snapshot_accounts_locked ≡ some (locked_accounts accounts)))
        (sym (
          bind_ok (with_writer (write_header serializer))
            (λ _. write_accounts serializer accounts 0 >>= close accounts) self tt good
          ∙ bind_ok (write_accounts serializer accounts 0) (close accounts) self1
              (locked_accounts accounts) (good1 ∙ ap ok (omega arith))))
        (
          good2,
          same
              ∙ more1
              ∙ ap (λ l. l ++ account_rows accounts) more
              ∙ append_assoc (rows self.writer) (header ∷ []) (account_rows accounts),
          written,
          locked,
        )
