-- ===== src/Service/Snapshot/Failure/Writing.antt =====
-- `Service::write_snapshot` (src/service/mod.rs) into a sink that may fail: what it leaves there.
use nda_takehome.Base.{
  ℕ, ◌+◌, ⊤, some, List, [], ◌∷◌, ◌++◌, length, if◌then◌else◌, ◌≡◌, refl, ap, sym, ◌∙◌, arith,
  subst, append-nil,
}
use nda_takehome.Base.Action.{◌>>=◌, ◌>>◌, modify}
use nda_takehome.Base.Outcome.{Outcome, ok, err, panicked}
use nda_takehome.Collections.{HashMap}
use nda_takehome.Domain.Account.State.{Account}
use nda_takehome.Message.Output.{Field, from_account}
use nda_takehome.Infrastructure.CsvWriter.{
  Serializer, header, message_row, header_failed, record_failed, flush_failed, with_context,
  write_header, write_message, flush,
}
use nda_takehome.Service.Snapshot.{
  Snapshot, SnapshotAction, with_writer, write_accounts, write_snapshot,
}
use nda_takehome.Service.Snapshot.Rows.{account_rows, locked_accounts}
use nda_takehome.Service.Snapshot.Failure.{
  IsHonest, Adds, Snaps, Adds-bind, Snaps-bind, Always, Written-Adds,
}

module _ {W : Type 0} (rows : W → List (List Field)) (serializer : Serializer W)
    (honest : IsHonest serializer rows) where
  write_accounts-Adds :
      (accounts : HashMap Account) (locked_count : ℕ) (self : Snapshot W)
      → Adds rows
          (λ n. n ≡ locked_count + locked_accounts accounts)
          (account_rows accounts)
          self
          (write_accounts serializer accounts locked_count self)
  unfolding write_accounts write_message
  write_accounts-Adds [] locked_count self =
      (omega arith, sym (append-nil (rows self.writer)), (refl, refl))
  write_accounts-Adds ((client_id, entry) ∷ accounts) locked_count self =
      let row = message_row (from_account entry) in
      let n = if entry.locked then locked_count + 1 else locked_count in
      let total = locked_count + locked_accounts ((client_id, entry) ∷ accounts) in
      let same : n + locked_accounts accounts ≡ total = ground arith in
      Adds-bind rows Always (λ m. m ≡ total) (row ∷ []) (account_rows accounts) self
        (with_writer (write_message serializer (from_account entry)) self)
        (λ _. write_accounts serializer accounts n)
        (Written-Adds rows record_failed row self (serializer.serialize row self.writer)
          (honest.serialized row self.writer))
        (λ _ self' _.
          subst
            (λ t.
              Adds rows (λ m. m ≡ t) (account_rows accounts) self'
                (write_accounts serializer accounts n self'))
            same (write_accounts-Adds accounts n self'))

  -- The flush, and then the gauges.
  abbrev close : HashMap Account → ℕ → SnapshotAction W ⊤
  close accounts locked_count = do
    with_writer (flush serializer)
    modify λ self. record self { snapshot_accounts_written = some (length accounts) }
    modify λ self. record self { snapshot_accounts_locked = some locked_count }

  close-Snaps_of :
      (accounts : HashMap Account) (locked_count : ℕ) (self : Snapshot W) (r : Outcome ⊤ ⊤ × W)
      → locked_count ≡ 0 + locked_accounts accounts
      → rows r.1 ≡ rows self.writer
      → Snaps rows accounts [] self (
          ((λ (_ : Snapshot W). (with_context flush_failed r.0, record self { writer = r.1 }))
              >>= λ (_ : ⊤). modify λ self. record self {
                snapshot_accounts_written = some (length accounts);
                snapshot_accounts_locked = some locked_count;
              })
            self)
  close-Snaps_of accounts locked_count self (ok u, w) e same =
      (same ∙ sym (append-nil (rows self.writer)), refl, ap some (omega arith))
  close-Snaps_of accounts locked_count self (err f, w) e same =
      ([], ([], (refl, same ∙ sym (append-nil (rows self.writer)), (refl, refl))))
  close-Snaps_of accounts locked_count self (panicked, w) e same =
      ([], ([], (refl, same ∙ sym (append-nil (rows self.writer)), (refl, refl))))

  close-Snaps :
      (accounts : HashMap Account) (locked_count : ℕ) (self : Snapshot W)
      → locked_count ≡ 0 + locked_accounts accounts
      → Snaps rows accounts [] self (close accounts locked_count self)
  unfolding flush
  close-Snaps accounts locked_count self e =
      close-Snaps_of accounts locked_count self (serializer.flush self.writer) e
        (honest.flushed self.writer)

  rows-Snaps :
      (accounts : HashMap Account) (self : Snapshot W)
      → Snaps rows accounts
          (account_rows accounts ++ [])
          self
          ((write_accounts serializer accounts 0 >>= close accounts) self)
  rows-Snaps accounts self =
      Snaps-bind rows accounts (λ n. n ≡ 0 + locked_accounts accounts) (account_rows accounts) []
        self (write_accounts serializer accounts 0 self) (close accounts)
        (write_accounts-Adds accounts 0 self) (λ n self' e. close-Snaps accounts n self' e)

  -- Whatever the sink does, what a snapshot leaves in it is the header and the rows of the
  -- accounts up to the record that failed, if any: a snapshot that succeeds has written all of
  -- them and records the number of the accounts and of the locked ones in its gauges, and one
  -- that fails has written the first ones only and leaves the gauges alone. A call of the
  -- serializer that fails writes no whole record.
  pub write_snapshot-Snaps :
      (accounts : HashMap Account) (self : Snapshot W)
      → Snaps rows accounts
          (header ∷ account_rows accounts)
          self
          (write_snapshot serializer accounts self)
  unfolding write_snapshot write_header
  write_snapshot-Snaps accounts self =
      subst (λ l. Snaps rows accounts (header ∷ l) self (write_snapshot serializer accounts self))
        (append-nil (account_rows accounts))
        (Snaps-bind rows accounts Always (header ∷ []) (account_rows accounts ++ []) self
          (with_writer (write_header serializer) self)
          (λ _. write_accounts serializer accounts 0 >>= close accounts)
          (Written-Adds rows header_failed header self (serializer.serialize header self.writer)
            (honest.serialized header self.writer))
          (λ _ self' _. rows-Snaps accounts self'))
