-- ===== src/Service/Snapshot.antt =====
-- `Service::write_snapshot` (src/service/mod.rs). The accounts are written in the order in which
-- the map gives them.
pub mod Rows
pub mod Failure
use nda_takehome.Base.{ℕ, ◌+◌, ⊤, Bool, Option, none, some, List, [], ◌∷◌, length, if◌then◌else◌}
use nda_takehome.Base.Action.{Action, pure, modify, ◌>>=◌, ◌>>◌}
use nda_takehome.Base.Outcome.{Outcome}
use nda_takehome.Collections.{HashMap}
use nda_takehome.Domain.Account.State.{Account}
use nda_takehome.Message.Output.{from_account}
use nda_takehome.Infrastructure.CsvWriter.{
  Serializer, WriteError, write_header, write_message, flush,
}

-- The sink, and the two gauges.
pub record Snapshot (W : Type 0) : Type 0 where
  pub writer : W
  pub snapshot_accounts_written : Option ℕ
  pub snapshot_accounts_locked : Option ℕ

abbrev pub SnapshotAction : Type 0 → Type 0 → Type 0
SnapshotAction W A = Action (Snapshot W) WriteError A

module _ {W : Type 0} where
  abbrev pub with_writer : Action W WriteError ⊤ → SnapshotAction W ⊤
  with_writer call self = let (result, w) = call self.writer in (result, record self { writer = w })

  -- The loop over the accounts, with the number of locked ones so far.
  unfoldable pub write_accounts : Serializer W → HashMap Account → ℕ → SnapshotAction W ℕ
  unfolding write_message from_account
  write_accounts serializer [] locked_count = pure locked_count
  write_accounts serializer ((client_id, entry) ∷ accounts) locked_count = do
    let locked_count' = if entry.locked then locked_count + 1 else locked_count
    let rest = write_accounts serializer accounts locked_count'
    with_writer (write_message serializer (from_account entry))
    rest

  -- `Service::write_snapshot`
  unfoldable pub write_snapshot : Serializer W → HashMap Account → SnapshotAction W ⊤
  unfolding write_header flush
  write_snapshot serializer accounts = do
    with_writer (write_header serializer)
    locked_count ← write_accounts serializer accounts 0
    with_writer (flush serializer)
    modify λ self. record self { snapshot_accounts_written = some (length accounts) }
    modify λ self. record self { snapshot_accounts_locked = some locked_count }
