-- ===== src/UnitTests/Snapshots.antt =====
-- The tests of src/service/mod.rs on the snapshot.
use nda_takehome.Base.{List, [], ◌∷◌}
use nda_takehome.Text.{codes}
use nda_takehome.Domain.Transaction.{deposit, dispute, chargeback}
use nda_takehome.UnitTests.{Command, message, handle, snapshot}

abbrev pub test_write_snapshot : List Command
test_write_snapshot =
    message 1 1 100 deposit
    ∷ handle
    ∷ snapshot
        (codes "client,available,held,total,locked" ∷ codes "1,100.0000,0.0000,100.0000,false" ∷ [])
    ∷ []

abbrev pub test_write_snapshot_locked_account : List Command
test_write_snapshot_locked_account =
    message 1 1 1000 deposit
    ∷ message 1 1 123 dispute
    ∷ message 1 1 456 chargeback
    ∷ handle
    ∷ snapshot
        (codes "client,available,held,total,locked" ∷ codes "1,0.0000,0.0000,0.0000,true" ∷ [])
    ∷ []
