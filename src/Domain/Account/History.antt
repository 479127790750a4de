-- ===== src/Domain/Account/History.antt =====
-- The accounts that any sequence of messages leads to, in either build.
pub mod Safety
pub mod Builds
pub mod Lifecycle
pub mod Conservation
pub mod Disputes
use nda_takehome.Base.{⊤}
use nda_takehome.Base.Outcome.{Outcome, Build}
use nda_takehome.Domain.Transaction.{ClientId}
use nda_takehome.Message.{InputMessage}
use nda_takehome.Domain.Account.State.{Account, new}
use nda_takehome.Domain.Account.Operations.{process}

pub data Reachable (build : Build) (client_id : ClientId) : Account → Type 0 where
  created : Reachable build client_id (new client_id)
  processed :
      {acc : Account}
      → Reachable build client_id acc
      → (msg : InputMessage) → Reachable build client_id (process build msg acc).1
