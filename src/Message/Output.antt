-- ===== src/Message/Output.antt =====
-- src/message.rs: what is written of an account.
use nda_takehome.Base.{ℕ, Bool, List, [], ◌∷◌}
use nda_takehome.Text.{Text, codes}
use nda_takehome.Domain.Amount.{Amount, to_string}
use nda_takehome.Domain.Transaction.{ClientId}
use nda_takehome.Domain.Account.State.{Account}

pub record OutputMessage : Type 0 where
  pub client_id : ClientId
  pub available : Amount
  pub held : Amount
  pub total : Amount
  pub locked : Bool

-- `From<&Account> for OutputMessage`
unfoldable pub from_account : Account → OutputMessage
from_account account = record {
  client_id = account.client_id;
  available = account.available;
  held = account.held;
  total = account.total;
  locked = account.locked;
}

-- What `serde` is given of a value.
pub data Field : Type 0 where
  number : ℕ → Field
  text : Text → Field
  boolean : Bool → Field

-- `Serialize for OutputMessage`: the fields of the struct by their names.
unfoldable pub serialize : OutputMessage → List (Text × Field)
unfolding to_string
serialize self =
    (codes "client_id", number self.client_id)
    ∷ (codes "available", text (to_string self.available))
    ∷ (codes "held", text (to_string self.held))
    ∷ (codes "total", text (to_string self.total))
    ∷ (codes "locked", boolean self.locked)
    ∷ []
