-- ===== src/Quint.antt =====
-- payments.qnt, the repository's formal specification, for one client: its variables, its actions
-- and its invariants, written from that file and not from the Rust code.
pub mod Refinement
pub mod Invariants
pub mod Clients
use nda_takehome.Base.{ℕ, Bool, true, false, Option, none, some, if◌then◌else◌, ◌==◌}
use nda_takehome.Base.Int.{ℤ, pos, ◌+ℤ◌, ◌-ℤ◌, ltb_ℤ, leb_ℤ}
use nda_takehome.Domain.Transaction.{TransactionType}

pub data TxState : Type 0 where
  normal disputed resolved chargeback : TxState

pub record TxRecord : Type 0 where
  pub exists : Bool
  pub amount : ℤ
  pub state : TxState

abbrev pub no_tx : TxRecord
no_tx = record { exists = false; amount = pos 0; state = normal }

-- One client's `AccountState` together with the records of its transactions.
pub record SpecState : Type 0 where
  pub available : ℤ
  pub held : ℤ
  pub total : ℤ
  pub locked : Bool
  pub tx_records : ℕ → TxRecord

abbrev pub init : SpecState
init = record {
  available = pos 0;
  held = pos 0;
  total = pos 0;
  locked = false;
  tx_records = λ _. no_tx;
}

abbrev pub set_record : ℕ → TxRecord → (ℕ → TxRecord) → ℕ → TxRecord
set_record tx_id rec records k = if k == tx_id then rec else records k

abbrev pub same : TxState → TxState → Bool
same normal normal = true
same disputed disputed = true
same resolved resolved = true
same chargeback chargeback = true
same _ _ = false

abbrev pub can_dispute : TxState → Bool
can_dispute s = same s normal

abbrev pub can_resolve : TxState → Bool
can_resolve s = same s disputed

abbrev pub can_chargeback : TxState → Bool
can_chargeback s = same s disputed

-- An action that is not enabled has no next state.
abbrev require : Bool → Option SpecState → Option SpecState
require true next = next
require false next = none

abbrev refuse : Bool → Option SpecState → Option SpecState
refuse true next = none
refuse false next = next

abbrev pub deposit : ℕ → ℤ → SpecState → Option SpecState
deposit tx_id amount s = require (ltb_ℤ (pos 0) amount) (
    refuse s.locked (
      refuse (s.tx_records tx_id).exists (
        some (record s {
          available = s.available +ℤ amount;
          total = s.total +ℤ amount;
          tx_records =
              set_record tx_id (record { exists = true; amount = amount; state = normal })
                s.tx_records;
        }))))

abbrev pub withdrawal : ℕ → ℤ → SpecState → Option SpecState
withdrawal tx_id amount s = require (ltb_ℤ (pos 0) amount) (
    refuse s.locked (
      refuse (s.tx_records tx_id).exists (
        require (leb_ℤ amount s.available) (
          some (record s {
            available = s.available -ℤ amount;
            total = s.total -ℤ amount;
            tx_records =
                set_record tx_id (record { exists = true; amount = amount; state = normal })
                  s.tx_records;
          })))))

-- The action on a record that exists, in a state that allows it.
abbrev on_record :
    (TxState → Bool)
    → TxState
    → (TxRecord → SpecState → SpecState)
    → ℕ
    → SpecState
    → Option SpecState
on_record allowed next effect tx_id s =
    let rec = s.tx_records tx_id in
    refuse s.locked (
      require rec.exists (
        require (allowed rec.state) (
          some (record (effect rec s) {
            tx_records = set_record tx_id (record rec { state = next }) s.tx_records;
          }))))

abbrev pub dispute : ℕ → SpecState → Option SpecState
dispute =
    on_record can_dispute disputed
      λ rec s. record s { available = s.available -ℤ rec.amount; held = s.held +ℤ rec.amount }

abbrev pub resolve : ℕ → SpecState → Option SpecState
resolve =
    on_record can_resolve resolved
      λ rec s. record s { held = s.held -ℤ rec.amount; available = s.available +ℤ rec.amount }

abbrev pub charge_back : ℕ → SpecState → Option SpecState
charge_back =
    on_record can_chargeback chargeback λ rec s. record s {
      held = s.held -ℤ rec.amount;
      total = s.total -ℤ rec.amount;
      locked = true;
    }

-- `step`, with the choice that a message makes
abbrev pub step : TransactionType → ℕ → ℤ → SpecState → Option SpecState
step TransactionType.deposit tx_id amount = deposit tx_id amount
step TransactionType.withdrawal tx_id amount = withdrawal tx_id amount
step TransactionType.dispute tx_id amount = dispute tx_id
step TransactionType.resolve tx_id amount = resolve tx_id
step TransactionType.chargeback tx_id amount = charge_back tx_id

-- The state behind a step: the same, if the action is not enabled.
abbrev pub after_step : Option SpecState → SpecState → SpecState
after_step none s = s
after_step (some s') s = s'

-- The states that `init` and `step` lead to.
pub data Reaches : SpecState → Type 0 where
  initial : Reaches init
  stepped :
      {s : SpecState}
      → Reaches s
      → (type : TransactionType) (tx_id : ℕ) (amount : ℤ)
      → Reaches (after_step (step type tx_id amount s) s)
