-- ===== src/Domain/Transaction.antt =====
-- src/domain/transaction.rs: the identifiers and the type of a transaction row.
pub mod Labels
use nda_takehome.Base.{ℕ, Option, none, some, if◌then◌else◌}
use nda_takehome.Text.{Text, codes, text_eq}

-- `u16`
abbrev pub ClientId : Type 0
ClientId = ℕ

-- `u32`
abbrev pub TransactionId : Type 0
TransactionId = ℕ

pub data TransactionType : Type 0 where
  deposit withdrawal dispute resolve chargeback : TransactionType

-- `TransactionType::from_str`
unfoldable pub from_str : Text → Option TransactionType
unfolding text_eq
from_str s =
    if text_eq s (codes "deposit")
    then some deposit
    else if text_eq s (codes "withdrawal")
    then some withdrawal
    else if text_eq s (codes "dispute")
    then some dispute
    else if text_eq s (codes "resolve")
    then some resolve
    else if text_eq s (codes "chargeback")
    then some chargeback
    else none

-- `TransactionType::otel_label`
unfoldable pub otel_label : TransactionType → Text
otel_label deposit = codes "deposit"
otel_label withdrawal = codes "withdrawal"
otel_label dispute = codes "dispute"
otel_label resolve = codes "resolve"
otel_label chargeback = codes "chargeback"
