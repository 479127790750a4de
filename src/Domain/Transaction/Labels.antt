-- ===== src/Domain/Transaction/Labels.antt =====
-- The words of the input file and the labels of the metrics (src/domain/transaction.rs).
use nda_takehome.Base.{◌≡◌, refl, ◌↔◌, ◌∙◌, some, ap, arith}
use nda_takehome.Text.{Text, codes}
use nda_takehome.Text.Laws.{text_eq_sound}
use nda_takehome.Domain.Transaction.{
  TransactionType, deposit, withdrawal, dispute, resolve, chargeback, from_str, otel_label,
}

from_str-otel_label : (t : TransactionType) → from_str (otel_label t) ≡ some t
unfolding from_str otel_label
from_str-otel_label deposit = refl
from_str-otel_label withdrawal = refl
from_str-otel_label dispute = refl
from_str-otel_label resolve = refl
from_str-otel_label chargeback = refl

from_str_sound : (s : Text) (t : TransactionType) → from_str s ≡ some t → s ≡ otel_label t
unfolding otel_label from_str
from_str_sound s t h = ground (
  arith,
  text_eq_sound s (codes "deposit"),
  text_eq_sound s (codes "withdrawal"),
  text_eq_sound s (codes "dispute"),
  text_eq_sound s (codes "resolve"),
  text_eq_sound s (codes "chargeback"),
)

-- A word is read as a transaction type exactly when it is that type's label; all other words are
-- refused.
pub from_str_iff : (s : Text) (t : TransactionType) → (from_str s ≡ some t) ↔ (s ≡ otel_label t)
from_str_iff s t = (from_str_sound s t, λ e. ap from_str e ∙ from_str-otel_label t)
