-- ===== src/Infrastructure/CsvReader/Rows.antt =====
-- What a file says, row by row, and the order that its messages get.
use nda_takehome.Base.{
  ℕ, suc, ◌^◌, ◌<◌, ⊤, Option, none, some, List, [], ◌∷◌, ◌≡◌, refl, arith, Option-cases, inl, inr,
}
use nda_takehome.Base.Outcome.{◌>>=◌, Outcome, Outcome-cases, ok, err, panicked, Build}
use nda_takehome.Text.Numbers.{parse_unsigned}
use nda_takehome.Domain.Transaction.{from_str}
use nda_takehome.Message.{InputMessage}
use nda_takehome.Infrastructure.CsvReader.{
  RawInputMessage, CsvReader, ReadError, not_deserialized, invalid_type, invalid_client,
  invalid_transaction, read_amount, read_record, next_order,
}

abbrev or_err : {A : Type 0} → Option A → ReadError → Outcome ReadError A
or_err none e = err e
or_err (some a) e = ok a

-- The message that the row in the place `n` stands for, without a reader.
unfoldable pub row_message : Build → ℕ → RawInputMessage → Outcome ReadError InputMessage
row_message build n row = do
  type ← or_err (from_str row.type) (invalid_type row.type)
  client ← or_err (parse_unsigned (2 ^ 16) row.client) invalid_client
  tx ← or_err (parse_unsigned (2 ^ 32) row.tx) invalid_transaction
  amount ← read_amount build row.amount
  ok (record {
    chrono_order = n;
    transaction_type = type;
    client_id = client;
    transaction_id = tx;
    amount = amount;
  })

abbrev pub after_row : Outcome ReadError InputMessage → CsvReader → CsvReader
after_row (ok message) self = record self { chrono_order = suc self.chrono_order }
after_row (err e) self = self
after_row panicked self = self

next_order_lem : (build : Build) (n : ℕ) → suc n < 2 ^ 64 → next_order build n ≡ ok (suc n)
unfolding next_order
next_order_lem build n h = ground arith

pub read_record_lem :
    (build : Build) (row : RawInputMessage) (self : CsvReader)
    → suc self.chrono_order < 2 ^ 64
    → read_record build row self ≡ (
      row_message build self.chrono_order row,
      after_row (row_message build self.chrono_order row) self,
    )
unfolding read_record row_message
read_record_lem build row self h = elim (Option-cases (from_str row.type)) [
  | inl e ↦ rw e refl
  | inr (type, e) ↦ rw e (elim (Option-cases (parse_unsigned (2 ^ 16) row.client)) [
    | inl e1 ↦ rw e1 refl
    | inr (client, e1) ↦ rw e1 (elim (Option-cases (parse_unsigned (2 ^ 32) row.tx)) [
      | inl e2 ↦ rw e2 refl
      | inr (tx, e2) ↦ rw e2 (elim (Outcome-cases (read_amount build row.amount)) [
        | inl (amount, e3) ↦ rw (e3, next_order_lem build self.chrono_order h) refl
        | inr (inl (e, e3)) ↦ rw e3 refl
        | inr (inr e3) ↦ rw e3 refl
      ])
    ])
  ])
]

row_message-chrono_order :
    (build : Build) (n : ℕ) (row : RawInputMessage) (message : InputMessage)
    → row_message build n row ≡ ok message
    → message.chrono_order ≡ n
unfolding row_message
row_message-chrono_order build n row message e = ground arith

abbrev pub put_first :
    Outcome ReadError InputMessage
    → List InputMessage × Outcome ReadError ⊤
    → List InputMessage × Outcome ReadError ⊤
put_first (ok message) (messages, result) = (message ∷ messages, result)
put_first (err e) rest = ([], err e)
put_first panicked rest = ([], panicked)

-- The messages of a file up to its first bad row, the first in the place `n`, and whether there is
-- a bad row.
unfoldable pub scan :
    Build → ℕ → List (Option RawInputMessage) → List InputMessage × Outcome ReadError ⊤
scan build n [] = ([], ok tt)
scan build n (none ∷ rows) = ([], err not_deserialized)
scan build n (some row ∷ rows) = put_first (row_message build n row) (scan build (suc n) rows)

-- The messages are numbered from `n`.
abbrev pub NumberedFrom : ℕ → List InputMessage → Type 0
NumberedFrom n [] = Unit
NumberedFrom n (message ∷ messages) = (message.chrono_order ≡ n) × NumberedFrom (suc n) messages

pub scan-NumberedFrom :
    (build : Build) (n : ℕ) (rows : List (Option RawInputMessage))
    → NumberedFrom n (scan build n rows).0
unfolding scan
scan-NumberedFrom build n [] = tt
scan-NumberedFrom build n (none ∷ rows) = tt
scan-NumberedFrom build n (some row ∷ rows) = elim (Outcome-cases (row_message build n row)) [
  | inl (message, e) ↦
      rw e (row_message-chrono_order build n row message e, scan-NumberedFrom build (suc n) rows)
  | inr (inl (failure, e)) ↦ rw e tt
  | inr (inr e) ↦ rw e tt
]
