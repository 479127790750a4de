-- ===== src/Pipeline/Loading.antt =====
-- `load_file` (src/main.rs) against a plain scan of the rows.
use nda_takehome.Base.{
  ℕ, zero, suc, ◌+◌, ◌^◌, ◌<◌, ⊤, false, Option, none, some, List, [], ◌∷◌, ◌++◌, length, ◌≡◌, refl,
  sym, ap, ◌∙◌, arith, subst, append_assoc, append-nil,
}
use nda_takehome.Base.Outcome.{Outcome, ok, err, panicked, Build}
use nda_takehome.Base.Action.{◌>>=◌, ◌>>◌, modify, pure}
use nda_takehome.Message.{InputMessage}
use nda_takehome.Infrastructure.CsvReader.{RawInputMessage, CsvReader, ReadError, next, next_record}
use nda_takehome.Infrastructure.CsvReader.Rows.{row_message, put_first, scan, after_row}
use nda_takehome.Infrastructure.CsvReader.Next.{next_open, next-some, some_message}
use nda_takehome.Service.State.{ServiceMessage, incoming}
use nda_takehome.Service.PendingTransaction.{Channel}
use nda_takehome.Pipeline.{Loader, LoaderAction, read_next, load_rows, send, count}

-- The messages as the service gets them.
abbrev pub incoming_all : Channel → List InputMessage → List ServiceMessage
incoming_all c [] = []
incoming_all c (m ∷ ms) = incoming m c ∷ incoming_all c ms

-- What the loader has done with the rows that `scan` read.
pub record Loads (tx_sx : Channel) (found : List InputMessage × Outcome ReadError ⊤) (self : Loader)
    (end : Outcome ReadError ⊤ × Loader) : Type 0 where
  pub result : end.0 ≡ found.1
  pub enqueued : end.1.enqueued ≡ self.enqueued ++ incoming_all tx_sx found.0
  pub counted : end.1.msg_count ≡ self.msg_count + length found.0

-- The rest of a round, after `reader.next()`.
abbrev pub after_next :
    Build
    → Channel
    → ℕ
    → Loader
    → Outcome ReadError (Option InputMessage) × CsvReader
    → Outcome ReadError ⊤ × Loader
after_next build tx_sx fuel self (ok none, reader) = (ok tt, record self { reader = reader })
after_next build tx_sx fuel self (ok (some msg), reader) =
    load_rows build tx_sx fuel (send (incoming msg tx_sx) (count (record self { reader = reader })))
after_next build tx_sx fuel self (err e, reader) = (err e, record self { reader = reader })
after_next build tx_sx fuel self (panicked, reader) = (panicked, record self { reader = reader })

abbrev round : Build → Channel → ℕ → LoaderAction (Option InputMessage) → LoaderAction ⊤
round build tx_sx fuel read = do
  message ← read
  elim message [
    | none ↦ pure tt
    | some msg ↦ (do modify count; modify (send (incoming msg tx_sx)); load_rows build tx_sx fuel)
  ]

round_after :
    (build : Build) (tx_sx : Channel) (fuel : ℕ) (self : Loader)
    (p : Outcome ReadError (Option InputMessage) × CsvReader)
    → round build tx_sx fuel (λ _. (p.0, record self { reader = p.1 })) self
      ≡ after_next build tx_sx fuel self p
round_after build tx_sx fuel self (ok none, reader) = refl
round_after build tx_sx fuel self (ok (some msg), reader) = refl
round_after build tx_sx fuel self (err e, reader) = refl
round_after build tx_sx fuel self (panicked, reader) = refl

pub load_rows-next :
    (build : Build) (tx_sx : Channel) (fuel : ℕ) (self : Loader)
    → load_rows build tx_sx (suc fuel) self
      ≡ after_next build tx_sx fuel self (next build self.reader)
unfolding load_rows read_next
load_rows-next build tx_sx fuel self = round_after build tx_sx fuel self (next build self.reader)

after_row-Loads :
    (build : Build) (tx_sx : Channel) (fuel : ℕ) (self : Loader) (reader : CsvReader)
    (result : Outcome ReadError InputMessage) (found : List InputMessage × Outcome ReadError ⊤)
    → ((base : Loader)
        → base.reader ≡ record reader { chrono_order = suc reader.chrono_order }
        → Loads tx_sx found base (load_rows build tx_sx fuel base))
    → Loads tx_sx
        (put_first result found)
        self
        (after_next build tx_sx fuel self (some_message result, after_row result reader))
after_row-Loads build tx_sx fuel self reader (ok message) (messages, result) ih =
    let base : Loader =
      send (incoming message tx_sx) (
        count
          (record self { reader = record reader { chrono_order = suc reader.chrono_order } })) in
    let loads = ih base refl in
    record {
      result = loads.result;
      enqueued =
          loads.enqueued
          ∙ append_assoc self.enqueued (incoming message tx_sx ∷ []) (incoming_all tx_sx messages);
      counted = omega (arith, loads.counted);
    }
after_row-Loads build tx_sx fuel self reader (err e) found ih = record {
  result = refl;
  enqueued = sym (append-nil self.enqueued);
  counted = omega arith;
}
after_row-Loads build tx_sx fuel self reader panicked found ih = record {
  result = refl;
  enqueued = sym (append-nil self.enqueued);
  counted = omega arith;
}

pub load_rows_lem :
    (build : Build) (tx_sx : Channel) (fuel : ℕ) (rows : List (Option RawInputMessage))
    (reader : CsvReader) (self : Loader)
    → self.reader ≡ record reader { records = rows }
    → length rows < fuel
    → reader.chrono_order + length rows < 2 ^ 64
    → reader.done ≡ false
    → Loads tx_sx (scan build reader.chrono_order rows) self (load_rows build tx_sx fuel self)
unfolding scan next_record
load_rows_lem build tx_sx zero rows reader self same f h e = let no : ⊥ = omega arith in elim no [ ]
load_rows_lem build tx_sx (suc fuel) [] reader self same f h e =
    subst (Loads tx_sx (scan build reader.chrono_order ([])) self)
      (sym (
        load_rows-next build tx_sx fuel self
        ∙ ap (λ r. after_next build tx_sx fuel self (next build r)) same
        ∙ ap (after_next build tx_sx fuel self)
            (next_open build (record reader { records = [] }) e)))
      (record { result = refl; enqueued = sym (append-nil self.enqueued); counted = omega arith })
load_rows_lem build tx_sx (suc fuel) (none ∷ rows) reader self same f h e =
    subst (Loads tx_sx (scan build reader.chrono_order (none ∷ rows)) self)
      (sym (
        load_rows-next build tx_sx fuel self
        ∙ ap (λ r. after_next build tx_sx fuel self (next build r)) same
        ∙ ap (after_next build tx_sx fuel self)
            (next_open build (record reader { records = none ∷ rows }) e)))
      (record { result = refl; enqueued = sym (append-nil self.enqueued); counted = omega arith })
load_rows_lem build tx_sx (suc fuel) (some row ∷ rows) reader self same f h e =
    subst (Loads tx_sx (scan build reader.chrono_order (some row ∷ rows)) self)
      (sym (
        load_rows-next build tx_sx fuel self
        ∙ ap (λ r. after_next build tx_sx fuel self (next build r)) same
        ∙ ap (after_next build tx_sx fuel self) (next-some build row rows reader (omega arith) e)))
      (after_row-Loads build tx_sx fuel self (record reader { records = rows })
        (row_message build reader.chrono_order row) (scan build (suc reader.chrono_order) rows)
        (λ base same'.
          load_rows_lem build tx_sx fuel rows
            (record reader { chrono_order = suc reader.chrono_order }) base same' (omega arith)
            (omega arith) e))
