-- ===== src/Pipeline/Termination.antt =====
-- The loop of `load_file` (src/main.rs), without fuel.
use nda_takehome.Base.{
  ℕ, zero, suc, ◌<◌, ⊤, Option, List, [], ◌∷◌, none, some, ◌≡◌, ◌↔◌, refl, sym, ap, arith, length,
  ◌⊎◌, inl, inr, Bool-cases, subst, Option-cases, ◌^◌, if◌then◌else◌,
}
use nda_takehome.Base.Outcome.{Outcome, Outcome-cases, ok, err, panicked, Build}
use nda_takehome.Base.Loop.{Runs, stops, goes_on, Runs-unique}
use nda_takehome.Base.Action.{◌>>=◌, pure}
use nda_takehome.Text.Numbers.{parse_unsigned}
use nda_takehome.Domain.Transaction.{from_str}
use nda_takehome.Message.{InputMessage}
use nda_takehome.Infrastructure.CsvReader.{
  CsvReader, RawInputMessage, ReadError, next, next_record, read_record, next_order, read_amount,
}
use nda_takehome.Infrastructure.CsvReader.Next.{next_open}
use nda_takehome.Service.PendingTransaction.{Channel}
use nda_takehome.Service.State.{incoming}
use nda_takehome.Pipeline.{Loader, load_rows, send, count}
use nda_takehome.Pipeline.Loading.{after_next, load_rows-next}

-- What follows `reader.next().await?` in the loop.
abbrev after_read :
    Channel
    → Loader
    → Outcome ReadError (Option InputMessage) × CsvReader
    → Loader ⊎ (Outcome ReadError ⊤ × Loader)
after_read tx_sx self (ok none, reader) = inr (ok tt, record self { reader = reader })
after_read tx_sx self (ok (some msg), reader) =
    inl (send (incoming msg tx_sx) (count (record self { reader = reader })))
after_read tx_sx self (err e, reader) = inr (err e, record self { reader = reader })
after_read tx_sx self (panicked, reader) = inr (panicked, record self { reader = reader })

-- One round of `while let Some(msg) = reader.next().await?`.
unfoldable pub load_round : Build → Channel → Loader → Loader ⊎ (Outcome ReadError ⊤ × Loader)
unfolding next
load_round build tx_sx self = after_read tx_sx self (next build self.reader)

-- A row that is read is gone from the reader.
read_record-records :
    (build : Build) (row : RawInputMessage) (self : CsvReader)
    → (read_record build row self).1.records ≡ self.records
unfolding read_record
read_record-records build row self = elim (Option-cases (from_str row.type)) [
  | inl e ↦ rw e refl
  | inr (type, e) ↦ rw e (elim (Option-cases (parse_unsigned (2 ^ 16) row.client)) [
    | inl e1 ↦ rw e1 refl
    | inr (client, e1) ↦ rw e1 (elim (Option-cases (parse_unsigned (2 ^ 32) row.tx)) [
      | inl e2 ↦ rw e2 refl
      | inr (tx, e2) ↦ rw e2 (elim (Outcome-cases (read_amount build row.amount)) [
        | inl (amount, e3) ↦ rw e3 (elim (Outcome-cases (next_order build self.chrono_order)) [
          | inl (n, e4) ↦ rw e4 refl
          | inr (inl (e, e4)) ↦ rw e4 refl
          | inr (inr e4) ↦ rw e4 refl
        ])
        | inr (inl (e, e3)) ↦ rw e3 refl
        | inr (inr e3) ↦ rw e3 refl
      ])
    ])
  ])
]

-- With a message, the reader has one row less.
abbrev Shorter :
    List (Option RawInputMessage) → Outcome ReadError (Option InputMessage) × CsvReader → Type 0
Shorter rows (result, reader) =
    (msg : InputMessage) → result ≡ ok (some msg) → suc (length reader.records) ≡ length rows

bind-Shorter :
    (row : RawInputMessage) (rows : List (Option RawInputMessage)) (self : CsvReader)
    (r : Outcome ReadError InputMessage × CsvReader)
    → r.1.records ≡ rows
    → Shorter (some row ∷ rows) (((λ (_ : CsvReader). r) >>= λ message. pure (some message)) self)
bind-Shorter row rows self (ok m, reader) e msg h = ap (λ l. suc (length l)) e
bind-Shorter row rows self (err _, reader) e msg h = ground arith
bind-Shorter row rows self (panicked, reader) e msg h = ground arith

next_record-Shorter :
    (build : Build) (rows : List (Option RawInputMessage)) (self : CsvReader)
    → Shorter rows (next_record build rows self)
unfolding next_record
next_record-Shorter build [] self msg e = ground arith
next_record-Shorter build (none ∷ rows) self msg e = ground arith
next_record-Shorter build (some row ∷ rows) self msg e =
    let start : CsvReader = record self { records = rows } in
    bind-Shorter row rows start (read_record build row start) (read_record-records build row start)
      msg e

next-Shorter : (build : Build) (self : CsvReader) → Shorter self.records (next build self)
unfolding next
next-Shorter build self = elim (Bool-cases self.done) [
  | inl closed ↦
      subst (Shorter self.records)
        (sym (ap (λ c. if c then (ok none, self) else next_record build self.records self) closed))
        (λ msg e. ground arith)
  | inr more ↦
      subst (Shorter self.records) (sym (next_open build self more))
        (next_record-Shorter build self.records self)
]

module _ (build : Build) (tx_sx : Channel) where
  after_read-Runs :
      (fuel : ℕ) (self : Loader) (r : Outcome ReadError (Option InputMessage) × CsvReader)
      → load_round build tx_sx self ≡ after_read tx_sx self r
      → ((msg : InputMessage)
          → r.0 ≡ ok (some msg)
          → let self' = send (incoming msg tx_sx) (count (record self { reader = r.1 })) in
            Runs (load_round build tx_sx) self' (load_rows build tx_sx fuel self'))
      → Runs (load_round build tx_sx) self (after_next build tx_sx fuel self r)
  after_read-Runs fuel self (ok none, reader) e next_round = stops e
  after_read-Runs fuel self (ok (some msg), reader) e next_round = goes_on e (next_round msg refl)
  after_read-Runs fuel self (err _, reader) e next_round = stops e
  after_read-Runs fuel self (panicked, reader) e next_round = stops e

  load_rows-Runs :
      (fuel : ℕ) (self : Loader)
      → length (self.reader).records < fuel
      → Runs (load_round build tx_sx) self (load_rows build tx_sx fuel self)
  unfolding load_round
  load_rows-Runs zero self h = elim h [ ]
  load_rows-Runs (suc fuel) self h =
      subst (Runs (load_round build tx_sx) self) (sym (load_rows-next build tx_sx fuel self)) (
        after_read-Runs fuel self (next build self.reader) refl λ msg e.
          load_rows-Runs fuel
            (send (incoming msg tx_sx)
              (count (record self { reader = (next build self.reader).1 })))
            (omega (arith, next-Shorter build self.reader msg e)))

  -- The loop over the rows comes to an end, from any state of the loader: written without fuel,
  -- round by round until there is no row left or a row is bad, it ends where `load_rows` ends with
  -- any fuel above the number of the rows that are left, and nowhere else.
  pub load_rows-Runs_iff :
      (fuel : ℕ) (self : Loader) (r : Outcome ReadError ⊤ × Loader)
      → length (self.reader).records < fuel
      → Runs (load_round build tx_sx) self r ↔ (load_rows build tx_sx fuel self ≡ r)
  load_rows-Runs_iff fuel self r h =
      let run = load_rows-Runs fuel self h in
      (
        λ run'. Runs-unique (load_round build tx_sx) run run',
        λ e. subst (Runs (load_round build tx_sx) self) e run,
      )
