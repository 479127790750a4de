-- ===== src/Pipeline/Tasks/Reads.antt =====
-- What the loader (src/main.rs) has still to send, by what it reads next.
use nda_takehome.Base.{
  suc, ◌+◌, ◌^◌, ◌<◌, false, Option, none, some, List, [], ◌∷◌, length, ◌≡◌, refl, sym, ap, arith,
  subst,
}
use nda_takehome.Base.Outcome.{Outcome, ok, err, panicked, Build}
use nda_takehome.Message.{InputMessage}
use nda_takehome.Infrastructure.CsvReader.{RawInputMessage, CsvReader, ReadError, next, next_record}
use nda_takehome.Infrastructure.CsvReader.Rows.{scan, row_message, put_first, after_row}
use nda_takehome.Infrastructure.CsvReader.Next.{next_open, next-some, some_message}

-- The file is not at its end, and its positions fit into `u64`.
abbrev pub IsReading : CsvReader → Type 0
IsReading reader = (reader.done ≡ false) × (reader.chrono_order + length reader.records < 2 ^ 64)

-- What a call of `next` says of the rows that are left.
abbrev pub Reads : Build → CsvReader → Outcome ReadError (Option InputMessage) × CsvReader → Type 0
Reads build reader (ok none, after) = scan build reader.chrono_order reader.records ≡ ([], ok tt)
Reads build reader (ok (some msg), after) =
    (scan build reader.chrono_order reader.records
      ≡ put_first (ok msg) (scan build after.chrono_order after.records))
    × IsReading after
    × (suc (length after.records) ≡ length reader.records)
Reads build reader (err e, after) = scan build reader.chrono_order reader.records ≡ ([], err e)
Reads build reader (panicked, after) =
    scan build reader.chrono_order reader.records ≡ ([], panicked)

row-Reads :
    (build : Build) (row : RawInputMessage) (rows : List (Option RawInputMessage))
    (base : CsvReader) (result : Outcome ReadError InputMessage)
    → row_message build base.chrono_order row ≡ result
    → base.done ≡ false
    → base.chrono_order + length (some row ∷ rows) < 2 ^ 64
    → Reads build
        (record base { records = some row ∷ rows })
        (some_message result, after_row result (record base { records = rows }))
unfolding scan
row-Reads build row rows base (ok msg) e d h =
    (ap (λ r. put_first r (scan build (suc base.chrono_order) rows)) e, (d, omega arith), refl)
row-Reads build row rows base (err _) e d h =
    ap (λ r. put_first r (scan build (suc base.chrono_order) rows)) e
row-Reads build row rows base panicked e d h =
    ap (λ r. put_first r (scan build (suc base.chrono_order) rows)) e

next-Reads_of :
    (build : Build) (rows : List (Option RawInputMessage)) (base : CsvReader)
    → base.done ≡ false
    → base.chrono_order + length rows < 2 ^ 64
    → let reader = record base { records = rows } in Reads build reader (next build reader)
unfolding scan next_record
next-Reads_of build [] base d h =
    subst (Reads build (record base { records = [] }))
      (sym (next_open build (record base { records = [] }) d)) refl
next-Reads_of build (none ∷ rows) base d h =
    subst (Reads build (record base { records = none ∷ rows }))
      (sym (next_open build (record base { records = none ∷ rows }) d)) refl
next-Reads_of build (some row ∷ rows) base d h =
    subst (Reads build (record base { records = some row ∷ rows }))
      (sym (next-some build row rows base (omega arith) d))
      (row-Reads build row rows base (row_message build base.chrono_order row) refl d h)

pub next-Reads :
    (build : Build) (reader : CsvReader) → IsReading reader → Reads build reader (next build reader)
next-Reads build reader (d, h) = next-Reads_of build reader.records reader d h
