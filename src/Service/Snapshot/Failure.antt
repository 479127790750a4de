-- ===== src/Service/Snapshot/Failure.antt =====
-- `Service::write_snapshot` (src/service/mod.rs) into a sink that may fail.
pub mod Writing
use nda_takehome.Base.{
  ℕ, ◌+◌, ⊤, Option, some, List, [], ◌∷◌, ◌++◌, length, if◌then◌else◌, ◌≡◌, refl, ap, sym, ◌∙◌,
  arith, subst, append_assoc, append-nil,
}
use nda_takehome.Base.Action.{◌>>=◌, ◌>>◌, modify}
use nda_takehome.Base.Outcome.{Outcome, ok, err, panicked}
use nda_takehome.Collections.{HashMap}
use nda_takehome.Domain.Account.State.{Account}
use nda_takehome.Message.Output.{Field, from_account}
use nda_takehome.Infrastructure.CsvWriter.{
  Serializer, WriteError, header, message_row, header_failed, record_failed, flush_failed,
  with_context, write_header, write_message, flush,
}
use nda_takehome.Service.Snapshot.{
  Snapshot, SnapshotAction, with_writer, write_accounts, write_snapshot,
}
use nda_takehome.Service.Snapshot.Rows.{account_rows, locked_accounts}

-- A call of the serializer has written its record, or has failed and written no whole record.
abbrev pub Written :
    {W : Type 0} → (W → List (List Field)) → List Field → W → Outcome ⊤ ⊤ × W → Type 0
Written rows fields w (ok u, w') = rows w' ≡ rows w ++ fields ∷ []
Written rows fields w (err e, w') = rows w' ≡ rows w
Written rows fields w (panicked, w') = rows w' ≡ rows w

-- What a serializer is documented to do, also when its sink fails.
pub record IsHonest {W : Type 0} (serializer : Serializer W) (rows : W → List (List Field))
    : Type 0 where
  pub serialized :
      (fields : List Field) (w : W) → Written rows fields w (serializer.serialize fields w)
  pub flushed : (w : W) → rows (serializer.flush w).1 ≡ rows w

-- An outcome that says nothing.
abbrev pub Always : ⊤ → Type 0
Always _ = Unit

module _ {W : Type 0} (rows : W → List (List Field)) where
  abbrev pub SameGauges : Snapshot W → Snapshot W → Type 0
  SameGauges self self' =
      (self'.snapshot_accounts_written ≡ self.snapshot_accounts_written)
      × (self'.snapshot_accounts_locked ≡ self.snapshot_accounts_locked)

  -- Of the records `new`, the first ones have been written, and no gauge has been recorded.
  abbrev pub Cut : List (List Field) → Snapshot W → Snapshot W → Type 0
  Cut new self self' =
      (done : List (List Field)) × ((rest : List (List Field)) × ((done ++ rest ≡ new)
          × (rows self'.writer ≡ rows self.writer ++ done)
          × SameGauges self self'))

  -- All records `new` have been written, or the first ones.
  abbrev pub Adds :
      {A : Type 0}
      → (A → Type 0)
      → List (List Field)
      → Snapshot W
      → Outcome WriteError A × Snapshot W
      → Type 0
  Adds P new self (ok a, self') =
      P a × (rows self'.writer ≡ rows self.writer ++ new) × SameGauges self self'
  Adds P new self (err e, self') = Cut new self self'
  Adds P new self (panicked, self') = Cut new self self'

  -- What a snapshot leaves behind that has still to write `new`.
  abbrev pub Snaps :
      HashMap Account → List (List Field) → Snapshot W → Outcome WriteError ⊤ × Snapshot W → Type 0
  Snaps accounts new self (ok u, self') =
      (rows self'.writer ≡ rows self.writer ++ new)
      × (self'.snapshot_accounts_written ≡ some (length accounts))
      × (self'.snapshot_accounts_locked ≡ some (locked_accounts accounts))
  Snaps accounts new self (err e, self') = Cut new self self'
  Snaps accounts new self (panicked, self') = Cut new self self'

  Cut-more :
      (new more : List (List Field)) (self self' : Snapshot W)
      → Cut new self self'
      → Cut (new ++ more) self self'
  Cut-more new more self self' (done, (rest, (e, written, gauges))) = (
    done,
    (rest ++ more, (sym (append_assoc done rest more) ∙ ap (λ l. l ++ more) e, written, gauges)),
  )

  Cut-after :
      (new more : List (List Field)) (self self' self'' : Snapshot W)
      → rows self'.writer ≡ rows self.writer ++ new
      → SameGauges self self'
      → Cut more self' self''
      → Cut (new ++ more) self self''
  Cut-after new more self self' self'' first (g0, g1) (done, (rest, (e, written, (g0', g1')))) = (
    new ++ done,
    (
      rest,
      (
        append_assoc new done rest ∙ ap (λ l. new ++ l) e,
        written ∙ ap (λ l. l ++ done) first ∙ append_assoc (rows self.writer) new done,
        (g0' ∙ g0, g1' ∙ g1),
      ),
    ),
  )

  Adds-after :
      {A : Type 0} (P : A → Type 0) (new more : List (List Field)) (self self' : Snapshot W)
      (r : Outcome WriteError A × Snapshot W)
      → rows self'.writer ≡ rows self.writer ++ new
      → SameGauges self self'
      → Adds P more self' r
      → Adds P (new ++ more) self r
  Adds-after P new more self self' (ok a, self'') first (g0, g1) (p, next, (g0', g1')) = (
    p,
    next ∙ ap (λ l. l ++ more) first ∙ append_assoc (rows self.writer) new more,
    (g0' ∙ g0, g1' ∙ g1),
  )
  Adds-after P new more self self' (err e, self'') first gauges h =
      Cut-after new more self self' self'' first gauges h
  Adds-after P new more self self' (panicked, self'') first gauges h =
      Cut-after new more self self' self'' first gauges h

  pub Adds-bind :
      {A B : Type 0} (P : A → Type 0) (R : B → Type 0) (new more : List (List Field))
      (self : Snapshot W) (r : Outcome WriteError A × Snapshot W) (f : A → SnapshotAction W B)
      → Adds P new self r
      → ((a : A) (self' : Snapshot W) → P a → Adds R more self' (f a self'))
      → Adds R (new ++ more) self (((λ (_ : Snapshot W). r) >>= f) self)
  Adds-bind P R new more self (ok a, self') f (p, first, gauges) next =
      Adds-after R new more self self' (f a self') first gauges (next a self' p)
  Adds-bind P R new more self (err e, self') f h next = Cut-more new more self self' h
  Adds-bind P R new more self (panicked, self') f h next = Cut-more new more self self' h

  pub Written-Adds :
      (e : WriteError) (fields : List Field) (self : Snapshot W) (r : Outcome ⊤ ⊤ × W)
      → Written rows fields self.writer r
      → Adds Always (fields ∷ []) self (with_context e r.0, record self { writer = r.1 })
  Written-Adds e fields self (ok u, w) h = (tt, h, (refl, refl))
  Written-Adds e fields self (err f, w) h =
      ([], (fields ∷ [], (refl, h ∙ sym (append-nil (rows self.writer)), (refl, refl))))
  Written-Adds e fields self (panicked, w) h =
      ([], (fields ∷ [], (refl, h ∙ sym (append-nil (rows self.writer)), (refl, refl))))

  Snaps-after :
      (accounts : HashMap Account) (new more : List (List Field)) (self self' : Snapshot W)
      (r : Outcome WriteError ⊤ × Snapshot W)
      → rows self'.writer ≡ rows self.writer ++ new
      → SameGauges self self'
      → Snaps accounts more self' r
      → Snaps accounts (new ++ more) self r
  Snaps-after accounts new more self self' (ok u, self'') first gauges (next, n, locked) =
      (next ∙ ap (λ l. l ++ more) first ∙ append_assoc (rows self.writer) new more, n, locked)
  Snaps-after accounts new more self self' (err e, self'') first gauges h =
      Cut-after new more self self' self'' first gauges h
  Snaps-after accounts new more self self' (panicked, self'') first gauges h =
      Cut-after new more self self' self'' first gauges h

  pub Snaps-bind :
      {A : Type 0} (accounts : HashMap Account) (P : A → Type 0) (new more : List (List Field))
      (self : Snapshot W) (r : Outcome WriteError A × Snapshot W) (f : A → SnapshotAction W ⊤)
      → Adds P new self r
      → ((a : A) (self' : Snapshot W) → P a → Snaps accounts more self' (f a self'))
      → Snaps accounts (new ++ more) self (((λ (_ : Snapshot W). r) >>= f) self)
  Snaps-bind accounts P new more self (ok a, self') f (p, first, gauges) next =
      Snaps-after accounts new more self self' (f a self') first gauges (next a self' p)
  Snaps-bind accounts P new more self (err e, self') f h next = Cut-more new more self self' h
  Snaps-bind accounts P new more self (panicked, self') f h next = Cut-more new more self self' h
