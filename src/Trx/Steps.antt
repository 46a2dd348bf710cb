-- ===== src/Trx/Steps.antt =====
-- trx.cpp: Trx::insert_record, update_record and delete_record as steps on the operation that is
-- logged for a record.
use oceanbase_jp.Prelude.{
  ℕ, ◌≡◌, ◌⊎◌, inl, inr, refl, ◌∙◌, true, false, ◌&&◌, Option, none, some, arith, ◌==◌,
  if◌then◌else◌, Bool-cases,
}
use oceanbase_jp.Rc.{Rc, success, generic_error}
use oceanbase_jp.Record.Page.{Rid}
use oceanbase_jp.Trx.{
  Row, OperationType, Trx, insert_operation, delete_operation, insert_record, update_record,
  delete_record, start_if_not_started, log_update, set_record_trx_id,
}
use oceanbase_jp.Trx.Operations.{
  rid_eq, logged, IsLog, or_type, logged-insert_operation, logged-delete_operation,
  insert_operation-IsLog, delete_operation-IsLog,
}

-- The operation that is logged after a call, by the one that was logged before; `none` outside says
-- that the call is refused.
abbrev pub after_insert : Option OperationType → Option (Option OperationType)
after_insert none = some (some OperationType.insert)
after_insert (some OperationType.delete) = some (some OperationType.insert)
after_insert (some _) = none

abbrev pub after_update : Option OperationType → Option (Option OperationType)
after_update none = some (some OperationType.update)
after_update (some OperationType.update) = some (some OperationType.update)
after_update (some OperationType.insert) = some (some OperationType.insert)
after_update (some _) = none

abbrev pub after_delete : Option OperationType → Option (Option OperationType)
after_delete none = some (some OperationType.delete)
after_delete (some OperationType.insert) = some none
after_delete (some _) = none

-- `t'` logs `o` for the record and for all others what `t` logs.
pub record Logs (t : Trx) (table : ℕ) (rid : Rid) (o : Option OperationType) (t' : Trx)
    : Type 0 where
  pub same_id : t'.trx_id ≡ t.trx_id
  pub log : IsLog t'.operations
  pub logs :
      (u : ℕ) (r : Rid)
      → logged t'.operations u r
        ≡ (if table == u && rid_eq rid r then o else logged t.operations u r)

-- A call answers by the transition: refused, with nothing changed, or done.
abbrev pub Answers :
    (Option OperationType → Option (Option OperationType)) → Trx → ℕ → Rid → Rc → Trx → Type 0
Answers after t table rid rc t' =
    ((after (logged t.operations table rid) ≡ none) × (rc ≡ generic_error) × (t' ≡ t))
    ⊎ ((o : Option OperationType) × (after (logged t.operations table rid) ≡ some o)
        × (rc ≡ success)
        × Logs t table rid o t')

-- At the record that is meant, a function of table and record has the value that it has there.
if_at {ℓ} :
    {X : Type ℓ} (table : ℕ) (rid : Rid) (u : ℕ) (r : Rid) (f : ℕ → Rid → X) (g : X → X)
    → (if table == u && rid_eq rid r then g (f u r) else f u r)
      ≡ (if table == u && rid_eq rid r then g (f table rid) else f u r)
if_at table rid u r f g = elim (Bool-cases (table == u && rid_eq rid r)) [
  | inr e ↦ rw e
  | inl e ↦
      let same_table : table ≡ u = ground arith in
      let same_rid : rid ≡ r = ground arith in rw (same_table, same_rid) refl
]

module _ (t : Trx) (table : ℕ) (rid : Rid) (log : IsLog t.operations) where
  -- A new operation on the record.
  added :
      (type : OperationType)
      → Logs t table rid
          (some (or_type (logged t.operations table rid) type))
          (record t { operations = insert_operation t.operations table type rid })
  added type = record {
    same_id = refl;
    log = insert_operation-IsLog t.operations table type rid log;
    logs = λ u r.
        logged-insert_operation t.operations table type rid u r
        ∙ if_at table rid u r (logged t.operations) (λ o. some (or_type o type));
  }

  -- A new operation in the place of the one that was there.
  replaced :
      (type : OperationType)
      → Logs t table rid (some type) (record t {
        operations = insert_operation (delete_operation t.operations table rid) table type rid;
      })
  replaced type = record {
    same_id = refl;
    log =
        insert_operation-IsLog _ table type rid (delete_operation-IsLog t.operations table rid log);
    logs = λ u r. ground (
      arith,
      logged-insert_operation (delete_operation t.operations table rid) table type rid u r,
      logged-delete_operation t.operations table rid u r log,
    );
  }

  removed :
      Logs t table rid none (record t { operations = delete_operation t.operations table rid })
  removed = record {
    same_id = refl;
    log = delete_operation-IsLog t.operations table rid log;
    logs = λ u r. logged-delete_operation t.operations table rid u r log;
  }

  insert_by : Option OperationType → Rc × Trx
  insert_by none = (
    success,
    record t { operations = insert_operation t.operations table OperationType.insert rid },
  )
  insert_by (some OperationType.delete) = (
    success,
    record t {
      operations =
          insert_operation (delete_operation t.operations table rid) table OperationType.insert rid;
    },
  )
  insert_by (some _) = (generic_error, t)

  insert_record_by : insert_record t table rid ≡ insert_by (logged t.operations table rid)
  unfolding insert_record insert_by logged
  insert_record_by = ground arith

  -- Trx::insert_record: an insertion is logged for a record with no operation or with a deletion,
  -- which it replaces; otherwise the call is refused. Nothing else changes in the log.
  pub insert_record-Answers :
      Answers after_insert t table rid (insert_record t table rid).0 (insert_record t table rid).1
  insert_record-Answers = rw insert_record_by (go (logged t.operations table rid) refl)
    where
      go :
          (o : Option OperationType)
          → logged t.operations table rid ≡ o
          → Answers after_insert t table rid (insert_by o).0 (insert_by o).1
      go none e =
          unfold insert_by in
          rw e (inr (some OperationType.insert, refl, refl, rw e at (added OperationType.insert)))
      go (some OperationType.insert) e = unfold insert_by in rw e (inl (refl, refl, refl))
      go (some OperationType.update) e = unfold insert_by in rw e (inl (refl, refl, refl))
      go (some OperationType.delete) e =
          unfold insert_by in
          rw e (inr (some OperationType.insert, refl, refl, replaced OperationType.insert))
      go (some OperationType.undefined) e = unfold insert_by in rw e (inl (refl, refl, refl))

-- The row after an update: marked with the transaction, or as it was where the call is refused.
abbrev pub marked : Trx → Row → Rc → Row
marked t row success = set_record_trx_id row t.trx_id false
marked t row _ = row

module _ (t : Trx) (table : ℕ) (rid : Rid) (row : Row) (log : IsLog t.operations) where
  update_by : Option OperationType → Rc × Trx × Row
  unfolding log_update
  update_by none = log_update t t.operations table rid row
  update_by (some OperationType.update) =
      log_update t (delete_operation t.operations table rid) table rid row
  update_by (some OperationType.insert) = log_update t t.operations table rid row
  update_by (some _) = (generic_error, t, row)

  update_record_by : update_record t table rid row ≡ update_by (logged t.operations table rid)
  unfolding update_record update_by logged
  update_record_by = ground arith

  -- Trx::update_record: an update is logged for a record with no operation or with an update, and an
  -- insertion stays an insertion; the row is marked with the transaction. After a deletion the call
  -- is refused. Nothing else changes in the log.
  pub update_record-Answers :
      Answers after_update t table rid
        (update_record t table rid row).0
        (update_record t table rid row).1
      × ((update_record t table rid row).2 ≡ marked t row (update_record t table rid row).0)
  update_record-Answers = rw update_record_by (go (logged t.operations table rid) refl)
    where
      go :
          (o : Option OperationType)
          → logged t.operations table rid ≡ o
          → Answers after_update t table rid (update_by o).0 (update_by o).1
            × ((update_by o).2 ≡ marked t row (update_by o).0)
      go none e =
          unfold update_by in
          rw e (
            inr (
              some OperationType.update,
              refl,
              refl,
              rw e at (added t table rid log OperationType.update),
            ),
            refl,
          )
      go (some OperationType.insert) e =
          unfold update_by in
          rw e (
            inr (
              some OperationType.insert,
              refl,
              refl,
              rw e at (added t table rid log OperationType.update),
            ),
            refl,
          )
      go (some OperationType.update) e =
          unfold update_by in
          rw e (
            inr (
              some OperationType.update,
              refl,
              refl,
              replaced t table rid log OperationType.update,
            ),
            refl,
          )
      go (some OperationType.delete) e = unfold update_by in rw e (inl (refl, refl, refl), refl)
      go (some OperationType.undefined) e = unfold update_by in rw e (inl (refl, refl, refl), refl)

-- The transaction of `delete_record` is started first if it has no identifier.
abbrev pub started : ℕ → Trx → Trx
started counter t = (start_if_not_started counter t).1

-- The row after a deletion: marked if the record had no operation, and as it was otherwise.
abbrev pub marked_deleted : Trx → Row → Option OperationType → Row
marked_deleted t row none = set_record_trx_id row t.trx_id true
marked_deleted t row (some _) = row

module _ (st : Trx) (table : ℕ) (rid : Rid) (row : Row) where
  delete_by : Option OperationType → Rc × Trx × Row
  delete_by none = (
    success,
    record st { operations = insert_operation st.operations table OperationType.delete rid },
    set_record_trx_id row st.trx_id true,
  )
  delete_by (some OperationType.insert) =
      (success, record st { operations = delete_operation st.operations table rid }, row)
  delete_by (some _) = (generic_error, st, row)

  delete_by-Answers :
      IsLog st.operations
      → (o : Option OperationType) → logged st.operations table rid ≡ o
      → Answers after_delete st table rid (delete_by o).0 (delete_by o).1
        × ((delete_by o).2 ≡ marked_deleted st row o)
  unfolding delete_by
  delete_by-Answers log none e = rw e (
    inr (
      some OperationType.delete,
      refl,
      refl,
      rw e at (added st table rid log OperationType.delete),
    ),
    refl,
  )
  delete_by-Answers log (some OperationType.insert) e =
      rw e (inr (none, refl, refl, removed st table rid log), refl)
  delete_by-Answers log (some OperationType.update) e = rw e (inl (refl, refl, refl), refl)
  delete_by-Answers log (some OperationType.delete) e = rw e (inl (refl, refl, refl), refl)
  delete_by-Answers log (some OperationType.undefined) e = rw e (inl (refl, refl, refl), refl)

module _ (counter : ℕ) (t : Trx) (table : ℕ) (rid : Rid) (row : Row) where
  started-IsLog : IsLog t.operations → IsLog (started counter t).operations
  unfolding start_if_not_started
  started-IsLog log = ground arith

  -- The result without the counter.
  deleted : Rc × Trx × Row
  unfolding delete_by logged
  deleted =
      delete_by (started counter t) table rid row (logged (started counter t).operations table rid)

  delete_record_by :
      delete_record counter t table rid row
      ≡ ((start_if_not_started counter t).0, deleted.0, deleted.1, deleted.2)
  unfolding delete_record deleted
  delete_record_by = ground arith

  -- Trx::delete_record: the transaction is started if it has no identifier. A deletion is logged for
  -- a record with no operation, and its row is marked as deleted; the transaction's own insertion is
  -- taken off the log, and the row stays as it was. After an update or a deletion the call is
  -- refused. Nothing else changes in the log.
  pub delete_record-Answers :
      IsLog t.operations
      → let r = delete_record counter t table rid row in
        let st = started counter t in
        Answers after_delete st table rid r.1 r.2
        × (r.3 ≡ marked_deleted st row (logged st.operations table rid))
  delete_record-Answers log = rw delete_record_by (
      unfold deleted in
      delete_by-Answers (started counter t) table rid row (started-IsLog log)
        (logged (started counter t).operations table rid) refl)
