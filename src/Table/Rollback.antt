-- ===== src/Table/Rollback.antt =====
-- trx.cpp and table.cpp: what a rollback undoes, and what it does not.
use mathlib.Core.Option
use oceanbase_jp.Prelude.{
  ℕ, ◌<◌, ◌^◌, ◌≡◌, ◌≢◌, refl, ◌∙◌, sym, inl, inr, false, ◌&&◌, Option, none, some, [], arith, ◌==◌,
  if◌then◌else◌, Option-cases,
}
use oceanbase_jp.Rc.{Rc, success}
use oceanbase_jp.Record.Page.{Rid}
use oceanbase_jp.Trx.{
  Row, OperationType, Operation, Operations, Trx, commit_row, is_on, start_if_not_started,
  set_record_trx_id, is_visible, init_trx_info,
}
use oceanbase_jp.Trx
use oceanbase_jp.Trx.Word.{get_record_trx_id-set_record_trx_id, is_visible-set_record_trx_id}
use oceanbase_jp.Trx.Operations.{logged, IsLog}
use oceanbase_jp.Trx.Steps.{
  Answers, after_update, after_delete, Logs, started, delete_record-Answers, update_record-Answers,
}
use oceanbase_jp.Table.{
  Rows, put, rid_of, rollback_operation, rollback, rollback_insert, rollback_update,
  rollback_delete, delete_record, update_record,
}
use oceanbase_jp.Table.Commit.{
  settle, Settles, for_operations-settle, Puts, Puts-Settles, put_same, commit_write-Puts,
}

-- Settling at a rollback.
abbrev pub rolled_back : OperationType → Option Row → Option Row
rolled_back OperationType.insert row = none
rolled_back OperationType.update row = row
rolled_back OperationType.delete row = Option.map commit_row row
rolled_back OperationType.undefined row = row

rollback_update-same : (w : Rows) (table : ℕ) (rid : Rid) → (rollback_update w table rid).1 ≡ w
unfolding rollback_update
rollback_update-same w table rid = ground arith

-- A transition that is not refused is made.
Answers-done :
    (after : Option OperationType → Option (Option OperationType)) (t : Trx) (table : ℕ) (rid : Rid)
    (rc : Rc) (t' : Trx) (o : Option OperationType)
    → after (logged t.operations table rid) ≡ some o
    → Answers after t table rid rc t'
    → (rc ≡ success) × Logs t table rid o t'
Answers-done after t table rid rc t' o e (inl (refused, _, _)) = ground (arith, sym refused ∙ e)
Answers-done after t table rid rc t' o e (inr (o', done, ok, logs)) =
    let same : o' ≡ o = ground arith in (ok, rw (← same) logs)

-- The log that an update makes of a record with no operation.
update_record-Logs :
    (t : Trx) (table : ℕ) (rid : Rid) (row : Row)
    → IsLog t.operations
    → logged t.operations table rid ≡ none
    → ((Trx.update_record t table rid row).0 ≡ success)
      × Logs t table rid (some OperationType.update) (Trx.update_record t table rid row).1
update_record-Logs t table rid row log free =
    Answers-done after_update t table rid _ _ (some OperationType.update) (rw free refl)
      (update_record-Answers t table rid row log).0

-- The log that a deletion makes of a record with no operation.
delete_record-Logs :
    (counter : ℕ) (t : Trx) (table : ℕ) (rid : Rid) (row : Row)
    → IsLog t.operations
    → logged t.operations table rid ≡ none
    → ((Trx.delete_record counter t table rid row).1 ≡ success)
      × Logs
          (started counter t)
          table
          rid
          (some OperationType.delete)
          (Trx.delete_record counter t table rid row).2
delete_record-Logs counter t table rid row log free =
    Answers-done after_delete (started counter t) table rid _ _ (some OperationType.delete)
      (unfold start_if_not_started in ground arith)
      (delete_record-Answers counter t table rid row log).0

-- What is put is there.
put_there : (w : Rows) (table : ℕ) (rid : Rid) (x : Option Row) → put w table rid x table rid ≡ x
unfolding put
put_there w table rid x = ground arith

module _ (delete_entries : ℕ → Row → Rid → Rc)
    (clean : (table : ℕ) (row : Row) (rid : Rid) → delete_entries table row rid ≡ success) where
  rollback_insert-Puts :
      (w : Rows) (table : ℕ) (rid : Rid)
      → Puts w table rid (λ _. none) (rollback_insert delete_entries w table rid).1
  unfolding rollback_insert
  rollback_insert-Puts w table rid = elim (Option-cases (w table rid)) [
    | inl e ↦ rw (e, rollback_insert) (put_same w table rid none e)
    | inr (row, e) ↦ λ u r. rw (e, rollback_insert, clean table row rid) refl
  ]

  rollback_operation-Settles : Settles (rollback_operation delete_entries) rolled_back
  unfolding rollback_operation
  rollback_operation-Settles rc w table op u r = go op.type refl
    where
      go :
          (type : OperationType)
          → op.type ≡ type
          → (rollback_operation delete_entries rc w table op).1 u r
            ≡ (if table == u && is_on op r then rolled_back op.type (w u r) else w u r)
      go OperationType.insert e =
          rw (e, rollback_operation)
            (Puts-Settles w table op (λ _. none) _ (rollback_insert-Puts w table (rid_of op)) u r)
      go OperationType.update e =
          rw (e, rollback_operation, rollback_update-same w table (rid_of op)) (ground arith)
      go OperationType.delete e =
          unfold rollback_delete in
          rw (e, rollback_operation)
            (Puts-Settles w table op (Option.map commit_row) _
              (commit_write-Puts w table (rid_of op)) u r)
      go OperationType.undefined e = ground arith

  -- Where the indexes let go of their entries, a rollback clears the log and the identifier, removes
  -- the rows whose insertion was logged, leaves updated rows as the update wrote them, clears the
  -- transaction field of the rows whose deletion was logged and that are still there, and leaves all
  -- other rows of all tables as they were.
  pub rollback-settle :
      (w : Rows) (t : Trx)
      → IsLog t.operations
      → ((rollback delete_entries w t).2.trx_id ≡ 0)
        × ((rollback delete_entries w t).2.operations ≡ [])
        × ((u : ℕ) (r : Rid)
            → (rollback delete_entries w t).1 u r
              ≡ settle rolled_back (logged t.operations u r) (w u r))
  unfolding rollback
  rollback-settle w t h = (
    refl,
    refl,
    λ u r.
        for_operations-settle (rollback_operation delete_entries) rolled_back
          rollback_operation-Settles success w t.operations u r h,
  )

module _ (delete_entries : ℕ → Row → Rid → Rc)
    (clean : (table : ℕ) (row : Row) (rid : Rid) → delete_entries table row rid ≡ success)
    (write_clog : OperationType → ℕ → ℕ → Rid → Rc) where
  update_record_at :
      (w : Rows) (t : Trx) (table : ℕ) (rid : Rid) (old new : Row)
      → w table rid ≡ some old
      → (Trx.update_record t table rid (init_trx_info t new)).0 ≡ success
      → let t' = (Trx.update_record t table rid (init_trx_info t new)).1 in
        update_record write_clog w t table rid new ≡ (
          write_clog OperationType.update t'.trx_id table rid,
          put w table rid (some (init_trx_info t new)),
          t',
        )
  unfolding update_record
  update_record_at w t table rid old new present ok = rw (present, update_record, ok) refl

  delete_record_at :
      (w : Rows) (counter : ℕ) (t : Trx) (table : ℕ) (rid : Rid) (old : Row)
      → w table rid ≡ some old
      → let t' = (Trx.delete_record counter t table rid old).2 in
        delete_record write_clog delete_entries w counter t table rid old ≡ (
          write_clog OperationType.delete t'.trx_id table rid,
          put w table rid none,
          t',
          (Trx.delete_record counter t table rid old).0,
        )
  unfolding delete_record
  delete_record_at w counter t table rid old present =
      rw (clean table old rid, present, delete_record) refl

  -- Where the indexes let go of their entries: an update that a transaction with an identifier below
  -- 2 ^ 31 makes to a row for which it has logged nothing, and then rolls back, stays. The row has
  -- the new fields, and no reader with another identifier sees it.
  pub update_record-rollback :
      (w : Rows) (t reader : Trx) (table : ℕ) (rid : Rid) (old new : Row)
      → 0 < t.trx_id
      → t.trx_id < 2 ^ 31
      → IsLog t.operations
      → logged t.operations table rid ≡ none
      → w table rid ≡ some old
      → reader.trx_id ≢ t.trx_id
      → let (rc, w1, t1) = update_record write_clog w t table rid new in
        let (rc', w2, t2) = rollback delete_entries w1 t1 in
        (rc ≡ write_clog OperationType.update t.trx_id table rid)
        × (w2 table rid ≡ some (init_trx_info t new))
        × ((init_trx_info t new).fields ≡ new.fields)
        × (is_visible reader (init_trx_info t new) ≡ false)
  unfolding init_trx_info
  update_record-rollback w t reader table rid old new pos small log free present other =
      let m = init_trx_info t new in
      let done = update_record-Logs t table rid m log free in
      let t' = (Trx.update_record t table rid m).1 in
      rw (update_record_at w t table rid old new present done.0) (
        rw done.1.same_id refl,
        (rollback-settle delete_entries clean (put w table rid (some m)) t' done.1.log).2 table rid
            ∙ rw (done.1.logs table rid) (ground (arith, put_there w table rid (some m))),
        (get_record_trx_id-set_record_trx_id new t.trx_id false small).1,
        (is_visible-set_record_trx_id t reader new false pos small).1 other,
      )

  -- Where the indexes let go of their entries: a deletion of a row for which the transaction has
  -- logged nothing, when it is rolled back, leaves the row gone.
  pub delete_record-rollback :
      (w : Rows) (counter : ℕ) (t : Trx) (table : ℕ) (rid : Rid) (old : Row)
      → IsLog t.operations
      → logged t.operations table rid ≡ none
      → w table rid ≡ some old
      → let (rc, w1, t1, counter') =
          delete_record write_clog delete_entries w counter t table rid old in
        let (rc', w2, t2) = rollback delete_entries w1 t1 in
        (rc ≡ write_clog OperationType.delete (started counter t).trx_id table rid)
        × (w2 table rid ≡ none)
  delete_record-rollback w counter t table rid old log free present =
      let done = delete_record-Logs counter t table rid old log free in
      let t' = (Trx.delete_record counter t table rid old).2 in
      rw (delete_record_at w counter t table rid old present) (
        rw done.1.same_id refl,
        (rollback-settle delete_entries clean (put w table rid none) t' done.1.log).2 table rid
            ∙ rw (done.1.logs table rid) (ground (arith, put_there w table rid none)),
      )
