-- ===== src/Table.antt =====
-- src/observer/storage/common/table.cpp: what a table does to its rows when a transaction ends,
-- and the update and the deletion of a row with a transaction; and the ends of a transaction in
-- trx.cpp. `Rows` is what the record files of all tables show. A record that is not there is
-- answered with RECORD_RECORD_NOT_EXIST: the other answer of the record files is for slot numbers
-- that no record ever had. The indexes of a table are not part of this model; what
-- `delete_entry_of_indexes` returns is a parameter.
pub mod Commit
pub mod Rollback
use oceanbase_jp.Prelude.{
  ℕ, Bool, true, false, ◌&&◌, Option, none, some, List, [], ◌∷◌, ◌==◌, if◌then◌else◌,
}
use oceanbase_jp.Rc.{Rc, success, record_record_not_exist}
use oceanbase_jp.Record.Page.{Rid}
use oceanbase_jp.Trx.{
  Row, OperationType, Operation, OperationSet, Operations, Trx, commit_row, init_trx_info,
}
use oceanbase_jp.Trx
use oceanbase_jp.Trx.Operations.{rid_eq}

abbrev pub Rows : Type 0
Rows = ℕ → Rid → Option Row

unfoldable pub put : Rows → ℕ → Rid → Option Row → Rows
put w table rid row t r = if table == t && rid_eq rid r then row else w t r

abbrev pub rid_of : Operation → Rid
rid_of op = record { page_num = op.page_num; slot_num = op.slot_num }

-- commit_insert and commit_update: the row's transaction field is cleared in place.
unfoldable pub commit_write : Rows → ℕ → Rid → Rc × Rows
commit_write w table rid = elim (w table rid) [
  | none ↦ (record_record_not_exist, w)
  | some row ↦ (success, put w table rid (some (commit_row row)))
]

-- rollback_delete does the same.
unfoldable pub rollback_delete : Rows → ℕ → Rid → Rc × Rows
unfolding commit_write
rollback_delete w table rid = commit_write w table rid

-- rollback_update reads the row and does no more.
unfoldable pub rollback_update : Rows → ℕ → Rid → Rc × Rows
rollback_update w table rid = elim (w table rid) [
  | none ↦ (record_record_not_exist, w)
  | some row ↦ (success, w)
]

-- What writing the log record of a change returns: `write_clog type transaction table rid`, the code
-- of clog_gen_record or, where that succeeds, of clog_append_record.
module _ (write_clog : OperationType → ℕ → ℕ → Rid → Rc) where
  -- Table::delete_record with a transaction: the record leaves its page before the transaction logs
  -- the deletion, and what that returns is not looked at. The last part is the counter of
  -- transactions.
  unfoldable pub delete_record :
      (ℕ → Row → Rid → Rc) → Rows → ℕ → Trx → ℕ → Rid → Row → Rc × Rows × Trx × ℕ
  delete_record delete_entries w counter t table rid row = elim (delete_entries table row rid) [
    | success ↦ elim (w table rid) [
      | none ↦ (record_record_not_exist, w, t, counter)
      | some _ ↦
          let (counter', rc, t', row') = Trx.delete_record counter t table rid row in
          (write_clog OperationType.delete t'.trx_id table rid, put w table rid none, t', counter')
    ]
    | rc ↦ (rc, w, t, counter)
  ]

  -- Table::update_record with a transaction: the row is marked and written over the old one before
  -- the transaction logs the update. What the indexes return is not looked at.
  unfoldable pub update_record : Rows → Trx → ℕ → Rid → Row → Rc × Rows × Trx
  update_record w t table rid row =
      let marked = init_trx_info t row in
      elim (w table rid) [
        | none ↦ (record_record_not_exist, w, t)
        | some _ ↦
            let (rc, t', row') = Trx.update_record t table rid marked in
            let w' = put w table rid (some marked) in
            elim rc [
              | success ↦ (write_clog OperationType.update t'.trx_id table rid, w', t')
              | rc ↦ (rc, w', t')
            ]
      ]

module _ (delete_entries : ℕ → Row → Rid → Rc) where
  -- A failure of the indexes is logged, and the record is deleted.
  unfoldable pub commit_delete : Rows → ℕ → Rid → Rc × Rows
  commit_delete w table rid = elim (w table rid) [
    | none ↦ (record_record_not_exist, w)
    | some row ↦ (success, put w table rid none)
  ]

  -- A failure of the indexes is returned, and the record stays.
  unfoldable pub rollback_insert : Rows → ℕ → Rid → Rc × Rows
  rollback_insert w table rid = elim (w table rid) [
    | none ↦ (record_record_not_exist, w)
    | some row ↦ elim (delete_entries table row rid) [
      | success ↦ (success, put w table rid none)
      | rc ↦ (rc, w)
    ]
  ]

  -- The switch in the loop of Trx::commit; an unknown type is only logged, and keeps the code.
  unfoldable pub commit_operation : Rc → Rows → ℕ → Operation → Rc × Rows
  unfolding commit_write commit_delete
  commit_operation rc w table op = elim op.type [
    | OperationType.insert ↦ commit_write w table (rid_of op)
    | OperationType.update ↦ commit_write w table (rid_of op)
    | OperationType.delete ↦ commit_delete w table (rid_of op)
    | OperationType.undefined ↦ (rc, w)
  ]

  -- The switch in the loop of Trx::rollback.
  unfoldable pub rollback_operation : Rc → Rows → ℕ → Operation → Rc × Rows
  unfolding rollback_insert rollback_update rollback_delete
  rollback_operation rc w table op = elim op.type [
    | OperationType.insert ↦ rollback_insert w table (rid_of op)
    | OperationType.update ↦ rollback_update w table (rid_of op)
    | OperationType.delete ↦ rollback_delete w table (rid_of op)
    | OperationType.undefined ↦ (rc, w)
  ]

-- The two loops of Trx::commit and Trx::rollback, which differ in the switch. Each step's code
-- replaces the one before.
module _ (step : Rc → Rows → ℕ → Operation → Rc × Rows) where
  unfoldable pub for_set : Rc → Rows → ℕ → OperationSet → Rc × Rows
  for_set rc w table [] = (rc, w)
  for_set rc w table (op ∷ ops) = let (rc', w') = step rc w table op in for_set rc' w' table ops

  unfoldable pub for_operations : Rc → Rows → Operations → Rc × Rows
  unfolding for_set
  for_operations rc w [] = (rc, w)
  for_operations rc w ((table, ops) ∷ rest) =
      let (rc', w') = for_set rc w table ops in for_operations rc' w' rest

-- `operations_.clear(); trx_id_ = 0;`
abbrev ended : Trx
ended = record { trx_id = 0; operations = [] }

module _ (delete_entries : ℕ → Row → Rid → Rc) where
  unfoldable pub commit : Rows → Trx → Rc × Rows × Trx
  unfolding for_operations commit_operation
  commit w t =
      let (rc, w') = for_operations (commit_operation delete_entries) success w t.operations in
      (rc, w', ended)

  unfoldable pub rollback : Rows → Trx → Rc × Rows × Trx
  unfolding for_operations rollback_operation
  rollback w t =
      let (rc, w') = for_operations (rollback_operation delete_entries) success w t.operations in
      (rc, w', ended)
