-- ===== src/Tests/Trx.antt =====
-- trx.cpp and table.cpp at concrete transactions.
use oceanbase_jp.Prelude.{ℕ, ◌≡◌, ◌≢◌, refl, true, false, none, some, [], ◌∷◌, arith}
use oceanbase_jp.Rc.{Rc, success}
use oceanbase_jp.Record.Page.{Rid}
use oceanbase_jp.Trx.{
  Row, OperationType, Operation, Operations, Trx, operation, get_record_trx_id, set_record_trx_id,
  is_visible, commit_row, init_trx_info, insert_record,
}
use oceanbase_jp.Trx
use oceanbase_jp.Trx.Word.{is_visible-set_record_trx_id}
use oceanbase_jp.Trx.Operations.{IsLog, logged}
use oceanbase_jp.Trx.Steps.{Answers, after_insert, insert_record-Answers}
use oceanbase_jp.Table.{Rows, commit, rollback, update_record, delete_record}
use oceanbase_jp.Table.Commit.{settle, committed, commit-settle}
use oceanbase_jp.Table.Rollback.{
  rolled_back, rollback-settle, update_record-rollback, delete_record-rollback,
}

abbrev first : Rid
first = record { page_num = 1; slot_num = 0 }

abbrev second : Rid
second = record { page_num = 1; slot_num = 1 }

abbrev old_row : Row
old_row = record { trx = 0; fields = 7 ∷ [] }

abbrev new_row : Row
new_row = record { trx = 0; fields = 8 ∷ [] }

-- A transaction that has inserted the first record of table 5 and deleted the second.
abbrev busy : Trx
busy = record {
  trx_id = 3;
  operations =
      (5, operation OperationType.insert first ∷ operation OperationType.delete second ∷ []) ∷ [];
}

busy-IsLog : IsLog busy.operations
busy-IsLog = (((refl, tt), (tt, tt)), tt, tt)

-- A transaction that has done nothing yet.
abbrev fresh : Trx
fresh = record { trx_id = 3; operations = [] }

abbrev other : Trx
other = record { trx_id = 4; operations = [] }

abbrev full : Rows
full table rid = some old_row

abbrev no_indexes : ℕ → Row → Rid → Rc
no_indexes table row rid = success

abbrev writes : OperationType → ℕ → ℕ → Rid → Rc
writes type id table rid = success

is_visible-set_record_trx_id_example :
    (is_visible fresh (set_record_trx_id old_row 3 false) ≡ true)
    × (other.trx_id ≢ fresh.trx_id → is_visible other (set_record_trx_id old_row 3 false) ≡ false)
is_visible-set_record_trx_id_example =
    is_visible-set_record_trx_id fresh other old_row false (ground arith) (ground arith)

insert_record-Answers_example :
    Answers after_insert busy 5 second
      (Trx.insert_record busy 5 second).0
      (Trx.insert_record busy 5 second).1
insert_record-Answers_example = insert_record-Answers busy 5 second busy-IsLog

commit-settle_example :
    ((commit no_indexes full busy).2.trx_id ≡ 0)
    × ((commit no_indexes full busy).2.operations ≡ [])
    × ((u : ℕ) (r : Rid)
        → (commit no_indexes full busy).1 u r
          ≡ settle committed (logged busy.operations u r) (full u r))
commit-settle_example = commit-settle no_indexes full busy busy-IsLog

rollback-settle_example :
    ((rollback no_indexes full busy).2.trx_id ≡ 0)
    × ((rollback no_indexes full busy).2.operations ≡ [])
    × ((u : ℕ) (r : Rid)
        → (rollback no_indexes full busy).1 u r
          ≡ settle rolled_back (logged busy.operations u r) (full u r))
rollback-settle_example = rollback-settle no_indexes (λ table row rid. refl) full busy busy-IsLog

update_record-rollback_example :
    let (rc, w1, t1) = update_record writes full fresh 5 first new_row in
    let (rc', w2, t2) = rollback no_indexes w1 t1 in
    (rc ≡ success)
    × (w2 5 first ≡ some (init_trx_info fresh new_row))
    × ((init_trx_info fresh new_row).fields ≡ new_row.fields)
    × (is_visible other (init_trx_info fresh new_row) ≡ false)
unfolding logged
update_record-rollback_example =
    update_record-rollback no_indexes (λ table row rid. refl) writes full fresh other 5 first
      old_row new_row (ground arith) (ground arith) tt refl refl (ground arith)

delete_record-rollback_example :
    let (rc, w1, t1, counter) = delete_record writes no_indexes full 9 fresh 5 first old_row in
    let (rc', w2, t2) = rollback no_indexes w1 t1 in (rc ≡ success) × (w2 5 first ≡ none)
unfolding logged
delete_record-rollback_example =
    delete_record-rollback no_indexes (λ table row rid. refl) writes full 9 fresh 5 first old_row tt
      refl refl
