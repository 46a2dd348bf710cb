-- ===== src/Trx.antt =====
-- src/observer/storage/trx/trx.cpp and trx.h: transactions, the operations that they log, and what a
-- row shows to whom. The transaction field of a row (an int32_t at the offset that the table's meta
-- data gives) is its bit pattern; the other fields are left alone and stay one list. A table is a
-- number. The sets of operations are unordered in the source; here they keep an order, and every
-- statement about them holds for each.
pub mod Word
pub mod Operations
pub mod Steps
use oceanbase_jp.Prelude.{
  ℕ, ◌+◌, ◌-◌, ◌%◌, ◌^◌, Bool, true, false, not, ◌&&◌, ◌||◌, Option, none, some, List, [], ◌∷◌, leb,
  ◌==◌, if◌then◌else◌,
}
use oceanbase_jp.Rc.{Rc, success, generic_error}
use oceanbase_jp.Record.Page.{Rid}

pub record Row : Type 0 where
  pub trx : ℕ
  pub fields : List ℕ

pub data OperationType : Type 0 where
  insert update delete undefined : OperationType

pub record Operation : Type 0 where
  pub type : OperationType
  pub page_num : ℕ
  pub slot_num : ℕ

abbrev pub OperationSet : Type 0
OperationSet = List Operation

abbrev pub Operations : Type 0
Operations = List (ℕ × OperationSet)

pub record Trx : Type 0 where
  pub trx_id : ℕ
  pub operations : Operations

-- OperationEqualer, at an operation and a record identifier.
abbrev pub is_on : Operation → Rid → Bool
is_on op rid = op.page_num == rid.page_num && op.slot_num == rid.slot_num

abbrev pub operation : OperationType → Rid → Operation
operation type rid = record { type = type; page_num = rid.page_num; slot_num = rid.slot_num }

-- `++trx_id` on the shared counter.
unfoldable pub next_trx_id : ℕ → ℕ
next_trx_id counter = (counter + 1) % 2 ^ 32

-- The new counter, and the transaction.
unfoldable pub start_if_not_started : ℕ → Trx → ℕ × Trx
start_if_not_started counter t =
    if t.trx_id == 0
    then (next_trx_id counter, record t { trx_id = next_trx_id counter })
    else (counter, t)

unfoldable pub next_current_id : ℕ → Trx → ℕ × Trx
next_current_id counter t = (next_trx_id counter, record t { trx_id = next_trx_id counter })

-- `trx_id |= 0x80000000` if the row is to be marked as deleted.
unfoldable pub set_record_trx_id : Row → ℕ → Bool → Row
set_record_trx_id row id deleted = record row {
  trx = if deleted && not (leb (2 ^ 31) id) then id + 2 ^ 31 else id;
}

-- `trx & 0x7FFFFFFF`, and `(trx & 0x80000000) != 0`.
unfoldable pub get_record_trx_id : Row → ℕ × Bool
get_record_trx_id row = (row.trx % 2 ^ 31, leb (2 ^ 31) row.trx)

unfoldable pub is_visible : Trx → Row → Bool
is_visible t row =
    let (record_trx_id, record_deleted) = get_record_trx_id row in
    if record_trx_id == 0 || record_trx_id == t.trx_id then not record_deleted else record_deleted

unfoldable pub init_trx_info : Trx → Row → Row
init_trx_info t row = set_record_trx_id row t.trx_id false

-- commit_insert, commit_update and rollback_delete have one body.
unfoldable pub commit_row : Row → Row
commit_row row = set_record_trx_id row 0 false

find_in_set : OperationSet → Rid → Option Operation
find_in_set [] rid = none
find_in_set (op ∷ ops) rid = if is_on op rid then some op else find_in_set ops rid

unfoldable pub find_operation : Operations → ℕ → Rid → Option Operation
unfolding find_in_set
find_operation [] table rid = none
find_operation ((t, ops) ∷ rest) table rid =
    if t == table then find_in_set ops rid else find_operation rest table rid

-- `emplace` leaves the set alone if it has an operation on the record.
emplace : OperationSet → OperationType → Rid → OperationSet
emplace [] type rid = operation type rid ∷ []
emplace (op ∷ ops) type rid = if is_on op rid then op ∷ ops else op ∷ emplace ops type rid

-- `operations_[table]` makes an empty set for a table that has none.
unfoldable pub insert_operation : Operations → ℕ → OperationType → Rid → Operations
unfolding emplace
insert_operation [] table type rid = (table, operation type rid ∷ []) ∷ []
insert_operation ((t, ops) ∷ rest) table type rid =
    if t == table
    then (t, emplace ops type rid) ∷ rest
    else (t, ops) ∷ insert_operation rest table type rid

erase : OperationSet → Rid → OperationSet
erase [] rid = []
erase (op ∷ ops) rid = if is_on op rid then ops else op ∷ erase ops rid

unfoldable pub delete_operation : Operations → ℕ → Rid → Operations
unfolding erase
delete_operation [] table rid = []
delete_operation ((t, ops) ∷ rest) table rid =
    if t == table then (t, erase ops rid) ∷ rest else (t, ops) ∷ delete_operation rest table rid

-- Logs an insertion of the record.
unfoldable pub insert_record : Trx → ℕ → Rid → Rc × Trx
insert_record t table rid = elim (find_operation t.operations table rid) [
  | none ↦ (
    success,
    record t { operations = insert_operation t.operations table OperationType.insert rid },
  )
  | some old ↦ elim old.type [
    | OperationType.delete ↦ (
      success,
      record t {
        operations =
            insert_operation (delete_operation t.operations table rid) table OperationType.insert
              rid;
      },
    )
    | _ ↦ (generic_error, t)
  ]
]

-- The end of `update_record`, with the log that it goes on from.
log_update : Trx → Operations → ℕ → Rid → Row → Rc × Trx × Row
log_update t ops table rid row = (
  success,
  record t { operations = insert_operation ops table OperationType.update rid },
  set_record_trx_id row t.trx_id false,
)

-- Logs an update, and marks the row with the transaction.
unfoldable pub update_record : Trx → ℕ → Rid → Row → Rc × Trx × Row
unfolding log_update
update_record t table rid row = elim (find_operation t.operations table rid) [
  | none ↦ log_update t t.operations table rid row
  | some old ↦ elim old.type [
    | OperationType.update ↦ log_update t (delete_operation t.operations table rid) table rid row
    | OperationType.insert ↦ log_update t t.operations table rid row
    | _ ↦ (generic_error, t, row)
  ]
]

-- Logs a deletion and marks the row, or takes the transaction's own insertion back. The first part
-- is the counter.
unfoldable pub delete_record : ℕ → Trx → ℕ → Rid → Row → ℕ × Rc × Trx × Row
delete_record counter t table rid row =
    let (counter', t') = start_if_not_started counter t in
    elim (find_operation t'.operations table rid) [
      | none ↦ (
        counter',
        success,
        record t' { operations = insert_operation t'.operations table OperationType.delete rid },
        set_record_trx_id row t'.trx_id true,
      )
      | some old ↦ elim old.type [
        | OperationType.insert ↦ (
          counter',
          success,
          record t' { operations = delete_operation t'.operations table rid },
          row,
        )
        | _ ↦ (counter', generic_error, t', row)
      ]
    ]
