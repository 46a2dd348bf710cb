-- ===== src/Tests/Clog.antt =====
-- The redo log: a commit, a change with data, and the logs of two transactions.
use oceanbase_jp.Prelude.{
  ℕ, ◌+◌, ◌-◌, ◌≡◌, refl, ap, true, some, List, [], ◌∷◌, inl, arith, none, ◌++◌, ◌||◌, ◌==◌, ◌<◌,
  ltb, if◌then◌else◌, false,
}
use oceanbase_jp.Rc.{Rc, success, generic_error}
use oceanbase_jp.Clog.LogRecord.{
  redo_mtr_begin, redo_mtr_commit, redo_insert, LogRecord, parse_record,
}
use oceanbase_jp.Clog.LogRecord.Image.{IsLogRecord, kept, parse_record-image}
use oceanbase_jp.Clog.LogRecord.Copy.{image}
use oceanbase_jp.Clog.LogBuffer.{Block, zero_block, empty_buffer}
use oceanbase_jp.Clog.Manager.{Clog, clog_append_record}
use oceanbase_jp.Clog.Manager.Durable.{Logged, clog_append_record-Logged}
use oceanbase_jp.Clog.Redo.{no_mtr, Tables, manage_all, log_record_manage, recover, is_change}
use oceanbase_jp.Clog.Redo.Committed.{redo_then, redo_all, recover-redo_all}
use oceanbase_jp.Clog.Redo.Marks.{marks, has_mark, picked, AreMarked, committed_changes}
use oceanbase_jp.Clog.Recover.{
  block_from, Reading, empty_record_buf, block_loop, finish, read_record,
}
use oceanbase_jp.Clog.Redo.Unfinished.{recover_stops}
use oceanbase_jp.Clog.Redo.Reused.{GivesBelow, recover_reuses_id}
use oceanbase_jp.Clog.Recover.Whole.{kept_all}
use oceanbase_jp.Clog.Recover.Spanning.{Spans, block_loop-manage_all_spanning}
use oceanbase_jp.Clog.Recover.Lost.{block_loop_loses}

abbrev commit_of : ℕ → LogRecord
commit_of id = record {
  flag = redo_mtr_commit;
  lsn = 0;
  trx_id = id;
  logrec_len = 16;
  table_name = [];
  page_num = 0;
  slot_num = 0;
  data_len = 0;
  bytes = λ i. 0;
}

abbrev begin_of : ℕ → LogRecord
begin_of id = record (commit_of id) { flag = redo_mtr_begin }

abbrev insert_of : ℕ → LogRecord
insert_of id = record {
  flag = redo_insert;
  lsn = 16;
  trx_id = id;
  logrec_len = 56;
  table_name = 116 ∷ [];
  page_num = 1;
  slot_num = 2;
  data_len = 4;
  bytes = λ i. i;
}

commit_of-IsLogRecord : IsLogRecord (commit_of 7)
commit_of-IsLogRecord = record {
  a_type = λ e. cc;
  lsn = omega arith;
  trx_id = omega arith;
  logrec_len = omega arith;
  page_num = omega arith;
  slot_num = omega arith;
  data_len = omega arith;
  name = omega arith;
}

insert_of-IsLogRecord : IsLogRecord (insert_of 7)
insert_of-IsLogRecord = record {
  a_type = λ e. cc;
  lsn = omega arith;
  trx_id = omega arith;
  logrec_len = omega arith;
  page_num = omega arith;
  slot_num = omega arith;
  data_len = omega arith;
  name = (omega arith, omega arith, omega arith);
}

parse_record-image_example :
    parse_record (image (insert_of 7)) ≡ some (kept (insert_of 7) redo_insert)
parse_record-image_example =
    parse_record-image (image (insert_of 7)) (insert_of 7) insert_of-IsLogRecord (λ i l. refl)

abbrev empty_log : Clog
empty_log = record { file = λ i. zero_block; buffer = empty_buffer }

clog_append_record-Logged_example :
    (rc : Rc) × (c : Clog) × (clog_append_record 16385 (commit_of 7) empty_log ≡ some (rc, c))
    × Logged (commit_of 7) empty_log rc c
clog_append_record-Logged_example =
    clog_append_record-Logged (commit_of 7) empty_log 16385 (inl (refl, refl)) (omega arith)
      (omega arith)

-- The tables are the list of the transactions whose changes were redone.
abbrev tables : Tables (List ℕ)
tables = record { find_table = λ w name. true; recover_record = λ w r. (success, r.trx_id ∷ w) }

abbrev two_transactions : List LogRecord
two_transactions =
    begin_of 1 ∷ insert_of 1 ∷ begin_of 2 ∷ insert_of 2 ∷ commit_of 2 ∷ insert_of 2 ∷ []

two_transactions-AreMarked : AreMarked two_transactions two_transactions
unfolding has_mark is_change
two_transactions-AreMarked =
    (λ e. refl, (λ e. refl, (λ e. refl, (λ e. refl, (λ e. refl, (λ e. refl, refl))))))

recover-redo_all_example :
    (
      (recover tables (manage_all no_mtr two_transactions) []).0,
      (recover tables (manage_all no_mtr two_transactions) []).1,
    )
    ≡ redo_all tables (committed_changes two_transactions) []
recover-redo_all_example = recover-redo_all tables two_transactions [] two_transactions-AreMarked

-- The changes of the second transaction were redone, also the one behind its commit.
second_redone : redo_all tables (committed_changes two_transactions) [] ≡ (success, 2 ∷ 2 ∷ [])
unfolding redo_all picked has_mark
second_redone = refl

-- The change of the second transaction, which has no mark, ends the recovery.
abbrev first_committed : List LogRecord
first_committed = begin_of 1 ∷ insert_of 1 ∷ commit_of 1 ∷ []

abbrev second_unmarked : List LogRecord
second_unmarked = first_committed ++ insert_of 2 ∷ insert_of 1 ∷ []

first_redone :
    redo_all tables (picked (λ i. has_mark redo_mtr_commit i second_unmarked) first_committed) []
    ≡ (success, 1 ∷ [])
unfolding redo_all redo_then picked has_mark marks is_change
first_redone = refl

first_committed-AreMarked : AreMarked second_unmarked first_committed
unfolding has_mark is_change
first_committed-AreMarked = (λ e. refl, (λ e. refl, (λ e. refl, refl)))

recover_stops_example :
    recover tables (manage_all no_mtr second_unmarked) [] ≡ (generic_error, 1 ∷ [], none)
recover_stops_example =
    recover_stops tables first_committed (insert_of 1 ∷ []) (insert_of 2) [] (1 ∷ [])
      first_committed-AreMarked first_redone (unfold is_change in refl)
      (unfold has_mark marks in refl) (unfold has_mark marks in refl)

-- The second transaction has not ended, and its identifier is given out again.
abbrev second_begun : List LogRecord
second_begun = begin_of 2 ∷ insert_of 2 ∷ []

second_begun-AreMarked : AreMarked second_begun second_begun
unfolding has_mark is_change
second_begun-AreMarked = (λ e. refl, (λ e. refl, refl))

abbrev second_again : List LogRecord
second_again = begin_of 2 ∷ commit_of 2 ∷ []

recover_reuses_id_example :
    GivesBelow 2 (recover tables (manage_all no_mtr second_begun) []).2
    × ((
      (recover tables (manage_all no_mtr (second_begun ++ second_again)) []).0,
      (recover tables (manage_all no_mtr (second_begun ++ second_again)) []).1,
    )
        ≡ redo_all tables
            (picked (λ i. has_mark redo_mtr_commit i second_begun || (i == 2)) second_begun
              ++ picked (λ i. true) second_again)
            [])
recover_reuses_id_example =
    recover_reuses_id tables second_begun second_again [] [] 2 second_begun-AreMarked (omega arith)
      (unfold picked has_mark marks is_change in refl) (refl, (refl, refl))
      (unfold has_mark marks in refl)

-- A commit, an insertion that spans two blocks, and another commit.
abbrev long_insert : LogRecord
long_insert = record (insert_of 7) { logrec_len = 512; data_len = 460 }

long_insert-IsLogRecord : IsLogRecord long_insert
long_insert-IsLogRecord = record {
  a_type = λ e. cc;
  lsn = omega arith;
  trx_id = omega arith;
  logrec_len = omega arith;
  page_num = omega arith;
  slot_num = omega arith;
  data_len = omega arith;
  name = (omega arith, omega arith, omega arith);
}

abbrev head_block : Block
head_block = record {
  log_block_no = 1;
  log_data_len = 504;
  first_rec_offset = 8;
  content = λ i. if ltb i 16 then image (commit_of 7) i else image long_insert (i - 16);
}

abbrev tail_block : Block
tail_block = record {
  log_block_no = 2;
  log_data_len = 40;
  first_rec_offset = 32;
  content = λ i. if ltb i 24 then image long_insert (i + 488) else image (commit_of 7) (i - 24);
}

head_byte : (i : ℕ) → i < 488 → block_from head_block 24 i ≡ image long_insert i
head_byte i l =
    let behind : ltb (16 + i) 16 ≡ false = ground arith in
    rw behind (ap (image long_insert) {x = 16 + i - 16} {y = i} (omega arith))

tail_byte : (i : ℕ) → i < 24 → block_from tail_block 8 i ≡ image long_insert (488 + i)
tail_byte i l =
    let inside : ltb (0 + i) 24 ≡ true = ground arith in
    rw inside (ap (image long_insert) {x = 0 + i + 488} {y = 488 + i} (omega arith))

first_byte : (i : ℕ) → i < 16 → block_from head_block 8 i ≡ image (commit_of 7) i
first_byte i l =
    let inside : ltb (0 + i) 16 ≡ true = ground arith in
    rw inside (ap (image (commit_of 7)) {x = 0 + i} {y = i} (omega arith))

last_byte : (i : ℕ) → i < 16 → block_from tail_block 32 i ≡ image (commit_of 7) i
last_byte i l =
    let behind : ltb (24 + i) 24 ≡ false = ground arith in
    rw behind (ap (image (commit_of 7)) {x = 24 + i - 24} {y = i} (omega arith))

long_insert-Spans : Spans head_block tail_block long_insert 24
long_insert-Spans = record {
  fits = long_insert-IsLogRecord;
  sized = omega arith;
  full = refl;
  behind = omega arith;
  header = omega arith;
  spans = omega arith;
  head = head_byte;
  ends = refl;
  inside = omega arith;
  second_len = omega arith;
  tail = tail_byte;
}

abbrev start_reading : Reading
start_reading = record { mtr = no_mtr; buf = empty_record_buf; global_lsn = 0 }

block_loop-manage_all_spanning_example :
    (s1 : Reading) × (s2 : Reading) × (block_loop 3 head_block 8 start_reading ≡ some s1)
    × (block_loop 4 tail_block 8 s1 ≡ some s2)
    × ((finish s2).mtr
        ≡ manage_all no_mtr (kept_all ((commit_of 7 ∷ []) ++ long_insert ∷ commit_of 7 ∷ [])))
block_loop-manage_all_spanning_example =
    block_loop-manage_all_spanning head_block tail_block long_insert 24 long_insert-Spans 3 4
      start_reading (commit_of 7 ∷ []) (commit_of 7 ∷ []) refl refl
      (commit_of-IsLogRecord, omega arith, omega arith, omega arith, first_byte, refl)
      (commit_of-IsLogRecord, omega arith, omega arith, omega arith, last_byte, refl) (omega arith)
      (omega arith)

-- A block with the end of a record up to its last 8 bytes, and one with the end of the next record.
abbrev spanned : ℕ → ℕ → Block
spanned len first = record zero_block { log_data_len = len; first_rec_offset = first }

block_loop_loses_example :
    (s1 : Reading) × (s2 : Reading) × (block_loop 3 (spanned 504 504) 8 start_reading ≡ some s1)
    × (block_loop 3 (spanned 16 24) 8 s1 ≡ some s2)
    × ((finish s2).mtr ≡ log_record_manage no_mtr (read_record s2.buf.bytes))
block_loop_loses_example =
    block_loop_loses (spanned 504 504) (spanned 16 24) start_reading 0 refl (omega arith)
      (omega arith) (omega arith) (omega arith) refl
