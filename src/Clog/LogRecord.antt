-- ===== src/Clog/LogRecord.antt =====
-- CLogRecord of storage/clog/clog.cpp and its structs in clog.h: the fields of a record, their bytes
-- in memory and in the log. Numbers are little-endian words of 32 bits; the bytes behind the name of
-- a table, which strcpy leaves as they were, are taken as 0.
pub mod Image
pub mod Copy
use oceanbase_jp.Prelude.{
  ℕ, zero, suc, ◌+◌, ◌-◌, ◌*◌, ◌/◌, ◌%◌, Bool, Option, none, some, List, [], ◌∷◌, ltb, leb, ◌==◌,
  if◌then◌else◌,
}
use oceanbase_jp.Prelude.Memory.{Mem, copy_in}
use oceanbase_jp.Rc.{Rc, success, generic_error}

pub data LogType : Type 0 where
  redo_error redo_mtr_begin redo_mtr_commit redo_insert redo_update redo_delete : LogType

-- The numbers of the enumeration.
unfoldable pub type_code : LogType → ℕ
type_code redo_error = 0
type_code redo_mtr_begin = 1
type_code redo_mtr_commit = 2
type_code redo_insert = 3
type_code redo_update = 4
type_code redo_delete = 5

unfoldable pub log_type : ℕ → LogType
log_type n =
    if n == 1
    then redo_mtr_begin
    else if n == 2
    then redo_mtr_commit
    else if n == 3
    then redo_insert
    else if n == 4
    then redo_update
    else if n == 5
    then redo_delete
    else redo_error

-- The fields of the union; a record of another type than those that use a field leaves it unset.
pub record LogRecord : Type 0 where
  pub flag : LogType
  pub lsn : ℕ
  pub trx_id : ℕ
  pub logrec_len : ℕ
  pub table_name : List ℕ
  pub page_num : ℕ
  pub slot_num : ℕ
  pub data_len : ℕ
  pub bytes : Mem

-- sizeof(CLogRecordHeader), TABLE_NAME_MAX_LEN, sizeof(CLogDeleteRecord), and the offset of the
-- pointer to the data: CLOG_INS_REC_NODATA_SIZE and CLOG_UPD_REC_NODATA_SIZE.
abbrev pub record_header_size : ℕ
record_header_size = 16

abbrev pub table_name_max_len : ℕ
table_name_max_len = 20

abbrev pub delete_record_size : ℕ
delete_record_size = 44

abbrev pub nodata_size : ℕ
nodata_size = 48

-- _align8
unfoldable pub align_to_8 : ℕ → ℕ
align_to_8 size = size / 8 * 8 + (if size % 8 == 0 then 0 else 8)

unfoldable pub record_len : LogType → ℕ → ℕ
unfolding align_to_8
record_len redo_insert data_len = align_to_8 (nodata_size + data_len)
record_len redo_update data_len = align_to_8 (nodata_size + data_len)
record_len redo_delete data_len = delete_record_size
record_len _ data_len = record_header_size

-- A record that is given to the constructor: its place, and its data if it has any.
pub record Change : Type 0 where
  pub page_num : ℕ
  pub slot_num : ℕ
  pub bytes : Option Mem

unfoldable pub marker : LogType → ℕ → ℕ → LogRecord
unfolding record_len
marker flag lsn trx_id = record {
  flag = flag;
  lsn = lsn;
  trx_id = trx_id;
  logrec_len = record_len flag 0;
  table_name = [];
  page_num = 0;
  slot_num = 0;
  data_len = 0;
  bytes = λ i. 0;
}

-- A record of a change. A deletion does not set the length of the data.
unfoldable pub change_record : LogType → ℕ → ℕ → List ℕ → ℕ → Change → Mem → LogRecord
unfolding record_len
change_record flag lsn trx_id table_name data_len rec bytes = record {
  flag = flag;
  lsn = lsn;
  trx_id = trx_id;
  logrec_len = record_len flag data_len;
  table_name = table_name;
  page_num = rec.page_num;
  slot_num = rec.slot_num;
  data_len = data_len;
  bytes = bytes;
}

-- The constructor, with the next lsn; `none` is a record that stays unset, which is only logged.
unfoldable pub new_record : LogType → ℕ → ℕ → List ℕ → ℕ → Option Change → Option (LogRecord × ℕ)
unfolding marker change_record record_len
new_record redo_mtr_begin lsn trx_id name len rec =
    some (marker redo_mtr_begin lsn trx_id, lsn + record_len redo_mtr_begin 0)
new_record redo_mtr_commit lsn trx_id name len rec =
    some (marker redo_mtr_commit lsn trx_id, lsn + record_len redo_mtr_commit 0)
new_record redo_insert lsn trx_id name len (some rec) = elim rec.bytes [
  | none ↦ none
  | some b ↦
      some (change_record redo_insert lsn trx_id name len rec b, lsn + record_len redo_insert len)
]
new_record redo_update lsn trx_id name len (some rec) = elim rec.bytes [
  | none ↦ none
  | some b ↦
      some (change_record redo_update lsn trx_id name len rec b, lsn + record_len redo_update len)
]
new_record redo_delete lsn trx_id name len (some rec) =
    some (change_record redo_delete lsn trx_id name 0 rec (λ i. 0), lsn + record_len redo_delete 0)
new_record _ lsn trx_id name len rec = none

-- A byte of a word, the lowest first.
unfoldable pub byte_of : ℕ → ℕ → ℕ
byte_of v k =
    if k == 0
    then v % 256
    else if k == 1
    then v / 256 % 256
    else if k == 2
    then v / 65536 % 256
    else v / 16777216 % 256

unfoldable pub int_at : Mem → ℕ → ℕ
int_at m a = m a + 256 * m (a + 1) + 65536 * m (a + 2) + 16777216 * m (a + 3)

-- A text in memory, behind which there are zeros.
unfoldable pub text_byte : List ℕ → ℕ → ℕ
text_byte [] i = 0
text_byte (c ∷ cs) zero = c
text_byte (c ∷ cs) (suc i) = text_byte cs i

-- The bytes of the union up to the pointer.
unfoldable pub struct_bytes : LogRecord → Mem
unfolding byte_of text_byte type_code
struct_bytes r i =
    if ltb i 4
    then byte_of r.lsn i
    else if ltb i 8
    then byte_of r.trx_id (i - 4)
    else if ltb i 12
    then byte_of (type_code r.flag) (i - 8)
    else if ltb i 16
    then byte_of r.logrec_len (i - 12)
    else if ltb i 36
    then text_byte r.table_name (i - 16)
    else if ltb i 40
    then byte_of r.page_num (i - 36)
    else if ltb i 44
    then byte_of r.slot_num (i - 40)
    else byte_of r.data_len (i - 44)

-- copy_record of a record with data, to a place in a memory.
unfoldable pub copy_with_data : LogRecord → Mem → ℕ → ℕ → ℕ → Mem
unfolding copy_in
copy_with_data r m dest start_off copy_len =
    if ltb nodata_size start_off
    then copy_in m dest (λ i. r.bytes (start_off + i - nodata_size)) copy_len
    else if leb (start_off + copy_len) nodata_size
    then copy_in m dest (λ i. struct_bytes r (start_off + i)) copy_len
    else let head = nodata_size - start_off in
      copy_in (copy_in m dest (λ i. struct_bytes r (start_off + i)) head) (dest + head) r.bytes
        (copy_len - head)

unfoldable pub copied : LogRecord → Mem → ℕ → ℕ → ℕ → LogType → Mem
unfolding copy_with_data
copied r m dest start_off copy_len redo_update = copy_with_data r m dest start_off copy_len
copied r m dest start_off copy_len redo_insert = copy_with_data r m dest start_off copy_len
copied r m dest start_off copy_len _ = copy_in m dest (λ i. struct_bytes r (start_off + i)) copy_len

unfoldable pub copy_record : LogRecord → Mem → ℕ → ℕ → ℕ → Rc × Mem
unfolding copied
copy_record r m dest start_off copy_len =
    if ltb r.logrec_len (start_off + copy_len)
    then (generic_error, m)
    else (success, copied r m dest start_off copy_len r.flag)

-- strcpy, from an address on, by the bytes that there are at most.
unfoldable pub text_at : ℕ → Mem → ℕ → List ℕ
text_at zero m a = []
text_at (suc n) m a = let rest = text_at n m (a + 1) in if m a == 0 then [] else m a ∷ rest

-- The constructor from the bytes of a record; `none` is an unknown type, which is only logged.
unfoldable pub parse_with_data : LogType → Mem → ℕ → LogRecord
unfolding int_at text_at
parse_with_data flag m data_len = record {
  flag = flag;
  lsn = int_at m 0;
  trx_id = int_at m 4;
  logrec_len = int_at m 12;
  table_name = text_at table_name_max_len m 16;
  page_num = int_at m 36;
  slot_num = int_at m 40;
  data_len = data_len;
  bytes = λ i. if ltb i data_len then m (nodata_size + i) else 0;
}

unfoldable pub parse_marker : LogType → Mem → LogRecord
unfolding int_at
parse_marker flag m = record {
  flag = flag;
  lsn = int_at m 0;
  trx_id = int_at m 4;
  logrec_len = int_at m 12;
  table_name = [];
  page_num = 0;
  slot_num = 0;
  data_len = 0;
  bytes = λ i. 0;
}

unfoldable pub parse_by : LogType → Mem → Option LogRecord
unfolding parse_marker parse_with_data int_at
parse_by redo_mtr_begin m = some (parse_marker redo_mtr_begin m)
parse_by redo_mtr_commit m = some (parse_marker redo_mtr_commit m)
parse_by redo_insert m = some (parse_with_data redo_insert m (int_at m 44))
parse_by redo_update m = some (parse_with_data redo_update m (int_at m 44))
parse_by redo_delete m = some (parse_with_data redo_delete m 0)
parse_by redo_error m = none

unfoldable pub parse_record : Mem → Option LogRecord
unfolding parse_by log_type int_at
parse_record m = parse_by (log_type (int_at m 8)) m
