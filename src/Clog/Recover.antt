-- ===== src/Clog/Recover.antt =====
-- CLogFile::recover of storage/clog/clog.cpp: the reading of the file by chunks of blocks, and of a
-- block by records, which a buffer puts together where they span blocks. A record of an unknown type,
-- which the source leaves unset, has the type redo_error and fields of 0.
pub mod Whole
pub mod Spanning
pub mod Lost
use oceanbase_jp.Prelude.{
  ℕ, zero, suc, ◌+◌, ◌-◌, ◌*◌, Bool, true, false, Option, none, some, [], leb, ltb, ◌==◌, ◌&&◌, not,
  if◌then◌else◌,
}
use oceanbase_jp.Prelude.Memory.{Mem, copy_in}
use oceanbase_jp.Clog.LogRecord.{
  redo_error, LogRecord, record_header_size, marker, int_at, parse_record,
}
use oceanbase_jp.Clog.LogBuffer.{
  Block, LogBuffer, block_size, block_hdr_size, block_data_size, put_block,
}
use oceanbase_jp.Clog.Redo.{MtrManager, log_record_manage}

pub record LogRecordBuf : Type 0 where
  pub write_offset : ℕ
  pub bytes : Mem

-- memset
abbrev pub empty_record_buf : LogRecordBuf
empty_record_buf = record { write_offset = 0; bytes = λ i. 0 }

unfoldable pub read_record : Mem → LogRecord
unfolding marker
read_record m = elim (parse_record m) [ some r ↦ r | none ↦ marker redo_error 0 0 ]

-- The bytes of a block from an offset behind its header on.
abbrev pub block_from : Block → ℕ → Mem
block_from block offset i = block.content (offset - block_hdr_size + i)

-- A part of a block goes behind what the buffer has.
unfoldable pub gathered_part : Block → ℕ → LogRecordBuf → ℕ → LogRecordBuf
unfolding copy_in
gathered_part block offset buf n = record {
  write_offset = buf.write_offset + n;
  bytes = copy_in buf.bytes buf.write_offset (block_from block offset) n;
}

-- block_recover: the offset, the buffer, and the record if there is one.
unfoldable pub block_recover : Block → ℕ → LogRecordBuf → ℕ × LogRecordBuf × Option LogRecord
unfolding gathered_part
block_recover block offset buf =
    let tail = block.first_rec_offset - block_hdr_size in
    let rest = block_size - offset in
    let len = int_at (block_from block offset) 12 in
    if (offset == block_hdr_size) && not (block.first_rec_offset == block_hdr_size)
    then (offset + tail, gathered_part block offset buf tail, none)
    else if ltb rest record_header_size
    then (block_size, gathered_part block offset buf rest, none)
    else if not (buf.write_offset == 0)
    then (offset, empty_record_buf, some (read_record buf.bytes))
    else if leb len rest
    then (offset + len, buf, some (read_record (block_from block offset)))
    else (block_size, gathered_part block offset buf rest, none)

-- What the reading keeps: the transactions, the buffer for a record, and CLogManager::gloabl_lsn_.
pub record Reading : Type 0 where
  pub mtr : MtrManager
  pub buf : LogRecordBuf
  pub global_lsn : ℕ

unfoldable pub took : Reading → LogRecordBuf → Option LogRecord → Reading
took s buf none = record s { buf = buf }
took s buf (some r) = record {
  mtr = log_record_manage s.mtr r;
  buf = buf;
  global_lsn = r.lsn + r.logrec_len;
}

-- The loop over the records of a block, on fuel.
unfoldable pub block_loop : ℕ → Block → ℕ → Reading → Option Reading
block_loop zero block offset s = none
block_loop (suc fuel) block offset s =
    let r = block_recover block offset s.buf in
    let rest = block_loop fuel block r.0 (took s r.1 r.2) in
    if ltb offset (block_hdr_size + block.log_data_len) then rest else some s

-- The blocks of a chunk: CLOG_REDO_BUFFER_SIZE.
abbrev pub redo_blocks : ℕ
redo_blocks = 8

-- The last block goes to the buffer of the log.
unfoldable pub resumed : LogBuffer → Block → LogBuffer
unfolding put_block
resumed b block = record b {
  write_block = 0;
  write_offset = block.log_data_len + block_hdr_size;
  blocks = put_block b.blocks 0 block;
}

-- The blocks of a chunk by their number, and whether the last block of the log was among them.
unfoldable pub chunk_loop :
    ℕ → (ℕ → Block) → ℕ → ℕ → LogBuffer → Reading → Option (Bool × LogBuffer × Reading)
unfolding block_loop resumed
chunk_loop fuel chunk i zero b s = some (false, b, s)
chunk_loop fuel chunk i (suc n) b s =
    let block = chunk i in
    let b' = record b { current_block = block.log_block_no } in
    elim (block_loop fuel block block_hdr_size s) [
      | none ↦ none
      | some s' ↦
          if ltb block.log_data_len block_data_size
          then some (true, resumed b' block, s')
          else chunk_loop fuel chunk (i + 1) n b' s'
    ]

-- read_at of a file with a number of blocks: how many were read, and the chunk, which keeps the
-- blocks from before behind them.
unfoldable pub read_chunk : (ℕ → Block) → ℕ → ℕ → (ℕ → Block) → ℕ × (ℕ → Block)
read_chunk file size offset chunk =
    let count = if leb redo_blocks (size - offset) then redo_blocks else size - offset in
    (count, λ i. if ltb i count then file (offset + i) else chunk i)

-- Behind the label `done`: the record that the buffer still has.
unfoldable pub finish : Reading → Reading
finish s =
    if s.buf.write_offset == 0
    then s
    else record s { mtr = log_record_manage s.mtr (read_record s.buf.bytes) }

-- CLogFile::recover from an offset on, with fuel for the chunks and for the records of a block.
unfoldable pub recover_from :
    ℕ → ℕ → (ℕ → Block) → ℕ → ℕ → (ℕ → Block) → LogBuffer → Reading → Option (LogBuffer × Reading)
unfolding read_chunk chunk_loop finish
recover_from fuel zero file size offset chunk b s = none
recover_from fuel (suc chunks) file size offset chunk b s =
    let r = read_chunk file size offset chunk in
    elim (r.0 == 0) [
      | true ↦ some (b, finish s)
      | false ↦ elim (chunk_loop fuel r.1 0 redo_blocks b s) [
        | none ↦ none
        | some (true, b', s') ↦ some (b', finish s')
        | some (false, b', s') ↦ recover_from fuel chunks file size (offset + r.0) r.1 b' s'
      ]
    ]
