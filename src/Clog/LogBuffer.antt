-- ===== src/Clog/LogBuffer.antt =====
-- CLogBuffer of storage/clog/clog.cpp, and the blocks of clog.h. Offsets of blocks, in the buffer and
-- in the file, are counted in blocks: the source has them times CLOG_BLOCK_SIZE. A block is its header
-- and its data; the file is its blocks, of which block 0 is the header of the file. Writes to the file
-- are taken to succeed, as the source takes them.
pub mod Total
pub mod Append
pub mod Rounds
pub mod Loop
pub mod Flush
use oceanbase_jp.Prelude.{
  ℕ, zero, suc, ◌+◌, ◌-◌, ◌*◌, Option, none, some, leb, ltb, ◌==◌, ◌&&◌, not, if◌then◌else◌,
}
use oceanbase_jp.Prelude.Memory.{Mem}
use oceanbase_jp.Rc.{Rc, success, logbuf_full}
use oceanbase_jp.Clog.LogRecord.{LogRecord, copy_record}

-- CLOG_BLOCK_SIZE, CLOG_BLOCK_HDR_SIZE, CLOG_BLOCK_DATA_SIZE, and the blocks of CLOG_BUFFER_SIZE.
abbrev pub block_size : ℕ
block_size = 512

abbrev pub block_hdr_size : ℕ
block_hdr_size = 8

abbrev pub block_data_size : ℕ
block_data_size = 504

abbrev pub buffer_blocks : ℕ
buffer_blocks = 8192

abbrev pub buffer_size : ℕ
buffer_size = 4194304

pub record Block : Type 0 where
  pub log_block_no : ℕ
  pub log_data_len : ℕ
  pub first_rec_offset : ℕ
  pub content : Mem

abbrev pub zero_block : Block
zero_block = record { log_block_no = 0; log_data_len = 0; first_rec_offset = 0; content = λ i. 0 }

pub record LogBuffer : Type 0 where
  pub current_block : ℕ
  pub write_block : ℕ
  pub write_offset : ℕ
  pub blocks : ℕ → Block

-- The constructor.
abbrev pub empty_buffer : LogBuffer
empty_buffer = record {
  current_block = 0;
  write_block = 0;
  write_offset = 0;
  blocks = λ i. zero_block;
}

unfoldable pub put_block : (ℕ → Block) → ℕ → Block → ℕ → Block
put_block blocks n block i = if i == n then block else blocks i

-- A new block, which is zeroed and takes the next number.
unfoldable pub new_block : LogBuffer → ℕ → LogBuffer
unfolding put_block
new_block b n = record {
  current_block = b.current_block + 1;
  write_block = n;
  write_offset = b.write_offset + block_hdr_size;
  blocks = put_block b.blocks n (record zero_block { log_block_no = b.current_block + 1 });
}

-- The copy of a part of a record behind what is in the block, with the offset that a block without
-- data gets for its first record.
unfoldable pub write_part : LogRecord → LogBuffer → ℕ → ℕ → ℕ → LogBuffer
unfolding put_block copy_record
write_part rec b start_off n first =
    let block = b.blocks b.write_block in
    let offset = b.write_offset - (block_size * b.write_block + block_hdr_size) in
    record b {
      write_offset = b.write_offset + n;
      blocks = put_block b.blocks b.write_block (record {
        log_block_no = block.log_block_no;
        log_data_len = block.log_data_len + n;
        first_rec_offset = if block.log_data_len == 0 then first else block.first_rec_offset;
        content = (copy_record rec block.content offset start_off n).1;
      });
    }

-- What the first test makes of a buffer without a block.
unfoldable pub started : LogBuffer → LogBuffer
unfolding new_block
started b = if (b.write_offset == 0) && (b.write_block == 0) then new_block b 0 else b

-- append_log_record, on fuel, with what it makes of start_off.
unfoldable pub append_log_record : ℕ → LogRecord → LogBuffer → ℕ → Option (Rc × ℕ × LogBuffer)
unfolding started new_block write_part
append_log_record zero rec b start_off = none
append_log_record (suc fuel) rec b start_off =
    let b' = started b in
    let left = rec.logrec_len - start_off in
    let len = (b'.blocks b'.write_block).log_data_len in
    let block_left = block_data_size - len in
    let next = append_log_record fuel rec (new_block b' (b'.write_block + 1)) start_off in
    let last_first = if start_off == 0 then block_hdr_size else block_hdr_size + left in
    let part = write_part rec b' start_off block_left block_size in
    let rest = append_log_record fuel rec part (start_off + block_left) in
    if b.write_offset == buffer_size
    then some (logbuf_full, start_off, b)
    else if len == block_data_size
    then next
    else if leb left block_left
    then some (success, start_off + left, write_part rec b' start_off left last_first)
    else rest

-- CLogFile::write of a number of blocks of the buffer.
unfoldable pub write_blocks : (ℕ → Block) → ℕ → ℕ → (ℕ → Block) → ℕ → Block
write_blocks file block_no count blocks i =
    if leb block_no i && ltb i (block_no + count) then blocks (i - block_no) else file i

unfoldable pub emptied_buffer : LogBuffer → LogBuffer
emptied_buffer b = record b { write_block = 0; write_offset = 0; blocks = λ i. zero_block }

-- The last block moves to the start.
unfoldable pub moved_last : LogBuffer → LogBuffer
moved_last b =
    let last = b.blocks b.write_block in
    record b {
      write_block = 0;
      write_offset = last.log_data_len + block_hdr_size;
      blocks = λ i. if i == 0 then last else zero_block;
    }

-- flush_buffer: the file and the buffer.
unfoldable pub flush_buffer : (ℕ → Block) → LogBuffer → (ℕ → Block) × LogBuffer
flush_buffer file b =
    let block_no = (b.blocks 0).log_block_no in
    let last = b.blocks b.write_block in
    if b.write_offset == buffer_size
    then (write_blocks file block_no buffer_blocks b.blocks, emptied_buffer b)
    else (
      write_blocks file block_no (b.write_block + 1) b.blocks,
      if last.log_data_len == block_data_size
          then emptied_buffer b
          else if not (b.write_block == 0)
          then moved_last b
          else b,
    )
