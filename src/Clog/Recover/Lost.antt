-- ===== src/Clog/Recover/Lost.antt =====
-- The loss of a record that begins in the last bytes of a block, behind the end of another record.
use oceanbase_jp.Prelude.{
  ℕ, suc, ◌+◌, ◌-◌, ◌≤◌, ◌<◌, ◌≡◌, refl, true, false, none, some, arith, ltb, ◌==◌, ◌&&◌, not,
}
use oceanbase_jp.Clog.LogBuffer.{Block, block_size, block_hdr_size, block_data_size}
use oceanbase_jp.Clog.Redo.{log_record_manage}
use oceanbase_jp.Clog.Recover.{
  LogRecordBuf, block_recover, gathered_part, Reading, took, block_loop, read_record, finish,
}

-- The end of a record at the beginning of a block goes to the buffer.
tail_read :
    (block : Block) (buf : LogRecordBuf)
    → block_hdr_size < block.first_rec_offset
    → (o : ℕ) × (b : LogRecordBuf) × (block_recover block block_hdr_size buf ≡ (o, b, none))
      × (o ≡ block.first_rec_offset)
      × (b.write_offset ≡ buf.write_offset + (block.first_rec_offset - block_hdr_size))
unfolding block_recover gathered_part
tail_read block buf h =
    let tail = block.first_rec_offset - block_hdr_size in
    let starts : ((8 == block_hdr_size) && not (block.first_rec_offset == block_hdr_size)) ≡ true =
      ground arith in
    (
      block_hdr_size + tail,
      gathered_part block block_hdr_size buf tail,
      rw starts refl,
      omega arith,
      refl,
    )

-- So do fewer than 16 bytes at the end of a block, whatever is in the buffer.
head_read :
    (block : Block) (offset : ℕ) (buf : LogRecordBuf)
    → block_hdr_size < offset
    → block_size < offset + 16
    → offset < block_size
    → (b : LogRecordBuf) × (block_recover block offset buf ≡ (block_size, b, none))
      × (1 ≤ b.write_offset)
unfolding block_recover gathered_part
head_read block offset buf h k l =
    let behind : ((offset == block_hdr_size) && not (block.first_rec_offset == block_hdr_size))
        ≡ false =
      ground arith in
    let short : ltb (block_size - offset) 16 ≡ true = ground arith in
    (gathered_part block offset buf (block_size - offset), rw (behind, short) refl, omega arith)

-- The reading behind a part that has no record.
abbrev kept_part : Reading → LogRecordBuf → Reading
kept_part s buf = record s { buf = buf }

first_loop :
    (block : Block) (s : Reading) (fuel : ℕ)
    → block.log_data_len ≡ block_data_size
    → block_hdr_size < block.first_rec_offset
    → block_size < block.first_rec_offset + 16
    → block.first_rec_offset < block_size
    → (buf : LogRecordBuf) × (1 ≤ buf.write_offset)
      × (block_loop (suc (suc (suc fuel))) block block_hdr_size s ≡ some (kept_part s buf))
unfolding block_loop took
first_loop block s fuel full starts short inside =
    let t = tail_read block s.buf starts in
    let h =
      head_read block t.0 t.1 (omega (arith, t.3)) (omega (arith, t.3)) (omega (arith, t.3)) in
    let at_start : ltb 8 (block_hdr_size + block.log_data_len) ≡ true = ground arith in
    let at_next : ltb t.0 (block_hdr_size + block.log_data_len) ≡ true = ground (arith, t.3) in
    let at_end : ltb 512 (block_hdr_size + block.log_data_len) ≡ false = ground arith in
    (h.0, h.2, rw (at_start, t.2, at_next, h.1, at_end) refl)

second_loop :
    (block : Block) (s : Reading) (fuel : ℕ)
    → block_hdr_size < block.first_rec_offset
    → block_hdr_size + block.log_data_len ≡ block.first_rec_offset
    → (buf : LogRecordBuf) × (1 ≤ buf.write_offset)
      × (block_loop (suc (suc (suc fuel))) block block_hdr_size s ≡ some (kept_part s buf))
unfolding block_loop took
second_loop block s fuel starts ends =
    let t = tail_read block s.buf starts in
    let at_start : ltb 8 (block_hdr_size + block.log_data_len) ≡ true = ground arith in
    let at_end : ltb t.0 (block_hdr_size + block.log_data_len) ≡ false = ground (arith, t.3) in
    (t.1, omega (arith, t.4), rw (at_start, t.2, at_end) refl)

module _ (first second : Block) (s : Reading) where
  -- A full block begins with the end of a record, and in its last 15 bytes or fewer the next record
  -- begins; the next block has the end of that one, and nothing behind it. The loops over the two
  -- blocks, with fuel for three rounds, manage no record, and the end of the reading manages one
  -- record for the two.
  pub block_loop_loses :
      (fuel : ℕ)
      → first.log_data_len ≡ block_data_size
      → block_hdr_size < first.first_rec_offset
      → block_size < first.first_rec_offset + 16
      → first.first_rec_offset < block_size
      → block_hdr_size < second.first_rec_offset
      → block_hdr_size + second.log_data_len ≡ second.first_rec_offset
      → (s1 : Reading) × (s2 : Reading) × (block_loop (suc (suc (suc fuel))) first block_hdr_size s
          ≡ some s1)
        × (block_loop (suc (suc (suc fuel))) second block_hdr_size s1 ≡ some s2)
        × ((finish s2).mtr ≡ log_record_manage s.mtr (read_record s2.buf.bytes))
  unfolding finish
  block_loop_loses fuel full starts short inside starts2 ends =
      let a = first_loop first s fuel full starts short inside in
      let b = second_loop second (kept_part s a.0) fuel starts2 ends in
      let some_bytes : (b.0.write_offset == 0) ≡ false = ground (arith, b.1) in
      (kept_part s a.0, kept_part (kept_part s a.0) b.0, a.2, b.2, rw some_bytes refl)
