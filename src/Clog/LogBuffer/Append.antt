-- ===== src/Clog/LogBuffer/Append.antt =====
-- CLogBuffer::append_log_record: what it adds to the log.
use mathlib.Core.List.{append-nil, append_assoc}
use oceanbase_jp.Prelude.{
  ℕ, suc, ◌+◌, ◌-◌, ◌*◌, ◌≤◌, ◌<◌, ◌≡◌, refl, sym, ap, ap₂, ◌∙◌, false, ◌++◌, arith, ltb,
}
use oceanbase_jp.Prelude.Memory.{read}
use oceanbase_jp.Clog.LogRecord.{LogRecord}
use oceanbase_jp.Clog.LogRecord.Copy.{image_from, copy_record-image}
use oceanbase_jp.Clog.LogBuffer.{
  Block, LogBuffer, block_size, block_hdr_size, block_data_size, buffer_blocks, put_block,
  new_block, write_part,
}
use oceanbase_jp.Clog.LogBuffer.Total.{
  data_of, gathered, gathered_congr, overlaid, IsOpen, IsIdle, total_open, read-append,
}

put_self : (blocks : ℕ → Block) (n : ℕ) {x : Block} → put_block blocks n x n ≡ x
unfolding put_block
put_self blocks n = ground arith

-- A log by what comes before its last block and by the data of that.
total_by :
    (file : ℕ → Block) (b : LogBuffer) (g : ℕ → Block) (n : ℕ)
    → b.current_block ≡ suc n
    → ((i : ℕ) → 1 ≤ i → i ≤ n → overlaid file b i ≡ g i)
    → total_open file b ≡ gathered g n ++ data_of (overlaid file b b.current_block)
unfolding gathered
total_by file b g n e h =
    ap (gathered (overlaid file b)) e
    ∙ ap₂ ◌++◌ (gathered_congr (overlaid file b) g n h)
        (ap (λ k. data_of (overlaid file b k)) (sym e))

-- The last block of a log is that of the buffer.
last_overlaid :
    (file : ℕ → Block) (b : LogBuffer)
    → b.write_block < b.current_block
    → overlaid file b b.current_block ≡ b.blocks b.write_block
unfolding overlaid
last_overlaid file b h =
    let e : b.current_block - (b.current_block - b.write_block) ≡ b.write_block = omega arith in
    let l : ltb b.current_block (b.current_block - b.write_block) ≡ false = ground arith in
    rw (l, e) refl

module _ (file : ℕ → Block) (b : LogBuffer) where
  pub new_block-IsOpen_first : IsIdle b → IsOpen (new_block b 0)
  unfolding new_block put_block
  new_block-IsOpen_first h = record {
    numbered = λ i l. ground (arith, h.0, h.1);
    full = λ i l. absurd (omega (arith, l));
    within = ground arith;
    offset = ground (arith, h.0);
    room = omega arith;
    behind = omega arith;
  }

  pub new_block-total_first :
      IsIdle b → total_open file (new_block b 0) ≡ gathered file b.current_block
  unfolding new_block put_block overlaid read
  new_block-total_first h =
      let b' = new_block b 0 in
      total_by file b' file b.current_block (omega arith) (λ i k l. ground arith)
      ∙ ap (λ x. gathered file b.current_block ++ data_of x) (last_overlaid file b' (omega arith))
      ∙ append-nil (gathered file b.current_block)

  pub new_block-IsOpen :
      IsOpen b
      → (b.blocks b.write_block).log_data_len ≡ block_data_size
      → b.write_block + 1 < buffer_blocks
      → IsOpen (new_block b (b.write_block + 1))
  unfolding new_block put_block
  new_block-IsOpen o e l = record {
    numbered = λ i k. ground (arith, o.numbered i);
    full = λ i k. ground (arith, o.full i, e);
    within = ground arith;
    offset = ground (arith, o.offset, e);
    room = l;
    behind = omega (arith, o.behind);
  }

  pub new_block-total :
      IsOpen b → total_open file (new_block b (b.write_block + 1)) ≡ total_open file b
  unfolding new_block put_block overlaid read
  new_block-total o =
      let b' = new_block b (b.write_block + 1) in
      let behind = o.behind in
      total_by file b' (overlaid file b) b.current_block (omega arith) (λ i k l. ground arith)
      ∙ ap (λ x. total_open file b ++ data_of x) (last_overlaid file b' (omega arith))
      ∙ rw (put_self b.blocks (b.write_block + 1)) (append-nil (total_open file b))

  module _ (rec : LogRecord) (start n first : ℕ) where
    abbrev written : LogBuffer
    written = write_part rec b start n first

    pub write_part-IsOpen :
        IsOpen b → n ≤ block_data_size - (b.blocks b.write_block).log_data_len → IsOpen written
    unfolding write_part put_block
    write_part-IsOpen o h = record {
      numbered = λ i l. ground (arith, o.numbered i);
      full = λ i l. ground (arith, o.full i);
      within = ground (arith, o.within);
      offset = ground (arith, o.offset);
      room = o.room;
      behind = o.behind;
    }

    part_data :
        IsOpen b
        → start + n ≤ rec.logrec_len
        → data_of (written.blocks b.write_block)
          ≡ data_of (b.blocks b.write_block) ++ read (image_from rec start) 0 n
    unfolding write_part
    part_data o h =
        let block = b.blocks b.write_block in
        let at : b.write_offset - (block_size * b.write_block + block_hdr_size)
            ≡ block.log_data_len =
          omega (arith, o.offset) in
        rw
          (
            put_self b.blocks b.write_block,
            at,
            copy_record-image rec block.content block.log_data_len start n h,
          )
          (read-append block.content (image_from rec start) block.log_data_len n)

    pub write_part-total :
        IsOpen b
        → start + n ≤ rec.logrec_len
        → total_open file written ≡ total_open file b ++ read (image_from rec start) 0 n
    unfolding write_part put_block overlaid
    write_part-total o h =
        let behind = o.behind in
        let last : b.current_block ≡ suc (b.current_block - 1) = omega arith in
        let front = gathered (overlaid file b) (b.current_block - 1) in
        let added = read (image_from rec start) 0 n in
        total_by file written (overlaid file b) (b.current_block - 1) last (λ i k l. ground arith)
        ∙ ap (λ x. front ++ data_of x) (last_overlaid file written behind)
        ∙ ap (◌++◌ front) (part_data o h)
        ∙ sym (append_assoc front (data_of (b.blocks b.write_block)) added)
        ∙ ap (λ x. x ++ added)
            (sym (
              total_by file b (overlaid file b) (b.current_block - 1) last (λ i k l. refl)
              ∙ ap (λ x. front ++ data_of x) (last_overlaid file b behind)))
