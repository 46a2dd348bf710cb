-- ===== src/Clog/LogBuffer/Flush.antt =====
-- CLogBuffer::flush_buffer: the file holds the whole log.
use oceanbase_jp.Prelude.{
  ℕ, ◌+◌, ◌-◌, ◌≤◌, ◌<◌, ◌≡◌, ◌≢◌, inl, inr, refl, ◌∙◌, List, arith, ◌==◌, Bool-cases,
}
use oceanbase_jp.Clog.LogBuffer.{
  Block, LogBuffer, block_data_size, buffer_blocks, buffer_size, write_blocks, emptied_buffer,
  moved_last, flush_buffer,
}
use oceanbase_jp.Clog.LogBuffer.Total.{
  gathered, gathered_congr, overlaid, IsOpen, IsLogBuffer, total_open, total_of,
}

-- What a flush makes of a log: the file has it all.
pub record Flushed (log : List ℕ) (b : LogBuffer) (file' : ℕ → Block) (b' : LogBuffer)
    : Type 0 where
  pub valid : IsLogBuffer b'
  pub current : b'.current_block ≡ b.current_block
  pub stored : gathered file' b'.current_block ≡ log
  pub total : total_of file' b' ≡ log
  pub space : b.write_offset ≡ buffer_size → b'.write_offset ≡ 0

module _ (file : ℕ → Block) (b : LogBuffer) (o : IsOpen b) where
  first_no : (b.blocks 0).log_block_no ≡ b.current_block - b.write_block
  first_no = omega (arith, o.numbered 0 (omega arith), o.behind)

  -- The blocks from the first to the last are written where they stand in the log.
  written_file :
      (count : ℕ)
      → count ≡ b.write_block + 1
      → gathered (write_blocks file (b.blocks 0).log_block_no count b.blocks) b.current_block
        ≡ total_open file b
  written_file count c =
      gathered_congr (write_blocks file (b.blocks 0).log_block_no count b.blocks) (overlaid file b)
        b.current_block same
    where
      same :
          (i : ℕ)
          → 1 ≤ i
          → i ≤ b.current_block
          → write_blocks file (b.blocks 0).log_block_no count b.blocks i ≡ overlaid file b i
      same i k l = unfold write_blocks overlaid in rw first_no (ground (arith, o.behind, c))

  written_same :
      (i : ℕ)
      → 1 ≤ i
      → i < b.current_block
      → write_blocks file (b.blocks 0).log_block_no (b.write_block + 1) b.blocks i
        ≡ overlaid file b i
  unfolding write_blocks overlaid
  written_same i k l = rw first_no (ground (arith, o.behind))

  emptied :
      (file' : ℕ → Block)
      → gathered file' b.current_block ≡ total_open file b
      → Flushed (total_open file b) b file' (emptied_buffer b)
  unfolding emptied_buffer
  emptied file' e = record {
    valid = inl (refl, refl);
    current = refl;
    stored = e;
    total = e;
    space = λ h. refl;
  }

  kept :
      (file' : ℕ → Block)
      → b.write_block ≡ 0
      → gathered file' b.current_block ≡ total_open file b
      → ((i : ℕ) → 1 ≤ i → i < b.current_block → file' i ≡ overlaid file b i)
      → (b.write_offset ≡ buffer_size → b.write_offset ≡ 0)
      → Flushed (total_open file b) b file' b
  kept file' first e same space =
      let offset = o.offset in
      record {
        valid = inr o;
        current = refl;
        stored = e;
        total =
            open_total ∙ gathered_congr (overlaid file' b) (overlaid file b) b.current_block over;
        space = space;
      }
    where
      open_total : total_of file' b ≡ total_open file' b
      open_total = ground (arith, o.offset)

      over : (i : ℕ) → 1 ≤ i → i ≤ b.current_block → overlaid file' b i ≡ overlaid file b i
      over i k l = unfold overlaid in ground (arith, first, same i)

  moved_Flushed :
      (file' : ℕ → Block)
      → (b.blocks b.write_block).log_data_len < block_data_size
      → gathered file' b.current_block ≡ total_open file b
      → ((i : ℕ) → 1 ≤ i → i < b.current_block → file' i ≡ overlaid file b i)
      → (b.write_offset ≡ buffer_size → (moved_last b).write_offset ≡ 0)
      → Flushed (total_open file b) b file' (moved_last b)
  moved_Flushed file' l e same space = record {
    valid = inr (
        unfold moved_last in
        record {
          numbered = λ i k. ground (arith, o.numbered b.write_block);
          full = λ i k. absurd (omega (arith, k));
          within = ground (arith, o.within);
          offset = ground arith;
          room = omega arith;
          behind = omega (arith, o.behind);
        });
    current = unfold moved_last in refl;
    stored = unfold moved_last in e;
    total =
        open_total
        ∙ gathered_congr (overlaid file' (moved_last b)) (overlaid file b) b.current_block over;
    space = space;
  }
    where
      open_total :
          total_of file' (moved_last b) ≡ gathered (overlaid file' (moved_last b)) b.current_block
      open_total = unfold moved_last in ground arith

      over :
          (i : ℕ)
          → 1 ≤ i
          → i ≤ b.current_block
          → overlaid file' (moved_last b) i ≡ overlaid file b i
      over i k l = unfold overlaid moved_last in ground (arith, same i)

  -- flush_buffer of a buffer with a block writes the whole log to the file, and keeps it: the buffer
  -- is empty, or has the last block, which is not full.
  pub flush_buffer-Flushed : let r = flush_buffer file b in Flushed (total_open file b) b r.0 r.1
  unfolding flush_buffer
  flush_buffer-Flushed =
      let last = b.blocks b.write_block in
      let count = b.write_block + 1 in
      let file' = write_blocks file (b.blocks 0).log_block_no count b.blocks in
      let stored = written_file count refl in
      let offset = o.offset in
      let within = o.within in
      let room = o.room in
      elim (Bool-cases (b.write_offset == buffer_size)) [
        | inl full ↦
            let all : buffer_blocks ≡ count = ground arith in
            rw full (
              emptied (write_blocks file (b.blocks 0).log_block_no buffer_blocks b.blocks)
                (written_file buffer_blocks all))
        | inr more ↦
            let space : b.write_offset ≢ buffer_size = ground arith in
            elim (Bool-cases (last.log_data_len == block_data_size)) [
              | inl end ↦ rw (more, end) (emptied file' stored)
              | inr less ↦ elim (Bool-cases (b.write_block == 0)) [
                | inl first ↦
                    rw (more, less, first)
                      (kept file' (ground arith) stored written_same (λ e. absurd (space e)))
                | inr later ↦
                    rw (more, less, later)
                      (moved_Flushed file' (ground arith) stored written_same
                        (λ e. absurd (space e)))
              ]
            ]
      ]
