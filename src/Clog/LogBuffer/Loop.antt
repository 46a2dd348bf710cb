-- ===== src/Clog/LogBuffer/Loop.antt =====
-- CLogBuffer::append_log_record over the blocks of a buffer, with enough fuel.
use oceanbase_jp.Prelude.{
  ℕ, zero, suc, ◌+◌, ◌-◌, ◌*◌, ◌≤◌, ◌<◌, ◌≡◌, inl, inr, refl, ap, ◌∙◌, false, ◌++◌, arith, leb,
  ◌==◌, if◌then◌else◌, Bool-cases,
}
use oceanbase_jp.Prelude.Memory.{read}
use oceanbase_jp.Rc.{Rc, success, logbuf_full}
use oceanbase_jp.Clog.LogRecord.{LogRecord}
use oceanbase_jp.Clog.LogRecord.Copy.{image_from}
use oceanbase_jp.Clog.LogBuffer.{
  Block, LogBuffer, block_size, block_hdr_size, block_data_size, buffer_blocks, buffer_size,
  put_block, new_block, write_part, started, append_log_record,
}
use oceanbase_jp.Clog.LogBuffer.Total.{gathered, IsOpen, IsIdle, IsLogBuffer, total_of}
use oceanbase_jp.Clog.LogBuffer.Append.{
  new_block-IsOpen_first, new_block-total_first, new_block-IsOpen, write_part-IsOpen,
}
use oceanbase_jp.Clog.LogBuffer.Rounds.{
  left_open, left_of, Appends, Result, Enough, open_is_open, open_starts, full_answer, done_answer,
  next_block, part_block, new_block-Enough, write_part-Enough,
}

module _ (file : ℕ → Block) (rec : LogRecord) where
  append_open :
      (fuel : ℕ) (b : LogBuffer) (start : ℕ)
      → IsOpen b
      → start ≤ rec.logrec_len
      → Enough file rec fuel b
      → Result file rec (left_open b) b start (append_log_record fuel rec b start)
  unfolding append_log_record
  append_open zero b start o h e = absurd (omega (arith, e.1, o.room))
  append_open (suc fuel) b start o h e =
      let len = (b.blocks b.write_block).log_data_len in
      let next = new_block b (b.write_block + 1) in
      let n = block_data_size - len in
      let left = rec.logrec_len - start in
      let part = write_part rec b start n block_size in
      let first = if start == 0 then block_hdr_size else block_hdr_size + left in
      let offset = o.offset in
      let within = o.within in
      let room = o.room in
      elim (Bool-cases (b.write_offset == buffer_size)) [
        | inl full ↦
            (logbuf_full, start, b, rw full refl, full_answer file rec b start o h (ground arith))
        | inr more ↦ elim (Bool-cases (len == block_data_size)) [
          | inl end ↦
              let block_full : len ≡ block_data_size = ground arith in
              let not_last : b.write_block + 1 < buffer_blocks = ground arith in
              rw (open_starts file rec b o, more, end)
                (next_block file rec b start (append_log_record fuel rec next start) o block_full
                  not_last
                  (append_open fuel next start (new_block-IsOpen file b o block_full not_last) h
                    (new_block-Enough file rec b fuel (e.1) not_last)))
          | inr space ↦ elim (Bool-cases (leb left n)) [
            | inl fits ↦ (
              success,
              start + left,
              write_part rec b start left first,
              rw (open_starts file rec b o, more, space, fits) refl,
              done_answer file rec b start first o h (ground arith),
            )
            | inr spans ↦
                let beyond : start + n ≤ rec.logrec_len = ground arith in
                rw (open_starts file rec b o, more, space, spans)
                  (part_block file rec b start (append_log_record fuel rec part (start + n)) o
                    beyond
                    (append_open fuel part (start + n)
                      (write_part-IsOpen file b rec start n block_size o (omega arith)) beyond
                      (write_part-Enough file rec b start fuel o (e.0 (ground arith)))))
          ]
        ]
      ]

  idle_starts : (b : LogBuffer) → IsIdle b → started b ≡ new_block b 0
  unfolding started
  idle_starts b h = rw (h.0, h.1) refl

  append_idle :
      (fuel : ℕ) (b : LogBuffer) (start : ℕ)
      → IsIdle b
      → append_log_record (suc fuel) rec b start
        ≡ append_log_record (suc fuel) rec (new_block b 0) start
  unfolding append_log_record
  append_idle fuel b start h =
      let o = new_block-IsOpen_first file b h in
      let idle : (b.write_offset == buffer_size) ≡ false = rw h.0 refl in
      let fresh : ((new_block b 0).write_offset == buffer_size) ≡ false =
        unfold new_block in rw h.0 refl in
      rw (idle_starts b h, open_starts file rec (new_block b 0) o, idle, fresh) refl

  first-Enough :
      (b : LogBuffer)
      → IsIdle b
      → (fuel : ℕ) → 2 * buffer_blocks < fuel
      → Enough file rec fuel (new_block b 0)
  unfolding new_block put_block
  first-Enough b i fuel e = (λ k. omega (arith, e), omega (arith, e))

  idle_answer :
      (b : LogBuffer) (start : ℕ) (rc : Rc) (start' : ℕ) (b' : LogBuffer)
      → IsIdle b
      → Appends file rec start (new_block b 0) (left_open (new_block b 0)) rc start' b'
      → Appends file rec start b (left_of b) rc start' b'
  unfolding new_block put_block
  idle_answer b start rc start' b' i a = record {
    opened = a.opened;
    from = a.from;
    upto = a.upto;
    total =
        a.total
        ∙ ap (λ x. x ++ read (image_from rec start) 0 (start' - start))
            (open_is_open file rec (new_block b 0) (new_block-IsOpen_first file b i)
              ∙ new_block-total_first file b i
              ∙ empty_total);
    ends = rw left_same a.ends;
  }
    where
      empty_total : gathered file b.current_block ≡ total_of file b
      empty_total = rw i.0 refl

      left_same : left_of b ≡ left_open (new_block b 0)
      left_same = rw i.0 refl

  -- CLogBuffer::append_log_record, with more fuel than two rounds for each block of the buffer, ends.
  pub append_log_record-Appends :
      (fuel : ℕ) (b : LogBuffer) (start : ℕ)
      → IsLogBuffer b
      → start ≤ rec.logrec_len
      → 2 * buffer_blocks < fuel
      → Result file rec (left_of b) b start (append_log_record fuel rec b start)
  append_log_record-Appends zero b start v h e = absurd (omega (arith, e))
  append_log_record-Appends (suc fuel) b start (inr o) h e =
      let offset = o.offset in
      let used : (b.write_offset == 0) ≡ false = ground arith in
      rw used (append_open (suc fuel) b start o h (λ k. omega (arith, e), omega (arith, e)))
  append_log_record-Appends (suc fuel) b start (inl i) h e =
      let b1 = new_block b 0 in
      let o = new_block-IsOpen_first file b i in
      let x =
        append_open (suc fuel) b1 start o h (first-Enough b i (suc fuel) (omega (arith, e))) in
      (x.0, x.1, x.2, append_idle fuel b start i ∙ x.3, idle_answer b start x.0 x.1 x.2 i x.4)
