-- ===== src/Clog/LogBuffer/Rounds.antt =====
-- One round of CLogBuffer::append_log_record: what it writes, and the fuel that is left for the rest.
use mathlib.Core.List.{append-nil, append_assoc}
use oceanbase_jp.Prelude.{
  ℕ, suc, ◌+◌, ◌-◌, ◌*◌, ◌≤◌, ◌<◌, ◌≡◌, ◌⊎◌, inl, inr, refl, sym, ap, ◌∙◌, subst, false, Option,
  some, ◌++◌, arith, ◌==◌, if◌then◌else◌,
}
use oceanbase_jp.Prelude.Memory.{read, read_congr}
use oceanbase_jp.Rc.{Rc, success, logbuf_full}
use oceanbase_jp.Clog.LogRecord.{LogRecord}
use oceanbase_jp.Clog.LogRecord.Copy.{image, image_from}
use oceanbase_jp.Clog.LogBuffer.{
  Block, LogBuffer, block_size, block_data_size, buffer_blocks, buffer_size, put_block, new_block,
  write_part, started,
}
use oceanbase_jp.Clog.LogBuffer.Total.{IsOpen, total_open, total_of, read_split}
use oceanbase_jp.Clog.LogBuffer.Append.{
  new_block-IsOpen, new_block-total, write_part-IsOpen, write_part-total,
}

-- The bytes that a buffer with a block still takes.
abbrev pub left_open : LogBuffer → ℕ
left_open b =
    block_data_size * (buffer_blocks - b.write_block) - (b.blocks b.write_block).log_data_len

-- The bytes that a buffer still takes.
abbrev pub left_of : LogBuffer → ℕ
left_of b = if b.write_offset == 0 then block_data_size * buffer_blocks else left_open b

-- What an append answers: the record is in the log up to the new offset, which is its length, or the
-- buffer is full.
pub record Appends (file : ℕ → Block) (rec : LogRecord) (start : ℕ) (b : LogBuffer) (left : ℕ)
    (rc : Rc) (start' : ℕ) (b' : LogBuffer) : Type 0 where
  pub opened : IsOpen b'
  pub from : start ≤ start'
  pub upto : start' ≤ rec.logrec_len
  pub total : total_open file b' ≡ total_of file b ++ read (image_from rec start) 0 (start' - start)
  pub ends :
      ((rc ≡ success) × (start' ≡ rec.logrec_len))
      ⊎ ((rc ≡ logbuf_full) × (b'.write_offset ≡ buffer_size) × (left + start ≤ rec.logrec_len))

module _ (file : ℕ → Block) (rec : LogRecord) where
  abbrev pub Result : ℕ → LogBuffer → ℕ → Option (Rc × ℕ × LogBuffer) → Type 0
  Result left b start r =
      (rc : Rc) × (start' : ℕ) × (b' : LogBuffer) × (r ≡ some (rc, start', b'))
      × Appends file rec start b left rc start' b'

  pub open_is_open : (b : LogBuffer) → IsOpen b → total_of file b ≡ total_open file b
  open_is_open b o = let offset = o.offset in ground arith

  pub open_starts : (b : LogBuffer) → IsOpen b → started b ≡ b
  unfolding started
  open_starts b o =
      let offset = o.offset in let e : (b.write_offset == 0) ≡ false = ground arith in rw e refl

  -- The rest of a record behind a part.
  pub joined :
      (start n k : ℕ)
      → read (image_from rec start) 0 (n + k)
        ≡ read (image_from rec start) 0 n ++ read (image_from rec (start + n)) 0 k
  joined start n k =
      read_split (image_from rec start) 0 n k
      ∙ ap (◌++◌ (read (image_from rec start) 0 n)) (
          read_congr (image_from rec start) (image_from rec (start + n)) (0 + n) 0 k (λ i l.
            ap (image rec) {x = start + (0 + n + i)} {y = start + n + (0 + i)} (omega arith)))

  -- An append behind one that wrote `n` bytes.
  after_part :
      (b b1 : LogBuffer) (start n : ℕ) (r : Option (Rc × ℕ × LogBuffer))
      → IsOpen b
      → IsOpen b1
      → total_open file b1 ≡ total_open file b ++ read (image_from rec start) 0 n
      → left_open b ≡ left_open b1 + n
      → Result (left_open b1) b1 (start + n) r
      → Result (left_open b) b start r
  after_part b b1 start n r o o1 e k (rc, start', b', eq, a) = (
    rc,
    start',
    b',
    eq,
    record {
      opened = a.opened;
      from = omega (arith, a.from);
      upto = a.upto;
      total =
          a.total
          ∙ ap (λ x. x ++ read (image_from rec (start + n)) 0 (start' - (start + n)))
              (open_is_open b1 o1
                ∙ e
                ∙ ap (λ x. x ++ read (image_from rec start) 0 n) (sym (open_is_open b o)))
          ∙ append_assoc (total_of file b) (read (image_from rec start) 0 n)
              (read (image_from rec (start + n)) 0 (start' - (start + n)))
          ∙ ap (◌++◌ (total_of file b)) (
              sym (joined start n (start' - (start + n)))
              ∙ ap (read (image_from rec start) 0) {x = n + (start' - (start + n))}
                  {y = start' - start} (omega (arith, a.from)));
      ends = ends a.ends;
    },
  )
    where
      ends :
          ((rc ≡ success) × (start' ≡ rec.logrec_len))
            ⊎ ((rc ≡ logbuf_full)
                × (b'.write_offset ≡ buffer_size)
                × (left_open b1 + (start + n) ≤ rec.logrec_len))
          → ((rc ≡ success) × (start' ≡ rec.logrec_len))
            ⊎ ((rc ≡ logbuf_full)
                × (b'.write_offset ≡ buffer_size)
                × (left_open b + start ≤ rec.logrec_len))
      ends (inl x) = inl x
      ends (inr (x, y, z)) = inr (x, y, omega (arith, k, z))

  -- More fuel than rounds: a block takes one for its data and one for the next block.
  abbrev pub Enough : ℕ → LogBuffer → Type 0
  Enough fuel b =
      ((b.blocks b.write_block).log_data_len < block_data_size
        → 2 * (buffer_blocks - b.write_block) < fuel)
      × (2 * (buffer_blocks - b.write_block) ≤ fuel)

  -- The answers of one round.
  pub full_answer :
      (b : LogBuffer) (start : ℕ)
      → IsOpen b
      → start ≤ rec.logrec_len
      → b.write_offset ≡ buffer_size
      → Appends file rec start b (left_open b) logbuf_full start b
  unfolding read
  full_answer b start o h e = record {
    opened = o;
    from = omega arith;
    upto = h;
    total =
        sym (open_is_open b o)
        ∙ sym (append-nil (total_of file b))
        ∙ ap (λ k. total_of file b ++ read (image_from rec start) 0 k) {x = 0} {y = start - start}
            (omega arith);
    ends = inr (refl, e, omega (arith, o.offset, o.within, o.room, e, h));
  }

  pub done_answer :
      (b : LogBuffer) (start first : ℕ)
      → IsOpen b
      → start ≤ rec.logrec_len
      → rec.logrec_len - start ≤ block_data_size - (b.blocks b.write_block).log_data_len
      → Appends file rec start b
          (left_open b)
          success
          (start + (rec.logrec_len - start))
          (write_part rec b start (rec.logrec_len - start) first)
  done_answer b start first o h l = record {
    opened = write_part-IsOpen file b rec start (rec.logrec_len - start) first o l;
    from = omega arith;
    upto = omega arith;
    total =
        write_part-total file b rec start (rec.logrec_len - start) first o (omega arith)
        ∙ ap (λ x. x ++ read (image_from rec start) 0 (rec.logrec_len - start))
            (sym (open_is_open b o))
        ∙ ap (λ k. total_of file b ++ read (image_from rec start) 0 k) {x = rec.logrec_len - start}
            {y = start + (rec.logrec_len - start) - start} (omega arith);
    ends = inl (refl, omega arith);
  }

  pub next_block :
      (b : LogBuffer) (start : ℕ) (r : Option (Rc × ℕ × LogBuffer))
      → IsOpen b
      → (b.blocks b.write_block).log_data_len ≡ block_data_size
      → b.write_block + 1 < buffer_blocks
      → Result
          (left_open (new_block b (b.write_block + 1)))
          (new_block b (b.write_block + 1))
          start
          r
      → Result (left_open b) b start r
  next_block b start r o e l x =
      after_part b (new_block b (b.write_block + 1)) start 0 r o (new_block-IsOpen file b o e l)
        (unfold read in new_block-total file b o ∙ sym (append-nil (total_open file b)))
        (unfold new_block put_block in ground (arith, e))
        (subst
          (λ k.
            Result (left_open (new_block b (b.write_block + 1))) (new_block b (b.write_block + 1)) k
              r)
          {x = start} {y = start + 0} (omega arith) x)

  pub part_block :
      (b : LogBuffer) (start : ℕ) (r : Option (Rc × ℕ × LogBuffer))
      → IsOpen b
      → start + (block_data_size - (b.blocks b.write_block).log_data_len) ≤ rec.logrec_len
      → let n = block_data_size - (b.blocks b.write_block).log_data_len in
        let b1 = write_part rec b start n block_size in
        Result (left_open b1) b1 (start + n) r → Result (left_open b) b start r
  part_block b start r o h x =
      let n = block_data_size - (b.blocks b.write_block).log_data_len in
      let b1 = write_part rec b start n block_size in
      after_part b b1 start n r o (write_part-IsOpen file b rec start n block_size o (omega arith))
        (write_part-total file b rec start n block_size o h)
        (unfold write_part put_block in ground (arith, o.within, o.room)) x

  pub new_block-Enough :
      (b : LogBuffer) (fuel : ℕ)
      → 2 * (buffer_blocks - b.write_block) ≤ suc fuel
      → b.write_block + 1 < buffer_blocks
      → Enough fuel (new_block b (b.write_block + 1))
  unfolding new_block put_block
  new_block-Enough b fuel e l = (λ k. omega (arith, e, l), omega (arith, e, l))

  pub write_part-Enough :
      (b : LogBuffer) (start fuel : ℕ)
      → IsOpen b
      → 2 * (buffer_blocks - b.write_block) < suc fuel
      → Enough fuel (
          write_part rec b start
            (block_data_size - (b.blocks b.write_block).log_data_len)
            block_size)
  unfolding write_part put_block
  write_part-Enough b start fuel o e = (λ k. ground (arith, o.within), omega arith)
