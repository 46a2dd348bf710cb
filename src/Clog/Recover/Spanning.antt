-- ===== src/Clog/Recover/Spanning.antt =====
-- A record that begins in one block and ends in the next is put together, with the records around it.
use oceanbase_jp.Prelude.{
  ℕ, zero, suc, ◌+◌, ◌-◌, ◌≤◌, ◌<◌, ◌≡◌, inl, inr, refl, sym, ap, ◌∙◌, true, false, some, none,
  List, [], ◌∷◌, ◌++◌, arith, ltb, leb, ◌==◌, ◌&&◌, not, Bool-cases,
}
use oceanbase_jp.Prelude.Memory.{copy_in, copy_in_inside, copy_in_outside}
use oceanbase_jp.Clog.LogRecord.{LogRecord, int_at}
use oceanbase_jp.Clog.LogRecord.Image.{IsLogRecord, image_size, kept, parse_record-image, image_len}
use oceanbase_jp.Clog.LogRecord.Copy.{image}
use oceanbase_jp.Clog.LogBuffer.{Block, block_size, block_hdr_size, block_data_size}
use oceanbase_jp.Clog.Redo.{MtrManager, log_record_manage, manage_all}
use oceanbase_jp.Clog.Recover.{
  LogRecordBuf, empty_record_buf, block_from, block_recover, gathered_part, Reading, took,
  block_loop, read_record, finish,
}
use oceanbase_jp.Clog.Recover.Whole.{
  HoldsRecords, kept_all, count_of, Begins, Begins-whole, after, after-manage_all, after_buf,
  records_then, loop_ends, read_record-parse_record,
}

-- A record spans two blocks from an offset of the first on, with its header in the first block.
pub record Spans (first second : Block) (r : LogRecord) (start : ℕ) : Type 0 where
  pub fits : IsLogRecord r
  pub sized : image_size r r.flag ≤ r.logrec_len
  pub full : first.log_data_len ≡ block_data_size
  pub behind : block_hdr_size ≤ start
  pub header : start + 16 ≤ block_size
  pub spans : block_size < start + r.logrec_len
  pub head : (i : ℕ) → i < block_size - start → block_from first start i ≡ image r i
  pub ends : second.first_rec_offset + block_size ≡ block_hdr_size + start + r.logrec_len
  pub inside : second.first_rec_offset ≤ block_hdr_size + second.log_data_len
  pub second_len : second.log_data_len ≤ block_data_size
  pub tail :
      (i : ℕ)
      → i < second.first_rec_offset - block_hdr_size
      → block_from second block_hdr_size i ≡ image r (block_size - start + i)

finish_empty : (s : Reading) → s.buf.write_offset ≡ 0 → finish s ≡ s
unfolding finish
finish_empty s e = rw e refl

finish_full :
    (s : Reading)
    → 0 < s.buf.write_offset
    → (finish s).mtr ≡ log_record_manage s.mtr (read_record s.buf.bytes)
unfolding finish
finish_full s e =
    let some_bytes : (s.buf.write_offset == 0) ≡ false = ground arith in rw some_bytes refl

manage_all-append :
    (m : MtrManager) (rs : List LogRecord) (r : LogRecord) (more : List LogRecord)
    → manage_all m (kept_all (rs ++ r ∷ more))
      ≡ manage_all (log_record_manage (manage_all m (kept_all rs)) (kept r r.flag)) (kept_all more)
unfolding manage_all
manage_all-append m [] r more = refl
manage_all-append m (r1 ∷ rs) r more =
    manage_all-append (log_record_manage m (kept r1 r1.flag)) rs r more

module _ (first second : Block) (r : LogRecord) (start : ℕ) (h : Spans first second r start) where
  -- The buffer behind the part in the first block, and behind the part in the second.
  abbrev head_buf : LogRecordBuf → LogRecordBuf
  head_buf buf = gathered_part first start buf (block_size - start)

  abbrev whole_buf : LogRecordBuf → LogRecordBuf
  whole_buf buf =
      gathered_part second block_hdr_size (head_buf buf) (second.first_rec_offset - block_hdr_size)

  head_part :
      (buf : LogRecordBuf)
      → Begins first start
      → buf.write_offset ≡ 0
      → block_recover first start buf ≡ (block_size, head_buf buf, none)
  unfolding block_recover
  head_part buf begins empty =
      let fits = h.fits in
      let room : ltb (block_size - start) 16 ≡ false = ground (arith, h.header) in
      let none_kept : not (buf.write_offset == 0) ≡ false = ground arith in
      let len : int_at (block_from first start) 12 ≡ r.logrec_len =
        image_len (block_from first start) r fits (λ i k. h.head i (omega (arith, k, h.header))) in
      let longer : leb r.logrec_len (block_size - start) ≡ false = ground (arith, h.spans) in
      rw (Begins-whole first start begins, room, none_kept, len, longer) refl

  tail_part :
      (buf : LogRecordBuf)
      → block_recover second block_hdr_size (head_buf buf)
        ≡ (second.first_rec_offset, whole_buf buf, none)
  unfolding block_recover
  tail_part buf =
      let starts : ((8 == block_hdr_size) && not (second.first_rec_offset == block_hdr_size))
          ≡ true =
        ground (arith, h.ends, h.spans) in
      rw starts (
        ap (λ o. (o, whole_buf buf, none))
          {x = block_hdr_size + (second.first_rec_offset - block_hdr_size)}
          {y = second.first_rec_offset} (omega (arith, h.ends, h.spans)))

  -- The buffer has the image of the record.
  whole_byte :
      (buf : LogRecordBuf)
      → buf.write_offset ≡ 0
      → (i : ℕ) → i < r.logrec_len
      → (whole_buf buf).bytes i ≡ image r i
  unfolding gathered_part
  whole_byte buf empty i l =
      let n = block_size - start in
      let rest = second.first_rec_offset - block_hdr_size in
      let bytes = copy_in buf.bytes buf.write_offset (block_from first start) n in
      elim (Bool-cases (ltb i n)) [
        | inl e ↦
            let below : i < n = ground arith in
            copy_in_outside bytes (buf.write_offset + n) (block_from second block_hdr_size) rest i
              (inl (omega arith))
            ∙ copy_in_inside buf.bytes buf.write_offset (block_from first start) n i (omega arith)
                (omega arith)
            ∙ ap (block_from first start) {x = i - buf.write_offset} {y = i} (omega arith)
            ∙ h.head i below
        | inr e ↦
            let above : n ≤ i = ground arith in
            copy_in_inside bytes (buf.write_offset + n) (block_from second block_hdr_size) rest i
              (omega arith) (omega (arith, h.ends, h.header, h.spans))
            ∙ ap (block_from second block_hdr_size) {x = i - (buf.write_offset + n)} {y = i - n}
                (omega arith)
            ∙ h.tail (i - n) (omega (arith, h.ends, h.header, h.spans))
            ∙ ap (image r) {x = n + (i - n)} {y = i} (omega arith)
      ]

  whole_read :
      (buf : LogRecordBuf)
      → buf.write_offset ≡ 0
      → read_record (whole_buf buf).bytes ≡ kept r r.flag
  whole_read buf empty = read_record-parse_record (whole_buf buf).bytes (
      parse_record-image (whole_buf buf).bytes r h.fits
        (λ i k. whole_byte buf empty i (omega (arith, h.sized, k))))

  -- The loop over the first block, from the record on.
  head_loop :
      (rest : ℕ) (s : Reading)
      → 1 < rest
      → Begins first start
      → s.buf.write_offset ≡ 0
      → block_loop rest first start s ≡ some (took s (head_buf s.buf) none)
  unfolding block_loop
  head_loop zero s e begins empty = absurd (omega (arith, e))
  head_loop (suc zero) s e begins empty = absurd (omega (arith, e))
  head_loop (suc (suc rest)) s e begins empty =
      let more : ltb start (block_hdr_size + first.log_data_len) ≡ true =
        ground (arith, h.header, h.full) in
      let end : ltb 512 (block_hdr_size + first.log_data_len) ≡ false = ground (arith, h.full) in
      rw (more, head_part s.buf begins empty, end) refl

  -- What the reading keeps behind the record.
  abbrev joined : Reading → Reading
  joined s = took s empty_record_buf (some (kept r r.flag))

  -- The round that takes the record out of the buffer, with another record behind it.
  taken :
      (s : Reading) (buf : LogRecordBuf)
      → buf.write_offset ≡ 0
      → second.first_rec_offset + 16 ≤ block_size
      → block_recover second second.first_rec_offset (whole_buf buf)
        ≡ (second.first_rec_offset, empty_record_buf, some (kept r r.flag))
  unfolding block_recover
  taken s buf empty room =
      let begins : Begins second second.first_rec_offset = inl (omega (arith, h.ends, h.spans)) in
      let wide : ltb (block_size - second.first_rec_offset) 16 ≡ false = ground arith in
      let some_kept : not ((whole_buf buf).write_offset == 0) ≡ true = ground (arith, h.header) in
      rw (Begins-whole second second.first_rec_offset begins, wide, some_kept, whole_read buf empty)
        refl

  second_loop :
      (fuel : ℕ) (s : Reading) (buf : LogRecordBuf) (rs : List LogRecord)
      → buf.write_offset ≡ 0
      → HoldsRecords second second.first_rec_offset (block_hdr_size + second.log_data_len) rs
      → count_of rs + 2 < fuel
      → (s2 : Reading) × (block_loop fuel second block_hdr_size (took s (head_buf buf) none)
          ≡ some s2)
        × ((finish s2).mtr ≡ manage_all (log_record_manage s.mtr (kept r r.flag)) (kept_all rs))
  unfolding block_loop took
  second_loop zero s buf rs empty g e = absurd (omega (arith, e))
  second_loop (suc zero) s buf rs empty g e = absurd (omega (arith, e))
  second_loop (suc (suc fuel)) s buf [] empty g e =
      let more : ltb 8 (block_hdr_size + second.log_data_len) ≡ true =
        ground (arith, h.ends, h.inside, h.spans) in
      let end : ltb second.first_rec_offset (block_hdr_size + second.log_data_len) ≡ false =
        ground (arith, g) in
      (
        took s (whole_buf buf) none,
        rw (more, tail_part buf, end) refl,
        unfold manage_all in
            (finish_full (took s (whole_buf buf) none)
                (unfold gathered_part in omega (arith, h.header))
              ∙ ap (log_record_manage s.mtr) (whole_read buf empty)),
      )
  second_loop (suc (suc fuel)) s buf (r2 ∷ rs) empty g e =
      let end = block_hdr_size + second.log_data_len in
      let more : ltb 8 end ≡ true = ground (arith, h.ends, h.inside, h.spans) in
      let again : ltb second.first_rec_offset end ≡ true = ground (arith, g.1, g.3) in
      let room : second.first_rec_offset + 16 ≤ block_size =
        omega (arith, g.1, g.3, h.second_len) in
      let rest = fuel - count_of (r2 ∷ rs) in
      let s2 = after second (joined s) (r2 ∷ rs) in
      (
        s2,
        rw (more, tail_part buf, again, taken s buf empty room)
            (records_then second fuel rest second.first_rec_offset end (joined s) (r2 ∷ rs)
                (inl (omega (arith, h.ends, h.spans))) refl (omega arith)
                (omega (arith, h.second_len)) g (omega (arith, e))
              ∙ loop_ends second rest s2 (omega (arith, e))),
        ap (λ x. x.mtr)
              (finish_empty s2 (ap (λ b. b.write_offset) (after_buf second (joined s) (r2 ∷ rs))))
            ∙ after-manage_all second (joined s) (r2 ∷ rs),
      )

  -- Where two blocks hold whole records, then a record that spans them and has its header in the first
  -- block, and then whole records again, the loops of CLogFile::recover over the two, with an empty
  -- buffer and with more fuel than rounds, end, and with the end of the reading they manage exactly
  -- these records, in their order, with the fields that their types have in the log.
  pub block_loop-manage_all_spanning :
      (fuel1 fuel2 : ℕ) (s : Reading) (rs1 rs2 : List LogRecord)
      → first.first_rec_offset ≡ block_hdr_size
      → s.buf.write_offset ≡ 0
      → HoldsRecords first block_hdr_size start rs1
      → HoldsRecords second second.first_rec_offset (block_hdr_size + second.log_data_len) rs2
      → count_of rs1 + 1 < fuel1
      → count_of rs2 + 2 < fuel2
      → (s1 : Reading) × (s2 : Reading) × (block_loop fuel1 first block_hdr_size s ≡ some s1)
        × (block_loop fuel2 second block_hdr_size s1 ≡ some s2)
        × ((finish s2).mtr ≡ manage_all s.mtr (kept_all (rs1 ++ r ∷ rs2)))
  block_loop-manage_all_spanning fuel1 fuel2 s rs1 rs2 whole empty g1 g2 e1 e2 =
      let rest = fuel1 - count_of rs1 in
      let s0 = after first s rs1 in
      let empty0 : s0.buf.write_offset ≡ 0 =
        ap (λ b. b.write_offset) (after_buf first s rs1) ∙ empty in
      let x = second_loop fuel2 s0 s0.buf rs2 empty0 g2 e2 in
      (
        took s0 (head_buf s0.buf) none,
        x.0,
        records_then first fuel1 rest block_hdr_size start s rs1 (inr whole) empty
              (omega (arith, h.header, h.full)) (omega (arith, h.full)) g1 (omega (arith, e1))
            ∙ head_loop rest s0 (omega (arith, e1)) (inr whole) empty0,
        x.1,
        x.2
            ∙ ap (λ m. manage_all (log_record_manage m (kept r r.flag)) (kept_all rs2))
                (after-manage_all first s rs1)
            ∙ sym (manage_all-append s.mtr rs1 r rs2),
      )
