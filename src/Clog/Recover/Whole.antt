-- ===== src/Clog/Recover/Whole.antt =====
-- A block of whole records gives them back.
use oceanbase_jp.Prelude.{
  ℕ, zero, suc, ◌⊎◌, inl, inr, ◌∙◌, ◌+◌, ◌-◌, ◌≤◌, ◌<◌, ◌≡◌, refl, ap, true, false, some, List, [],
  ◌∷◌, arith, ltb, leb, ◌==◌, ◌&&◌, not,
}
use oceanbase_jp.Prelude.Memory.{Mem}
use oceanbase_jp.Clog.LogRecord.{LogRecord, int_at, parse_record}
use oceanbase_jp.Clog.LogRecord.Image.{IsLogRecord, image_size, kept, parse_record-image, image_len}
use oceanbase_jp.Clog.LogRecord.Copy.{image}
use oceanbase_jp.Clog.LogBuffer.{Block, block_size, block_hdr_size}
use oceanbase_jp.Clog.Redo.{manage_all}
use oceanbase_jp.Clog.Recover.{
  LogRecordBuf, block_from, block_recover, Reading, took, block_loop, read_record,
}

-- From an offset on up to an end, a block holds whole records.
abbrev pub HoldsRecords : Block → ℕ → ℕ → List LogRecord → Type 0
HoldsRecords block offset end [] = offset ≡ end
HoldsRecords block offset end (r ∷ rs) =
    IsLogRecord r
    × (16 ≤ r.logrec_len)
    × (image_size r r.flag ≤ r.logrec_len)
    × (offset + r.logrec_len ≤ end)
    × ((i : ℕ) → i < r.logrec_len → block_from block offset i ≡ image r i)
    × HoldsRecords block (offset + r.logrec_len) end rs

abbrev pub kept_all : List LogRecord → List LogRecord
kept_all [] = []
kept_all (r ∷ rs) = kept r r.flag ∷ kept_all rs

abbrev pub count_of : List LogRecord → ℕ
count_of [] = 0
count_of (r ∷ rs) = count_of rs + 1

pub read_record-parse_record :
    (m : Mem) {r : LogRecord} → parse_record m ≡ some r → read_record m ≡ r
unfolding read_record
read_record-parse_record m e = ground arith

module _ (block : Block) where
  -- No end of a record is in front of an offset.
  abbrev pub Begins : ℕ → Type 0
  Begins offset = (block_hdr_size < offset) ⊎ (block.first_rec_offset ≡ block_hdr_size)

  pub Begins-whole :
      (offset : ℕ)
      → Begins offset
      → ((offset == block_hdr_size) && not (block.first_rec_offset == block_hdr_size)) ≡ false
  Begins-whole offset (inl x) = ground arith
  Begins-whole offset (inr x) = ground arith

  -- One record is read.
  one_record :
      (offset end : ℕ) (r : LogRecord) (buf : LogRecordBuf)
      → Begins offset
      → buf.write_offset ≡ 0
      → end ≤ block_size
      → IsLogRecord r
      → 16 ≤ r.logrec_len
      → image_size r r.flag ≤ r.logrec_len
      → offset + r.logrec_len ≤ end
      → ((i : ℕ) → i < r.logrec_len → block_from block offset i ≡ image r i)
      → block_recover block offset buf ≡ (offset + r.logrec_len, buf, some (kept r r.flag))
  unfolding block_recover
  one_record offset end r buf begins empty l f s u w h =
      let starts : ((offset == block_hdr_size) && not (block.first_rec_offset == block_hdr_size))
          ≡ false =
        Begins-whole offset begins in
      let room : ltb (block_size - offset) 16 ≡ false = ground arith in
      let none_kept : not (buf.write_offset == 0) ≡ false = ground arith in
      let len : int_at (block_from block offset) 12 ≡ r.logrec_len =
        image_len (block_from block offset) r f (λ i k. h i (omega arith)) in
      let fits : leb r.logrec_len (block_size - offset) ≡ true = ground arith in
      rw (starts, room, none_kept, len, fits)
        (ap (λ x. (offset + r.logrec_len, buf, some x)) parsed)
    where
      parsed : read_record (block_from block offset) ≡ kept r r.flag
      parsed =
          read_record-parse_record (block_from block offset)
            (parse_record-image (block_from block offset) r f (λ i k. h i (omega (arith, u, k))))

  -- What the reading of records makes of what it keeps.
  abbrev pub after : Reading → List LogRecord → Reading
  after s [] = s
  after s (r ∷ rs) = after (took s s.buf (some (kept r r.flag))) rs

  pub after-manage_all :
      (s : Reading) (rs : List LogRecord) → (after s rs).mtr ≡ manage_all s.mtr (kept_all rs)
  unfolding manage_all took
  after-manage_all s [] = refl
  after-manage_all s (r ∷ rs) = after-manage_all (took s s.buf (some (kept r r.flag))) rs

  pub after_buf : (s : Reading) (rs : List LogRecord) → (after s rs).buf ≡ s.buf
  unfolding took
  after_buf s [] = refl
  after_buf s (r ∷ rs) = after_buf (took s s.buf (some (kept r r.flag))) rs

  -- The loop goes on behind whole records.
  pub records_then :
      (all rest offset end : ℕ) (s : Reading) (rs : List LogRecord)
      → Begins offset
      → s.buf.write_offset ≡ 0
      → end ≤ block_hdr_size + block.log_data_len
      → block_hdr_size + block.log_data_len ≤ block_size
      → HoldsRecords block offset end rs
      → count_of rs + rest ≡ all
      → block_loop all block offset s ≡ block_loop rest block end (after s rs)
  unfolding block_loop took
  records_then all rest offset end s [] begins empty k l h e =
      ap (λ f. block_loop f block offset s) {x = all} {y = rest} (omega (arith, e))
      ∙ ap (λ o. block_loop rest block o s) h
  records_then zero rest offset end s (r ∷ rs) begins empty k l h e = absurd (omega (arith, e))
  records_then (suc all) rest offset end s (r ∷ rs) begins empty k l h e =
      let more : ltb offset (block_hdr_size + block.log_data_len) ≡ true =
        ground (arith, h.1, h.3, k) in
      rw
        (more, one_record offset end r s.buf begins empty (omega (arith, k, l)) h.0 h.1 h.2 h.3 h.4)
        (records_then all rest (offset + r.logrec_len) end (took s s.buf (some (kept r r.flag))) rs
          (further offset begins (h.1)) empty k l h.5 (omega (arith, e)))
    where
      further : (o : ℕ) → Begins o → 16 ≤ r.logrec_len → Begins (o + r.logrec_len)
      further o (inl x) z = inl (omega (arith, x))
      further o (inr x) z = inr x

  pub loop_ends :
      (rest : ℕ) (s : Reading)
      → 0 < rest
      → block_loop rest block (block_hdr_size + block.log_data_len) s ≡ some s
  unfolding block_loop
  loop_ends zero s e = absurd (omega (arith, e))
  loop_ends (suc rest) s e =
      let end : ltb (block_hdr_size + block.log_data_len) (block_hdr_size + block.log_data_len)
          ≡ false =
        ground arith in
      rw end refl

  -- The loop of CLogFile::recover over a block in which no record begins or ends outside, with an
  -- empty buffer and with more fuel than records, ends and manages exactly the records of the block,
  -- in their order, with the fields that their types have in the log.
  pub block_loop-manage_all :
      (fuel : ℕ) (s : Reading) (rs : List LogRecord)
      → block.first_rec_offset ≡ block_hdr_size
      → s.buf.write_offset ≡ 0
      → block_hdr_size + block.log_data_len ≤ block_size
      → HoldsRecords block block_hdr_size (block_hdr_size + block.log_data_len) rs
      → count_of rs < fuel
      → (s' : Reading) × (block_loop fuel block block_hdr_size s ≡ some s')
        × (s'.mtr ≡ manage_all s.mtr (kept_all rs))
        × (s'.buf ≡ s.buf)
  block_loop-manage_all fuel s rs whole empty l h e = (
    after s rs,
    records_then fuel (fuel - count_of rs) block_hdr_size (block_hdr_size + block.log_data_len) s rs
          (inr whole) empty (omega arith) l h (omega (arith, e))
        ∙ loop_ends (fuel - count_of rs) (after s rs) (omega (arith, e)),
    after-manage_all s rs,
    after_buf s rs,
  )
