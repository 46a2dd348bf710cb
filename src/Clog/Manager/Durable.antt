-- ===== src/Clog/Manager/Durable.antt =====
-- clog_append_record puts a record behind the log, and the log up to a commit into the file.
use mathlib.Core.List.{append_assoc}
use oceanbase_jp.Prelude.{
  ℕ, ◌+◌, ◌-◌, ◌*◌, ◌≤◌, ◌<◌, ◌≡◌, ◌⊎◌, inl, inr, refl, sym, ap, ◌∙◌, true, false, some, List, ◌++◌,
  arith, ◌==◌, Bool-cases,
}
use oceanbase_jp.Prelude.Memory.{read}
use oceanbase_jp.Rc.{Rc, success, logbuf_full}
use oceanbase_jp.Clog.LogRecord.{redo_mtr_commit, LogRecord}
use oceanbase_jp.Clog.LogRecord.Copy.{image_from}
use oceanbase_jp.Clog.LogBuffer.{
  LogBuffer, block_data_size, buffer_blocks, buffer_size, flush_buffer,
}
use oceanbase_jp.Clog.LogBuffer.Total.{gathered, IsOpen, IsLogBuffer, total_open, total_of}
use oceanbase_jp.Clog.LogBuffer.Loop.{append_log_record-Appends}
use oceanbase_jp.Clog.LogBuffer.Rounds.{Appends, left_of, open_is_open, joined}
use oceanbase_jp.Clog.LogBuffer.Flush.{flush_buffer-Flushed}
use oceanbase_jp.Clog.Manager.{Clog, is_commit, clog_sync, synced, clog_append_record}

-- The whole log.
abbrev pub log_of : Clog → List ℕ
log_of c = total_of c.file c.buffer

-- What clog_append_record makes of a log.
pub record Logged (rec : LogRecord) (c : Clog) (rc : Rc) (c' : Clog) : Type 0 where
  pub valid : IsLogBuffer c'.buffer
  pub answer : (rc ≡ success) ⊎ (rc ≡ logbuf_full)
  pub log : log_of c' ≡ log_of c ++ read (image_from rec 0) 0 rec.logrec_len
  pub durable :
      rc ≡ success
      → rec.flag ≡ redo_mtr_commit
      → gathered c'.file c'.buffer.current_block ≡ log_of c'

module _ (rec : LogRecord) (c : Clog) where
  -- The log behind an append of a part, and behind a flush.
  sync_answer :
      (b : LogBuffer) (rc : Rc)
      → (rc ≡ success) ⊎ (rc ≡ logbuf_full)
      → IsOpen b
      → total_open c.file b ≡ log_of c ++ read (image_from rec 0) 0 rec.logrec_len
      → Logged rec c rc (clog_sync (record { file = c.file; buffer = b }))
  unfolding clog_sync
  sync_answer b rc a o e =
      let f = flush_buffer-Flushed c.file b o in
      record {
        valid = f.valid;
        answer = a;
        log = f.total ∙ e;
        durable = λ x y. f.stored ∙ sym f.total;
      }

  -- Nothing is flushed.
  plain_answer :
      (b : LogBuffer)
      → IsOpen b
      → is_commit rec.flag ≡ false
      → total_open c.file b ≡ log_of c ++ read (image_from rec 0) 0 rec.logrec_len
      → Logged rec c success (record { file = c.file; buffer = b })
  unfolding is_commit
  plain_answer b o k e = record {
    valid = inr o;
    answer = inl refl;
    log = open_is_open c.file rec b o ∙ e;
    durable = λ x y. absurd (no_commit (sym (ap is_commit y) ∙ k));
  }
    where
      no_commit : true ≡ false → ⊥
      no_commit q = cc

  abbrev synced_log : LogBuffer → Clog
  synced_log b = clog_sync (record { file = c.file; buffer = b })

  sync_total : (b : LogBuffer) → IsOpen b → log_of (synced_log b) ≡ total_open c.file b
  unfolding clog_sync
  sync_total b o = (flush_buffer-Flushed c.file b o).total

  sync_valid : (b : LogBuffer) → IsOpen b → IsLogBuffer (synced_log b).buffer
  unfolding clog_sync
  sync_valid b o = (flush_buffer-Flushed c.file b o).valid

  sync_left :
      (b : LogBuffer)
      → IsOpen b
      → b.write_offset ≡ buffer_size
      → left_of (synced_log b).buffer ≡ block_data_size * buffer_blocks
  unfolding clog_sync
  sync_left b o e =
      let space : (flush_buffer c.file b).1.write_offset ≡ 0 =
        (flush_buffer-Flushed c.file b o).space e in
      ground arith

  -- The rest of a record behind a flush of a full buffer.
  rest_answer :
      (b : LogBuffer) (start start' : ℕ) (b' : LogBuffer)
      → IsOpen b
      → start ≤ rec.logrec_len
      → total_open c.file b ≡ log_of c ++ read (image_from rec 0) 0 start
      → let c1 = clog_sync (record { file = c.file; buffer = b }) in
        IsOpen b'
        → start ≤ start'
        → start' ≡ rec.logrec_len
        → total_open c1.file b' ≡ log_of c1 ++ read (image_from rec start) 0 (start' - start)
        → Logged rec c logbuf_full (record { file = c1.file; buffer = b' })
  rest_answer b start start' b' o h e o' l s t =
      let k = start' - start in
      let behind : read (image_from rec (0 + start)) 0 k ≡ read (image_from rec start) 0 k =
        ap (λ x. read (image_from rec x) 0 k) {x = 0 + start} {y = start} (omega arith) in
      let parts = read (image_from rec 0) 0 start in
      record {
        valid = inr o';
        answer = inr refl;
        log =
            open_is_open (synced_log b).file rec b' o'
            ∙ t
            ∙ ap (λ x. x ++ read (image_from rec start) 0 k) (sync_total b o ∙ e)
            ∙ append_assoc (log_of c) parts (read (image_from rec start) 0 k)
            ∙ ap (λ x. log_of c ++ (parts ++ x)) (sym behind)
            ∙ ap (◌++◌ (log_of c)) (
                sym (joined c.file rec 0 start k)
                ∙ ap (read (image_from rec 0) 0) {x = start + k} {y = rec.logrec_len}
                    (omega (arith, l, s)));
        durable = λ x y. absurd (not_success x);
      }
    where
      not_success : logbuf_full ≡ success → ⊥
      not_success q = cc

  -- The first append, and what follows it.
  synced-Logged :
      (fuel : ℕ) (rc : Rc) (start : ℕ) (b : LogBuffer)
      → rec.logrec_len < block_data_size * buffer_blocks
      → 2 * buffer_blocks < fuel
      → Appends c.file rec 0 c.buffer (left_of c.buffer) rc start b
      → (rc' : Rc) × (c' : Clog) × (synced fuel rec c.file (some (rc, start, b)) ≡ some (rc', c'))
        × Logged rec c rc' c'
  unfolding synced
  synced-Logged fuel rc start b short e a = ends a.ends
    where
      from_start : total_open c.file b ≡ log_of c ++ read (image_from rec 0) 0 start
      from_start =
          a.total
          ∙ ap (λ n. log_of c ++ read (image_from rec 0) 0 n) {x = start - 0} {y = start}
              (omega arith)

      from_whole :
          start ≡ rec.logrec_len
          → total_open c.file b ≡ log_of c ++ read (image_from rec 0) 0 rec.logrec_len
      from_whole q = from_start ∙ ap (λ n. log_of c ++ read (image_from rec 0) 0 n) q

      ends :
          ((rc ≡ success) × (start ≡ rec.logrec_len))
            ⊎ ((rc ≡ logbuf_full)
                × (b.write_offset ≡ buffer_size)
                × (left_of c.buffer + 0 ≤ rec.logrec_len))
          → (rc' : Rc) × (c' : Clog) × (synced fuel rec c.file (some (rc, start, b))
              ≡ some (rc', c'))
            × Logged rec c rc' c'
      ends (inl (ok, q)) = elim (Bool-cases (is_commit rec.flag)) [
        | inl k ↦
            let all : (start == rec.logrec_len) ≡ true = ground arith in
            (
              success,
              synced_log b,
              rw (ok, k, all) refl,
              sync_answer b success (inl refl) a.opened (from_whole q),
            )
        | inr k ↦ (
          success,
          record { file = c.file; buffer = b },
          rw (ok, k) refl,
          plain_answer b a.opened k (from_whole q),
        )
      ]
      ends (inr (full, off, l)) = elim (Bool-cases (start == rec.logrec_len)) [
        | inl all ↦ (
          logbuf_full,
          synced_log b,
          rw (full, all) refl,
          sync_answer b logbuf_full (inr refl) a.opened (from_whole (ground arith)),
        )
        | inr more ↦
            let c1 = synced_log b in
            let x =
              append_log_record-Appends c1.file rec fuel c1.buffer start (sync_valid b a.opened)
                a.upto e in
            (
              logbuf_full,
              record { file = c1.file; buffer = x.2 },
              rw (full, more, x.3) refl,
              rest_answer b start x.1 x.2 a.opened a.upto from_start x.4.opened x.4.from
                  (whole x.0 x.1 x.2 (sync_left b a.opened off) x.4.ends) x.4.total,
            )
      ]
        where
          whole :
              (rc1 : Rc) (start1 : ℕ) (b1 : LogBuffer)
              → left_of (synced_log b).buffer ≡ block_data_size * buffer_blocks
              → ((rc1 ≡ success) × (start1 ≡ rec.logrec_len))
                ⊎ ((rc1 ≡ logbuf_full)
                    × (b1.write_offset ≡ buffer_size)
                    × (left_of (synced_log b).buffer + start ≤ rec.logrec_len))
              → start1 ≡ rec.logrec_len
          whole rc1 start1 b1 s (inl y) = y.1
          whole rc1 start1 b1 s (inr y) = absurd (omega (arith, s, y.2, short))

  -- CLogManager::clog_append_record, with more fuel than two rounds for each block of the buffer, for
  -- a record that is shorter than the data of the buffer, ends with success or LOGBUF_FULL. It keeps
  -- the buffer valid and puts the bytes of the record behind the log, and nothing else. If it succeeds
  -- with a commit, the blocks of the file hold the whole log.
  pub clog_append_record-Logged :
      (fuel : ℕ)
      → IsLogBuffer c.buffer
      → rec.logrec_len < block_data_size * buffer_blocks
      → 2 * buffer_blocks < fuel
      → (rc : Rc) × (c' : Clog) × (clog_append_record fuel rec c ≡ some (rc, c'))
        × Logged rec c rc c'
  unfolding clog_append_record
  clog_append_record-Logged fuel v short e =
      let x = append_log_record-Appends c.file rec fuel c.buffer 0 v (omega arith) e in
      rw x.3 (synced-Logged fuel x.0 x.1 x.2 short e x.4)
