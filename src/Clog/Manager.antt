-- ===== src/Clog/Manager.antt =====
-- CLogManager of storage/clog/clog.cpp: a record goes into the buffer, and a commit into the file.
pub mod Durable
use oceanbase_jp.Prelude.{
  ℕ, zero, suc, ◌+◌, Bool, true, false, Option, none, some, ◌==◌, ◌||◌, not, if◌then◌else◌,
}
use oceanbase_jp.Rc.{Rc, success, logbuf_full}
use oceanbase_jp.Clog.LogRecord.{LogType, redo_mtr_commit, LogRecord}
use oceanbase_jp.Clog.LogBuffer.{Block, LogBuffer, append_log_record, flush_buffer}

-- The blocks of the file, and the buffer.
pub record Clog : Type 0 where
  pub file : ℕ → Block
  pub buffer : LogBuffer

unfoldable pub is_full_rc : Rc → Bool
is_full_rc logbuf_full = true
is_full_rc rc = false

unfoldable pub is_commit : LogType → Bool
is_commit redo_mtr_commit = true
is_commit flag = false

-- clog_sync
unfoldable pub clog_sync : Clog → Clog
unfolding flush_buffer
clog_sync c = let r = flush_buffer c.file c.buffer in record { file = r.0; buffer = r.1 }

-- The second append, whose code is not looked at.
unfoldable pub appended_rest : Rc → (ℕ → Block) → Option (Rc × ℕ × LogBuffer) → Option (Rc × Clog)
appended_rest rc file none = none
appended_rest rc file (some (rc', start_offset, b)) = some (rc, record { file = file; buffer = b })

-- Behind the first append.
unfoldable pub synced :
    ℕ → LogRecord → (ℕ → Block) → Option (Rc × ℕ × LogBuffer) → Option (Rc × Clog)
unfolding is_full_rc appended_rest
synced fuel rec file none = none
synced fuel rec file (some (rc, start_offset, b)) =
    let c = clog_sync (record { file = file; buffer = b }) in
    let rest = appended_rest rc c.file (append_log_record fuel rec c.buffer start_offset) in
    if is_full_rc rc || is_commit rec.flag
    then if start_offset == rec.logrec_len then some (rc, c) else rest
    else some (rc, record { file = file; buffer = b })

-- clog_append_record, on fuel.
unfoldable pub clog_append_record : ℕ → LogRecord → Clog → Option (Rc × Clog)
unfolding synced
clog_append_record fuel rec c = synced fuel rec c.file (append_log_record fuel rec c.buffer 0)
