-- ===== src/Clog/Redo.antt =====
-- CLogMTRManager of storage/clog/clog.cpp, and Db::recover of storage/common/db.cpp: the redo of the
-- changes that a log holds. The tables are a parameter: whether there is one by a name, and what it
-- answers to the redo of a change.
pub mod Committed
pub mod Unfinished
pub mod Reused
pub mod Marks
use oceanbase_jp.Prelude.{
  ℕ, zero, suc, Bool, true, false, Option, none, some, List, [], ◌∷◌, ◌++◌, ltb, ◌==◌, not,
  if◌then◌else◌,
}
use oceanbase_jp.Rc.{Rc, success, generic_error}
use oceanbase_jp.Clog.LogRecord.{
  LogType, redo_mtr_begin, redo_mtr_commit, redo_insert, redo_update, redo_delete, LogRecord,
}

-- `none` is an identifier that is not in the map.
pub record MtrManager : Type 0 where
  pub log_redo_list : List LogRecord
  pub trx_commited : ℕ → Option Bool

abbrev pub no_mtr : MtrManager
no_mtr = record { log_redo_list = []; trx_commited = λ id. none }

unfoldable pub set_commited : (ℕ → Option Bool) → ℕ → Bool → ℕ → Option Bool
set_commited m trx_id b id = if id == trx_id then some b else m id

-- `insert`, which leaves an identifier that is there.
unfoldable pub insert_commited : (ℕ → Option Bool) → ℕ → Bool → ℕ → Option Bool
unfolding set_commited
insert_commited m trx_id b = elim (m trx_id) [ none ↦ set_commited m trx_id b | some _ ↦ m ]

unfoldable pub managed : MtrManager → LogRecord → LogType → MtrManager
unfolding set_commited insert_commited
managed m log_rec redo_mtr_commit = record m {
  trx_commited = set_commited m.trx_commited log_rec.trx_id true;
}
managed m log_rec redo_mtr_begin = record m {
  trx_commited = insert_commited m.trx_commited log_rec.trx_id false;
}
managed m log_rec _ = record m { log_redo_list = m.log_redo_list ++ log_rec ∷ [] }

unfoldable pub log_record_manage : MtrManager → LogRecord → MtrManager
unfolding managed
log_record_manage m log_rec = managed m log_rec log_rec.flag

-- The records of a log, one after the other.
unfoldable pub manage_all : MtrManager → List LogRecord → MtrManager
unfolding log_record_manage
manage_all m [] = m
manage_all m (r ∷ rs) = manage_all (log_record_manage m r) rs

unfoldable pub is_change : LogType → Bool
is_change redo_insert = true
is_change redo_update = true
is_change redo_delete = true
is_change _ = false

pub record Tables (W : Type 0) : Type 0 where
  pub find_table : W → List ℕ → Bool
  pub recover_record : W → LogRecord → Rc × W

module _ {W : Type 0} (tables : Tables W) where
  -- The end of a round: the loop goes on behind a success, with the greater identifier.
  unfoldable pub redone : (W → ℕ → Rc × W × ℕ) → LogRecord → ℕ → Rc × W → Rc × W × ℕ
  redone next r max_trx_id (success, w) =
      next w (if ltb max_trx_id r.trx_id then r.trx_id else max_trx_id)
  redone next r max_trx_id (rc, w) = (rc, w, max_trx_id)

  unfoldable pub redo_change : (W → ℕ → Rc × W × ℕ) → LogRecord → W → ℕ → Option Bool → Rc × W × ℕ
  unfolding redone
  redo_change next r w max_trx_id none = (generic_error, w, max_trx_id)
  redo_change next r w max_trx_id (some false) = next w max_trx_id
  redo_change next r w max_trx_id (some true) =
      if tables.find_table w r.table_name
      then redone next r max_trx_id (tables.recover_record w r)
      else next w max_trx_id

  -- The loop of Db::recover, with the greatest identifier that was redone.
  unfoldable pub redo_loop : (ℕ → Option Bool) → List LogRecord → W → ℕ → Rc × W × ℕ
  unfolding is_change redo_change
  redo_loop commited [] w max_trx_id = (success, w, max_trx_id)
  redo_loop commited (r ∷ rs) w max_trx_id =
      let next : W → ℕ → Rc × W × ℕ = λ w' id. redo_loop commited rs w' id in
      if not (is_change r.flag)
      then next w max_trx_id
      else redo_change next r w max_trx_id (commited r.trx_id)

  unfoldable pub redo_end : Rc × W × ℕ → Rc × W × Option ℕ
  redo_end (success, w, id) = (success, w, if ltb 0 id then some id else none)
  redo_end (rc, w, id) = (rc, w, none)

  -- Db::recover behind the reading of the log: the code, the tables, and the identifier that
  -- Trx::set_trx_id gets, if it is called.
  unfoldable pub recover : MtrManager → W → Rc × W × Option ℕ
  unfolding redo_loop redo_end
  recover m w = redo_end (redo_loop m.trx_commited m.log_redo_list w 0)
