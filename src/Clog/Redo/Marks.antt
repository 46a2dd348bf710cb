-- ===== src/Clog/Redo/Marks.antt =====
-- What a log leaves in CLogMTRManager: its changes, and the transactions with a beginning or a commit.
use mathlib.Core.List.{append-nil, append_assoc}
use oceanbase_jp.Prelude.{
  ℕ, ◌≡◌, refl, sym, ap, ◌∙◌, Bool, true, false, Option, none, some, List, [], ◌∷◌, ◌++◌, arith,
  ◌==◌, ◌&&◌, ◌||◌, if◌then◌else◌,
}
use oceanbase_jp.Clog.LogRecord.{LogType, redo_mtr_begin, redo_mtr_commit, LogRecord}
use oceanbase_jp.Clog.Redo.{
  MtrManager, set_commited, insert_commited, managed, log_record_manage, manage_all, is_change,
}

-- A log has the record of a commit, or of a beginning, of a transaction.
unfoldable pub marks : LogType → LogType → Bool
marks redo_mtr_commit redo_mtr_commit = true
marks redo_mtr_begin redo_mtr_begin = true
marks _ _ = false

unfoldable pub has_mark : LogType → ℕ → List LogRecord → Bool
unfolding marks
has_mark flag id [] = false
has_mark flag id (r ∷ rs) = ((id == r.trx_id) && marks flag r.flag) || has_mark flag id rs

-- The records of a log that are no marks.
unfoldable pub unmarked : List LogRecord → List LogRecord
unfolding marks
unmarked [] = []
unmarked (r ∷ rs) =
    if marks redo_mtr_commit r.flag || marks redo_mtr_begin r.flag
    then unmarked rs
    else r ∷ unmarked rs

-- What the map has for a transaction behind a log.
abbrev pub outcome : Option Bool → Bool → Bool → Option Bool
outcome before commits begins =
    if commits
    then some true
    else elim before [ some b ↦ some b | none ↦ if begins then some false else none ]

managed-log_redo_list :
    (m : MtrManager) (r : LogRecord) (flag : LogType)
    → (managed m r flag).log_redo_list ≡ (
        if marks redo_mtr_commit flag || marks redo_mtr_begin flag
        then m.log_redo_list
        else m.log_redo_list ++ r ∷ [])
unfolding managed marks
managed-log_redo_list m r flag = ground arith

managed-trx_commited :
    (m : MtrManager) (r : LogRecord) (flag : LogType) (id : ℕ)
    → (managed m r flag).trx_commited id
      ≡ outcome
          (m.trx_commited id)
          ((id == r.trx_id) && marks redo_mtr_commit flag)
          ((id == r.trx_id) && marks redo_mtr_begin flag)
unfolding managed marks set_commited insert_commited
managed-trx_commited m r flag id = ground (arith)

outcome_twice :
    (before : Option Bool) (c1 b1 c2 b2 : Bool)
    → outcome (outcome before c1 b1) c2 b2 ≡ outcome before (c1 || c2) (b1 || b2)
outcome_twice before c1 b1 c2 b2 = ground arith

-- The list that a log leaves, and the transactions that it has seen.
pub manage_all-log_redo_list :
    (m : MtrManager) (rs : List LogRecord)
    → (manage_all m rs).log_redo_list ≡ m.log_redo_list ++ unmarked rs
unfolding manage_all unmarked log_record_manage
manage_all-log_redo_list m [] = sym (append-nil m.log_redo_list)
manage_all-log_redo_list m (r ∷ rs) =
    manage_all-log_redo_list (managed m r r.flag) rs
    ∙ ap (λ x. x ++ unmarked rs) (managed-log_redo_list m r r.flag)
    ∙ by (marks redo_mtr_commit r.flag || marks redo_mtr_begin r.flag)
  where
    by :
        (b : Bool)
        → (if b then m.log_redo_list else m.log_redo_list ++ r ∷ []) ++ unmarked rs
          ≡ m.log_redo_list ++ (if b then unmarked rs else r ∷ unmarked rs)
    by true = refl
    by false = append_assoc m.log_redo_list (r ∷ []) (unmarked rs)

pub manage_all-trx_commited :
    (m : MtrManager) (rs : List LogRecord) (id : ℕ)
    → (manage_all m rs).trx_commited id
      ≡ outcome (m.trx_commited id) (has_mark redo_mtr_commit id rs) (has_mark redo_mtr_begin id rs)
unfolding manage_all has_mark log_record_manage
manage_all-trx_commited m [] id = ground arith
manage_all-trx_commited m (r ∷ rs) id =
    manage_all-trx_commited (managed m r r.flag) rs id
    ∙ ap (λ x. outcome x (has_mark redo_mtr_commit id rs) (has_mark redo_mtr_begin id rs))
        (managed-trx_commited m r r.flag id)
    ∙ outcome_twice (m.trx_commited id) ((id == r.trx_id) && marks redo_mtr_commit r.flag)
        ((id == r.trx_id) && marks redo_mtr_begin r.flag) (has_mark redo_mtr_commit id rs)
        (has_mark redo_mtr_begin id rs)

-- The changes of the transactions that a test picks.
unfoldable pub picked : (ℕ → Bool) → List LogRecord → List LogRecord
unfolding is_change
picked test [] = []
picked test (r ∷ rs) =
    if is_change r.flag && test r.trx_id then r ∷ picked test rs else picked test rs

-- The changes of the transactions that have a commit in the log.
abbrev pub committed_changes : List LogRecord → List LogRecord
committed_changes log = picked (λ id. has_mark redo_mtr_commit id log) log

-- Each change is of a transaction that has a mark in the log.
abbrev pub AreMarked : List LogRecord → List LogRecord → Type 0
AreMarked log [] = ◌≡◌ {A = ℕ} 0 0
AreMarked log (r ∷ rs) =
    (is_change r.flag ≡ true
      → (has_mark redo_mtr_commit r.trx_id log || has_mark redo_mtr_begin r.trx_id log) ≡ true)
    × AreMarked log rs

pub picked-unmarked :
    (test : ℕ → Bool) (rs : List LogRecord) → picked test (unmarked rs) ≡ picked test rs
unfolding picked unmarked marks
picked-unmarked test [] = refl
picked-unmarked test (r ∷ rs) = by r.flag (picked-unmarked test rs)
  where
    by :
        (flag : LogType)
        → picked test (unmarked rs) ≡ picked test rs
        → picked test (
            if marks redo_mtr_commit flag || marks redo_mtr_begin flag
            then unmarked rs
            else record r { flag = flag } ∷ unmarked rs)
          ≡ (if is_change flag && test r.trx_id
              then record r { flag = flag } ∷ picked test rs
              else picked test rs)
    by flag rest = ground (arith, rest)

pub AreMarked-unmarked : (log rs : List LogRecord) → AreMarked log rs → AreMarked log (unmarked rs)
unfolding unmarked marks
AreMarked-unmarked log [] h = refl
AreMarked-unmarked log (r ∷ rs) h =
    by (marks redo_mtr_commit r.flag || marks redo_mtr_begin r.flag) (AreMarked-unmarked log rs h.1)
  where
    by :
        (b : Bool)
        → AreMarked log (unmarked rs)
        → AreMarked log (if b then unmarked rs else r ∷ unmarked rs)
    by true x = x
    by false x = (h.0, x)
