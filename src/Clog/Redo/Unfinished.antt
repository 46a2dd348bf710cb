-- ===== src/Clog/Redo/Unfinished.antt =====
-- Recovery from a log with changes of transactions that had not ended.
use oceanbase_jp.Prelude.{
  ℕ, ◌≡◌, refl, ap, ◌∙◌, Bool, true, false, none, List, [], ◌∷◌, ◌++◌, arith, ◌||◌, if◌then◌else◌,
}
use oceanbase_jp.Rc.{Rc, success, generic_error}
use oceanbase_jp.Clog.LogRecord.{LogType, redo_mtr_begin, redo_mtr_commit, LogRecord}
use oceanbase_jp.Clog.Redo.{
  no_mtr, manage_all, is_change, Tables, redo_change, redo_loop, redo_end, recover,
}
use oceanbase_jp.Clog.Redo.Marks.{
  marks, has_mark, unmarked, picked, AreMarked, picked-unmarked, AreMarked-unmarked,
}
use oceanbase_jp.Clog.Redo.Committed.{
  redo_then, redo_all, seen, map_of, redo_loop_then, recover_loop,
}

-- A change is no mark.
change_is_unmarked :
    (flag : LogType)
    → is_change flag ≡ true
    → (marks redo_mtr_commit flag || marks redo_mtr_begin flag) ≡ false
unfolding is_change marks
change_is_unmarked flag e = ground (arith, e)

unmarked-append : (rs rest : List LogRecord) → unmarked (rs ++ rest) ≡ unmarked rs ++ unmarked rest
unfolding unmarked
unmarked-append [] rest = refl
unmarked-append (r ∷ rs) rest =
    by (marks redo_mtr_commit r.flag || marks redo_mtr_begin r.flag) (unmarked-append rs rest)
  where
    by :
        (b : Bool)
        → unmarked (rs ++ rest) ≡ unmarked rs ++ unmarked rest
        → (if b then unmarked (rs ++ rest) else r ∷ unmarked (rs ++ rest))
          ≡ (if b then unmarked rs else r ∷ unmarked rs) ++ unmarked rest
    by true e = e
    by false e = ap (◌∷◌ r) e

module _ {W : Type 0} (tables : Tables W) where
  -- A change without a mark ends the loop.
  stopped :
      (log rest : List LogRecord) (r : LogRecord) (w : W) (id : ℕ)
      → is_change r.flag ≡ true
      → has_mark redo_mtr_commit r.trx_id log ≡ false
      → has_mark redo_mtr_begin r.trx_id log ≡ false
      → seen tables (redo_loop tables (map_of tables log) (r ∷ rest) w id) ≡ (generic_error, w)
  unfolding redo_loop redo_change
  stopped log rest r w id c no_commit no_begin = rw (c, no_commit, no_begin) refl

  end_stopped :
      (p : Rc × W × ℕ) (w : W)
      → seen tables p ≡ (generic_error, w)
      → redo_end tables p ≡ (generic_error, w, none)
  unfolding redo_end
  end_stopped (rc, w', id) w e = ground (arith, e)

  -- Db::recover behind a log with a change whose transaction has no record of a beginning and none of
  -- a commit, where each change before it is of a transaction with a mark and the redo of the
  -- committed ones among these succeeds, ends with GENERIC_ERROR behind exactly that redo: nothing
  -- that follows in the log is redone, and Trx::set_trx_id is not called.
  pub recover_stops :
      (before after : List LogRecord) (r : LogRecord) (w w' : W)
      → let log = before ++ r ∷ after in
        AreMarked log before
        → redo_all tables (picked (λ i. has_mark redo_mtr_commit i log) before) w ≡ (success, w')
        → is_change r.flag ≡ true
        → has_mark redo_mtr_commit r.trx_id log ≡ false
        → has_mark redo_mtr_begin r.trx_id log ≡ false
        → recover tables (manage_all no_mtr log) w ≡ (generic_error, w', none)
  unfolding unmarked redo_then
  recover_stops before after r w w' h done c no_commit no_begin =
      let log = before ++ r ∷ after in
      let mine =
        redo_all tables (picked (λ i. has_mark redo_mtr_commit i log) (unmarked before)) w in
      let split : unmarked log ≡ unmarked before ++ r ∷ unmarked after =
        unmarked-append before (r ∷ after)
        ∙ ap {B = List LogRecord}
            (λ b. unmarked before ++ (if b then unmarked after else r ∷ unmarked after))
            (change_is_unmarked r.flag c) in
      let redo : mine ≡ (success, w') =
        ap (λ l. redo_all tables l w) (picked-unmarked (λ i. has_mark redo_mtr_commit i log) before)
        ∙ done in
      recover_loop tables log w
      ∙ end_stopped (redo_loop tables (map_of tables log) (unmarked log) w 0) w' (
          ap (λ l. seen tables (redo_loop tables (map_of tables log) l w 0)) split
          ∙ redo_loop_then tables log (unmarked before) (r ∷ unmarked after)
              (λ w1. (generic_error, w1))
              (λ w1 id. stopped log (unmarked after) r w1 id c no_commit no_begin) w 0
              (AreMarked-unmarked log before h)
          ∙ ap (redo_then tables (λ w1. (generic_error, w1))) redo)
