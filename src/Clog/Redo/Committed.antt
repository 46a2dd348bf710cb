-- ===== src/Clog/Redo/Committed.antt =====
-- Recovery redoes the changes of the committed transactions, in the order of the log.
use mathlib.Core.List.{append-nil}
use oceanbase_jp.Prelude.{
  ℕ, ◌≡◌, inl, inr, refl, sym, ap, ap₂, fun_ext, ◌∙◌, Bool, true, false, Option, none, List, [],
  ◌∷◌, ◌++◌, arith, ltb, ◌&&◌, ◌||◌, not, if◌then◌else◌, Bool-cases,
}
use oceanbase_jp.Rc.{Rc, success}
use oceanbase_jp.Clog.LogRecord.{redo_mtr_begin, redo_mtr_commit, LogRecord}
use oceanbase_jp.Clog.Redo.{
  no_mtr, manage_all, is_change, Tables, redone, redo_change, redo_loop, redo_end, recover,
}
use oceanbase_jp.Clog.Redo.Marks.{
  has_mark, unmarked, outcome, manage_all-log_redo_list, manage_all-trx_commited, picked,
  committed_changes, AreMarked, picked-unmarked, AreMarked-unmarked,
}

module _ {W : Type 0} (tables : Tables W) where
  unfoldable pub redo_then : (W → Rc × W) → Rc × W → Rc × W
  redo_then next (success, w) = next w
  redo_then next (rc, w) = (rc, w)

  -- A change of a table that is not there is passed over.
  abbrev pub redo_one : LogRecord → W → Rc × W
  redo_one r w =
      if tables.find_table w r.table_name then tables.recover_record w r else (success, w)

  redo_then_twice :
      (g f : W → Rc × W) (p : Rc × W)
      → redo_then (λ w. redo_then g (f w)) p ≡ redo_then g (redo_then f p)
  unfolding redo_then
  redo_then_twice g f (success, w) = refl
  redo_then_twice g f (rc, w) = ground arith

  redo_then_success : (p : Rc × W) → redo_then (λ w. (success, w)) p ≡ p
  unfolding redo_then
  redo_then_success (success, w) = refl
  redo_then_success (rc, w) = ground arith

  -- The redo of changes, one after the other, to the first that fails: the code, and the tables.
  unfoldable pub redo_all : List LogRecord → W → Rc × W
  unfolding redo_then
  redo_all [] w = (success, w)
  redo_all (r ∷ rs) w = redo_then (λ w'. redo_all rs w') (redo_one r w)

  abbrev pub seen : Rc × W × ℕ → Rc × W
  seen r = (r.0, r.1)

  abbrev pub map_of : List LogRecord → ℕ → Option Bool
  map_of log id = outcome none (has_mark redo_mtr_commit id log) (has_mark redo_mtr_begin id log)

  redone-redo_all :
      (next : W → ℕ → Rc × W × ℕ) (tail : W → Rc × W) (r : LogRecord) (id : ℕ)
      → ((w : W) (i : ℕ) → seen (next w i) ≡ tail w)
      → (p : Rc × W) → seen (redone tables next r id p) ≡ redo_then tail p
  unfolding redone redo_then
  redone-redo_all next tail r id ih (success, w) = ih w (if ltb id r.trx_id then r.trx_id else id)
  redone-redo_all next tail r id ih (rc, w) = ground arith

  change_then :
      (next : W → ℕ → Rc × W × ℕ) (tail : W → Rc × W) (r : LogRecord) (w : W) (id : ℕ)
      → ((w' : W) (i : ℕ) → seen (next w' i) ≡ tail w')
      → (change commits begins : Bool) → (change ≡ true → (commits || begins) ≡ true)
      → seen (
          if not change
          then next w id
          else redo_change tables next r w id (outcome none commits begins))
        ≡ (if change && commits then redo_then tail (redo_one r w) else tail w)
  unfolding redo_change redo_then
  change_then next tail r w id ih false commits begins h = ih w id
  change_then next tail r w id ih true false true h = ih w id
  change_then next tail r w id ih true false false h = absurd (impossible (h refl))
    where
      impossible : false ≡ true → ⊥
      impossible q = cc
  change_then next tail r w id ih true true begins h =
      elim (Bool-cases (tables.find_table w r.table_name)) [
        | inl there ↦ rw there (redone-redo_all next tail r id ih (tables.recover_record w r))
        | inr missing ↦ rw missing (ih w id)
      ]

  -- The loop over the changes before the rest of a list.
  pub redo_loop_then :
      (log rs rest : List LogRecord) (tail : W → Rc × W)
      → ((w : W) (id : ℕ) → seen (redo_loop tables (map_of log) rest w id) ≡ tail w)
      → (w : W) (id : ℕ) → AreMarked log rs
      → seen (redo_loop tables (map_of log) (rs ++ rest) w id)
        ≡ redo_then tail (redo_all (picked (λ i. has_mark redo_mtr_commit i log) rs) w)
  unfolding redo_loop picked
  redo_loop_then log [] rest tail e w id h = unfold redo_all redo_then in e w id
  redo_loop_then log (r ∷ rs) rest tail e w id h =
      change_then (λ w' i. redo_loop tables (map_of log) (rs ++ rest) w' i)
        (λ w'. redo_then tail (redo_all mine w')) r w id
        (λ w' i. redo_loop_then log rs rest tail e w' i h.1) (is_change r.flag)
        (has_mark redo_mtr_commit r.trx_id log) (has_mark redo_mtr_begin r.trx_id log) h.0
      ∙ by (is_change r.flag && has_mark redo_mtr_commit r.trx_id log)
    where
      mine : List LogRecord
      mine = picked (λ i. has_mark redo_mtr_commit i log) rs

      by :
          (b : Bool)
          → (if b
              then redo_then (λ w'. redo_then tail (redo_all mine w')) (redo_one r w)
              else redo_then tail (redo_all mine w))
            ≡ redo_then tail (redo_all (if b then r ∷ mine else mine) w)
      by true = unfold redo_all in redo_then_twice tail (redo_all mine) (redo_one r w)
      by false = refl

  pub end_seen : (p : Rc × W × ℕ) → ((redo_end tables p).0, (redo_end tables p).1) ≡ seen p
  unfolding redo_end
  end_seen (rc, w, id) = ground arith

  pub recover_loop :
      (log : List LogRecord) (w : W)
      → recover tables (manage_all no_mtr log) w
        ≡ redo_end tables (redo_loop tables (map_of log) (unmarked log) w 0)
  unfolding recover
  recover_loop log w =
      ap₂ (λ c l. redo_end tables (redo_loop tables c l w 0))
        (fun_ext (manage_all-trx_commited no_mtr log)) (manage_all-log_redo_list no_mtr log)

  recover-seen :
      (log : List LogRecord) (w : W)
      → let r = recover tables (manage_all no_mtr log) w in
        (r.0, r.1) ≡ seen (redo_loop tables (map_of log) (unmarked log) w 0)
  recover-seen log w =
      ap (λ r. (r.0, r.1)) (recover_loop log w)
      ∙ end_seen (redo_loop tables (map_of log) (unmarked log) w 0)

  -- Db::recover behind a log in which each change is of a transaction with a mark redoes exactly the
  -- changes of the transactions that have a commit, wherever it stands in the log, in the order of the
  -- log and up to the first that fails, whose code it returns.
  pub recover-redo_all :
      (log : List LogRecord) (w : W)
      → AreMarked log log
      → let r = recover tables (manage_all no_mtr log) w in
        (r.0, r.1) ≡ redo_all (committed_changes log) w
  unfolding redo_loop
  recover-redo_all log w h =
      recover-seen log w
      ∙ ap (λ l. seen (redo_loop tables (map_of log) l w 0)) (sym (append-nil (unmarked log)))
      ∙ redo_loop_then log (unmarked log) [] (λ w'. (success, w')) (λ w' id. refl) w 0
          (AreMarked-unmarked log log h)
      ∙ redo_then_success (redo_all (picked (λ i. has_mark redo_mtr_commit i log) (unmarked log)) w)
      ∙ ap (λ l. redo_all l w) (picked-unmarked (λ i. has_mark redo_mtr_commit i log) log)
