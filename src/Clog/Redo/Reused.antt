-- ===== src/Clog/Redo/Reused.antt =====
-- The identifiers that are given out behind a recovery, and those that the log has.
use oceanbase_jp.Prelude.{
  ℕ, ◌<◌, ◌≡◌, inl, inr, refl, ap, fun_ext, ◌∙◌, Bool, true, false, Option, none, some, List, [],
  ◌∷◌, ◌++◌, arith, ltb, ◌==◌, ◌&&◌, ◌||◌, not, if◌then◌else◌, Bool-cases,
}
use oceanbase_jp.Rc.{Rc, success}
use oceanbase_jp.Clog.LogRecord.{LogType, redo_mtr_begin, redo_mtr_commit, LogRecord}
use oceanbase_jp.Clog.Redo.{
  no_mtr, manage_all, is_change, Tables, redone, redo_change, redo_loop, redo_end, recover,
}
use oceanbase_jp.Clog.Redo.Marks.{
  marks, has_mark, unmarked, outcome, picked, committed_changes, AreMarked, picked-unmarked,
}
use oceanbase_jp.Clog.Redo.Committed.{redo_all, map_of, recover_loop, recover-redo_all}

-- Records of transactions with smaller identifiers.
abbrev pub IdsBelow : ℕ → List LogRecord → Type 0
IdsBelow id [] = ◌≡◌ {A = ℕ} 0 0
IdsBelow id (r ∷ rs) = (r.trx_id < id) × IdsBelow id rs

-- Records of one transaction.
abbrev pub IdsAre : ℕ → List LogRecord → Type 0
IdsAre id [] = ◌≡◌ {A = ℕ} 0 0
IdsAre id (r ∷ rs) = (r.trx_id ≡ id) × IdsAre id rs

IdsBelow-head :
    (id : ℕ) (b : Bool) (r : LogRecord) (rs : List LogRecord)
    → IdsBelow id (if b then r ∷ rs else rs)
    → (b ≡ true → r.trx_id < id) × IdsBelow id rs
IdsBelow-head id true r rs h = (λ e. h.0, h.1)
IdsBelow-head id false r rs h = (λ e. absurd (impossible e), h)
  where
    impossible : false ≡ true → ⊥
    impossible q = cc

-- What is in a log and in the records behind it.
has_mark-append :
    (flag : LogType) (id : ℕ) (rs rest : List LogRecord)
    → has_mark flag id (rs ++ rest) ≡ (has_mark flag id rs || has_mark flag id rest)
unfolding has_mark
has_mark-append flag id [] rest = refl
has_mark-append flag id (r ∷ rs) rest =
    ap (◌||◌ ((id == r.trx_id) && marks flag r.flag)) (has_mark-append flag id rs rest)
    ∙ or_assoc ((id == r.trx_id) && marks flag r.flag) (has_mark flag id rs) (has_mark flag id rest)
  where
    or_assoc : (a b c : Bool) → (a || (b || c)) ≡ ((a || b) || c)
    or_assoc a b c = ground arith

picked-append :
    (test : ℕ → Bool) (rs rest : List LogRecord)
    → picked test (rs ++ rest) ≡ picked test rs ++ picked test rest
unfolding picked
picked-append test [] rest = refl
picked-append test (r ∷ rs) rest =
    by (is_change r.flag && test r.trx_id) (picked-append test rs rest)
  where
    by :
        (b : Bool)
        → picked test (rs ++ rest) ≡ picked test rs ++ picked test rest
        → (if b then r ∷ picked test (rs ++ rest) else picked test (rs ++ rest))
          ≡ (if b then r ∷ picked test rs else picked test rs) ++ picked test rest
    by true e = ap (◌∷◌ r) e
    by false e = e

AreMarked-append :
    (log more rs rest : List LogRecord)
    → AreMarked log rs
    → AreMarked (log ++ more) rest
    → AreMarked (log ++ more) (rs ++ rest)
AreMarked-append log more [] rest h g = g
AreMarked-append log more (r ∷ rs) rest h g = (
  λ e.
      wider (has_mark redo_mtr_commit r.trx_id log) (has_mark redo_mtr_begin r.trx_id log)
        (has_mark-append redo_mtr_commit r.trx_id log more)
        (has_mark-append redo_mtr_begin r.trx_id log more) (h.0 e),
  AreMarked-append log more rs rest h.1 g,
)
  where
    wider :
        (a b : Bool)
        → has_mark redo_mtr_commit r.trx_id (log ++ more)
          ≡ (a || has_mark redo_mtr_commit r.trx_id more)
        → has_mark redo_mtr_begin r.trx_id (log ++ more)
          ≡ (b || has_mark redo_mtr_begin r.trx_id more)
        → (a || b) ≡ true
        → (has_mark redo_mtr_commit r.trx_id (log ++ more)
            || has_mark redo_mtr_begin r.trx_id (log ++ more))
          ≡ true
    wider a b p q e = rw (p, q) (ground (arith, e))

-- The records of one transaction that commits.
has_mark-IdsAre :
    (flag : LogType) (id : ℕ) (rs : List LogRecord)
    → IdsAre id rs
    → (i : ℕ) → has_mark flag i rs ≡ ((i == id) && has_mark flag id rs)
unfolding has_mark
has_mark-IdsAre flag id [] h i = ground arith
has_mark-IdsAre flag id (r ∷ rs) h i =
    let ih = has_mark-IdsAre flag id rs h.1 i in rw (ih, h.0) (ground arith)

IdsAre-AreMarked :
    (log later : List LogRecord) (id : ℕ)
    → has_mark redo_mtr_commit id log ≡ true
    → IdsAre id later
    → AreMarked log later
IdsAre-AreMarked log [] id e h = refl
IdsAre-AreMarked log (r ∷ rs) id e h = (λ c. rw (h.0, e) refl, IdsAre-AreMarked log rs id e h.1)

picked-IdsAre :
    (test : ℕ → Bool) (later : List LogRecord) (id : ℕ)
    → test id ≡ true
    → IdsAre id later
    → picked test later ≡ picked (λ i. true) later
unfolding picked
picked-IdsAre test [] id e h = refl
picked-IdsAre test (r ∷ rs) id e h = rw (h.0, e, picked-IdsAre test rs id e h.1) refl

-- The identifier that recovery gives, if any.
abbrev pub GivesBelow : ℕ → Option ℕ → Type 0
GivesBelow bound none = ◌≡◌ {A = ℕ} 0 0
GivesBelow bound (some id) = id < bound

module _ {W : Type 0} (tables : Tables W) where
  redone_below :
      (next : W → ℕ → Rc × W × ℕ) (r : LogRecord) (id bound : ℕ)
      → ((w : W) (i : ℕ) → i < bound → (next w i).2 < bound)
      → id < bound
      → r.trx_id < bound
      → (p : Rc × W) → (redone tables next r id p).2 < bound
  unfolding redone
  redone_below next r id bound ih l h (success, w) =
      ih w (if ltb id r.trx_id then r.trx_id else id) (ground (arith, l, h))
  redone_below next r id bound ih l h (rc, w) = ground (arith, l)

  change_below :
      (next : W → ℕ → Rc × W × ℕ) (r : LogRecord) (w : W) (id bound : ℕ)
      → ((w' : W) (i : ℕ) → i < bound → (next w' i).2 < bound)
      → id < bound
      → (change commits begins : Bool) → ((change && commits) ≡ true → r.trx_id < bound)
      → (if not change
          then next w id
          else redo_change tables next r w id (outcome none commits begins)).2
        < bound
  unfolding redo_change
  change_below next r w id bound ih l false commits begins h = ih w id l
  change_below next r w id bound ih l true false true h = ih w id l
  change_below next r w id bound ih l true false false h = l
  change_below next r w id bound ih l true true begins h =
      elim (Bool-cases (tables.find_table w r.table_name)) [
        | inl there ↦
            rw there (redone_below next r id bound ih l (h refl) (tables.recover_record w r))
        | inr missing ↦ rw missing (ih w id l)
      ]

  redo_loop_below :
      (log rs : List LogRecord) (w : W) (id bound : ℕ)
      → id < bound
      → IdsBelow bound (picked (λ i. has_mark redo_mtr_commit i log) rs)
      → (redo_loop tables (map_of tables log) rs w id).2 < bound
  unfolding redo_loop picked
  redo_loop_below log [] w id bound l h = l
  redo_loop_below log (r ∷ rs) w id bound l h =
      let x =
        IdsBelow-head bound (is_change r.flag && has_mark redo_mtr_commit r.trx_id log) r
          (picked (λ i. has_mark redo_mtr_commit i log) rs) h in
      change_below (λ w' i. redo_loop tables (map_of tables log) rs w' i) r w id bound
        (λ w' i k. redo_loop_below log rs w' i bound k x.1) l (is_change r.flag)
        (has_mark redo_mtr_commit r.trx_id log) (has_mark redo_mtr_begin r.trx_id log) x.0

  end_below : (p : Rc × W × ℕ) (bound : ℕ) → p.2 < bound → GivesBelow bound (redo_end tables p).2
  unfolding redo_end
  end_below (success, w, id) bound l = elim (Bool-cases (ltb 0 id)) [
    | inl e ↦ rw e l
    | inr e ↦ rw e refl
  ]
  end_below (rc, w, id) bound l = ground (arith, l)

  -- Db::recover behind a log in which each change is of a transaction with a mark gives
  -- Trx::set_trx_id, if it calls it, an identifier below any positive one that is greater than those
  -- of all committed changes. If the log goes on with records of one such identifier, with a commit
  -- among them, the next recovery also redoes, in the order of the log and up to the first change that
  -- fails, the changes that a transaction with this identifier had in the first log.
  pub recover_reuses_id :
      (log later : List LogRecord) (w w' : W) (id : ℕ)
      → AreMarked log log
      → 0 < id
      → IdsBelow id (committed_changes log)
      → IdsAre id later
      → has_mark redo_mtr_commit id later ≡ true
      → let r = recover tables (manage_all no_mtr (log ++ later)) w' in
        GivesBelow id (recover tables (manage_all no_mtr log) w).2
        × ((r.0, r.1)
            ≡ redo_all tables
                (picked (λ i. has_mark redo_mtr_commit i log || (i == id)) log
                  ++ picked (λ i. true) later)
                w')
  recover_reuses_id log later w w' id h positive below same commits =
      let mine : ℕ → Bool = λ i. has_mark redo_mtr_commit i log || (i == id) in
      let both : (i : ℕ) → has_mark redo_mtr_commit i (log ++ later) ≡ mine i = λ i.
        has_mark-append redo_mtr_commit i log later
        ∙ ap (λ b. has_mark redo_mtr_commit i log || b)
            (has_mark-IdsAre redo_mtr_commit id later same i ∙ rw commits (and_true (i == id))) in
      let later_marked : AreMarked (log ++ later) later =
        IdsAre-AreMarked (log ++ later) later id (both id ∙ own id) same in
      let changes : committed_changes (log ++ later) ≡ picked mine log ++ picked (λ i. true) later =
        ap (λ t. picked t (log ++ later)) (fun_ext both)
        ∙ picked-append mine log later
        ∙ ap (◌++◌ (picked mine log)) (picked-IdsAre mine later id (own id) same) in
      (
        rw (recover_loop tables log w) (
            end_below (redo_loop tables (map_of tables log) (unmarked log) w 0) id (
              redo_loop_below log (unmarked log) w 0 id positive
                (rw (picked-unmarked (λ i. has_mark redo_mtr_commit i log) log) below))),
        recover-redo_all tables (log ++ later) w'
              (AreMarked-append log later log later h later_marked)
            ∙ ap (λ l. redo_all tables l w') changes,
      )
    where
      and_true : (b : Bool) → (b && true) ≡ b
      and_true b = ground arith

      own : (i : ℕ) → (has_mark redo_mtr_commit i log || (i == i)) ≡ true
      own i = ground arith
