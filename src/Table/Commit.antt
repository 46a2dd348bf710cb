-- ===== src/Table/Commit.antt =====
-- trx.cpp and table.cpp: what the end of a transaction does to the rows.
use oceanbase_jp.Prelude.{
  ℕ, ◌≡◌, refl, ◌∙◌, inl, inr, true, ◌&&◌, Option, none, some, [], ◌∷◌, arith, ◌==◌, if◌then◌else◌,
  Bool-cases, Option-cases,
}
use mathlib.Core.Option
use oceanbase_jp.Rc.{Rc, success}
use oceanbase_jp.Record.Page.{Rid}
use oceanbase_jp.Trx.{
  Row, OperationType, Operation, OperationSet, Operations, Trx, commit_row, is_on,
}
use oceanbase_jp.Trx.Operations.{
  rid_eq, logged, set_type, IsOperationSet, IsLog, set_type-absent, logged_absent,
}
use oceanbase_jp.Table.{
  Rows, put, rid_of, for_set, for_operations, commit_operation, commit, commit_write, commit_delete,
}

-- What becomes of a row at the end, by the operation that is logged for its record.
abbrev pub settle :
    (OperationType → Option Row → Option Row) → Option OperationType → Option Row → Option Row
settle f none row = row
settle f (some type) row = f type row

-- A switch that changes the row of its operation alone, by the operation's type.
abbrev pub Settles :
    (Rc → Rows → ℕ → Operation → Rc × Rows) → (OperationType → Option Row → Option Row) → Type 0
Settles step f =
    (rc : Rc) (w : Rows) (table : ℕ) (op : Operation) (u : ℕ) (r : Rid)
    → (step rc w table op).1 u r ≡ (if table == u && is_on op r then f op.type (w u r) else w u r)

module _ (step : Rc → Rows → ℕ → Operation → Rc × Rows)
    (f : OperationType → Option Row → Option Row) (settles : Settles step f) where
  for_set-settle :
      (rc : Rc) (w : Rows) (table : ℕ) (ops : OperationSet) (u : ℕ) (r : Rid)
      → IsOperationSet ops
      → (for_set step rc w table ops).1 u r
        ≡ (if table == u then settle f (set_type ops r) (w u r) else w u r)
  unfolding for_set set_type
  for_set-settle rc w table [] u r h = ground arith
  for_set-settle rc w table (op ∷ ops) u r h = ground (
    arith,
    for_set-settle (step rc w table op).0 (step rc w table op).1 table ops u r h.1,
    settles rc w table op u r,
    λ (e : op.page_num ≡ r.page_num) (g : op.slot_num ≡ r.slot_num).
        set_type-absent ops op.page_num op.slot_num r e g h.0,
  )

  pub for_operations-settle :
      (rc : Rc) (w : Rows) (ops : Operations) (u : ℕ) (r : Rid)
      → IsLog ops
      → (for_operations step rc w ops).1 u r ≡ settle f (logged ops u r) (w u r)
  unfolding for_operations logged set_type
  for_operations-settle rc w [] u r h = refl
  for_operations-settle rc w ((table, set) ∷ ops) u r h = ground (
    arith,
    for_operations-settle (for_set step rc w table set).0 (for_set step rc w table set).1 ops u r
        h.2,
    for_set-settle rc w table set u r h.0,
    λ (e : table ≡ u). logged_absent ops table u r e h.1,
  )

-- Settling at a commit: what was inserted or updated is committed, and what was deleted is gone.
abbrev pub committed : OperationType → Option Row → Option Row
committed OperationType.insert row = Option.map commit_row row
committed OperationType.update row = Option.map commit_row row
committed OperationType.delete row = none
committed OperationType.undefined row = row

-- A place is where the operation says that it is.
pub same_place :
    (w : Rows) (table : ℕ) (op : Operation) (u : ℕ) (r : Rid)
    → (table == u && is_on op r) ≡ true
    → w table (rid_of op) ≡ w u r
same_place w table op u r e =
    let same_table : table ≡ u = ground arith in
    let same_rid : rid_of op ≡ r = ground arith in rw (same_table, same_rid) refl

-- A switch that leaves a row `g (w table rid)` in its place, and all others as they were.
abbrev pub Puts : Rows → ℕ → Rid → (Option Row → Option Row) → Rows → Type 0
Puts w table rid g w' = (u : ℕ) (r : Rid) → w' u r ≡ put w table rid (g (w table rid)) u r

pub Puts-Settles :
    (w : Rows) (table : ℕ) (op : Operation) (g : Option Row → Option Row) (w' : Rows)
    → Puts w table (rid_of op) g w'
    → (u : ℕ) (r : Rid) → w' u r ≡ (if table == u && is_on op r then g (w u r) else w u r)
unfolding put
Puts-Settles w table op g w' h u r = elim (Bool-cases (table == u && is_on op r)) [
  | inl e ↦ rw e (h u r ∙ rw (e, same_place w table op u r e) refl)
  | inr e ↦ rw e (h u r ∙ rw e refl)
]

-- Putting what is there changes nothing.
pub put_same :
    (w : Rows) (table : ℕ) (rid : Rid) (x : Option Row)
    → w table rid ≡ x
    → (u : ℕ) (r : Rid) → w u r ≡ put w table rid x u r
unfolding put
put_same w table rid x h u r = elim (Bool-cases (table == u && rid_eq rid r)) [
  | inr e ↦ rw e refl
  | inl e ↦
      let same_table : table ≡ u = ground arith in
      let same_rid : rid ≡ r = ground arith in rw (e, ← h, same_table, same_rid) refl
]

pub commit_write-Puts :
    (w : Rows) (table : ℕ) (rid : Rid)
    → Puts w table rid (Option.map commit_row) (commit_write w table rid).1
unfolding commit_write
commit_write-Puts w table rid = elim (Option-cases (w table rid)) [
  | inl e ↦ rw (e, commit_write) (put_same w table rid none e)
  | inr (row, e) ↦ λ u r. rw (e, commit_write) refl
]

module _ (delete_entries : ℕ → Row → Rid → Rc) where
  commit_delete-Puts :
      (w : Rows) (table : ℕ) (rid : Rid)
      → Puts w table rid (λ _. none) (commit_delete delete_entries w table rid).1
  unfolding commit_delete
  commit_delete-Puts w table rid = elim (Option-cases (w table rid)) [
    | inl e ↦ rw (e, commit_delete) (put_same w table rid none e)
    | inr (row, e) ↦ λ u r. rw (e, commit_delete) refl
  ]

  commit_operation-Settles : Settles (commit_operation delete_entries) committed
  unfolding commit_operation
  commit_operation-Settles rc w table op u r = go op.type refl
    where
      go :
          (type : OperationType)
          → op.type ≡ type
          → (commit_operation delete_entries rc w table op).1 u r
            ≡ (if table == u && is_on op r then committed op.type (w u r) else w u r)
      go OperationType.insert e =
          rw (e, commit_operation)
            (Puts-Settles w table op (Option.map commit_row) _
              (commit_write-Puts w table (rid_of op)) u r)
      go OperationType.update e =
          rw (e, commit_operation)
            (Puts-Settles w table op (Option.map commit_row) _
              (commit_write-Puts w table (rid_of op)) u r)
      go OperationType.delete e =
          rw (e, commit_operation)
            (Puts-Settles w table op (λ _. none) _ (commit_delete-Puts w table (rid_of op)) u r)
      go OperationType.undefined e = ground arith

  -- A commit clears the log and the identifier; in every row that was inserted or updated it clears
  -- the transaction field, it removes the rows whose deletion was logged, and it leaves all other
  -- rows of all tables as they were.
  pub commit-settle :
      (w : Rows) (t : Trx)
      → IsLog t.operations
      → ((commit delete_entries w t).2.trx_id ≡ 0)
        × ((commit delete_entries w t).2.operations ≡ [])
        × ((u : ℕ) (r : Rid)
            → (commit delete_entries w t).1 u r
              ≡ settle committed (logged t.operations u r) (w u r))
  unfolding commit
  commit-settle w t h = (
    refl,
    refl,
    λ u r.
        for_operations-settle (commit_operation delete_entries) committed commit_operation-Settles
          success w t.operations u r h,
  )
