-- ===== src/Trx/Operations.antt =====
-- trx.cpp: the log of operations as a map from records to at most one operation each.
use oceanbase_jp.Prelude.{
  ℕ, ◌≡◌, refl, Bool, false, ◌&&◌, Option, none, some, [], ◌∷◌, arith, ◌==◌, if◌then◌else◌,
}
use oceanbase_jp.Record.Page.{Rid}
use oceanbase_jp.Trx.{
  OperationType, Operation, OperationSet, Operations, find_in_set, emplace, erase, find_operation,
  insert_operation, delete_operation,
}

abbrev pub rid_eq : Rid → Rid → Bool
rid_eq a b = a.page_num == b.page_num && a.slot_num == b.slot_num

abbrev pub type_of : Option Operation → Option OperationType
type_of none = none
type_of (some op) = some op.type

-- The type of the operation that is logged for a record.
unfoldable pub logged : Operations → ℕ → Rid → Option OperationType
unfolding find_operation
logged ops table rid = type_of (find_operation ops table rid)

unfoldable pub set_type : OperationSet → Rid → Option OperationType
unfolding find_in_set
set_type ops rid = type_of (find_in_set ops rid)

-- Any operation in the set wins over a new one.
abbrev pub or_type : Option OperationType → OperationType → OperationType
or_type none type = type
or_type (some old) type = old

set_type-emplace :
    (ops : OperationSet) (type : OperationType) (rid r : Rid)
    → set_type (emplace ops type rid) r
      ≡ (if rid_eq rid r then some (or_type (set_type ops r) type) else set_type ops r)
unfolding set_type find_in_set emplace
set_type-emplace [] type rid r = ground arith
set_type-emplace (op ∷ ops) type rid r = ground (arith, set_type-emplace ops type rid r)

pub logged-insert_operation :
    (ops : Operations) (table : ℕ) (type : OperationType) (rid : Rid) (t : ℕ) (r : Rid)
    → logged (insert_operation ops table type rid) t r ≡ (
        if table == t && rid_eq rid r then some (or_type (logged ops t r) type) else logged ops t r)
unfolding logged find_operation insert_operation set_type
logged-insert_operation [] table type rid t r = ground arith
logged-insert_operation ((u, set) ∷ ops) table type rid t r =
    ground (arith, logged-insert_operation ops table type rid t r, set_type-emplace set type rid r)

-- A set has at most one operation on a record.
abbrev pub AbsentIn : ℕ → ℕ → OperationSet → Type 0
AbsentIn page slot [] = Unit {0}
AbsentIn page slot (op ∷ ops) =
    (op.page_num == page && op.slot_num == slot) ≡ false × AbsentIn page slot ops

abbrev pub IsOperationSet : OperationSet → Type 0
IsOperationSet [] = Unit {0}
IsOperationSet (op ∷ ops) = AbsentIn op.page_num op.slot_num ops × IsOperationSet ops

-- A table has at most one set.
abbrev pub NotIn : ℕ → Operations → Type 0
NotIn table [] = Unit {0}
NotIn table ((t, set) ∷ ops) = ((t == table) ≡ false) × NotIn table ops

abbrev pub IsLog : Operations → Type 0
IsLog [] = Unit {0}
IsLog ((t, set) ∷ ops) = IsOperationSet set × NotIn t ops × IsLog ops

pub set_type-absent :
    (ops : OperationSet) (page slot : ℕ) (r : Rid)
    → page ≡ r.page_num
    → slot ≡ r.slot_num
    → AbsentIn page slot ops
    → set_type ops r ≡ none
unfolding set_type find_in_set
set_type-absent [] page slot r e f h = refl
set_type-absent (op ∷ ops) page slot r e f h =
    ground (arith, set_type-absent ops page slot r e f h.1)

set_type-erase :
    (ops : OperationSet) (rid r : Rid)
    → IsOperationSet ops
    → set_type (erase ops rid) r ≡ (if rid_eq rid r then none else set_type ops r)
unfolding set_type find_in_set erase
set_type-erase [] rid r h = ground arith
set_type-erase (op ∷ ops) rid r h = ground (
  arith,
  set_type-erase ops rid r h.1,
  λ (e : op.page_num ≡ r.page_num) (f : op.slot_num ≡ r.slot_num).
      set_type-absent ops op.page_num op.slot_num r e f h.0,
)

emplace-AbsentIn :
    (ops : OperationSet) (type : OperationType) (rid : Rid) (page slot : ℕ)
    → (rid.page_num == page && rid.slot_num == slot) ≡ false
    → AbsentIn page slot ops
    → AbsentIn page slot (emplace ops type rid)
unfolding emplace
emplace-AbsentIn [] type rid page slot e h = ground arith
emplace-AbsentIn (op ∷ ops) type rid page slot e h =
    ground (arith, emplace-AbsentIn ops type rid page slot e h.1)

emplace-IsOperationSet :
    (ops : OperationSet) (type : OperationType) (rid : Rid)
    → IsOperationSet ops
    → IsOperationSet (emplace ops type rid)
unfolding emplace
emplace-IsOperationSet [] type rid h = (tt, tt)
emplace-IsOperationSet (op ∷ ops) type rid h = ground (
  arith,
  emplace-IsOperationSet ops type rid h.1,
  emplace-AbsentIn ops type rid op.page_num op.slot_num,
)

erase-AbsentIn :
    (ops : OperationSet) (rid : Rid) (page slot : ℕ)
    → AbsentIn page slot ops
    → AbsentIn page slot (erase ops rid)
unfolding erase
erase-AbsentIn [] rid page slot h = tt
erase-AbsentIn (op ∷ ops) rid page slot h = ground (arith, erase-AbsentIn ops rid page slot h.1)

erase-IsOperationSet :
    (ops : OperationSet) (rid : Rid) → IsOperationSet ops → IsOperationSet (erase ops rid)
unfolding erase
erase-IsOperationSet [] rid h = tt
erase-IsOperationSet (op ∷ ops) rid h =
    ground
      (arith, erase-IsOperationSet ops rid h.1, erase-AbsentIn ops rid op.page_num op.slot_num h.0)

insert_operation-NotIn :
    (ops : Operations) (table : ℕ) (type : OperationType) (rid : Rid) (t : ℕ)
    → (table == t) ≡ false
    → NotIn t ops
    → NotIn t (insert_operation ops table type rid)
unfolding insert_operation
insert_operation-NotIn [] table type rid t e h = (e, tt)
insert_operation-NotIn ((u, set) ∷ ops) table type rid t e h =
    ground (arith, insert_operation-NotIn ops table type rid t e h.1)

delete_operation-NotIn :
    (ops : Operations) (table : ℕ) (rid : Rid) (t : ℕ)
    → NotIn t ops
    → NotIn t (delete_operation ops table rid)
unfolding delete_operation
delete_operation-NotIn [] table rid t h = tt
delete_operation-NotIn ((u, set) ∷ ops) table rid t h =
    ground (arith, delete_operation-NotIn ops table rid t h.1)

pub logged_absent :
    (ops : Operations) (table u : ℕ) (rid : Rid)
    → table ≡ u
    → NotIn table ops
    → logged ops u rid ≡ none
unfolding logged
logged_absent [] table u rid e h = refl
logged_absent ((t, set) ∷ ops) table u rid e h = ground (arith, logged_absent ops table u rid e h.1)

pub insert_operation-IsLog :
    (ops : Operations) (table : ℕ) (type : OperationType) (rid : Rid)
    → IsLog ops
    → IsLog (insert_operation ops table type rid)
unfolding insert_operation
insert_operation-IsLog [] table type rid h = ((tt, tt), tt, tt)
insert_operation-IsLog ((t, set) ∷ ops) table type rid h = ground (
  arith,
  insert_operation-IsLog ops table type rid h.2,
  insert_operation-NotIn ops table type rid t,
  emplace-IsOperationSet set type rid h.0,
)

pub delete_operation-IsLog :
    (ops : Operations) (table : ℕ) (rid : Rid) → IsLog ops → IsLog (delete_operation ops table rid)
unfolding delete_operation
delete_operation-IsLog [] table rid h = tt
delete_operation-IsLog ((t, set) ∷ ops) table rid h = ground (
  arith,
  delete_operation-IsLog ops table rid h.2,
  delete_operation-NotIn ops table rid t h.1,
  erase-IsOperationSet set rid h.0,
)

pub logged-delete_operation :
    (ops : Operations) (table : ℕ) (rid : Rid) (t : ℕ) (r : Rid)
    → IsLog ops
    → logged (delete_operation ops table rid) t r
      ≡ (if table == t && rid_eq rid r then none else logged ops t r)
unfolding logged find_operation delete_operation set_type
logged-delete_operation [] table rid t r h = ground arith
logged-delete_operation ((u, set) ∷ ops) table rid t r h =
    ground (arith, logged-delete_operation ops table rid t r h.2, set_type-erase set rid r h.0)
