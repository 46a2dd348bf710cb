-- ===== src/Record/Page/Change.antt =====
-- record_manager.cpp: RecordPageHandler::update_record and delete_record against the view.
use oceanbase_jp.Prelude.{
  ℕ, ◌+◌, ◌≤◌, ◌<◌, ◌≡◌, ◌≢◌, ◌⊎◌, inl, inr, refl, Bool, true, false, none, some, arith, leb, ◌==◌,
  if◌then◌else◌, Bool-cases, dec_lt,
}
use oceanbase_jp.Prelude.Memory.{Mem, read}
use oceanbase_jp.Rc.{Rc, success, invalid_argument, record_record_not_exist}
use oceanbase_jp.Lang.Bitmap.Bits.{IsBytes}
use oceanbase_jp.Record.Page.{Rid, RecordPage, decrement, update_record, delete_record}
use oceanbase_jp.Record.Page.Count.{count_set_pos}
use oceanbase_jp.Record.Page.Valid.{used, IsValid, view}
use oceanbase_jp.Record.Page.Views.{
  deleted, updated, deleted-counted, deleted-IsValid, updated-IsValid, view-updated, view-deleted,
}

-- The view shows a record in a slot, with its use; or it shows none, and the slot is beyond the
-- capacity or free.
view_cases :
    (p : RecordPage) (i : ℕ)
    → ((i < p.header.record_capacity) × (used p i ≡ true) × (view p i ≢ none))
      ⊎ ((view p i ≡ none) × ((p.header.record_capacity ≤ i) ⊎ (used p i ≡ false)))
unfolding view
view_cases p i = elim (dec_lt i p.header.record_capacity) [
  | no g ↦ inr (ground arith, inl (omega arith))
  | yes l ↦ elim (Bool-cases (used p i)) [
    | inl e ↦ inl (l, e, ground arith)
    | inr e ↦ inr (ground arith, inr e)
  ]
]

-- What a write of a slot answers where the view shows no record.
abbrev pub absent_rc : RecordPage → ℕ → Rc
absent_rc p slot =
    if leb p.header.record_capacity slot then invalid_argument else record_record_not_exist

-- The two outcomes of an update.
abbrev pub Updates : RecordPage → Rid → Mem → Type 0
Updates p rid src =
    ((view p rid.slot_num ≡ none) × (update_record p rid src ≡ (absent_rc p rid.slot_num, p)))
    ⊎ ((view p rid.slot_num ≢ none)
        × ((update_record p rid src).0 ≡ success)
        × IsValid (update_record p rid src).1
        × ((j : ℕ)
            → view (update_record p rid src).1 j ≡ (
                if rid.slot_num == j
                then some (read src 0 p.header.record_real_size)
                else view p j)))

module _ (p : RecordPage) (rid : Rid) where
  update_record-absent :
      (src : Mem)
      → (p.header.record_capacity ≤ rid.slot_num) ⊎ (used p rid.slot_num ≡ false)
      → update_record p rid src ≡ (absent_rc p rid.slot_num, p)
  unfolding update_record
  update_record-absent src why = ground arith

  update_record-updated :
      (src : Mem)
      → rid.slot_num < p.header.record_capacity
      → used p rid.slot_num ≡ true
      → update_record p rid src ≡ (success, updated p rid.slot_num src)
  unfolding update_record updated
  update_record-updated src l at = ground arith

  delete_record-absent :
      (p.header.record_capacity ≤ rid.slot_num) ⊎ (used p rid.slot_num ≡ false)
      → delete_record p rid ≡ (absent_rc p rid.slot_num, p, false)
  unfolding delete_record
  delete_record-absent why = ground arith

  delete_record-deleted :
      rid.slot_num < p.header.record_capacity
      → used p rid.slot_num ≡ true
      → delete_record p rid ≡ (success, deleted p rid.slot_num, decrement p.header.record_num == 0)
  unfolding delete_record deleted
  delete_record-deleted l at = ground arith

-- An update of a slot that shows a record succeeds, keeps the page valid, shows the new bytes in
-- that slot and leaves what every other slot shows. Elsewhere it is refused and changes nothing.
pub update_record-view :
    (p : RecordPage) (rid : Rid) (src : Mem) → IsValid p → IsBytes src → Updates p rid src
update_record-view p rid src valid bytes = elim (view_cases p rid.slot_num) [
  | inr (e, why) ↦ inl (e, update_record-absent p rid src why)
  | inl (l, at, shows) ↦
      let done = update_record-updated p rid src l at in
      inr (
        shows,
        rw done refl,
        rw done (updated-IsValid p rid.slot_num valid l at src bytes),
        rw done (view-updated p rid.slot_num valid l at src bytes),
      )
]

-- `q` is `p` without the record in the slot; the flag says that the page is to be disposed of.
pub record Deleted (p : RecordPage) (slot : ℕ) (q : RecordPage) (empty : Bool) : Type 0 where
  pub valid : IsValid q
  pub counted : q.header.record_num + 1 ≡ p.header.record_num
  pub views : (j : ℕ) → view q j ≡ (if slot == j then none else view p j)
  pub emptied : empty ≡ true → (j : ℕ) → view q j ≡ none

-- The two outcomes of a deletion.
abbrev pub Deletes : RecordPage → Rid → Type 0
Deletes p rid =
    ((view p rid.slot_num ≡ none) × (delete_record p rid ≡ (absent_rc p rid.slot_num, p, false)))
    ⊎ ((view p rid.slot_num ≢ none)
        × ((delete_record p rid).0 ≡ success)
        × Deleted p rid.slot_num (delete_record p rid).1 (delete_record p rid).2)

-- A valid page whose count is 0 shows nothing.
pub view_empty : (p : RecordPage) → IsValid p → p.header.record_num ≡ 0 → (j : ℕ) → view p j ≡ none
view_empty p valid e j = elim (view_cases p j) [
  | inr (n, _) ↦ n
  | inl (l, at, _) ↦
      absurd (omega (arith, valid.counted, count_set_pos (used p) p.header.record_capacity j l at))
]

delete_Deleted :
    (p : RecordPage) (i : ℕ)
    → IsValid p
    → i < p.header.record_capacity
    → used p i ≡ true
    → Deleted p i (deleted p i) (decrement p.header.record_num == 0)
unfolding deleted
delete_Deleted p i valid l at = record {
  valid = deleted-IsValid p i valid l at;
  counted = deleted-counted p i valid l at;
  views = view-deleted p i valid l at;
  emptied = λ e. view_empty (deleted p i) (deleted-IsValid p i valid l at) (ground arith);
}

-- A deletion of a slot that shows a record succeeds: the page stays valid, its count falls by one,
-- the slot shows nothing, every other slot shows what it showed before, and the page is disposed of
-- only if no slot shows a record. Elsewhere it is refused and changes nothing.
pub delete_record-view : (p : RecordPage) (rid : Rid) → IsValid p → Deletes p rid
delete_record-view p rid valid = elim (view_cases p rid.slot_num) [
  | inr (e, why) ↦ inl (e, delete_record-absent p rid why)
  | inl (l, at, shows) ↦
      let done = delete_record-deleted p rid l at in
      inr (shows, rw done refl, rw done (delete_Deleted p rid.slot_num valid l at))
]
