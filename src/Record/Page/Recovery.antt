-- ===== src/Record/Page/Recovery.antt =====
-- record_manager.cpp: RecordPageHandler::recover_insert_record, the replay of a logged insertion.
use oceanbase_jp.Prelude.{
  ℕ, ◌+◌, ◌≤◌, ◌<◌, ◌≡◌, ◌≢◌, ◌⊎◌, inl, inr, refl, sym, ◌∙◌, Bool, true, false, none, some, arith,
  ◌==◌, if◌then◌else◌, ℕ_discrete, dec_lt, Bool-cases, if_self, if_other, subst,
}
use oceanbase_jp.Prelude.Memory.{Mem, read}
use oceanbase_jp.Rc.{success, record_nomem}
use oceanbase_jp.Lang.Bitmap.Bits.{IsBytes}
use oceanbase_jp.Record.Page.{
  Rid, RecordPage, slot_filled, fill_slot, ends_in_page, recover_insert_record,
}
use oceanbase_jp.Prelude.Run.{ok, fault}
use oceanbase_jp.Record.Page.Count.{count_set, count_set_congr}
use oceanbase_jp.Record.Page.Valid.{used, IsValid, view, view-free, view-used}
use oceanbase_jp.Record.Page.Fill.{slot_filled-used, slot_filled-IsValid, view-slot_filled}

already_used : (f : ℕ → Bool) (i j : ℕ) → f i ≡ true → (if i == j then true else f j) ≡ f j
already_used f i j at = elim (ℕ_discrete i j) [
  | yes e ↦ subst (λ k. (if i == k then true else f k) ≡ f k) e (if_self i true (f i) ∙ sym at)
  | no e ↦ if_other i j true (f j) e
]

-- Filling a slot in use counts its record twice.
slot_filled-not_IsValid :
    (p : RecordPage) (src : Mem) (i : ℕ)
    → IsValid p
    → IsBytes src
    → i < p.header.record_capacity
    → used p i ≡ true
    → ¬ IsValid (slot_filled p src i)
slot_filled-not_IsValid p src i valid bytes l at after =
    absurd (omega (arith, same, valid.counted, after_counted))
  where
    same :
        count_set (used (slot_filled p src i)) p.header.record_capacity
        ≡ count_set (used p) p.header.record_capacity
    same =
        count_set_congr _ _ p.header.record_capacity
          (λ j k. slot_filled-used p src i valid bytes l j k ∙ already_used (used p) i j at)

    after_counted :
        count_set (used (slot_filled p src i)) p.header.record_capacity ≡ p.header.record_num + 1
    after_counted = unfold slot_filled in after.counted

-- A replay into a slot of a page that is not full.
abbrev pub Replays : RecordPage → Mem → Rid → Type 0
Replays p src rid =
    ((ends_in_page p.header rid.slot_num ≡ false) × (recover_insert_record p src rid ≡ fault))
    ⊎ ((ends_in_page p.header rid.slot_num ≡ true)
        × (q : RecordPage) × (recover_insert_record p src rid ≡ ok (success, q))
        × (((view p rid.slot_num ≡ none)
              × IsValid q
              × ((j : ℕ)
                  → view q j ≡ (
                      if rid.slot_num == j
                      then some (read src 0 p.header.record_real_size)
                      else view p j)))
            ⊎ ((view p rid.slot_num ≢ none) × ¬ IsValid q)))

-- The outcomes of a replay.
abbrev pub Recovers : RecordPage → Mem → Rid → Type 0
Recovers p src rid =
    (((p.header.record_num ≡ p.header.record_capacity) ⊎ (p.header.record_capacity ≤ rid.slot_num))
      × (recover_insert_record p src rid ≡ ok (record_nomem, p)))
    ⊎ ((p.header.record_num ≢ p.header.record_capacity)
        × (rid.slot_num < p.header.record_capacity)
        × Replays p src rid)

module _ (p : RecordPage) (src : Mem) (rid : Rid) where
  recover-refused :
      (p.header.record_num ≡ p.header.record_capacity) ⊎ (p.header.record_capacity ≤ rid.slot_num)
      → recover_insert_record p src rid ≡ ok (record_nomem, p)
  unfolding recover_insert_record
  recover-refused why = ground arith

  recover-filled :
      p.header.record_num ≢ p.header.record_capacity
      → rid.slot_num < p.header.record_capacity
      → recover_insert_record p src rid ≡ (
          if ends_in_page p.header rid.slot_num
          then ok (success, slot_filled p src rid.slot_num)
          else fault)
  unfolding recover_insert_record fill_slot
  recover-filled room l = ground arith

  replayed :
      IsValid p
      → IsBytes src
      → p.header.record_num ≢ p.header.record_capacity
      → rid.slot_num < p.header.record_capacity
      → Replays p src rid
  replayed valid bytes room l =
      let done = recover-filled room l in
      elim (Bool-cases (ends_in_page p.header rid.slot_num)) [
        | inr beyond ↦ inl (beyond, done ∙ rw beyond refl)
        | inl fits ↦ inr (
          fits,
          slot_filled p src rid.slot_num,
          done ∙ rw fits refl,
          elim (Bool-cases (used p rid.slot_num)) [
            | inr free ↦ inl (
              view-free p rid.slot_num free,
              slot_filled-IsValid p src rid.slot_num valid bytes l free,
              view-slot_filled p src rid.slot_num valid bytes l,
            )
            | inl at ↦ inr (
              rw (view-used p rid.slot_num l at) (λ e. cc),
              slot_filled-not_IsValid p src rid.slot_num valid bytes l at,
            )
          ],
        )
      ]

  -- Replaying an insertion into a valid page is refused exactly on a full page and beyond the
  -- capacity, and changes nothing there. Else, if the bytes of a record in the slot end behind the
  -- data of the page, it leaves defined behaviour. If they end within it, it reports success: in a
  -- free slot it restores the record and keeps the page valid, and every other slot shows what it
  -- showed before; in a slot in use it leaves a page whose count is wrong.
  pub recover_insert_record-view : IsValid p → IsBytes src → Recovers p src rid
  recover_insert_record-view valid bytes =
      elim (ℕ_discrete p.header.record_num p.header.record_capacity) [
        | yes full ↦ inl (inl full, recover-refused (inl full))
        | no room ↦ elim (dec_lt rid.slot_num p.header.record_capacity) [
          | no g ↦ inl (inr (omega arith), recover-refused (inr (omega arith)))
          | yes l ↦ inr (room, l, replayed valid bytes room l)
        ]
      ]
