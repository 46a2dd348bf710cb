-- ===== src/Record/Page/Views.antt =====
-- What a deletion and an update do to the view of a page (storage/record/record_manager.cpp), and the
-- reads against the view.
use oceanbase_jp.Prelude.{
  ℕ, ◌+◌, ◌^◌, ◌<◌, ◌≡◌, refl, sym, ◌∙◌, ap, subst, true, false, Option, none, some, List, arith,
  leb, ◌==◌, if◌then◌else◌, ℕ_discrete, if_self, if_other,
}
use oceanbase_jp.Prelude.Memory.{Mem, copy_in, read, read-copy_in}
use oceanbase_jp.Rc.{Rc, success, record_invalidrid, record_record_not_exist}
use oceanbase_jp.Lang.Bitmap.{set_bit, clear_bit}
use oceanbase_jp.Lang.Bitmap.Bits.{
  IsBytes, set_bit-IsBytes, clear_bit-IsBytes, get_bit-set_bit, get_bit-clear_bit,
}
use oceanbase_jp.Record.Page.{
  Rid, Record, RecordPage, bitmap_of, get_record_data, decrement, get_record, record_bytes,
}
use oceanbase_jp.Record.Page.Count.{count_set-le, count_set_remove, count_set_congr, count_set_pos}
use oceanbase_jp.Record.Page.Valid.{
  used, IsValid, view, view-used, view-free, view_congr, copy_in-IsBytes, get_bit-copy_in,
  read-copy_in_other, read-set_bit, read-clear_bit,
}

-- What a read of a slot answers, by what the slot shows.
abbrev pub read_rc : ℕ → ℕ → Option (List ℕ) → Rc
read_rc capacity slot (some _) = success
read_rc capacity slot none =
    if leb capacity slot then record_invalidrid else record_record_not_exist

abbrev pub shown : RecordPage → Option Record → Option (List ℕ)
shown p none = none
shown p (some r) = some (record_bytes p r)

-- A read returns a record exactly where the view shows one, with the bytes that it shows; where it
-- shows none, the code tells a slot beyond the capacity from a free one.
pub get_record-view :
    (p : RecordPage) (rid : Rid)
    → ((get_record p rid).0 ≡ read_rc p.header.record_capacity rid.slot_num (view p rid.slot_num))
      × (shown p (get_record p rid).1 ≡ view p rid.slot_num)
unfolding get_record view
get_record-view p rid = ground arith

-- The page after a clear of the slot's bit.
unfoldable pub deleted : RecordPage → ℕ → RecordPage
deleted p i = record p {
  header = record p.header { record_num = decrement p.header.record_num };
  bytes = clear_bit p.bytes (bitmap_of p.header) i;
  dirty = true;
}

-- The page after a write over the slot's record.
unfoldable pub updated : RecordPage → ℕ → Mem → RecordPage
updated p i src = record p {
  bytes =
      set_bit (copy_in p.bytes (get_record_data p.header i) src p.header.record_real_size)
        (bitmap_of p.header) i;
  dirty = true;
}

decrement_lem : (n : ℕ) → 0 < n → n < 2 ^ 32 → decrement n + 1 ≡ n
unfolding decrement
decrement_lem n pos l = omega arith

module _ (p : RecordPage) (i : ℕ) (valid : IsValid p) where
  deleted-used : (j : ℕ) → used (deleted p i) j ≡ (if i == j then false else used p j)
  unfolding deleted
  deleted-used j = get_bit-clear_bit p.bytes (bitmap_of p.header) i valid.bytes j

  module _ (inside : i < p.header.record_capacity) (at : used p i ≡ true) where
    pub deleted-counted : decrement p.header.record_num + 1 ≡ p.header.record_num
    deleted-counted =
        decrement_lem p.header.record_num
          (omega
            (arith, valid.counted, count_set_pos (used p) p.header.record_capacity i inside at))
          (omega (
            arith,
            valid.counted,
            valid.laid_out.small,
            count_set-le (used p) p.header.record_capacity,
          ))

    pub deleted-IsValid : IsValid (deleted p i)
    unfolding deleted
    deleted-IsValid = record {
      laid_out = record {
        apart = valid.laid_out.apart;
        roomy = valid.laid_out.roomy;
        small = valid.laid_out.small;
      };
      bytes = clear_bit-IsBytes p.bytes (bitmap_of p.header) i valid.bytes;
      counted = omega (
        arith,
        count_set_remove (used p) (used (deleted p i)) p.header.record_capacity i inside at
            (λ j l. deleted-used j),
        valid.counted,
        deleted-counted,
      );
    }

    pub view-deleted : (j : ℕ) → view (deleted p i) j ≡ (if i == j then none else view p j)
    unfolding deleted get_record_data
    view-deleted j = elim (ℕ_discrete i j) [
      | yes e ↦
          subst (λ k. view (deleted p i) k ≡ (if i == k then none else view p k)) e
            (view-free (deleted p i) i (deleted-used i ∙ if_self i false (used p i))
              ∙ sym (if_self i none (view p i)))
      | no e ↦
          view_congr p (deleted p i) j refl (λ l. deleted-used j ∙ if_other i j false (used p j) e)
            (read-clear_bit p.header valid.laid_out p.bytes i j inside)
          ∙ sym (if_other i j none (view p j) e)
    ]

    module _ (src : Mem) (bytes : IsBytes src) where
      copied : Mem
      copied = copy_in p.bytes (get_record_data p.header i) src p.header.record_real_size

      copied-IsBytes : IsBytes copied
      unfolding copied
      copied-IsBytes = copy_in-IsBytes p.bytes _ src _ valid.bytes bytes

      updated-used : (j : ℕ) → j < p.header.record_capacity → used (updated p i src) j ≡ used p j
      unfolding updated copied
      updated-used j l =
          get_bit-set_bit copied (bitmap_of p.header) i copied-IsBytes j
          ∙ ground (
            arith,
            get_bit-copy_in p.header valid.laid_out p.bytes i src p.header.record_real_size j l,
            at,
          )

      pub updated-IsValid : IsValid (updated p i src)
      unfolding updated copied
      updated-IsValid = record {
        laid_out = valid.laid_out;
        bytes = set_bit-IsBytes copied (bitmap_of p.header) i copied-IsBytes;
        counted =
            count_set_congr (used (updated p i src)) (used p) p.header.record_capacity updated-used
            ∙ valid.counted;
      }

      pub view-updated :
          (j : ℕ)
          → view (updated p i src) j
            ≡ (if i == j then some (read src 0 p.header.record_real_size) else view p j)
      unfolding updated copied
      view-updated j = elim (ℕ_discrete i j) [
        | yes e ↦
            subst
              (λ k.
                view (updated p i src) k
                ≡ (if i == k then some (read src 0 p.header.record_real_size) else view p k))
              e
              (view-used (updated p i src) i inside (updated-used i inside ∙ at)
                ∙ ap some (
                    read-set_bit p.header valid.laid_out copied i i inside
                    ∙ read-copy_in p.bytes (get_record_data p.header i) src
                        p.header.record_real_size)
                ∙ sym (if_self i (some (read src 0 p.header.record_real_size)) (view p i)))
        | no e ↦
            view_congr p (updated p i src) j refl (updated-used j) (
              read-set_bit p.header valid.laid_out copied i j inside
              ∙ read-copy_in_other p.header valid.laid_out p.bytes i j src e)
            ∙ sym (if_other i j (some (read src 0 p.header.record_real_size)) (view p j) e)
      ]
