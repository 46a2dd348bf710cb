-- ===== src/Record/Page/Insert.antt =====
-- record_manager.cpp: RecordPageHandler::insert_record and init_empty_page against the view.
use oceanbase_jp.Prelude.{
  ℕ, ◌+◌, ◌%◌, ◌^◌, ◌<◌, ◌≡◌, ◌⊎◌, inl, inr, refl, true, false, Option, none, some, arith, ◌==◌,
  if◌then◌else◌, ℕ_discrete, Bool-cases, ◌∙◌, ◌≢◌,
}
use oceanbase_jp.Prelude.Memory.{Mem, read, zero_out}
use oceanbase_jp.Prelude.Run.{ok, fault}
use oceanbase_jp.Prelude.Bits.{test_bit_empty}
use oceanbase_jp.Rc.{success, record_nomem}
use oceanbase_jp.Lang.Bitmap.{get_bit, next_unsetted_bit}
use oceanbase_jp.Lang.Bitmap.Bits.{IsBytes}
use oceanbase_jp.Lang.Bitmap.Search.{next_unsetted_bit-First}
use oceanbase_jp.Lang.Bitmap.Bytes.{First}
use oceanbase_jp.Record.Layout.{
  align8, page_data_size, page_record_capacity, align8_bounds, bitmap_before_records,
  page_bitmap_size_bounds,
}
use oceanbase_jp.Record.Page.{
  RecordPage, bitmap_of, slot_filled, fill_slot, ends_in_page, insert_record, init_empty_page,
}
use oceanbase_jp.Record.Page.Count.{count_set_full, count_set_empty}
use oceanbase_jp.Record.Page.Valid.{used, IsValid, view, view-free}
use oceanbase_jp.Record.Page.Change.{view_empty}
use oceanbase_jp.Record.Page.Fill.{slot_filled-IsValid, view-slot_filled}

-- `q` is `p` with a record of its own in the lowest free slot.
pub record Inserted (p : RecordPage) (src : Mem) (slot : ℕ) (q : RecordPage) : Type 0 where
  pub inside : slot < p.header.record_capacity
  pub free : view p slot ≡ none
  pub lowest : (j : ℕ) → j < slot → used p j ≡ true
  pub valid : IsValid q
  pub counted : q.header.record_num ≡ p.header.record_num + 1
  pub views :
      (j : ℕ)
      → view q j ≡ (if slot == j then some (read src 0 p.header.record_real_size) else view p j)

-- The lowest free slot.
abbrev pub IsLowestFree : RecordPage → ℕ → Type 0
IsLowestFree p slot =
    (slot < p.header.record_capacity)
    × (used p slot ≡ false)
    × ((j : ℕ) → j < slot → used p j ≡ true)

-- An insertion into the lowest free slot.
abbrev pub Places : RecordPage → Mem → Type 0
Places p src =
    (slot : ℕ) × IsLowestFree p slot
    × (((ends_in_page p.header slot ≡ true)
          × (q : RecordPage) × (insert_record p src
              ≡ ok (success, some (record { page_num = p.page_num; slot_num = slot }), q))
          × Inserted p src slot q)
        ⊎ ((ends_in_page p.header slot ≡ false) × (insert_record p src ≡ fault)))

-- The outcomes of an insertion.
abbrev pub Inserts : RecordPage → Mem → Type 0
Inserts p src =
    ((p.header.record_num ≡ p.header.record_capacity)
      × (insert_record p src ≡ ok (record_nomem, none, p)))
    ⊎ ((p.header.record_num ≢ p.header.record_capacity) × Places p src)

module _ (p : RecordPage) (src : Mem) (valid : IsValid p) (bytes : IsBytes src) where
  filled :
      (slot : ℕ)
      → slot < p.header.record_capacity
      → used p slot ≡ false
      → ((j : ℕ) → j < slot → used p j ≡ true)
      → Inserted p src slot (slot_filled p src slot)
  unfolding slot_filled
  filled slot l free lowest = record {
    inside = l;
    free = view-free p slot free;
    lowest = lowest;
    valid = slot_filled-IsValid p src slot valid bytes l free;
    counted = refl;
    views = view-slot_filled p src slot valid bytes l;
  }

  inserted :
      (slot : ℕ)
      → p.header.record_num ≢ p.header.record_capacity
      → next_unsetted_bit p.bytes (bitmap_of p.header) 0 ≡ some slot
      → insert_record p src ≡ (
          if ends_in_page p.header slot
          then ok (
            success,
            some (record { page_num = p.page_num; slot_num = slot }),
            slot_filled p src slot,
          )
          else fault)
  unfolding insert_record fill_slot
  inserted slot room e = ground arith

  -- An insertion into a valid page is refused with RECORD_NOMEM exactly if the page is full, and
  -- changes nothing then. Else it goes to the lowest free slot. If the bytes of a record there end
  -- within the data of the page, it succeeds with that slot: the page stays valid, its count grows
  -- by one, the slot shows the bytes of the record, and every other slot shows what it showed
  -- before. If they end behind it, the insertion leaves defined behaviour.
  pub insert_record-Inserted : Inserts p src
  unfolding insert_record
  insert_record-Inserted = elim (ℕ_discrete p.header.record_num p.header.record_capacity) [
    | yes full ↦ inl (full, ground arith)
    | no room ↦ inr (
      room,
      found (next_unsetted_bit p.bytes (bitmap_of p.header) 0) refl room
          (next_unsetted_bit-First p.bytes (bitmap_of p.header) 0 (inl refl)),
    )
  ]
    where
      found :
          (r : Option ℕ)
          → next_unsetted_bit p.bytes (bitmap_of p.header) 0 ≡ r
          → p.header.record_num ≢ p.header.record_capacity
          → First (used p) false 0 p.header.record_capacity r
          → Places p src
      found r e room (inl (_, all)) = absurd (
          room (
            omega (
              arith,
              valid.counted,
              count_set_full (used p) p.header.record_capacity (λ j l. all j (omega arith) l),
            )))
      found r e room (inr (slot, at, _, l, free, lowest)) =
          let low : (j : ℕ) → j < slot → used p j ≡ true = λ j k. lowest j (omega arith) k in
          let made = inserted slot room (e ∙ at) in
          (
            slot,
            (l, free, low),
            elim (Bool-cases (ends_in_page p.header slot)) [
              | inl fits ↦
                  inl (fits, slot_filled p src slot, made ∙ rw fits refl, filled slot l free low)
              | inr beyond ↦ inr (beyond, made ∙ rw beyond refl)
            ],
          )

capacity_small : (size : ℕ) → page_record_capacity page_data_size size < 2 ^ 31
unfolding page_record_capacity
capacity_small size = grind arith

zero_out-IsBytes : (m : Mem) (dst n : ℕ) → IsBytes m → IsBytes (zero_out m dst n)
unfolding zero_out
zero_out-IsBytes m dst n h x = ground (arith, h x)

module _ (page_num : ℕ) (m : Mem) (size : ℕ) where
  capacity : ℕ
  capacity = page_record_capacity page_data_size (align8 size)

  init_empty_page-unused : (j : ℕ) → j < capacity → used (init_empty_page page_num m size) j ≡ false
  unfolding init_empty_page get_bit zero_out capacity
  init_empty_page-unused j l = ground (
    arith,
    page_bitmap_size_bounds (page_record_capacity page_data_size (align8 size)),
    test_bit_empty (j % 8),
  )

  -- A page that was initialised for records of any size is valid, holds no record and shows none,
  -- whatever the frame held before.
  pub init_empty_page-IsValid :
      IsBytes m
      → IsValid (init_empty_page page_num m size)
        × ((init_empty_page page_num m size).header.record_num ≡ 0)
        × ((j : ℕ) → view (init_empty_page page_num m size) j ≡ none)
  init_empty_page-IsValid bytes = (
    valid bytes,
    unfold init_empty_page in refl,
    λ j. view_empty _ (valid bytes) (unfold init_empty_page in refl) j,
  )
    where
      valid : IsBytes m → IsValid (init_empty_page page_num m size)
      valid b =
          unfold init_empty_page capacity in
          record {
            laid_out = record {
              apart = bitmap_before_records (page_record_capacity page_data_size (align8 size));
              roomy = (align8_bounds size).1;
              small = capacity_small (align8 size);
            };
            bytes = zero_out-IsBytes m _ _ b;
            counted =
                count_set_empty _ (page_record_capacity page_data_size (align8 size))
                  init_empty_page-unused;
          }
