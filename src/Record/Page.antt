-- ===== src/Record/Page.antt =====
-- record_manager.cpp and record_manager.h: RecordPageHandler, the records of one page. The header at
-- the front of the frame's data is a record of its own; the bitmap and the records stand in one
-- memory, at the source's offsets. Slot numbers are not negative. The counter `record_num` is an
-- int32_t, kept as its bit pattern.
pub mod Count
pub mod Valid
pub mod Fill
pub mod Insert
pub mod Change
pub mod Views
pub mod Recovery
use oceanbase_jp.Prelude.{
  ℕ, ◌+◌, ◌-◌, ◌*◌, ◌%◌, ◌^◌, Bool, true, false, Option, none, some, List, leb, ◌==◌, if◌then◌else◌,
}
use oceanbase_jp.Prelude.Memory.{Mem, copy_in, zero_out, read}
use oceanbase_jp.Prelude.Run.{Run, ok, fault, ◌>>=◌}
use oceanbase_jp.Rc.{
  Rc, success, invalid_argument, record_nomem, record_invalidrid, record_record_not_exist,
}
use oceanbase_jp.Lang.Bitmap.{Bitmap, get_bit, set_bit, clear_bit, next_unsetted_bit}
use oceanbase_jp.Record.Layout.{
  align8, page_fix_size, page_data_size, page_record_capacity, page_bitmap_size, page_header_size,
}

pub record Rid : Type 0 where
  pub page_num : ℕ
  pub slot_num : ℕ

-- The data pointer is an address in the page.
pub record Record : Type 0 where
  pub rid : Rid
  pub data_ : ℕ

pub record PageHeader : Type 0 where
  pub record_num : ℕ
  pub record_capacity : ℕ
  pub record_real_size : ℕ
  pub record_size : ℕ
  pub first_record_offset : ℕ

-- A frame with a page of records.
pub record RecordPage : Type 0 where
  pub page_num : ℕ
  pub header : PageHeader
  pub bytes : Mem
  pub dirty : Bool

abbrev pub bitmap_of : PageHeader → Bitmap
bitmap_of h = record { bitmap = page_fix_size; size = h.record_capacity }

unfoldable pub get_record_data : PageHeader → ℕ → ℕ
get_record_data h slot_num = h.first_record_offset + h.record_size * slot_num

-- `record_num--` on an int32_t.
unfoldable pub decrement : ℕ → ℕ
decrement n = (n + 2 ^ 32 - 1) % 2 ^ 32

-- `record_num >= record_capacity` on int32_t; a capacity is not negative.
unfoldable pub is_full : RecordPage → Bool
is_full p =
    if leb (2 ^ 31) p.header.record_num
    then false
    else leb p.header.record_capacity p.header.record_num

-- What `init_empty_page` writes into a frame's data; pinning and flushing are the pool's.
unfoldable pub init_empty_page : ℕ → Mem → ℕ → RecordPage
init_empty_page page_num bytes record_size =
    let record_phy_size = align8 record_size in
    let capacity = page_record_capacity page_data_size record_phy_size in
    record {
      page_num = page_num;
      header = record {
        record_num = 0;
        record_capacity = capacity;
        record_real_size = record_size;
        record_size = record_phy_size;
        first_record_offset = page_header_size capacity;
      };
      bytes = zero_out bytes page_fix_size (page_bitmap_size capacity);
      dirty = false;
    }

-- The bit, the count and the bytes of a record that comes into a slot.
unfoldable pub slot_filled : RecordPage → Mem → ℕ → RecordPage
slot_filled p src index =
    let h = p.header in
    record p {
      header = record h { record_num = h.record_num + 1 };
      bytes =
          copy_in (set_bit p.bytes (bitmap_of h) index) (get_record_data h index) src
            h.record_real_size;
      dirty = true;
    }

-- The bytes of a record in a slot end within the data of the page.
abbrev pub ends_in_page : PageHeader → ℕ → Bool
ends_in_page h index = leb (get_record_data h index + h.record_real_size) page_data_size

-- A copy that goes on behind the data of the page leaves defined behaviour.
unfoldable pub fill_slot : RecordPage → Mem → ℕ → Run RecordPage
unfolding slot_filled
fill_slot p src index = if ends_in_page p.header index then ok (slot_filled p src index) else fault

-- A bitmap with no free slot under a count that says otherwise would have the source set bit -1.
unfoldable pub insert_record : RecordPage → Mem → Run (Rc × Option Rid × RecordPage)
unfolding fill_slot
insert_record p src =
    if p.header.record_num == p.header.record_capacity
    then ok (record_nomem, none, p)
    else elim (next_unsetted_bit p.bytes (bitmap_of p.header) 0) [
      | none ↦ fault
      | some index ↦ fill_slot p src index >>= λ q.
          ok (success, some (record { page_num = p.page_num; slot_num = index }), q)
    ]

unfoldable pub recover_insert_record : RecordPage → Mem → Rid → Run (Rc × RecordPage)
unfolding fill_slot
recover_insert_record p src rid =
    if p.header.record_num == p.header.record_capacity
    then ok (record_nomem, p)
    else if leb p.header.record_capacity rid.slot_num
    then ok (record_nomem, p)
    else fill_slot p src rid.slot_num >>= λ q. ok (success, q)

-- The slot is in use, so that its bytes were written before. `recover_update_record` has the same
-- text.
unfoldable pub update_record : RecordPage → Rid → Mem → Rc × RecordPage
update_record p rid src =
    let h = p.header in
    if leb h.record_capacity rid.slot_num
    then (invalid_argument, p)
    else if get_bit p.bytes (bitmap_of h) rid.slot_num
    then (
      success,
      record p {
        bytes =
            set_bit (copy_in p.bytes (get_record_data h rid.slot_num) src h.record_real_size)
              (bitmap_of h) rid.slot_num;
        dirty = true;
      },
    )
    else (record_record_not_exist, p)

-- The last part says whether the page became empty, so that the caller's pool disposes of it.
unfoldable pub delete_record : RecordPage → Rid → Rc × RecordPage × Bool
delete_record p rid =
    let h = p.header in
    if leb h.record_capacity rid.slot_num
    then (invalid_argument, p, false)
    else if get_bit p.bytes (bitmap_of h) rid.slot_num
    then (
      success,
      record p {
        header = record h { record_num = decrement h.record_num };
        bytes = clear_bit p.bytes (bitmap_of h) rid.slot_num;
        dirty = true;
      },
      decrement h.record_num == 0,
    )
    else (record_record_not_exist, p, false)

unfoldable pub get_record : RecordPage → Rid → Rc × Option Record
get_record p rid =
    let h = p.header in
    if leb h.record_capacity rid.slot_num
    then (record_invalidrid, none)
    else if get_bit p.bytes (bitmap_of h) rid.slot_num
    then (success, some (record { rid = rid; data_ = get_record_data h rid.slot_num }))
    else (record_record_not_exist, none)

-- The bytes that a record's data pointer shows.
abbrev pub record_bytes : RecordPage → Record → List ℕ
record_bytes p r = read p.bytes r.data_ p.header.record_real_size
