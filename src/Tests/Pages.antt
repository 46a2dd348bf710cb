-- ===== src/Tests/Pages.antt =====
-- Pages of records on small inputs: pages of records of 30 bytes.
use oceanbase_jp.Prelude.{◌+◌, ◌≡◌, ◌≤◌, ◌<◌, refl, false, some, arith}
use oceanbase_jp.Prelude.Memory.{Mem, zero_out}
use oceanbase_jp.Prelude.Run.{ok}
use oceanbase_jp.Rc.{success}
use oceanbase_jp.Prelude.Bits.{test_bit}
use oceanbase_jp.Lang.Bitmap.{get_bit, next_unsetted_bit, find_first_zero}
use oceanbase_jp.Lang.Bitmap.Bits.{IsBytes}
use oceanbase_jp.Record.Layout.{
  page_data_size, page_end, align8, page_record_capacity, page_bitmap_size, page_header_size,
  page_end-le-page_data_size, page_end_overflow,
}
use oceanbase_jp.Record.Page.{
  Rid, RecordPage, init_empty_page, slot_filled, insert_record, get_record_data,
}
use oceanbase_jp.Record.Page.Valid.{used, IsValid}
use oceanbase_jp.Record.Page.Fill.{slot_filled-IsValid}
use oceanbase_jp.Record.Page.Insert.{Inserts, insert_record-Inserted, init_empty_page-IsValid}
use oceanbase_jp.Record.Page.Change.{Updates, Deletes, update_record-view, delete_record-view}
use oceanbase_jp.Record.Page.Recovery.{Recovers, recover_insert_record-view}

-- A frame full of leftovers.
abbrev leftovers : Mem
leftovers a = 170

leftovers-IsBytes : IsBytes leftovers
leftovers-IsBytes a = omega arith

-- The record 7, 7, 7, ….
abbrev sevens : Mem
sevens a = 7

sevens-IsBytes : IsBytes sevens
sevens-IsBytes a = omega arith

empty_page : RecordPage
empty_page = init_empty_page 4 leftovers 30

empty_page-IsValid : IsValid empty_page
unfolding empty_page
empty_page-IsValid = (init_empty_page-IsValid 4 leftovers 30 leftovers-IsBytes).0

-- A page with one record in slot 0, and a full page of one slot.
one_record : RecordPage
one_record = slot_filled empty_page sevens 0

roomy : 0 < empty_page.header.record_capacity
unfolding empty_page init_empty_page page_record_capacity align8
roomy = omega arith

unused : used empty_page 0 ≡ false
unfolding empty_page init_empty_page get_bit zero_out test_bit page_record_capacity page_bitmap_size
    align8
unused = refl

one_record-IsValid : IsValid one_record
unfolding one_record
one_record-IsValid =
    slot_filled-IsValid empty_page sevens 0 empty_page-IsValid sevens-IsBytes roomy unused

abbrev slot_0 : Rid
slot_0 = record { page_num = 4; slot_num = 0 }

insert_record-Inserted_example : Inserts one_record sevens
insert_record-Inserted_example =
    insert_record-Inserted one_record sevens one_record-IsValid sevens-IsBytes

update_record-view_example : Updates one_record slot_0 leftovers
update_record-view_example =
    update_record-view one_record slot_0 leftovers one_record-IsValid leftovers-IsBytes

delete_record-view_example : Deletes one_record slot_0
delete_record-view_example = delete_record-view one_record slot_0 one_record-IsValid

recover_insert_record-view_example : Recovers one_record sevens slot_0
recover_insert_record-view_example =
    recover_insert_record-view one_record sevens slot_0 one_record-IsValid sevens-IsBytes

page_end-le-page_data_size_example : page_end 30 ≤ page_data_size
page_end-le-page_data_size_example =
    page_end-le-page_data_size 30 (omega arith) (unfold align8 in omega arith)

page_end_overflow_example : page_end 21 ≡ page_data_size + 4
page_end_overflow_example = page_end_overflow 21 (omega arith) (omega arith)

-- An insertion into the first slot.
first_insert : insert_record empty_page sevens ≡ ok (success, some slot_0, one_record)
unfolding one_record empty_page init_empty_page insert_record next_unsetted_bit find_first_zero
    zero_out test_bit page_record_capacity page_bitmap_size align8 get_record_data page_header_size
first_insert = refl
