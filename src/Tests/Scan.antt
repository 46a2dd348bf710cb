-- ===== src/Tests/Scan.antt =====
-- A scan of a file with one page of records behind its header.
use oceanbase_jp.Prelude.{◌==◌, ℕ, ◌≡◌, refl, Bool, true, false, Option, none, some, arith}
use oceanbase_jp.Rc.{Rc, success}
use oceanbase_jp.Record.Page.{Rid, RecordPage}
use oceanbase_jp.Record.Scan.{Scanner, fetch_next_record, OpenScan, open_scan, read_all}
use oceanbase_jp.Record.Scan.Slots.{slots_from}
use oceanbase_jp.Record.Scan.All.{seen, size, open_scan-read_all}
use oceanbase_jp.Prelude.Bits.{test_bit, set_in_byte}
use oceanbase_jp.Lang.Bitmap.{get_bit, set_bit}
use oceanbase_jp.Record.Scan.Fetch.{
  rest, records_of, pages_behind, Fetches, fetch_next_record-Fetches,
}
use oceanbase_jp.Tests.Buffer.{two_pages, allocated_page}

-- A page with both of its slots in use.
abbrev page : RecordPage
page = record {
  page_num = 1;
  header = record {
    record_num = 2;
    record_capacity = 2;
    record_real_size = 4;
    record_size = 8;
    first_record_offset = 32;
  };
  bytes = λ a. 3;
  dirty = false;
}

abbrev keep_all : RecordPage → ℕ → Bool
keep_all p slot = true

abbrev pages : ℕ → Rc × RecordPage
pages num = (success, page)

abbrev start : Scanner
start = record { at_page = 0; slots = none }

fetch_next_record-Fetches_example :
    (r : Rc × Option Rid × Scanner) × (fetch_next_record keep_all two_pages pages 3 3 start
      ≡ some r)
    × Fetches keep_all two_pages pages 3 (rest keep_all two_pages pages start) r
fetch_next_record-Fetches_example =
    fetch_next_record-Fetches keep_all two_pages pages 3 (λ num taken. refl)
      (λ num taken. omega arith) 3 start
      (record { page = allocated_page.0; inside = omega arith; slots = tt }) (omega arith)

abbrev first_slot : Rid → Bool
first_slot rid = rid.slot_num == 0

two_records :
    size (records_of keep_all two_pages pages (pages_behind keep_all two_pages pages 0)) ≡ 2
unfolding size slots_from get_bit test_bit set_bit oceanbase_jp.Prelude.Memory.store set_in_byte
two_records = refl

open_scan-read_all_example :
    (scan : OpenScan) × (open_scan keep_all two_pages pages 3 3 ≡ some (success, scan))
    × (read_all keep_all two_pages pages 3 3 first_slot 3 scan
        ≡ some (
          success,
          seen first_slot
              (records_of keep_all two_pages pages (pages_behind keep_all two_pages pages 0)),
        ))
open_scan-read_all_example =
    open_scan-read_all keep_all two_pages pages 3 3 (omega arith) (λ num taken. refl)
      (λ num taken. omega arith) first_slot 3 allocated_page.0 (omega arith)
      (omega (arith, two_records))
