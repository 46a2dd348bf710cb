-- ===== src/Record/Scan.antt =====
-- record_manager.cpp and record_manager.h: RecordPageIterator and RecordFileScanner. The file
-- does not change while it is scanned: `header` is the header of its buffer pool, `pages` gives
-- its pages with the code of RecordPageHandler::init, and `keep` is the condition, which is true
-- of all where there is none. The record that is read has no data pointer of its own here: it is
-- found by its place.
pub mod Slots
pub mod Fetch
pub mod All
use oceanbase_jp.Prelude.{
  ℕ, zero, suc, ◌+◌, ◌-◌, Bool, true, false, Option, none, some, List, [], ◌∷◌, ◌==◌, if◌then◌else◌,
}
use oceanbase_jp.Rc.{Rc, success, record_eof}
use oceanbase_jp.Lang.Bitmap.{next_setted_bit}
use oceanbase_jp.Record.Page.{Rid, RecordPage, bitmap_of}
use oceanbase_jp.Buffer.File.{FileHeader, next_page}

-- An iterator over the slots of a page; `none` is -1.
pub record PageIterator : Type 0 where
  pub page : RecordPage
  pub next_slot_num : Option ℕ

unfoldable pub iterator_init : RecordPage → PageIterator
iterator_init page = record {
  page = page;
  next_slot_num = next_setted_bit page.bytes (bitmap_of page.header) 0;
}

-- RecordPageIterator::next, where there is a next slot.
unfoldable pub iterator_step : RecordPage → ℕ → PageIterator
iterator_step page slot = record {
  page = page;
  next_slot_num = next_setted_bit page.bytes (bitmap_of page.header) (slot + 1);
}

-- A scanner: where its iterator over the pages is, and its iterator over the slots, if it is valid.
pub record Scanner : Type 0 where
  pub at_page : ℕ
  pub slots : Option PageIterator

module _ (keep : RecordPage → ℕ → Bool) where
  -- fetch_next_record_in_page, on fuel: the slot of the next record, or none for RECORD_EOF.
  unfoldable pub fetch_in_page : ℕ → PageIterator → Option (Option ℕ × PageIterator)
  unfolding iterator_step
  fetch_in_page zero it = none
  fetch_in_page (suc fuel) it = elim it.next_slot_num [
    | none ↦ some (none, it)
    | some slot ↦
        let rest = fetch_in_page fuel (iterator_step it.page slot) in
        if keep it.page slot then some (some slot, iterator_step it.page slot) else rest
  ]

  module _ (header : FileHeader) (pages : ℕ → Rc × RecordPage) where
    -- The loop of fetch_next_record over the pages, behind fetch_next_record_in_page: `again` is the
    -- rest of the loop.
    unfoldable pub fetched :
        (Scanner → Option (Rc × Option Rid × Scanner))
        → ℕ
        → Option (Option ℕ × PageIterator)
        → Option (Rc × Option Rid × Scanner)
    fetched again num none = none
    fetched again num (some (none, it)) = again (record { at_page = num; slots = some it })
    fetched again num (some (some slot, it)) = some (
      success,
      some (record { page_num = it.page.page_num; slot_num = slot }),
      record { at_page = num; slots = some it },
    )

    -- A page is opened.
    unfoldable pub opened :
        (Scanner → Option (Rc × Option Rid × Scanner))
        → ℕ
        → Scanner
        → Rc × RecordPage
        → Option (Rc × Option Rid × Scanner)
    unfolding fetched fetch_in_page iterator_init
    opened again fuel sc (success, page) =
        fetched again sc.at_page (fetch_in_page fuel (iterator_init page))
    opened again fuel sc (rc, page) = some (rc, none, sc)

    -- A round of the loop over the pages, behind the step of the iterator over them.
    unfoldable pub paged :
        (Scanner → Option (Rc × Option Rid × Scanner))
        → ℕ
        → Scanner
        → Option ℕ
        → Option (Rc × Option Rid × Scanner)
    unfolding opened
    paged again fuel sc none = some (record_eof, none, sc)
    paged again fuel sc (some num) = opened again fuel (record sc { at_page = num }) (pages num)

    -- The loop over the pages, by its rounds; `fuel` is that of the loop over the slots.
    unfoldable pub fetch_pages : ℕ → ℕ → Scanner → Option (Rc × Option Rid × Scanner)
    unfolding paged next_page
    fetch_pages zero fuel sc = none
    fetch_pages (suc rounds) fuel sc =
        paged (λ sc'. fetch_pages rounds fuel sc') fuel sc (next_page header sc.at_page).0

    -- RecordFileScanner::fetch_next_record.
    unfoldable pub fetch_next_record : ℕ → ℕ → Scanner → Option (Rc × Option Rid × Scanner)
    unfolding fetched fetch_in_page fetch_pages
    fetch_next_record rounds fuel sc = elim sc.slots [
      | none ↦ fetch_pages rounds fuel sc
      | some it ↦ fetched (λ sc'. fetch_pages rounds fuel sc') sc.at_page (fetch_in_page fuel it)
    ]

-- A scan that has been opened: the scanner, and next_record_, or none where its slot number is -1.
pub record OpenScan : Type 0 where
  pub scanner : Scanner
  pub next_record : Option Rid

-- What open_scan and next make of a fetch: RECORD_EOF is no error.
unfoldable pub after_fetch : Option (Rc × Option Rid × Scanner) → Option (Rc × OpenScan)
after_fetch none = none
after_fetch (some (record_eof, r, sc)) = some (success, record { scanner = sc; next_record = r })
after_fetch (some (rc, r, sc)) = some (rc, record { scanner = sc; next_record = r })

module _ (keep : RecordPage → ℕ → Bool) (header : FileHeader) (pages : ℕ → Rc × RecordPage)
    (rounds fuel : ℕ) where
  -- RecordFileScanner::open_scan.
  unfoldable pub open_scan : Option (Rc × OpenScan)
  unfolding after_fetch fetch_next_record
  open_scan =
      after_fetch
        (fetch_next_record keep header pages rounds fuel (record { at_page = 0; slots = none }))

  -- RecordFileScanner::next, but for the record that it gives, which is next_record_.
  unfoldable pub scan_next : OpenScan → Option (Rc × OpenScan)
  unfolding after_fetch fetch_next_record
  scan_next scan = after_fetch (fetch_next_record keep header pages rounds fuel scan.scanner)

  unfoldable pub prepend : Bool → Rid → Option (Rc × List Rid) → Option (Rc × List Rid)
  prepend seen rid none = none
  prepend seen rid (some (rc, rids)) = some (rc, if seen then rid ∷ rids else rids)

  -- The loop of Table::scan_record, for a reader that succeeds: the places of the records that are
  -- visible to the transaction. If the next record cannot be fetched the loop ends, and the one that
  -- was given is not read. By the rounds of the loop.
  unfoldable pub read_all : (Rid → Bool) → ℕ → OpenScan → Option (Rc × List Rid)
  unfolding scan_next prepend
  read_all visible zero scan = none
  read_all visible (suc n) scan = elim scan.next_record [
    | none ↦ some (success, [])
    | some rid ↦ elim (scan_next scan) [
      | none ↦ none
      | some (success, scan') ↦ prepend (visible rid) rid (read_all visible n scan')
      | some (rc, scan') ↦ some (rc, [])
    ]
  ]
