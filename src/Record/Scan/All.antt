-- ===== src/Record/Scan/All.antt =====
-- record_manager.cpp and table.cpp: a scan from its opening to its end.
use oceanbase_jp.Prelude.{
  ℕ, zero, suc, ◌≡◌, ◌<◌, refl, sym, ◌∙◌, inl, inr, Bool, true, Option, none, some, List, [], ◌∷◌,
  arith, if◌then◌else◌,
}
use oceanbase_jp.Rc.{Rc, success, record_eof}
use oceanbase_jp.Record.Page.{Rid, RecordPage}
use oceanbase_jp.Buffer.File.{FileHeader, is_allocated}
use oceanbase_jp.Record.Scan.{
  Scanner, fetch_next_record, OpenScan, after_fetch, open_scan, scan_next, prepend, read_all,
}
use oceanbase_jp.Record.Scan.Fetch.{
  records_of, pages_behind, rest, IsScanner, fetch_next_record-Fetches,
}

-- The places that a transaction sees.
unfoldable pub seen : (Rid → Bool) → List Rid → List Rid
seen visible [] = []
seen visible (rid ∷ rids) = if visible rid then rid ∷ seen visible rids else seen visible rids

unfoldable pub size : List Rid → ℕ
size [] = 0
size (rid ∷ rids) = suc (size rids)

fetched_some :
    (r : Rc × Option Rid × Scanner) (rid : Rid)
    → r.0 ≡ success
    → r.1 ≡ some rid
    → after_fetch (some r) ≡ some (success, record { scanner = r.2; next_record = some rid })
unfolding after_fetch
fetched_some r rid e f = rw (e, f, after_fetch) refl

fetched_none :
    (r : Rc × Option Rid × Scanner)
    → r.0 ≡ record_eof
    → r.1 ≡ none
    → after_fetch (some r) ≡ some (success, record { scanner = r.2; next_record = none })
unfolding after_fetch
fetched_none r e f = rw (e, f, after_fetch) refl

module _ (keep : RecordPage → ℕ → Bool) (header : FileHeader) (pages : ℕ → Rc × RecordPage)
    (rounds fuel : ℕ) (many : header.page_count < rounds)
    (readable : (num : ℕ) → is_allocated header num ≡ true → (pages num).0 ≡ success)
    (small : (num : ℕ)
      → is_allocated header num ≡ true
      → (pages num).1.header.record_capacity < fuel) where
  -- What is still to come of an open scan.
  abbrev pub pending : Option Rid → Scanner → List Rid
  pending none sc = []
  pending (some rid) sc = rid ∷ rest keep header pages sc

  -- A fetch, as open_scan and next see it: it succeeds, and what was left is to come.
  fetch-pending :
      (sc : Scanner)
      → IsScanner keep header pages fuel sc
      → (scan : OpenScan) × (after_fetch (fetch_next_record keep header pages rounds fuel sc)
          ≡ some (success, scan))
        × IsScanner keep header pages fuel scan.scanner
        × (pending scan.next_record scan.scanner ≡ rest keep header pages sc)
  fetch-pending sc v =
      let (r, by, f) =
        fetch_next_record-Fetches keep header pages fuel readable small rounds sc v
          (omega (arith, many)) in
      elim f.given [
        | inl (rid, ok, found, before) ↦ (
          record { scanner = r.2; next_record = some rid },
          rw by (fetched_some r rid ok found),
          f.scanner,
          sym before,
        )
        | inr (eof, none_left, before) ↦ (
          record { scanner = r.2; next_record = none },
          rw by (fetched_none r eof none_left),
          f.scanner,
          sym before,
        )
      ]

  -- A round of the loop over the record that is next.
  read_all_step :
      (visible : Rid → Bool) (n : ℕ) (rid : Rid) (sc : Scanner) (scan : OpenScan)
      → after_fetch (fetch_next_record keep header pages rounds fuel sc) ≡ some (success, scan)
      → read_all keep header pages rounds fuel visible
          (suc n)
          (record { scanner = sc; next_record = some rid })
        ≡ prepend keep header pages rounds fuel
            (visible rid)
            rid
            (read_all keep header pages rounds fuel visible n scan)
  unfolding read_all scan_next
  read_all_step visible n rid sc scan e = rw (e, read_all, scan_next) refl

  read_all-seen :
      (visible : Rid → Bool) (n : ℕ) (next : Option Rid) (sc : Scanner)
      → IsScanner keep header pages fuel sc
      → size (pending next sc) < n
      → read_all keep header pages rounds fuel visible n
          (record { scanner = sc; next_record = next })
        ≡ some (success, seen visible (pending next sc))
  unfolding read_all prepend seen size
  read_all-seen visible zero next sc v l = absurd (omega (arith, l))
  read_all-seen visible (suc n) none sc v l = refl
  read_all-seen visible (suc n) (some rid) sc v l =
      let (scan', by, v', left) = fetch-pending sc v in
      let rec =
        read_all-seen visible n scan'.next_record scan'.scanner v' (rw left (omega (arith, l))) in
      read_all_step visible n rid sc scan' by ∙ rw (rec, left) refl

  -- A scan of a file that does not change, from its opening to its end, where every allocated page can
  -- be opened, page 0 is allocated, and the loops have more rounds than there are pages, slots in a
  -- page and records: it succeeds with all records of the allocated pages behind page 0 that the
  -- condition keeps and the transaction sees, each once, in the order of pages and slots.
  pub open_scan-read_all :
      (visible : Rid → Bool) (n : ℕ)
      → is_allocated header 0 ≡ true
      → 0 < header.page_count
      → size (records_of keep header pages (pages_behind keep header pages 0)) < n
      → (scan : OpenScan) × (open_scan keep header pages rounds fuel ≡ some (success, scan))
        × (read_all keep header pages rounds fuel visible n scan
            ≡ some (
              success,
              seen visible (records_of keep header pages (pages_behind keep header pages 0)),
            ))
  unfolding open_scan
  open_scan-read_all visible n first some_pages enough =
      let start : Scanner = record { at_page = 0; slots = none } in
      let (scan, by, v, left) =
        fetch-pending start (record { page = first; inside = some_pages; slots = tt }) in
      (
        scan,
        by,
        read_all-seen visible n scan.next_record scan.scanner v (rw left enough) ∙ rw left refl,
      )
