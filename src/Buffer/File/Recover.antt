-- ===== src/Buffer/File/Recover.antt =====
-- disk_buffer_pool.cpp: DiskBufferPool::recover_page, which the replay of the log calls for a page.
use oceanbase_jp.Prelude.{ℕ, ◌+◌, ◌≡◌, ◌≢◌, ◌<◌, true, false, some, arith}
use oceanbase_jp.Lang.Bitmap.{set_bit}
use oceanbase_jp.Lang.Bitmap.Bits.{get_bit-set_bit}
use oceanbase_jp.Record.Page.Count.{count_set, count_set_congr}
use oceanbase_jp.Buffer.File.{FileHeader, header_bitmap, is_allocated, recover_page, next_page}
use oceanbase_jp.Buffer.File.Header.{IsHeader, next_page_within}

-- The header after the recovery of a page that was not allocated.
abbrev recovered : FileHeader → ℕ → FileHeader
recovered h num = record {
  page_count = h.page_count + 1;
  allocated_pages = h.allocated_pages + 1;
  bits = set_bit h.bits header_bitmap num;
}

-- The pages that were counted, one further.
counted_behind :
    (h : FileHeader)
    → IsHeader h
    → count_set (is_allocated h) (h.page_count + 1) ≡ h.allocated_pages
unfolding count_set
counted_behind h v = ground (arith, v.counted, v.beyond h.page_count (omega arith))

recovered_beyond :
    (h : FileHeader) (num : ℕ)
    → IsHeader h
    → h.page_count < num
    → (is_allocated (recovered h num) num ≡ true)
      × ((recovered h num).allocated_pages
          ≡ count_set (is_allocated (recovered h num)) (recovered h num).page_count + 1)
      × (is_allocated (recovered h num) h.page_count ≡ false)
recovered_beyond h num v l =
    let bits = get_bit-set_bit h.bits header_bitmap num v.bytes in
    (
      ground (arith, bits num),
      omega (
        arith,
        counted_behind h v,
        count_set_congr (is_allocated (recovered h num)) (is_allocated h) (h.page_count + 1)
            (λ j k. ground (arith, bits j)),
      ),
      ground (arith, bits h.page_count, v.beyond h.page_count (omega arith)),
    )

-- A page that is replayed further behind is allocated, but stays outside the count of pages, so that
-- the iterator over the pages never gives it; the page that was counted instead is not allocated, and
-- the number of allocated pages is one too high.
pub recover_page_beyond :
    (h : FileHeader) (num current : ℕ)
    → IsHeader h
    → h.page_count < num
    → let h' = recover_page h num in
      (is_allocated h' num ≡ true)
      × (h'.allocated_pages ≡ count_set (is_allocated h') h'.page_count + 1)
      × (is_allocated h' h.page_count ≡ false)
      × ((next_page h' current).0 ≢ some num)
unfolding recover_page
recover_page_beyond h num current v l =
    let free = v.beyond num (omega arith) in
    let r = recovered_beyond h num v l in
    rw free (r.0, r.1, r.2, λ e. next_page_within (recovered h num) current num (omega arith) e)
