-- ===== src/Tests/Buffer.antt =====
-- disk_buffer_pool.cpp with one frame, which holds a changed page of file 3.
use oceanbase_jp.Prelude.{
  ℕ, ◌+◌, ◌≡◌, ◌≢◌, ◌≤◌, ◌<◌, refl, Bool, true, false, Option, none, some, [], ◌∷◌, arith, ◌==◌,
  ◌&&◌, inl, inr, zero, suc,
}
use oceanbase_jp.Prelude.Memory.{Mem}
use oceanbase_jp.Prelude.Bits.{test_bit, set_in_byte}
use oceanbase_jp.Lang.Bitmap.{get_bit, set_bit}
use oceanbase_jp.Record.Page.Count.{count_set}
use oceanbase_jp.Rc.{Rc}
use oceanbase_jp.Buffer.{Frame, Store, Env, find, count, allocate_frame, get_this_page, purge_page}
use oceanbase_jp.Buffer.Frames.{IsStore}
use oceanbase_jp.Buffer.Room.{Allocated, allocate_frame-Allocated}
use oceanbase_jp.Buffer.Pages.{get_this_page-Asked}
use oceanbase_jp.Buffer.Fetch.{Asked}
use oceanbase_jp.Buffer.Purge.{Purges, purge_page-Purges}
use oceanbase_jp.Buffer.File.{
  FileHeader, is_allocated, Pool, allocate_page, dispose_page, recover_page, next_page,
  extend_header, created_header, header_bitmap,
}
use oceanbase_jp.Buffer.File.Recover.{recover_page_beyond}
use oceanbase_jp.Buffer.File.Header.{IsHeader, created_header-IsHeader, extend_header-IsHeader}
use oceanbase_jp.Buffer.File.Allocate.{Allocates, allocate_page-Allocates}
use oceanbase_jp.Buffer.File.Dispose.{Disposes, dispose_page-Disposes}

abbrev changed : Frame
changed = record {
  dirty = true;
  pin_count = 0;
  file_desc = 3;
  page = record { page_num = 1; bytes = λ a. 7 };
}

abbrev env : Env
env = record {
  capacity = 1;
  opened = λ fd. true;
  reads = λ fd num. true;
  writes = λ fd num. true;
  torn = λ old new. new;
  leftover = λ fd num. changed;
}

abbrev frames : Store
frames = record {
  entries = record { key_desc = 3; key_num = 1; frame = changed } ∷ [];
  disk = λ fd num. record { page_num = num; bytes = λ a. 0 };
}

frames-IsStore : IsStore env frames
unfolding find
frames-IsStore = record {
  cache = (tt, tt);
  keys = λ u n f e. ground arith;
  clean = λ u n f e d. ground arith;
  numbered = λ u n e r. refl;
}

-- Pages 0 and 1.
abbrev pub two_pages : FileHeader
two_pages = record {
  page_count = 2;
  allocated_pages = 2;
  bits = set_bit (set_bit (λ _. 0) header_bitmap 0) header_bitmap 1;
}

two_pages-IsHeader : IsHeader two_pages
unfolding extend_header
two_pages-IsHeader =
    (extend_header-IsHeader created_header created_header-IsHeader.0 (ground arith)).0

pub allocated_page : (is_allocated two_pages 0 ≡ true) × (is_allocated two_pages 1 ≡ true)
unfolding get_bit test_bit set_bit oceanbase_jp.Prelude.Memory.store set_in_byte
allocated_page = (refl, refl)

abbrev pool : Pool
pool = record { header = two_pages; store = frames; disposed = [] }

allocate_frame-Allocated_example : Allocated env 3 2 frames (allocate_frame env 2 frames 3 2)
unfolding find count
allocate_frame-Allocated_example =
    allocate_frame-Allocated env 2 frames 3 2 frames-IsStore refl (ground arith)

get_this_page-Asked_example :
    (r : Rc × Store) × (get_this_page env 2 frames 3 2 ≡ some r) × Asked env 3 2 frames r
unfolding count
get_this_page-Asked_example = get_this_page-Asked env 2 frames 3 2 frames-IsStore (ground arith)

purge_page-Purges_example : Purges env 3 1 frames (purge_page env frames 3 1)
purge_page-Purges_example = purge_page-Purges env 3 1 frames frames-IsStore

allocate_page-Allocates_example :
    (rc : Rc) × (num : ℕ) × (p' : Pool) × (allocate_page env 3 2 pool ≡ some (rc, num, p'))
    × Allocates env 3 pool rc num p'
unfolding count find
allocate_page-Allocates_example =
    allocate_page-Allocates env 3 2 pool two_pages-IsHeader frames-IsStore (ground arith) refl

dispose_page-Disposes_example : Disposes env 3 1 pool (dispose_page env 3 pool 1)
dispose_page-Disposes_example =
    dispose_page-Disposes env 3 1 pool two_pages-IsHeader frames-IsStore (ground arith)
      allocated_page.1

recover_page_beyond_example :
    let h = recover_page two_pages 5 in
    (is_allocated h 5 ≡ true)
    × (h.allocated_pages ≡ count_set (is_allocated h) h.page_count + 1)
    × (is_allocated h 2 ≡ false)
    × ((next_page h 1).0 ≢ some 5)
recover_page_beyond_example = recover_page_beyond two_pages 5 1 two_pages-IsHeader (ground arith)
