-- ===== src/Buffer/File.antt =====
-- disk_buffer_pool.cpp and disk_buffer_pool.h: the pages of one file. The header of the file,
-- which stands in its page 0, is pinned while the file is open and is kept apart from the other
-- frames here; its mark of being dirty is left out. The bits are read and written with the
-- expressions of Bitmap.
pub mod Header
pub mod Recover
pub mod Allocate
pub mod Dispose
use oceanbase_jp.Prelude.{
  ℕ, zero, suc, ◌+◌, ◌-◌, ◌*◌, Bool, true, false, ◌&&◌, ◌||◌, Option, none, some, List, [], ◌∷◌,
  ltb, leb, ◌==◌, if◌then◌else◌,
}
use oceanbase_jp.Prelude.Memory.{Mem}
use oceanbase_jp.Lang.Bitmap.{Bitmap, get_bit, set_bit, clear_bit, next_setted_bit}
use oceanbase_jp.Record.Layout.{page_data_size}
use oceanbase_jp.Rc.{Rc, success, bufferpool_nobuf, bufferpool_invalid_page_num}
use oceanbase_jp.Buffer.{
  Page, Frame, Entry, Store, Env, find, assign, allocate_frame, get_this_page, flush_page,
  purge_page,
}

pub record FileHeader : Type 0 where
  pub page_count : ℕ
  pub allocated_pages : ℕ
  pub bits : Mem

-- The bitmap of a BufferPoolIterator: the bits of the pages of the file.
abbrev pub bitmap_of : FileHeader → Bitmap
bitmap_of h = record { bitmap = 0; size = h.page_count }

abbrev pub max_page_num : ℕ
max_page_num = (page_data_size - 8) * 8

-- The bits of the header, as many as it has room for.
abbrev pub header_bitmap : Bitmap
header_bitmap = record { bitmap = 0; size = max_page_num }

abbrev pub is_allocated : FileHeader → ℕ → Bool
is_allocated h num = get_bit h.bits header_bitmap num

-- The header of a new file, in BufferPoolManager::create_file.
abbrev pub created_header : FileHeader
created_header = record {
  page_count = 1;
  allocated_pages = 1;
  bits = set_bit (λ _. 0) header_bitmap 0;
}

-- The loop of allocate_page, by the rounds left.
unfoldable pub first_free : ℕ → FileHeader → ℕ → Option ℕ
first_free zero h i = none
first_free (suc rounds) h i = if is_allocated h i then first_free rounds h (i + 1) else some i

-- The page to use again, if the header counts a free one.
unfoldable pub free_page : FileHeader → Option ℕ
unfolding first_free
free_page h = if ltb h.allocated_pages h.page_count then first_free h.page_count h 0 else none

unfoldable pub take_page : FileHeader → ℕ → FileHeader
take_page h num = record h {
  allocated_pages = h.allocated_pages + 1;
  bits = set_bit h.bits header_bitmap num;
}

unfoldable pub extend_header : FileHeader → FileHeader
extend_header h = record {
  page_count = h.page_count + 1;
  allocated_pages = h.allocated_pages + 1;
  bits = set_bit h.bits header_bitmap h.page_count;
}

unfoldable pub drop_page : FileHeader → ℕ → FileHeader
drop_page h num = record h {
  allocated_pages = h.allocated_pages - 1;
  bits = clear_bit h.bits header_bitmap num;
}

-- DiskBufferPool::recover_page.
unfoldable pub recover_page : FileHeader → ℕ → FileHeader
recover_page h num = if is_allocated h num then h else record {
  page_count = h.page_count + 1;
  allocated_pages = h.allocated_pages + 1;
  bits = set_bit h.bits header_bitmap num;
}

-- DiskBufferPool::check_page_num.
unfoldable pub check_page_num : FileHeader → ℕ → Rc
check_page_num h num =
    if leb h.page_count num
    then bufferpool_invalid_page_num
    else if is_allocated h num
    then success
    else bufferpool_invalid_page_num

-- BufferPoolIterator::next, from the page that it is at; the iterator stays where it is at the end.
unfoldable pub next_page : FileHeader → ℕ → Option ℕ × ℕ
next_page h current = elim (next_setted_bit h.bits (bitmap_of h) (current + 1)) [
  | none ↦ (none, current)
  | some num ↦ (some num, num)
]

-- A pool: the header of its file, all frames, and the pages to dispose of when their pins are gone.
pub record Pool : Type 0 where
  pub header : FileHeader
  pub store : Store
  pub disposed : List ℕ

is_in : ℕ → List ℕ → Bool
is_in num [] = false
is_in num (x ∷ xs) = x == num || is_in num xs

-- The set of page numbers, without one.
drop_from : ℕ → List ℕ → List ℕ
drop_from num [] = []
drop_from num (x ∷ xs) = if x == num then drop_from num xs else x ∷ drop_from num xs

-- The frame of the page that the file is extended by.
abbrev pub zeroed : ℕ → ℕ → Frame
zeroed fd num = record {
  dirty = false;
  pin_count = 1;
  file_desc = fd;
  page = record { page_num = num; bytes = λ _. 0 };
}

module _ (env : Env) (fd : ℕ) where
  -- The end of allocate_page where a page is used again.
  unfoldable pub reused : Pool → FileHeader → ℕ → Option (Rc × Store) → Option (Rc × ℕ × Pool)
  reused p h num none = none
  reused p h num (some (rc, st)) = some (rc, num, record p { header = h; store = st })

  -- The end of allocate_page where the file is extended; a flush that fails is only logged.
  unfoldable pub extended : Pool → ℕ → Option (Rc × Store) → Option (Rc × ℕ × Pool)
  unfolding extend_header assign flush_page
  extended p num none = none
  extended p num (some (success, st)) =
      let frame = zeroed fd num in
      let placed = record st { entries = assign st.entries fd num frame } in
      let (_, written) =
        flush_page env fd placed (record { key_desc = fd; key_num = num; frame = frame }) in
      some (success, num, record p { header = extend_header p.header; store = written })
  extended p num (some (rc, st)) = some (rc, num, record p { store = st })

  -- DiskBufferPool::allocate_page behind the search for a free page.
  unfoldable pub allocate_at : ℕ → Pool → Option ℕ → Option (Rc × ℕ × Pool)
  unfolding reused extended take_page
  allocate_at fuel p (some num) =
      reused p (take_page p.header num) num (get_this_page env fuel p.store fd num)
  allocate_at fuel p none =
      let num = p.header.page_count in
      if leb max_page_num num
      then some (bufferpool_nobuf, num, p)
      else extended p num (allocate_frame env fuel p.store fd num)

  -- DiskBufferPool::allocate_page; the frame that it gives is that of the page number in the middle,
  -- if the code is SUCCESS.
  unfoldable pub allocate_page : ℕ → Pool → Option (Rc × ℕ × Pool)
  unfolding allocate_at free_page
  allocate_page fuel p = allocate_at fuel p (free_page p.header)

  unfoldable pub disposing : Pool → ℕ → Rc × Store → Rc × Pool
  unfolding drop_page
  disposing p num (success, st) =
      (success, record p { header = drop_page p.header num; store = st })
  disposing p num (rc, st) = (rc, record p { store = st; disposed = num ∷ p.disposed })

  -- DiskBufferPool::dispose_page.
  unfoldable pub dispose_page : Pool → ℕ → Rc × Pool
  unfolding disposing
  dispose_page p num = disposing p num (purge_page env p.store fd num)

  -- The end of unpin_page, with the frame as it is then.
  unfoldable pub unpinned : Pool → Frame → Rc × Pool
  unfolding dispose_page is_in drop_from
  unpinned p frame =
      let num = frame.page.page_num in
      let p' = (dispose_page p num).1 in
      if frame.pin_count == 0 && is_in num p.disposed
      then (success, record p' { disposed = drop_from num p'.disposed })
      else (success, p)

  -- DiskBufferPool::unpin_page, of the frame of a page; `none` is the failure of the assertion that it
  -- is pinned.
  unfoldable pub unpin_page : Pool → ℕ → Option (Rc × Pool)
  unfolding unpinned assign find
  unpin_page p num = elim (find p.store.entries fd num) [
    | none ↦ none
    | some frame ↦
        let less : Frame = record frame { pin_count = frame.pin_count - 1 } in
        let st = record p.store { entries = assign p.store.entries fd num less } in
        if frame.pin_count == 0 then none else some (unpinned (record p { store = st }) less)
  ]
