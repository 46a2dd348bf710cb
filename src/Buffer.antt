-- ===== src/Buffer.antt =====
-- src/observer/storage/default/disk_buffer_pool.cpp and disk_buffer_pool.h: the frames that hold
-- pages in memory, and how a pool of one file gets and gives them back. The cache of frames is
-- the list of its entries, the one used last in front, as deps/common/lang/lru_cache.h keeps
-- them; `find` is its search. A pointer to a frame is the key of its entry. The time of access,
-- which nothing reads, is left out. Every frame that the allocator has given stands in the cache,
-- so that it has one left while there are fewer entries than frames. The number of the file is
-- the argument `fd`, and what a new frame holds before it is filled is the argument `leftover`.
pub mod Cache
pub mod Frames
pub mod Flush
pub mod Room
pub mod Pages
pub mod Fetch
pub mod Purge
pub mod File
use oceanbase_jp.Prelude.{
  ℕ, zero, suc, ◌+◌, ◌-◌, Bool, true, false, ◌&&◌, ◌||◌, Option, none, some, List, [], ◌∷◌, leb,
  ◌==◌, if◌then◌else◌,
}
use oceanbase_jp.Prelude.Memory.{Mem}
use oceanbase_jp.Rc.{
  Rc, success, generic_error, nomem, internal, locked_unlock, ioerr_read, ioerr_write,
}

pub record Page : Type 0 where
  pub page_num : ℕ
  pub bytes : Mem

pub record Frame : Type 0 where
  pub dirty : Bool
  pub pin_count : ℕ
  pub file_desc : ℕ
  pub page : Page

-- An entry of the cache: its BPFrameId, and the frame.
pub record Entry : Type 0 where
  pub key_desc : ℕ
  pub key_num : ℕ
  pub frame : Frame

abbrev pub Entries : Type 0
Entries = List Entry

abbrev pub is_at : Entry → ℕ → ℕ → Bool
is_at e fd num = e.key_desc == fd && e.key_num == num

unfoldable pub find : Entries → ℕ → ℕ → Option Frame
find [] fd num = none
find (e ∷ es) fd num = if is_at e fd num then some e.frame else find es fd num

-- LruCache::remove.
unfoldable pub remove : Entries → ℕ → ℕ → Entries
remove [] fd num = []
remove (e ∷ es) fd num = if is_at e fd num then es else e ∷ remove es fd num

-- A write through the pointer to a frame.
unfoldable pub assign : Entries → ℕ → ℕ → Frame → Entries
assign [] fd num frame = []
assign (e ∷ es) fd num frame =
    if is_at e fd num then record e { frame = frame } ∷ es else e ∷ assign es fd num frame

unfoldable pub count : Entries → ℕ
count [] = 0
count (e ∷ es) = suc (count es)

-- BPFrameManager::get: the entry that is found comes to the front.
unfoldable pub get : Entries → ℕ → ℕ → Option Frame × Entries
unfolding find remove
get es fd num = elim (find es fd num) [
  | none ↦ (none, es)
  | some frame ↦
      (some frame, record { key_desc = fd; key_num = num; frame = frame } ∷ remove es fd num)
]

-- BPFrameManager::free, of the frame in the entry with the key `(of_desc, of_num)`.
unfoldable pub free : Entries → ℕ → ℕ → ℕ → ℕ → Rc × Entries
unfolding get remove
free es fd num of_desc of_num =
    let (found, es') = get es fd num in
    elim found [
      | none ↦ (generic_error, es')
      | some frame ↦
          if fd == of_desc && num == of_num
          then (success, remove es' fd num)
          else (generic_error, es')
    ]

-- BPFrameManager::begin_purge: the entry used longest ago that is not pinned.
unfoldable pub begin_purge : Entries → Option Entry
begin_purge [] = none
begin_purge (e ∷ es) = elim (begin_purge es) [
  | some found ↦ some found
  | none ↦ if e.frame.pin_count == 0 then some e else none
]

-- The frames of all files, and the files.
pub record Store : Type 0 where
  pub entries : Entries
  pub disk : ℕ → ℕ → Page

unfoldable pub write_page : (ℕ → ℕ → Page) → ℕ → ℕ → Page → ℕ → ℕ → Page
write_page disk fd num page u n = if fd == u && num == n then page else disk u n

-- The operating system and the set-up: the number of frames, whether a file is known to the manager,
-- whether the reading and the writing of a page succeed, and what a write that fails leaves.
pub record Env : Type 0 where
  pub capacity : ℕ
  pub opened : ℕ → Bool
  pub reads : ℕ → ℕ → Bool
  pub writes : ℕ → ℕ → Bool
  pub torn : Page → Page → Page
  pub leftover : ℕ → ℕ → Frame

-- The frame that get_this_page fills with a page of the file.
abbrev pub fresh_frame : Store → ℕ → ℕ → Frame
fresh_frame st fd num = record {
  dirty = false;
  pin_count = 1;
  file_desc = fd;
  page = st.disk fd num;
}

module _ (env : Env) where
  -- BPFrameManager::alloc: nothing if the page has a frame, or no frame is left.
  unfoldable pub alloc : Entries → ℕ → ℕ → Bool × Entries
  unfolding get count
  alloc es fd num =
      let (found, es') = get es fd num in
      elim found [
        | some _ ↦ (false, es')
        | none ↦
            if leb env.capacity (count es')
            then (false, es')
            else (true, record { key_desc = fd; key_num = num; frame = env.leftover fd num } ∷ es')
      ]

  -- DiskBufferPool::flush_page of the pool of the file `fd`, of the frame in the entry; the position of
  -- the file is set first.
  unfoldable pub flush_page : ℕ → Store → Entry → Rc × Store
  unfolding assign write_page
  flush_page fd st e =
      let page = e.frame.page in
      if env.writes fd page.page_num
      then (
        success,
        record {
          entries = assign st.entries e.key_desc e.key_num (record e.frame { dirty = false });
          disk = write_page st.disk fd page.page_num page;
        },
      )
      else (
        ioerr_write,
        record st {
          disk = write_page st.disk fd page.page_num (env.torn (st.disk fd page.page_num) page);
        },
      )

  -- BufferPoolManager::flush_page.
  unfoldable pub manager_flush_page : Store → Entry → Rc × Store
  unfolding flush_page
  manager_flush_page st e =
      if env.opened e.frame.file_desc then flush_page e.frame.file_desc st e else (internal, st)

  -- The frame that was purged is flushed first if it is dirty.
  unfoldable pub flush_if_dirty : Store → Entry → Rc × Store
  unfolding manager_flush_page
  flush_if_dirty st e = if e.frame.dirty then manager_flush_page st e else (success, st)

  -- A round of the loop of DiskBufferPool::allocate_frame behind the flush of the frame to purge;
  -- `again` is the loop.
  unfoldable pub flushed : (Store → Option (Rc × Store)) → Entry → Rc → Store → Option (Rc × Store)
  unfolding free
  flushed again e success st = again (record st {
    entries = (free st.entries e.frame.file_desc e.frame.page.page_num e.key_desc e.key_num).1;
  })
  flushed again e rc st = some (rc, st)

  -- The round behind begin_purge.
  unfoldable pub purging :
      (Store → Option (Rc × Store)) → Store → Option Entry → Option (Rc × Store)
  unfolding flush_if_dirty flushed
  purging again st none = some (nomem, st)
  purging again st (some e) = let (rc, st') = flush_if_dirty st e in flushed again e rc st'

  -- The round behind alloc.
  unfoldable pub allocated :
      (Store → Option (Rc × Store)) → Store → Bool × Entries → Option (Rc × Store)
  unfolding begin_purge purging
  allocated again st (true, es) = some (success, record st { entries = es })
  allocated again st (false, es) = purging again (record st { entries = es }) (begin_purge es)

  -- The loop of DiskBufferPool::allocate_frame, on fuel.
  unfoldable pub allocate_frame : ℕ → Store → ℕ → ℕ → Option (Rc × Store)
  unfolding alloc allocated
  allocate_frame zero st fd num = none
  allocate_frame (suc fuel) st fd num =
      allocated (λ st'. allocate_frame fuel st' fd num) st (alloc st.entries fd num)

  -- The end of DiskBufferPool::purge_frame, behind the flush.
  unfoldable pub freed : ℕ → ℕ → Entry → Rc → Store → Rc × Store
  unfolding free
  freed fd num e success st =
      (success, record st { entries = (free st.entries fd num e.key_desc e.key_num).1 })
  freed fd num e rc st = (rc, st)

  -- DiskBufferPool::purge_frame.
  unfoldable pub purge_frame : Store → ℕ → ℕ → Entry → Rc × Store
  unfolding flush_page freed
  purge_frame st fd num e =
      if leb 1 e.frame.pin_count
      then (locked_unlock, st)
      else let (rc, st') = if e.frame.dirty then flush_page fd st e else (success, st) in
        freed fd num e rc st'

  -- DiskBufferPool::purge_page, behind the search.
  unfoldable pub purge_found : Store → ℕ → ℕ → Option Frame × Entries → Rc × Store
  unfolding purge_frame
  purge_found st fd num (none, es) = (success, record st { entries = es })
  purge_found st fd num (some frame, es) =
      purge_frame (record st { entries = es }) fd num
        (record { key_desc = fd; key_num = num; frame = frame })

  -- DiskBufferPool::purge_page.
  unfoldable pub purge_page : Store → ℕ → ℕ → Rc × Store
  unfolding purge_found get
  purge_page st fd num = purge_found st fd num (get st.entries fd num)

  -- DiskBufferPool::get_this_page behind allocate_frame: load_page, and what follows its failure.
  unfoldable pub load : Store → ℕ → ℕ → Rc × Store
  unfolding assign purge_frame
  load st fd num =
      if env.reads fd num
      then (success, record st { entries = assign st.entries fd num (fresh_frame st fd num) })
      else let unpinned : Frame = record (fresh_frame st fd num) { pin_count = 0 } in
        (
          ioerr_read,
          (purge_frame (record st { entries = assign st.entries fd num unpinned }) fd num
              (record { key_desc = fd; key_num = num; frame = unpinned })).1,
        )

  unfoldable pub load_allocated : ℕ → ℕ → Option (Rc × Store) → Option (Rc × Store)
  unfolding load
  load_allocated fd num none = none
  load_allocated fd num (some (success, st)) = some (load st fd num)
  load_allocated fd num (some (rc, st)) = some (rc, st)

  -- DiskBufferPool::get_this_page behind the search for a frame.
  unfoldable pub get_or_load : ℕ → Store → ℕ → ℕ → Option Frame × Entries → Option (Rc × Store)
  unfolding assign allocate_frame load_allocated
  get_or_load fuel st fd num (some frame, es) = some (
    success,
    record st { entries = assign es fd num (record frame { pin_count = frame.pin_count + 1 }) },
  )
  get_or_load fuel st fd num (none, es) =
      load_allocated fd num (allocate_frame fuel (record st { entries = es }) fd num)

  -- DiskBufferPool::get_this_page; the frame that it gives is the one in the entry `(fd, num)`.
  unfoldable pub get_this_page : ℕ → Store → ℕ → ℕ → Option (Rc × Store)
  unfolding get get_or_load
  get_this_page fuel st fd num = get_or_load fuel st fd num (get st.entries fd num)
