-- ===== src/Record/Page/Valid.antt =====
-- The invariant of a page of records, and its view as a partial map from slots to records.
use oceanbase_jp.Prelude.{
  ℕ, ◌+◌, ◌-◌, ◌*◌, ◌/◌, ◌^◌, ◌≤◌, ◌<◌, ◌≡◌, ◌≢◌, ◌⊎◌, inl, inr, Bool, true, false, Option, none,
  some, List, arith, ltb, if◌then◌else◌, ◌&&◌, dec_lt,
}
use oceanbase_jp.Prelude.Memory.{
  Mem, copy_in, read, copy_in_outside, read-copy_in_apart, read-store_apart,
}
use oceanbase_jp.Lang.Bitmap.{get_bit, set_bit, clear_bit}
use oceanbase_jp.Lang.Bitmap.Bits.{IsBytes}
use oceanbase_jp.Record.Layout.{page_fix_size, page_bitmap_size, page_bitmap_size_bounds}
use oceanbase_jp.Record.Page.{PageHeader, RecordPage, bitmap_of, get_record_data}
use oceanbase_jp.Record.Page.Count.{count_set}

-- Is the slot in use?
abbrev pub used : RecordPage → ℕ → Bool
used p = get_bit p.bytes (bitmap_of p.header)

-- The bitmap ends before the records, and a record's place is large enough for it.
pub record IsLaidOut (h : PageHeader) : Type 0 where
  pub apart : page_fix_size + page_bitmap_size h.record_capacity ≤ h.first_record_offset
  pub roomy : h.record_real_size ≤ h.record_size
  pub small : h.record_capacity < 2 ^ 31

pub record IsValid (p : RecordPage) : Type 0 where
  pub laid_out : IsLaidOut p.header
  pub bytes : IsBytes p.bytes
  pub counted : count_set (used p) p.header.record_capacity ≡ p.header.record_num

-- What a reader can find in a slot.
unfoldable pub view : RecordPage → ℕ → Option (List ℕ)
view p slot =
    if ltb slot p.header.record_capacity && used p slot
    then some (read p.bytes (get_record_data p.header slot) p.header.record_real_size)
    else none

module _ (p : RecordPage) (slot : ℕ) where
  pub view-used :
      slot < p.header.record_capacity
      → used p slot ≡ true
      → view p slot ≡ some (read p.bytes (get_record_data p.header slot) p.header.record_real_size)
  unfolding view
  view-used l e = ground arith

  pub view-free : used p slot ≡ false → view p slot ≡ none
  unfolding view
  view-free e = ground arith

  pub view-outside : p.header.record_capacity ≤ slot → view p slot ≡ none
  unfolding view
  view-outside l = ground arith

-- Two pages with one header show the same in a slot that holds the same bytes in both, and is in
-- use in both or in neither.
pub view_congr :
    (p q : RecordPage) (j : ℕ)
    → q.header.record_capacity ≡ p.header.record_capacity
    → (j < p.header.record_capacity → used q j ≡ used p j)
    → read q.bytes (get_record_data q.header j) q.header.record_real_size
      ≡ read p.bytes (get_record_data p.header j) p.header.record_real_size
    → view q j ≡ view p j
unfolding view
view_congr p q j c u r = ground arith

pub copy_in-IsBytes :
    (m : Mem) (dst : ℕ) (src : Mem) (n : ℕ)
    → IsBytes m
    → IsBytes src
    → IsBytes (copy_in m dst src n)
unfolding copy_in
copy_in-IsBytes m dst src n h k x = ground (arith, h x, k (x - dst))

stride : (s i j : ℕ) → i < j → s * i + s ≤ s * j
stride s i j l = grind arith

module _ (h : PageHeader) (laid : IsLaidOut h) where
  -- A write among the records leaves the bitmap alone.
  pub get_bit-copy_in :
      (m : Mem) (slot : ℕ) (src : Mem) (n j : ℕ)
      → j < h.record_capacity
      → get_bit (copy_in m (get_record_data h slot) src n) (bitmap_of h) j
        ≡ get_bit m (bitmap_of h) j
  unfolding get_bit get_record_data
  get_bit-copy_in m slot src n j l = rw (
      copy_in_outside m (get_record_data h slot) src n (page_fix_size + j / 8)
        (inl (omega (arith, laid.apart, page_bitmap_size_bounds h.record_capacity))))

  -- The places of two slots do not overlap.
  pub slots_apart :
      (i j : ℕ)
      → i ≢ j
      → (get_record_data h j + h.record_real_size ≤ get_record_data h i)
        ⊎ (get_record_data h i + h.record_real_size ≤ get_record_data h j)
  unfolding get_record_data
  slots_apart i j ne = elim (dec_lt i j) [
    | yes l ↦ inr (omega (arith, stride h.record_size i j l, laid.roomy))
    | no g ↦ inl (omega (arith, stride h.record_size j i (omega arith), laid.roomy))
  ]

  pub read-copy_in_other :
      (m : Mem) (i j : ℕ) (src : Mem)
      → i ≢ j
      → read
          (copy_in m (get_record_data h i) src h.record_real_size)
          (get_record_data h j)
          h.record_real_size
        ≡ read m (get_record_data h j) h.record_real_size
  read-copy_in_other m i j src ne =
      read-copy_in_apart m (get_record_data h i) src h.record_real_size (get_record_data h j)
        h.record_real_size (slots_apart i j ne)

  -- The bytes of the bitmap stand before every record.
  before_record : (i j : ℕ) → i < h.record_capacity → page_fix_size + i / 8 < get_record_data h j
  unfolding get_record_data
  before_record i j l = omega (arith, laid.apart, page_bitmap_size_bounds h.record_capacity)

  pub read-set_bit :
      (m : Mem) (i j : ℕ)
      → i < h.record_capacity
      → read (set_bit m (bitmap_of h) i) (get_record_data h j) h.record_real_size
        ≡ read m (get_record_data h j) h.record_real_size
  unfolding set_bit
  read-set_bit m i j l =
      read-store_apart m _ _ (get_record_data h j) h.record_real_size (inr (before_record i j l))

  pub read-clear_bit :
      (m : Mem) (i j : ℕ)
      → i < h.record_capacity
      → read (clear_bit m (bitmap_of h) i) (get_record_data h j) h.record_real_size
        ≡ read m (get_record_data h j) h.record_real_size
  unfolding clear_bit
  read-clear_bit m i j l =
      read-store_apart m _ _ (get_record_data h j) h.record_real_size (inr (before_record i j l))
