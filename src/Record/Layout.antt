-- ===== src/Record/Layout.antt =====
-- record_manager.cpp: where the parts of a page stand. The quotient by `record_size + 0.125` is taken
-- in doubles, where it is exact enough to round down as the quotient by `8 * record_size + 1` does.
use oceanbase_jp.Prelude.{
  ℕ, ◌+◌, ◌-◌, ◌*◌, ◌/◌, ◌%◌, ◌≤◌, ◌<◌, ◌≡◌, ◌≢◌, refl, ap, ◌∙◌, Bool, true, arith, ◌==◌, leb, ◌||◌,
  if◌then◌else◌, dec_lt,
}
use oceanbase_jp.Prelude.Bits.{all_below, all_below_sound}

unfoldable pub align8 : ℕ → ℕ
align8 size = size / 8 * 8 + (if size % 8 == 0 then 0 else 8)

-- sizeof(PageHeader): five fields of type int32_t.
abbrev pub page_fix_size : ℕ
page_fix_size = 20

-- BP_PAGE_DATA_SIZE
abbrev pub page_data_size : ℕ
page_data_size = 16380

unfoldable pub page_record_capacity : ℕ → ℕ → ℕ
page_record_capacity page_size record_size =
    8 * (page_size - page_fix_size - 1) / (8 * record_size + 1)

unfoldable pub page_bitmap_size : ℕ → ℕ
page_bitmap_size record_capacity = record_capacity / 8 + (if record_capacity % 8 == 0 then 0 else 1)

unfoldable pub page_header_size : ℕ → ℕ
unfolding align8 page_bitmap_size
page_header_size record_capacity = align8 (page_fix_size + page_bitmap_size record_capacity)

-- The end of the last record in a page of records of the given size.
unfoldable pub page_end : ℕ → ℕ
unfolding page_header_size page_record_capacity
page_end real_size =
    let record_size = align8 real_size in
    let capacity = page_record_capacity page_data_size record_size in
    page_header_size capacity + capacity * record_size

-- Alignment rounds up to the next multiple of 8.
pub align8_bounds :
    (size : ℕ) → (align8 size % 8 ≡ 0) × (size ≤ align8 size) × (align8 size < size + 8)
unfolding align8
align8_bounds size = ground arith

pub page_bitmap_size_bounds :
    (capacity : ℕ)
    → (capacity ≤ page_bitmap_size capacity * 8) × (page_bitmap_size capacity * 8 < capacity + 8)
unfolding page_bitmap_size
page_bitmap_size_bounds capacity = ground arith

-- The bitmap ends before the first record begins.
pub bitmap_before_records :
    (capacity : ℕ) → page_fix_size + page_bitmap_size capacity ≤ page_header_size capacity
unfolding page_header_size
bitmap_before_records capacity = (align8_bounds (page_fix_size + page_bitmap_size capacity)).1

capacity_of : ℕ → ℕ
unfolding page_record_capacity
capacity_of k = page_record_capacity page_data_size (k * 8)

fits : ℕ → Bool
unfolding capacity_of page_header_size
fits k =
    k == 0
    || k == 3
    || leb (page_header_size (capacity_of k) + capacity_of k * (k * 8)) page_data_size

fits_table : all_below 2048 fits ≡ true
unfolding all_below fits
fits_table = refl

large_capacity : (k : ℕ) → 2048 ≤ k → capacity_of k ≡ 0
unfolding capacity_of page_record_capacity
large_capacity k h = grind arith

end_of : ℕ → ℕ
unfolding capacity_of page_header_size
end_of k = page_header_size (capacity_of k) + capacity_of k * (k * 8)

end_of_fits : (k : ℕ) → k ≢ 0 → k ≢ 3 → end_of k ≤ page_data_size
unfolding end_of fits
end_of_fits k pos other = elim (dec_lt k 2048) [
  | yes l ↦ ground (arith, all_below_sound 2048 fits k fits_table l)
  | no l ↦ rw (large_capacity k (omega arith)) (omega arith)
]

page_end-end_of : (real_size : ℕ) → page_end real_size ≡ end_of (align8 real_size / 8)
unfolding page_end end_of
page_end-end_of real_size =
    ap
      (λ s.
        page_header_size (page_record_capacity page_data_size s)
        + page_record_capacity page_data_size s * s)
      (omega (arith, align8_bounds real_size))

-- The records of a page of records of any positive size fit into the page, unless they take 24
-- bytes each.
pub page_end-le-page_data_size :
    (real_size : ℕ) → 0 < real_size → align8 real_size ≢ 24 → page_end real_size ≤ page_data_size
page_end-le-page_data_size real_size pos other = rw (page_end-end_of real_size) (
    end_of_fits (align8 real_size / 8) (omega (arith, align8_bounds real_size))
      (omega (arith, align8_bounds real_size)))

end_of_three : end_of 3 ≡ page_data_size + 4
unfolding end_of
end_of_three = refl

-- Records of 17 to 24 bytes take 24 bytes each, and the last one of a page ends four bytes behind
-- the page.
pub page_end_overflow :
    (real_size : ℕ) → 16 < real_size → real_size ≤ 24 → page_end real_size ≡ page_data_size + 4
page_end_overflow real_size lo hi =
    page_end-end_of real_size ∙ ap end_of (omega (arith, align8_bounds real_size)) ∙ end_of_three
