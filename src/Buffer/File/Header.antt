-- ===== src/Buffer/File/Header.antt =====
-- disk_buffer_pool.cpp: the header of a file and the search for pages.
use oceanbase_jp.Prelude.{
  ℕ, zero, suc, ◌+◌, ◌%◌, ◌≡◌, ◌≢◌, ◌≤◌, ◌<◌, refl, sym, ◌∙◌, inl, inr, Bool, true, false, some,
  arith, ltb, ◌==◌, if◌then◌else◌, Bool-cases, ℕ_discrete, subst,
}
use oceanbase_jp.Prelude.Bits.{test_bit_empty}
use oceanbase_jp.Lang.Bitmap.{get_bit, next_setted_bit}
use oceanbase_jp.Lang.Bitmap.Bits.{
  IsBytes, get_bit-set_bit, get_bit-clear_bit, set_bit-IsBytes, clear_bit-IsBytes,
}
use oceanbase_jp.Lang.Bitmap.Search.{next_setted_bit-First_after, next_setted_bit_within}
use oceanbase_jp.Lang.Bitmap.Bytes.{First}
use oceanbase_jp.Record.Page.Count.{
  count_set, count_set-le, count_set_add, count_set_remove, count_set_congr,
}
use oceanbase_jp.Buffer.File.{
  FileHeader, bitmap_of, header_bitmap, is_allocated, max_page_num, first_free, free_page,
  take_page, extend_header, drop_page, next_page, created_header,
}

-- The counters of the header and its bits agree.
pub record IsHeader (h : FileHeader) : Type 0 where
  pub bytes : IsBytes h.bits
  pub first : is_allocated h 0 ≡ true
  pub counted : h.allocated_pages ≡ count_set (is_allocated h) h.page_count
  pub beyond : (num : ℕ) → h.page_count ≤ num → is_allocated h num ≡ false
  pub some_pages : 0 < h.page_count
  pub fits : h.page_count ≤ max_page_num

-- One bit is changed.
abbrev pub Bits : FileHeader → ℕ → Bool → FileHeader → Type 0
Bits h num b h' = (j : ℕ) → is_allocated h' j ≡ (if num == j then b else is_allocated h j)

first_free-First :
    (rounds : ℕ) (h : FileHeader) (i : ℕ)
    → First (is_allocated h) false i (i + rounds) (first_free rounds h i)
unfolding first_free
first_free-First zero h i = inl (refl, λ j a b. absurd (omega arith))
first_free-First (suc n) h i = elim (Bool-cases (is_allocated h i)) [
  | inr q ↦ rw q (inr (i, refl, omega arith, omega arith, q, λ j a b. absurd (omega arith)))
  | inl q ↦ rw q (elim (first_free-First n h (i + 1)) [
    | inl (e, all) ↦ inl (
      e,
      λ j a b. elim (ℕ_discrete i j) [
        | yes s ↦ subst (λ k. is_allocated h k ≡ true) s q
        | no s ↦ all j (omega arith) (omega arith)
      ],
    )
    | inr (k, e, lo, hi, at, all) ↦ inr (
      k,
      e,
      omega arith,
      omega arith,
      at,
      λ j a b. elim (ℕ_discrete i j) [
        | yes s ↦ subst (λ k. is_allocated h k ≡ true) s q
        | no s ↦ all j (omega arith) (omega arith)
      ],
    )
  ])
]

-- A clear bit is missing in the count.
count_set_missing : (p : ℕ → Bool) (n i : ℕ) → i < n → p i ≡ false → count_set p n < n
count_set_missing p n i l e =
    let q : ℕ → Bool = λ j. if i == j then true else p j in
    omega (arith, count_set_add p q n i l e (λ j k. refl), count_set-le q n)

-- The page that is used again is the first that is not allocated, and there is one exactly if the
-- header counts one.
pub free_page-First :
    (h : FileHeader) → IsHeader h → First (is_allocated h) false 0 h.page_count (free_page h)
unfolding free_page
free_page-First h v = elim (Bool-cases (ltb h.allocated_pages h.page_count)) [
  | inl q ↦ rw q (
      subst (λ n. First (is_allocated h) false 0 n (first_free h.page_count h 0)) (ground arith)
        (first_free-First h.page_count h 0))
  | inr q ↦ rw q (inl (refl, λ j a b. all j b (ground arith) (v.counted)))
]
  where
    all :
        (j : ℕ)
        → j < h.page_count
        → h.page_count ≤ h.allocated_pages
        → h.allocated_pages ≡ count_set (is_allocated h) h.page_count
        → is_allocated h j ≡ true
    all j l full counted = elim (Bool-cases (is_allocated h j)) [
      | inl q ↦ q
      | inr q ↦ absurd (omega (arith, count_set_missing (is_allocated h) h.page_count j l q))
    ]

pub take_page-IsHeader :
    (h : FileHeader) (num : ℕ)
    → IsHeader h
    → num < h.page_count
    → is_allocated h num ≡ false
    → IsHeader (take_page h num) × Bits h num true (take_page h num)
unfolding take_page
take_page-IsHeader h num v l free =
    let bits = get_bit-set_bit h.bits header_bitmap num v.bytes in
    (
      record {
        bytes = set_bit-IsBytes h.bits header_bitmap num v.bytes;
        first = ground (arith, bits 0, v.first);
        counted = ground (
          arith,
          v.counted,
          count_set_add (is_allocated h) (is_allocated (take_page h num)) h.page_count num l free
              (λ j k. bits j),
        );
        beyond = λ j k. ground (arith, bits j, v.beyond j k);
        some_pages = v.some_pages;
        fits = v.fits;
      },
      bits,
    )

pub extend_header-IsHeader :
    (h : FileHeader)
    → IsHeader h
    → h.page_count < max_page_num
    → IsHeader (extend_header h) × Bits h h.page_count true (extend_header h)
unfolding extend_header
extend_header-IsHeader h v l =
    let num = h.page_count in
    let bits = get_bit-set_bit h.bits header_bitmap num v.bytes in
    let last : is_allocated (extend_header h) num ≡ true = ground (arith, bits num) in
    let others : count_set (is_allocated (extend_header h)) num ≡ count_set (is_allocated h) num =
      count_set_congr _ _ num (λ j k. ground (arith, bits j)) in
    let grown : h.allocated_pages + 1 ≡ count_set (is_allocated (extend_header h)) (num + 1) =
      unfold count_set in ground (arith, v.counted, last, others) in
    (
      record {
        bytes = set_bit-IsBytes h.bits header_bitmap num v.bytes;
        first = ground (arith, bits 0, v.first);
        counted = grown;
        beyond = λ j k. ground (arith, bits j, v.beyond j (omega arith));
        some_pages = omega arith;
        fits = omega arith;
      },
      bits,
    )

pub drop_page-IsHeader :
    (h : FileHeader) (num : ℕ)
    → IsHeader h
    → 0 < num
    → is_allocated h num ≡ true
    → IsHeader (drop_page h num) × Bits h num false (drop_page h num)
unfolding drop_page
drop_page-IsHeader h num v pos taken =
    let bits = get_bit-clear_bit h.bits header_bitmap num v.bytes in
    let l : num < h.page_count = ground (arith, v.beyond num) in
    (
      record {
        bytes = clear_bit-IsBytes h.bits header_bitmap num v.bytes;
        first = ground (arith, bits 0, v.first);
        counted = ground (
          arith,
          v.counted,
          count_set_remove (is_allocated h) (is_allocated (drop_page h num)) h.page_count num l
              taken (λ j k. bits j),
        );
        beyond = λ j k. ground (arith, bits j, v.beyond j k);
        some_pages = v.some_pages;
        fits = v.fits;
      },
      bits,
    )

next_page_by :
    (h : FileHeader) (current : ℕ)
    → (next_page h current).0 ≡ next_setted_bit h.bits (bitmap_of h) (current + 1)
unfolding next_page
next_page_by h current = ground arith

-- The iterator gives no page outside the file.
pub next_page_within :
    (h : FileHeader) (current num : ℕ) → h.page_count ≤ num → (next_page h current).0 ≢ some num
next_page_within h current num l e = absurd (
    omega (
      arith,
      next_setted_bit_within h.bits (bitmap_of h) (current + 1) num
          (sym (next_page_by h current) ∙ e),
    ))

-- BufferPoolIterator::next gives the pages of the file in order: from an allocated page it goes to the
-- next one that is allocated, and there it ends where no further page is.
pub next_page-First :
    (h : FileHeader) (current : ℕ)
    → is_allocated h current ≡ true
    → First (is_allocated h) true (current + 1) h.page_count (next_page h current).0
unfolding get_bit
next_page-First h current at =
    subst (λ r. First (is_allocated h) true (current + 1) h.page_count r)
      (sym (next_page_by h current))
      (next_setted_bit-First_after h.bits (bitmap_of h) current (unfold get_bit in at))

created_bits : Bits (record created_header { bits = λ _. 0 }) 0 true created_header
created_bits = get_bit-set_bit (λ _. 0) header_bitmap 0 (λ a. omega arith)

no_bits : (h : FileHeader) (j : ℕ) → is_allocated (record h { bits = λ _. 0 }) j ≡ false
unfolding get_bit
no_bits h j = test_bit_empty (j % 8) (omega arith)

-- The header of a new file is valid, and page 0 alone is allocated.
pub created_header-IsHeader :
    IsHeader created_header × ((j : ℕ) → is_allocated created_header j ≡ (j == 0))
unfolding count_set
created_header-IsHeader = (
  record {
    bytes = set_bit-IsBytes (λ _. 0) header_bitmap 0 (λ a. omega arith);
    first = ground (arith, created_bits 0);
    counted = ground (arith, created_bits 0);
    beyond = λ j l. ground (arith, created_bits j, no_bits created_header j);
    some_pages = omega arith;
    fits = ground arith;
  },
  λ j. ground (arith, created_bits j, no_bits created_header j),
)
