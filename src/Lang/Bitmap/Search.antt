-- ===== src/Lang/Bitmap/Search.antt =====
-- deps/common/lang/bitmap.cpp: what the two searches find, and what they miss.
use oceanbase_jp.Prelude.{
  ℕ, zero, suc, ◌+◌, ◌-◌, ◌*◌, ◌/◌, ◌%◌, ◌≤◌, ◌<◌, ◌≡◌, ◌≢◌, ◌⊎◌, inl, inr, refl, subst, Bool, true,
  false, not, Option, none, some, arith, ◌==◌, Bool-cases, ℕ_discrete,
}
use oceanbase_jp.Prelude.Memory.{Mem}
use oceanbase_jp.Prelude.Bits.{test_bit, test_bit_full, test_bit_empty}
use oceanbase_jp.Lang.Bitmap.{
  Bitmap, find_first_zero, find_first_setted, get_bit, scan, below_size, end_byte,
  next_unsetted_bit, next_setted_bit,
}
use oceanbase_jp.Lang.Bitmap.Bytes.{
  First, First-extend, First-below_size, FindsIn, find_first_zero-FindsIn,
  find_first_setted-FindsIn, bit, bits_of_byte,
}

module _ (want : Bool) (skip : ℕ) (find : ℕ → ℕ → Option ℕ)
    (skips : (j : ℕ) → j < 8 → test_bit skip j ≡ not want) (finds : FindsIn want find) (m : Mem)
    (base : ℕ) where
  next_byte :
      (rounds iter s : ℕ) (r : Option ℕ)
      → s < 8
      → ((j : ℕ) → s ≤ j → j < 8 → test_bit (m (base + iter)) j ≡ not want)
      → First (bit m base) want ((iter + 1) * 8 + 0) ((iter + 1 + rounds) * 8) r
      → First (bit m base) want (iter * 8 + s) ((iter + suc rounds) * 8) r
  next_byte rounds iter s r l empty f =
      subst (λ hi. First (bit m base) want (iter * 8 + s) hi r) (omega arith)
        (First-extend (bit m base) want (iter * 8 + s) ((iter + 1) * 8 + 0)
          ((iter + 1 + rounds) * 8) r (omega arith)
          (λ j a b. bits_of_byte m base iter s 8 (not want) (omega arith) empty j a (omega arith))
          f)

  -- The search is right if it starts at a byte's first bit, or in a byte that is not passed over.
  scan-First :
      (rounds iter s : ℕ)
      → s < 8
      → (s ≡ 0) ⊎ (m (base + iter) ≢ skip)
      → First
          (bit m base)
          want
          (iter * 8 + s)
          ((iter + rounds) * 8)
          (scan skip find m base rounds iter s)
  unfolding scan
  scan-First zero iter s l c = inl (refl, λ j h k. absurd (omega arith))
  scan-First (suc rounds) iter s l c = elim (Bool-cases (m (base + iter) == skip)) [
    | inl e ↦ rw e (
        next_byte rounds iter s _ l
          (λ j a b. subst (λ x. test_bit x j ≡ not want) (ground arith) (skips j b))
          (subst
            (λ t.
              First (bit m base) want ((iter + 1) * 8 + 0) ((iter + 1 + rounds) * 8)
                (scan skip find m base rounds (iter + 1) t))
            (ground arith) (scan-First rounds (iter + 1) 0 (omega arith) (inl refl))))
    | inr e ↦ rw e (elim (finds (m (base + iter)) s l) [
      | inl (none_here, empty) ↦ rw none_here (
          next_byte rounds iter s _ l empty
            (scan-First rounds (iter + 1) 0 (omega arith) (inl refl)))
      | inr (i, found, a, b, at, before) ↦ rw found (
          inr (
            iter * 8 + i,
            refl,
            omega arith,
            omega arith,
            bits_of_byte m base iter i (suc i) want (omega arith)
                (λ j x y. subst (λ z. test_bit (m (base + iter)) z ≡ want) (omega arith) at)
                (iter * 8 + i) (omega arith) (omega arith),
            λ j x y. bits_of_byte m base iter s i (not want) (omega arith) before j x y,
          ))
    ])
  ]

  -- The range searched ends at the size or behind it.
  search_end : (size start : ℕ) → size ≤ (start / 8 + (end_byte size + 1 - start / 8)) * 8
  unfolding end_byte
  search_end size start = ground arith

  search-First :
      (size start : ℕ)
      → (start % 8 ≡ 0) ⊎ (m (base + start / 8) ≢ skip)
      → First (bit m base) want start size (
          below_size size
            (scan skip find m base (end_byte size + 1 - start / 8) (start / 8) (start % 8)))
  search-First size start c =
      let rounds = end_byte size + 1 - start / 8 in
      let r = scan skip find m base rounds (start / 8) (start % 8) in
      let hi = (start / 8 + rounds) * 8 in
      First-below_size (bit m base) want start hi size r (search_end size start) (
        subst (λ lo. First (bit m base) want lo hi r) (omega arith)
          (scan-First rounds (start / 8) (start % 8) (omega arith) c))

  -- Without the condition on the start, the result still lies behind it,
  scan_ge :
      (rounds iter s k : ℕ)
      → s < 8
      → scan skip find m base rounds iter s ≡ some k
      → iter * 8 + s ≤ k
  unfolding scan
  scan_ge zero iter s k l e = cc
  scan_ge (suc rounds) iter s k l e = ground (
    arith,
    finds (m (base + iter)) s l,
    scan_ge rounds (iter + 1) s k,
    scan_ge rounds (iter + 1) 0 k,
  )

  -- and a byte that is passed over takes the first `s` bits of the next one with it.
  scan_ge_passed :
      (rounds iter s k : ℕ)
      → s < 8
      → m (base + iter) ≡ skip
      → scan skip find m base rounds iter s ≡ some k
      → (iter + 1) * 8 + s ≤ k
  unfolding scan
  scan_ge_passed zero iter s k l p e = cc
  scan_ge_passed (suc rounds) iter s k l p e = scan_ge rounds (iter + 1) s k l (ground arith)

  search_ge_passed :
      (size start k : ℕ)
      → m (base + start / 8) ≡ skip
      → below_size size
          (scan skip find m base (end_byte size + 1 - start / 8) (start / 8) (start % 8))
        ≡ some k
      → (start / 8 + 1) * 8 + start % 8 ≤ k
  unfolding below_size
  search_ge_passed size start k p e =
      scan_ge_passed (end_byte size + 1 - start / 8) (start / 8) (start % 8) k (omega arith) p
        (ground arith)

module _ (m : Mem) (b : Bitmap) (start : ℕ) where
  -- From a start that is a multiple of 8, or that lies in a byte with a set bit, the search for a
  -- set bit returns the first one in range, and -1 only if every bit in range is clear.
  pub next_setted_bit-First :
      (start % 8 ≡ 0) ⊎ (m (b.bitmap + start / 8) ≢ 0)
      → First (get_bit m b) true start b.size (next_setted_bit m b start)
  unfolding next_setted_bit get_bit
  next_setted_bit-First =
      search-First true 0 find_first_setted test_bit_empty find_first_setted-FindsIn m b.bitmap
        b.size start

  -- From a start that is a multiple of 8, or that lies in a byte with a clear bit, the search for a
  -- clear bit returns the first one in range, and -1 only if every bit in range is set.
  pub next_unsetted_bit-First :
      (start % 8 ≡ 0) ⊎ (m (b.bitmap + start / 8) ≢ 255)
      → First (get_bit m b) false start b.size (next_unsetted_bit m b start)
  unfolding next_unsetted_bit get_bit
  next_unsetted_bit-First =
      search-First false 255 find_first_zero test_bit_full find_first_zero-FindsIn m b.bitmap b.size
        start

  -- The condition is needed: where the byte of the start is empty and the start is no multiple of 8,
  -- a set bit among the first `start % 8` bits of the next byte is missed, so that the search does
  -- not return the first set bit in range.
  pub next_setted_bit_misses :
      (t : ℕ)
      → m (b.bitmap + start / 8) ≡ 0
      → (start / 8 + 1) * 8 ≤ t
      → t < (start / 8 + 1) * 8 + start % 8
      → t < b.size
      → get_bit m b t ≡ true
      → ¬ First (get_bit m b) true start b.size (next_setted_bit m b start)
  next_setted_bit_misses t p lo hi l at (inl (e, f)) = ground (arith, f t)
  next_setted_bit_misses t p lo hi l at (inr (i, e, a, c, here, f)) =
      ground (arith, f t, behind i e)
    where
      behind : (k : ℕ) → next_setted_bit m b start ≡ some k → (start / 8 + 1) * 8 + start % 8 ≤ k
      behind k h =
          search_ge_passed true 0 find_first_setted test_bit_empty find_first_setted-FindsIn m
            b.bitmap b.size start k p (unfold next_setted_bit in h)

next_start : (k : ℕ) → ((k + 1) % 8 ≡ 0) ⊎ ((k + 1) / 8 ≡ k / 8)
next_start k = elim (ℕ_discrete ((k + 1) % 8) 0) [ yes z ↦ inl z | no z ↦ inr (omega arith) ]

-- Stepping on from a set bit is safe: the next search starts in its byte, or at the next one, and
-- returns the first set bit behind it, or -1 if there is none.
pub next_setted_bit-First_after :
    (m : Mem) (b : Bitmap) (k : ℕ)
    → get_bit m b k ≡ true
    → First (get_bit m b) true (k + 1) b.size (next_setted_bit m b (k + 1))
unfolding get_bit
next_setted_bit-First_after m b k e = next_setted_bit-First m b (k + 1) (start (next_start k))
  where
    start :
        ((k + 1) % 8 ≡ 0) ⊎ ((k + 1) / 8 ≡ k / 8)
        → ((k + 1) % 8 ≡ 0) ⊎ (m (b.bitmap + (k + 1) / 8) ≢ 0)
    start (inl z) = inl z
    start (inr z) = inr λ h.
        let empty : m (b.bitmap + k / 8) ≡ 0 = subst (λ x. m (b.bitmap + x) ≡ 0) z h in
        let clear : test_bit (m (b.bitmap + k / 8)) (k % 8) ≡ false =
          rw empty (test_bit_empty (k % 8) (omega arith)) in
        cc

below_size_within : (size k : ℕ) (r : Option ℕ) → below_size size r ≡ some k → k < size
unfolding below_size
below_size_within size k none e = ground arith
below_size_within size k (some x) e = ground arith

-- No bit outside the bitmap is returned.
pub next_setted_bit_within :
    (m : Mem) (b : Bitmap) (start k : ℕ) → next_setted_bit m b start ≡ some k → k < b.size
unfolding next_setted_bit
next_setted_bit_within m b start k e = below_size_within b.size k _ e
