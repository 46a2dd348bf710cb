-- ===== src/Lang/Bitmap/Bytes.antt =====
-- The first set or clear bit within a byte (deps/common/lang/bitmap.cpp).
use oceanbase_jp.Prelude.{
  ℕ, zero, suc, ◌+◌, ◌-◌, ◌*◌, ◌/◌, ◌%◌, ◌≤◌, ◌<◌, ◌≡◌, ◌⊎◌, inl, inr, refl, subst, Bool, true,
  false, not, Option, none, some, arith, ltb, Bool-cases,
}
use oceanbase_jp.Prelude.Memory.{Mem}
use oceanbase_jp.Prelude.Bits.{test_bit}
use oceanbase_jp.Lang.Bitmap.{
  find_zero_from, find_set_from, find_first_zero, find_first_setted, below_size,
}

-- `r` is the first index in the range at which `p` is `want`, or there is none.
abbrev pub First : (ℕ → Bool) → Bool → ℕ → ℕ → Option ℕ → Type 0
First p want lo hi r =
    ((r ≡ none) × ((j : ℕ) → lo ≤ j → j < hi → p j ≡ not want))
    ⊎ ((i : ℕ) × (r ≡ some i)
        × (lo ≤ i)
        × (i < hi)
        × (p i ≡ want)
        × ((j : ℕ) → lo ≤ j → j < i → p j ≡ not want))

module _ (p : ℕ → Bool) (want : Bool) where
  First-here : (lo hi : ℕ) → lo < hi → p lo ≡ want → First p want lo hi (some lo)
  First-here lo hi l e = inr (lo, refl, omega arith, l, e, λ j h k. absurd (omega arith))

  pub First-extend :
      (lo mid hi : ℕ) (r : Option ℕ)
      → lo ≤ mid
      → ((j : ℕ) → lo ≤ j → j < mid → p j ≡ not want)
      → First p want mid hi r
      → First p want lo hi r
  First-extend lo mid hi r l before (inl (e, f)) = inl (e, λ j h k. ground (arith, before j, f j))
  First-extend lo mid hi r l before (inr (i, e, a, b, at, f)) =
      inr (i, e, omega arith, b, at, λ j h k. ground (arith, before j, f j))

  pub First-below_size :
      (lo hi size : ℕ) (r : Option ℕ)
      → size ≤ hi
      → First p want lo hi r
      → First p want lo size (below_size size r)
  unfolding below_size
  First-below_size lo hi size none l (inl (e, f)) = inl (refl, λ j h k. f j h (omega arith))
  First-below_size lo hi size (some x) l (inl (e, f)) = cc
  First-below_size lo hi size none l (inr (i, e, a, b, at, f)) = cc
  First-below_size lo hi size (some x) l (inr (i, e, a, b, at, f)) =
      elim (Bool-cases (ltb i size)) [
        | inl small ↦ inr (i, ground arith, a, ground arith, at, f)
        | inr large ↦ inl (ground arith, λ j h k. f j h (ground arith))
      ]

module _ (p : ℕ → Bool) (want : Bool) where
  First-later :
      (i n : ℕ) (r : Option ℕ)
      → p i ≡ not want
      → First p want (i + 1) (i + 1 + n) r
      → First p want i (i + suc n) r
  First-later i n r e f =
      subst (λ hi. First p want i hi r) (omega arith)
        (First-extend p want i (i + 1) (i + 1 + n) r (omega arith)
          (λ j h k. subst (λ x. p x ≡ not want) (omega arith) e) f)

find_zero_from-First :
    (n byte i : ℕ) → First (test_bit byte) false i (i + n) (find_zero_from n byte i)
unfolding find_zero_from
find_zero_from-First zero byte i = inl (refl, λ j h k. absurd (omega arith))
find_zero_from-First (suc n) byte i = elim (Bool-cases (test_bit byte i)) [
  | inr e ↦ rw e (First-here (test_bit byte) false i (i + suc n) (omega arith) e)
  | inl e ↦ rw e (First-later (test_bit byte) false i n _ e (find_zero_from-First n byte (i + 1)))
]

find_set_from-First : (n byte i : ℕ) → First (test_bit byte) true i (i + n) (find_set_from n byte i)
unfolding find_set_from
find_set_from-First zero byte i = inl (refl, λ j h k. absurd (omega arith))
find_set_from-First (suc n) byte i = elim (Bool-cases (test_bit byte i)) [
  | inl e ↦ rw e (First-here (test_bit byte) true i (i + suc n) (omega arith) e)
  | inr e ↦ rw e (First-later (test_bit byte) true i n _ e (find_set_from-First n byte (i + 1)))
]

-- A search within a byte.
abbrev pub FindsIn : Bool → (ℕ → ℕ → Option ℕ) → Type 0
FindsIn want find = (byte s : ℕ) → s < 8 → First (test_bit byte) want s 8 (find byte s)

pub find_first_zero-FindsIn : FindsIn false find_first_zero
unfolding find_first_zero
find_first_zero-FindsIn byte s l =
    subst (λ hi. First (test_bit byte) false s hi (find_zero_from (8 - s) byte s)) (omega arith)
      (find_zero_from-First (8 - s) byte s)

pub find_first_setted-FindsIn : FindsIn true find_first_setted
unfolding find_first_setted
find_first_setted-FindsIn byte s l =
    subst (λ hi. First (test_bit byte) true s hi (find_set_from (8 - s) byte s)) (omega arith)
      (find_set_from-First (8 - s) byte s)

-- Bit `j` of the memory from `base` on.
abbrev pub bit : Mem → ℕ → ℕ → Bool
bit m base j = test_bit (m (base + j / 8)) (j % 8)

-- Bits of the byte `iter` are bits of the memory.
pub bits_of_byte :
    (m : Mem) (base iter lo hi : ℕ) (v : Bool)
    → hi ≤ 8
    → ((j : ℕ) → lo ≤ j → j < hi → test_bit (m (base + iter)) j ≡ v)
    → (j : ℕ) → iter * 8 + lo ≤ j
    → j < iter * 8 + hi
    → bit m base j ≡ v
bits_of_byte m base iter lo hi v l h j a b =
    let q : iter ≡ j / 8 = omega arith in
    subst (λ x. test_bit (m (base + x)) (j % 8) ≡ v) q (h (j % 8) (omega arith) (omega arith))
