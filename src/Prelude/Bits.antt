-- ===== src/Prelude/Bits.antt =====
-- Single bits of a byte: `b & (1 << i)`, `b |= (1 << i)` and `b &= ~(1 << i)`, by tables.
use oceanbase_jp.Prelude.Tests.{ltb, ◌==◌, if◌then◌else◌}
use Prim.Native.Nat.{ℕ, zero, suc, ◌-◌, ◌^◌, ◌<◌, bit_and, bit_or}
use mathlib.Core.Path.{◌≡◌, refl}
use mathlib.Core.Bool.{Bool, true, false, ◌&&◌, not}
use native.Mathlib.Omega.{arith}

-- `(b & (1 << i)) != 0`
unfoldable pub test_bit : ℕ → ℕ → Bool
test_bit b i = not (bit_and b (2 ^ i) == 0)

-- `b | (1 << i)`
unfoldable pub set_in_byte : ℕ → ℕ → ℕ
set_in_byte b i = bit_or b (2 ^ i)

-- `b & ~(1 << i)`
unfoldable pub clear_in_byte : ℕ → ℕ → ℕ
clear_in_byte b i = bit_and b (255 - 2 ^ i)

-- Checking every number below a bound.
unfoldable pub all_below : ℕ → (ℕ → Bool) → Bool
all_below zero p = true
all_below (suc n) p = p n && all_below n p

pub all_below_sound : (n : ℕ) (p : ℕ → Bool) (x : ℕ) → all_below n p ≡ true → x < n → p x ≡ true
unfolding all_below
all_below_sound zero p x h l = absurd (omega arith)
all_below_sound (suc n) p x h l = ground (arith, all_below_sound n p x)

same : Bool → Bool → Bool
same true b = b
same false b = not b

same_sound : (a b : Bool) → same a b ≡ true → a ≡ b
unfolding same
same_sound a b h = ground arith

abbrev all_bytes : (ℕ → ℕ → ℕ → Bool) → Bool
all_bytes p = all_below 256 λ b. all_below 8 λ i. all_below 8 λ j. p b i j

all_bytes_sound :
    (p : ℕ → ℕ → ℕ → Bool) (b i j : ℕ)
    → all_bytes p ≡ true
    → b < 256
    → i < 8
    → j < 8
    → p b i j ≡ true
all_bytes_sound p b i j t hb hi hj =
    all_below_sound 8 (p b i) j
      (all_below_sound 8 (λ i. all_below 8 (p b i)) i
        (all_below_sound 256 (λ b. all_below 8 λ i. all_below 8 (p b i)) b t hb) hi)
      hj

set_table :
    all_bytes (λ b i j.
      same (test_bit (set_in_byte b i) j) (if i == j then true else test_bit b j)
      && ltb (set_in_byte b i) 256)
    ≡ true
unfolding all_below same test_bit set_in_byte
set_table = refl

clear_table :
    all_bytes (λ b i j.
      same (test_bit (clear_in_byte b i) j) (if i == j then false else test_bit b j)
      && ltb (clear_in_byte b i) 256)
    ≡ true
unfolding all_below same test_bit clear_in_byte
clear_table = refl

both_sound : (x y : Bool) (n : ℕ) → (same x y && ltb n 256) ≡ true → (x ≡ y) × (n < 256)
unfolding same
both_sound x y n h = ground arith

pub set_in_byte_lem :
    (b i j : ℕ)
    → b < 256
    → i < 8
    → j < 8
    → (test_bit (set_in_byte b i) j ≡ (if i == j then true else test_bit b j))
      × (set_in_byte b i < 256)
set_in_byte_lem b i j hb hi hj = both_sound _ _ _ (all_bytes_sound _ b i j set_table hb hi hj)

pub clear_in_byte_lem :
    (b i j : ℕ)
    → b < 256
    → i < 8
    → j < 8
    → (test_bit (clear_in_byte b i) j ≡ (if i == j then false else test_bit b j))
      × (clear_in_byte b i < 256)
clear_in_byte_lem b i j hb hi hj = both_sound _ _ _ (all_bytes_sound _ b i j clear_table hb hi hj)

full_table : all_below 8 (λ j. test_bit 255 j) ≡ true
unfolding all_below test_bit
full_table = refl

empty_table : all_below 8 (λ j. not (test_bit 0 j)) ≡ true
unfolding all_below test_bit
empty_table = refl

-- The byte 0xFF, which the source reads as the `char` -1, has every bit set.
pub test_bit_full : (j : ℕ) → j < 8 → test_bit 255 j ≡ true
test_bit_full j h = all_below_sound 8 (test_bit 255) j full_table h

pub test_bit_empty : (j : ℕ) → j < 8 → test_bit 0 j ≡ false
test_bit_empty j h = ground (arith, all_below_sound 8 (λ j. not (test_bit 0 j)) j empty_table h)
