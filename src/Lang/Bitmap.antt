-- ===== src/Lang/Bitmap.antt =====
-- deps/common/lang/bitmap.cpp: the bitmap over a block of bytes that somebody else owns.
-- A bitmap holds the address of its first byte and its size in bits; the bytes stand in a memory
-- that is passed along. `none` is the source's -1. Bytes are their unsigned values.
pub mod Bits
pub mod Search
pub mod Bytes
use oceanbase_jp.Prelude.{
  ℕ, zero, suc, ◌+◌, ◌-◌, ◌*◌, ◌/◌, ◌%◌, Bool, Option, none, some, not, ltb, ◌==◌, if◌then◌else◌,
}
use oceanbase_jp.Prelude.Memory.{Mem, store}
use oceanbase_jp.Prelude.Bits.{test_bit, set_in_byte, clear_in_byte}

pub record Bitmap : Type 0 where
  pub bitmap : ℕ
  pub size : ℕ

-- for (int i = start; i < 8; i++), by the rounds left.
find_zero_from : ℕ → ℕ → ℕ → Option ℕ
find_zero_from zero byte i = none
find_zero_from (suc n) byte i =
    if not (test_bit byte i) then some i else find_zero_from n byte (i + 1)

unfoldable pub find_first_zero : ℕ → ℕ → Option ℕ
unfolding find_zero_from
find_first_zero byte start = find_zero_from (8 - start) byte start

find_set_from : ℕ → ℕ → ℕ → Option ℕ
find_set_from zero byte i = none
find_set_from (suc n) byte i = if test_bit byte i then some i else find_set_from n byte (i + 1)

unfoldable pub find_first_setted : ℕ → ℕ → Option ℕ
unfolding find_set_from
find_first_setted byte start = find_set_from (8 - start) byte start

unfoldable pub get_bit : Mem → Bitmap → ℕ → Bool
get_bit m b index = test_bit (m (b.bitmap + index / 8)) (index % 8)

unfoldable pub set_bit : Mem → Bitmap → ℕ → Mem
set_bit m b index = let a = b.bitmap + index / 8 in store m a (set_in_byte (m a) (index % 8))

unfoldable pub clear_bit : Mem → Bitmap → ℕ → Mem
clear_bit m b index = let a = b.bitmap + index / 8 in store m a (clear_in_byte (m a) (index % 8))

-- The two searches differ in the byte that is passed over (0xFF, or 0x00) and in the search within
-- a byte. The loop runs by the rounds left; note that `start_in_byte` is reset only behind a byte
-- that was searched.
scan : ℕ → (ℕ → ℕ → Option ℕ) → Mem → ℕ → ℕ → ℕ → ℕ → Option ℕ
scan skip find m base zero iter start_in_byte = none
scan skip find m base (suc rounds) iter start_in_byte =
    let passed = scan skip find m base rounds (iter + 1) start_in_byte in
    let searched : Option ℕ = elim (find (m (base + iter)) start_in_byte) [
      | some i ↦ some (iter * 8 + i)
      | none ↦ scan skip find m base rounds (iter + 1) 0
    ] in
    if m (base + iter) == skip then passed else searched

-- if (ret >= size_) ret = -1
pub below_size : ℕ → Option ℕ → Option ℕ
below_size size none = none
below_size size (some ret) = if ltb ret size then some ret else none

-- The last byte looked at is `end` itself, one past the bitmap.
end_byte : ℕ → ℕ
end_byte size = if size % 8 == 0 then size / 8 else size / 8 + 1

unfoldable pub next_unsetted_bit : Mem → Bitmap → ℕ → Option ℕ
unfolding scan below_size end_byte
next_unsetted_bit m b start =
    below_size b.size (
      scan 255 find_first_zero m b.bitmap (end_byte b.size + 1 - start / 8) (start / 8) (start % 8))

unfoldable pub next_setted_bit : Mem → Bitmap → ℕ → Option ℕ
unfolding scan below_size end_byte
next_setted_bit m b start =
    below_size b.size (
      scan 0 find_first_setted m b.bitmap (end_byte b.size + 1 - start / 8) (start / 8) (start % 8))
