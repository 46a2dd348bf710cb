-- ===== src/Tests/Lang.antt =====
-- The containers of deps/common/lang on small inputs.
use oceanbase_jp.Prelude.{ℕ, ◌+◌, ◌≡◌, refl, true, false, some, none, arith, ◌==◌, if◌then◌else◌}
use oceanbase_jp.Prelude.Memory.{Mem}
use oceanbase_jp.Prelude.Bits.{test_bit}
use oceanbase_jp.Lang.Bitmap.{Bitmap, get_bit, next_setted_bit, find_first_setted}
use oceanbase_jp.Lang.Bitmap.Bits.{IsBytes}
use oceanbase_jp.Lang.Bitmap.Search.{next_setted_bit_misses}
use oceanbase_jp.Lang.Bitmap.Bytes.{First}
use oceanbase_jp.Lang.LowerBound.{
  compare_ints, lower_bound, IsRising, IsLowerBound, lower_bound-IsLowerBound,
}

-- Bits 0 to 7 clear, bits 8 to 10 set, the rest clear.
abbrev bytes : Mem
bytes a = if a == 1 then 7 else 0

bytes-IsBytes : IsBytes bytes
bytes-IsBytes a = ground arith

abbrev map : Bitmap
map = record { bitmap = 0; size = 20 }

steps_from_start : next_setted_bit bytes map 0 ≡ some 8
unfolding next_setted_bit get_bit test_bit find_first_setted
steps_from_start = refl

-- The search from bit 3 passes over the empty byte and begins the next one at its bit 3.
misses_three_bits : next_setted_bit bytes map 3 ≡ none
unfolding next_setted_bit get_bit test_bit find_first_setted
misses_three_bits = refl

next_setted_bit_misses_example : ¬ First (get_bit bytes map) true 3 20 (next_setted_bit bytes map 3)
next_setted_bit_misses_example =
    next_setted_bit_misses bytes map 3 9 refl (omega arith) (omega arith) (omega arith)
      (unfold get_bit test_bit in refl)

-- The sequence 1, 3, 5, 7, 9 of the unit test.
abbrev items : ℕ → ℕ
items i = i + i + 1

items-IsRising : IsRising items 6 compare_ints 0 5
unfolding compare_ints
items-IsRising i j a b c = ground arith

lower_bound-IsLowerBound_example :
    IsLowerBound items 6 compare_ints 0 5 (lower_bound items 6 compare_ints 0 5)
lower_bound-IsLowerBound_example =
    lower_bound-IsLowerBound items 6 compare_ints 0 5 (omega arith) items-IsRising

finds_seven : lower_bound items 7 compare_ints 0 5 ≡ record { first = 3; found = true }
unfolding lower_bound compare_ints
finds_seven = refl

misses_six : lower_bound items 6 compare_ints 0 5 ≡ record { first = 3; found = false }
unfolding lower_bound compare_ints
misses_six = refl
