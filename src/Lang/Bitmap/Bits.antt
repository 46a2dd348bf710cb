-- ===== src/Lang/Bitmap/Bits.antt =====
-- deps/common/lang/bitmap.cpp: reading a bit after a write.
use oceanbase_jp.Prelude.{ℕ, ◌+◌, ◌/◌, ◌%◌, ◌<◌, ◌≡◌, true, false, ◌==◌, if◌then◌else◌, arith}
use oceanbase_jp.Prelude.Memory.{Mem, store}
use oceanbase_jp.Prelude.Bits.{set_in_byte_lem, clear_in_byte_lem}
use oceanbase_jp.Lang.Bitmap.{Bitmap, get_bit, set_bit, clear_bit}

-- A memory of bytes.
abbrev pub IsBytes : Mem → Type 0
IsBytes m = (a : ℕ) → m a < 256

pub store-IsBytes : (m : Mem) (a v : ℕ) → IsBytes m → v < 256 → IsBytes (store m a v)
unfolding store
store-IsBytes m a v h l x = ground (arith, h x)

module _ (m : Mem) (b : Bitmap) (i : ℕ) (bytes : IsBytes m) where
  pub set_bit-IsBytes : IsBytes (set_bit m b i)
  unfolding set_bit
  set_bit-IsBytes =
      store-IsBytes m _ _ bytes
        (set_in_byte_lem _ (i % 8) 0 (bytes _) (omega arith) (omega arith)).1

  pub clear_bit-IsBytes : IsBytes (clear_bit m b i)
  unfolding clear_bit
  clear_bit-IsBytes =
      store-IsBytes m _ _ bytes
        (clear_in_byte_lem _ (i % 8) 0 (bytes _) (omega arith) (omega arith)).1

  pub get_bit-set_bit :
      (j : ℕ) → get_bit (set_bit m b i) b j ≡ (if i == j then true else get_bit m b j)
  unfolding get_bit set_bit store
  get_bit-set_bit j = ground (
    arith,
    (set_in_byte_lem (m (b.bitmap + i / 8)) (i % 8) (j % 8) (bytes _) (omega arith)
        (omega arith)).0,
  )

  pub get_bit-clear_bit :
      (j : ℕ) → get_bit (clear_bit m b i) b j ≡ (if i == j then false else get_bit m b j)
  unfolding get_bit clear_bit store
  get_bit-clear_bit j = ground (
    arith,
    (clear_in_byte_lem (m (b.bitmap + i / 8)) (i % 8) (j % 8) (bytes _) (omega arith)
        (omega arith)).0,
  )
