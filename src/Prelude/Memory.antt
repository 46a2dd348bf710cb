-- ===== src/Prelude/Memory.antt =====
-- Byte memory: a function from addresses to bytes, as the program's `char *` reads it.
use oceanbase_jp.Prelude.Tests.{leb, ltb, ◌==◌, if◌then◌else◌}
use Prim.Native.Nat.{ℕ, zero, suc, ◌+◌, ◌-◌, ◌≤◌, ◌<◌}
use mathlib.Core.Path.{◌≡◌, refl, ap₂}
use mathlib.Core.Logic.{◌≢◌, ◌⊎◌, inl, inr}
use mathlib.Core.Bool.{◌&&◌}
use mathlib.Core.List.{List, [], ◌∷◌}
use native.Mathlib.Omega.{arith}

abbrev pub Mem : Type 0
Mem = ℕ → ℕ

-- `m[a] = v`
unfoldable pub store : Mem → ℕ → ℕ → Mem
store m a v x = if a == x then v else m x

-- `memcpy(dst, src, n)`, with the source block at the start of a memory of its own.
unfoldable pub copy_in : Mem → ℕ → Mem → ℕ → Mem
copy_in m dst src n x = if leb dst x && ltb x (dst + n) then src (x - dst) else m x

-- `memset(dst, 0, n)`
unfoldable pub zero_out : Mem → ℕ → ℕ → Mem
zero_out m dst n x = if leb dst x && ltb x (dst + n) then 0 else m x

-- The `n` bytes from `a` on.
unfoldable pub read : Mem → ℕ → ℕ → List ℕ
read m a zero = []
read m a (suc n) = m a ∷ read m (a + 1) n

pub store_self : (m : Mem) (a v : ℕ) → store m a v a ≡ v
unfolding store
store_self m a v = ground arith

pub store_ne : (m : Mem) (a v x : ℕ) → a ≢ x → store m a v x ≡ m x
unfolding store
store_ne m a v x h = ground arith

-- Two reads agree where the bytes do.
pub read_congr :
    (m k : Mem) (a b n : ℕ) → ((i : ℕ) → i < n → m (a + i) ≡ k (b + i)) → read m a n ≡ read k b n
unfolding read
read_congr m k a b zero h = refl
read_congr m k a b (suc n) h =
    ap₂ ◌∷◌ (same_start (h 0 (omega arith)))
      (read_congr m k (a + 1) (b + 1) n (λ i l. shift i (h (1 + i) (omega arith))))
  where
    same_start : m (a + 0) ≡ k (b + 0) → m a ≡ k b
    same_start e = ground arith

    shift : (i : ℕ) → m (a + (1 + i)) ≡ k (b + (1 + i)) → m (a + 1 + i) ≡ k (b + 1 + i)
    shift i e = ground arith

pub copy_in_inside :
    (m : Mem) (dst : ℕ) (src : Mem) (n x : ℕ)
    → dst ≤ x
    → x < dst + n
    → copy_in m dst src n x ≡ src (x - dst)
unfolding copy_in
copy_in_inside m dst src n x h l = ground arith

pub copy_in_outside :
    (m : Mem) (dst : ℕ) (src : Mem) (n x : ℕ)
    → (x < dst) ⊎ (dst + n ≤ x)
    → copy_in m dst src n x ≡ m x
unfolding copy_in
copy_in_outside m dst src n x h = ground arith

-- What `memcpy` wrote is read back.
pub read-copy_in :
    (m : Mem) (dst : ℕ) (src : Mem) (n : ℕ) → read (copy_in m dst src n) dst n ≡ read src 0 n
read-copy_in m dst src n =
    read_congr (copy_in m dst src n) src dst 0 n
      (λ i l. bytes i (copy_in_inside m dst src n (dst + i) (omega arith) (omega arith)))
  where
    bytes :
        (i : ℕ)
        → copy_in m dst src n (dst + i) ≡ src (dst + i - dst)
        → copy_in m dst src n (dst + i) ≡ src (0 + i)
    bytes i e = ground arith

-- A block that `memcpy` does not meet is unchanged.
pub read-copy_in_apart :
    (m : Mem) (dst : ℕ) (src : Mem) (n a k : ℕ)
    → (a + k ≤ dst) ⊎ (dst + n ≤ a)
    → read (copy_in m dst src n) a k ≡ read m a k
read-copy_in_apart m dst src n a k h =
    read_congr (copy_in m dst src n) m a a k
      (λ i l. copy_in_outside m dst src n (a + i) (apart i l h))
  where
    apart : (i : ℕ) → i < k → (a + k ≤ dst) ⊎ (dst + n ≤ a) → (a + i < dst) ⊎ (dst + n ≤ a + i)
    apart i l (inl p) = inl (omega arith)
    apart i l (inr p) = inr (omega arith)

pub read-store_apart :
    (m : Mem) (x v a k : ℕ) → (a + k ≤ x) ⊎ (x < a) → read (store m x v) a k ≡ read m a k
read-store_apart m x v a k h =
    read_congr (store m x v) m a a k (λ i l. store_ne m x v (a + i) (apart i l h))
  where
    apart : (i : ℕ) → i < k → (a + k ≤ x) ⊎ (x < a) → x ≢ a + i
    apart i l (inl p) = omega arith
    apart i l (inr p) = omega arith
