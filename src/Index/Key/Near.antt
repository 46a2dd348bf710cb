-- ===== src/Index/Key/Near.antt =====
-- The comparison of keys over attributes of type INTS whose values are from -2 ^ 30 to
-- 2 ^ 30 - 1, as compare_int orders them.
use oceanbase_jp.Prelude.{ℕ, ◌<◌, ◌≤◌, ◌≡◌, arith}
use oceanbase_jp.Lang.LowerBound.{Sign, compare_ints}
use oceanbase_jp.Index.Key.{
  int_values, sign_of, int_difference, compare_int, signed, IsOrder, compare_placed,
  compare_keys-IsOrder,
}

-- An `int` from -2 ^ 30 to 2 ^ 30 - 1.
abbrev pub IsNear : ℕ → Type 0
IsNear v = (v < int_values) × (1073741824 ≤ signed v) × (signed v < 3221225472)

abbrev pub NearInt : Type 0
NearInt = (v : ℕ) × IsNear v

abbrev pub compare_near : NearInt → NearInt → Sign
compare_near a b = compare_int a.0 b.0

compare_near-signed : (a b : NearInt) → compare_near a b ≡ compare_ints (signed a.0) (signed b.0)
unfolding compare_int compare_ints signed sign_of int_difference
compare_near-signed a b = ground (arith, a.1, b.1)

compare_near-IsOrder : IsOrder compare_near
unfolding compare_ints
compare_near-IsOrder =
    let by = compare_near-signed in
    record {
      same = λ a. ground (arith, by a a);
      flip_less = λ a b. ground (arith, by a b, by b a);
      flip_greater = λ a b. ground (arith, by a b, by b a);
      flip_equal = λ a b. ground (arith, by a b, by b a);
      less_less = λ a b c. ground (arith, by a b, by b c, by a c);
      less_equal = λ a b c. ground (arith, by a b, by b c, by a c);
      equal_less = λ a b c. ground (arith, by a b, by b c, by a c);
      equal_equal = λ a b c. ground (arith, by a b, by b c, by a c);
    }

-- KeyComparator with compare_int is an order on keys whose attributes are from -2 ^ 30 to 2 ^ 30 - 1 and
-- whose page and slot numbers are not negative.
pub int_keys-IsOrder : IsOrder (compare_placed compare_near)
int_keys-IsOrder = compare_keys-IsOrder compare_near compare_near-IsOrder
