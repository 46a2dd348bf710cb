-- ===== src/Index/Key.antt =====
-- The order of the keys of an index: compare_int of util/comparator.cpp, RID::compare of
-- storage/record/record.h and KeyComparator of storage/index/bplus_tree.h. An `int` is its word of
-- 32 bits; page and slot numbers are not negative. The comparison of attributes is a parameter.
pub mod Near
use oceanbase_jp.Prelude.{ℕ, ◌+◌, ◌-◌, ◌%◌, ◌<◌, ◌≤◌, ◌≡◌, ◌↔◌, arith, ltb, ◌==◌, if◌then◌else◌}
use oceanbase_jp.Lang.LowerBound.{Sign, less, equal, greater, compare_ints}
use oceanbase_jp.Record.Page.{Rid}

abbrev pub int_values : ℕ
int_values = 4294967296

abbrev pub int_sign_bit : ℕ
int_sign_bit = 2147483648

-- The sign of an `int`.
unfoldable pub sign_of : ℕ → Sign
sign_of v = if v == 0 then equal else if ltb v int_sign_bit then greater else less

-- `v1 - v2`, which wraps around.
unfoldable pub int_difference : ℕ → ℕ → ℕ
int_difference v1 v2 = (v1 + int_values - v2) % int_values

unfoldable pub compare_int : ℕ → ℕ → Sign
unfolding sign_of int_difference
compare_int v1 v2 = sign_of (int_difference v1 v2)

unfoldable pub rid_compare : Rid → Rid → Sign
unfolding sign_of int_difference
rid_compare rid1 rid2 =
    let page_diff = int_difference rid1.page_num rid2.page_num in
    if page_diff == 0
    then sign_of (int_difference rid1.slot_num rid2.slot_num)
    else sign_of page_diff

-- A key: the value of the attribute, and the place of the record.
pub record Key {ℓ} (A : Type ℓ) : Type ℓ where
  pub attr : A
  pub rid : Rid

-- KeyComparator::operator()
unfoldable pub compare_keys {ℓ} : {A : Type ℓ} → (A → A → Sign) → Key A → Key A → Sign
unfolding rid_compare
compare_keys attr_comparator v1 v2 = elim (attr_comparator v1.attr v2.attr) [
  | equal ↦ rid_compare v1.rid v2.rid
  | less ↦ less
  | greater ↦ greater
]

-- What a search relies on.
pub record IsOrder {ℓ} {A : Type ℓ} (comp : A → A → Sign) : Type ℓ where
  pub same : (a : A) → comp a a ≡ equal
  pub flip_less : (a b : A) → comp a b ≡ less → comp b a ≡ greater
  pub flip_greater : (a b : A) → comp a b ≡ greater → comp b a ≡ less
  pub flip_equal : (a b : A) → comp a b ≡ equal → comp b a ≡ equal
  pub less_less : (a b c : A) → comp a b ≡ less → comp b c ≡ less → comp a c ≡ less
  pub less_equal : (a b c : A) → comp a b ≡ less → comp b c ≡ equal → comp a c ≡ less
  pub equal_less : (a b c : A) → comp a b ≡ equal → comp b c ≡ less → comp a c ≡ less
  pub equal_equal : (a b c : A) → comp a b ≡ equal → comp b c ≡ equal → comp a c ≡ equal

pub compare_ints-IsOrder : IsOrder compare_ints
unfolding compare_ints
compare_ints-IsOrder = record {
  same = λ a. ground arith;
  flip_less = λ a b. ground arith;
  flip_greater = λ a b. ground arith;
  flip_equal = λ a b. ground arith;
  less_less = λ a b c. ground arith;
  less_equal = λ a b c. ground arith;
  equal_less = λ a b c. ground arith;
  equal_equal = λ a b c. ground arith;
}

-- The value of a word as an `int`, above the least one.
unfoldable pub signed : ℕ → ℕ
signed v = (v + int_sign_bit) % int_values

-- On two words, compare_int gives the order of their signed values exactly when the difference of
-- these fits into an `int`.
pub compare_int-iff_fits :
    (v1 v2 : ℕ)
    → v1 < int_values
    → v2 < int_values
    → (compare_int v1 v2 ≡ compare_ints (signed v1) (signed v2))
      ↔ ((signed v1 < signed v2 + int_sign_bit) × (signed v2 ≤ signed v1 + int_sign_bit))
unfolding compare_int compare_ints signed sign_of int_difference
compare_int-iff_fits v1 v2 h1 h2 = ground arith

-- A page or slot number is an `int` that is not negative.
abbrev pub IsPlace : Rid → Type 0
IsPlace r = (r.page_num < int_sign_bit) × (r.slot_num < int_sign_bit)

-- By the page, then by the slot.
unfoldable pub lexical : Rid → Rid → Sign
unfolding compare_ints
lexical a b = elim (compare_ints a.page_num b.page_num) [
  | equal ↦ compare_ints a.slot_num b.slot_num
  | less ↦ less
  | greater ↦ greater
]

-- No difference of places overflows.
pub rid_compare-lexical : (a b : Rid) → IsPlace a → IsPlace b → rid_compare a b ≡ lexical a b
unfolding rid_compare compare_ints sign_of int_difference lexical
rid_compare-lexical a b h k = ground arith

lexical-IsOrder : IsOrder lexical
unfolding compare_ints lexical
lexical-IsOrder = record {
  same = λ a. ground arith;
  flip_less = λ a b. ground arith;
  flip_greater = λ a b. ground arith;
  flip_equal = λ a b. ground arith;
  less_less = λ a b c. ground arith;
  less_equal = λ a b c. ground arith;
  equal_less = λ a b c. ground arith;
  equal_equal = λ a b c. ground arith;
}

-- A key whose record stands at a place.
abbrev pub PlacedKey {ℓ} : Type ℓ → Type ℓ
PlacedKey A = (k : Key A) × IsPlace k.rid

module _ {ℓ} {A : Type ℓ} (attr_comparator : A → A → Sign) where
  abbrev pub compare_placed : PlacedKey A → PlacedKey A → Sign
  compare_placed a b = compare_keys attr_comparator a.0 b.0

  -- If the comparison of attributes is an order, so is the comparison of keys.
  pub compare_keys-IsOrder : IsOrder attr_comparator → IsOrder compare_placed
  unfolding compare_keys
  compare_keys-IsOrder o =
      let l = lexical-IsOrder in
      let by : (a b : PlacedKey A) → rid_compare a.0.rid b.0.rid ≡ lexical a.0.rid b.0.rid =
        λ a b. rid_compare-lexical a.0.rid b.0.rid a.1 b.1 in
      record {
        same = λ a. ground (arith, o.same a.0.attr, l.same a.0.rid, by a a);
        flip_less = λ a b. ground (
          arith,
          o.flip_less a.0.attr b.0.attr,
          o.flip_equal a.0.attr b.0.attr,
          l.flip_less a.0.rid b.0.rid,
          by a b,
          by b a,
        );
        flip_greater = λ a b. ground (
          arith,
          o.flip_greater a.0.attr b.0.attr,
          o.flip_equal a.0.attr b.0.attr,
          l.flip_greater a.0.rid b.0.rid,
          by a b,
          by b a,
        );
        flip_equal = λ a b.
            ground
              (arith, o.flip_equal a.0.attr b.0.attr, l.flip_equal a.0.rid b.0.rid, by a b, by b a);
        less_less = λ a b c. ground (
          arith,
          o.less_less a.0.attr b.0.attr c.0.attr,
          o.less_equal a.0.attr b.0.attr c.0.attr,
          o.equal_less a.0.attr b.0.attr c.0.attr,
          o.equal_equal a.0.attr b.0.attr c.0.attr,
          l.less_less a.0.rid b.0.rid c.0.rid,
          by a b,
          by b c,
          by a c,
        );
        less_equal = λ a b c. ground (
          arith,
          o.less_equal a.0.attr b.0.attr c.0.attr,
          o.equal_equal a.0.attr b.0.attr c.0.attr,
          l.less_equal a.0.rid b.0.rid c.0.rid,
          by a b,
          by b c,
          by a c,
        );
        equal_less = λ a b c. ground (
          arith,
          o.equal_less a.0.attr b.0.attr c.0.attr,
          o.equal_equal a.0.attr b.0.attr c.0.attr,
          l.equal_less a.0.rid b.0.rid c.0.rid,
          by a b,
          by b c,
          by a c,
        );
        equal_equal = λ a b c. ground (
          arith,
          o.equal_equal a.0.attr b.0.attr c.0.attr,
          l.equal_equal a.0.rid b.0.rid c.0.rid,
          by a b,
          by b c,
          by a c,
        );
      }
