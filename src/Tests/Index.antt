-- ===== src/Tests/Index.antt =====
-- The B+ tree over keys of INTS as KeyComparator with compare_int orders them, on a root with two
-- leaves.
use oceanbase_jp.Prelude.{
  ℕ, zero, suc, ◌+◌, ◌*◌, ◌≤◌, ◌<◌, ◌≡◌, ◌↔◌, refl, true, false, none, some, [], arith, ◌==◌,
  if◌then◌else◌, ◌%◌, ◌≢◌, ◌∙◌, sym,
}
use oceanbase_jp.Rc.{success, record_duplicate_key}
use oceanbase_jp.Lang.LowerBound.{Sign, less, equal, greater, compare_ints, lower_bound}
use oceanbase_jp.Record.Page.{Rid}
use oceanbase_jp.Index.Key.{
  compare_int, signed, sign_of, int_difference, int_sign_bit, PlacedKey, compare_placed,
  compare_keys, rid_compare, compare_int-iff_fits,
}
use oceanbase_jp.Index.Key.Near.{IsNear, NearInt, compare_near, int_keys-IsOrder}
use oceanbase_jp.Index.Node.{Node}
use oceanbase_jp.Index.Leaf
use oceanbase_jp.Index.Internal
use oceanbase_jp.Index.Leaf.Contents.{entries}
use oceanbase_jp.Index.Leaf.Order.{IsOrdered, insert_sorted, insert-insert_sorted}
use oceanbase_jp.Index.Internal.Order.{IsOrderedInner, Inserted, insert-Inserted}
use oceanbase_jp.Index.Tree.{Tree, Env, node_at, pin, find_leaf}
use oceanbase_jp.Index.Tree.Search.{
  HasBelow, Separates, IsLeaf, IsSearchTree, IsLeafFor, find_leaf-IsLeafFor,
}
use oceanbase_jp.Index.Tree.Keep.{IsApart}
use oceanbase_jp.Index.Insert.{insert_entry, filled, linked, split_leaf}
use oceanbase_jp.Index.Insert.Room.{HasGained, insert_entry_refuses, insert_entry-HasGained}
use oceanbase_jp.Index.Insert.Halves.{AreHalves}
use oceanbase_jp.Index.Insert.Split.{filled-AreHalves}
use oceanbase_jp.Index.Delete.{delete_entry}
use oceanbase_jp.Index.Delete.Room.{HasLost, delete_entry-HasLost}
use oceanbase_jp.Prelude.{[], ◌∷◌}
use oceanbase_jp.Prelude.Run.{ok}
use oceanbase_jp.Rc.{record_eof}
use oceanbase_jp.Index.Array.{listing}
use oceanbase_jp.Index.Scan.{read_entries}
use oceanbase_jp.Index.Scan.Chain.{scan_at, scan_done, rids_from, rounds, read_entries-rids_from}

-- The least `int` is taken to be greater than 1.
least_is_greater : compare_int int_sign_bit 1 ≡ greater
unfolding compare_int sign_of int_difference
least_is_greater = refl

compare_int-iff_fits_example :
    (compare_int int_sign_bit 1 ≡ compare_ints (signed int_sign_bit) (signed 1)) ↔ (
      (signed int_sign_bit < signed 1 + int_sign_bit)
      × (signed 1 ≤ signed int_sign_bit + int_sign_bit))
compare_int-iff_fits_example = compare_int-iff_fits int_sign_bit 1 (omega arith) (omega arith)

abbrev place : Rid
place = record { page_num = 1; slot_num = 0 }

-- A key with a value below 1000, at one place.
abbrev pub Keys : Type 0
Keys = PlacedKey NearInt

pub small-IsNear : (n : ℕ) → IsNear (n % 1000)
unfolding signed
small-IsNear n = (omega arith, omega arith, omega arith)

abbrev key : ℕ → Keys
key n = (record { attr = (n % 1000, small-IsNear n); rid = place }, (omega arith, omega arith))

abbrev comparator : Keys → Keys → Sign
comparator = compare_placed compare_near

-- The sign of the comparison of two keys.
comparator_by : (a b : ℕ) → a < 1000 → b < 1000 → comparator (key a) (key b) ≡ compare_ints a b
unfolding compare_keys rid_compare compare_int compare_ints sign_of int_difference
comparator_by a b h k = ground arith

comparator_less : (a b : ℕ) → a < b → b < 1000 → comparator (key a) (key b) ≡ less
comparator_less a b h k = comparator_by a b (omega arith) k ∙ unfold compare_ints in ground arith

-- A key that equals a greater one, or a smaller one.
comparator_below :
    (a b : ℕ) (x : Keys)
    → a < b
    → b < 1000
    → comparator (key b) x ≡ equal
    → comparator (key a) x ≢ greater
comparator_below a b x h k e =
    let l = int_keys-IsOrder.less_equal (key a) (key b) x (comparator_less a b h k) e in
    rw l (λ q. cc)

comparator_above :
    (a b : ℕ) (x : Keys)
    → b < a
    → a < 1000
    → comparator (key b) x ≡ equal
    → comparator (key a) x ≡ greater
comparator_above a b x h k e =
    let o = int_keys-IsOrder in
    o.flip_less x (key a)
      (o.equal_less x (key b) (key a) (o.flip_equal (key b) x e) (comparator_less b a h k))

-- A leaf with the keys first, first + 2, …
abbrev leaf : ℕ → ℕ → Node Keys
leaf first count = record {
  is_leaf = true;
  key_num = count;
  parent = some 2;
  prev_brother = none;
  next_brother = none;
  items = λ i. record { key = key (first + 2 * i); value = place };
  children = λ i. record { key = key 0; value = 0 };
}

leaf-IsOrdered :
    (first count : ℕ) → first + 2 * count < 1000 → IsOrdered comparator (leaf first count)
leaf-IsOrdered first count h i j a b =
    comparator_less (first + 2 * i) (first + 2 * j) (omega arith) (omega arith)

insert-insert_sorted_example :
    entries (Leaf.insert (leaf 2 3) (Leaf.lookup comparator (leaf 2 3) (key 3)).first (key 3) place)
    ≡ insert_sorted comparator (key 3) place (entries (leaf 2 3))
insert-insert_sorted_example =
    insert-insert_sorted comparator int_keys-IsOrder (leaf 2 3) (key 3) place
      (leaf-IsOrdered 2 3 (omega arith))
      (unfold Leaf.lookup lower_bound compare_keys rid_compare compare_int sign_of int_difference in
        refl)

-- The root, on page 2, with the leaves on the pages 3 and 4.
abbrev root : Node Keys
root = record {
  is_leaf = false;
  key_num = 2;
  parent = none;
  prev_brother = none;
  next_brother = none;
  items = λ i. record { key = key 0; value = place };
  children = λ i. record { key = key (10 * i); value = 3 + i };
}

root-IsOrderedInner : IsOrderedInner comparator root
root-IsOrderedInner i j a b c = comparator_less (10 * i) (10 * j) (omega arith) (omega arith)

insert-Inserted_example :
    Inserted comparator root (key 20) 5 (Internal.insert comparator root (key 20) 5)
insert-Inserted_example =
    insert-Inserted comparator int_keys-IsOrder root (key 20) 5 root-IsOrderedInner (omega arith) (
      unfold Internal.lookup lower_bound compare_keys rid_compare compare_int sign_of
        int_difference in
      refl)

abbrev nodes : ℕ → Node Keys
nodes n = if n == 2 then root else if n == 3 then leaf 2 3 else leaf 12 3

abbrev pub tree : Tree Keys
tree = record {
  file_header = record {
    root_page = some 2;
    internal_max_size = 4;
    leaf_max_size = 4;
    attr_length = 4;
    key_length = 12;
  };
  stored_root = some 2;
  frames = λ n. record { node = nodes n; dirty = false; pin_count = 0 };
  disposed = [];
}

abbrev pub env : Env Keys
env = record {
  comparator = compare_placed compare_near;
  zero_key = key 0;
  fetch = λ n. success;
  allocate = λ t. (success, 5);
}

first-IsLeaf : IsLeaf env tree 3
first-IsLeaf = record { fetched = refl; is_leaf = refl; ordered = leaf-IsOrdered 2 3 (omega arith) }

second-IsLeaf : IsLeaf env tree 4
second-IsLeaf = record {
  fetched = refl;
  is_leaf = refl;
  ordered = leaf-IsOrdered 12 3 (omega arith);
}

tree-Separates : Separates env tree 0 2
tree-Separates zero x l (i, m, e) = (
  λ j a b. absurd (omega (arith, a, b)),
  λ j a b. comparator_above (10 * j) (2 + 2 * i) x (omega (arith, a, m)) (omega (arith, b)) e,
)
tree-Separates (suc zero) x l (i, m, e) = (
  λ j a b. comparator_below (10 * j) (12 + 2 * i) x (omega (arith, b)) (omega (arith, m)) e,
  λ j a b. absurd (omega (arith, a, b)),
)
tree-Separates (suc (suc i)) x l y = absurd (omega arith)

tree-IsSearchTree : IsSearchTree env tree 1 2
tree-IsSearchTree = (
  record {
    fetched = refl;
    is_inner = refl;
    has_child = omega arith;
    ordered = root-IsOrderedInner;
    separates = tree-Separates;
  },
  below,
)
  where
    below : (i : ℕ) → i < 2 → IsLeaf env tree (3 + i)
    below zero l = first-IsLeaf
    below (suc zero) l = second-IsLeaf
    below (suc (suc i)) l = absurd (omega arith)

tree-IsApart : IsApart tree 1 2
tree-IsApart = (λ leaf i j l m a b. omega (arith, a, b), λ i l. tt)

find_leaf-IsLeafFor_example :
    (leaf : ℕ) × (find_leaf env (key 14) 2 tree ≡ some (success, some leaf, pin tree leaf))
    × IsLeafFor env tree 1 2 (key 14) leaf
find_leaf-IsLeafFor_example =
    find_leaf-IsLeafFor env tree int_keys-IsOrder (key 14) 1 2 1 refl tree-IsSearchTree
      (omega arith)

insert_entry_refuses_example :
    insert_entry env 2 tree (key 14) place ≡ some (record_duplicate_key, tree)
insert_entry_refuses_example =
    insert_entry_refuses env tree int_keys-IsOrder 1 2 1 (key 14) place refl tree-IsSearchTree
      (omega arith)
      (
        1,
        omega arith,
        (
          1,
          omega arith,
          unfold compare_keys rid_compare compare_int sign_of int_difference in refl,
        ),
      )

differs : (a b : ℕ) → a < 1000 → b < 1000 → a ≢ b → comparator (key a) (key b) ≢ equal
differs a b h k ne e =
    let same : compare_ints a b ≡ equal = sym (comparator_by a b h k) ∙ e in
    unfold compare_ints in ground (arith, same, ne)

seven_is_new : ¬ HasBelow env tree 1 2 (key 7)
seven_is_new (zero, l, (i, m, e)) =
    differs (2 + 2 * i) 7 (omega (arith, m)) (omega arith) (omega arith) e
seven_is_new (suc zero, l, (i, m, e)) =
    differs (12 + 2 * i) 7 (omega (arith, m)) (omega arith) (omega arith) e
seven_is_new (suc (suc i), l, x) = omega arith

insert_entry-HasGained_example :
    (t' : Tree Keys) × (insert_entry env 2 tree (key 7) place ≡ some (success, t'))
    × HasGained env tree 1 2 (key 7) t'
insert_entry-HasGained_example =
    insert_entry-HasGained env tree int_keys-IsOrder 1 2 1 (key 7) place refl tree-IsSearchTree
      (omega arith) tree-IsApart
      (unfold Internal.lookup Internal.placed Internal.is_less lower_bound compare_keys rid_compare
          compare_int sign_of int_difference in
        omega arith)
      seven_is_new

filled-AreHalves_example :
    let index = (Leaf.lookup comparator (leaf 2 3) (key 7)).first in
    let t' = filled env (linked env (split_leaf env tree 3 5) 3 5) 3 5 index (key 7) place in
    AreHalves comparator (leaf 2 3) 3 5 (key 7) place (node_at t' 3) (node_at t' 5)
filled-AreHalves_example =
    filled-AreHalves env tree 3 5 (λ e. omega arith) int_keys-IsOrder (key 7) place
      (leaf-IsOrdered 2 3 (omega arith))
      (unfold Leaf.lookup lower_bound compare_keys rid_compare compare_int sign_of int_difference in
        refl)

delete_entry-HasLost_example :
    (t' : Tree Keys) × (delete_entry env 2 tree (key 14) ≡ some (success, t'))
    × HasLost env tree 1 2 (key 14) t'
delete_entry-HasLost_example =
    delete_entry-HasLost env tree int_keys-IsOrder 1 2 1 (key 14) refl tree-IsSearchTree
      (omega arith) tree-IsApart
      (unfold Leaf.min_size Internal.lookup Internal.placed Internal.is_less lower_bound
          compare_keys rid_compare compare_int sign_of int_difference in
        omega arith)
      (
        1,
        omega arith,
        (
          1,
          omega arith,
          unfold compare_keys rid_compare compare_int sign_of int_difference in refl,
        ),
      )

-- The leaves with the link from the first to the second.
abbrev chained : Tree Keys
chained = record tree {
  frames = λ n. record {
    node = if n == 3 then record (leaf 2 3) { next_brother = some 4 } else nodes n;
    dirty = false;
    pin_count = 0;
  };
}

read_entries-rids_from_example :
    read_entries env 5 (scan_at 4 1 3 1) (pin chained 3)
    ≡ some (ok (record_eof, place ∷ place ∷ place ∷ place ∷ [], scan_done 4 1, pin chained 4))
unfolding rids_from listing
read_entries-rids_from_example =
    read_entries-rids_from env chained 4 1 3 1 5 (4 ∷ [])
      (omega arith, omega arith, refl, refl, (refl, omega arith)) (omega arith)
      (unfold rounds in omega arith)
