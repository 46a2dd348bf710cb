-- ===== src/Index/Internal.antt =====
-- InternalIndexNodeHandler of storage/index/bplus_tree.cpp: what stays within one node. The key of
-- the first child is not used.
pub mod Order
use oceanbase_jp.Prelude.{
  ℕ, zero, suc, ◌+◌, ◌-◌, ◌/◌, Bool, true, false, Option, none, some, leb, ltb, ◌==◌, ◌||◌,
  if◌then◌else◌,
}
use oceanbase_jp.Lang.LowerBound.{Sign, less, equal, greater, Found, lower_bound}
use oceanbase_jp.Index.Array.{move_items, put_item}
use oceanbase_jp.Index.Node.{IndexFileHeader, Item, Node}
use oceanbase_jp.Index.Node

unfoldable pub max_size : IndexFileHeader → ℕ
max_size header = header.internal_max_size

unfoldable pub min_size : IndexFileHeader → ℕ
min_size header = header.internal_max_size - header.internal_max_size / 2

-- The child, `*found` and `*insert_position`.
pub record Place : Type 0 where
  pub child : ℕ
  pub found : Bool
  pub insert_position : ℕ

-- A result below 0.
unfoldable pub is_less : Sign → Bool
is_less less = true
is_less _ = false

module _ {ℓ} {K : Type ℓ} where
  unfoldable pub init_empty : Node K → Node K
  unfolding Node.init_empty
  init_empty node = Node.init_empty node false

  unfoldable pub create_new_root : K → Node K → ℕ → K → ℕ → Node K
  unfolding put_item
  create_new_root zero_key node first_page_num key page_num =
      let first = put_item node.children 0 (record { key = zero_key; value = first_page_num }) in
      record node {
        children = put_item first 1 (record { key = key; value = page_num });
        key_num = node.key_num + 2;
      }

  -- Behind the binary search.
  unfoldable pub placed : (K → K → Sign) → Node K → K → Found → Place
  unfolding is_less
  placed comparator node key r = record {
    child =
        if leb node.key_num r.first || is_less (comparator key (node.children r.first).key)
        then r.first - 1
        else r.first;
    found = r.found;
    insert_position = r.first;
  }

  unfoldable pub lookup : (K → K → Sign) → Node K → K → Place
  unfolding lower_bound placed
  lookup comparator node key =
      let r = lower_bound (λ i. (node.children i).key) key comparator 1 node.key_num in
      if node.key_num == 0
      then record { child = 0; found = false; insert_position = 1 }
      else placed comparator node key r

  -- Behind the search for the position.
  unfoldable pub insert_at : Node K → ℕ → K → ℕ → Node K
  unfolding move_items put_item
  insert_at node insert_position key page_num =
      let children =
        if ltb insert_position node.key_num
        then move_items node.children (insert_position + 1) node.children insert_position
            (node.key_num - insert_position)
        else node.children in
      record node {
        children = put_item children insert_position (record { key = key; value = page_num });
        key_num = node.key_num + 1;
      }

  unfoldable pub insert : (K → K → Sign) → Node K → K → ℕ → Node K
  unfolding lookup insert_at
  insert comparator node key page_num =
      insert_at node (lookup comparator node key).insert_position key page_num

  -- It asserts that the index is that of a child.
  unfoldable pub set_key_at : Node K → ℕ → K → Node K
  unfolding put_item
  set_key_at node index key = record node {
    children =
        put_item node.children index (record { key = key; value = (node.children index).value });
  }

  -- The loop from the index on, by the children that are left.
  value_index_from : Node K → ℕ → ℕ → ℕ → Option ℕ
  value_index_from node page_num i zero = none
  value_index_from node page_num i (suc n) =
      let rest = value_index_from node page_num (i + 1) n in
      if page_num == (node.children i).value then some i else rest

  -- `none` is -1.
  unfoldable pub value_index : Node K → ℕ → Option ℕ
  unfolding value_index_from
  value_index node page_num = value_index_from node page_num 0 node.key_num

  -- It asserts that the index is that of a child.
  unfoldable pub remove : Node K → ℕ → Node K
  unfolding move_items
  remove node index =
      let children =
        if ltb index (node.key_num - 1)
        then move_items node.children index node.children (index + 1) (node.key_num - index - 1)
        else node.children in
      record node { children = children; key_num = node.key_num - 1 }
