-- ===== src/Index/Leaf.antt =====
-- LeafIndexNodeHandler of storage/index/bplus_tree.cpp.
pub mod Contents
pub mod Order
pub mod Removal
pub mod Keys
use oceanbase_jp.Prelude.{
  ℕ, ◌+◌, ◌-◌, ◌/◌, Bool, true, false, Option, none, leb, ltb, if◌then◌else◌,
}
use oceanbase_jp.Lang.LowerBound.{Sign, Found, lower_bound}
use oceanbase_jp.Record.Page.{Rid}
use oceanbase_jp.Index.Array.{move_items, put_item}
use oceanbase_jp.Index.Node.{IndexFileHeader, Item, Node}
use oceanbase_jp.Index.Node

unfoldable pub max_size : IndexFileHeader → ℕ
max_size header = header.leaf_max_size

unfoldable pub min_size : IndexFileHeader → ℕ
min_size header = header.leaf_max_size - header.leaf_max_size / 2

module _ {ℓ} {K : Type ℓ} where
  unfoldable pub init_empty : Node K → Node K
  unfolding Node.init_empty
  init_empty node = record (Node.init_empty node true) { prev_brother = none; next_brother = none }

  -- The index, and `*found`.
  unfoldable pub lookup : (K → K → Sign) → Node K → K → Found
  unfolding lower_bound
  lookup comparator node key = lower_bound (λ i. (node.items i).key) key comparator 0 node.key_num

  unfoldable pub insert : Node K → ℕ → K → Rid → Node K
  unfolding move_items put_item
  insert node index key value =
      let items =
        if ltb index node.key_num
        then move_items node.items (index + 1) node.items index (node.key_num - index)
        else node.items in
      record node {
        items = put_item items index (record { key = key; value = value });
        key_num = node.key_num + 1;
      }

  -- It asserts that the index is that of an item.
  unfoldable pub remove_at : Node K → ℕ → Node K
  unfolding move_items
  remove_at node index =
      let items =
        if ltb index (node.key_num - 1)
        then move_items node.items index node.items (index + 1) (node.key_num - index - 1)
        else node.items in
      record node { items = items; key_num = node.key_num - 1 }

  -- The number of items removed.
  unfoldable pub remove : (K → K → Sign) → Node K → K → ℕ × Node K
  unfolding lookup remove_at
  remove comparator node key =
      let r = lookup comparator node key in
      if r.found then (1, remove_at node r.first) else (0, node)

  -- This node, and the other.
  unfoldable pub move_half_to : Node K → Node K → Node K × Node K
  unfolding move_items
  move_half_to node other =
      let move_index = node.key_num / 2 in
      (
        record node { key_num = node.key_num - (node.key_num - move_index) },
        record other {
          items = move_items other.items 0 node.items move_index (node.key_num - move_index);
          key_num = other.key_num + (node.key_num - move_index);
        },
      )

  unfoldable pub append : Node K → Item K Rid → Node K
  unfolding put_item
  append node item = record node {
    items = put_item node.items node.key_num item;
    key_num = node.key_num + 1;
  }

  unfoldable pub preappend : Node K → Item K Rid → Node K
  unfolding move_items put_item
  preappend node item =
      let items =
        if ltb 0 node.key_num
        then move_items node.items 1 node.items 0 node.key_num
        else node.items in
      record node { items = put_item items 0 item; key_num = node.key_num + 1 }

  -- It is called on a node with an item.
  unfoldable pub move_first_to_end : Node K → Node K → Node K × Node K
  unfolding move_items append
  move_first_to_end node other =
      let items =
        if leb 1 node.key_num
        then move_items node.items 0 node.items 1 (node.key_num - 1)
        else node.items in
      (record node { items = items; key_num = node.key_num - 1 }, append other (node.items 0))

  -- It is called on a node with an item.
  unfoldable pub move_last_to_front : Node K → Node K → Node K × Node K
  unfolding preappend
  move_last_to_front node other =
      (record node { key_num = node.key_num - 1 }, preappend other (node.items (node.key_num - 1)))

  -- The part of move_to before the next leaf is linked.
  unfoldable pub move_to : Node K → Node K → Node K × Node K
  unfolding move_items
  move_to node other = (
    record node { key_num = node.key_num - node.key_num },
    record other {
      items = move_items other.items other.key_num node.items 0 node.key_num;
      key_num = other.key_num + node.key_num;
      next_brother = node.next_brother;
    },
  )
