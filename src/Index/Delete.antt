-- ===== src/Index/Delete.antt =====
-- BplusTreeHandler of storage/index/bplus_tree.cpp: deletion, with the template parameter of its
-- functions as a kind of node. The memory of the key is there, so NOMEM is not returned.
pub mod Room
use oceanbase_jp.Prelude.{
  ℕ, zero, suc, ◌+◌, ◌-◌, Bool, true, false, Option, none, some, ◌∷◌, leb, ltb, ◌==◌, ◌&&◌,
  if◌then◌else◌,
}
use oceanbase_jp.Rc.{Rc, success, record_record_not_exist}
use oceanbase_jp.Index.Array.{move_items, put_item}
use oceanbase_jp.Index.Node.{IndexFileHeader, Item, Node}
use oceanbase_jp.Index.Leaf
use oceanbase_jp.Index.Internal
use oceanbase_jp.Index.Tree.{
  Tree, Env, node_at, put_node, mark_dirty, pin, unpin, set_root, on_fetch, and_then, decreased,
  find_leaf, update_root_page_num, copy_from,
}

-- IndexNodeHandlerType
pub data Kind : Type 0 where
  leaf inner : Kind

unfoldable pub max_size : Kind → IndexFileHeader → ℕ
max_size leaf = Leaf.max_size
max_size inner = Internal.max_size

unfoldable pub min_size : Kind → IndexFileHeader → ℕ
min_size leaf = Leaf.min_size
min_size inner = Internal.min_size

module _ {ℓ} {K : Type ℓ} where
  unfoldable pub key_at : Kind → Node K → ℕ → K
  key_at leaf node i = (node.items i).key
  key_at inner node i = (node.children i).key

  unfoldable pub dispose_page : Tree K → ℕ → Tree K
  dispose_page t n = record t { disposed = n ∷ t.disposed }

  -- The first child is taken out of the array, behind its move.
  unfoldable pub first_dropped : Node K → Node K
  first_dropped node =
      let children =
        if leb 1 node.key_num
        then move_items node.children 0 node.children 1 (node.key_num - 1)
        else node.children in
      record node { children = children; key_num = node.key_num - 1 }

  -- InternalIndexNodeHandler::preappend, within the node.
  unfoldable pub put_first : Node K → Item K ℕ → Node K
  put_first node item =
      let children =
        if ltb 0 node.key_num
        then move_items node.children 1 node.children 0 node.key_num
        else node.children in
      record node { children = put_item children 0 item; key_num = node.key_num + 1 }

module _ {ℓ} {K : Type ℓ} (env : Env K) where
  -- InternalIndexNodeHandler::append of the item at an index of an array.
  unfoldable pub append : Tree K → ℕ → (ℕ → Item K ℕ) → ℕ → Rc × Tree K
  append t this items i = copy_from env t this items i 1

  unfoldable pub preappend : Tree K → ℕ → Item K ℕ → Rc × Tree K
  preappend t this item =
      let child = item.value in
      let t1 = pin t child in
      let t2 = put_node t1 child (record (node_at t1 child) { parent = some this }) in
      let t3 = unpin (mark_dirty t2 child) child in
      on_fetch (env.fetch child) (success, put_node t3 this (put_first (node_at t3 this) item))
        (λ rc. (rc, t))

  -- The leaf behind the one that went is told of the new one before it.
  unfoldable pub next_told : Option ℕ → Tree K → ℕ → Rc × Tree K
  next_told none t other = (success, t)
  next_told (some next) t other =
      let t1 = pin t next in
      let t2 = put_node t1 next (record (node_at t1 next) { prev_brother = some other }) in
      on_fetch (env.fetch next) (success, unpin (mark_dirty t2 next) next) (λ rc. (rc, t))

  unfoldable pub move_to : Kind → Tree K → ℕ → ℕ → Rc × Tree K
  move_to leaf t this other =
      let (this', other') = Leaf.move_to (node_at t this) (node_at t other) in
      next_told this'.next_brother (put_node (put_node t other other') this this') other
  move_to inner t this other =
      let size = (node_at t this).key_num in
      and_then (copy_from env t other (node_at t this).children 0 size)
        (λ t'. (success, decreased t' this size))

  unfoldable pub move_first_to_end : Kind → Tree K → ℕ → ℕ → Rc × Tree K
  move_first_to_end leaf t this other =
      let (this', other') = Leaf.move_first_to_end (node_at t this) (node_at t other) in
      (success, put_node (put_node t other other') this this')
  move_first_to_end inner t this other =
      and_then (append t other (node_at t this).children 0)
        (λ t'. (success, put_node t' this (first_dropped (node_at t' this))))

  unfoldable pub move_last_to_front : Kind → Tree K → ℕ → ℕ → Rc × Tree K
  move_last_to_front leaf t this other =
      let (this', other') = Leaf.move_last_to_front (node_at t this) (node_at t other) in
      (success, put_node (put_node t other other') this this')
  move_last_to_front inner t this other =
      let node = node_at t this in
      and_then (preappend t other (node.children (node.key_num - 1)))
        (λ t'. (success, decreased t' this 1))

  -- adjust_root, behind the choice of the new root.
  unfoldable pub root_replaced : Tree K → ℕ → Option ℕ → Tree K
  root_replaced t old root =
      dispose_page (unpin (update_root_page_num env (set_root t root)).1 old) old

  unfoldable pub adjust_root : Tree K → ℕ → Rc × Tree K
  adjust_root t n =
      let root = node_at t n in
      let child = (root.children 0).value in
      let t1 = pin t child in
      let t2 = unpin (put_node t1 child (record (node_at t1 child) { parent = none })) child in
      if root.is_leaf && ltb 0 root.key_num
      then (success, unpin (mark_dirty t n) n)
      else if root.is_leaf
      then (success, root_replaced t n none)
      else on_fetch (env.fetch child) (success, root_replaced t2 n (some child)) (λ rc. (rc, t))

  -- What the moves return is not looked at.
  unfoldable pub redistribute : Kind → Tree K → ℕ → ℕ → ℕ → ℕ → Rc × Tree K
  redistribute kind t neighbor n parent index =
      let key_set : Tree K → ℕ → ℕ → Tree K = λ s i from.
        put_node s parent
          (Internal.set_key_at (node_at s parent) i (key_at kind (node_at s from) 0)) in
      let t1 =
        if index == 0
        then key_set (move_first_to_end kind t neighbor n).1 (index + 1) neighbor
        else key_set (move_last_to_front kind t neighbor n).1 index n in
      let t2 = mark_dirty (mark_dirty (mark_dirty t1 neighbor) n) parent in
      (success, unpin (unpin (unpin t2 parent) neighbor) n)

  -- coalesce, behind move_to: the links of leaves are set once more, without a mark.
  unfoldable pub relinked : Tree K → ℕ → ℕ → ℕ → Tree K
  relinked t next left right =
      let t1 = pin t next in
      unpin (put_node t1 next (record (node_at t1 next) { prev_brother = some left })) next

  unfoldable pub links_set : Option ℕ → Tree K → ℕ → ℕ → ℕ → Rc × Tree K
  links_set none t left right parent = (success, t)
  links_set (some next) t left right parent =
      on_fetch (env.fetch next) (success, relinked t next left right)
        (λ rc. (rc, unpin (unpin (unpin t left) right) parent))

  unfoldable pub leaves_linked : Tree K → ℕ → ℕ → ℕ → Rc × Tree K
  leaves_linked t left right parent =
      let next = (node_at t right).next_brother in
      let t' = put_node t left (record (node_at t left) { next_brother = next }) in
      if (node_at t left).is_leaf then links_set next t' left right parent else (success, t)

  unfoldable pub merged : Kind → Tree K → ℕ → ℕ → ℕ → ℕ → Rc × Tree K
  merged kind t left right parent index =
      let t1 = put_node t parent (Internal.remove (node_at t parent) index) in
      and_then (move_to kind t1 right left) (λ t2.
        and_then (leaves_linked t2 left right parent)
          (λ t3. (success, dispose_page (unpin (unpin t3 left) right) right)))

  -- The fuel is for the levels.
  unfoldable pub after_merge : (Tree K → Option (Rc × Tree K)) → Rc × Tree K → Option (Rc × Tree K)
  after_merge again (success, t) = again t
  after_merge again (rc, t) = some (rc, t)

  unfoldable pub coalesce :
      (Tree K → Option (Rc × Tree K)) → Kind → Tree K → ℕ → ℕ → ℕ → ℕ → Option (Rc × Tree K)
  coalesce again kind t neighbor n parent index = after_merge again (
      if index == 0
      then merged kind t n neighbor parent (index + 1)
      else merged kind t neighbor n parent index)

  -- coalesce_or_redistribute with the parent in a frame; `again` is the call for the parent.
  unfoldable pub with_neighbor :
      (Tree K → Option (Rc × Tree K)) → Kind → Tree K → ℕ → ℕ → Option (Rc × Tree K)
  with_neighbor again kind t n parent =
      let node = node_at t n in
      let parent_node = node_at t parent in
      let index =
        (Internal.lookup env.comparator parent_node (key_at kind node (node.key_num - 1))).child in
      let neighbor : ℕ =
        if index == 0
        then (parent_node.children 1).value
        else (parent_node.children (index - 1)).value in
      let t1 = pin t neighbor in
      let next =
        if ltb (max_size kind t1.file_header) (node.key_num + (node_at t1 neighbor).key_num)
        then some (redistribute kind t1 neighbor n parent index)
        else coalesce again kind t1 neighbor n parent index in
      on_fetch (env.fetch neighbor) next (λ rc. some (rc, unpin (unpin t n) parent))

  unfoldable pub with_parent :
      (ℕ → Tree K → Option (Rc × Tree K)) → Option ℕ → Kind → Tree K → ℕ → Option (Rc × Tree K)
  with_parent again none kind t n =
      some (success, if ltb 1 (node_at t n).key_num then unpin t n else (adjust_root t n).1)
  with_parent again (some parent) kind t n =
      on_fetch (env.fetch parent) (with_neighbor (again parent) kind (pin t parent) n parent)
        (λ rc. some (rc, unpin t n))

  -- On fuel, one for each level.
  unfoldable pub coalesce_or_redistribute : ℕ → Kind → Tree K → ℕ → Option (Rc × Tree K)
  coalesce_or_redistribute zero kind t n = none
  coalesce_or_redistribute (suc fuel) kind t n =
      let rest =
        with_parent (λ parent t'. coalesce_or_redistribute fuel inner t' parent)
          (node_at t n).parent kind t n in
      if leb (min_size kind t.file_header) (node_at t n).key_num
      then some (success, unpin t n)
      else rest

  -- delete_entry_internal, behind the removal from the leaf, by the number of items removed.
  unfoldable pub after_remove : ℕ → ℕ × Node K → Tree K → ℕ → Option (Rc × Tree K)
  after_remove fuel (zero, node) t n = some (record_record_not_exist, unpin t n)
  after_remove fuel (suc _, node) t n =
      let t' = mark_dirty (put_node t n node) n in
      if leb (Leaf.min_size t'.file_header) node.key_num
      then some (success, unpin t' n)
      else coalesce_or_redistribute fuel leaf t' n

  unfoldable pub delete_entry_internal : ℕ → Tree K → ℕ → K → Option (Rc × Tree K)
  delete_entry_internal fuel t n key =
      after_remove fuel (Leaf.remove env.comparator (node_at t n) key) t n

  unfoldable pub after_search : ℕ → Option (Rc × Option ℕ × Tree K) → K → Option (Rc × Tree K)
  after_search fuel none key = none
  after_search fuel (some (rc, none, t)) key = some (rc, t)
  after_search fuel (some (rc, some n, t)) key = delete_entry_internal fuel t n key

  -- delete_entry, with the key of the value and the record.
  unfoldable pub delete_entry : ℕ → Tree K → K → Option (Rc × Tree K)
  delete_entry fuel t key = after_search fuel (find_leaf env key fuel t) key
