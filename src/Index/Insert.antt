-- ===== src/Index/Insert.antt =====
-- BplusTreeHandler of storage/index/bplus_tree.cpp: insertion. The memory of the key that
-- make_key builds is there, so NOMEM is not returned.
pub mod Room
pub mod Halves
pub mod Split
use oceanbase_jp.Prelude.{
  ℕ, zero, suc, ◌+◌, ◌-◌, Bool, true, false, Option, none, some, ltb, if◌then◌else◌,
}
use oceanbase_jp.Rc.{Rc, success, internal, record_duplicate_key}
use oceanbase_jp.Lang.LowerBound.{Sign, less, equal, greater, Found}
use oceanbase_jp.Record.Page.{Rid}
use oceanbase_jp.Index.Node.{Node}
use oceanbase_jp.Index.Leaf
use oceanbase_jp.Index.Internal
use oceanbase_jp.Index.Tree.{
  Tree, Env, node_at, put_node, mark_dirty, pin, unpin, set_root, allocated, and_then, find_leaf,
  update_root_page_num, move_half_to,
}

module _ {ℓ} {K : Type ℓ} where
  abbrev parent_set : Tree K → ℕ → Option ℕ → Tree K
  parent_set t n parent = put_node t n (record (node_at t n) { parent = parent })

  abbrev prev_set : Tree K → ℕ → Option ℕ → Tree K
  prev_set t n prev = put_node t n (record (node_at t n) { prev_brother = prev })

  abbrev next_set : Tree K → ℕ → Option ℕ → Tree K
  next_set t n next = put_node t n (record (node_at t n) { next_brother = next })

  -- The leaves are written, the new one behind the old one.
  unfoldable pub leaf_halves : Tree K → ℕ → ℕ → Tree K
  leaf_halves t n new =
      let node = node_at t n in
      let empty_node = record (Leaf.init_empty (node_at t new)) { parent = node.parent } in
      let (left, right) = Leaf.move_half_to node empty_node in
      put_node (put_node t n left) new right

  -- Where no leaf follows a page, and where one does.
  unfoldable pub unpin_both : Tree K → ℕ → ℕ → Tree K
  unpin_both t n m = unpin (unpin t n) m

module _ {ℓ} {K : Type ℓ} (env : Env K) where
  -- split<LeafIndexNodeHandler>, behind the allocation of the new page.
  unfoldable pub split_leaf : Tree K → ℕ → ℕ → Tree K
  split_leaf t n new = mark_dirty (mark_dirty (leaf_halves (allocated env t new) n new) n) new

  -- split<InternalIndexNodeHandler>, behind the allocation of the new page. What move_half_to returns
  -- is not looked at.
  unfoldable pub split_internal : Tree K → ℕ → ℕ → Tree K
  split_internal t n new =
      let t1 = allocated env t new in
      let empty_node = record (Internal.init_empty (node_at t1 new)) {
        parent = (node_at t1 n).parent;
      } in
      let t2 = (move_half_to env (put_node t1 new empty_node) n new).1 in
      mark_dirty (mark_dirty t2 n) new

  -- insert_entry_into_parent where there is no parent, behind the allocation of a root.
  unfoldable pub new_root : Tree K → ℕ → ℕ → K → ℕ → Tree K
  new_root t n new key root =
      let t1 = allocated env t root in
      let node =
        Internal.create_new_root env.zero_key (Internal.init_empty (node_at t1 root)) n key new in
      let t2 = parent_set (parent_set (put_node t1 root node) n (some root)) new (some root) in
      let t3 = unpin (unpin (mark_dirty (mark_dirty t2 n) new) n) new in
      let t4 = (update_root_page_num env (set_root t3 (some root))).1 in
      unpin (mark_dirty t4 root) root

  -- Where the parent has room.
  unfoldable pub into_parent : Tree K → ℕ → ℕ → K → ℕ → Tree K
  into_parent t n new key parent =
      let node = Internal.insert env.comparator (node_at t parent) key new in
      let t1 = parent_set (put_node t parent node) new (some parent) in
      let t2 = mark_dirty (mark_dirty (mark_dirty t1 n) new) parent in
      unpin (unpin (unpin t2 n) new) parent

  abbrev is_greater : Sign → Bool
  is_greater greater = true
  is_greater _ = false

  -- Where the parent was split, before the parent's own parent is told.
  unfoldable pub into_half : Tree K → ℕ → ℕ → K → ℕ → ℕ → Tree K
  into_half t n new key parent new_parent =
      let to : ℕ =
        if is_greater (env.comparator key ((node_at t new_parent).children 0).key)
        then new_parent
        else parent in
      let node = Internal.insert env.comparator (node_at t to) key new in
      unpin (unpin (parent_set (put_node t to node) new (some to)) n) new

  unfoldable pub rooted : Rc × ℕ → Tree K → ℕ → ℕ → K → Rc × Tree K
  rooted (success, root) t n new key = (success, new_root t n new key root)
  rooted (rc, root) t n new key = (rc, t)

  -- insert_entry_into_parent, by what it goes on with: `again` is the call for the parent.
  unfoldable pub halved :
      (Tree K → ℕ → ℕ → K → Option (Rc × Tree K))
      → Rc × ℕ
      → Tree K
      → ℕ
      → ℕ
      → K
      → ℕ
      → Option (Rc × Tree K)
  halved again (success, new_parent) t n new key parent =
      let t' = into_half (split_internal t parent new_parent) n new key parent new_parent in
      again t' parent new_parent ((node_at t' new_parent).children 0).key
  halved again (rc, new_parent) t n new key parent = some (rc, unpin (unpin (unpin t n) new) parent)

  unfoldable pub parented :
      (Tree K → ℕ → ℕ → K → Option (Rc × Tree K))
      → Rc
      → Tree K
      → ℕ
      → ℕ
      → K
      → ℕ
      → Option (Rc × Tree K)
  parented again success t n new key parent =
      let t' = pin t parent in
      if ltb (node_at t' parent).key_num (Internal.max_size t'.file_header)
      then some (success, into_parent t' n new key parent)
      else halved again (env.allocate t') t' n new key parent
  parented again rc t n new key parent = some (rc, t)

  unfoldable pub to_parent :
      (Tree K → ℕ → ℕ → K → Option (Rc × Tree K))
      → Option ℕ
      → Tree K
      → ℕ
      → ℕ
      → K
      → Option (Rc × Tree K)
  to_parent again none t n new key = some (rooted (env.allocate t) t n new key)
  to_parent again (some parent) t n new key = parented again (env.fetch parent) t n new key parent

  -- On fuel, one for each level.
  unfoldable pub insert_entry_into_parent : ℕ → Tree K → ℕ → ℕ → K → Option (Rc × Tree K)
  insert_entry_into_parent zero t n new key = none
  insert_entry_into_parent (suc fuel) t n new key =
      to_parent (insert_entry_into_parent fuel) (node_at t n).parent t n new key

  -- The leaf that follows a new leaf is fetched and told of it; it is not marked as dirty.
  unfoldable pub relinked : Option ℕ → Tree K → ℕ → Rc × Tree K
  relinked none t new = (success, t)
  relinked (some next) t new = elim (env.fetch next) [
    | success ↦ (success, unpin (prev_set (pin t next) next (some new)) next)
    | rc ↦ (rc, t)
  ]

  -- insert_entry_into_leaf_node on a leaf with room.
  unfoldable pub into_leaf : Tree K → ℕ → ℕ → K → Rid → Tree K
  into_leaf t n insert_position key rid =
      unpin (mark_dirty (put_node t n (Leaf.insert (node_at t n) insert_position key rid)) n) n

  -- The new leaf is put between the old one and the one that followed it.
  unfoldable pub linked : Tree K → ℕ → ℕ → Tree K
  linked t n new =
      let t1 = prev_set t new (some n) in
      let t2 = next_set t1 new (node_at t1 n).next_brother in
      next_set (parent_set t2 new (node_at t2 n).parent) n (some new)

  -- The item goes into one of the two leaves.
  unfoldable pub filled : Tree K → ℕ → ℕ → ℕ → K → Rid → Tree K
  filled t n new insert_position key rid =
      let size = (node_at t n).key_num in
      if ltb insert_position size
      then put_node t n (Leaf.insert (node_at t n) insert_position key rid)
      else put_node t new (Leaf.insert (node_at t new) (insert_position - size) key rid)

  unfoldable pub after_relink : ℕ → Rc × Tree K → ℕ → ℕ → ℕ → K → Rid → Option (Rc × Tree K)
  after_relink fuel (success, t) n new insert_position key rid =
      let t' = filled t n new insert_position key rid in
      insert_entry_into_parent fuel t' n new ((node_at t' new).items 0).key
  after_relink fuel (rc, t) n new insert_position key rid = some (rc, t)

  unfoldable pub into_split : ℕ → Rc × ℕ → Tree K → ℕ → ℕ → K → Rid → Option (Rc × Tree K)
  into_split fuel (success, new) t n insert_position key rid =
      let t' = linked (split_leaf t n new) n new in
      after_relink fuel (relinked (node_at t' new).next_brother t' new) n new insert_position key
        rid
  into_split fuel (rc, new) t n insert_position key rid = some (rc, t)

  -- The fuel is for the levels above the leaf.
  unfoldable pub insert_entry_into_leaf_node : ℕ → Tree K → ℕ → K → Rid → Option (Rc × Tree K)
  insert_entry_into_leaf_node fuel t n key rid =
      let leaf = node_at t n in
      let r = Leaf.lookup env.comparator leaf key in
      if r.found
      then some (record_duplicate_key, t)
      else if ltb leaf.key_num (Leaf.max_size t.file_header)
      then some (success, into_leaf t n r.first key rid)
      else into_split fuel (env.allocate t) t n r.first key rid

  -- create_new_tree, behind the allocation of the root.
  unfoldable pub first_leaf : Rc × ℕ → Tree K → K → Rid → Rc × Tree K
  first_leaf (success, n) t key rid =
      let t1 = allocated env t n in
      let leaf = Leaf.insert (Leaf.init_empty (node_at t1 n)) 0 key rid in
      update_root_page_num env (unpin (mark_dirty (set_root (put_node t1 n leaf) (some n)) n) n)
  first_leaf (rc, n) t key rid = (rc, t)

  unfoldable pub create_at : Option ℕ → Tree K → K → Rid → Rc × Tree K
  create_at (some root) t key rid = (internal, t)
  create_at none t key rid = first_leaf (env.allocate t) t key rid

  unfoldable pub create_new_tree : Tree K → K → Rid → Rc × Tree K
  create_new_tree t key rid = create_at t.file_header.root_page t key rid

  -- Behind insert_entry_into_leaf_node: a leaf into which nothing came is unpinned.
  unfoldable pub after_insert : ℕ → Option (Rc × Tree K) → Option (Rc × Tree K)
  after_insert n none = none
  after_insert n (some (success, t)) = some (success, t)
  after_insert n (some (rc, t)) = some (rc, unpin t n)

  unfoldable pub after_find : ℕ → Option (Rc × Option ℕ × Tree K) → K → Rid → Option (Rc × Tree K)
  after_find fuel none key rid = none
  after_find fuel (some (rc, none, t)) key rid = some (rc, t)
  after_find fuel (some (rc, some n, t)) key rid =
      after_insert n (insert_entry_into_leaf_node fuel t n key rid)

  unfoldable pub insert_from : ℕ → Option ℕ → Tree K → K → Rid → Option (Rc × Tree K)
  insert_from fuel none t key rid = some (create_new_tree t key rid)
  insert_from fuel (some root) t key rid = after_find fuel (find_leaf env key fuel t) key rid

  -- insert_entry, with the key that make_key builds.
  unfoldable pub insert_entry : ℕ → Tree K → K → Rid → Option (Rc × Tree K)
  insert_entry fuel t key rid = insert_from fuel t.file_header.root_page t key rid
