-- ===== src/Index/Delete/Room.antt =====
-- The deletion of a key from a leaf that keeps enough items: the tree stays a search tree, with one
-- key less.
use oceanbase_jp.Prelude.{
  ℕ, suc, ◌≤◌, ◌<◌, ◌≡◌, ◌↔◌, inl, inr, refl, sym, ap, ◌∙◌, subst, true, false, some, arith, leb,
  if◌then◌else◌, Bool-cases,
}
use oceanbase_jp.Rc.{success, record_record_not_exist}
use oceanbase_jp.Lang.LowerBound.{equal}
use oceanbase_jp.Index.Key.{IsOrder}
use oceanbase_jp.Index.Node.{Node}
use oceanbase_jp.Index.Leaf
use oceanbase_jp.Index.Leaf.Contents.{remove_count}
use oceanbase_jp.Index.Leaf.Order
use oceanbase_jp.Index.Leaf.Removal.{remove_at-IsOrdered}
use oceanbase_jp.Index.Leaf.Keys.{remove_at-Has}
use oceanbase_jp.Index.Tree.{Tree, Env, node_at, set_frame, put_node, mark_dirty, pin}
use oceanbase_jp.Index.Tree.Write.{
  written, unpin-written, written_here, written_there, IsClean, written-IsClean,
}
use oceanbase_jp.Index.Tree.Search.{
  unpin-pin, node_at-pin, HasBelow, IsSearchTree, leaf_for, IsLeafFor, find_leaf-IsLeafFor,
}
use oceanbase_jp.Index.Tree.Keep.{IsApart, IsApart-kept}
use oceanbase_jp.Index.Tree.Shrink.{shrunk}
use oceanbase_jp.Index.Delete.{after_remove, delete_entry_internal, after_search, delete_entry}

module _ {ℓ} {K : Type ℓ} where
  -- A tree that has lost a key: it is clean, a search tree without shared leaves, and has the keys
  -- from before but for that one.
  pub record HasLost (env : Env K) (t : Tree K) (h root : ℕ) (key : K) (t' : Tree K) : Type ℓ where
    pub is_clean : IsClean t t'
    pub is_tree : IsSearchTree env t' h root
    pub is_apart : IsApart t' h root
    pub keys :
        (k : K)
        → HasBelow env t' h root k ↔ (HasBelow env t h root k × (¬ (env.comparator key k ≡ equal)))

  removed-is_leaf :
      (node : Node K) (index : ℕ) → node.is_leaf ≡ true → (Leaf.remove_at node index).is_leaf ≡ true
  unfolding Leaf.remove_at
  removed-is_leaf node index e = e

module _ {ℓ} {K : Type ℓ} (env : Env K) (t : Tree K) (g n : ℕ) (key : K) where
  abbrev index : ℕ
  index = (Leaf.lookup env.comparator (node_at t n) key).first

  on_leaf :
      delete_entry_internal env g (pin t n) n key
      ≡ after_remove env g (Leaf.remove env.comparator (node_at t n) key) (pin t n) n
  unfolding delete_entry_internal
  on_leaf =
      ap (λ x. after_remove env g (Leaf.remove env.comparator x key) (pin t n) n)
        (node_at-pin t n n)

  leaf_lacks :
      (Leaf.lookup env.comparator (node_at t n) key).found ≡ false
      → delete_entry_internal env g (pin t n) n key ≡ some (record_record_not_exist, t)
  unfolding after_remove Leaf.remove
  leaf_lacks e =
      let node = node_at t n in
      on_leaf
      ∙ ap
          (λ b.
            after_remove env g (if b then (1, Leaf.remove_at node index) else (0, node)) (pin t n)
              n)
          e
      ∙ ap (λ (x : Tree K). some (record_record_not_exist, x)) (unpin-pin t n)

  removes :
      (node : Node K)
      → leb (Leaf.min_size t.file_header) node.key_num ≡ true
      → after_remove env g (1, node) (pin t n) n ≡ some (success, written t n node)
  unfolding after_remove put_node mark_dirty set_frame pin
  removes node e = rw e (ap (λ (x : Tree K). some (success, x)) (unpin-written t n node))

  leaf_loses :
      (Leaf.lookup env.comparator (node_at t n) key).found ≡ true
      → Leaf.min_size t.file_header < (node_at t n).key_num
      → delete_entry_internal env g (pin t n) n key
        ≡ some (success, written t n (Leaf.remove_at (node_at t n) index))
  unfolding Leaf.remove
  leaf_loses e h =
      let node = node_at t n in
      let count = remove_count node index in
      let enough : leb (Leaf.min_size t.file_header) (Leaf.remove_at node index).key_num ≡ true =
        ground (arith, count) in
      on_leaf
      ∙ ap
          (λ b.
            after_remove env g (if b then (1, Leaf.remove_at node index) else (0, node)) (pin t n)
              n)
          e
      ∙ removes (Leaf.remove_at node index) enough

module _ {ℓ} {K : Type ℓ} (env : Env K) (t : Tree K) (order : IsOrder env.comparator) (h root f : ℕ)
    (key : K) (rooted : t.file_header.root_page ≡ some root) (tree : IsSearchTree env t h root)
    (fuel : h ≤ f) where
  -- The deletion goes on with the leaf for the key.
  reaches :
      let leaf = leaf_for env t key h root in
      (delete_entry env (suc f) t key ≡ delete_entry_internal env (suc f) (pin t leaf) leaf key)
      × IsLeafFor env t h root key leaf
  unfolding delete_entry after_search
  reaches =
      let (leaf, run, good) = find_leaf-IsLeafFor env t order key h root f rooted tree fuel in
      subst
        (λ x.
          (delete_entry env (suc f) t key ≡ delete_entry_internal env (suc f) (pin t x) x key)
          × IsLeafFor env t h root key x)
        good.at (ap (λ r. after_search env (suc f) r key) run, good)

  -- With more fuel than the height of the tree, the deletion of a key that a search tree does not
  -- have returns RECORD_RECORD_NOT_EXIST and changes nothing, the pins included.
  pub delete_entry_refuses :
      ¬ HasBelow env t h root key
      → delete_entry env (suc f) t key ≡ some (record_record_not_exist, t)
  delete_entry_refuses lacks =
      let leaf = leaf_for env t key h root in
      let node = node_at t leaf in
      let found = Order.lookup-found_iff env.comparator order node key reaches.1.ordered in
      let missed : (Leaf.lookup env.comparator node key).found ≡ false =
        elim (Bool-cases (Leaf.lookup env.comparator node key).found) [
          | inl e ↦ absurd (lacks (reaches.1.exact.1 (found.0 e)))
          | inr e ↦ e
        ] in
      reaches.0 ∙ leaf_lacks env t (suc f) leaf key missed

  -- Where the comparison of keys is an order (IsOrder: each key equals itself, greater is the
  -- reverse of less, and less and equal are transitive across one another),
  -- BplusTreeHandler::delete_entry, with more fuel than the height of the tree, for a key of the
  -- tree, on a search tree whose pages can be fetched and share no leaf and whose leaf for the key
  -- has more items than min_size, succeeds. The tree stays a search tree without shared leaves
  -- below the same root and has the keys from before but those equal to that one; every pin count
  -- is as it was, and every page whose node changed is marked as dirty.
  pub delete_entry-HasLost :
      IsApart t h root
      → Leaf.min_size t.file_header < (node_at t (leaf_for env t key h root)).key_num
      → HasBelow env t h root key
      → (t' : Tree K) × (delete_entry env (suc f) t key ≡ some (success, t'))
        × HasLost env t h root key t'
  delete_entry-HasLost apart enough has =
      let leaf = leaf_for env t key h root in
      let node = node_at t leaf in
      let good = reaches.1 in
      let at = (Leaf.lookup env.comparator node key).first in
      let found =
        (Order.lookup-found_iff env.comparator order node key good.ordered).1 (good.exact.0 has) in
      let hit = (Order.lookup-IsLowerBound env.comparator order node key good.ordered).hit found in
      let node' = Leaf.remove_at node at in
      let t' = written t leaf node' in
      let here = sym (written_here t leaf node') in
      let there = written_there t leaf node' in
      let shrinks =
        shrunk env t t' leaf good.is_leaf there order key
          (subst (λ (n : Node K). n.is_leaf ≡ true) here (removed-is_leaf node at good.is_leaf))
          (subst (λ n. Order.IsOrdered env.comparator n) here
            (remove_at-IsOrdered env.comparator order node at good.ordered hit.0))
          (λ k.
            subst
              (λ n.
                Order.Has env.comparator n k
                ↔ (Order.Has env.comparator node k × (¬ (env.comparator key k ≡ equal))))
              here (remove_at-Has env.comparator order node at key k hit.0 good.ordered hit.1))
          h root tree apart refl in
      (
        t',
        reaches.0 ∙ leaf_loses env t (suc f) leaf key found enough,
        record {
          is_clean = written-IsClean t leaf node';
          is_tree = shrinks.0;
          is_apart = IsApart-kept env t t' leaf good.is_leaf there h root tree apart;
          keys = shrinks.1;
        },
      )
