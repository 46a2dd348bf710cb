-- ===== src/Index/Insert/Room.antt =====
-- The insertion of a key into a leaf with room: the tree stays a search tree, with one key more.
use oceanbase_jp.Prelude.{
  ℕ, suc, ◌≤◌, ◌<◌, ◌≡◌, ◌↔◌, ◌⊎◌, inl, inr, refl, sym, ap, ◌∙◌, subst, true, false, Option, some,
  arith, ltb, if◌then◌else◌, Bool-cases,
}
use oceanbase_jp.Rc.{Rc, success, record_duplicate_key}
use oceanbase_jp.Lang.LowerBound.{equal}
use oceanbase_jp.Record.Page.{Rid}
use oceanbase_jp.Index.Key.{IsOrder}
use oceanbase_jp.Index.Node.{Node}
use oceanbase_jp.Index.Leaf
use oceanbase_jp.Index.Leaf.Order
use oceanbase_jp.Index.Leaf.Keys.{insert-Has}
use oceanbase_jp.Index.Tree.{Tree, Env, node_at, set_frame, put_node, mark_dirty, pin, unpin}
use oceanbase_jp.Index.Tree.Write.{
  written, unpin-written, written_here, written_there, IsClean, written-IsClean,
}
use oceanbase_jp.Index.Tree.Search.{
  unpin-pin, node_at-pin, HasBelow, IsSearchTree, leaf_for, IsLeafFor, find_leaf-IsLeafFor,
}
use oceanbase_jp.Index.Tree.Keep.{IsApart, IsApart-kept}
use oceanbase_jp.Index.Tree.Grow.{grown}
use oceanbase_jp.Index.Insert.{
  into_leaf, into_split, insert_entry_into_leaf_node, after_insert, after_find, insert_from,
  insert_entry,
}

module _ {ℓ} {K : Type ℓ} where
  -- A tree that has gained a key: it is clean, a search tree without shared leaves, and has the keys
  -- from before and the new one.
  pub record HasGained (env : Env K) (t : Tree K) (h root : ℕ) (key : K) (t' : Tree K)
      : Type ℓ where
    pub is_clean : IsClean t t'
    pub is_tree : IsSearchTree env t' h root
    pub is_apart : IsApart t' h root
    pub keys :
        (k : K)
        → HasBelow env t' h root k ↔ (HasBelow env t h root k ⊎ (env.comparator key k ≡ equal))

  into_leaf-pin :
      (env : Env K) (t : Tree K) (n index : ℕ) (key : K) (rid : Rid)
      → into_leaf env (pin t n) n index key rid
        ≡ written t n (Leaf.insert (node_at t n) index key rid)
  unfolding into_leaf
  into_leaf-pin env t n index key rid =
      ap (λ x. unpin (mark_dirty (put_node (pin t n) n (Leaf.insert x index key rid)) n) n)
        (node_at-pin t n n)
      ∙ unpin-written t n (Leaf.insert (node_at t n) index key rid)

  inserted-is_leaf :
      (node : Node K) (index : ℕ) (key : K) (rid : Rid)
      → node.is_leaf ≡ true
      → (Leaf.insert node index key rid).is_leaf ≡ true
  unfolding Leaf.insert
  inserted-is_leaf node index key rid e = e

module _ {ℓ} {K : Type ℓ} (env : Env K) (t : Tree K) (g n : ℕ) (key : K) (rid : Rid) where
  -- What insert_entry_into_leaf_node does with the fetched leaf.
  abbrev chosen : Node K → Option (Rc × Tree K)
  chosen leaf =
      if (Leaf.lookup env.comparator leaf key).found
      then some (record_duplicate_key, pin t n)
      else if ltb leaf.key_num t.file_header.leaf_max_size
      then some
          (success, into_leaf env (pin t n) n (Leaf.lookup env.comparator leaf key).first key rid)
      else into_split env g (env.allocate (pin t n)) (pin t n) n
          (Leaf.lookup env.comparator leaf key).first key rid

  into-chosen : insert_entry_into_leaf_node env g (pin t n) n key rid ≡ chosen (node_at t n)
  unfolding insert_entry_into_leaf_node Leaf.max_size pin set_frame
  into-chosen = ap chosen (node_at-pin t n n)

  leaf_refuses :
      (Leaf.lookup env.comparator (node_at t n) key).found ≡ true
      → after_insert env n (insert_entry_into_leaf_node env g (pin t n) n key rid)
        ≡ some (record_duplicate_key, t)
  unfolding after_insert
  leaf_refuses e =
      let refused : chosen (node_at t n) ≡ some (record_duplicate_key, pin t n) = rw e refl in
      ap (after_insert env n) (into-chosen ∙ refused)
      ∙ ap (λ (x : Tree K). some (record_duplicate_key, x)) (unpin-pin t n)

  leaf_takes :
      (Leaf.lookup env.comparator (node_at t n) key).found ≡ false
      → (node_at t n).key_num < t.file_header.leaf_max_size
      → after_insert env n (insert_entry_into_leaf_node env g (pin t n) n key rid)
        ≡ some (
          success,
          written t n (
              Leaf.insert
                (node_at t n)
                (Leaf.lookup env.comparator (node_at t n) key).first
                key
                rid),
        )
  unfolding after_insert
  leaf_takes e h =
      let room : ltb (node_at t n).key_num t.file_header.leaf_max_size ≡ true = ground arith in
      let index = (Leaf.lookup env.comparator (node_at t n) key).first in
      let taken : chosen (node_at t n) ≡ some (success, into_leaf env (pin t n) n index key rid) =
        rw (e, room) refl in
      ap (after_insert env n) (into-chosen ∙ taken)
      ∙ ap (λ (x : Tree K). some (success, x)) (into_leaf-pin env t n index key rid)

module _ {ℓ} {K : Type ℓ} (env : Env K) (t : Tree K) (order : IsOrder env.comparator) (h root f : ℕ)
    (key : K) (rid : Rid) (rooted : t.file_header.root_page ≡ some root)
    (tree : IsSearchTree env t h root) (fuel : h ≤ f) where
  -- The insertion goes on with the leaf for the key.
  reaches :
      let leaf = leaf_for env t key h root in
      (insert_entry env (suc f) t key rid
        ≡ after_insert env leaf (insert_entry_into_leaf_node env (suc f) (pin t leaf) leaf key rid))
      × IsLeafFor env t h root key leaf
  unfolding insert_entry insert_from after_find
  reaches =
      let (leaf, run, good) = find_leaf-IsLeafFor env t order key h root f rooted tree fuel in
      subst
        (λ x.
          (insert_entry env (suc f) t key rid
            ≡ after_insert env x (insert_entry_into_leaf_node env (suc f) (pin t x) x key rid))
          × IsLeafFor env t h root key x)
        good.at
        (
          ap (λ r. insert_from env (suc f) r t key rid) rooted
              ∙ ap (λ r. after_find env (suc f) r key rid) run,
          good,
        )

  -- Where the comparison of keys is an order (IsOrder: each key equals itself, greater is the
  -- reverse of less, and less and equal are transitive across one another),
  -- BplusTreeHandler::insert_entry, with more fuel than the height of the tree, for a key that a
  -- search tree whose pages can be fetched has, returns RECORD_DUPLICATE_KEY and leaves the tree as
  -- it was, the pins included.
  pub insert_entry_refuses :
      HasBelow env t h root key
      → insert_entry env (suc f) t key rid ≡ some (record_duplicate_key, t)
  insert_entry_refuses has =
      let leaf = leaf_for env t key h root in
      let found =
        (Order.lookup-found_iff env.comparator order (node_at t leaf) key reaches.1.ordered).1
          (reaches.1.exact.0 has) in
      reaches.0 ∙ leaf_refuses env t (suc f) leaf key rid found

  -- Where the comparison of keys is an order (IsOrder: each key equals itself, greater is the
  -- reverse of less, and less and equal are transitive across one another),
  -- BplusTreeHandler::insert_entry, with more fuel than the height of the tree, for a new key, on a
  -- search tree whose pages can be fetched and share no leaf and whose leaf for the key has room,
  -- succeeds. The tree stays a search tree without shared leaves below the same root and has the
  -- keys from before and the new one, and no others; every pin count is as it was, and every page
  -- whose node changed is marked as dirty.
  pub insert_entry-HasGained :
      IsApart t h root
      → (node_at t (leaf_for env t key h root)).key_num < t.file_header.leaf_max_size
      → ¬ HasBelow env t h root key
      → (t' : Tree K) × (insert_entry env (suc f) t key rid ≡ some (success, t'))
        × HasGained env t h root key t'
  insert_entry-HasGained apart room new =
      let leaf = leaf_for env t key h root in
      let node = node_at t leaf in
      let found = Order.lookup-found_iff env.comparator order node key reaches.1.ordered in
      let index = (Leaf.lookup env.comparator node key).first in
      let missed : (Leaf.lookup env.comparator node key).found ≡ false =
        elim (Bool-cases (Leaf.lookup env.comparator node key).found) [
          | inl e ↦ absurd (new (reaches.1.exact.1 (found.0 e)))
          | inr e ↦ e
        ] in
      let bound = Order.lookup-IsLowerBound env.comparator order node key reaches.1.ordered in
      let node' = Leaf.insert node index key rid in
      let t' = written t leaf node' in
      let here = sym (written_here t leaf node') in
      let there = written_there t leaf node' in
      let grows =
        grown env t t' leaf reaches.1.is_leaf there order key
          (subst (λ (n : Node K). n.is_leaf ≡ true) here
            (inserted-is_leaf node index key rid reaches.1.is_leaf))
          (subst (λ n. Order.IsOrdered env.comparator n) here
            (Order.insert-IsOrdered env.comparator order node key rid reaches.1.ordered missed))
          (λ k.
            subst
              (λ n.
                Order.Has env.comparator n k
                ↔ (Order.Has env.comparator node k ⊎ (env.comparator key k ≡ equal)))
              here (insert-Has env.comparator node index key rid k bound.upto))
          h root tree apart refl in
      (
        t',
        reaches.0 ∙ leaf_takes env t (suc f) leaf key rid missed room,
        record {
          is_clean = written-IsClean t leaf node';
          is_tree = grows.0;
          is_apart = IsApart-kept env t t' leaf reaches.1.is_leaf there h root tree apart;
          keys = grows.1;
        },
      )
