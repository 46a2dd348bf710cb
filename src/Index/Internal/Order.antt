-- ===== src/Index/Internal/Order.antt =====
-- Inner nodes whose keys rise from the second child on: the choice of the child and insertion.
use oceanbase_jp.Prelude.{
  ℕ, ◌+◌, ◌-◌, ◌≤◌, ◌<◌, ◌≡◌, ◌≢◌, true, false, List, ◌∷◌, ◌++◌, arith, ◌==◌,
}
use oceanbase_jp.Lang.LowerBound.{
  Sign, less, greater, Found, IsLowerBound, lower_bound, lower_bound-IsLowerBound,
}
use oceanbase_jp.Index.Key.{IsOrder}
use oceanbase_jp.Index.Array.{move_items, put_item, listing, listing_three}
use oceanbase_jp.Index.Node.{Item, Node}
use oceanbase_jp.Index.Internal.{Place, is_less, placed, lookup, insert_at, insert}
use oceanbase_jp.Index.Leaf.Order.{rising_across}

module _ {ℓ} {K : Type ℓ} where
  -- The children of an inner node, in their order.
  abbrev pub entries : Node K → List (Item K ℕ)
  entries node = listing node.children 0 node.key_num

  insert_at-entries :
      (node : Node K) (index : ℕ) (key : K) (page_num : ℕ)
      → index ≤ node.key_num
      → entries (insert_at node index key page_num)
        ≡ listing node.children 0 index
          ++ record { key = key; value = page_num }
            ∷ listing node.children index (node.key_num - index)
  unfolding insert_at move_items put_item
  insert_at-entries node index key page_num h =
      listing_three (insert_at node index key page_num).children node.children node.children 0 index
        index (node.key_num - index) (node.key_num + 1) (λ k l. ground arith)
        (record { key = key; value = page_num }) (omega arith) (ground arith) (λ k l. ground arith)

module _ {ℓ} {K : Type ℓ} (comparator : K → K → Sign) where
  -- The keys rise strictly, the first one aside.
  abbrev pub IsOrderedInner : Node K → Type 0
  IsOrderedInner node =
      (i j : ℕ)
      → 1 ≤ i
      → i < j
      → j < node.key_num
      → comparator (node.children i).key (node.children j).key ≡ less

  -- The child for a key: no key up to it is greater, all behind it are.
  pub record IsPlace (node : Node K) (key : K) (p : Place) : Type 0 where
    pub child_upto : p.child < node.key_num
    pub upto : (i : ℕ) → 1 ≤ i → i ≤ p.child → comparator (node.children i).key key ≢ greater
    pub behind :
        (i : ℕ) → p.child < i → i < node.key_num → comparator (node.children i).key key ≡ greater
    pub position_from : 1 ≤ p.insert_position
    pub position_upto : p.insert_position ≤ node.key_num
    pub found_at : p.found ≡ true → p.insert_position ≡ p.child
    pub missed_at : p.found ≡ false → p.insert_position ≡ p.child + 1
    pub missed :
        p.found ≡ false
        → (i : ℕ) → 1 ≤ i
        → i ≤ p.child
        → comparator (node.children i).key key ≡ less

  -- What the insertion of a key and a page makes of a node.
  abbrev pub Inserted : Node K → K → ℕ → Node K → Type ℓ
  Inserted node key page_num node' =
      let child = (lookup comparator node key).child in
      IsOrderedInner node'
      × (entries node'
          ≡ listing node.children 0 (child + 1)
            ++ record { key = key; value = page_num }
              ∷ listing node.children (child + 1) (node.key_num - (child + 1)))

  module _ (order : IsOrder comparator) where
    search-IsLowerBound :
        (node : Node K) (key : K)
        → IsOrderedInner node
        → 1 ≤ node.key_num
        → IsLowerBound
            (λ i. (node.children i).key)
            key
            comparator
            1
            node.key_num
            (lower_bound (λ i. (node.children i).key) key comparator 1 node.key_num)
    search-IsLowerBound node key up h =
        lower_bound-IsLowerBound (λ i. (node.children i).key) key comparator 1 node.key_num h
          (λ i j l m n.
            rising_across comparator order (node.children i).key (node.children j).key key
              (up i j l m n))

    placed-IsPlace :
        (node : Node K) (key : K) (r : Found)
        → 1 ≤ node.key_num
        → IsLowerBound (λ i. (node.children i).key) key comparator 1 node.key_num r
        → IsPlace node key (placed comparator node key r)
    unfolding placed is_less
    placed-IsPlace node key r h b =
        let last = order.flip_equal (node.children r.first).key key in
        let first = order.flip_greater (node.children r.first).key key in
        let from = b.from in
        let upto = b.upto in
        let hit = b.hit in
        let miss = b.miss in
        record {
          child_upto = ground arith;
          upto = λ i l m. ground (arith, b.below i);
          behind = λ i l m. ground (arith, b.above i);
          position_from = from;
          position_upto = upto;
          found_at = λ e. ground arith;
          missed_at = λ e. ground arith;
          missed = λ e i l m. ground (arith, b.below i);
        }

    -- In an ordered inner node with a child, `lookup` gives the child whose range has the key, and
    -- the place behind it for a key that no child has.
    pub lookup-IsPlace :
        (node : Node K) (key : K)
        → IsOrderedInner node
        → 1 ≤ node.key_num
        → IsPlace node key (lookup comparator node key)
    unfolding lookup
    lookup-IsPlace node key up h =
        let r = lower_bound (λ i. (node.children i).key) key comparator 1 node.key_num in
        let p = placed-IsPlace node key r h (search-IsLowerBound node key up h) in
        let nonempty : (node.key_num == 0) ≡ false = ground arith in rw nonempty p

    insert_at-IsOrderedInner :
        (node : Node K) (key : K) (page_num : ℕ) (p : Place)
        → IsOrderedInner node
        → IsPlace node key p
        → p.found ≡ false
        → IsOrderedInner (insert_at node (p.child + 1) key page_num)
    unfolding insert_at move_items put_item
    insert_at-IsOrderedInner node key page_num p up q f i j l m n = ground (
      arith,
      q.child_upto,
      up i j,
      up i (j - 1),
      up (i - 1) (j - 1),
      q.missed f i,
      q.behind (j - 1),
      order.flip_greater (node.children (j - 1)).key key,
    )

    -- Where the comparison of keys is an order (IsOrder: each key equals itself, greater is the
    -- reverse of less, and less and equal are transitive across one another),
    -- InternalIndexNodeHandler::insert of a key that no child has, in an inner node with a child
    -- whose keys rise, keeps the keys rising and puts the page directly behind the child that a
    -- search for the key takes; all other children stay in their order.
    pub insert-Inserted :
        (node : Node K) (key : K) (page_num : ℕ)
        → IsOrderedInner node
        → 1 ≤ node.key_num
        → (lookup comparator node key).found ≡ false
        → Inserted node key page_num (insert comparator node key page_num)
    unfolding insert
    insert-Inserted node key page_num up h e =
        let q = lookup-IsPlace node key up h in
        rw (q.missed_at e) (
          insert_at-IsOrderedInner node key page_num (lookup comparator node key) up q e,
          insert_at-entries node ((lookup comparator node key).child + 1) key page_num
              (omega (arith, q.child_upto)),
        )
