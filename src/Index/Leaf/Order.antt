-- ===== src/Index/Leaf/Order.antt =====
-- Leaves whose keys rise: the search in them, and insertion and removal against sorted lists.
use oceanbase_jp.Prelude.{
  ℕ, zero, suc, ◌+◌, ◌-◌, ◌≤◌, ◌<◌, ◌≡◌, ◌⊎◌, ◌↔◌, inl, inr, refl, sym, ap, ◌∙◌, true, false, List,
  [], ◌∷◌, ◌++◌, arith, Bool-cases,
}
use oceanbase_jp.Lang.LowerBound.{
  Sign, less, equal, greater, IsLowerBound, lower_bound-IsLowerBound,
}
use oceanbase_jp.Record.Page.{Rid}
use oceanbase_jp.Index.Key.{IsOrder}
use oceanbase_jp.Index.Array.{move_items, put_item, listing}
use oceanbase_jp.Index.Node.{Item, Node}
use oceanbase_jp.Index.Leaf.{lookup, insert}
use oceanbase_jp.Index.Leaf.Contents.{entries, entries_split, insert-entries}

module _ {ℓ} {K : Type ℓ} (comparator : K → K → Sign) where
  -- The keys rise strictly.
  abbrev pub IsOrdered : Node K → Type 0
  IsOrdered node =
      (i j : ℕ) → i < j → j < node.key_num → comparator (node.items i).key (node.items j).key ≡ less

  -- An item has the key.
  abbrev pub Has : Node K → K → Type 0
  Has node key = (i : ℕ) × (i < node.key_num) × (comparator (node.items i).key key ≡ equal)

  -- Into a sorted list, before the first greater key; a key that is there stays as it is.
  unfoldable pub insert_sorted : K → Rid → List (Item K Rid) → List (Item K Rid)
  insert_sorted key value [] = record { key = key; value = value } ∷ []
  insert_sorted key value (x ∷ xs) = elim (comparator x.key key) [
    | less ↦ x ∷ insert_sorted key value xs
    | equal ↦ x ∷ xs
    | greater ↦ record { key = key; value = value } ∷ x ∷ xs
  ]

  -- Out of a sorted list.
  unfoldable pub remove_sorted : K → List (Item K Rid) → List (Item K Rid)
  remove_sorted key [] = []
  remove_sorted key (x ∷ xs) = elim (comparator x.key key) [
    | less ↦ x ∷ remove_sorted key xs
    | equal ↦ xs
    | greater ↦ x ∷ xs
  ]

  -- What the removal of a key makes of a leaf.
  abbrev pub Removed : K → Node K → ℕ × Node K → Type ℓ
  Removed key node r =
      (entries r.1 ≡ remove_sorted key (entries node))
      × IsOrdered r.1
      × (r.0 + r.1.key_num ≡ node.key_num)

  module _ (key : K) (a : ℕ → Item K Rid) where
    pub insert_sorted_skips :
        (value : Rid) (i n : ℕ) (rest : List (Item K Rid))
        → ((k : ℕ) → i ≤ k → k < i + n → comparator (a k).key key ≡ less)
        → insert_sorted key value (listing a i n ++ rest)
          ≡ listing a i n ++ insert_sorted key value rest
    unfolding insert_sorted listing
    insert_sorted_skips value i zero rest h = refl
    insert_sorted_skips value i (suc n) rest h = rw (h i (omega arith) (omega arith)) (
        ap (◌∷◌ (a i))
          (insert_sorted_skips value (suc i) n rest (λ k l m. h k (omega arith) (omega arith))))

    insert_sorted_stops :
        (value : Rid) (i n : ℕ)
        → (0 < n → comparator (a i).key key ≡ greater)
        → insert_sorted key value (listing a i n)
          ≡ record { key = key; value = value } ∷ listing a i n
    unfolding insert_sorted listing
    insert_sorted_stops value i zero h = refl
    insert_sorted_stops value i (suc n) h = rw (h (omega arith)) refl

    pub remove_sorted_skips :
        (i n : ℕ) (rest : List (Item K Rid))
        → ((k : ℕ) → i ≤ k → k < i + n → comparator (a k).key key ≡ less)
        → remove_sorted key (listing a i n ++ rest) ≡ listing a i n ++ remove_sorted key rest
    unfolding remove_sorted listing
    remove_sorted_skips i zero rest h = refl
    remove_sorted_skips i (suc n) rest h = rw (h i (omega arith) (omega arith)) (
        ap (◌∷◌ (a i))
          (remove_sorted_skips (suc i) n rest (λ k l m. h k (omega arith) (omega arith))))

    pub remove_sorted_stops :
        (i n : ℕ)
        → (0 < n → comparator (a i).key key ≡ greater)
        → remove_sorted key (listing a i n) ≡ listing a i n
    unfolding remove_sorted listing
    remove_sorted_stops i zero h = refl
    remove_sorted_stops i (suc n) h = rw (h (omega arith)) refl

    pub remove_sorted_hits :
        (i n : ℕ)
        → comparator (a i).key key ≡ equal
        → remove_sorted key (listing a i (suc n)) ≡ listing a (suc i) n
    unfolding remove_sorted listing
    remove_sorted_hits i n h = rw h refl

  module _ (order : IsOrder comparator) where
    -- Rising keys rise across every key.
    pub rising_across :
        (a b key : K)
        → comparator a b ≡ less
        → (comparator a key ≡ less) ⊎ (comparator b key ≡ greater)
    rising_across a b key e = ground (
      arith,
      order.flip_equal a key,
      order.equal_less key a b,
      order.flip_greater a key,
      order.less_less key a b,
      order.flip_less key b,
    )

    pub lookup-IsLowerBound :
        (node : Node K) (key : K)
        → IsOrdered node
        → IsLowerBound
            (λ i. (node.items i).key)
            key
            comparator
            0
            node.key_num
            (lookup comparator node key)
    unfolding lookup
    lookup-IsLowerBound node key up =
        lower_bound-IsLowerBound (λ i. (node.items i).key) key comparator 0 node.key_num
          (omega arith)
          (λ i j l m n. rising_across (node.items i).key (node.items j).key key (up i j m n))

    -- Where the comparison of keys is an order (IsOrder: each key equals itself, greater is the
    -- reverse of less, and less and equal are transitive across one another), in a leaf whose keys
    -- rise, LeafIndexNodeHandler::insert at the index that lookup gives for a key that it does not
    -- find makes the same sequence of items as an insertion into the sorted list, item by item,
    -- before the first greater key.
    pub insert-insert_sorted :
        (node : Node K) (key : K) (value : Rid)
        → IsOrdered node
        → (lookup comparator node key).found ≡ false
        → entries (insert node (lookup comparator node key).first key value)
          ≡ insert_sorted key value (entries node)
    insert-insert_sorted node key value up e =
        let r = lookup comparator node key in
        let b = lookup-IsLowerBound node key up in
        let parts = entries_split node r.first b.upto in
        insert-entries node r.first key value b.upto
        ∙ sym (
            ap (insert_sorted key value) parts
            ∙ insert_sorted_skips key node.items value 0 r.first
                (listing node.items r.first (node.key_num - r.first))
                (λ k l m. b.below k (omega arith) (omega arith))
            ∙ ap (λ x. listing node.items 0 r.first ++ x)
                (insert_sorted_stops key node.items value r.first (node.key_num - r.first)
                  (λ h. b.miss e (omega arith))))

    pub insert-IsOrdered :
        (node : Node K) (key : K) (value : Rid)
        → IsOrdered node
        → (lookup comparator node key).found ≡ false
        → IsOrdered (insert node (lookup comparator node key).first key value)
    unfolding insert move_items put_item
    insert-IsOrdered node key value up e i j l m =
        let r = lookup comparator node key in
        let b = lookup-IsLowerBound node key up in
        ground (
          arith,
          b.upto,
          up i j,
          up i (j - 1),
          up (i - 1) (j - 1),
          b.below i,
          b.above (j - 1),
          b.miss e,
          order.flip_greater (node.items (j - 1)).key key,
        )

    -- A key is found exactly if an item has it.
    pub lookup-found_iff :
        (node : Node K) (key : K)
        → IsOrdered node
        → ((lookup comparator node key).found ≡ true) ↔ Has node key
    lookup-found_iff node key up =
        let b = lookup-IsLowerBound node key up in
        (
          λ e. ((lookup comparator node key).first, (b.hit e).0, (b.hit e).1),
          λ h. elim (Bool-cases (lookup comparator node key).found) [
            | inl e ↦ e
            | inr e ↦
                absurd (ground (arith, h.1, h.2, b.below h.0 (omega arith), b.above h.0, b.miss e))
          ],
        )
