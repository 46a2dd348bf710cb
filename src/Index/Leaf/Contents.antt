-- ===== src/Index/Leaf/Contents.antt =====
-- What the operations of a leaf make of its sequence of items.
use oceanbase_jp.Prelude.{ℕ, suc, ◌+◌, ◌-◌, ◌≤◌, ◌<◌, ◌≡◌, refl, ap, List, [], ◌∷◌, ◌++◌, arith}
use oceanbase_jp.Record.Page.{Rid}
use oceanbase_jp.Index.Array.{move_items, put_item, listing, listing_two, listing_three}
use oceanbase_jp.Index.Node.{Item, Node}
use oceanbase_jp.Index.Leaf.{
  insert, remove_at, move_half_to, append, preappend, move_first_to_end, move_last_to_front,
  move_to,
}

module _ {ℓ} {K : Type ℓ} where
  -- The items of a leaf, in their order.
  abbrev pub entries : Node K → List (Item K Rid)
  entries node = listing node.items 0 node.key_num

  pub entries_split :
      (node : Node K) (index : ℕ)
      → index ≤ node.key_num
      → entries node ≡ listing node.items 0 index ++ listing node.items index (node.key_num - index)
  entries_split node index h =
      listing_two node.items node.items node.items 0 index index (node.key_num - index) node.key_num
        (λ k l. ground arith) (omega arith) (λ k l. refl)

  pub insert-entries :
      (node : Node K) (index : ℕ) (key : K) (value : Rid)
      → index ≤ node.key_num
      → entries (insert node index key value)
        ≡ listing node.items 0 index
          ++ record { key = key; value = value } ∷ listing node.items index (node.key_num - index)
  unfolding insert move_items put_item
  insert-entries node index key value h =
      listing_three (insert node index key value).items node.items node.items 0 index index
        (node.key_num - index) (node.key_num + 1) (λ k l. ground arith)
        (record { key = key; value = value }) (omega arith) (ground arith) (λ k l. ground arith)

  pub remove_at-entries :
      (node : Node K) (index : ℕ)
      → index < node.key_num
      → entries (remove_at node index)
        ≡ listing node.items 0 index ++ listing node.items (suc index) (node.key_num - suc index)
  unfolding remove_at move_items
  remove_at-entries node index h =
      listing_two (remove_at node index).items node.items node.items 0 (suc index) index
        (node.key_num - suc index) (node.key_num - 1) (λ k l. ground arith) (omega arith)
        (λ k l. ground arith)

  -- The lower half stays, and the upper half goes to the other leaf, which is empty.
  pub move_half_to-entries :
      (node other : Node K)
      → other.key_num ≡ 0
      → entries node ≡ entries (move_half_to node other).0 ++ entries (move_half_to node other).1
  unfolding move_half_to move_items
  move_half_to-entries node other h =
      let (this, that) = move_half_to node other in
      listing_two node.items this.items that.items 0 0 this.key_num that.key_num node.key_num
        (λ k l. ground arith) (omega arith) (λ k l. ground arith)

  -- All items go behind those of the other leaf.
  pub move_to-entries :
      (node other : Node K)
      → (entries (move_to node other).1 ≡ entries other ++ entries node)
        × (entries (move_to node other).0 ≡ [])
  unfolding move_to move_items listing
  move_to-entries node other = (
    listing_two (move_to node other).1.items other.items node.items 0 0 other.key_num node.key_num
        (other.key_num + node.key_num) (λ k l. ground arith) (omega arith) (λ k l. ground arith),
    ap (listing node.items 0) {x = node.key_num - node.key_num} {y = 0} (omega arith),
  )

  append-entries :
      (node : Node K) (item : Item K Rid) → entries (append node item) ≡ entries node ++ item ∷ []
  unfolding append put_item listing
  append-entries node item =
      listing_three (append node item).items node.items node.items 0 0 node.key_num 0
        (node.key_num + 1) (λ k l. ground arith) item (omega arith) (ground arith)
        (λ k l. absurd (omega arith))

  preappend-entries :
      (node : Node K) (item : Item K Rid) → entries (preappend node item) ≡ item ∷ entries node
  unfolding preappend move_items put_item listing
  preappend-entries node item =
      listing_three (preappend node item).items node.items node.items 0 0 0 node.key_num
        (node.key_num + 1) (λ k l. absurd (omega arith)) item (omega arith) (ground arith)
        (λ k l. ground arith)

  -- The first item goes behind those of the other leaf.
  pub move_first_to_end-entries :
      (node other : Node K)
      → 0 < node.key_num
      → (entries node ≡ node.items 0 ∷ entries (move_first_to_end node other).0)
        × (entries (move_first_to_end node other).1 ≡ entries other ++ node.items 0 ∷ [])
  unfolding move_first_to_end move_items listing
  move_first_to_end-entries node other h = (
    listing_three node.items node.items (move_first_to_end node other).0.items 0 0 0
        (node.key_num - 1) node.key_num (λ k l. absurd (omega arith)) (node.items 0) (omega arith)
        refl (λ k l. ground arith),
    append-entries other (node.items 0),
  )

  -- The last item goes before those of the other leaf.
  pub move_last_to_front-entries :
      (node other : Node K)
      → 0 < node.key_num
      → (entries node
          ≡ entries (move_last_to_front node other).0 ++ node.items (node.key_num - 1) ∷ [])
        × (entries (move_last_to_front node other).1
            ≡ node.items (node.key_num - 1) ∷ entries other)
  unfolding move_last_to_front listing
  move_last_to_front-entries node other h = (
    listing_three node.items node.items node.items 0 0 (node.key_num - 1) 0 node.key_num
        (λ k l. ground arith) (node.items (node.key_num - 1)) (omega arith) refl
        (λ k l. absurd (omega arith)),
    preappend-entries other (node.items (node.key_num - 1)),
  )

  module _ (node : Node K) (index : ℕ) (key : K) (value : Rid) where
    pub insert_count : (insert node index key value).key_num ≡ node.key_num + 1
    unfolding insert
    insert_count = refl

    pub insert_before : (i : ℕ) → i < index → ((insert node index key value).items i) ≡ node.items i
    unfolding insert move_items put_item
    insert_before i l = ground arith

    pub insert_here : ((insert node index key value).items index).key ≡ key
    unfolding insert move_items put_item
    insert_here = ground arith

    pub insert_behind :
        (i : ℕ)
        → index ≤ i
        → i < node.key_num
        → ((insert node index key value).items (i + 1)) ≡ node.items i
    unfolding insert move_items put_item
    insert_behind i l h = ground arith

  module _ (node : Node K) (index : ℕ) where
    pub remove_count : (remove_at node index).key_num ≡ node.key_num - 1
    unfolding remove_at
    remove_count = refl

    pub remove_before : (i : ℕ) → i < index → (remove_at node index).items i ≡ node.items i
    unfolding remove_at move_items
    remove_before i l = ground arith

    pub remove_behind :
        (i : ℕ)
        → index ≤ i
        → i + 1 < node.key_num
        → (remove_at node index).items i ≡ node.items (i + 1)
    unfolding remove_at move_items
    remove_behind i l h = ground arith
