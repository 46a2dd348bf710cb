-- ===== src/Index/Leaf/Removal.antt =====
-- The removal from a leaf whose keys rise, against that from a sorted list.
use oceanbase_jp.Prelude.{
  ℕ, suc, ◌+◌, ◌-◌, ◌<◌, ◌≡◌, inl, inr, sym, ap, ◌∙◌, true, false, ◌++◌, arith, Bool-cases,
}
use oceanbase_jp.Lang.LowerBound.{Sign}
use oceanbase_jp.Index.Key.{IsOrder}
use oceanbase_jp.Index.Array.{move_items, listing}
use oceanbase_jp.Index.Node.{Node}
use oceanbase_jp.Index.Leaf.{lookup, remove_at, remove}
use oceanbase_jp.Index.Leaf.Order.{
  IsOrdered, remove_sorted, Removed, remove_sorted_skips, remove_sorted_hits, remove_sorted_stops,
  lookup-IsLowerBound,
}
use oceanbase_jp.Index.Leaf.Contents.{entries, entries_split, remove_at-entries}

module _ {ℓ} {K : Type ℓ} (comparator : K → K → Sign) (order : IsOrder comparator) where
  pub remove_at-IsOrdered :
      (node : Node K) (index : ℕ)
      → IsOrdered comparator node
      → index < node.key_num
      → IsOrdered comparator (remove_at node index)
  unfolding remove_at move_items
  remove_at-IsOrdered node index up h i j l m =
      ground (arith, up i j, up i (j + 1), up (i + 1) (j + 1))

  counts :
      (node : Node K) (index : ℕ)
      → index < node.key_num
      → 1 + (remove_at node index).key_num ≡ node.key_num
  unfolding remove_at
  counts node index h = omega arith

  remove_found :
      (node : Node K) (key : K)
      → IsOrdered comparator node
      → (lookup comparator node key).found ≡ true
      → entries (remove_at node (lookup comparator node key).first)
        ≡ remove_sorted comparator key (entries node)
  remove_found node key up e =
      let r = lookup comparator node key in
      let b = lookup-IsLowerBound comparator order node key up in
      let h = (b.hit e).0 in
      let count = node.key_num - suc r.first in
      let whole : node.key_num - r.first ≡ suc count = omega (arith, h) in
      let parts =
        entries_split node r.first b.upto
        ∙ ap (λ n. listing node.items 0 r.first ++ listing node.items r.first n) whole in
      remove_at-entries node r.first h
      ∙ sym (
          ap (remove_sorted comparator key) parts
          ∙ remove_sorted_skips comparator key node.items 0 r.first
              (listing node.items r.first (suc count))
              (λ k l m. b.below k (omega arith) (omega arith))
          ∙ ap (λ x. listing node.items 0 r.first ++ x)
              (remove_sorted_hits comparator key node.items r.first count (b.hit e).1))

  remove_missed :
      (node : Node K) (key : K)
      → IsOrdered comparator node
      → (lookup comparator node key).found ≡ false
      → entries node ≡ remove_sorted comparator key (entries node)
  remove_missed node key up e =
      let r = lookup comparator node key in
      let b = lookup-IsLowerBound comparator order node key up in
      let count = node.key_num - r.first in
      let parts = entries_split node r.first b.upto in
      parts
      ∙ sym (
          ap (remove_sorted comparator key) parts
          ∙ remove_sorted_skips comparator key node.items 0 r.first
              (listing node.items r.first count) (λ k l m. b.below k (omega arith) (omega arith))
          ∙ ap (λ x. listing node.items 0 r.first ++ x)
              (remove_sorted_stops comparator key node.items r.first count
                (λ h. b.miss e (omega arith))))

  -- The removal of a key from an ordered leaf is that from the sorted list; the leaf stays ordered,
  -- and the number that is returned is that of the items that go.
  pub remove-remove_sorted :
      (node : Node K) (key : K)
      → IsOrdered comparator node
      → Removed comparator key node (remove comparator node key)
  unfolding remove
  remove-remove_sorted node key up = elim (Bool-cases (lookup comparator node key).found) [
    | inl e ↦ rw e (
      remove_found node key up e,
      remove_at-IsOrdered node (lookup comparator node key).first up
          ((lookup-IsLowerBound comparator order node key up).hit e).0,
      counts node (lookup comparator node key).first
          ((lookup-IsLowerBound comparator order node key up).hit e).0,
    )
    | inr e ↦ rw e (remove_missed node key up e, up, omega arith)
  ]
