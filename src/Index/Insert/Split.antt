-- ===== src/Index/Insert/Split.antt =====
-- The split of a full leaf: the two leaves hold the items of the old one and the new one, in order,
-- and are linked one behind the other.
use oceanbase_jp.Prelude.{
  ℕ, ◌-◌, ◌≡◌, ◌≢◌, inl, inr, refl, sym, ap, ◌∙◌, subst₂, Bool, true, false, some, List, ◌++◌,
  arith, ltb, if◌then◌else◌, Bool-cases,
}
use oceanbase_jp.Record.Page.{Rid}
use oceanbase_jp.Index.Key.{IsOrder}
use oceanbase_jp.Index.Array.{move_items}
use oceanbase_jp.Index.Node.{Item, Node, init_empty, clear_page}
use oceanbase_jp.Index.Leaf
use oceanbase_jp.Index.Leaf.{insert, move_half_to}
use oceanbase_jp.Index.Leaf.Contents.{entries}
use oceanbase_jp.Index.Leaf.Order.{
  IsOrdered, insert_sorted, insert-insert_sorted, lookup-IsLowerBound,
}
use oceanbase_jp.Index.Tree.{Tree, Env, node_at, put_node}
use oceanbase_jp.Index.Tree.Nodes.{put_same, put_other}
use oceanbase_jp.Index.Insert.Halves.{
  AreHalves, halves-insert, fresh_page, left_half, right_half, linked_old, linked_new, split_old,
  split_new,
}
use oceanbase_jp.Index.Insert.{split_leaf, linked, filled}

module _ {K : Type 0} where
  module _ (env : Env K) (t : Tree K) (n new : ℕ) (apart : n ≢ new) where
    abbrev linked_left : Node K
    linked_left = record (left_half env t n new apart) { next_brother = some new }

    abbrev linked_right : Node K
    linked_right = record (right_half env t n new apart) {
      prev_brother = some n;
      next_brother = (left_half env t n new apart).next_brother;
      parent = (left_half env t n new apart).parent;
    }

    abbrev split_tree : Tree K
    split_tree = linked env (split_leaf env t n new) n new

    left_at : node_at split_tree n ≡ linked_left
    left_at =
        linked_old env t n new apart (split_leaf env t n new)
        ∙ (λ i. record ((split_old env t n new apart) i) { next_brother = some new })

    right_at : node_at split_tree new ≡ linked_right
    right_at = linked_new env t n new apart (split_leaf env t n new) ∙ (λ i.
        record ((split_new env t n new apart) i) {
          prev_brother = some n;
          next_brother = ((split_old env t n new apart) i).next_brother;
          parent = ((split_old env t n new apart) i).parent;
        })

    module _ (order : IsOrder env.comparator) (key : K) (rid : Rid)
        (ordered : IsOrdered env.comparator (node_at t n))
        (missed : (Leaf.lookup env.comparator (node_at t n) key).found ≡ false) where
      abbrev index : ℕ
      index = (Leaf.lookup env.comparator (node_at t n) key).first

      abbrev Split : Node K → Node K → Type 0
      Split = AreHalves env.comparator (node_at t n) n new key rid

      abbrev both : Bool → List (Item K Rid)
      both lower =
          if lower
          then entries (insert (left_half env t n new apart) index key rid)
            ++ entries (right_half env t n new apart)
          else entries (left_half env t n new apart)
            ++ entries (
                insert (right_half env t n new apart)
                  (index - (left_half env t n new apart).key_num) key rid)

      in_order :
          both (ltb index (left_half env t n new apart).key_num)
          ≡ insert_sorted env.comparator key rid (entries (node_at t n))
      unfolding fresh_page Leaf.init_empty init_empty
      in_order =
          let bound = lookup-IsLowerBound env.comparator order (node_at t n) key ordered in
          sym (
            halves-insert (node_at t n) (fresh_page env t n new apart) index key rid refl
              bound.upto)
          ∙ insert-insert_sorted env.comparator order (node_at t n) key rid ordered missed

      lower-Split :
          ltb index (left_half env t n new apart).key_num ≡ true
          → Split (insert linked_left index key rid) linked_right
      unfolding fresh_page Leaf.init_empty init_empty clear_page move_half_to insert move_items
      lower-Split q = record {
        contents = ap both (sym q) ∙ in_order;
        left_size = omega arith;
        right_size = omega arith;
        left_next = refl;
        right_prev = refl;
        right_next = refl;
        left_parent = refl;
        right_parent = refl;
        left_is_leaf = refl;
        right_is_leaf = refl;
      }

      upper-Split :
          ltb index (left_half env t n new apart).key_num ≡ false
          → Split linked_left
              (insert linked_right (index - (left_half env t n new apart).key_num) key rid)
      unfolding fresh_page Leaf.init_empty init_empty clear_page move_half_to insert move_items
      upper-Split q = record {
        contents = ap both (sym q) ∙ in_order;
        left_size = omega arith;
        right_size = omega arith;
        left_next = refl;
        right_prev = refl;
        right_next = refl;
        left_parent = refl;
        right_parent = refl;
        left_is_leaf = refl;
        right_is_leaf = refl;
      }

      abbrev split_filled : Tree K
      split_filled = filled env split_tree n new index key rid

      abbrev filled_by : ℕ → Bool → Tree K
      filled_by size lower =
          if lower
          then put_node split_tree n (insert (node_at split_tree n) index key rid)
          else put_node split_tree new (insert (node_at split_tree new) (index - size) key rid)

      fills :
          split_filled
          ≡ filled_by
              (left_half env t n new apart).key_num
              (ltb index (left_half env t n new apart).key_num)
      unfolding filled
      fills = λ i. filled_by (left_at i).key_num (ltb index (left_at i).key_num)

      -- Where the comparison of keys is an order (IsOrder: each key equals itself, greater is the
      -- reverse of less, and less and equal are transitive across one another), the split of an
      -- ordered leaf for a key it does not have, onto another page, with the insertion of the key
      -- into one of the halves: in order, the items of the two leaves are those of the insertion
      -- into the sorted list of the old items; no half has more than one item above its share; the
      -- old leaf points to the new one, which points back and to the leaf that followed, and both
      -- have the parent of the old one.
      pub filled-AreHalves : Split (node_at split_filled n) (node_at split_filled new)
      filled-AreHalves =
          let t1 = put_node split_tree n (insert (node_at split_tree n) index key rid) in
          let t2 = put_node split_tree new (
            insert (node_at split_tree new) (index - (left_half env t n new apart).key_num) key
              rid) in
          elim (Bool-cases (ltb index (left_half env t n new apart).key_num)) [
            | inl q ↦
                let e : split_filled ≡ t1 =
                  fills ∙ ap (filled_by (left_half env t n new apart).key_num) q in
                let l : node_at split_filled n ≡ insert linked_left index key rid =
                  ap (λ s. node_at s n) e
                  ∙ put_same split_tree n _
                  ∙ ap (λ x. insert x index key rid) left_at in
                let r : node_at split_filled new ≡ linked_right =
                  ap (λ s. node_at s new) e
                  ∙ put_other split_tree n _ new (λ x. apart (sym x))
                  ∙ right_at in
                subst₂ Split (sym l) (sym r) (lower-Split q)
            | inr q ↦
                let e : split_filled ≡ t2 =
                  fills ∙ ap (filled_by (left_half env t n new apart).key_num) q in
                let l : node_at split_filled n ≡ linked_left =
                  ap (λ s. node_at s n) e ∙ put_other split_tree new _ n apart ∙ left_at in
                let r : node_at split_filled new
                    ≡ insert linked_right (index - (left_half env t n new apart).key_num) key rid =
                  ap (λ s. node_at s new) e
                  ∙ put_same split_tree new _
                  ∙ ap (λ x. insert x (index - (left_half env t n new apart).key_num) key rid)
                      right_at in
                subst₂ Split (sym l) (sym r) (upper-Split q)
          ]
