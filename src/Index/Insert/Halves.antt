-- ===== src/Index/Insert/Halves.antt =====
-- The split of a leaf: its halves, and what the steps of the split leave in the frames.
use oceanbase_jp.Prelude.{
  ℕ, ◌+◌, ◌-◌, ◌/◌, ◌≤◌, ◌≡◌, ◌≢◌, inl, inr, sym, ap, ◌∙◌, true, some, ◌++◌, arith, ltb,
  if◌then◌else◌, Bool-cases,
}
use oceanbase_jp.Record.Page.{Rid}
use oceanbase_jp.Lang.LowerBound.{Sign}
use oceanbase_jp.Index.Array.{move_items, put_item, listing_two}
use oceanbase_jp.Index.Node.{Node, clear_page}
use oceanbase_jp.Index.Leaf
use oceanbase_jp.Index.Leaf.{insert, move_half_to}
use oceanbase_jp.Index.Leaf.Contents.{entries}
use oceanbase_jp.Index.Leaf.Order.{insert_sorted}
use oceanbase_jp.Index.Tree.{Tree, Env, node_at, put_node, allocated}
use oceanbase_jp.Index.Tree.Nodes.{put_same, put_other, dirty_node, allocated_same, allocated_other}
use oceanbase_jp.Index.Insert.{leaf_halves, split_leaf, linked}

module _ {K : Type 0} where
  -- Both halves hold what an insertion into the whole leaf does.
  pub halves-insert :
      (node other : Node K) (index : ℕ) (key : K) (value : Rid)
      → other.key_num ≡ 0
      → index ≤ node.key_num
      → let (left, right) = move_half_to node other in
        entries (insert node index key value) ≡ (
          if ltb index left.key_num
          then entries (insert left index key value) ++ entries right
          else entries left ++ entries (insert right (index - left.key_num) key value))
  unfolding insert move_half_to move_items put_item
  halves-insert node other index key value e h =
      let whole = insert node index key value in
      let left = (move_half_to node other).0 in
      let right = (move_half_to node other).1 in
      let lower = entries (insert left index key value) ++ entries right in
      let upper = entries left ++ entries (insert right (index - left.key_num) key value) in
      elim (Bool-cases (ltb index left.key_num)) [
        | inl q ↦
            listing_two whole.items (insert left index key value).items right.items 0 0
              (left.key_num + 1) right.key_num (node.key_num + 1) (λ k l. ground arith)
              (omega arith) (λ k l. ground arith)
            ∙ ap (λ b. if b then lower else upper) (sym q)
        | inr q ↦
            listing_two whole.items left.items (insert right (index - left.key_num) key value).items
              0 0 left.key_num (right.key_num + 1) (node.key_num + 1) (λ k l. ground arith)
              (omega arith) (λ k l. ground arith)
            ∙ ap (λ b. if b then lower else upper) (sym q)
      ]

  -- Two leaves into which a leaf on page `n` was split to take a key, the second on page `new`.
  pub record AreHalves (comparator : K → K → Sign) (node : Node K) (n new : ℕ) (key : K)
      (value : Rid) (left right : Node K) : Type 0 where
    pub contents : entries left ++ entries right ≡ insert_sorted comparator key value (entries node)
    pub left_size : left.key_num ≤ node.key_num / 2 + 1
    pub right_size : right.key_num ≤ node.key_num - node.key_num / 2 + 1
    pub left_next : left.next_brother ≡ some new
    pub right_prev : right.prev_brother ≡ some n
    pub right_next : right.next_brother ≡ node.next_brother
    pub left_parent : left.parent ≡ node.parent
    pub right_parent : right.parent ≡ node.parent
    pub left_is_leaf : left.is_leaf ≡ node.is_leaf
    pub right_is_leaf : right.is_leaf ≡ true

  module _ (env : Env K) (t : Tree K) (n new : ℕ) (apart : n ≢ new) where
    pub linked_old :
        (s : Tree K)
        → node_at (linked env s n new) n ≡ record (node_at s n) { next_brother = some new }
    unfolding linked
    linked_old s =
        put_same _ n _
        ∙ ap (λ (x : Node K). record x { next_brother = some new })
            (put_other _ new _ n apart ∙ put_other _ new _ n apart ∙ put_other s new _ n apart)

    pub linked_new :
        (s : Tree K)
        → node_at (linked env s n new) new ≡ record (node_at s new) {
          prev_brother = some n;
          next_brother = (node_at s n).next_brother;
          parent = (node_at s n).parent;
        }
    unfolding linked
    linked_new s =
        let t1 = put_node s new (record (node_at s new) { prev_brother = some n }) in
        let t2 =
          put_node t1 new
            (record (node_at t1 new) { next_brother = (node_at t1 n).next_brother }) in
        let p1 : node_at t1 new ≡ record (node_at s new) { prev_brother = some n } =
          put_same s new _ in
        let q1 : node_at t1 n ≡ node_at s n = put_other s new _ n apart in
        let p2 : node_at t2 new ≡ record (node_at s new) {
          prev_brother = some n;
          next_brother = (node_at s n).next_brother;
        } =
          put_same t1 new _ ∙ (λ i. record (p1 i) { next_brother = (q1 i).next_brother }) in
        let q2 : node_at t2 n ≡ node_at s n = put_other t1 new _ n apart ∙ q1 in
        put_other _ n _ new (λ e. apart (sym e))
        ∙ put_same t2 new _
        ∙ (λ i. record (p2 i) { parent = (q2 i).parent })

    abbrev emptied : Tree K → Node K
    emptied s = record (Leaf.init_empty (node_at s new)) { parent = (node_at s n).parent }

    halves_old :
        (s : Tree K) → node_at (leaf_halves s n new) n ≡ (move_half_to (node_at s n) (emptied s)).0
    unfolding leaf_halves
    halves_old s = put_other _ new _ n apart ∙ put_same s n _

    halves_new :
        (s : Tree K)
        → node_at (leaf_halves s n new) new ≡ (move_half_to (node_at s n) (emptied s)).1
    unfolding leaf_halves
    halves_new s = put_same _ new _

    unfoldable pub fresh_page : Node K
    fresh_page = record (Leaf.init_empty (clear_page env.zero_key)) {
      parent = (node_at t n).parent;
    }

    abbrev pub left_half : Node K
    left_half = (move_half_to (node_at t n) fresh_page).0

    abbrev pub right_half : Node K
    right_half = (move_half_to (node_at t n) fresh_page).1

    emptied-fresh_page : emptied (allocated env t new) ≡ fresh_page
    unfolding fresh_page
    emptied-fresh_page = λ i. record (Leaf.init_empty (allocated_same t new env i)) {
      parent = (allocated_other t new env n apart i).parent;
    }

    pub split_old : node_at (split_leaf env t n new) n ≡ left_half
    unfolding split_leaf
    split_old =
        dirty_node _ new n
        ∙ dirty_node _ n n
        ∙ halves_old (allocated env t new)
        ∙ (λ i. (move_half_to (allocated_other t new env n apart i) (emptied-fresh_page i)).0)

    pub split_new : node_at (split_leaf env t n new) new ≡ right_half
    unfolding split_leaf
    split_new =
        dirty_node _ new new
        ∙ dirty_node _ n new
        ∙ halves_new (allocated env t new)
        ∙ (λ i. (move_half_to (allocated_other t new env n apart i) (emptied-fresh_page i)).1)
