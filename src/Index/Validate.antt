-- ===== src/Index/Validate.antt =====
-- The validation of a tree in storage/index/bplus_tree.cpp: LeafIndexNodeHandler::validate,
-- InternalIndexNodeHandler::validate and BplusTreeHandler::validate_tree with its parts. A read of the
-- item in front of the first one, and an index that key_at asserts against, is a fault. The printing
-- of a tree that is not valid is not modelled.
pub mod Keys
pub mod Place
pub mod Inner
pub mod Below
use oceanbase_jp.Prelude.{
  ℕ, zero, suc, ◌+◌, ◌-◌, Bool, true, false, Option, none, some, ltb, ◌==◌, ◌&&◌, not,
  if◌then◌else◌,
}
use oceanbase_jp.Prelude.Run.{Run, ok, fault}
use oceanbase_jp.Rc.{Rc, success}
use oceanbase_jp.Lang.LowerBound.{Sign}
use oceanbase_jp.Index.Node.{Node}
use oceanbase_jp.Index.Node
use oceanbase_jp.Index.Internal.{is_less, value_index}
use oceanbase_jp.Index.Tree.{Tree, Env, node_at, pin, unpin, on_fetch, left_most_page}

-- Whether a page is the given one.
unfoldable pub is_page : Option ℕ → Option ℕ → Bool
is_page none none = true
is_page (some m) (some n) = m == n
is_page _ _ = false

module _ {ℓ} {K : Type ℓ} where
  -- The loop over the keys from an index on, by their number: each is greater than the one before.
  unfoldable pub keys_rise : (K → K → Sign) → (ℕ → K) → ℕ → ℕ → Bool
  unfolding is_less
  keys_rise comparator key_at i zero = true
  keys_rise comparator key_at i (suc n) =
      let rest = keys_rise comparator key_at (i + 1) n in
      if is_less (comparator (key_at (i - 1)) (key_at i)) then rest else false

  -- The keys of a node against those of its parent, from the index in the parent on.
  unfoldable pub beside : (K → K → Sign) → (ℕ → K) → ℕ → ℕ → Node K → Option ℕ → Run Bool
  unfolding is_less
  beside comparator key_at first size parent_node none = ok false
  beside comparator key_at first size parent_node (some index) =
      if not (index == 0) && is_less (comparator (key_at first) (parent_node.children index).key)
      then ok false
      else if ltb index (parent_node.key_num - 1)
      then if size == 0
        then fault
        else ok (is_less (comparator (key_at (size - 1)) (parent_node.children (index + 1)).key))
      else ok true

  unfoldable pub answered : Tree K → Run Bool → Run (Bool × Tree K)
  answered t fault = fault
  answered t (ok b) = ok (b, t)

module _ {ℓ} {K : Type ℓ} (env : Env K) where
  -- The part of `validate` about the parent.
  unfoldable pub in_parent : Tree K → ℕ → (ℕ → K) → ℕ → Option ℕ → Run (Bool × Tree K)
  unfolding pin unpin on_fetch beside answered value_index
  in_parent t this key_at first none = ok (true, t)
  in_parent t this key_at first (some p) =
      let t' = pin t p in
      let parent_node = node_at t' p in
      let size = (node_at t' this).key_num in
      on_fetch (env.fetch p)
        (answered (unpin t' p)
          (beside env.comparator key_at first size parent_node (value_index parent_node this)))
        (λ rc. ok (false, t))

  -- LeafIndexNodeHandler::validate
  unfoldable pub validate_leaf : Tree K → ℕ → Run (Bool × Tree K)
  unfolding Node.validate keys_rise in_parent
  validate_leaf t this =
      let node = node_at t this in
      let key_at : ℕ → K = λ i. (node.items i).key in
      if Node.validate node && keys_rise env.comparator key_at 1 (node.key_num - 1)
      then in_parent t this key_at 0 node.parent
      else ok (false, t)

  -- The loop over the children: one that can be fetched knows its parent. A child's page number is
  -- not negative here.
  unfoldable pub children_know : ℕ → (ℕ → ℕ) → ℕ → ℕ → Tree K → Bool × Tree K
  unfolding pin unpin on_fetch is_page
  children_know this value_at i zero t = (true, t)
  children_know this value_at i (suc n) t =
      let page_num = value_at i in
      let knows =
        on_fetch (env.fetch page_num)
          (is_page (node_at (pin t page_num) page_num).parent (some this)) (λ rc. true) in
      let t' = on_fetch (env.fetch page_num) (unpin (pin t page_num) page_num) (λ rc. t) in
      let rest = children_know this value_at (i + 1) n t' in if knows then rest else (false, t')

  -- InternalIndexNodeHandler::validate
  unfoldable pub validate_inner : Tree K → ℕ → Run (Bool × Tree K)
  unfolding Node.validate keys_rise children_know in_parent
  validate_inner t this =
      let node = node_at t this in
      let key_at : ℕ → K = λ i. (node.children i).key in
      let r = children_know this (λ i. (node.children i).value) 0 node.key_num t in
      if Node.validate node && keys_rise env.comparator key_at 2 (node.key_num - 2)
      then if r.0 then in_parent r.1 this key_at 1 node.parent else ok (false, r.1)
      else ok (false, t)

  -- What follows a validation that says true.
  unfoldable pub if_valid :
      Option (Run (Bool × Tree K))
      → (Tree K → Option (Run (Bool × Tree K)))
      → Option (Run (Bool × Tree K))
  if_valid (some (ok (true, t))) next = next t
  if_valid r next = r

  unfoldable pub pin_released : ℕ → Option (Run (Bool × Tree K)) → Option (Run (Bool × Tree K))
  unfolding unpin
  pin_released this (some (ok (b, t))) = some (ok (b, unpin t this))
  pin_released this r = r

  -- The loop of validate_node_recursive.
  unfoldable pub validate_children :
      (Tree K → ℕ → Option (Run (Bool × Tree K)))
      → (ℕ → ℕ)
      → ℕ
      → ℕ
      → Tree K
      → Option (Run (Bool × Tree K))
  unfolding pin on_fetch if_valid
  validate_children recurse value_at i zero t = some (ok (true, t))
  validate_children recurse value_at i (suc n) t =
      let page_num = value_at i in
      on_fetch (env.fetch page_num)
        (if_valid (recurse (pin t page_num) page_num)
          (λ t'. validate_children recurse value_at (i + 1) n t'))
        (λ rc. some (ok (false, t)))

  -- On fuel, with the frame pinned.
  unfoldable pub validate_node_recursive : ℕ → Tree K → ℕ → Option (Run (Bool × Tree K))
  unfolding validate_leaf validate_inner if_valid validate_children pin_released
  validate_node_recursive zero t this = none
  validate_node_recursive (suc fuel) t this =
      let node = node_at t this in
      pin_released this (
        if node.is_leaf
        then some (validate_leaf t this)
        else if_valid (some (validate_inner t this)) (λ t'.
          validate_children (λ s p. validate_node_recursive fuel s p) (λ i. (node.children i).value)
            0 node.key_num t'))

  -- The loop of validate_leaf_link, on fuel, from the next page on.
  unfoldable pub link_loop : ℕ → Tree K → ℕ → K → Option ℕ → Option (Run (Bool × Tree K))
  unfolding pin unpin on_fetch if_valid is_page is_less
  link_loop zero t prev_page_num prev_key next_page_num = none
  link_loop (suc fuel) t prev_page_num prev_key none = some (ok (true, t))
  link_loop (suc fuel) t prev_page_num prev_key (some n) =
      let fetched = pin t n in
      let leaf_node = node_at fetched n in
      let result =
        is_page leaf_node.prev_brother (some prev_page_num)
        && is_less (env.comparator prev_key (leaf_node.items 0).key) in
      let last = (leaf_node.items (leaf_node.key_num - 1)).key in
      on_fetch (env.fetch n)
        (if leaf_node.key_num == 0
          then some fault
          else if_valid (some (ok (result, unpin fetched n)))
              (λ t'. link_loop fuel t' n last leaf_node.next_brother))
        (λ rc. some (ok (false, t)))

  -- Behind the search for the leftmost leaf: the leaf keeps its pin where it has a leaf before it.
  unfoldable pub linked_from : ℕ → Option (Rc × Option ℕ × Tree K) → Option (Run (Bool × Tree K))
  unfolding unpin is_page link_loop
  linked_from fuel none = none
  linked_from fuel (some (success, some n, t)) =
      let leaf_node = node_at t n in
      let rest =
        link_loop fuel (unpin t n) n (leaf_node.items (leaf_node.key_num - 1)).key
          leaf_node.next_brother in
      if not (is_page leaf_node.prev_brother none)
      then some (ok (false, t))
      else if leaf_node.key_num == 0
      then some fault
      else rest
  linked_from fuel (some (rc, n, t)) = some (ok (false, t))

  unfoldable pub validate_leaf_link : ℕ → Tree K → Option (Run (Bool × Tree K))
  unfolding left_most_page linked_from is_page
  validate_leaf_link fuel t =
      let rest = linked_from fuel (left_most_page env fuel t) in
      if is_page t.file_header.root_page none then some (ok (true, t)) else rest

  unfoldable pub validate_tree : ℕ → Tree K → Option (Run (Bool × Tree K))
  unfolding pin on_fetch if_valid validate_node_recursive validate_leaf_link
  validate_tree fuel t = elim t.file_header.root_page [
    | none ↦ some (ok (true, t))
    | some root ↦
        on_fetch (env.fetch root)
          (if_valid (validate_node_recursive fuel (pin t root) root)
            (λ t'. validate_leaf_link fuel t'))
          (λ rc. some (ok (true, t)))
  ]
