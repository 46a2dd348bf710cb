-- ===== src/Index/Tree.antt =====
-- BplusTreeHandler of storage/index/bplus_tree.cpp: the tree over the frames of its file, the search
-- for a leaf and the nodes' operations that reach their children. The buffer pool is an interface
-- here: which pages can be fetched, and what allocate_page answers. A page is named by its number.
pub mod Nodes
pub mod Search
pub mod Write
pub mod Keep
pub mod Grow
pub mod Shrink
use oceanbase_jp.Prelude.{
  ℕ, zero, suc, ◌+◌, ◌-◌, ◌/◌, Bool, true, false, Option, none, some, List, ◌==◌, if◌then◌else◌,
}
use oceanbase_jp.Rc.{Rc, success, empty}
use oceanbase_jp.Lang.LowerBound.{Sign}
use oceanbase_jp.Index.Array.{move_items}
use oceanbase_jp.Index.Node.{IndexFileHeader, Item, Node, clear_page}
use oceanbase_jp.Index.Internal

pub record Frame {ℓ} (K : Type ℓ) : Type ℓ where
  pub node : Node K
  pub dirty : Bool
  pub pin_count : ℕ

-- The handler, `root_page` in the header page, the frames of the pages, and the pages that were
-- given to dispose_page, the last one first.
pub record Tree {ℓ} (K : Type ℓ) : Type ℓ where
  pub file_header : IndexFileHeader
  pub stored_root : Option ℕ
  pub frames : ℕ → Frame K
  pub disposed : List ℕ

-- What the handler uses: the comparison of keys, the key of zeros, the code of get_this_page for
-- each page, and what allocate_page answers to a tree.
pub record Env {ℓ} (K : Type ℓ) : Type ℓ where
  pub comparator : K → K → Sign
  pub zero_key : K
  pub fetch : ℕ → Rc
  pub allocate : Tree K → Rc × ℕ

-- What follows a fetch, and what follows its failure.
unfoldable pub on_fetch {ℓ} : {A : Type ℓ} → Rc → A → (Rc → A) → A
on_fetch success next failed = next
on_fetch rc next failed = failed rc

-- FIRST_INDEX_PAGE
abbrev pub first_index_page : ℕ
first_index_page = 1

module _ {ℓ} {K : Type ℓ} where
  abbrev pub node_at : Tree K → ℕ → Node K
  node_at t n = (t.frames n).node

  unfoldable pub set_frame : Tree K → ℕ → Frame K → Tree K
  set_frame t n f = record t { frames = λ i. if i == n then f else t.frames i }

  unfoldable pub put_node : Tree K → ℕ → Node K → Tree K
  unfolding set_frame
  put_node t n node = set_frame t n (record (t.frames n) { node = node })

  unfoldable pub mark_dirty : Tree K → ℕ → Tree K
  unfolding set_frame
  mark_dirty t n = set_frame t n (record (t.frames n) { dirty = true })

  -- get_this_page on a page that can be fetched.
  unfoldable pub pin : Tree K → ℕ → Tree K
  unfolding set_frame
  pin t n = set_frame t n (record (t.frames n) { pin_count = (t.frames n).pin_count + 1 })

  -- unpin_page
  unfoldable pub unpin : Tree K → ℕ → Tree K
  unfolding set_frame
  unpin t n = set_frame t n (record (t.frames n) { pin_count = (t.frames n).pin_count - 1 })

  abbrev pub set_root : Tree K → Option ℕ → Tree K
  set_root t root = record t { file_header = record t.file_header { root_page = root } }

  -- An early return where a call fails.
  unfoldable pub and_then : Rc × Tree K → (Tree K → Rc × Tree K) → Rc × Tree K
  and_then (success, t) rest = rest t
  and_then (rc, t) rest = (rc, t)

  -- increase_size, by a number that is not negative or is not positive.
  abbrev pub increased : Tree K → ℕ → ℕ → Tree K
  increased t this num =
      put_node t this (record (node_at t this) { key_num = (node_at t this).key_num + num })

  abbrev pub decreased : Tree K → ℕ → ℕ → Tree K
  decreased t this num =
      put_node t this (record (node_at t this) { key_num = (node_at t this).key_num - num })

  -- What follows the fetch of a frame: the rest of the search, or the failure.
  unfoldable pub followed :
      Option (Rc × Option ℕ × Tree K) → Rc → Tree K → Option (Rc × Option ℕ × Tree K)
  followed rest success t = rest
  followed rest rc t = some (rc, none, t)

module _ {ℓ} {K : Type ℓ} (env : Env K) where
  -- The frame of a page that allocate_page gives.
  unfoldable pub allocated : Tree K → ℕ → Tree K
  unfolding set_frame clear_page
  allocated t n =
      set_frame t n (record { node = clear_page env.zero_key; dirty = false; pin_count = 1 })

  -- The loop of find_leaf_internal, on fuel: the page is that of the frame, or none where the frame
  -- could not be fetched.
  unfoldable pub find_loop : (Node K → ℕ) → ℕ → Tree K → ℕ → Option (Rc × Option ℕ × Tree K)
  unfolding pin unpin followed
  find_loop child_page_getter zero t n = none
  find_loop child_page_getter (suc fuel) t n =
      let page_num = child_page_getter (node_at t n) in
      let t' = unpin t n in
      let rest = find_loop child_page_getter fuel (pin t' page_num) page_num in
      if (node_at t n).is_leaf
      then some (success, some n, t)
      else followed rest (env.fetch page_num) t'

  unfoldable pub find_from : (Node K → ℕ) → ℕ → Tree K → Option ℕ → Option (Rc × Option ℕ × Tree K)
  unfolding find_loop pin followed
  find_from child_page_getter fuel t none = some (empty, none, t)
  find_from child_page_getter fuel t (some root) =
      followed (find_loop child_page_getter fuel (pin t root) root) (env.fetch root) t

  unfoldable pub find_leaf_internal : (Node K → ℕ) → ℕ → Tree K → Option (Rc × Option ℕ × Tree K)
  unfolding find_from
  find_leaf_internal child_page_getter fuel t =
      find_from child_page_getter fuel t t.file_header.root_page

  abbrev pub child_for : K → Node K → ℕ
  child_for key node = (node.children (Internal.lookup env.comparator node key).child).value

  unfoldable pub find_leaf : K → ℕ → Tree K → Option (Rc × Option ℕ × Tree K)
  unfolding find_leaf_internal Internal.lookup
  find_leaf key = find_leaf_internal (child_for key)

  unfoldable pub left_most_page : ℕ → Tree K → Option (Rc × Option ℕ × Tree K)
  unfolding find_leaf_internal
  left_most_page = find_leaf_internal λ node. (node.children 0).value

  unfoldable pub right_most_page : ℕ → Tree K → Option (Rc × Option ℕ × Tree K)
  unfolding find_leaf_internal
  right_most_page = find_leaf_internal λ node. (node.children (node.key_num - 1)).value

  -- The failure of the fetch is returned, and not looked at by the callers.
  unfoldable pub update_root_page_num : Tree K → Rc × Tree K
  unfolding mark_dirty pin unpin
  update_root_page_num t = elim (env.fetch first_index_page) [
    | success ↦ (
      success,
      unpin
          (mark_dirty (record (pin t first_index_page) { stored_root = t.file_header.root_page })
            first_index_page)
          first_index_page,
    )
    | rc ↦ (rc, t)
  ]

  -- The loop of copy_from: the parents of the children that came, from the index on and by their
  -- number.
  unfoldable pub adopt : (ℕ → Item K ℕ) → ℕ → ℕ → ℕ → Tree K → Rc × Tree K
  unfolding mark_dirty pin unpin put_node
  adopt items this i zero t = (success, t)
  adopt items this i (suc num) t =
      let page_num = (items i).value in
      let fetched = pin t page_num in
      let child = record (node_at fetched page_num) { parent = some this } in
      let t' = unpin (mark_dirty (put_node fetched page_num child) page_num) page_num in
      let rest = adopt items this (i + 1) num t' in
      elim (env.fetch page_num) [ success ↦ rest | rc ↦ (rc, t) ]

  -- InternalIndexNodeHandler::copy_from: the items from an index on go behind those of this page.
  unfoldable pub copy_from : Tree K → ℕ → (ℕ → Item K ℕ) → ℕ → ℕ → Rc × Tree K
  unfolding adopt move_items put_node and_then
  copy_from t this items i num =
      let node = node_at t this in
      let copied = record node { children = move_items node.children node.key_num items i num } in
      and_then (adopt items this i num (put_node t this copied))
        (λ t'. (success, increased t' this num))

  -- InternalIndexNodeHandler::move_half_to, to the page `other`.
  unfoldable pub move_half_to : Tree K → ℕ → ℕ → Rc × Tree K
  unfolding copy_from put_node and_then
  move_half_to t this other =
      let size = (node_at t this).key_num in
      let move_index = size / 2 in
      and_then (copy_from t other (node_at t this).children move_index (size - move_index))
        (λ t'. (success, decreased t' this (size - move_index)))
