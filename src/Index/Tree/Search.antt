-- ===== src/Index/Tree/Search.antt =====
-- The search for a leaf in a tree whose inner nodes separate the keys below them.
use oceanbase_jp.Prelude.{
  ℕ, zero, suc, ◌+◌, ◌-◌, ◌≤◌, ◌<◌, ◌≡◌, ◌≢◌, ◌↔◌, refl, ap, ◌∙◌, subst, fun_ext, true, false,
  Option, some, arith, ◌==◌, if◌then◌else◌, ℕ_discrete, dec_lt,
}
use oceanbase_jp.Rc.{Rc, success}
use oceanbase_jp.Lang.LowerBound.{greater}
use oceanbase_jp.Index.Key.{IsOrder}
use oceanbase_jp.Index.Node.{Node}
use oceanbase_jp.Index.Leaf.Order
use oceanbase_jp.Index.Internal.{lookup}
use oceanbase_jp.Index.Internal.Order.{IsOrderedInner, lookup-IsPlace}
use oceanbase_jp.Index.Tree.{
  Tree, Env, node_at, set_frame, pin, unpin, followed, find_loop, find_from, find_leaf_internal,
  find_leaf, child_for,
}

module _ {ℓ} {K : Type ℓ} where
  pub unpin-pin : (t : Tree K) (n : ℕ) → unpin (pin t n) n ≡ t
  unfolding unpin pin set_frame
  unpin-pin t n = λ i. record t { frames = frames_same i }
    where
      restored : record (t.frames n) { pin_count = (t.frames n).pin_count + 1 - 1 } ≡ t.frames n
      restored =
          ap (λ p. record (t.frames n) { pin_count = p }) {x = (t.frames n).pin_count + 1 - 1}
            (omega arith)

      one : (m : ℕ) → (unpin (pin t n) n).frames m ≡ t.frames m
      one m = elim (ℕ_discrete m n) [
        | yes e ↦ let same : (n == n) ≡ true = ground arith in rw (e, same) restored
        | no q ↦ ground arith
      ]

      frames_same : (unpin (pin t n) n).frames ≡ t.frames
      frames_same = fun_ext one

  pub node_at-pin : (t : Tree K) (n m : ℕ) → node_at (pin t n) m ≡ node_at t m
  unfolding pin set_frame
  node_at-pin t n m = ground arith

module _ {ℓ} {K : Type ℓ} (env : Env K) (t : Tree K) where
  abbrev child_at : ℕ → ℕ → ℕ
  child_at p i = ((node_at t p).children i).value

  -- A key stands in a leaf below a page, by the height of the page.
  abbrev pub HasBelow : ℕ → ℕ → K → Type 0
  HasBelow zero p key = Order.Has env.comparator (node_at t p) key
  HasBelow (suc h) p key = (i : ℕ) × (i < (node_at t p).key_num) × HasBelow h (child_at p i) key

  -- The keys of an inner node stand between those below its children.
  abbrev pub Separates : ℕ → ℕ → Type ℓ
  Separates h p =
      (i : ℕ) (key : K)
      → i < (node_at t p).key_num
      → HasBelow h (child_at p i) key
      → ((j : ℕ) → 1 ≤ j → j ≤ i → env.comparator ((node_at t p).children j).key key ≢ greater)
        × ((j : ℕ)
            → i < j
            → j < (node_at t p).key_num
            → env.comparator ((node_at t p).children j).key key ≡ greater)

  pub record IsLeaf (p : ℕ) : Type ℓ where
    pub fetched : env.fetch p ≡ success
    pub is_leaf : (node_at t p).is_leaf ≡ true
    pub ordered : Order.IsOrdered env.comparator (node_at t p)

  pub record IsInner (h p : ℕ) : Type ℓ where
    pub fetched : env.fetch p ≡ success
    pub is_inner : (node_at t p).is_leaf ≡ false
    pub has_child : 1 ≤ (node_at t p).key_num
    pub ordered : IsOrderedInner env.comparator (node_at t p)
    pub separates : Separates h p

  -- A search tree of a height, whose pages can be fetched.
  abbrev pub IsSearchTree : ℕ → ℕ → Type ℓ
  IsSearchTree zero p = IsLeaf p
  IsSearchTree (suc h) p =
      IsInner h p × ((i : ℕ) → i < (node_at t p).key_num → IsSearchTree h (child_at p i))

  -- The leaf to which the choice of `lookup` leads.
  abbrev pub leaf_for : K → ℕ → ℕ → ℕ
  leaf_for key zero p = p
  leaf_for key (suc h) p = leaf_for key h (child_for env key (node_at t p))

  -- Where the search for a key from a page ends.
  pub record IsLeafFor (h p : ℕ) (key : K) (leaf : ℕ) : Type ℓ where
    pub at : leaf ≡ leaf_for key h p
    pub fetched : env.fetch leaf ≡ success
    pub is_leaf : (node_at t leaf).is_leaf ≡ true
    pub ordered : Order.IsOrdered env.comparator (node_at t leaf)
    pub exact : HasBelow h p key ↔ Order.Has env.comparator (node_at t leaf) key

  tree-fetch : (h p : ℕ) → IsSearchTree h p → env.fetch p ≡ success
  tree-fetch zero p s = s.fetched
  tree-fetch (suc h) p s = s.0.fetched

  module _ (order : IsOrder env.comparator) (key : K) where
    -- Only the child that `lookup` chooses can have the key below it.
    pub only_child :
        (h p : ℕ)
        → IsInner h p
        → (i : ℕ) → i < (node_at t p).key_num
        → HasBelow h (child_at p i) key
        → i ≡ (lookup env.comparator (node_at t p) key).child
    only_child h p s i l m =
        let q = lookup-IsPlace env.comparator order (node_at t p) key s.ordered s.has_child in
        let c = (lookup env.comparator (node_at t p) key).child in
        let sides = s.separates i key l m in
        let inside = q.child_upto in
        elim (dec_lt i c) [
          | yes fewer ↦ absurd (
              q.upto (i + 1) (omega arith) (omega arith)
                (sides.1 (i + 1) (omega arith) (omega arith)))
          | no first ↦ elim (dec_lt c i) [
            | yes more ↦ absurd (sides.0 i (omega arith) (omega arith) (q.behind i more l))
            | no second ↦ omega arith
          ]
        ]

    leaf_round :
        (f : ℕ) (t' : Tree K) (n : ℕ)
        → (node_at t' n).is_leaf ≡ true
        → find_loop env (child_for env key) (suc f) t' n ≡ some (success, some n, t')
    unfolding find_loop
    leaf_round f t' n e =
        let page_num = child_for env key (node_at t' n) in
        let rest = find_loop env (child_for env key) f (pin (unpin t' n) page_num) page_num in
        let other = followed rest (env.fetch page_num) (unpin t' n) in
        ap (λ b. if b then some (success, some n, t') else other) e

    inner_round :
        (f : ℕ) (t' : Tree K) (n page_num : ℕ)
        → (node_at t' n).is_leaf ≡ false
        → child_for env key (node_at t' n) ≡ page_num
        → env.fetch page_num ≡ success
        → find_loop env (child_for env key) (suc f) t' n
          ≡ find_loop env (child_for env key) f (pin (unpin t' n) page_num) page_num
    unfolding find_loop followed
    inner_round f t' n page_num e c q =
        let t'' = unpin t' n in
        let rest : ℕ → Option (Rc × Option ℕ × Tree K) =
          λ page. find_loop env (child_for env key) f (pin t'' page) page in
        let child = child_for env key (node_at t' n) in
        let other = followed (rest child) (env.fetch child) t'' in
        ap (λ b. if b then some (success, some n, t') else other) e
        ∙ ap (λ page. followed (rest page) (env.fetch page) t'') c
        ∙ ap (λ rc. followed (rest page_num) rc t'') q

    -- The loop goes down to the leaf for the key, and leaves only that leaf with a pin more.
    Ends : ℕ → ℕ → ℕ → Type ℓ
    Ends h p fuel =
        (leaf : ℕ) × (find_loop env (child_for env key) fuel (pin t p) p
          ≡ some (success, some leaf, pin t leaf))
        × IsLeafFor h p key leaf

    below-exact :
        (h p leaf : ℕ)
        → IsInner h p
        → IsLeafFor h (child_for env key (node_at t p)) key leaf
        → HasBelow (suc h) p key ↔ Order.Has env.comparator (node_at t leaf) key
    below-exact h p leaf s g =
        let c = (lookup env.comparator (node_at t p) key).child in
        let q = lookup-IsPlace env.comparator order (node_at t p) key s.ordered s.has_child in
        (
          λ x.
              g.exact.0
                (subst (λ i. HasBelow h (child_at p i) key) (only_child h p s x.0 x.1 x.2) x.2),
          λ x. (c, q.child_upto, g.exact.1 x),
        )

    find_loop-Ends : (h p f : ℕ) → IsSearchTree h p → h ≤ f → Ends h p (suc f)
    unfolding Ends
    find_loop-Ends zero p f s l = (
      p,
      leaf_round f (pin t p) p (ap (λ (x : Node K). x.is_leaf) (node_at-pin t p p) ∙ s.is_leaf),
      record {
        at = refl;
        fetched = s.fetched;
        is_leaf = s.is_leaf;
        ordered = s.ordered;
        exact = (λ x. x, λ x. x);
      },
    )
    find_loop-Ends (suc h) p zero s l = absurd (omega arith)
    find_loop-Ends (suc h) p (suc f) s l =
        let c = child_for env key (node_at t p) in
        let q = lookup-IsPlace env.comparator order (node_at t p) key s.0.ordered s.0.has_child in
        let sub = s.1 (lookup env.comparator (node_at t p) key).child q.child_upto in
        let (leaf, run, good) = find_loop-Ends h c f sub (omega arith) in
        (
          leaf,
          inner_round (suc f) (pin t p) p c
                (ap (λ (x : Node K). x.is_leaf) (node_at-pin t p p) ∙ s.0.is_inner)
                (ap (child_for env key) (node_at-pin t p p)) (tree-fetch h c sub)
              ∙ ap (λ x. find_loop env (child_for env key) (suc f) (pin x c) c) (unpin-pin t p)
              ∙ run,
          record {
            at = good.at;
            fetched = good.fetched;
            is_leaf = good.is_leaf;
            ordered = good.ordered;
            exact = below-exact h p leaf s.0 good;
          },
        )

    -- Where the comparison of keys is an order (IsOrder: each key equals itself, greater is the
    -- reverse of less, and less and equal are transitive across one another),
    -- BplusTreeHandler::find_leaf, from the root of a search tree whose pages can be fetched and
    -- with more fuel than its height, ends and succeeds with an ordered leaf that has the key
    -- exactly if some leaf of the tree has it; only that leaf has one pin more, and nothing else of
    -- the tree changes.
    pub find_leaf-IsLeafFor :
        (h root f : ℕ)
        → t.file_header.root_page ≡ some root
        → IsSearchTree h root
        → h ≤ f
        → (leaf : ℕ) × (find_leaf env key (suc f) t ≡ some (success, some leaf, pin t leaf))
          × IsLeafFor h root key leaf
    unfolding find_leaf find_leaf_internal find_from followed Ends
    find_leaf-IsLeafFor h root f e s l =
        let (leaf, run, good) = find_loop-Ends h root f s l in
        let rest = find_loop env (child_for env key) (suc f) (pin t root) root in
        (
          leaf,
          ap (find_from env (child_for env key) (suc f) t) e
              ∙ ap (λ rc. followed rest rc t) (tree-fetch h root s)
              ∙ run,
          good,
        )
