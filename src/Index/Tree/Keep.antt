-- ===== src/Index/Tree/Keep.antt =====
-- A search tree one leaf of which changes: the rest of it stays.
use oceanbase_jp.Prelude.{
  ℕ, zero, suc, ◌≤◌, ◌<◌, ◌≡◌, ◌≢◌, ◌↔◌, refl, sym, ap, ◌∙◌, subst, true, false,
}
use oceanbase_jp.Lang.LowerBound.{greater}
use oceanbase_jp.Index.Key.{IsOrder}
use oceanbase_jp.Index.Node.{Node}
use oceanbase_jp.Index.Leaf.Order
use oceanbase_jp.Index.Internal.{lookup}
use oceanbase_jp.Index.Internal.Order.{IsOrderedInner, lookup-IsPlace}
use oceanbase_jp.Index.Tree.{Tree, Env, node_at}
use oceanbase_jp.Index.Tree.Search.{HasBelow, IsInner, IsSearchTree, leaf_for}

module _ {ℓ} {K : Type ℓ} (t : Tree K) where
  abbrev pub child_at : ℕ → ℕ → ℕ
  child_at p i = ((node_at t p).children i).value

  -- A page is that of a leaf below another page.
  abbrev pub LeafBelow : ℕ → ℕ → ℕ → Type 0
  LeafBelow zero p leaf = leaf ≡ p
  LeafBelow (suc h) p leaf = (i : ℕ) × (i < (node_at t p).key_num) × LeafBelow h (child_at p i) leaf

  -- No leaf stands below two children of a page.
  abbrev pub IsApart : ℕ → ℕ → Type 0
  IsApart zero p = Unit
  IsApart (suc h) p =
      ((leaf i j : ℕ)
        → i < (node_at t p).key_num
        → j < (node_at t p).key_num
        → LeafBelow h (child_at p i) leaf
        → LeafBelow h (child_at p j) leaf
        → i ≡ j)
      × ((i : ℕ) → i < (node_at t p).key_num → IsApart h (child_at p i))

module _ {ℓ} {K : Type ℓ} (env : Env K) where
  -- The keys below the children of a node.
  abbrev pub Under : Tree K → ℕ → Node K → K → Type 0
  Under tree h node k = (i : ℕ) × (i < node.key_num) × HasBelow env tree h (node.children i).value k

  -- A key stands between those of a node around a child.
  abbrev pub Between : Node K → ℕ → K → Type 0
  Between node i key =
      ((j : ℕ) → 1 ≤ j → j ≤ i → env.comparator (node.children j).key key ≢ greater)
      × ((j : ℕ) → i < j → j < node.key_num → env.comparator (node.children j).key key ≡ greater)

  abbrev pub Trees : Tree K → ℕ → Node K → Type ℓ
  Trees tree h node = (i : ℕ) → i < node.key_num → IsSearchTree env tree h (node.children i).value

module _ {ℓ} {K : Type ℓ} (env : Env K) (t : Tree K) (order : IsOrder env.comparator)
    (key : K) where
  -- The leaf for a key stands below the page.
  pub leaf_for-LeafBelow :
      (h p : ℕ) → IsSearchTree env t h p → LeafBelow t h p (leaf_for env t key h p)
  leaf_for-LeafBelow zero p s = refl
  leaf_for-LeafBelow (suc h) p s =
      let q = lookup-IsPlace env.comparator order (node_at t p) key s.0.ordered s.0.has_child in
      let c = (lookup env.comparator (node_at t p) key).child in
      (c, q.child_upto, leaf_for-LeafBelow h (child_at t p c) (s.1 c q.child_upto))

module _ {ℓ} {K : Type ℓ} (env : Env K) (t t' : Tree K) (leaf : ℕ)
    (is_leaf : (node_at t leaf).is_leaf ≡ true)
    (others : (m : ℕ) → m ≢ leaf → node_at t' m ≡ node_at t m) where
  pub inner_same : (h p : ℕ) → IsInner env t h p → node_at t' p ≡ node_at t p
  inner_same h p s =
      others p (λ e. absurd (clash (sym s.is_inner ∙ ap (λ m. (node_at t m).is_leaf) e ∙ is_leaf)))
    where
      clash : false ≡ true → ⊥
      clash e = cc

  abbrev pub OldKeys : ℕ → ℕ → K → Type 0
  OldKeys h p k = HasBelow env t' h p k ↔ HasBelow env t h p k

  pub keys_kept :
      (h p : ℕ) → IsSearchTree env t h p → ¬ LeafBelow t h p leaf → (k : K) → OldKeys h p k
  keys_kept zero p s away k =
      subst (λ n. Order.Has env.comparator n k ↔ Order.Has env.comparator (node_at t p) k)
        (sym (others p (λ e. away (sym e)))) (λ x. x, λ x. x)
  keys_kept (suc h) p s away k =
      subst (λ n. Under env t' h n k ↔ Under env t h (node_at t p) k) (sym (inner_same h p s.0))
        (
          λ x. (
            x.0,
            x.1,
            (keys_kept h (child_at t p x.0) (s.1 x.0 x.1) (λ b. away (x.0, x.1, b)) k).0 x.2,
          ),
          λ x. (
            x.0,
            x.1,
            (keys_kept h (child_at t p x.0) (s.1 x.0 x.1) (λ b. away (x.0, x.1, b)) k).1 x.2,
          ),
        )

  pub IsInner-kept :
      (h p : ℕ)
      → IsInner env t h p
      → ((i : ℕ) (key : K)
          → i < (node_at t p).key_num
          → HasBelow env t' h (child_at t p i) key
          → Between env (node_at t p) i key)
      → IsInner env t' h p
  IsInner-kept h p s between =
      let e = sym (inner_same h p s) in
      record {
        fetched = s.fetched;
        is_inner = subst (λ (n : Node K). n.is_leaf ≡ false) e s.is_inner;
        has_child = subst (λ (n : Node K). 1 ≤ n.key_num) e s.has_child;
        ordered = subst (λ n. IsOrderedInner env.comparator n) e s.ordered;
        separates =
            subst
              (λ n.
                (i : ℕ) (key : K)
                → i < n.key_num
                → HasBelow env t' h (n.children i).value key
                → Between env n i key)
              e between;
      }

  pub tree_kept :
      (h p : ℕ) → IsSearchTree env t h p → ¬ LeafBelow t h p leaf → IsSearchTree env t' h p
  tree_kept zero p s away =
      let e = sym (others p (λ q. away (sym q))) in
      record {
        fetched = s.fetched;
        is_leaf = subst (λ (n : Node K). n.is_leaf ≡ true) e s.is_leaf;
        ordered = subst (λ n. Order.IsOrdered env.comparator n) e s.ordered;
      }
  tree_kept (suc h) p s away = (
    IsInner-kept h p s.0 (λ i key l x.
        s.0.separates i key l
          ((keys_kept h (child_at t p i) (s.1 i l) (λ b. away (i, l, b)) key).0 x)),
    subst (Trees env t' h) (sym (inner_same h p s.0))
        (λ i l. tree_kept h (child_at t p i) (s.1 i l) (λ b. away (i, l, b))),
  )

  abbrev LeafUnder : Tree K → ℕ → Node K → ℕ → Type 0
  LeafUnder tree h node x =
      (i : ℕ) × (i < node.key_num) × LeafBelow tree h (node.children i).value x

  leaves_kept :
      (h p : ℕ) → IsSearchTree env t h p → (x : ℕ) → LeafBelow t' h p x ↔ LeafBelow t h p x
  leaves_kept zero p s x = (λ e. e, λ e. e)
  leaves_kept (suc h) p s x =
      subst (λ n. LeafUnder t' h n x ↔ LeafUnder t h (node_at t p) x) (sym (inner_same h p s.0))
        (
          λ b. (b.0, b.1, (leaves_kept h (child_at t p b.0) (s.1 b.0 b.1) x).0 b.2),
          λ b. (b.0, b.1, (leaves_kept h (child_at t p b.0) (s.1 b.0 b.1) x).1 b.2),
        )

  abbrev ApartUnder : ℕ → Node K → Type 0
  ApartUnder h node =
      ((x i j : ℕ)
        → i < node.key_num
        → j < node.key_num
        → LeafBelow t' h (node.children i).value x
        → LeafBelow t' h (node.children j).value x
        → i ≡ j)
      × ((i : ℕ) → i < node.key_num → IsApart t' h (node.children i).value)

  pub IsApart-kept : (h p : ℕ) → IsSearchTree env t h p → IsApart t h p → IsApart t' h p
  IsApart-kept zero p s a = tt
  IsApart-kept (suc h) p s a = subst (ApartUnder h) (sym (inner_same h p s.0)) (
    λ x i j l m b c.
        a.0 x i j l m ((leaves_kept h (child_at t p i) (s.1 i l) x).0 b)
          ((leaves_kept h (child_at t p j) (s.1 j m) x).0 c),
    λ i l. IsApart-kept h (child_at t p i) (s.1 i l) (a.1 i l),
  )
