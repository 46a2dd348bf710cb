-- ===== src/Index/Tree/Grow.antt =====
-- A search tree in one leaf of which keys are added.
use oceanbase_jp.Prelude.{
  ℕ, zero, suc, ◌<◌, ◌≡◌, ◌≢◌, ◌↔◌, ◌⊎◌, inl, inr, sym, subst, true, ℕ_discrete,
}
use oceanbase_jp.Rc.{success}
use oceanbase_jp.Lang.LowerBound.{equal}
use oceanbase_jp.Index.Key.{IsOrder}
use oceanbase_jp.Index.Leaf.Order
use oceanbase_jp.Index.Internal.{lookup}
use oceanbase_jp.Index.Internal.Order.{lookup-IsPlace}
use oceanbase_jp.Index.Tree.{Tree, Env, node_at}
use oceanbase_jp.Index.Tree.Keep.{
  child_at, LeafBelow, IsApart, Under, Between, Trees, inner_same, keys_kept, IsInner-kept,
  tree_kept, leaf_for-LeafBelow,
}
use oceanbase_jp.Index.Tree.Search.{HasBelow, IsInner, IsSearchTree, leaf_for}

module _ {ℓ} {K : Type ℓ} (env : Env K) (t t' : Tree K) (leaf : ℕ)
    (is_leaf : (node_at t leaf).is_leaf ≡ true)
    (others : (m : ℕ) → m ≢ leaf → node_at t' m ≡ node_at t m) where
  module _ (order : IsOrder env.comparator) (key : K) (still : (node_at t' leaf).is_leaf ≡ true)
      (ordered : Order.IsOrdered env.comparator (node_at t' leaf))
      (gain : (k : K)
        → Order.Has env.comparator (node_at t' leaf) k
          ↔ (Order.Has env.comparator (node_at t leaf) k ⊎ (env.comparator key k ≡ equal))) where
    abbrev Grown : ℕ → ℕ → Type ℓ
    Grown h p =
        IsSearchTree env t' h p
        × ((k : K)
            → HasBelow env t' h p k ↔ (HasBelow env t h p k ⊎ (env.comparator key k ≡ equal)))

    module _ (h p c : ℕ) (inner : IsInner env t h p)
        (sub : (i : ℕ) → i < (node_at t p).key_num → IsSearchTree env t h (child_at t p i))
        (inside : c < (node_at t p).key_num)
        (away : (i : ℕ) → i < (node_at t p).key_num → i ≢ c → ¬ LeafBelow t h (child_at t p i) leaf)
        (below : Grown h (child_at t p c))
        (between : (k : K) → env.comparator key k ≡ equal → Between env (node_at t p) c k) where
      keys_at :
          (i : ℕ) (k : K)
          → i < (node_at t p).key_num
          → HasBelow env t' h (child_at t p i) k
          → HasBelow env t h (child_at t p i) k ⊎ ((i ≡ c) × (env.comparator key k ≡ equal))
      keys_at i k l x = elim (ℕ_discrete i c) [
        | no d ↦ inl (
            (keys_kept env t t' leaf is_leaf others h (child_at t p i) (sub i l) (away i l d) k).0
              x)
        | yes e ↦ elim ((below.1 k).0 (subst (λ j. HasBelow env t' h (child_at t p j) k) e x)) [
          | inl y ↦ inl (subst (λ j. HasBelow env t h (child_at t p j) k) (sym e) y)
          | inr q ↦ inr (e, q)
        ]
      ]

      old_at :
          (i : ℕ) (k : K)
          → i < (node_at t p).key_num
          → HasBelow env t h (child_at t p i) k
          → HasBelow env t' h (child_at t p i) k
      old_at i k l x = elim (ℕ_discrete i c) [
        | no d ↦
            (keys_kept env t t' leaf is_leaf others h (child_at t p i) (sub i l) (away i l d) k).1 x
        | yes e ↦
            subst (λ j. HasBelow env t' h (child_at t p j) k) (sym e)
              ((below.1 k).1 (inl (subst (λ j. HasBelow env t h (child_at t p j) k) e x)))
      ]

      tree_at : (i : ℕ) → i < (node_at t p).key_num → IsSearchTree env t' h (child_at t p i)
      tree_at i l = elim (ℕ_discrete i c) [
        | no d ↦ tree_kept env t t' leaf is_leaf others h (child_at t p i) (sub i l) (away i l d)
        | yes e ↦ subst (λ j. IsSearchTree env t' h (child_at t p j)) (sym e) below.0
      ]

      Grown-step : Grown (suc h) p
      Grown-step = (
        (
          IsInner-kept env t t' leaf is_leaf others h p inner (λ i k l x. elim (keys_at i k l x) [
            | inl y ↦ inner.separates i k l y
            | inr y ↦ subst (λ j. Between env (node_at t p) j k) (sym y.0) (between k y.1)
          ]),
          subst (Trees env t' h) (sym (inner_same env t t' leaf is_leaf others h p inner)) tree_at,
        ),
        λ k.
            subst
              (λ n.
                Under env t' h n k
                ↔ (Under env t h (node_at t p) k ⊎ (env.comparator key k ≡ equal)))
              (sym (inner_same env t t' leaf is_leaf others h p inner))
              (
                λ x. elim (keys_at x.0 k x.1 x.2) [ inl y ↦ inl (x.0, x.1, y) | inr y ↦ inr y.1 ],
                λ x. elim x [
                  | inl y ↦ (y.0, y.1, old_at y.0 k y.1 y.2)
                  | inr e ↦ (c, inside, (below.1 k).1 (inr e))
                ],
              ),
      )

    Between-equal :
        (h p : ℕ)
        → IsInner env t h p
        → (k : K) → env.comparator key k ≡ equal
        → Between env (node_at t p) (lookup env.comparator (node_at t p) key).child k
    Between-equal h p s k e =
        let q = lookup-IsPlace env.comparator order (node_at t p) key s.ordered s.has_child in
        let at : ℕ → K = λ j. ((node_at t p).children j).key in
        (
          λ j l m g. q.upto j l m (
              order.flip_less key (at j)
                (order.equal_less key k (at j) e (order.flip_greater (at j) k g))),
          λ j l m. order.flip_less k (at j) (
              order.equal_less k key (at j) (order.flip_equal key k e)
                (order.flip_greater (at j) key (q.behind j l m))),
        )

    -- If the leaf for a key gains that key, so does the tree, which stays a search tree.
    pub grown :
        (h p : ℕ)
        → IsSearchTree env t h p
        → IsApart t h p
        → leaf ≡ leaf_for env t key h p
        → Grown h p
    grown zero p s a e = subst (Grown 0) e (
      record {
        fetched = subst (λ x. env.fetch x ≡ success) (sym e) s.fetched;
        is_leaf = still;
        ordered = ordered;
      },
      gain,
    )
    grown (suc h) p s a e =
        let q = lookup-IsPlace env.comparator order (node_at t p) key s.0.ordered s.0.has_child in
        let c = (lookup env.comparator (node_at t p) key).child in
        let sub = s.1 c q.child_upto in
        let here : LeafBelow t h (child_at t p c) leaf =
          subst (LeafBelow t h (child_at t p c)) (sym e)
            (leaf_for-LeafBelow env t order key h (child_at t p c) sub) in
        Grown-step h p c s.0 s.1 q.child_upto (λ i l d b. d (a.0 leaf i c l q.child_upto b here))
          (grown h (child_at t p c) sub (a.1 c q.child_upto) e) (Between-equal h p s.0)
