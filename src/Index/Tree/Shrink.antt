-- ===== src/Index/Tree/Shrink.antt =====
-- A search tree in one leaf of which a key is removed.
use oceanbase_jp.Prelude.{ℕ, zero, suc, ◌<◌, ◌≡◌, ◌≢◌, ◌↔◌, refl, sym, ◌∙◌, subst, true, ℕ_discrete}
use oceanbase_jp.Rc.{success}
use oceanbase_jp.Lang.LowerBound.{equal}
use oceanbase_jp.Index.Key.{IsOrder}
use oceanbase_jp.Index.Leaf.Order
use oceanbase_jp.Index.Internal.{lookup}
use oceanbase_jp.Index.Internal.Order.{lookup-IsPlace}
use oceanbase_jp.Index.Tree.{Tree, Env, node_at}
use oceanbase_jp.Index.Tree.Keep.{
  child_at, LeafBelow, IsApart, Under, Trees, inner_same, keys_kept, IsInner-kept, tree_kept,
  leaf_for-LeafBelow,
}
use oceanbase_jp.Index.Tree.Search.{HasBelow, IsInner, IsSearchTree, leaf_for, only_child}

module _ {ℓ} {K : Type ℓ} (env : Env K) (t t' : Tree K) (leaf : ℕ)
    (is_leaf : (node_at t leaf).is_leaf ≡ true)
    (others : (m : ℕ) → m ≢ leaf → node_at t' m ≡ node_at t m) (order : IsOrder env.comparator)
    (key : K) (still : (node_at t' leaf).is_leaf ≡ true)
    (ordered : Order.IsOrdered env.comparator (node_at t' leaf))
    (loss : (k : K)
      → Order.Has env.comparator (node_at t' leaf) k
        ↔ (Order.Has env.comparator (node_at t leaf) k × (¬ (env.comparator key k ≡ equal)))) where
  -- A key stands where an equal one does.
  equal_below :
      (h p : ℕ) (k : K)
      → env.comparator key k ≡ equal
      → HasBelow env t h p k
      → HasBelow env t h p key
  equal_below zero p k e x = (
    x.0,
    x.1,
    order.equal_equal ((node_at t p).items x.0).key k key x.2 (order.flip_equal key k e),
  )
  equal_below (suc h) p k e x = (x.0, x.1, equal_below h (child_at t p x.0) k e x.2)

  abbrev Shrunk : ℕ → ℕ → Type ℓ
  Shrunk h p =
      IsSearchTree env t' h p
      × ((k : K)
          → HasBelow env t' h p k ↔ (HasBelow env t h p k × (¬ (env.comparator key k ≡ equal))))

  module _ (h p c : ℕ) (inner : IsInner env t h p)
      (sub : (i : ℕ) → i < (node_at t p).key_num → IsSearchTree env t h (child_at t p i))
      (away : (i : ℕ) → i < (node_at t p).key_num → i ≢ c → ¬ LeafBelow t h (child_at t p i) leaf)
      (chosen : c ≡ (lookup env.comparator (node_at t p) key).child)
      (below : Shrunk h (child_at t p c)) where
    new_at :
        (i : ℕ) (k : K)
        → i < (node_at t p).key_num
        → HasBelow env t' h (child_at t p i) k
        → HasBelow env t h (child_at t p i) k × (¬ (env.comparator key k ≡ equal))
    new_at i k l x = elim (ℕ_discrete i c) [
      | no d ↦
          let y =
            (keys_kept env t t' leaf is_leaf others h (child_at t p i) (sub i l) (away i l d) k).0
              x in
          (
            y,
            λ e. d (
                only_child env t order key h p inner i l (equal_below h (child_at t p i) k e y)
                ∙ sym chosen),
          )
      | yes e ↦
          subst (λ j. HasBelow env t h (child_at t p j) k × (¬ (env.comparator key k ≡ equal)))
            (sym e) ((below.1 k).0 (subst (λ j. HasBelow env t' h (child_at t p j) k) e x))
    ]

    old_at :
        (i : ℕ) (k : K)
        → i < (node_at t p).key_num
        → HasBelow env t h (child_at t p i) k
        → ¬ (env.comparator key k ≡ equal)
        → HasBelow env t' h (child_at t p i) k
    old_at i k l x n = elim (ℕ_discrete i c) [
      | no d ↦
          (keys_kept env t t' leaf is_leaf others h (child_at t p i) (sub i l) (away i l d) k).1 x
      | yes e ↦
          subst (λ j. HasBelow env t' h (child_at t p j) k) (sym e)
            ((below.1 k).1 (subst (λ j. HasBelow env t h (child_at t p j) k) e x, n))
    ]

    tree_at : (i : ℕ) → i < (node_at t p).key_num → IsSearchTree env t' h (child_at t p i)
    tree_at i l = elim (ℕ_discrete i c) [
      | no d ↦ tree_kept env t t' leaf is_leaf others h (child_at t p i) (sub i l) (away i l d)
      | yes e ↦ subst (λ j. IsSearchTree env t' h (child_at t p j)) (sym e) below.0
    ]

    Shrunk-step : Shrunk (suc h) p
    Shrunk-step =
        let same = sym (inner_same env t t' leaf is_leaf others h p inner) in
        (
          (
            IsInner-kept env t t' leaf is_leaf others h p inner
                (λ i k l x. inner.separates i k l (new_at i k l x).0),
            subst (Trees env t' h) same tree_at,
          ),
          λ k.
              subst
                (λ n.
                  Under env t' h n k
                  ↔ (Under env t h (node_at t p) k × (¬ (env.comparator key k ≡ equal))))
                same
                (
                  λ x. ((x.0, x.1, (new_at x.0 k x.1 x.2).0), (new_at x.0 k x.1 x.2).1),
                  λ x. (x.0.0, x.0.1, old_at x.0.0 k x.0.1 x.0.2 x.1),
                ),
        )

  -- If the leaf for a key loses that key, so does the tree, which stays a search tree.
  pub shrunk :
      (h p : ℕ)
      → IsSearchTree env t h p
      → IsApart t h p
      → leaf ≡ leaf_for env t key h p
      → Shrunk h p
  shrunk zero p s a e = subst (Shrunk 0) e (
    record {
      fetched = subst (λ x. env.fetch x ≡ success) (sym e) s.fetched;
      is_leaf = still;
      ordered = ordered;
    },
    loss,
  )
  shrunk (suc h) p s a e =
      let q = lookup-IsPlace env.comparator order (node_at t p) key s.0.ordered s.0.has_child in
      let c = (lookup env.comparator (node_at t p) key).child in
      let sub = s.1 c q.child_upto in
      let here : LeafBelow t h (child_at t p c) leaf =
        subst (LeafBelow t h (child_at t p c)) (sym e)
          (leaf_for-LeafBelow env t order key h (child_at t p c) sub) in
      Shrunk-step h p c s.0 s.1 (λ i l d b. d (a.0 leaf i c l q.child_upto b here)) refl
        (shrunk h (child_at t p c) sub (a.1 c q.child_upto) e)
