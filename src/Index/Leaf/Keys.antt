-- ===== src/Index/Leaf/Keys.antt =====
-- The keys of a leaf before and after an insertion and a removal.
use oceanbase_jp.Prelude.{
  ℕ, ◌+◌, ◌-◌, ◌≤◌, ◌<◌, ◌≡◌, ◌≢◌, ◌⊎◌, ◌↔◌, inl, inr, sym, ap, ◌∙◌, subst, arith, ℕ_discrete,
  dec_lt,
}
use oceanbase_jp.Lang.LowerBound.{Sign, equal, less}
use oceanbase_jp.Record.Page.{Rid}
use oceanbase_jp.Index.Key.{IsOrder}
use oceanbase_jp.Index.Node.{Item, Node}
use oceanbase_jp.Index.Leaf.{insert, remove_at}
use oceanbase_jp.Index.Leaf.Contents.{
  insert_count, insert_before, insert_here, insert_behind, remove_count, remove_before,
  remove_behind,
}
use oceanbase_jp.Index.Leaf.Order.{Has, IsOrdered}

module _ {ℓ} {K : Type ℓ} (comparator : K → K → Sign) where
  module _ (node : Node K) (index : ℕ) (key : K) (value : Rid) (k : K)
      (inside : index ≤ node.key_num) where
    abbrev new_items : ℕ → Item K Rid
    new_items = (insert node index key value).items

    old_of_new :
        Has comparator (insert node index key value) k
        → Has comparator node k ⊎ (comparator key k ≡ equal)
    old_of_new x =
        let bound : x.0 < node.key_num + 1 =
          subst (λ n. x.0 < n) (insert_count node index key value) x.1 in
        elim (dec_lt x.0 index) [
          | yes l ↦ inl (
            x.0,
            omega arith,
            ap (λ y. comparator y.key k) (sym (insert_before node index key value x.0 l)) ∙ x.2,
          )
          | no l ↦ elim (ℕ_discrete x.0 index) [
            | yes e ↦ inr (
                ap (λ y. comparator y k) (sym (insert_here node index key value))
                ∙ subst (λ i. comparator (new_items i).key k ≡ equal) e x.2)
            | no d ↦
                let back : x.0 ≡ x.0 - 1 + 1 = omega arith in
                inl (
                  x.0 - 1,
                  omega arith,
                  ap (λ y. comparator y.key k)
                        (sym (
                          insert_behind node index key value (x.0 - 1) (omega arith) (omega arith)))
                      ∙ subst (λ i. comparator (new_items i).key k ≡ equal) back x.2,
                )
          ]
        ]

    new_of_old : Has comparator node k → Has comparator (insert node index key value) k
    new_of_old x =
        let count = sym (insert_count node index key value) in
        elim (dec_lt x.0 index) [
          | yes l ↦ (
            x.0,
            subst (λ n. x.0 < n) count (omega (arith, x.1)),
            ap (λ y. comparator y.key k) (insert_before node index key value x.0 l) ∙ x.2,
          )
          | no l ↦ (
            x.0 + 1,
            subst (λ n. x.0 + 1 < n) count (omega (arith, x.1)),
            ap (λ y. comparator y.key k) (insert_behind node index key value x.0 (omega arith) x.1)
                ∙ x.2,
          )
        ]

    -- The keys of a leaf after an insertion are those before, and the new one.
    pub insert-Has :
        Has comparator (insert node index key value) k
        ↔ (Has comparator node k ⊎ (comparator key k ≡ equal))
    insert-Has = (
      old_of_new,
      λ s. elim s [
        | inl x ↦ new_of_old x
        | inr e ↦ (
          index,
          subst (λ n. index < n) (sym (insert_count node index key value)) (omega (arith, inside)),
          ap (λ y. comparator y k) (insert_here node index key value) ∙ e,
        )
      ],
    )

  module _ (order : IsOrder comparator) (node : Node K) (index : ℕ) (key k : K)
      (inside : index < node.key_num) (ordered : IsOrdered comparator node)
      (hit : comparator (node.items index).key key ≡ equal) where
    abbrev key_of : ℕ → K
    key_of i = (node.items i).key

    abbrev left_items : ℕ → Item K Rid
    left_items = (remove_at node index).items

    -- No other item has a key equal to the one that goes.
    other_differs :
        (i : ℕ)
        → i < node.key_num
        → i ≢ index
        → comparator (key_of i) k ≡ equal
        → ¬ (comparator key k ≡ equal)
    other_differs i l d e q =
        let same =
          order.equal_equal (key_of i) key (key_of index)
            (order.equal_equal (key_of i) k key e (order.flip_equal key k q))
            (order.flip_equal (key_of index) key hit) in
        elim (dec_lt i index) [
          | yes b ↦ absurd (clash (sym same ∙ ordered i index b inside))
          | no b ↦ absurd (
              clash (
                sym (order.flip_equal (key_of i) (key_of index) same)
                ∙ ordered index i (omega arith) l))
        ]
      where
        clash : equal ≡ less → ⊥
        clash e = cc

    kept_of_left :
        Has comparator (remove_at node index) k
        → Has comparator node k × (¬ (comparator key k ≡ equal))
    kept_of_left x =
        let bound : x.0 < node.key_num - 1 = subst (λ n. x.0 < n) (remove_count node index) x.1 in
        elim (dec_lt x.0 index) [
          | yes l ↦
              let e = ap (λ y. comparator y.key k) (sym (remove_before node index x.0 l)) ∙ x.2 in
              ((x.0, omega arith, e), other_differs x.0 (omega arith) (omega arith) e)
          | no l ↦
              let e =
                ap (λ y. comparator y.key k)
                  (sym (remove_behind node index x.0 (omega arith) (omega arith)))
                ∙ x.2 in
              ((x.0 + 1, omega arith, e), other_differs (x.0 + 1) (omega arith) (omega arith) e)
        ]

    left_of_kept :
        Has comparator node k
        → ¬ (comparator key k ≡ equal)
        → Has comparator (remove_at node index) k
    left_of_kept x n =
        let count = sym (remove_count node index) in
        elim (dec_lt x.0 index) [
          | yes l ↦ (
            x.0,
            subst (λ m. x.0 < m) count (omega (arith, inside)),
            ap (λ y. comparator y.key k) (remove_before node index x.0 l) ∙ x.2,
          )
          | no l ↦ elim (ℕ_discrete x.0 index) [
            | yes e ↦ absurd (
                n (
                  order.equal_equal key (key_of index) k (order.flip_equal (key_of index) key hit)
                    (subst (λ i. comparator (key_of i) k ≡ equal) e x.2)))
            | no d ↦
                let back : x.0 ≡ x.0 - 1 + 1 = omega arith in
                (
                  x.0 - 1,
                  subst (λ m. x.0 - 1 < m) count (omega (arith, x.1)),
                  ap (λ y. comparator y.key k)
                        (remove_behind node index (x.0 - 1) (omega arith) (omega (arith, x.1)))
                      ∙ subst (λ i. comparator (key_of i) k ≡ equal) back x.2,
                )
          ]
        ]

    -- The keys of a leaf after a removal are those before that differ from the one that went.
    pub remove_at-Has :
        Has comparator (remove_at node index) k
        ↔ (Has comparator node k × (¬ (comparator key k ≡ equal)))
    remove_at-Has = (kept_of_left, λ x. left_of_kept x.0 x.1)
