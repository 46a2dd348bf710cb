-- ===== src/Index/Validate/Place.antt =====
-- A validated node has its place in its parent.
use oceanbase_jp.Prelude.{
  ℕ, ◌+◌, ◌-◌, ◌≤◌, ◌<◌, ◌≡◌, ◌≢◌, ◌↔◌, refl, sym, ap, ◌∙◌, subst, inl, inr, Bool, true, false,
  Option, none, some, arith, ◌&&◌, ◌||◌, false, Bool-cases, ℕ_discrete, ltb, ◌==◌, not,
}
use oceanbase_jp.Prelude.Run.{ok}
use oceanbase_jp.Rc.{success}
use oceanbase_jp.Lang.LowerBound.{Sign, less}
use oceanbase_jp.Index.Key.{IsOrder}
use oceanbase_jp.Index.Node.{Node}
use oceanbase_jp.Index.Node
use oceanbase_jp.Index.Leaf.Order.{IsOrdered}
use oceanbase_jp.Index.Internal.{is_less, value_index}
use oceanbase_jp.Index.Internal.Order.{IsOrderedInner}
use oceanbase_jp.Index.Tree.{Tree, Env, node_at, pin, unpin, on_fetch}
use oceanbase_jp.Index.Tree.Search.{unpin-pin, node_at-pin}
use oceanbase_jp.Index.Validate.{beside, answered, in_parent, validate_leaf, keys_rise}
use oceanbase_jp.Index.Validate.Keys.{Rises, keys_rise-iff_Rises}

module _ {ℓ} {K : Type ℓ} (comparator : K → K → Sign) where
  -- The keys of a node, from an index on, are those for the child at an index of the parent.
  abbrev pub IsBetween : (ℕ → K) → ℕ → ℕ → Node K → ℕ → Type 0
  IsBetween key_at first size parent_node index =
      (j : ℕ)
      → first ≤ j
      → j < size
      → (1 ≤ index → comparator (key_at j) (parent_node.children index).key ≢ less)
        × (index + 1 < parent_node.key_num
            → comparator (key_at j) (parent_node.children (index + 1)).key ≡ less)

  -- That is so for the first key and the last one.
  abbrev AtEnds : (ℕ → K) → ℕ → ℕ → Node K → ℕ → Type 0
  AtEnds key_at first size parent_node index =
      (1 ≤ index → comparator (key_at first) (parent_node.children index).key ≢ less)
      × (index + 1 < parent_node.key_num
          → comparator (key_at (size - 1)) (parent_node.children (index + 1)).key ≡ less)

  module _ (key_at : ℕ → K) (first size : ℕ) (parent_node : Node K) (index : ℕ) where
    at_ends : Bool
    at_ends =
        not
          (not (index == 0) && is_less (comparator (key_at first) (parent_node.children index).key))
        && (not (ltb index (parent_node.key_num - 1))
            || is_less (comparator (key_at (size - 1)) (parent_node.children (index + 1)).key))

    beside-at_ends :
        1 ≤ size → beside comparator key_at first size parent_node (some index) ≡ ok at_ends
    unfolding beside at_ends
    beside-at_ends h =
        let nonempty : (size == 0) ≡ false = ground arith in rw nonempty (ground arith)

    at_ends_iff : (at_ends ≡ true) ↔ AtEnds key_at first size parent_node index
    unfolding at_ends is_less
    at_ends_iff = ground arith

    -- The ends of keys that rise stand for all of them.
    AtEnds-iff-IsBetween :
        IsOrder comparator
        → first < size
        → Rises comparator key_at first size
        → AtEnds key_at first size parent_node index ↔ IsBetween key_at first size parent_node index
    AtEnds-iff-IsBetween order h up = (
      λ e j a b. (
        λ c d. elim (ℕ_discrete first j) [
          | yes q ↦ e.0 c (rw q d)
          | no q ↦ e.0 c (
              order.less_less (key_at first) (key_at j) (parent_node.children index).key
                (up first j (omega arith) (omega arith) b) d)
        ],
        λ c. elim (ℕ_discrete j (size - 1)) [
          | yes q ↦ rw q (e.1 c)
          | no q ↦
              order.less_less (key_at j) (key_at (size - 1)) (parent_node.children (index + 1)).key
                (up j (size - 1) a (omega arith) (omega arith)) (e.1 c)
        ],
      ),
      λ w. ((w first (omega arith) h).0, (w (size - 1) (omega arith) (omega arith)).1),
    )

module _ {ℓ} {K : Type ℓ} (comparator : K → K → Sign) (nodes : ℕ → Node K) (this : ℕ) where
  -- A node with a parent stands there as the child for its keys.
  abbrev pub HasPlace : (ℕ → K) → ℕ → Option ℕ → Type 0
  HasPlace key_at first none = 0 ≤ first
  HasPlace key_at first (some p) =
      (index : ℕ) × (value_index (nodes p) this ≡ some index)
      × IsBetween comparator key_at first (nodes this).key_num (nodes p) index

  -- A leaf whose keys rise, with its place.
  abbrev pub IsPlacedLeaf : Type 0
  IsPlacedLeaf =
      IsOrdered comparator (nodes this)
      × HasPlace (λ i. ((nodes this).items i).key) 0 (nodes this).parent

  -- An inner node whose keys rise from the second child on, with its place; its children know it.
  abbrev pub IsPlacedInner : Type 0
  IsPlacedInner =
      IsOrderedInner comparator (nodes this)
      × ((i : ℕ)
          → i < (nodes this).key_num
          → (nodes ((nodes this).children i).value).parent ≡ some this)
      × HasPlace (λ i. ((nodes this).children i).key) 1 (nodes this).parent

module _ {ℓ} {K : Type ℓ} (env : Env K) (order : IsOrder env.comparator) (t : Tree K)
    (this : ℕ) where
  abbrev Placed : (ℕ → K) → ℕ → Option ℕ → Type 0
  Placed = HasPlace env.comparator (λ m. node_at t m) this

  stands_there :
      (key_at : ℕ → K) (first p : ℕ) (found : Option ℕ)
      → value_index (node_at t p) this ≡ found
      → first < (node_at t this).key_num
      → Rises env.comparator key_at first (node_at t this).key_num
      → (b : Bool) × (beside env.comparator key_at first
            (node_at t this).key_num
            (node_at t p)
            found
          ≡ ok b)
        × ((b ≡ true) ↔ Placed key_at first (some p))
  unfolding beside
  stands_there key_at first p none e h up =
      (false, refl, (λ q. absurd (ground arith), λ x. ground arith))
  stands_there key_at first p (some index) e h up =
      let size = (node_at t this).key_num in
      let parent_node = node_at t p in
      let ends = at_ends_iff env.comparator key_at first size parent_node index in
      let all =
        AtEnds-iff-IsBetween env.comparator key_at first size parent_node index order h up in
      (
        at_ends env.comparator key_at first size parent_node index,
        beside-at_ends env.comparator key_at first size parent_node index (omega arith),
        (
          λ q. (index, e, all.0 (ends.0 q)),
          λ x. ends.1 (
              all.1 (
                subst (IsBetween env.comparator key_at first size parent_node) {x = x.0} {y = index}
                  (ground arith) x.2)),
        ),
      )

  pub in_parent_iff :
      (key_at : ℕ → K) (first : ℕ) (parent : Option ℕ)
      → ((p : ℕ) → parent ≡ some p → env.fetch p ≡ success)
      → first < (node_at t this).key_num
      → Rises env.comparator key_at first (node_at t this).key_num
      → (b : Bool) × (in_parent env t this key_at first parent ≡ ok (b, t))
        × ((b ≡ true) ↔ Placed key_at first parent)
  unfolding in_parent on_fetch answered
  in_parent_iff key_at first none f h up = (true, refl, (λ q. omega arith, λ x. refl))
  in_parent_iff key_at first (some p) f h up =
      let r = stands_there key_at first p (value_index (node_at t p) this) refl h up in
      let checked : beside env.comparator key_at first (node_at (pin t p) this).key_num
            (node_at (pin t p) p) (value_index (node_at (pin t p) p) this)
          ≡ ok r.0 =
        rw (node_at-pin t p p, node_at-pin t p this) r.1 in
      (
        r.0,
        rw (f p refl) (
            ap (answered (unpin (pin t p) p)) checked
            ∙ ap (λ s. answered s (ok r.0)) (unpin-pin t p)),
        r.2,
      )

  has_enough : (node : Node K) → node.is_leaf ≡ true → 1 ≤ node.key_num → Node.validate node ≡ true
  unfolding Node.validate
  has_enough node l h = ground arith

  -- A leaf with an item, whose parent, if it has one, can be fetched, is found valid exactly when its
  -- keys rise and it stands in its parent as the child for its keys; the tree stays as it is.
  pub validate_leaf_iff :
      (node_at t this).is_leaf ≡ true
      → 1 ≤ (node_at t this).key_num
      → ((p : ℕ) → (node_at t this).parent ≡ some p → env.fetch p ≡ success)
      → (b : Bool) × (validate_leaf env t this ≡ ok (b, t))
        × ((b ≡ true) ↔ IsPlacedLeaf env.comparator (λ m. node_at t m) this)
  unfolding validate_leaf
  validate_leaf_iff l h f =
      let node = node_at t this in
      let key_at : ℕ → K = λ i. (node.items i).key in
      let rises = keys_rise-iff_Rises env.comparator key_at order 0 node.key_num in
      let counts = has_enough node l h in
      elim (Bool-cases (keys_rise env.comparator key_at 1 (node.key_num - 1))) [
        | inl e ↦
            let r = in_parent_iff key_at 0 node.parent f (omega arith) (rises.0 e) in
            (
              r.0,
              rw (counts, e) r.1,
              (λ q. (λ i j a b. rises.0 e i j (omega arith) a b, r.2.0 q), λ x. r.2.1 x.1),
            )
        | inr e ↦ (
          false,
          rw (counts, e) refl,
          (λ q. absurd (ground arith), λ x. sym e ∙ rises.1 (λ i j a b c. x.0 i j b c)),
        )
      ]
