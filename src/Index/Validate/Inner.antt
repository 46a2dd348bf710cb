-- ===== src/Index/Validate/Inner.antt =====
-- The validation of an inner node, with its children.
use oceanbase_jp.Prelude.{
  ℕ, zero, suc, ◌+◌, ◌-◌, ◌≤◌, ◌<◌, ◌≡◌, ◌↔◌, refl, sym, ◌∙◌, inl, inr, Bool, true, false, Option,
  some, arith, Bool-cases, ℕ_discrete,
}
use oceanbase_jp.Prelude.Run.{ok}
use oceanbase_jp.Rc.{success}
use oceanbase_jp.Index.Key.{IsOrder}
use oceanbase_jp.Index.Node.{Node}
use oceanbase_jp.Index.Node
use oceanbase_jp.Index.Tree.{Tree, Env, node_at, on_fetch}
use oceanbase_jp.Index.Tree.Search.{unpin-pin, node_at-pin}
use oceanbase_jp.Index.Validate.{is_page, children_know, validate_inner, keys_rise}
use oceanbase_jp.Index.Validate.Keys.{keys_rise-iff_Rises}
use oceanbase_jp.Index.Validate.Place.{IsPlacedInner, in_parent_iff}

module _ {ℓ} {K : Type ℓ} (env : Env K) (order : IsOrder env.comparator) (t : Tree K)
    (this : ℕ) where
  is_page_iff : (m : Option ℕ) → (is_page m (some this) ≡ true) ↔ (m ≡ some this)
  unfolding is_page
  is_page_iff m = ground arith

  -- The children of a range can be fetched.
  abbrev Fetched : (ℕ → ℕ) → ℕ → ℕ → Type 0
  Fetched value_at i n = (k : ℕ) → i ≤ k → k < i + n → env.fetch (value_at k) ≡ success

  -- The children of a range know this page as their parent.
  abbrev Know : (ℕ → ℕ) → ℕ → ℕ → Type 0
  Know value_at i n = (k : ℕ) → i ≤ k → k < i + n → (node_at t (value_at k)).parent ≡ some this

  Know-step :
      (value_at : ℕ → ℕ) (i n : ℕ)
      → (node_at t (value_at i)).parent ≡ some this
      → Know value_at (i + 1) n
      → Know value_at i (suc n)
  Know-step value_at i n e h k a b = elim (ℕ_discrete k i) [
    | yes q ↦ rw q e
    | no q ↦ h k (omega arith) (omega arith)
  ]

  children_know_iff :
      (value_at : ℕ → ℕ) (i n : ℕ)
      → Fetched value_at i n
      → (b : Bool) × (children_know env this value_at i n t ≡ (b, t))
        × ((b ≡ true) ↔ Know value_at i n)
  unfolding children_know on_fetch
  children_know_iff value_at i zero f =
      (true, refl, (λ q k a b. absurd (omega (arith, a, b)), λ x. refl))
  children_know_iff value_at i (suc n) f =
      let page_num = value_at i in
      let r = children_know_iff value_at (i + 1) n (λ k a b. f k (omega arith) (omega arith)) in
      let fetched = f i (omega arith) (omega arith) in
      elim (Bool-cases (is_page (node_at t page_num).parent (some this))) [
        | inl e ↦ (
          r.0,
          rw (fetched, unpin-pin t page_num, node_at-pin t page_num page_num, e) r.1,
          (
            λ q. Know-step value_at i n ((is_page_iff (node_at t page_num).parent).0 e) (r.2.0 q),
            λ x. r.2.1 (λ k a b. x k (omega arith) (omega arith)),
          ),
        )
        | inr e ↦ (
          false,
          rw (fetched, unpin-pin t page_num, node_at-pin t page_num page_num, e) refl,
          (
            λ q. absurd (ground arith),
            λ x.
                sym e
                ∙ (is_page_iff (node_at t page_num).parent).1 (x i (omega arith) (omega arith)),
          ),
        )
      ]

  has_enough : (node : Node K) → node.is_leaf ≡ false → 2 ≤ node.key_num → Node.validate node ≡ true
  unfolding Node.validate
  has_enough node l h = ground arith

  -- An inner node with two children, which can be fetched as its parent can, is found valid exactly
  -- when its keys rise, its children know it and it stands in its parent as the child for its keys.
  pub validate_inner_iff :
      (node_at t this).is_leaf ≡ false
      → 2 ≤ (node_at t this).key_num
      → ((p : ℕ) → (node_at t this).parent ≡ some p → env.fetch p ≡ success)
      → ((i : ℕ)
          → i < (node_at t this).key_num
          → env.fetch ((node_at t this).children i).value ≡ success)
      → (b : Bool) × (validate_inner env t this ≡ ok (b, t))
        × ((b ≡ true) ↔ IsPlacedInner env.comparator (λ m. node_at t m) this)
  unfolding validate_inner
  validate_inner_iff l h f g =
      let node = node_at t this in
      let key_at : ℕ → K = λ i. (node.children i).key in
      let value_at : ℕ → ℕ = λ i. (node.children i).value in
      let rises = keys_rise-iff_Rises env.comparator key_at order 1 node.key_num in
      let counts = has_enough node l h in
      let c = children_know_iff value_at 0 node.key_num (λ k a b. g k (omega (arith, b))) in
      elim (Bool-cases (keys_rise env.comparator key_at 2 (node.key_num - 2))) [
        | inl e ↦ elim (Bool-cases c.0) [
          | inl d ↦
              let r = in_parent_iff env order t this key_at 1 node.parent f h (rises.0 e) in
              (
                r.0,
                rw (counts, e, c.1, d) r.1,
                (
                  λ q. (rises.0 e, λ i a. c.2.0 d i (omega arith) (omega arith), r.2.0 q),
                  λ x. r.2.1 x.2,
                ),
              )
          | inr d ↦ (
            false,
            rw (counts, e, c.1, d) refl,
            (λ q. absurd (ground arith), λ x. sym d ∙ c.2.1 (λ k a b. x.1 k (omega arith))),
          )
        ]
        | inr e ↦
            (false, rw (counts, e) refl, (λ q. absurd (ground arith), λ x. sym e ∙ rises.1 x.0))
      ]
