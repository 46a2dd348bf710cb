-- ===== src/Index/Validate/Below.antt =====
-- BplusTreeHandler::validate_node_recursive over a whole tree.
use oceanbase_jp.Prelude.{
  ℕ, zero, suc, ◌+◌, ◌≤◌, ◌<◌, ◌≡◌, ◌↔◌, refl, sym, ap, ◌∙◌, subst, fun_ext, inl, inr, Bool, true,
  false, Option, some, arith, Bool-cases, ℕ_discrete, if◌then◌else◌,
}
use oceanbase_jp.Prelude.Run.{Run, ok}
use oceanbase_jp.Rc.{success}
use oceanbase_jp.Index.Key.{IsOrder}
use oceanbase_jp.Index.Node.{Node}
use oceanbase_jp.Index.Tree.{Tree, Env, node_at, pin, unpin, on_fetch}
use oceanbase_jp.Index.Tree.Search.{unpin-pin, node_at-pin}
use oceanbase_jp.Index.Validate.{
  validate_leaf, validate_inner, if_valid, pin_released, validate_children, validate_node_recursive,
}
use oceanbase_jp.Index.Validate.Place.{IsPlacedLeaf, IsPlacedInner, validate_leaf_iff}
use oceanbase_jp.Index.Validate.Inner.{validate_inner_iff}

module _ {ℓ} {A : Type ℓ} {c : Bool} (a b : A) where
  if_true : c ≡ true → (if c then a else b) ≡ a
  if_true e = rw e refl

  if_false : c ≡ false → (if c then a else b) ≡ b
  if_false e = rw e refl

module _ {ℓ} {K : Type ℓ} (env : Env K) (nodes : ℕ → Node K) where
  abbrev child_of : ℕ → ℕ → ℕ
  child_of p i = ((nodes p).children i).value

  -- The parent of a page can be fetched.
  abbrev ParentFetched : ℕ → Type 0
  ParentFetched p = (q : ℕ) → (nodes p).parent ≡ some q → env.fetch q ≡ success

  -- The levels of a tree whose pages can be fetched, without empty leaves and inner nodes with less
  -- than two children.
  abbrev pub HasLevels : ℕ → ℕ → Type 0
  HasLevels zero p = ((nodes p).is_leaf ≡ true) × (1 ≤ (nodes p).key_num) × ParentFetched p
  HasLevels (suc h) p =
      ((nodes p).is_leaf ≡ false)
      × (2 ≤ (nodes p).key_num)
      × ParentFetched p
      × ((i : ℕ) → i < (nodes p).key_num → env.fetch (child_of p i) ≡ success)
      × ((i : ℕ) → i < (nodes p).key_num → HasLevels h (child_of p i))

  -- Every node of the levels has its place.
  abbrev pub IsPlacedBelow : ℕ → ℕ → Type 0
  IsPlacedBelow zero p = IsPlacedLeaf env.comparator nodes p
  IsPlacedBelow (suc h) p =
      IsPlacedInner env.comparator nodes p
      × ((i : ℕ) → i < (nodes p).key_num → IsPlacedBelow h (child_of p i))

  unfoldable HasNodes : Tree K → Type ℓ
  HasNodes t = (m : ℕ) → node_at t m ≡ nodes m

  pin-HasNodes : (t : Tree K) (n : ℕ) → HasNodes t → HasNodes (pin t n)
  unfolding HasNodes
  pin-HasNodes t n has m = node_at-pin t n m ∙ has m

  -- The loop over the children, whose validations say what holds of them.
  children_below :
      (recurse : Tree K → ℕ → Option (Run (Bool × Tree K))) (value_at : ℕ → ℕ) (Q : ℕ → Type 0)
      (t : Tree K)
      → HasNodes t
      → (i n : ℕ) → ((k : ℕ) → i ≤ k → k < i + n → env.fetch (value_at k) ≡ success)
      → ((k : ℕ)
          → i ≤ k
          → k < i + n
          → (s : Tree K) → HasNodes s
          → (b : Bool) × (recurse s (value_at k) ≡ some (ok (b, unpin s (value_at k))))
            × ((b ≡ true) ↔ Q k))
      → (b : Bool) × (validate_children env recurse value_at i n t ≡ some (ok (b, t)))
        × ((b ≡ true) ↔ ((k : ℕ) → i ≤ k → k < i + n → Q k))
  unfolding validate_children if_valid on_fetch
  children_below recurse value_at Q t has i zero f ih =
      (true, refl, (λ q k a b. absurd (omega (arith, a, b)), λ x. refl))
  children_below recurse value_at Q t has i (suc n) f ih =
      let page_num = value_at i in
      let fetched = f i (omega arith) (omega arith) in
      let r = ih i (omega arith) (omega arith) (pin t page_num) (pin-HasNodes t page_num has) in
      let rest =
        children_below recurse value_at Q t has (i + 1) n (λ k a b. f k (omega arith) (omega arith))
          (λ k a b. ih k (omega arith) (omega arith)) in
      elim (Bool-cases r.0) [
        | inl e ↦ (
          rest.0,
          rw (fetched, r.1, e, unpin-pin t page_num) rest.1,
          (
            λ q k a b. elim (ℕ_discrete i k) [
              | yes same ↦ subst Q same (r.2.0 e)
              | no other ↦ rest.2.0 q k (omega arith) (omega arith)
            ],
            λ x. rest.2.1 (λ k a b. x k (omega arith) (omega arith)),
          ),
        )
        | inr e ↦ (
          false,
          rw (fetched, r.1, e, unpin-pin t page_num) refl,
          (λ q. absurd (ground arith), λ x. sym e ∙ r.2.1 (x i (omega arith) (omega arith))),
        )
      ]

  module _ (order : IsOrder env.comparator) where
    leaf_at :
        (t : Tree K) (p : ℕ)
        → HasNodes t
        → HasLevels zero p
        → (b : Bool) × (validate_leaf env t p ≡ ok (b, t))
          × ((b ≡ true) ↔ IsPlacedLeaf env.comparator nodes p)
    unfolding HasNodes
    leaf_at t p has l =
        subst
          (λ ns.
            (ns p).is_leaf ≡ true
            → 1 ≤ (ns p).key_num
            → ((q : ℕ) → (ns p).parent ≡ some q → env.fetch q ≡ success)
            → (b : Bool) × (validate_leaf env t p ≡ ok (b, t))
              × ((b ≡ true) ↔ IsPlacedLeaf env.comparator ns p))
          {x = λ m. node_at t m} {y = nodes} (fun_ext has) (validate_leaf_iff env order t p) l.0 l.1
          l.2

    inner_at :
        (t : Tree K) (h p : ℕ)
        → HasNodes t
        → HasLevels (suc h) p
        → (b : Bool) × (validate_inner env t p ≡ ok (b, t))
          × ((b ≡ true) ↔ IsPlacedInner env.comparator nodes p)
    unfolding HasNodes
    inner_at t h p has l =
        subst
          (λ ns.
            (ns p).is_leaf ≡ false
            → 2 ≤ (ns p).key_num
            → ((q : ℕ) → (ns p).parent ≡ some q → env.fetch q ≡ success)
            → ((i : ℕ) → i < (ns p).key_num → env.fetch ((ns p).children i).value ≡ success)
            → (b : Bool) × (validate_inner env t p ≡ ok (b, t))
              × ((b ≡ true) ↔ IsPlacedInner env.comparator ns p))
          {x = λ m. node_at t m} {y = nodes} (fun_ext has) (validate_inner_iff env order t p) l.0
          l.1 l.2 l.3

    -- With more fuel than the levels below a page, the validation from there ends and takes the pin
    -- off the page; it says true exactly when every node of the levels has its place.
    validate_below :
        (h fuel : ℕ) (t : Tree K) (p : ℕ)
        → HasNodes t
        → HasLevels h p
        → h < fuel
        → (b : Bool) × (validate_node_recursive env fuel t p ≡ some (ok (b, unpin t p)))
          × ((b ≡ true) ↔ IsPlacedBelow h p)
    unfolding validate_node_recursive pin_released HasNodes
    validate_below h zero t p has l le = absurd (omega (arith, le))
    validate_below zero (suc fuel) t p has l le =
        let r = leaf_at t p has l in
        let leaf : (node_at t p).is_leaf ≡ true = rw (has p) l.0 in
        (
          r.0,
          ap (pin_released env p) {y = some (ok (r.0, t))} (if_true _ _ leaf ∙ ap some r.1),
          r.2,
        )
    validate_below (suc h) (suc fuel) t p has l le =
        let r = inner_at t h p has l in
        let c =
          children_below (λ s q. validate_node_recursive env fuel s q) (child_of p)
            (λ k. IsPlacedBelow h (child_of p k)) t has 0 (nodes p).key_num
            (λ k a b. l.3 k (omega arith))
            (λ k a b s has_s.
              validate_below h fuel s (child_of p k) has_s (l.4 k (omega arith)) (omega arith)) in
        let inner : (node_at t p).is_leaf ≡ false = rw (has p) l.0 in
        let next : Tree K → Option (Run (Bool × Tree K)) = λ t'.
          validate_children env (λ s q. validate_node_recursive env fuel s q)
            (λ i. ((node_at t p).children i).value) 0 (node_at t p).key_num t' in
        let children : next t ≡ some (ok (c.0, t)) = rw (has p) c.1 in
        let tested : (b : Bool)
            → r.0 ≡ b
            → if_valid env (some (validate_inner env t p)) next
              ≡ if_valid env (some (ok (b, t))) next =
          λ b e. ap (λ v. if_valid env (some v) next) (r.1 ∙ ap (λ x. ok (x, t)) e) in
        elim (Bool-cases r.0) [
          | inl e ↦ (
            c.0,
            ap (pin_released env p) {y = some (ok (c.0, t))}
                (if_false _ _ inner ∙ tested true e ∙ (unfold if_valid in children)),
            (
              λ q. (r.2.0 e, λ i a. c.2.0 q i (omega arith) (omega arith)),
              λ x. c.2.1 (λ k a b. x.1 k (omega arith)),
            ),
          )
          | inr e ↦ (
            false,
            ap (pin_released env p) {y = some (ok (false, t))}
                (if_false _ _ inner ∙ tested false e ∙ (unfold if_valid in refl)),
            (λ q. absurd (ground arith), λ x. sym e ∙ r.2.1 x.0),
          )
        ]

-- Where the comparison of keys is an order (IsOrder: each key equals itself, greater is the reverse
-- of less, and less and equal are transitive across one another), the search for errors by
-- BplusTreeHandler::validate_node_recursive, with more fuel than the levels below a pinned page,
-- where no leaf is empty, each inner node has two children, and the pages and their parents can be
-- fetched, ends, without a fault, and only takes the pin off the page. It says true exactly when in
-- each node the keys rise and, if it has a parent, are those for its first place there, and the
-- children of each inner node have it as their parent.
pub validate_node_recursive_iff {ℓ} :
    {K : Type ℓ}
    → (env : Env K) (t : Tree K) → IsOrder env.comparator
    → (h fuel p : ℕ) → HasLevels env (λ m. node_at t m) h p
    → h < fuel
    → (b : Bool) × (validate_node_recursive env fuel t p ≡ some (ok (b, unpin t p)))
      × ((b ≡ true) ↔ IsPlacedBelow env (λ m. node_at t m) h p)
unfolding HasNodes
validate_node_recursive_iff env t order h fuel p l le =
    validate_below env (λ m. node_at t m) order h fuel t p (λ m. refl) l le
