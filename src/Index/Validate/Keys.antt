-- ===== src/Index/Validate/Keys.antt =====
-- What the loops of the validation establish of the keys of a node.
use oceanbase_jp.Prelude.{
  ℕ, zero, suc, ◌+◌, ◌-◌, ◌≤◌, ◌<◌, ◌≡◌, ◌↔◌, refl, subst, true, arith, ℕ_discrete,
}
use oceanbase_jp.Lang.LowerBound.{Sign, less}
use oceanbase_jp.Index.Key.{IsOrder}
use oceanbase_jp.Index.Internal.{is_less}
use oceanbase_jp.Index.Validate.{keys_rise}

module _ {ℓ} {K : Type ℓ} (comparator : K → K → Sign) (key_at : ℕ → K) where
  -- Every key of a range is greater than the one before it.
  abbrev IsAdjacent : ℕ → ℕ → Type 0
  IsAdjacent i n = (k : ℕ) → i ≤ k → k < i + n → comparator (key_at (k - 1)) (key_at k) ≡ less

  keys_rise-IsAdjacent : (i n : ℕ) → keys_rise comparator key_at i n ≡ true → IsAdjacent i n
  unfolding keys_rise is_less
  keys_rise-IsAdjacent i zero e k a b = absurd (omega (arith, a, b))
  keys_rise-IsAdjacent i (suc n) e k a b =
      let head : comparator (key_at (i - 1)) (key_at i) ≡ less = ground arith in
      let tail : keys_rise comparator key_at (i + 1) n ≡ true = ground arith in
      elim (ℕ_discrete k i) [
        | yes q ↦ rw q head
        | no q ↦ keys_rise-IsAdjacent (i + 1) n tail k (omega arith) (omega arith)
      ]

  IsAdjacent-keys_rise : (i n : ℕ) → IsAdjacent i n → keys_rise comparator key_at i n ≡ true
  unfolding keys_rise is_less
  IsAdjacent-keys_rise i zero h = refl
  IsAdjacent-keys_rise i (suc n) h =
      rw (h i (omega arith) (omega arith))
        (IsAdjacent-keys_rise (i + 1) n λ k a b. h k (omega arith) (omega arith))

  -- Keys from an index on, below another, that rise strictly.
  abbrev pub Rises : ℕ → ℕ → Type 0
  Rises first size =
      (i j : ℕ) → first ≤ i → i < j → j < size → comparator (key_at i) (key_at j) ≡ less

  IsAdjacent-by :
      IsOrder comparator
      → (i n : ℕ) → IsAdjacent (i + 1) (suc n)
      → comparator (key_at i) (key_at (i + 1 + n)) ≡ less
  IsAdjacent-by order i zero h = let a = h (i + 1) (omega arith) (omega arith) in ground arith
  IsAdjacent-by order i (suc n) h =
      let a = h (i + 1 + suc n) (omega arith) (omega arith) in
      let b = IsAdjacent-by order i n λ k l m. h k l (omega arith) in
      let same : comparator (key_at (i + 1 + n)) (key_at (i + 1 + suc n)) ≡ less = ground arith in
      order.less_less (key_at i) (key_at (i + 1 + n)) (key_at (i + 1 + suc n)) b same

  -- The loop over the keys says whether they rise.
  pub keys_rise-iff_Rises :
      IsOrder comparator
      → (first size : ℕ)
      → (keys_rise comparator key_at (first + 1) (size - (first + 1)) ≡ true) ↔ Rises first size
  keys_rise-iff_Rises order first size = (
    λ e i j a b c.
        subst (λ x. comparator (key_at i) (key_at x) ≡ less) {x = i + 1 + (j - (i + 1))} {y = j}
          (omega arith)
          (IsAdjacent-by order i (j - (i + 1)) λ k l m.
            keys_rise-IsAdjacent (first + 1) (size - (first + 1)) e k (omega arith) (omega arith)),
    λ h.
        IsAdjacent-keys_rise (first + 1) (size - (first + 1))
          λ k a b. h (k - 1) k (omega arith) (omega arith) (omega arith),
  )
