-- ===== src/Lang/LowerBound.antt =====
-- deps/common/lang/lower_bound.h: binary search with a comparison that answers like `strcmp`, and
-- the comparison of `Comparator`. Iterators are indices into the sequence.
use oceanbase_jp.Prelude.{
  ℕ, zero, suc, ◌+◌, ◌-◌, ◌/◌, ◌≤◌, ◌<◌, ◌≡◌, ◌⊎◌, inl, inr, refl, Bool, true, false, arith, ltb,
  if◌then◌else◌, Bool-cases, ℕ_discrete,
}

-- The sign of the `int` that a comparison returns.
pub data Sign : Type 0 where
  less equal greater : Sign

-- `Comparator::operator()`
unfoldable pub compare_ints : ℕ → ℕ → Sign
compare_ints v1 v2 = if ltb v1 v2 then less else if ltb v2 v1 then greater else equal

-- The iterator returned and `*_found`.
pub record Found : Type 0 where
  pub first : ℕ
  pub found : Bool

module _ {ℓ} {A : Type ℓ} (at : ℕ → A) (val : A) (comp : A → A → Sign) where
  -- while (last_count > 0), on fuel.
  lower_loop : ℕ → ℕ → ℕ → Found
  lower_loop zero first last_count = record { first = first; found = false }
  lower_loop (suc fuel) first last_count =
      let step = last_count / 2 in
      let iter = first + step in
      let body : Found = elim (comp (at iter) val) [
        | equal ↦ record { first = iter; found = true }
        | less ↦ lower_loop fuel (iter + 1) (last_count - (step + 1))
        | greater ↦ lower_loop fuel first step
      ] in
      if ltb 0 last_count then body else record { first = first; found = false }

  -- `count` halves in each round, so it is fuel enough.
  unfoldable pub lower_bound : ℕ → ℕ → Found
  unfolding lower_loop
  lower_bound first last = lower_loop (last - first) first (last - first)

  abbrev sign : ℕ → Sign
  sign i = comp (at i) val

  -- The sequence rises strictly across the value, and holds it at most once.
  abbrev pub IsRising : ℕ → ℕ → Type 0
  IsRising lo hi =
      (i j : ℕ) → lo ≤ i → i < j → j < hi → (comp (at i) val ≡ less) ⊎ (comp (at j) val ≡ greater)

  -- What the search promises.
  pub record IsLowerBound (lo hi : ℕ) (r : Found) : Type 0 where
    pub from : lo ≤ r.first
    pub upto : r.first ≤ hi
    pub below : (i : ℕ) → lo ≤ i → i < r.first → comp (at i) val ≡ less
    pub above : (i : ℕ) → r.first < i → i < hi → comp (at i) val ≡ greater
    pub hit : r.found ≡ true → (r.first < hi) × (comp (at r.first) val ≡ equal)
    pub miss : r.found ≡ false → r.first < hi → comp (at r.first) val ≡ greater

  -- The loop is right from every window outside which the answer is known.
  abbrev LoopIsRight : ℕ → ℕ → ℕ → Type 0
  LoopIsRight lo hi fuel =
      (f c : ℕ)
      → c ≤ fuel
      → lo ≤ f
      → f + c ≤ hi
      → ((i : ℕ) → lo ≤ i → i < f → sign i ≡ less)
      → ((i : ℕ) → f + c ≤ i → i < hi → sign i ≡ greater)
      → IsLowerBound lo hi (lower_loop fuel f c)

  module _ (lo hi : ℕ) (up : IsRising lo hi) where
    ended :
        (f : ℕ)
        → lo ≤ f
        → f ≤ hi
        → ((i : ℕ) → lo ≤ i → i < f → sign i ≡ less)
        → ((i : ℕ) → f ≤ i → i < hi → sign i ≡ greater)
        → IsLowerBound lo hi (record { first = f; found = false })
    ended f a b below above = record {
      from = a;
      upto = b;
      below = below;
      above = λ i h k. above i (omega arith) k;
      hit = λ q. cc;
      miss = λ q h. above f (omega arith) h;
    }

    less_upto : (k i : ℕ) → k < hi → sign k ≡ less → lo ≤ i → i ≤ k → sign i ≡ less
    less_upto k i l e h a = elim (ℕ_discrete i k) [
      | yes q ↦ rw q e
      | no q ↦ ground (arith, up i k h (omega arith) l)
    ]

    greater_from : (k i : ℕ) → lo ≤ k → sign k ≡ greater → k ≤ i → i < hi → sign i ≡ greater
    greater_from k i l e a h = elim (ℕ_discrete i k) [
      | yes q ↦ rw q e
      | no q ↦ ground (arith, up k i l (omega arith) h)
    ]

    round :
        (fuel f c : ℕ)
        → LoopIsRight lo hi fuel
        → c ≤ suc fuel
        → lo ≤ f
        → f + c ≤ hi
        → ((i : ℕ) → lo ≤ i → i < f → sign i ≡ less)
        → ((i : ℕ) → f + c ≤ i → i < hi → sign i ≡ greater)
        → 0 < c
        → (s : Sign) → sign (f + c / 2) ≡ s
        → IsLowerBound lo hi (elim s [
          | equal ↦ record { first = f + c / 2; found = true }
          | less ↦ lower_loop fuel (f + c / 2 + 1) (c - (c / 2 + 1))
          | greater ↦ lower_loop fuel f (c / 2)
        ])
    round fuel f c again l a b below above p equal e = record {
      from = omega arith;
      upto = omega arith;
      below = λ i h k. ground (arith, up i (f + c / 2) h k (omega arith));
      above = λ i h k. ground (arith, up (f + c / 2) i (omega arith) h k);
      hit = λ _. (omega arith, e);
      miss = λ q. cc;
    }
    round fuel f c again l a b below above p less e =
        again (f + c / 2 + 1) (c - (c / 2 + 1)) (omega arith) (omega arith) (omega arith)
          (λ i h k. less_upto (f + c / 2) i (omega arith) e h (omega arith))
          (λ i h k. above i (omega arith) k)
    round fuel f c again l a b below above p greater e =
        again f (c / 2) (omega arith) a (omega arith) below
          (λ i h k. greater_from (f + c / 2) i (omega arith) e h k)

    lower_loop_right : (fuel : ℕ) → LoopIsRight lo hi fuel
    unfolding lower_loop
    lower_loop_right zero f c l a b below above =
        ended f a (omega arith) below (λ i h k. above i (omega arith) k)
    lower_loop_right (suc fuel) f c l a b below above = elim (Bool-cases (ltb 0 c)) [
      | inr e ↦ rw e (ended f a (omega arith) below (λ i h k. above i (ground arith) k))
      | inl e ↦ rw e (
          round fuel f c (lower_loop_right fuel) l a b below above (ground arith) (sign (f + c / 2))
            refl)
    ]

  -- Over a sequence that rises strictly across the value, the search ends within `count` rounds:
  -- all before its result is less than the value, all behind it is greater, and the element at the
  -- result is equal to the value if `found` is set and greater if not.
  pub lower_bound-IsLowerBound :
      (first last : ℕ)
      → first ≤ last
      → IsRising first last
      → IsLowerBound first last (lower_bound first last)
  unfolding lower_bound
  lower_bound-IsLowerBound first last h up =
      lower_loop_right first last up (last - first) first (last - first) (omega arith) (omega arith)
        (omega arith) (λ i a b. absurd (omega arith)) (λ i a b. absurd (omega arith))
