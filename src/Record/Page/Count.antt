-- ===== src/Record/Page/Count.antt =====
-- Counting the set bits of a bitmap.
use oceanbase_jp.Prelude.{
  ℕ, zero, suc, ◌+◌, ◌≤◌, ◌<◌, ◌≡◌, refl, subst, Bool, true, false, arith, ◌==◌, if◌then◌else◌,
  ℕ_discrete,
}

unfoldable pub count_set : (ℕ → Bool) → ℕ → ℕ
count_set p zero = 0
count_set p (suc n) = (if p n then 1 else 0) + count_set p n

pub count_set-le : (p : ℕ → Bool) (n : ℕ) → count_set p n ≤ n
unfolding count_set
count_set-le p zero = omega arith
count_set-le p (suc n) = ground (arith, count_set-le p n)

pub count_set_congr :
    (p q : ℕ → Bool) (n : ℕ) → ((j : ℕ) → j < n → p j ≡ q j) → count_set p n ≡ count_set q n
unfolding count_set
count_set_congr p q zero h = refl
count_set_congr p q (suc n) h =
    ground (arith, h n (omega arith), count_set_congr p q n (λ j l. h j (omega arith)))

-- All set, and none.
pub count_set_full : (p : ℕ → Bool) (n : ℕ) → ((j : ℕ) → j < n → p j ≡ true) → count_set p n ≡ n
unfolding count_set
count_set_full p zero h = refl
count_set_full p (suc n) h =
    ground (arith, h n (omega arith), count_set_full p n (λ j l. h j (omega arith)))

pub count_set_empty : (p : ℕ → Bool) (n : ℕ) → ((j : ℕ) → j < n → p j ≡ false) → count_set p n ≡ 0
unfolding count_set
count_set_empty p zero h = refl
count_set_empty p (suc n) h =
    ground (arith, h n (omega arith), count_set_empty p n (λ j l. h j (omega arith)))

-- Setting a clear bit adds one.
pub count_set_add :
    (p q : ℕ → Bool) (n i : ℕ)
    → i < n
    → p i ≡ false
    → ((j : ℕ) → j < n → q j ≡ (if i == j then true else p j))
    → count_set q n ≡ count_set p n + 1
unfolding count_set
count_set_add p q zero i l e h = absurd (omega arith)
count_set_add p q (suc n) i l e h = elim (ℕ_discrete i n) [
  | yes s ↦
      let clear : p n ≡ false = subst (λ k. p k ≡ false) s e in
      ground
        (arith, h n (omega arith), count_set_congr q p n (λ j k. ground (arith, h j (omega arith))))
  | no s ↦
      ground
        (arith, h n (omega arith), count_set_add p q n i (omega arith) e (λ j k. h j (omega arith)))
]

-- Clearing a set bit takes one away.
pub count_set_remove :
    (p q : ℕ → Bool) (n i : ℕ)
    → i < n
    → p i ≡ true
    → ((j : ℕ) → j < n → q j ≡ (if i == j then false else p j))
    → count_set p n ≡ count_set q n + 1
count_set_remove p q n i l e h =
    count_set_add q p n i l (ground (arith, h i l)) (λ j k. back j k (ℕ_discrete i j))
  where
    back : (j : ℕ) → j < n → Dec (i ≡ j) → p j ≡ (if i == j then true else q j)
    back j k (yes s) = let set : p j ≡ true = subst (λ x. p x ≡ true) s e in ground arith
    back j k (no s) = ground (arith, h j k)

-- A set bit counts.
pub count_set_pos : (p : ℕ → Bool) (n i : ℕ) → i < n → p i ≡ true → 0 < count_set p n
count_set_pos p n i l e =
    omega (arith, count_set_remove p (λ j. if i == j then false else p j) n i l e (λ j k. refl))
