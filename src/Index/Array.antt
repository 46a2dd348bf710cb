-- ===== src/Index/Array.antt =====
-- The array of items behind the header of a node, by the number of the item: __item_at. The blocks
-- that memcpy and memmove move are whole items.
use oceanbase_jp.Prelude.{
  ℕ, zero, suc, ◌+◌, ◌-◌, ◌<◌, ◌≡◌, refl, ap, ap₂, ◌∙◌, List, [], ◌∷◌, ◌++◌, arith, leb, ltb, ◌==◌,
  ◌&&◌, if◌then◌else◌,
}

module _ {ℓ} {A : Type ℓ} where
  -- `memcpy(dst, src, n * item_size())`, and `memmove` where the arrays are one.
  unfoldable pub move_items : (ℕ → A) → ℕ → (ℕ → A) → ℕ → ℕ → ℕ → A
  move_items a dst b src n i = if leb dst i && ltb i (dst + n) then b (i - dst + src) else a i

  -- An item is written.
  unfoldable pub put_item : (ℕ → A) → ℕ → A → ℕ → A
  put_item a index item i = if i == index then item else a i

  -- The `n` items from `i` on.
  unfoldable pub listing : (ℕ → A) → ℕ → ℕ → List A
  listing a i zero = []
  listing a i (suc n) = a i ∷ listing a (suc i) n

  pub listing_congr :
      (a b : ℕ → A) (i j n : ℕ)
      → ((k : ℕ) → k < n → a (i + k) ≡ b (j + k))
      → listing a i n ≡ listing b j n
  unfolding listing
  listing_congr a b i j zero h = refl
  listing_congr a b i j (suc n) h =
      ap₂ ◌∷◌ (first (h 0 (omega arith)))
        (listing_congr a b (suc i) (suc j) n (λ k l. shift k (h (suc k) (omega arith))))
    where
      first : a (i + 0) ≡ b (j + 0) → a i ≡ b j
      first e = ground arith

      shift : (k : ℕ) → a (i + suc k) ≡ b (j + suc k) → a (suc i + k) ≡ b (suc j + k)
      shift k e = ground arith

  pub listing_split :
      (a : ℕ → A) (i n m : ℕ) → listing a i (n + m) ≡ listing a i n ++ listing a (i + n) m
  unfolding listing
  listing_split a i zero m = ground arith
  listing_split a i (suc n) m =
      let sum : suc n + m ≡ suc (n + m) = omega arith in
      let start : i + suc n ≡ suc i + n = omega arith in
      rw (sum, start) (ap (◌∷◌ (a i)) (listing_split a (suc i) n m))

  -- The items before, at and behind an index.
  pub listing_around :
      (a : ℕ → A) (index n : ℕ)
      → index < n
      → listing a 0 n ≡ listing a 0 index ++ a index ∷ listing a (suc index) (n - suc index)
  unfolding listing
  listing_around a index n h =
      let parts = listing_split a 0 index (suc (n - suc index)) in
      let sum : index + suc (n - suc index) ≡ n = omega arith in ground (arith, parts, sum)

  module _ (a b c : ℕ → A) (i j n m size : ℕ) (first : (k : ℕ) → k < n → a k ≡ b (i + k)) where
    -- An array whose items are those of two blocks lists these.
    pub listing_two :
        size ≡ n + m
        → ((k : ℕ) → k < m → a (n + k) ≡ c (j + k))
        → listing a 0 size ≡ listing b i n ++ listing c j m
    listing_two e second =
        let zero_start : 0 + n ≡ n = omega arith in
        ap (listing a 0) e
        ∙ listing_split a 0 n m
        ∙ ap₂ (λ x y. x ++ y) (listing_congr a b 0 i n (λ k l. at_zero k (first k l)))
            (ap (λ (s : ℕ). listing a s m) zero_start ∙ listing_congr a c n j m second)
      where
        at_zero : (k : ℕ) → a k ≡ b (i + k) → a (0 + k) ≡ b (i + k)
        at_zero k e = ground arith

    -- With an item between the blocks.
    pub listing_three :
        (x : A)
        → size ≡ n + suc m
        → a n ≡ x
        → ((k : ℕ) → k < m → a (suc n + k) ≡ c (j + k))
        → listing a 0 size ≡ listing b i n ++ x ∷ listing c j m
    listing_three x e at second =
        let bound : n < size = omega arith in
        let rest : size - suc n ≡ m = omega arith in
        listing_around a n size bound
        ∙ ap₂ (λ y z. y ++ z) (listing_congr a b 0 i n (λ k l. at_zero k (first k l)))
            (ap₂ ◌∷◌ at (ap (listing a (suc n)) rest ∙ listing_congr a c (suc n) j m second))
      where
        at_zero : (k : ℕ) → a k ≡ b (i + k) → a (0 + k) ≡ b (i + k)
        at_zero k e = ground arith
