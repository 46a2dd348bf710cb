-- ===== src/Index/Tree/Write.antt =====
-- A page that is fetched, changed, marked as dirty and unpinned.
use oceanbase_jp.Prelude.{
  ℕ, ◌+◌, ◌-◌, ◌≡◌, ◌≢◌, ◌⊎◌, inl, inr, refl, ap, fun_ext, true, false, arith, ◌==◌, ℕ_discrete,
}
use oceanbase_jp.Index.Node.{Node}
use oceanbase_jp.Index.Tree.{Tree, Frame, node_at, set_frame, put_node, mark_dirty, pin, unpin}

module _ {ℓ} {K : Type ℓ} where
  -- No pin is kept, and a page that was changed is marked as dirty.
  pub record IsClean (t t' : Tree K) : Type ℓ where
    pub same_root : t'.file_header.root_page ≡ t.file_header.root_page
    pub pins : (m : ℕ) → (t'.frames m).pin_count ≡ (t.frames m).pin_count
    pub dirt : (m : ℕ) → (node_at t' m ≡ node_at t m) ⊎ ((t'.frames m).dirty ≡ true)

module _ {ℓ} {K : Type ℓ} (t : Tree K) (n : ℕ) (node : Node K) where
  -- The page has the node, in a dirty frame; its pins are as they were.
  unfoldable pub written : Tree K
  written = set_frame t n (record { node = node; dirty = true; pin_count = (t.frames n).pin_count })

  pub unpin-written : unpin (mark_dirty (put_node (pin t n) n node) n) n ≡ written
  unfolding written put_node mark_dirty unpin pin set_frame
  unpin-written = λ i. record t { frames = frames_same i }
    where
      frame : ℕ → Frame K
      frame count = record { node = node; dirty = true; pin_count = count }

      count_same : frame ((t.frames n).pin_count + 1 - 1) ≡ frame (t.frames n).pin_count
      count_same = ap frame {x = (t.frames n).pin_count + 1 - 1} (omega arith)

      one :
          (m : ℕ) → (unpin (mark_dirty (put_node (pin t n) n node) n) n).frames m ≡ written.frames m
      one m = elim (ℕ_discrete m n) [
        | yes e ↦ let same : (n == n) ≡ true = ground arith in rw (e, same) count_same
        | no q ↦ ground arith
      ]

      frames_same : (unpin (mark_dirty (put_node (pin t n) n node) n) n).frames ≡ written.frames
      frames_same = fun_ext one

  pub written_here : node_at written n ≡ node
  unfolding written set_frame
  written_here = let same : (n == n) ≡ true = ground arith in rw (node_at, same) refl

  pub written_there : (m : ℕ) → m ≢ n → node_at written m ≡ node_at t m
  unfolding written set_frame
  written_there m h = let other : (m == n) ≡ false = ground arith in rw (node_at, other) refl

  pub written-IsClean : IsClean t written
  unfolding written set_frame
  written-IsClean = record {
    same_root = refl;
    pins = λ m. ground arith;
    dirt = λ m. elim (ℕ_discrete m n) [
      | no d ↦ inl (written_there m d)
      | yes e ↦ inr (let same : (m == n) ≡ true = ground arith in rw same refl)
    ];
  }
