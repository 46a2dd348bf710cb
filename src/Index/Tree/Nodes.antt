-- ===== src/Index/Tree/Nodes.antt =====
-- What the writes of frames leave of the nodes.
use oceanbase_jp.Prelude.{ℕ, ◌≡◌, ◌≢◌, refl, true, false, arith, ◌==◌}
use oceanbase_jp.Index.Node.{Node, clear_page}
use oceanbase_jp.Index.Tree.{
  Tree, Env, Frame, node_at, set_frame, put_node, mark_dirty, pin, unpin, allocated,
}

module _ {ℓ} {K : Type ℓ} (t : Tree K) (n : ℕ) where
  frame_same : (f : Frame K) → (set_frame t n f).frames n ≡ f
  unfolding set_frame
  frame_same f = let a : (n == n) ≡ true = ground arith in rw a refl

  frame_other : (f : Frame K) (m : ℕ) → m ≢ n → (set_frame t n f).frames m ≡ t.frames m
  unfolding set_frame
  frame_other f m h = let a : (m == n) ≡ false = ground arith in rw a refl

  pub put_same : (x : Node K) → node_at (put_node t n x) n ≡ x
  unfolding put_node
  put_same x = λ i. (frame_same (record (t.frames n) { node = x }) i).node

  pub put_other : (x : Node K) (m : ℕ) → m ≢ n → node_at (put_node t n x) m ≡ node_at t m
  unfolding put_node
  put_other x m h = λ i. (frame_other (record (t.frames n) { node = x }) m h i).node

  pub dirty_node : (m : ℕ) → node_at (mark_dirty t n) m ≡ node_at t m
  unfolding mark_dirty set_frame
  dirty_node m = ground arith

  pub pin_node : (m : ℕ) → node_at (pin t n) m ≡ node_at t m
  unfolding pin set_frame
  pin_node m = ground arith

  pub unpin_node : (m : ℕ) → node_at (unpin t n) m ≡ node_at t m
  unfolding unpin set_frame
  unpin_node m = ground arith

  pub allocated_same : (env : Env K) → node_at (allocated env t n) n ≡ clear_page env.zero_key
  unfolding allocated
  allocated_same env = λ i.
      (frame_same (record { node = clear_page env.zero_key; dirty = false; pin_count = 1 }) i).node

  pub allocated_other : (env : Env K) (m : ℕ) → m ≢ n → node_at (allocated env t n) m ≡ node_at t m
  unfolding allocated
  allocated_other env m h = λ i.
      (frame_other (record { node = clear_page env.zero_key; dirty = false; pin_count = 1 }) m h
        i).node
