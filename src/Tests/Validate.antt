-- ===== src/Tests/Validate.antt =====
-- The validation of the tree of Tests/Index.
use oceanbase_jp.Prelude.{ℕ, zero, suc, ◌+◌, ◌<◌, ◌≡◌, ◌↔◌, refl, Bool, true, some, arith}
use oceanbase_jp.Prelude.Run.{ok}
use oceanbase_jp.Index.Key.Near.{int_keys-IsOrder}
use oceanbase_jp.Index.Tree.{node_at, unpin}
use oceanbase_jp.Index.Validate.{validate_node_recursive}
use oceanbase_jp.Index.Validate.Below.{HasLevels, IsPlacedBelow, validate_node_recursive_iff}
use oceanbase_jp.Tests.Index.{tree, env}

tree-HasLevels : HasLevels env (λ m. node_at tree m) 1 2
tree-HasLevels = (refl, omega arith, λ q e. refl, λ i l. refl, below)
  where
    below : (i : ℕ) → i < 2 → HasLevels env (λ m. node_at tree m) 0 (3 + i)
    below zero l = (refl, omega arith, λ q e. refl)
    below (suc zero) l = (refl, omega arith, λ q e. refl)
    below (suc (suc i)) l = absurd (omega arith)

validate_node_recursive_iff_example :
    (b : Bool) × (validate_node_recursive env 2 tree 2 ≡ some (ok (b, unpin tree 2)))
    × ((b ≡ true) ↔ IsPlacedBelow env (λ m. node_at tree m) 1 2)
validate_node_recursive_iff_example =
    validate_node_recursive_iff env tree int_keys-IsOrder 1 2 2 tree-HasLevels (omega arith)
