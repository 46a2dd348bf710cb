-- ===== src/Index/Scan/Open.antt =====
-- BplusTreeScanner::open and BplusTreeHandler::get_entry, for keys of an attribute and a record.
use oceanbase_jp.Prelude.{
  ℕ, ◌-◌, Bool, true, false, Option, none, some, List, [], ltb, ◌==◌, ◌&&◌, ◌||◌, not,
  if◌then◌else◌,
}
use oceanbase_jp.Prelude.Run.{Run, ok, fault}
use oceanbase_jp.Rc.{Rc, success, internal, invalid_argument, record_eof}
use oceanbase_jp.Lang.LowerBound.{Sign, less, equal, greater}
use oceanbase_jp.Record.Page.{Rid}
use oceanbase_jp.Index.Key.{Key}
use oceanbase_jp.Index.Leaf
use oceanbase_jp.Index.Tree.{
  Tree, Env, node_at, pin, unpin, on_fetch, find_leaf, left_most_page, right_most_page,
}
use oceanbase_jp.Index.Scan.{TreeScanner, new_scanner, min_rid, max_rid, read_entries, close}

-- The bounds of a scan; `none` is a null key.
pub record Range (A : Type 0) : Type 0 where
  pub left_user_key : Option A
  pub left_inclusive : Bool
  pub right_user_key : Option A
  pub right_inclusive : Bool

abbrev pub Opening : Type 0 → Type 0
Opening A = Option (Rc × TreeScanner × Tree (Key A))

module _ {A : Type 0} where
  unfoldable pub make_key : A → Rid → Key A
  make_key user_key rid = record { attr = user_key; rid = rid }

  unfoldable pub is_invalid : (A → A → Sign) → Range A → Bool
  is_invalid attr_comparator range = elim range.left_user_key [
    | none ↦ false
    | some left ↦ elim range.right_user_key [
      | none ↦ false
      | some right ↦ elim (attr_comparator left right) [
        | greater ↦ true
        | equal ↦ not range.left_inclusive || not range.right_inclusive
        | less ↦ false
      ]
    ]
  ]

  -- A search that fails ends the call.
  unfoldable pub on_leaf :
      (ℕ → Tree (Key A) → Opening A)
      → TreeScanner
      → Option (Rc × Option ℕ × Tree (Key A))
      → Opening A
  on_leaf go sc none = none
  on_leaf go sc (some (rc, none, t)) = some (rc, sc, t)
  on_leaf go sc (some (rc, some n, t)) = go n t

  -- Is the left end behind the right one, in one leaf or in the next?
  unfoldable pub ordered : TreeScanner → Tree (Key A) → ℕ → ℕ → TreeScanner
  ordered sc t left right =
      let behind : Bool = elim sc.end_index [ none ↦ true | some e ↦ ltb e sc.iter_index ] in
      let follows : Bool = elim (node_at t left).prev_brother [
        | none ↦ false
        | some p ↦ p == right
      ] in
      let crossed = ((left == right) && behind) || follows in
      if crossed then record sc { end_index = none } else sc

  -- The end of open: both frames are there.
  unfoldable pub finished : ℕ → ℕ → TreeScanner → Tree (Key A) → Opening A
  finished left right sc t = some (success, ordered sc t left right, t)

  -- The last item of a leaf, or -1 in an empty one.
  unfoldable pub last_of : Tree (Key A) → ℕ → Option ℕ
  last_of t n = if (node_at t n).key_num == 0 then none else some ((node_at t n).key_num - 1)

module _ {A : Type 0} (env : Env (Key A)) (fuel : ℕ) where
  -- The right end, where the first leaf has nothing before the key.
  unfoldable pub before : Option ℕ → ℕ → TreeScanner → Tree (Key A) → ℕ → Opening A
  before none left sc t right =
      some (success, record sc { right_frame = some right; end_index = none }, t)
  before (some prev) left sc t right =
      let t' = pin (unpin t right) prev in
      let sc' = record sc { right_frame = some prev; end_index = last_of t' prev } in
      on_fetch (env.fetch prev) (finished left prev sc' t')
        (λ rc. some (rc, record sc { right_frame = some right }, unpin t right))

  unfoldable pub right_placed : Key A → ℕ → TreeScanner → ℕ → Tree (Key A) → Opening A
  right_placed key left sc right t =
      let node = node_at t right in
      let right_index = (Leaf.lookup env.comparator node key).first in
      if ltb 0 right_index
      then finished left right
          (record sc { right_frame = some right; end_index = some (right_index - 1) }) t
      else before node.prev_brother left sc t right

  unfoldable pub right_opened : Range A → ℕ → TreeScanner → Tree (Key A) → Opening A
  right_opened range left sc t = elim range.right_user_key [
    | none ↦
        on_leaf
          (λ right t'.
            finished left right
              (record sc { right_frame = some right; end_index = last_of t' right }) t')
          sc (right_most_page env fuel t)
    | some user_key ↦
        let key = make_key user_key (if range.right_inclusive then max_rid else min_rid) in
        on_leaf (right_placed key left sc) sc (find_leaf env key fuel t)
  ]

  -- The left end, where the leaf has nothing from the key on.
  unfoldable pub beyond : Option ℕ → Range A → TreeScanner → Tree (Key A) → ℕ → Opening A
  beyond none range sc t left = some (success, record sc { left_frame = some left }, t)
  beyond (some next) range sc t left =
      let t' = pin (unpin t left) next in
      on_fetch (env.fetch next)
        (right_opened range next (record sc { left_frame = some next; iter_index = 0 }) t')
        (λ rc. some (rc, record sc { left_frame = some left }, unpin t left))

  unfoldable pub left_placed : Key A → Range A → TreeScanner → ℕ → Tree (Key A) → Opening A
  left_placed key range sc left t =
      let node = node_at t left in
      let left_index = (Leaf.lookup env.comparator node key).first in
      if ltb left_index node.key_num
      then right_opened range left (record sc { left_frame = some left; iter_index = left_index }) t
      else beyond node.next_brother range sc t left

  unfoldable pub left_opened : Range A → TreeScanner → Tree (Key A) → Opening A
  left_opened range sc t = elim range.left_user_key [
    | none ↦
        on_leaf
          (λ left t'.
            right_opened range left (record sc { left_frame = some left; iter_index = 0 }) t')
          sc (left_most_page env fuel t)
    | some user_key ↦
        let key = make_key user_key (if range.left_inclusive then min_rid else max_rid) in
        on_leaf (left_placed key range sc) sc (find_leaf env key fuel t)
  ]

  -- BplusTreeScanner::open; the fuel is for the levels.
  unfoldable pub open_scanner : (A → A → Sign) → Range A → TreeScanner → Tree (Key A) → Opening A
  open_scanner attr_comparator range sc t =
      let sc' = record sc { inited = true } in
      if sc.inited
      then some (internal, sc, t)
      else if is_invalid attr_comparator range
      then some (invalid_argument, sc', t)
      else left_opened range sc' t

  -- get_entry behind the loop, and behind the opening, whose failure ends the scanner's life too.
  unfoldable pub after_loop :
      Option (Run (Rc × List Rid × TreeScanner × Tree (Key A)))
      → Option (Run (Rc × List Rid × Tree (Key A)))
  after_loop none = none
  after_loop (some fault) = some fault
  after_loop (some (ok (record_eof, rids, sc, t))) = some (ok (success, rids, (close sc t).1))
  after_loop (some (ok (rc, rids, sc, t))) = some (ok (rc, rids, (close sc t).1))

  unfoldable pub after_open : ℕ → Opening A → Option (Run (Rc × List Rid × Tree (Key A)))
  after_open rounds none = none
  after_open rounds (some (success, sc, t)) = after_loop (read_entries env rounds sc t)
  after_open rounds (some (rc, sc, t)) = some (ok (rc, [], (close sc t).1))

  -- BplusTreeHandler::get_entry, by the rounds of its loop.
  unfoldable pub get_entry :
      (A → A → Sign) → ℕ → A → Tree (Key A) → Option (Run (Rc × List Rid × Tree (Key A)))
  get_entry attr_comparator rounds user_key t =
      let range : Range A = record {
        left_user_key = some user_key;
        left_inclusive = true;
        right_user_key = some user_key;
        right_inclusive = true;
      } in
      after_open rounds (open_scanner attr_comparator range new_scanner t)
