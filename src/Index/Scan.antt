-- ===== src/Index/Scan.antt =====
-- BplusTreeScanner of storage/index/bplus_tree.cpp, and BplusTreeHandler::get_entry. A frame is named
-- by its page, `none` is a null frame, and `none` as end_index is -1; a null frame that is read is a
-- fault. The attributes are of another type than CHARS, so no key is cut or filled up.
pub mod Chain
pub mod Open
use oceanbase_jp.Prelude.{
  ℕ, zero, suc, ◌+◌, ◌-◌, Bool, true, false, Option, none, some, List, [], ◌∷◌, leb, ltb, ◌==◌,
  ◌&&◌, ◌||◌, not, if◌then◌else◌,
}
use oceanbase_jp.Prelude.Run.{Run, ok, fault}
use oceanbase_jp.Rc.{Rc, success, internal, invalid_argument, record_eof}
use oceanbase_jp.Lang.LowerBound.{Sign, less, equal, greater}
use oceanbase_jp.Record.Page.{Rid}
use oceanbase_jp.Index.Key.{Key}
use oceanbase_jp.Index.Node.{Node}
use oceanbase_jp.Index.Leaf
use oceanbase_jp.Index.Tree.{
  Tree, Env, node_at, pin, unpin, on_fetch, find_leaf, left_most_page, right_most_page,
}

pub record TreeScanner : Type 0 where
  pub inited : Bool
  pub left_frame : Option ℕ
  pub right_frame : Option ℕ
  pub iter_index : ℕ
  pub end_index : Option ℕ

-- The fields of a new scanner; iter_index is -1 there, and is not read before it is set.
abbrev pub new_scanner : TreeScanner
new_scanner = record {
  inited = false;
  left_frame = none;
  right_frame = none;
  iter_index = 0;
  end_index = none;
}

-- RID::min and RID::max
abbrev pub min_rid : Rid
min_rid = record { page_num = 0; slot_num = 0 }

abbrev pub max_rid : Rid
max_rid = record { page_num = 2147483647; slot_num = 2147483647 }

-- A return code, the record identifier if it was written, the scanner and the tree.
abbrev pub Step : Type 0 → Type 0
Step K = Rc × Option Rid × TreeScanner × Tree K

module _ {K : Type 0} (env : Env K) where
  -- next_entry at the end of a leaf that is not the last one.
  unfoldable pub moved : Option ℕ → TreeScanner → Tree K → Rid → Step K
  moved none sc t rid = (internal, some rid, record sc { left_frame = none }, t)
  moved (some page_num) sc t rid =
      on_fetch (env.fetch page_num)
        (
          success,
          some rid,
          record sc { left_frame = some page_num; iter_index = 0 },
          pin t page_num,
        )
        (λ rc. (rc, some rid, record sc { left_frame = none }, t))

  unfoldable pub stepped : ℕ → ℕ → ℕ → TreeScanner → Tree K → Step K
  stepped left right end_index sc t =
      let node = node_at t left in
      let rid = (node.items sc.iter_index).value in
      let next = moved node.next_brother sc (unpin t left) rid in
      if (left == right) && (sc.iter_index == end_index)
      then (success, some rid, record sc { end_index = none }, t)
      else if ltb (sc.iter_index + 1) node.key_num
      then (success, some rid, record sc { iter_index = sc.iter_index + 1 }, t)
      else if left == right
      then (internal, some rid, sc, t)
      else next

  unfoldable pub entered : Option ℕ → Option ℕ → Option ℕ → TreeScanner → Tree K → Run (Step K)
  entered none left right sc t = ok (record_eof, none, sc, t)
  entered (some end_index) (some left) (some right) sc t = ok (stepped left right end_index sc t)
  entered (some end_index) _ _ sc t = fault

  unfoldable pub next_entry : TreeScanner → Tree K → Run (Step K)
  next_entry sc t = entered sc.end_index sc.left_frame sc.right_frame sc t

  -- The loop of get_entry, on fuel: the code that ends it, and the identifiers.
  unfoldable pub pushed :
      Option Rid
      → Option (Run (Rc × List Rid × TreeScanner × Tree K))
      → Option (Run (Rc × List Rid × TreeScanner × Tree K))
  pushed (some rid) (some (ok (rc, rids, sc, t))) = some (ok (rc, rid ∷ rids, sc, t))
  pushed written rest = rest

  unfoldable pub looped :
      (TreeScanner → Tree K → Option (Run (Rc × List Rid × TreeScanner × Tree K)))
      → Run (Step K)
      → Option (Run (Rc × List Rid × TreeScanner × Tree K))
  looped again fault = some fault
  looped again (ok (success, written, sc, t)) = pushed written (again sc t)
  looped again (ok (rc, written, sc, t)) = some (ok (rc, [], sc, t))

  unfoldable pub read_entries :
      ℕ → TreeScanner → Tree K → Option (Run (Rc × List Rid × TreeScanner × Tree K))
  read_entries zero sc t = none
  read_entries (suc fuel) sc t = looped (λ sc' t'. read_entries fuel sc' t') (next_entry sc t)

module _ {K : Type 0} where
  unfoldable pub unpin_frame : Option ℕ → Tree K → Tree K
  unpin_frame none t = t
  unpin_frame (some n) t = unpin t n

  -- BplusTreeScanner::close
  unfoldable pub close : TreeScanner → Tree K → TreeScanner × Tree K
  close sc t = (
    record sc { inited = false; left_frame = none; right_frame = none; end_index = none },
    unpin_frame sc.right_frame (unpin_frame sc.left_frame t),
  )
