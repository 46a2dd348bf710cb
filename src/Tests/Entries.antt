-- ===== src/Tests/Entries.antt =====
-- An index with two rows of the same value.
use oceanbase_jp.Prelude.{
  ℕ, ◌≡◌, refl, true, false, Option, none, some, List, [], ◌∷◌, ◌==◌, if◌then◌else◌,
}
use oceanbase_jp.Prelude.Run.{Run, ok}
use oceanbase_jp.Rc.{Rc, success}
use oceanbase_jp.Lang.LowerBound.{compare_ints, lower_bound}
use oceanbase_jp.Record.Page.{Rid}
use oceanbase_jp.Index.Key.{Key, compare_keys, rid_compare, sign_of, int_difference}
use oceanbase_jp.Index.Node.{Node}
use oceanbase_jp.Index.Leaf
use oceanbase_jp.Index.Tree.{
  Tree, Env, find_leaf, find_leaf_internal, find_from, find_loop, followed, pin, unpin, set_frame,
}
use oceanbase_jp.Index.Scan.{
  read_entries, looped, pushed, next_entry, entered, stepped, close, unpin_frame,
}
use oceanbase_jp.Index.Scan.Open.{
  get_entry, after_open, open_scanner, is_invalid, left_opened, make_key, on_leaf, left_placed,
  right_opened, right_placed, finished, ordered, after_loop,
}

abbrev place : Rid
place = record { page_num = 1; slot_num = 0 }

-- Keys of a number and a place: two rows have the number 4.
abbrev keyed_leaf : Node (Key ℕ)
keyed_leaf = record {
  is_leaf = true;
  key_num = 4;
  parent = none;
  prev_brother = none;
  next_brother = none;
  items = λ i. record {
    key = record {
      attr = if i == 0 then 2 else if i == 3 then 6 else 4;
      rid = record { page_num = 1; slot_num = i };
    };
    value = record { page_num = 1; slot_num = i };
  };
  children = λ i. record { key = record { attr = 0; rid = place }; value = 0 };
}

abbrev keyed_tree : Tree (Key ℕ)
keyed_tree = record {
  file_header = record {
    root_page = some 2;
    internal_max_size = 4;
    leaf_max_size = 4;
    attr_length = 4;
    key_length = 12;
  };
  stored_root = some 2;
  frames = λ n. record { node = keyed_leaf; dirty = false; pin_count = 0 };
  disposed = [];
}

abbrev keyed_env : Env (Key ℕ)
keyed_env = record {
  comparator = compare_keys compare_ints;
  zero_key = record { attr = 0; rid = place };
  fetch = λ n. success;
  allocate = λ t. (success, 5);
}

abbrev rids_of : Option (Run (Rc × List Rid × Tree (Key ℕ))) → List Rid
rids_of (some (ok (rc, rids, t))) = rids
rids_of _ = []

finds_both :
    rids_of (get_entry keyed_env 1 compare_ints 9 4 keyed_tree)
    ≡ record { page_num = 1; slot_num = 1 } ∷ record { page_num = 1; slot_num = 2 } ∷ []
unfolding get_entry after_open open_scanner is_invalid left_opened make_key on_leaf left_placed
    right_opened right_placed finished ordered find_leaf find_leaf_internal find_from find_loop
    followed pin unpin set_frame Leaf.lookup lower_bound compare_keys compare_ints rid_compare
    sign_of int_difference read_entries looped pushed next_entry entered stepped after_loop close
    unpin_frame
finds_both = refl
