-- ===== src/Index/Scan/Chain.antt =====
-- The loop of get_entry over a chain of leaves: it reads what stands between the two ends.
use oceanbase_jp.Prelude.{
  ℕ, zero, suc, ◌+◌, ◌-◌, ◌≤◌, ◌<◌, ◌≡◌, ◌≢◌, refl, sym, ap, ◌∙◌, subst, true, false, Option, none,
  some, List, [], ◌∷◌, ◌++◌, arith, ltb, ◌==◌, ◌&&◌, if◌then◌else◌,
}
use oceanbase_jp.Prelude.Run.{Run, ok}
use oceanbase_jp.Rc.{Rc, success, internal, record_eof}
use oceanbase_jp.Record.Page.{Rid}
use oceanbase_jp.Index.Array.{listing}
use oceanbase_jp.Index.Node.{Node}
use oceanbase_jp.Index.Tree.{Tree, Env, node_at, pin, unpin, on_fetch}
use oceanbase_jp.Index.Tree.Search.{unpin-pin, node_at-pin}
use oceanbase_jp.Index.Scan.{
  TreeScanner, Step, moved, stepped, entered, next_entry, pushed, looped, read_entries,
}

module _ (r e : ℕ) where
  -- An open scan at an item of a leaf, that ends at the item `e` of the leaf `r`.
  abbrev pub scan_at : ℕ → ℕ → TreeScanner
  scan_at p i = record {
    inited = true;
    left_frame = some p;
    right_frame = some r;
    iter_index = i;
    end_index = some e;
  }

  abbrev pub scan_done : TreeScanner
  scan_done = record (scan_at r e) { end_index = none }

module _ {K : Type 0} (env : Env K) (t : Tree K) (r e : ℕ) where
  abbrev value_of : ℕ → ℕ → Rid
  value_of p i = ((node_at t p).items i).value

  -- The step by the node that is read.
  abbrev body : ℕ → ℕ → Node K → Step K
  body p i node =
      let rid = (node.items i).value in
      let next = moved env node.next_brother (scan_at r e p i) (unpin (pin t p) p) rid in
      if (p == r) && (i == e)
      then (success, some rid, record (scan_at r e p i) { end_index = none }, pin t p)
      else if ltb (i + 1) node.key_num
      then (success, some rid, scan_at r e p (i + 1), pin t p)
      else if p == r
      then (internal, some rid, scan_at r e p i, pin t p)
      else next

  step_body : (p i : ℕ) → next_entry env (scan_at r e p i) (pin t p) ≡ ok (body p i (node_at t p))
  unfolding next_entry entered stepped
  step_body p i = ap (λ node. ok (body p i node)) (node_at-pin t p p)

  last_step :
      next_entry env (scan_at r e r e) (pin t r)
      ≡ ok (success, some (value_of r e), (scan_done r e), pin t r)
  last_step =
      let a : (r == r) ≡ true = ground arith in
      let b : (e == e) ≡ true = ground arith in step_body r e ∙ rw (a, b) refl

  inner_step :
      (p i : ℕ)
      → i + 1 < (node_at t p).key_num
      → ((p == r) && (i == e)) ≡ false
      → next_entry env (scan_at r e p i) (pin t p)
        ≡ ok (success, some (value_of p i), scan_at r e p (suc i), pin t p)
  inner_step p i h d =
      let next : i + 1 ≡ suc i = omega arith in
      let more : ltb (i + 1) (node_at t p).key_num ≡ true = ground arith in
      step_body p i ∙ rw (d, more, next) refl

  move_step :
      (p i q : ℕ)
      → p ≢ r
      → i + 1 ≡ (node_at t p).key_num
      → (node_at t p).next_brother ≡ some q
      → env.fetch q ≡ success
      → next_entry env (scan_at r e p i) (pin t p)
        ≡ ok (success, some (value_of p i), scan_at r e q 0, pin t q)
  unfolding moved on_fetch
  move_step p i q d h n f =
      let other : (p == r) ≡ false = ground arith in
      let full : ltb (i + 1) (node_at t p).key_num ≡ false = ground arith in
      let back = unpin (pin t p) p in
      let goes : Option ℕ → Step K = λ x. moved env x (scan_at r e p i) back (value_of p i) in
      let left : body p i (node_at t p) ≡ goes (node_at t p).next_brother = rw (other, full) refl in
      let failed : Rc → Step K =
        λ rc. (rc, some (value_of p i), record (scan_at r e p i) { left_frame = none }, back) in
      step_body p i
      ∙ ap ok (left ∙ ap goes n)
      ∙ ap
          (λ rc.
            ok (on_fetch rc (success, some (value_of p i), scan_at r e q 0, pin back q) failed))
          f
      ∙ ap (λ (x : Tree K). ok (success, some (value_of p i), scan_at r e q 0, pin x q))
          (unpin-pin t p)

  -- The loop has read a list of identifiers and has come to the end.
  abbrev pub ended_with : List Rid → Option (Run (Rc × List Rid × TreeScanner × Tree K))
  ended_with rids = some (ok (record_eof, rids, (scan_done r e), pin t r))

  reads_one :
      (g : ℕ) (sc sc' : TreeScanner) (s s' : Tree K) (rid : Rid) (rids : List Rid)
      → next_entry env sc s ≡ ok (success, some rid, sc', s')
      → read_entries env g sc' s' ≡ ended_with rids
      → read_entries env (suc g) sc s ≡ ended_with (rid ∷ rids)
  unfolding read_entries looped pushed
  reads_one g sc sc' s s' rid rids a b =
      ap (looped env (λ x y. read_entries env g x y)) a ∙ ap (pushed env (some rid)) b

  ends : (g : ℕ) → read_entries env (suc g) (scan_done r e) (pin t r) ≡ ended_with []
  unfolding read_entries looped next_entry entered
  ends g = refl

  abbrev values : ℕ → ℕ → ℕ → List Rid
  values p i n = listing (value_of p) i n

  reads_last :
      (n i g : ℕ)
      → i + n ≡ e
      → e < (node_at t r).key_num
      → n + 2 ≤ g
      → read_entries env g (scan_at r e r i) (pin t r) ≡ ended_with (values r i (suc n))
  unfolding listing
  reads_last zero i (suc (suc g)) h l m =
      let here : e ≡ i = omega arith in
      subst
        (λ x.
          read_entries env (suc (suc g)) (scan_at r e r x) (pin t r)
          ≡ ended_with (value_of r x ∷ []))
        here
        (reads_one (suc g) (scan_at r e r e) (scan_done r e) (pin t r) (pin t r) (value_of r e) []
          last_step (ends g))
  reads_last (suc n) i (suc g) h l m =
      reads_one g (scan_at r e r i) (scan_at r e r (suc i)) (pin t r) (pin t r) (value_of r i)
        (values r (suc i) (suc n)) (inner_step r i (omega arith) (ground arith))
        (reads_last n (suc i) g (omega arith) l (omega arith))
  reads_last zero i zero h l m = absurd (omega arith)
  reads_last zero i (suc zero) h l m = absurd (omega arith)
  reads_last (suc n) i zero h l m = absurd (omega arith)

  reads_page :
      (p q n i g k : ℕ) (rids : List Rid)
      → p ≢ r
      → i + n + 1 ≡ (node_at t p).key_num
      → (node_at t p).next_brother ≡ some q
      → env.fetch q ≡ success
      → ((g' : ℕ) → k ≤ g' → read_entries env g' (scan_at r e q 0) (pin t q) ≡ ended_with rids)
      → n + 1 + k ≤ g
      → read_entries env g (scan_at r e p i) (pin t p) ≡ ended_with (values p i (suc n) ++ rids)
  unfolding listing
  reads_page p q zero i (suc g) k rids d h b f rest m =
      reads_one g (scan_at r e p i) (scan_at r e q 0) (pin t p) (pin t q) (value_of p i) rids
        (move_step p i q d (omega arith) b f) (rest g (omega arith))
  reads_page p q (suc n) i (suc g) k rids d h b f rest m =
      reads_one g (scan_at r e p i) (scan_at r e p (suc i)) (pin t p) (pin t p) (value_of p i)
        (values p (suc i) (suc n) ++ rids) (inner_step p i (omega arith) (ground arith))
        (reads_page p q n (suc i) g k rids d (omega arith) b f rest (omega arith))
  reads_page p q zero i zero k rids d h b f rest m = absurd (omega arith)
  reads_page p q (suc n) i zero k rids d h b f rest m = absurd (omega arith)

  -- The leaves from `p` on, by those that follow it, up to the leaf `r`: each but the last has items,
  -- and is followed by the next one, which can be fetched.
  abbrev pub IsChain : ℕ → List ℕ → Type 0
  IsChain p [] = (p ≡ r) × (e < (node_at t r).key_num)
  IsChain p (q ∷ qs) =
      (p ≢ r)
      × (0 < (node_at t p).key_num)
      × ((node_at t p).next_brother ≡ some q)
      × (env.fetch q ≡ success)
      × IsChain q qs

  -- The identifiers from an item of a leaf on.
  unfoldable pub rids_from : ℕ → ℕ → List ℕ → List Rid
  rids_from p i [] = listing (λ j. ((node_at t p).items j).value) i (e + 1 - i)
  rids_from p i (q ∷ qs) =
      let rest = rids_from q 0 qs in
      listing (λ j. ((node_at t p).items j).value) i ((node_at t p).key_num - i) ++ rest

  -- The rounds of the loop: one for each identifier, and one for the end.
  unfoldable pub rounds : ℕ → ℕ → List ℕ → ℕ
  rounds p i [] = e + 2 - i
  rounds p i (q ∷ qs) = let rest = rounds q 0 qs in (node_at t p).key_num - i + rest

  -- The first item is within the leaf, and not behind the last one.
  abbrev IsStart : ℕ → ℕ → List ℕ → Type 0
  IsStart p i [] = i ≤ e
  IsStart p i (q ∷ qs) = i < (node_at t p).key_num

  starts : (p : ℕ) (qs : List ℕ) → IsChain p qs → IsStart p 0 qs
  starts p [] c = omega arith
  starts p (q ∷ qs) c = c.1

  -- From an item of a leaf, over a chain of leaves up to the one where the scan ends, the loop of
  -- get_entry, with as many rounds as there are items and one more, ends with RECORD_EOF: it has read
  -- the identifiers of all items between the two ends, in order, and only the last leaf has the pin of
  -- the first one.
  pub read_entries-rids_from :
      (p i g : ℕ) (qs : List ℕ)
      → IsChain p qs
      → IsStart p i qs
      → rounds p i qs ≤ g
      → read_entries env g (scan_at r e p i) (pin t p) ≡ ended_with (rids_from p i qs)
  unfolding rids_from rounds
  read_entries-rids_from p i g [] c s m =
      let count : e + 1 - i ≡ suc (e - i) = omega arith in
      subst
        (λ x.
          read_entries env g (scan_at r e x i) (pin t x)
          ≡ ended_with (listing (value_of x) i (e + 1 - i)))
        (sym c.0) (rw count (reads_last (e - i) i g (omega arith) c.1 (omega arith)))
  read_entries-rids_from p i g (q ∷ qs) c s m =
      let size = (node_at t p).key_num in
      let count : size - i ≡ suc (size - i - 1) = omega arith in
      rw count (
        reads_page p q (size - i - 1) i g (rounds q 0 qs) (rids_from q 0 qs) c.0 (omega arith) c.2
          c.3 (λ g' l. read_entries-rids_from q 0 g' qs c.4 (starts q qs c.4) l) (omega arith))
