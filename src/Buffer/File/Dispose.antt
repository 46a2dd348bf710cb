-- ===== src/Buffer/File/Dispose.antt =====
-- disk_buffer_pool.cpp: DiskBufferPool::dispose_page and unpin_page.
use oceanbase_jp.Prelude.{ℕ, ◌≡◌, ◌≢◌, ◌≤◌, ◌<◌, refl, true, false, none, ◌∷◌, arith}
use oceanbase_jp.Rc.{Rc, success, locked_unlock}
use oceanbase_jp.Buffer.{Store, Env, find}
use oceanbase_jp.Buffer.Frames.{IsStore, Keeps}
use oceanbase_jp.Buffer.Fetch.{pins}
use oceanbase_jp.Buffer.Purge.{Purges, purge_page-Purges}
use oceanbase_jp.Buffer.File.{is_allocated, Pool, disposing, dispose_page}
use oceanbase_jp.Buffer.File.Header.{IsHeader, Bits, drop_page-IsHeader}

module _ (env : Env) (fd num : ℕ) where
  -- A page is disposed of: it is no longer allocated and has no frame; or that is put off, with the
  -- header as it was. No page shows anything else.
  pub record Disposes (p : Pool) (r : Rc × Pool) : Type 0 where
    pub header : IsHeader r.1.header
    pub keeps : Keeps env p.store r.1.store
    pub dropped :
        r.0 ≡ success
        → Bits p.header num false r.1.header
          × (find r.1.store.entries fd num ≡ none)
          × (r.1.disposed ≡ p.disposed)
    pub put_off : r.0 ≢ success → (r.1.header ≡ p.header) × (r.1.disposed ≡ num ∷ p.disposed)
    pub locked : 1 ≤ pins p.store fd num → r.0 ≡ locked_unlock
    pub done : pins p.store fd num ≡ 0 → env.writes fd num ≡ true → r.0 ≡ success

  disposing-Disposes :
      (p : Pool) (rc : Rc) (st : Store)
      → IsHeader p.header
      → 0 < num
      → is_allocated p.header num ≡ true
      → Purges env fd num p.store (rc, st)
      → Disposes p (disposing env fd p num (rc, st))
  unfolding disposing
  disposing-Disposes p success st v pos taken purged =
      let dropped = drop_page-IsHeader p.header num v pos taken in
      record {
        header = dropped.0;
        keeps = purged.keeps;
        dropped = λ d. (dropped.1, purged.gone refl, refl);
        put_off = λ bad. absurd (bad refl);
        locked = purged.locked;
        done = λ z w. refl;
      }
  disposing-Disposes p rc st v pos taken purged = record {
    header = v;
    keeps = purged.keeps;
    dropped = λ d. ground arith;
    put_off = λ bad. (refl, refl);
    locked = purged.locked;
    done = purged.done;
  }

  -- DiskBufferPool::dispose_page of an allocated page other than the first keeps the header and the
  -- frames valid, and what every page shows. If it succeeds the page is no longer allocated, no other
  -- bit changes, and the page has no frame; otherwise the header stays, and the page is noted for
  -- later. It is put off for a pinned page, and it succeeds for a page without pins that can be
  -- written.
  pub dispose_page-Disposes :
      (p : Pool)
      → IsHeader p.header
      → IsStore env p.store
      → 0 < num
      → is_allocated p.header num ≡ true
      → Disposes p (dispose_page env fd p num)
  unfolding dispose_page
  dispose_page-Disposes p v h pos taken =
      disposing-Disposes p _ _ v pos taken (purge_page-Purges env fd num p.store h)
