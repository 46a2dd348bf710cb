-- ===== src/Buffer/Room.antt =====
-- disk_buffer_pool.cpp: DiskBufferPool::allocate_frame, which makes room for a frame.
use oceanbase_jp.Prelude.{
  ℕ, ◌≡◌, ◌≢◌, ◌≤◌, ◌<◌, refl, sym, ◌∙◌, inl, inr, true, false, Option, none, some, ◌∷◌, arith, suc,
  zero, Bool-cases, leb, subst,
}
use oceanbase_jp.Rc.{Rc, success, nomem}
use oceanbase_jp.Buffer.{
  Frame, Entry, Entries, Store, Env, find, count, free, begin_purge, alloc, allocate_frame, flushed,
  purging, allocated, flush_if_dirty,
}
use oceanbase_jp.Buffer.Cache.{begin_purge-find, begin_purge-pinned, get_absent}
use oceanbase_jp.Buffer.Frames.{IsStore, Keeps, Keeps-refl, Keeps-trans, removed-Keeps}
use oceanbase_jp.Buffer.Flush.{free-Freed, Flushed, flush_if_dirty-Flushed}

module _ (env : Env) where
  -- A store with one frame less that keeps what is shown.
  pub record Purged (st : Store) (r : Store) : Type 0 where
    pub keeps : Keeps env st r
    pub size : suc (count r.entries) ≡ count st.entries

  -- The cache without the frame that was purged.
  freed-Purged :
      (st : Store) (e : Entry) (st' : Store)
      → e.frame.file_desc ≡ e.key_desc
      → e.frame.page.page_num ≡ e.key_num
      → Flushed env st e (success, st')
      → Purged st (record st' {
        entries = (free st'.entries e.frame.file_desc e.frame.page.page_num e.key_desc e.key_num).1;
      })
  freed-Purged st e st' same_desc same_num fl =
      let (f, found, clean, unpinned) = fl.clean refl in
      let freed = (free-Freed st'.entries e.key_desc e.key_num f fl.keeps.valid.cache found).1 in
      let same : (free st'.entries e.frame.file_desc e.frame.page.page_num e.key_desc e.key_num).1
          ≡ (free st'.entries e.key_desc e.key_num e.key_desc e.key_num).1 =
        rw (same_desc, same_num) refl in
      subst (λ es. Purged st (record st' { entries = es })) (sym same)
        (record {
          keeps = Keeps-trans env st st' _ fl.keeps (
              removed-Keeps env st' e.key_desc e.key_num f _ fl.keeps.valid found clean unpinned
                freed.cache freed.lacks);
          size = freed.size ∙ fl.size;
        })

  -- Rounds of the loop: no room, a frame without pins is chosen, flushed if it is dirty, and freed.
  pub data Evicts : Store → Store → Type 0 where
    done : (st : Store) → Evicts st st
    evict :
        (st st' r : Store) (e : Entry)
        → env.capacity ≤ count st.entries
        → begin_purge st.entries ≡ some e
        → flush_if_dirty env st e ≡ (success, st')
        → Evicts
            (record st' {
              entries =
                  (free st'.entries e.frame.file_desc e.frame.page.page_num e.key_desc e.key_num).1;
            })
            r
        → Evicts st r

  -- How the making of room ends, behind some rounds: with room for the frame; with no room and all
  -- frames pinned; or with the code of the flush of the frame that was chosen.
  pub data Ending (start : Store) (fd num : ℕ) : Store → Rc → Store → Type 0 where
    placed :
        (st : Store)
        → Evicts start st
        → count st.entries < env.capacity
        → Ending start fd num st success (record st {
          entries =
              record { key_desc = fd; key_num = num; frame = env.leftover fd num } ∷ st.entries;
        })
    full :
        (st : Store)
        → Evicts start st
        → env.capacity ≤ count st.entries
        → ((u n : ℕ) (f : Frame) → find st.entries u n ≡ some f → 1 ≤ f.pin_count)
        → Ending start fd num st nomem st
    failed :
        (before st : Store) (e : Entry) (rc : Rc)
        → Evicts start before
        → env.capacity ≤ count before.entries
        → begin_purge before.entries ≡ some e
        → flush_if_dirty env before e ≡ (rc, st)
        → rc ≢ success
        → rc ≢ nomem
        → Ending start fd num st rc st

  pub record Allocated (fd num : ℕ) (st : Store) (r : Option (Rc × Store)) : Type 0 where
    pub rc : Rc
    pub after : Store
    pub room : Store
    pub result : r ≡ some (rc, after)
    pub keeps : Keeps env st room
    pub ending : Ending st fd num room rc after

  -- A round in front.
  earlier-Ending :
      (st st' room after : Store) (fd num : ℕ) (rc : Rc)
      → ((r : Store) → Evicts st' r → Evicts st r)
      → Ending st' fd num room rc after
      → Ending st fd num room rc after
  earlier-Ending st st' room after fd num rc more (placed s v l) = placed s (more s v) l
  earlier-Ending st st' room after fd num rc more (full s v l all) = full s (more s v) l all
  earlier-Ending st st' room after fd num rc more (failed before s e c v l b fl x y) =
      failed before s e c (more before v) l b fl x y

  earlier-Allocated :
      (fd num : ℕ) (st st' : Store) (r : Option (Rc × Store))
      → Keeps env st st'
      → ((s : Store) → Evicts st' s → Evicts st s)
      → Allocated fd num st' r
      → Allocated fd num st r
  earlier-Allocated fd num st st' r k more a = record {
    rc = a.rc;
    after = a.after;
    room = a.room;
    result = a.result;
    keeps = Keeps-trans env st st' a.room k a.keeps;
    ending = earlier-Ending st st' a.room a.after fd num a.rc more a.ending;
  }

  alloc_full :
      (es : Entries) (fd num : ℕ)
      → find es fd num ≡ none
      → leb env.capacity (count es) ≡ true
      → alloc env es fd num ≡ (false, es)
  unfolding alloc
  alloc_full es fd num absent no_room = ground (arith, get_absent es fd num absent)

  alloc_room :
      (es : Entries) (fd num : ℕ)
      → find es fd num ≡ none
      → leb env.capacity (count es) ≡ false
      → alloc env es fd num
        ≡ (true, record { key_desc = fd; key_num = num; frame = env.leftover fd num } ∷ es)
  unfolding alloc
  alloc_room es fd num absent room = ground (arith, get_absent es fd num absent)

  module _ (fd num : ℕ) (again : Store → Option (Rc × Store)) where
    flushed-Allocated :
        (st : Store) (e : Entry) (rc : Rc) (st' : Store)
        → ((s : Store)
            → IsStore env s
            → find s.entries fd num ≡ none
            → suc (count s.entries) ≡ count st.entries
            → Allocated fd num s (again s))
        → find st.entries fd num ≡ none
        → e.frame.file_desc ≡ e.key_desc
        → e.frame.page.page_num ≡ e.key_num
        → env.capacity ≤ count st.entries
        → begin_purge st.entries ≡ some e
        → flush_if_dirty env st e ≡ (rc, st')
        → Flushed env st e (rc, st')
        → Allocated fd num st (flushed env again e rc st')
    unfolding flushed
    flushed-Allocated st e success st' rest absent same_desc same_num no_room choice eq fl =
        let purged = freed-Purged st e st' same_desc same_num fl in
        earlier-Allocated fd num st _ _ purged.keeps (λ r v. evict st st' r e no_room choice eq v)
          (rest _ purged.keeps.valid (purged.keeps.absent fd num absent).0 purged.size)
    flushed-Allocated st e rc st' rest absent same_desc same_num no_room choice eq fl = record {
      rc = rc;
      after = st';
      room = st';
      result = refl;
      keeps = fl.keeps;
      ending = failed st st' e rc (done st) no_room choice eq (ground arith) fl.code;
    }

    purging-Allocated :
        (st : Store) (chosen : Option Entry)
        → ((s : Store)
            → IsStore env s
            → find s.entries fd num ≡ none
            → suc (count s.entries) ≡ count st.entries
            → Allocated fd num s (again s))
        → find st.entries fd num ≡ none
        → IsStore env st
        → env.capacity ≤ count st.entries
        → begin_purge st.entries ≡ chosen
        → Allocated fd num st (purging env again st chosen)
    unfolding purging
    purging-Allocated st none rest absent h no_room choice = record {
      rc = nomem;
      after = st;
      room = st;
      result = refl;
      keeps = Keeps-refl env st h;
      ending = full st (done st) no_room (λ u n f k. begin_purge-pinned st.entries u n f choice k);
    }
    purging-Allocated st (some e) rest absent h no_room choice =
        let there = begin_purge-find st.entries e h.cache choice in
        let keys = h.keys e.key_desc e.key_num e.frame there.0 in
        flushed-Allocated st e _ _ rest absent keys.0 keys.1 no_room choice refl
          (flush_if_dirty-Flushed env st e h there.0 there.1)

  -- DiskBufferPool::allocate_frame, for a page without a frame and with more fuel than there are
  -- frames, ends. What the pages show stays, and so do the pinned frames. It makes rounds, in each
  -- of which the cache is full, and the frame without pins that begin_purge chooses is flushed, if
  -- it is dirty, and freed. Behind them there is room, and it succeeds with a frame for the page;
  -- or the cache is full and all frames are pinned, and it answers NOMEM; or the cache is full and
  -- the flush of the frame that is chosen next fails, and it answers the code of that flush.
  pub allocate_frame-Allocated :
      (fuel : ℕ) (st : Store) (fd num : ℕ)
      → IsStore env st
      → find st.entries fd num ≡ none
      → count st.entries < fuel
      → Allocated fd num st (allocate_frame env fuel st fd num)
  unfolding allocate_frame allocated
  allocate_frame-Allocated zero st fd num h absent l = ground arith
  allocate_frame-Allocated (suc fuel) st fd num h absent l =
      let again : Store → Option (Rc × Store) = λ s. allocate_frame env fuel s fd num in
      elim (Bool-cases (leb env.capacity (count st.entries))) [
        | inl q ↦
            subst (λ r. Allocated fd num st (allocated env again st r))
              (sym (alloc_full st.entries fd num absent q))
              (purging-Allocated fd num again st (begin_purge st.entries)
                (λ s k a size. allocate_frame-Allocated fuel s fd num k a (ground (arith, size)))
                absent h (ground (arith, q)) refl)
        | inr q ↦
            subst (λ r. Allocated fd num st (allocated env again st r))
              (sym (alloc_room st.entries fd num absent q))
              (record {
                rc = success;
                after = _;
                room = st;
                result = refl;
                keeps = Keeps-refl env st h;
                ending = placed st (done st) (ground (arith, q));
              })
      ]
