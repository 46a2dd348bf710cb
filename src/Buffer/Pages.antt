-- ===== src/Buffer/Pages.antt =====
-- disk_buffer_pool.cpp: DiskBufferPool::get_this_page.
use oceanbase_jp.Prelude.{
  ℕ, ◌≡◌, ◌≢◌, ◌<◌, ◌+◌, refl, sym, ◌∙◌, inl, inr, true, false, ◌&&◌, Option, none, some, arith,
  ◌==◌, Option-cases, Bool-cases, subst,
}
use oceanbase_jp.Rc.{Rc, success, nomem, ioerr_read}
use oceanbase_jp.Buffer.{
  Frame, Entries, Store, Env, find, assign, count, get, free, freed, purge_frame, fresh_frame, load,
  load_allocated, get_or_load, get_this_page,
}
use oceanbase_jp.Buffer.Cache.{get-Got, get_absent}
use oceanbase_jp.Buffer.Frames.{shows, shows_by, IsStore, reordered-Keeps, get-Keeps}
use oceanbase_jp.Buffer.Flush.{free-Freed}
use oceanbase_jp.Buffer.Room.{Ending, placed, full, failed, allocate_frame-Allocated}
use oceanbase_jp.Buffer.Fetch.{
  pins, Asked, hit-Asked, later-Asked, pins_by, fresh, fresh-find, fresh-IsCache,
}

module _ (env : Env) where
  -- The page has been read into the new frame.
  fresh_frame-Asked :
      (st : Store) (fd num : ℕ)
      → IsStore env st
      → find st.entries fd num ≡ none
      → env.reads fd num ≡ true
      → Asked env fd num st (
        success,
        record st { entries = assign (fresh env st fd num) fd num (fresh_frame st fd num) },
      )
  unfolding shows pins
  fresh_frame-Asked st fd num h absent readable =
      let f : Frame = fresh_frame st fd num in
      let now = fresh-find env st fd num f in
      let there : (u n : ℕ)
          → (fd == u && num == n) ≡ true
          → (find st.entries u n ≡ none) × (fd ≡ u) × (num ≡ n) × (st.disk u n ≡ st.disk fd num) =
        λ u n q.
          let same_desc : fd ≡ u = ground arith in
          let same_num : num ≡ n = ground arith in
          (
            rw (← same_desc, ← same_num) absent,
            same_desc,
            same_num,
            rw (same_desc, same_num) refl,
          ) in
      record {
        valid = record {
          cache = fresh-IsCache env st fd num f h absent;
          keys = λ u n g k.
              ground (arith, now u n, h.keys u n g, there u n, h.numbered fd num absent readable);
          clean = λ u n g k d. ground (arith, now u n, h.clean u n g, there u n);
          numbered = λ u n k r. ground (arith, now u n, h.numbered u n);
        };
        same = λ u n. elim (Bool-cases (fd == u && num == n)) [
          | inl q ↦ rw (now u n, q, (there u n q).0, (there u n q).3, shows) refl
          | inr q ↦
              shows_by st (record st { entries = assign (fresh env st fd num) fd num f }) u n
                (now u n ∙ rw q refl) refl
        ];
        others = λ u n g q k l. now u n ∙ rw q k;
        frame =
            λ ok. (f, now fd num ∙ ground arith, ground (arith, absent), ground (arith, absent));
      }

  -- The page could not be read, and its frame was given back.
  unread-Asked :
      (st : Store) (fd num : ℕ)
      → IsStore env st
      → find st.entries fd num ≡ none
      → env.reads fd num ≡ false
      → Asked env fd num st (load env (record st { entries = fresh env st fd num }) fd num)
  unfolding load purge_frame freed
  unread-Asked st fd num h absent unreadable =
      let f : Frame = record (fresh_frame st fd num) { pin_count = 0 } in
      let es = assign (fresh env st fd num) fd num f in
      let now = fresh-find env st fd num f in
      let freed =
        (free-Freed es fd num f (fresh-IsCache env st fd num f h absent)
          (now fd num ∙ ground arith)).1 in
      let gone : (u n : ℕ) → find (free es fd num fd num).1 u n ≡ find st.entries u n = λ u n.
        elim (Bool-cases (fd == u && num == n)) [
          | inl q ↦
              let same_desc : fd ≡ u = ground arith in
              let same_num : num ≡ n = ground arith in
              freed.lacks u n ∙ rw (q, ← same_desc, ← same_num, absent) refl
          | inr q ↦ freed.lacks u n ∙ rw q (now u n ∙ rw q refl)
        ] in
      let kept = reordered-Keeps env st (free es fd num fd num).1 h freed.cache gone in
      let by : load env (record st { entries = fresh env st fd num }) fd num
          ≡ (ioerr_read, record st { entries = (free es fd num fd num).1 }) =
        ground (arith, unreadable) in
      subst (λ r. Asked env fd num st r) (sym by)
        (record {
          valid = kept.valid;
          same = kept.same;
          others = λ u n g q k l. kept.pinned u n g k l;
          frame = λ ok. ground arith;
        })

  load-Asked :
      (st : Store) (fd num : ℕ)
      → IsStore env st
      → find st.entries fd num ≡ none
      → Asked env fd num st (load env (record st { entries = fresh env st fd num }) fd num)
  unfolding load
  load-Asked st fd num h absent = elim (Bool-cases (env.reads fd num)) [
    | inr q ↦ unread-Asked st fd num h absent q
    | inl q ↦
        let by : load env (record st { entries = fresh env st fd num }) fd num ≡ (
          success,
          record st { entries = assign (fresh env st fd num) fd num (fresh_frame st fd num) },
        ) =
          ground (arith, q) in
        subst (λ r. Asked env fd num st r) (sym by) (fresh_frame-Asked st fd num h absent q)
  ]

  -- A call that fails before the page is loaded.
  refused-Asked :
      (st : Store) (fd num : ℕ) (rc : Rc)
      → IsStore env st
      → rc ≢ success
      → Asked env fd num st (rc, st)
  refused-Asked st fd num rc h bad = record {
    valid = h;
    same = λ u n. refl;
    others = λ u n g q k l. k;
    frame = λ ok. absurd (bad ok);
  }

  load_allocated_by :
      (fd num : ℕ) (rc : Rc) (st : Store)
      → rc ≢ success
      → load_allocated env fd num (some (rc, st)) ≡ some (rc, st)
  unfolding load_allocated
  load_allocated_by fd num rc st bad = ground arith

  -- What get_this_page gives, behind allocate_frame.
  ended-Asked :
      (start st : Store) (fd num : ℕ) (rc : Rc) (after : Store)
      → IsStore env st
      → find st.entries fd num ≡ none
      → Ending env start fd num st rc after
      → (r : Rc × Store) × (load_allocated env fd num (some (rc, after)) ≡ some r)
        × Asked env fd num st r
  unfolding load_allocated
  ended-Asked start st fd num rc after h absent (placed s v l) = (
    load env (record st { entries = fresh env st fd num }) fd num,
    refl,
    load-Asked st fd num h absent,
  )
  ended-Asked start st fd num rc after h absent (full s v no_room all) =
      ((nomem, st), refl, refused-Asked st fd num nomem h (ground arith))
  ended-Asked start st fd num rc after h absent (failed before s e code v l b fl bad other) =
      ((code, st), load_allocated_by fd num code st bad, refused-Asked st fd num code h bad)

  get_or_load_by :
      (fuel : ℕ) (st : Store) (fd num : ℕ) (f : Frame) (got : Option Frame × Entries)
      → got.0 ≡ some f
      → get_or_load env fuel st fd num got
        ≡ some (
          success,
          record st { entries = assign got.1 fd num (record f { pin_count = f.pin_count + 1 }) },
        )
  unfolding get_or_load
  get_or_load_by fuel st fd num f got e = rw (e, get_or_load) refl

  -- DiskBufferPool::get_this_page, with more fuel than there are frames, ends, and keeps the store
  -- valid. What every page of every file shows stays, in memory or on disk, whatever had to be written
  -- back, and so do the pinned frames of other pages. If it succeeds the page has a frame that shows
  -- it, with one more pin.
  pub get_this_page-Asked :
      (fuel : ℕ) (st : Store) (fd num : ℕ)
      → IsStore env st
      → count st.entries < fuel
      → (r : Rc × Store) × (get_this_page env fuel st fd num ≡ some r) × Asked env fd num st r
  unfolding get_this_page get_or_load
  get_this_page-Asked fuel st fd num h l = elim (Option-cases (find st.entries fd num)) [
    | inl absent ↦
        let a = allocate_frame-Allocated env fuel st fd num h absent l in
        let (r, by, asked) =
          ended-Asked st a.room fd num a.rc a.after a.keeps.valid (a.keeps.absent fd num absent).0
            a.ending in
        (
          r,
          rw (get_absent st.entries fd num absent, get_this_page, a.result) by,
          later-Asked env st a.room fd num r
              (pins_by env st a.room fd num ((a.keeps.absent fd num absent).0 ∙ sym absent)) a.keeps
              asked,
        )
    | inr (f, e) ↦
        let got = get-Got st.entries fd num h.cache in
        let st' : Store = record st { entries = (get st.entries fd num).1 } in
        let k = get-Keeps env st fd num h in
        (
          (
            success,
            record st {
              entries =
                  assign (get st.entries fd num).1 fd num
                    (record f { pin_count = f.pin_count + 1 });
            },
          ),
          get_or_load_by fuel st fd num f _ (got.found ∙ e),
          later-Asked env st st' fd num _ (pins_by env st st' fd num (got.same fd num)) k
              (hit-Asked env st' fd num f k.valid (got.same fd num ∙ e)),
        )
  ]
