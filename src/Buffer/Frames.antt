-- ===== src/Buffer/Frames.antt =====
-- disk_buffer_pool.cpp: what a page shows, in memory or in its file, and that making room for a frame
-- changes nothing of it.
use oceanbase_jp.Prelude.{
  ℕ, ◌≡◌, ◌≤◌, refl, sym, ◌∙◌, inl, inr, true, false, ◌&&◌, none, some, arith, ◌==◌, if◌then◌else◌,
  Option-cases, Bool-cases,
}
use oceanbase_jp.Prelude.Memory.{Mem}
use oceanbase_jp.Buffer.{Page, Frame, Entries, Store, Env, find, assign, get, write_page}
use oceanbase_jp.Buffer.Cache.{IsCache, find-assign, assign-IsCache, get-Got}

-- The contents of a page: those of its frame, or of the file if it has none.
unfoldable pub shows : Store → ℕ → ℕ → Mem
shows st fd num = elim (find st.entries fd num) [
  | some frame ↦ frame.page.bytes
  | none ↦ (st.disk fd num).bytes
]

-- What a page shows hangs on its frame and its place in the file alone.
pub shows_by :
    (st st' : Store) (u n : ℕ)
    → find st'.entries u n ≡ find st.entries u n
    → st'.disk u n ≡ st.disk u n
    → shows st' u n ≡ shows st u n
unfolding shows
shows_by st st' u n e d = elim (Option-cases (find st.entries u n)) [
  | inl q ↦ rw (e, q, shows) (rw d refl)
  | inr (f, q) ↦ rw (e, q, shows) refl
]

-- One frame per page, which knows its page; a clean frame is what the file has; and what can be read of
-- a page without a frame is that page.
pub record IsStore (env : Env) (st : Store) : Type 0 where
  pub cache : IsCache st.entries
  pub keys :
      (u n : ℕ) (f : Frame)
      → find st.entries u n ≡ some f
      → (f.file_desc ≡ u) × (f.page.page_num ≡ n)
  pub clean :
      (u n : ℕ) (f : Frame) → find st.entries u n ≡ some f → f.dirty ≡ false → st.disk u n ≡ f.page
  pub numbered :
      (u n : ℕ) → find st.entries u n ≡ none → env.reads u n ≡ true → (st.disk u n).page_num ≡ n

-- A store that shows the same: pinned frames stay, and pages without a frame get none.
pub record Keeps (env : Env) (st st' : Store) : Type 0 where
  pub valid : IsStore env st'
  pub same : (u n : ℕ) → shows st' u n ≡ shows st u n
  pub pinned :
      (u n : ℕ) (f : Frame)
      → find st.entries u n ≡ some f
      → 1 ≤ f.pin_count
      → find st'.entries u n ≡ some f
  pub absent :
      (u n : ℕ)
      → find st.entries u n ≡ none
      → (find st'.entries u n ≡ none) × (st'.disk u n ≡ st.disk u n)

module _ (env : Env) where
  pub Keeps-refl : (st : Store) → IsStore env st → Keeps env st st
  Keeps-refl st h = record {
    valid = h;
    same = λ u n. refl;
    pinned = λ u n f e l. e;
    absent = λ u n e. (e, refl);
  }

  pub Keeps-trans : (a b c : Store) → Keeps env a b → Keeps env b c → Keeps env a c
  Keeps-trans a b c p q = record {
    valid = q.valid;
    same = λ u n. q.same u n ∙ p.same u n;
    pinned = λ u n f e l. q.pinned u n f (p.pinned u n f e l) l;
    absent = λ u n e. (
      (q.absent u n (p.absent u n e).0).0,
      (q.absent u n (p.absent u n e).0).1 ∙ (p.absent u n e).1,
    );
  }

  -- Another order of the same entries.
  pub reordered-Keeps :
      (st : Store) (es : Entries)
      → IsStore env st
      → IsCache es
      → ((u n : ℕ) → find es u n ≡ find st.entries u n)
      → Keeps env st (record st { entries = es })
  unfolding shows
  reordered-Keeps st es h c same = record {
    valid = record {
      cache = c;
      keys = λ u n f e. h.keys u n f (sym (same u n) ∙ e);
      clean = λ u n f e. h.clean u n f (sym (same u n) ∙ e);
      numbered = λ u n e. h.numbered u n (sym (same u n) ∙ e);
    };
    same = λ u n. rw (same u n, shows) refl;
    pinned = λ u n f e l. same u n ∙ e;
    absent = λ u n e. (same u n ∙ e, refl);
  }

  pub get-Keeps :
      (st : Store) (fd num : ℕ)
      → IsStore env st
      → Keeps env st (record st { entries = (get st.entries fd num).1 })
  get-Keeps st fd num h =
      let got = get-Got st.entries fd num h.cache in
      reordered-Keeps st (get st.entries fd num).1 h got.cache got.same

  -- Without the frame of an entry that is clean and not pinned.
  pub removed-Keeps :
      (st : Store) (fd num : ℕ) (f : Frame) (es : Entries)
      → IsStore env st
      → find st.entries fd num ≡ some f
      → f.dirty ≡ false
      → f.pin_count ≡ 0
      → IsCache es
      → ((u n : ℕ) → find es u n ≡ (if fd == u && num == n then none else find st.entries u n))
      → Keeps env st (record st { entries = es })
  unfolding shows
  removed-Keeps st fd num f es h e clean unpinned c lacks =
      let page : (u n : ℕ)
          → (fd == u && num == n) ≡ true
          → (find st.entries u n ≡ some f) × (st.disk u n ≡ f.page) =
        λ u n q.
          let same_desc : fd ≡ u = ground arith in
          let same_num : num ≡ n = ground arith in
          (
            rw (← same_desc, ← same_num) e,
            rw (← same_desc, ← same_num) (h.clean fd num f e clean),
          ) in
      record {
        valid = record {
          cache = c;
          keys = λ u n g k. ground (arith, lacks u n, h.keys u n g);
          clean = λ u n g k. ground (arith, lacks u n, h.clean u n g);
          numbered = λ u n k r. elim (Bool-cases (fd == u && num == n)) [
            | inl q ↦ rw (page u n q).1 (h.keys u n f (page u n q).0).1
            | inr q ↦ h.numbered u n (sym (lacks u n ∙ rw q refl) ∙ k) r
          ];
        };
        same = λ u n. elim (Bool-cases (fd == u && num == n)) [
          | inl q ↦ rw (lacks u n, q, (page u n q).0, (page u n q).1, shows) refl
          | inr q ↦ rw (lacks u n, q, shows) refl
        ];
        pinned = λ u n g k l. elim (Bool-cases (fd == u && num == n)) [
          | inl q ↦ ground (arith, page u n q)
          | inr q ↦ lacks u n ∙ rw q k
        ];
        absent = λ u n k. (ground (arith, lacks u n), refl);
      }

  -- A frame that has been written to its file.
  pub written-Keeps :
      (st : Store) (fd num : ℕ) (f : Frame)
      → IsStore env st
      → find st.entries fd num ≡ some f
      → f.pin_count ≡ 0
      → Keeps env st (record {
        entries = assign st.entries fd num (record f { dirty = false });
        disk = write_page st.disk fd num f.page;
      })
  unfolding shows write_page
  written-Keeps st fd num f h e unpinned =
      let there : (u n : ℕ)
          → (fd == u && num == n) ≡ true
          → (find st.entries u n ≡ some f) × (fd ≡ u) × (num ≡ n) =
        λ u n q.
          let same_desc : fd ≡ u = ground arith in
          let same_num : num ≡ n = ground arith in
          (rw (← same_desc, ← same_num) e, same_desc, same_num) in
      let f' : Frame = record f { dirty = false } in
      let now : (u n : ℕ)
          → find (assign st.entries fd num f') u n
            ≡ (if fd == u && num == n then some f' else find st.entries u n) =
        λ u n. find-assign st.entries fd num f f' u n e in
      record {
        valid = record {
          cache = assign-IsCache st.entries fd num f' h.cache;
          keys = λ u n g k. ground (arith, now u n, h.keys u n g, there u n, h.keys u n f);
          clean = λ u n g k d. ground (arith, now u n, h.clean u n g, there u n);
          numbered = λ u n k r. ground (arith, now u n, h.numbered u n);
        };
        same = λ u n. elim (Bool-cases (fd == u && num == n)) [
          | inl q ↦ rw (now u n, q, (there u n q).0, shows) refl
          | inr q ↦
              shows_by st
                (record {
                  entries = assign st.entries fd num f';
                  disk = write_page st.disk fd num f.page;
                })
                u n (now u n ∙ rw q refl) (rw q refl)
        ];
        pinned = λ u n g k l. ground (arith, now u n, there u n);
        absent = λ u n k. ground (arith, now u n, there u n);
      }

  -- A dirty frame that could not be written.
  pub torn-Keeps :
      (st : Store) (fd num : ℕ) (f : Frame) (page : Page)
      → IsStore env st
      → find st.entries fd num ≡ some f
      → f.dirty ≡ true
      → Keeps env st (record st { disk = write_page st.disk fd num page })
  unfolding shows write_page
  torn-Keeps st fd num f page h e dirty =
      let there : (u n : ℕ) → (fd == u && num == n) ≡ true → find st.entries u n ≡ some f = λ u n q.
        let same_desc : fd ≡ u = ground arith in
        let same_num : num ≡ n = ground arith in rw (← same_desc, ← same_num) e in
      record {
        valid = record {
          cache = h.cache;
          keys = h.keys;
          clean = λ u n g k d. ground (arith, h.clean u n g k d, there u n);
          numbered = λ u n k r. ground (arith, h.numbered u n k r, there u n);
        };
        same = λ u n. elim (Bool-cases (fd == u && num == n)) [
          | inl q ↦ rw (there u n q, shows) refl
          | inr q ↦
              shows_by st (record st { disk = write_page st.disk fd num page }) u n refl (rw q refl)
        ];
        pinned = λ u n g k l. k;
        absent = λ u n k. (k, ground (arith, there u n));
      }
