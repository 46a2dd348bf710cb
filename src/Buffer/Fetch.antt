-- ===== src/Buffer/Fetch.antt =====
-- What DiskBufferPool::get_this_page (storage/default/disk_buffer_pool.cpp) does for a caller, on a
-- page that has a frame and on one that gets a new frame.
use oceanbase_jp.Prelude.{
  ℕ, ◌≡◌, ◌≤◌, ◌+◌, refl, ◌∙◌, inl, inr, true, false, ◌&&◌, none, some, ◌∷◌, arith, ◌==◌,
  if◌then◌else◌, Bool-cases,
}
use oceanbase_jp.Rc.{Rc, success}
use oceanbase_jp.Buffer.{Frame, Entries, Store, Env, find, assign}
use oceanbase_jp.Buffer.Cache.{IsCache, NotIn-find, find-assign, assign-IsCache}
use oceanbase_jp.Buffer.Frames.{shows, shows_by, IsStore, Keeps}

-- The pins of a page; a page without a frame has none.
unfoldable pub pins : Store → ℕ → ℕ → ℕ
pins st fd num = elim (find st.entries fd num) [ some frame ↦ frame.pin_count | none ↦ 0 ]

-- A page was asked for: what is shown stays, and so do the pinned frames of other pages; the page has
-- one more pin if the call succeeds.
pub record Asked (env : Env) (fd num : ℕ) (st : Store) (r : Rc × Store) : Type 0 where
  pub valid : IsStore env r.1
  pub same : (u n : ℕ) → shows r.1 u n ≡ shows st u n
  pub others :
      (u n : ℕ) (f : Frame)
      → (fd == u && num == n) ≡ false
      → find st.entries u n ≡ some f
      → 1 ≤ f.pin_count
      → find r.1.entries u n ≡ some f
  pub frame :
      r.0 ≡ success
      → (f : Frame) × (find r.1.entries fd num ≡ some f)
        × (f.pin_count ≡ pins st fd num + 1)
        × (f.page.bytes ≡ shows st fd num)

module _ (env : Env) where
  -- One more pin on a frame.
  pub hit-Asked :
      (st : Store) (fd num : ℕ) (f : Frame)
      → IsStore env st
      → find st.entries fd num ≡ some f
      → Asked env fd num st (
        success,
        record st { entries = assign st.entries fd num (record f { pin_count = f.pin_count + 1 }) },
      )
  unfolding shows pins
  hit-Asked st fd num f h e =
      let there : (u n : ℕ)
          → (fd == u && num == n) ≡ true
          → (find st.entries u n ≡ some f) × (fd ≡ u) × (num ≡ n) =
        λ u n q.
          let same_desc : fd ≡ u = ground arith in
          let same_num : num ≡ n = ground arith in
          (rw (← same_desc, ← same_num) e, same_desc, same_num) in
      let f' : Frame = record f { pin_count = f.pin_count + 1 } in
      let now : (u n : ℕ)
          → find (assign st.entries fd num f') u n
            ≡ (if fd == u && num == n then some f' else find st.entries u n) =
        λ u n. find-assign st.entries fd num f f' u n e in
      record {
        valid = record {
          cache = assign-IsCache st.entries fd num f' h.cache;
          keys = λ u n g k. ground (arith, now u n, h.keys u n g, there u n, h.keys u n f);
          clean = λ u n g k d. ground (arith, now u n, h.clean u n g, there u n, h.clean u n f);
          numbered = λ u n k r. ground (arith, now u n, h.numbered u n);
        };
        same = λ u n. elim (Bool-cases (fd == u && num == n)) [
          | inl q ↦ rw (now u n, q, (there u n q).0, shows) refl
          | inr q ↦
              shows_by st (record st { entries = assign st.entries fd num f' }) u n
                (now u n ∙ rw q refl) refl
        ];
        others = λ u n g q k l. now u n ∙ rw q k;
        frame = λ ok. (f', now fd num ∙ ground arith, ground (arith, e), ground (arith, e));
      }

  -- A store that keeps what is shown may come between.
  pub later-Asked :
      (st st' : Store) (fd num : ℕ) (r : Rc × Store)
      → pins st' fd num ≡ pins st fd num
      → Keeps env st st'
      → Asked env fd num st' r
      → Asked env fd num st r
  later-Asked st st' fd num r pinned k a = record {
    valid = a.valid;
    same = λ u n. a.same u n ∙ k.same u n;
    others = λ u n f q e l. a.others u n f q (k.pinned u n f e l) l;
    frame = λ ok.
        let (f, found, more, bytes) = a.frame ok in
        (f, found, more ∙ rw pinned refl, bytes ∙ k.same fd num);
  }

  pub pins_by :
      (st st' : Store) (fd num : ℕ)
      → find st'.entries fd num ≡ find st.entries fd num
      → pins st' fd num ≡ pins st fd num
  unfolding pins
  pins_by st st' fd num e = rw (e, pins) refl

  abbrev pub fresh : Store → ℕ → ℕ → Entries
  fresh st fd num =
      record { key_desc = fd; key_num = num; frame = env.leftover fd num } ∷ st.entries

  pub fresh-find :
      (st : Store) (fd num : ℕ) (f : Frame) (u n : ℕ)
      → find (assign (fresh st fd num) fd num f) u n
        ≡ (if fd == u && num == n then some f else find st.entries u n)
  unfolding find
  fresh-find st fd num f u n =
      ground
        (arith, find-assign (fresh st fd num) fd num (env.leftover fd num) f u n (ground arith))

  pub fresh-IsCache :
      (st : Store) (fd num : ℕ) (f : Frame)
      → IsStore env st
      → find st.entries fd num ≡ none
      → IsCache (assign (fresh st fd num) fd num f)
  fresh-IsCache st fd num f h absent =
      assign-IsCache (fresh st fd num) fd num f (NotIn-find st.entries fd num absent, h.cache)
