-- ===== src/Buffer/Flush.antt =====
-- disk_buffer_pool.cpp: giving a frame back to the cache, and writing it to its file first.
use oceanbase_jp.Prelude.{
  ℕ, ◌≡◌, ◌≢◌, refl, sym, ◌∙◌, inl, inr, true, false, ◌&&◌, none, some, arith, ◌==◌, if◌then◌else◌,
  suc, Bool-cases, subst,
}
use oceanbase_jp.Rc.{Rc, success, nomem, internal}
use oceanbase_jp.Buffer.{
  Page, Frame, Entry, Entries, Store, Env, find, assign, count, get, free, write_page, flush_page,
  manager_flush_page, flush_if_dirty,
}
use oceanbase_jp.Buffer.Cache.{
  IsCache, find-remove, remove-IsCache, count-remove, count-assign, find-assign, get-Got,
}
use oceanbase_jp.Buffer.Frames.{IsStore, Keeps, Keeps-refl, written-Keeps, torn-Keeps}

-- Freeing the frame of an entry takes it out of the cache.
pub record Freed (es : Entries) (fd num : ℕ) (es' : Entries) : Type 0 where
  pub cache : IsCache es'
  pub lacks : (u n : ℕ) → find es' u n ≡ (if fd == u && num == n then none else find es u n)
  pub size : suc (count es') ≡ count es

pub free-Freed :
    (es : Entries) (fd num : ℕ) (f : Frame)
    → IsCache es
    → find es fd num ≡ some f
    → ((free es fd num fd num).0 ≡ success) × Freed es fd num (free es fd num fd num).1
unfolding free
free-Freed es fd num f h e =
    let got = get-Got es fd num h in
    let found : (get es fd num).0 ≡ some f = got.found ∙ e in
    let here : (fd == fd && num == num) ≡ true = ground arith in
    let there : find (get es fd num).1 fd num ≡ some f = got.same fd num ∙ e in
    rw (found, free, here)
      (
        refl,
        record {
          cache = remove-IsCache (get es fd num).1 fd num got.cache;
          lacks = λ u n.
              ground (arith, find-remove (get es fd num).1 fd num u n got.cache, got.same u n);
          size = count-remove (get es fd num).1 fd num f there ∙ got.size;
        },
      )

module _ (env : Env) where
  -- Flushing a frame keeps what is shown; where it succeeds the frame is clean.
  pub record Flushed (st : Store) (e : Entry) (r : Rc × Store) : Type 0 where
    pub keeps : Keeps env st r.1
    pub size : count r.1.entries ≡ count st.entries
    pub code : r.0 ≢ nomem
    pub clean :
        r.0 ≡ success
        → (f : Frame) × (find r.1.entries e.key_desc e.key_num ≡ some f)
          × (f.dirty ≡ false)
          × (f.pin_count ≡ 0)

  pub flush_page-Flushed :
      (fd : ℕ) (st : Store) (e : Entry)
      → IsStore env st
      → find st.entries e.key_desc e.key_num ≡ some e.frame
      → e.frame.pin_count ≡ 0
      → e.frame.dirty ≡ true
      → fd ≡ e.key_desc
      → Flushed st e (flush_page env fd st e)
  unfolding flush_page
  flush_page-Flushed fd st e h there unpinned dirty same_desc =
      let keys = h.keys e.key_desc e.key_num e.frame there in
      let num = e.frame.page.page_num in
      let same : (page : Page)
          → write_page st.disk fd num page ≡ write_page st.disk e.key_desc e.key_num page =
        λ page. rw (same_desc, keys.1) refl in
      let f' : Frame = record e.frame { dirty = false } in
      let es' = assign st.entries e.key_desc e.key_num f' in
      let torn = env.torn (st.disk fd num) e.frame.page in
      elim (Bool-cases (env.writes fd num)) [
        | inl q ↦
            rw (flush_page, q)
              (record {
                keeps =
                    subst (λ disk. Keeps env st (record { entries = es'; disk = disk }))
                      (sym (same e.frame.page))
                      (written-Keeps env st e.key_desc e.key_num e.frame h there unpinned);
                size = count-assign st.entries e.key_desc e.key_num f';
                code = λ ok. ground arith;
                clean = λ ok. (
                  f',
                  ground (
                    arith,
                    find-assign st.entries e.key_desc e.key_num e.frame f' e.key_desc e.key_num
                        there,
                  ),
                  refl,
                  unpinned,
                );
              })
        | inr q ↦
            rw (flush_page, q)
              (record {
                keeps =
                    subst (λ disk. Keeps env st (record { entries = st.entries; disk = disk }))
                      (sym (same torn))
                      (torn-Keeps env st e.key_desc e.key_num e.frame torn h there dirty);
                size = refl;
                code = λ ok. ground arith;
                clean = λ ok. ground arith;
              })
      ]

  pub flush_if_dirty-Flushed :
      (st : Store) (e : Entry)
      → IsStore env st
      → find st.entries e.key_desc e.key_num ≡ some e.frame
      → e.frame.pin_count ≡ 0
      → Flushed st e (flush_if_dirty env st e)
  unfolding flush_if_dirty manager_flush_page
  flush_if_dirty-Flushed st e h there unpinned = elim (Bool-cases e.frame.dirty) [
    | inr clean ↦
        let by : flush_if_dirty env st e ≡ (success, st) = ground (arith, clean) in
        subst (λ r. Flushed st e r) (sym by)
          (record {
            keeps = Keeps-refl env st h;
            size = refl;
            code = λ ok. ground arith;
            clean = λ ok. (e.frame, there, clean, unpinned);
          })
    | inl dirty ↦ elim (Bool-cases (env.opened e.frame.file_desc)) [
      | inl q ↦
          let by : flush_if_dirty env st e ≡ flush_page env e.frame.file_desc st e =
            ground (arith, dirty, q) in
          subst (λ r. Flushed st e r) (sym by)
            (flush_page-Flushed e.frame.file_desc st e h there unpinned dirty
              (h.keys e.key_desc e.key_num e.frame there).0)
      | inr q ↦
          let by : flush_if_dirty env st e ≡ (internal, st) = ground (arith, dirty, q) in
          subst (λ r. Flushed st e r) (sym by)
            (record {
              keeps = Keeps-refl env st h;
              size = refl;
              code = λ ok. ground arith;
              clean = λ ok. ground arith;
            })
    ]
  ]
