-- ===== src/Buffer/Purge.antt =====
-- disk_buffer_pool.cpp: DiskBufferPool::purge_page, which gives the frame of a page back.
use oceanbase_jp.Prelude.{
  ℕ, ◌≡◌, ◌≤◌, refl, sym, ◌∙◌, inl, inr, true, false, Option, none, some, arith, Option-cases,
  Bool-cases, leb, subst,
}
use oceanbase_jp.Rc.{Rc, success, locked_unlock}
use oceanbase_jp.Buffer.{
  Frame, Entry, Entries, Store, Env, find, get, flush_page, freed, purge_frame, purge_found,
  purge_page,
}
use oceanbase_jp.Buffer.Cache.{get-Got, get_absent}
use oceanbase_jp.Buffer.Frames.{IsStore, Keeps, Keeps-refl, Keeps-trans, removed-Keeps, get-Keeps}
use oceanbase_jp.Buffer.Flush.{free-Freed, Flushed, flush_page-Flushed}
use oceanbase_jp.Buffer.Fetch.{pins, pins_by}

module _ (env : Env) (fd num : ℕ) where
  -- A purge keeps what is shown; if it succeeds the page has no frame, and a pinned page stays.
  pub record Purges (st : Store) (r : Rc × Store) : Type 0 where
    pub keeps : Keeps env st r.1
    pub gone : r.0 ≡ success → find r.1.entries fd num ≡ none
    pub locked : 1 ≤ pins st fd num → r.0 ≡ locked_unlock
    pub done : pins st fd num ≡ 0 → env.writes fd num ≡ true → r.0 ≡ success

  freed-Purges :
      (st : Store) (f : Frame) (rc : Rc) (st' : Store)
      → f.pin_count ≡ 0
      → find st.entries fd num ≡ some f
      → (env.writes fd num ≡ true → rc ≡ success)
      → Flushed env st (record { key_desc = fd; key_num = num; frame = f }) (rc, st')
      → Purges st (freed env fd num (record { key_desc = fd; key_num = num; frame = f }) rc st')
  unfolding freed pins
  freed-Purges st f success st' unpinned e ok fl =
      let (f', found, clean, unpinned') = fl.clean refl in
      let freed = (free-Freed st'.entries fd num f' fl.keeps.valid.cache found).1 in
      record {
        keeps = Keeps-trans env st st' _ fl.keeps (
            removed-Keeps env st' fd num f' _ fl.keeps.valid found clean unpinned' freed.cache
              freed.lacks);
        gone = λ d. freed.lacks fd num ∙ ground arith;
        locked = λ l. ground (arith, e);
        done = λ z w. refl;
      }
  freed-Purges st f rc st' unpinned e ok fl = record {
    keeps = fl.keeps;
    gone = λ d. ground arith;
    locked = λ l. ground (arith, e);
    done = λ z w. ok w;
  }

  purge_frame-Purges :
      (st : Store) (f : Frame)
      → IsStore env st
      → find st.entries fd num ≡ some f
      → Purges st (purge_frame env st fd num (record { key_desc = fd; key_num = num; frame = f }))
  unfolding purge_frame flush_page pins
  purge_frame-Purges st f h e =
      let entry : Entry = record { key_desc = fd; key_num = num; frame = f } in
      let keys = h.keys fd num f e in
      let unpinned : leb 1 f.pin_count ≡ false → f.pin_count ≡ 0 = λ q. ground arith in
      let again = freed env fd num entry in
      elim (Bool-cases (leb 1 f.pin_count)) [
        | inl q ↦
            let by : purge_frame env st fd num entry ≡ (locked_unlock, st) = ground (arith, q) in
            subst (λ r. Purges st r) (sym by)
              (record {
                keeps = Keeps-refl env st h;
                gone = λ d. ground arith;
                locked = λ l. refl;
                done = λ z w. ground (arith, e, q);
              })
        | inr q ↦ elim (Bool-cases f.dirty) [
          | inr clean ↦
              let by : purge_frame env st fd num entry ≡ again success st =
                ground (arith, q, clean) in
              subst (λ r. Purges st r) (sym by)
                (freed-Purges st f success st (unpinned q) e (λ w. refl)
                  (record {
                    keeps = Keeps-refl env st h;
                    size = refl;
                    code = λ c. ground arith;
                    clean = λ c. (f, e, clean, unpinned q);
                  }))
          | inl dirty ↦
              let by : purge_frame env st fd num entry
                  ≡ again (flush_page env fd st entry).0 (flush_page env fd st entry).1 =
                ground (arith, q, dirty) in
              subst (λ r. Purges st r) (sym by)
                (freed-Purges st f _ _ (unpinned q) e (λ w. ground (arith, w, keys))
                  (flush_page-Flushed env fd st entry h e (unpinned q) dirty refl))
        ]
      ]

  purge_found_by :
      (st : Store) (f : Frame) (got : Option Frame × Entries)
      → got.0 ≡ some f
      → purge_found env st fd num got
        ≡ purge_frame env
            (record st { entries = got.1 })
            fd
            num
            (record { key_desc = fd; key_num = num; frame = f })
  unfolding purge_found
  purge_found_by st f got e = rw (e, purge_found) refl

  -- DiskBufferPool::purge_page keeps what every page shows, the pinned frames, and a valid store. If it
  -- succeeds the page has no frame; a pinned page answers LOCKED_UNLOCK; and it succeeds for a page
  -- without pins that can be written.
  pub purge_page-Purges : (st : Store) → IsStore env st → Purges st (purge_page env st fd num)
  unfolding purge_page purge_found pins
  purge_page-Purges st h = elim (Option-cases (find st.entries fd num)) [
    | inl absent ↦
        let by : purge_page env st fd num ≡ (success, st) =
          rw (get_absent st.entries fd num absent, purge_page) refl in
        subst (λ r. Purges st r) (sym by)
          (record {
            keeps = Keeps-refl env st h;
            gone = λ d. absent;
            locked = λ l. ground (arith, absent);
            done = λ z w. refl;
          })
    | inr (f, e) ↦
        let got = get-Got st.entries fd num h.cache in
        let st' : Store = record st { entries = (get st.entries fd num).1 } in
        let k = get-Keeps env st fd num h in
        let purged = purge_frame-Purges st' f k.valid (got.same fd num ∙ e) in
        let same_pins = pins_by env st st' fd num (got.same fd num) in
        subst (λ r. Purges st r) (sym (purge_found_by st f (get st.entries fd num) (got.found ∙ e)))
          (record {
            keeps = Keeps-trans env st st' _ k purged.keeps;
            gone = purged.gone;
            locked = λ l. purged.locked (rw same_pins l);
            done = λ z w. purged.done (same_pins ∙ z) w;
          })
  ]
