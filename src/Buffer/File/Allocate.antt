-- ===== src/Buffer/File/Allocate.antt =====
-- disk_buffer_pool.cpp: DiskBufferPool::allocate_page.
use oceanbase_jp.Prelude.{
  ℕ, ◌≡◌, ◌≢◌, ◌<◌, refl, sym, ◌∙◌, inl, inr, true, false, ◌&&◌, none, some, arith, leb, ◌==◌,
  if◌then◌else◌, Bool-cases, subst,
}
use oceanbase_jp.Rc.{Rc, success, nomem, bufferpool_nobuf}
use oceanbase_jp.Buffer.{
  Frame, Store, Env, find, assign, count, write_page, flush_page, allocate_frame,
}
use oceanbase_jp.Buffer.Cache.{find-assign}
use oceanbase_jp.Buffer.Frames.{shows, shows_by, IsStore, Keeps}
use oceanbase_jp.Buffer.Room.{Ending, placed, full, failed, allocate_frame-Allocated}
use oceanbase_jp.Buffer.Pages.{get_this_page-Asked}
use oceanbase_jp.Buffer.Fetch.{Asked, fresh, fresh-find}
use oceanbase_jp.Buffer.File.{
  is_allocated, max_page_num, take_page, extend_header, Pool, zeroed, reused, extended, allocate_at,
  allocate_page,
}
use oceanbase_jp.Buffer.File.Header.{
  IsHeader, Bits, free_page-First, take_page-IsHeader, extend_header-IsHeader,
}

module _ (env : Env) (fd : ℕ) where
  -- The store with the new frame of the page that the file is extended by.
  placed_zeroed : Store → ℕ → Store
  placed_zeroed room num = record room {
    entries = assign (fresh env room fd num) fd num (zeroed fd num);
  }

  -- That store after the flush.
  written : Store → ℕ → Store
  unfolding placed_zeroed flush_page
  written room num =
      (flush_page env fd (placed_zeroed room num)
        (record { key_desc = fd; key_num = num; frame = zeroed fd num })).1

  placed_zeroed-find :
      (room : Store) (num u n : ℕ)
      → find (placed_zeroed room num).entries u n
        ≡ (if fd == u && num == n then some (zeroed fd num) else find room.entries u n)
  unfolding placed_zeroed
  placed_zeroed-find room num u n = fresh-find env room fd num (zeroed fd num) u n

  -- Whether or not the page could be written, it has a frame of zeros, and all other pages are as they
  -- were.
  written-find :
      (room : Store) (num u n : ℕ)
      → (find (written room num).entries u n
          ≡ (if fd == u && num == n then some (zeroed fd num) else find room.entries u n))
        × ((fd == u && num == n) ≡ false → (written room num).disk u n ≡ room.disk u n)
  unfolding written flush_page write_page
  written-find room num u n =
      let st = placed_zeroed room num in
      let z : Frame = zeroed fd num in
      let placed = placed_zeroed-find room num in
      let Shape : Store → Type 0 = λ st'.
        (find st'.entries u n ≡ (if fd == u && num == n then some z else find room.entries u n))
        × ((fd == u && num == n) ≡ false → st'.disk u n ≡ room.disk u n) in
      elim (Bool-cases (env.writes fd num)) [
        | inl q ↦
            let by : written room num ≡ record {
              entries = assign st.entries fd num z;
              disk = write_page st.disk fd num z.page;
            } =
              ground (arith, q) in
            subst Shape (sym by) (
              ground (
                arith,
                find-assign st.entries fd num z z u n (placed fd num ∙ ground arith),
                placed u n,
              ),
              λ r. unfold placed_zeroed in rw r refl,
            )
        | inr q ↦
            let by : written room num ≡ record st {
              disk = write_page st.disk fd num (env.torn (st.disk fd num) z.page);
            } =
              ground (arith, q) in
            subst Shape (sym by) (placed u n, λ r. unfold placed_zeroed in rw r refl)
      ]

  -- A page of the file is given: one that was not allocated, the lowest such, and now it is. The header
  -- stays valid, and no other page shows anything else; a page behind the last is empty.
  pub record Allocates (p : Pool) (rc : Rc) (num : ℕ) (p' : Pool) : Type 0 where
    pub header : IsHeader p'.header
    pub given :
        rc ≡ success
        → (is_allocated p.header num ≡ false)
          × Bits p.header num true p'.header
          × ((j : ℕ) → j < num → is_allocated p.header j ≡ true)
    pub same : (u n : ℕ) → (fd == u && num == n) ≡ false → shows p'.store u n ≡ shows p.store u n
    pub empty : rc ≡ success → num ≡ p.header.page_count → (a : ℕ) → shows p'.store fd num a ≡ 0

  refused-Allocates :
      (p : Pool) (rc : Rc) (num : ℕ) (st : Store)
      → IsHeader p.header
      → rc ≢ success
      → ((u n : ℕ) → shows st u n ≡ shows p.store u n)
      → Allocates p rc num (record p { store = st })
  refused-Allocates p rc num st v bad same = record {
    header = v;
    given = λ ok. absurd (bad ok);
    same = λ u n q. same u n;
    empty = λ ok. absurd (bad ok);
  }

  reused-Allocates :
      (p : Pool) (num : ℕ) (r : Rc × Store)
      → IsHeader p.header
      → num < p.header.page_count
      → is_allocated p.header num ≡ false
      → ((j : ℕ) → j < num → is_allocated p.header j ≡ true)
      → Asked env fd num p.store r
      → Allocates p r.0 num (record p { header = take_page p.header num; store = r.1 })
  reused-Allocates p num r v l free lowest a =
      let taken = take_page-IsHeader p.header num v l free in
      record {
        header = taken.0;
        given = λ ok. (free, taken.1, lowest);
        same = λ u n q. a.same u n;
        empty = λ ok e. absurd (omega arith);
      }

  written-Allocates :
      (p : Pool) (room : Store)
      → IsHeader p.header
      → p.header.page_count < max_page_num
      → ((j : ℕ) → j < p.header.page_count → is_allocated p.header j ≡ true)
      → Keeps env p.store room
      → Allocates p success p.header.page_count
          (record p { header = extend_header p.header; store = written room p.header.page_count })
  unfolding shows
  written-Allocates p room v l all k =
      let num = p.header.page_count in
      let longer = extend_header-IsHeader p.header v l in
      record {
        header = longer.0;
        given = λ ok. (v.beyond num (omega arith), longer.1, all);
        same = λ u n q.
            shows_by room (written room num) u n ((written-find room num u n).0 ∙ rw q refl)
              ((written-find room num u n).1 q)
            ∙ k.same u n;
        empty = λ ok e a.
            let there : find (written room num).entries fd num ≡ some (zeroed fd num) =
              (written-find room num fd num).0 ∙ ground arith in
            rw (there, shows) refl;
      }

  -- The end of allocate_page where the file is extended.
  extended-Allocates :
      (p : Pool) (room : Store) (rc : Rc) (after : Store)
      → IsHeader p.header
      → p.header.page_count < max_page_num
      → ((j : ℕ) → j < p.header.page_count → is_allocated p.header j ≡ true)
      → Keeps env p.store room
      → Ending env p.store fd p.header.page_count room rc after
      → (code : Rc) × (p' : Pool) × (extended env fd p p.header.page_count (some (rc, after))
          ≡ some (code, p.header.page_count, p'))
        × Allocates p code p.header.page_count p'
  unfolding extended written placed_zeroed
  extended-Allocates p room rc after v l all k (placed s w m) =
      (success, _, refl, written-Allocates p room v l all k)
  extended-Allocates p room rc after v l all k (full s w no_room pinned) =
      (nomem, _, refl, refused-Allocates p nomem p.header.page_count room v (ground arith) k.same)
  extended-Allocates p room rc after v l all k (failed before s e code w m b fl bad other) = (
    code,
    record p { store = room },
    ground (arith, bad),
    refused-Allocates p code p.header.page_count room v bad k.same,
  )

  -- DiskBufferPool::allocate_page, on a pool with a valid header and valid frames with no
  -- frame of a page behind the last and with more fuel than there are frames, ends, and keeps the header valid. If it succeeds, the page was not
  -- allocated and all pages below it were, it is allocated now, and no other bit changes; a page by
  -- which the file is extended shows zeros. No other page of any file shows anything else, whether the
  -- call succeeds or not.
  pub allocate_page-Allocates :
      (fuel : ℕ) (p : Pool)
      → IsHeader p.header
      → IsStore env p.store
      → count p.store.entries < fuel
      → find p.store.entries fd p.header.page_count ≡ none
      → (rc : Rc) × (num : ℕ) × (p' : Pool) × (allocate_page env fd fuel p ≡ some (rc, num, p'))
        × Allocates p rc num p'
  unfolding allocate_page allocate_at
  allocate_page-Allocates fuel p v h l behind = elim (free_page-First p.header v) [
    | inr (i, e, low, high, free, lowest) ↦
        let (r, by, asked) = get_this_page-Asked env fuel p.store fd i h l in
        (
          r.0,
          i,
          _,
          rw (e, allocate_page, by) (unfold reused in refl),
          reused-Allocates p i r v high free (λ j k. lowest j (omega arith) k) asked,
        )
    | inl (e, all) ↦ elim (Bool-cases (leb max_page_num p.header.page_count)) [
      | inl q ↦ (
        bufferpool_nobuf,
        p.header.page_count,
        p,
        rw (e, allocate_page) (ground (arith, q)),
        refused-Allocates p bufferpool_nobuf p.header.page_count p.store v (ground arith)
            (λ u n. refl),
      )
      | inr q ↦
          let num = p.header.page_count in
          let a = allocate_frame-Allocated env fuel p.store fd num h behind l in
          let (code, p', by, given) =
            extended-Allocates p a.room a.rc a.after v (ground (arith, q))
              (λ j k. all j (omega arith) k) a.keeps a.ending in
          let step : allocate_page env fd fuel p
              ≡ extended env fd p num (allocate_frame env fuel p.store fd num) =
            rw (e, allocate_page) (ground (arith, q)) in
          (code, num, p', step ∙ rw a.result by, given)
    ]
  ]
