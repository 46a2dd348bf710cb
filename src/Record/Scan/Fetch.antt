-- ===== src/Record/Scan/Fetch.antt =====
-- record_manager.cpp: RecordFileScanner gives the records of a file one by one.
use oceanbase_jp.Prelude.{
  ℕ, zero, suc, ◌+◌, ◌-◌, ◌≡◌, ◌<◌, ◌⊎◌, refl, sym, ◌∙◌, inl, inr, Bool, true, Option, none, some,
  List, [], ◌∷◌, arith,
}
use oceanbase_jp.Rc.{Rc, success, record_eof}
use oceanbase_jp.Lang.Bitmap.Bytes.{First}
use oceanbase_jp.Record.Page.{Rid, RecordPage}
use oceanbase_jp.Buffer.File.{FileHeader, is_allocated, next_page}
use oceanbase_jp.Buffer.File.Header.{next_page-First}
use oceanbase_jp.Record.Scan.{
  PageIterator, Scanner, iterator_init, fetch_in_page, fetched, opened, paged, fetch_pages,
  fetch_next_record,
}
use oceanbase_jp.Record.Scan.Slots.{
  slots_from, slots_from_none, slots_from_found, IsAt, push, left, all_slots, init-left,
  Enough-fuel, fetch_in_page-Fetched,
}

-- The places of slots of a page, in front of more.
abbrev pub places : ℕ → List ℕ → List Rid → List Rid
places num [] more = more
places num (s ∷ ss) more = record { page_num = num; slot_num = s } ∷ places num ss more

module _ (keep : RecordPage → ℕ → Bool) (header : FileHeader) (pages : ℕ → Rc × RecordPage) where
  -- The records of a list of pages.
  abbrev pub records_of : List ℕ → List Rid
  records_of [] = []
  records_of (num ∷ nums) =
      let page = (pages num).1 in places page.page_num (all_slots keep page) (records_of nums)

  -- The pages behind one.
  abbrev pub pages_behind : ℕ → List ℕ
  pages_behind num =
      slots_from (is_allocated header) (λ _. true) (header.page_count - (num + 1)) (num + 1)

  -- What is left to a scanner: the records of its page, and of the pages behind.
  abbrev pub rest_in : Option PageIterator → List Rid → List Rid
  rest_in none more = more
  rest_in (some it) more = places it.page.page_num (left keep it.page it.next_slot_num) more

  abbrev pub rest : Scanner → List Rid
  rest sc = rest_in sc.slots (records_of (pages_behind sc.at_page))

  -- The iterators stand at a page and a slot in use, and the fuel is enough.
  abbrev pub IsIn : ℕ → Option PageIterator → Type 0
  IsIn fuel none = Unit {0}
  IsIn fuel (some it) = IsAt it.page it.next_slot_num × (it.page.header.record_capacity < fuel)

  pub record IsScanner (fuel : ℕ) (sc : Scanner) : Type 0 where
    pub page : is_allocated header sc.at_page ≡ true
    pub inside : sc.at_page < header.page_count
    pub slots : IsIn fuel sc.slots

  -- A fetch gives the first record that is left, or RECORD_EOF where none is.
  pub record Fetches (fuel : ℕ) (before : List Rid) (r : Rc × Option Rid × Scanner) : Type 0 where
    pub scanner : IsScanner fuel r.2
    pub given :
        ((rid : Rid) × (r.0 ≡ success) × (r.1 ≡ some rid) × (before ≡ rid ∷ rest r.2))
        ⊎ ((r.0 ≡ record_eof) × (r.1 ≡ none) × (before ≡ []))

  pages_behind-next :
      (at : ℕ) (r : Option ℕ)
      → First (is_allocated header) true (at + 1) header.page_count r
      → (r ≡ none × pages_behind at ≡ [])
        ⊎ ((num : ℕ) × (r ≡ some num)
            × (at < num)
            × (num < header.page_count)
            × (is_allocated header num ≡ true)
            × (pages_behind at ≡ num ∷ pages_behind num))
  pages_behind-next at r (inl (e, free)) = inl (
    e,
    slots_from_none (is_allocated header) (λ _. true) _ (at + 1) (λ j a b. free j a (omega arith)),
  )
  pages_behind-next at r (inr (num, e, lo, hi, taken, free)) =
      let found =
        slots_from_found (is_allocated header) (λ _. true) (header.page_count - (at + 1)) (at + 1)
          num lo (omega arith) taken free in
      let same : at + 1 + (header.page_count - (at + 1)) - (num + 1)
          ≡ header.page_count - (num + 1) =
        omega arith in
      inr (num, e, omega arith, hi, taken, found ∙ rw same refl)

  fetched-Fetches :
      (again : Scanner → Option (Rc × Option Rid × Scanner)) (fuel num : ℕ) (page : RecordPage)
      (next : Option ℕ)
      → is_allocated header num ≡ true
      → num < header.page_count
      → IsAt page next
      → page.header.record_capacity < fuel
      → ((slots : Option PageIterator)
          → IsScanner fuel (record { at_page = num; slots = slots })
          → (r : Rc × Option Rid × Scanner) × (again (record { at_page = num; slots = slots })
              ≡ some r)
            × Fetches fuel (records_of (pages_behind num)) r)
      → (r : Rc × Option Rid × Scanner) × (fetched keep header pages again num
            (fetch_in_page keep fuel (record { page = page; next_slot_num = next }))
          ≡ some r)
        × Fetches fuel
            (places page.page_num (left keep page next) (records_of (pages_behind num)))
            r
  unfolding fetched
  fetched-Fetches again fuel num page next taken inside at l more =
      let (found, next', by, f) =
        fetch_in_page-Fetched keep page fuel next at (Enough-fuel keep page fuel next l) in
      rw (by, f.given) (go found next' f.at f.ended)
    where
      go :
          (found next' : Option ℕ)
          → IsAt page next'
          → (found ≡ none → next' ≡ none)
          → (r : Rc × Option Rid × Scanner) × (fetched keep header pages again num
                (some (found, record { page = page; next_slot_num = next' }))
              ≡ some r)
            × Fetches fuel
                (places page.page_num
                  (push found (left keep page next'))
                  (records_of (pages_behind num)))
                r
      go none next' at' ended =
          let (r, by, f) =
            more (some (record { page = page; next_slot_num = next' }))
              (record { page = taken; inside = inside; slots = (at', l) }) in
          (r, by, rw (ended refl) f)
      go (some slot) next' at' ended = (
        _,
        refl,
        record {
          scanner = record { page = taken; inside = inside; slots = (at', l) };
          given = inl (record { page_num = page.page_num; slot_num = slot }, refl, refl, refl);
        },
      )

  module _ (fuel : ℕ)
      (readable : (num : ℕ) → is_allocated header num ≡ true → (pages num).0 ≡ success)
      (small : (num : ℕ)
        → is_allocated header num ≡ true
        → (pages num).1.header.record_capacity < fuel) where
    opened_by :
        (again : Scanner → Option (Rc × Option Rid × Scanner)) (sc : Scanner) (num : ℕ)
        → (pages num).0 ≡ success
        → paged keep header pages again fuel sc (some num)
          ≡ fetched keep header pages again num
              (fetch_in_page keep fuel (iterator_init (pages num).1))
    unfolding paged opened
    opened_by again sc num e = rw (e, opened) refl

    fetch_pages-Fetches :
        (rounds : ℕ) (sc : Scanner)
        → IsScanner fuel sc
        → header.page_count < sc.at_page + rounds
        → (r : Rc × Option Rid × Scanner) × (fetch_pages keep header pages rounds fuel sc ≡ some r)
          × Fetches fuel (records_of (pages_behind sc.at_page)) r
    unfolding fetch_pages
    fetch_pages-Fetches zero sc v l = absurd (omega (arith, l, v.inside))
    fetch_pages-Fetches (suc rounds) sc v l =
        elim (pages_behind-next sc.at_page (next_page header sc.at_page).0
          (next_page-First header sc.at_page v.page)) [
            | inl (e, none_left) ↦ (
              (record_eof, none, sc),
              rw e (unfold paged in refl),
              rw none_left (record { scanner = v; given = inr (refl, refl, refl) }),
            )
            | inr (num, e, lo, hi, taken, behind) ↦
                let page = (pages num).1 in
                let start = init-left keep page in
                let (r, by, f) =
                  fetched-Fetches (λ sc'. fetch_pages keep header pages rounds fuel sc') fuel num
                    page (iterator_init page).next_slot_num taken hi start.0 (small num taken)
                    (λ slots v'.
                      fetch_pages-Fetches rounds (record { at_page = num; slots = slots }) v'
                        (omega (arith, l, lo))) in
                (
                  r,
                  rw e (
                      opened_by (λ sc'. fetch_pages keep header pages rounds fuel sc')
                        (record sc { at_page = num }) num (readable num taken)
                      ∙ by),
                  rw behind (rw (sym start.1) f),
                )
          ]

    -- RecordFileScanner::fetch_next_record, where every allocated page can be opened and with more
    -- fuel than there are pages and slots in a page, ends. It gives the first record that is left, in
    -- the order of pages and slots, and leaves the others; or RECORD_EOF, where none is left.
    pub fetch_next_record-Fetches :
        (rounds : ℕ) (sc : Scanner)
        → IsScanner fuel sc
        → header.page_count < sc.at_page + rounds
        → (r : Rc × Option Rid × Scanner) × (fetch_next_record keep header pages rounds fuel sc
            ≡ some r)
          × Fetches fuel (rest sc) r
    unfolding fetch_next_record
    fetch_next_record-Fetches rounds sc v l = go sc.slots v.slots
      where
        go :
            (slots : Option PageIterator)
            → IsIn fuel slots
            → (r : Rc × Option Rid × Scanner) × (fetch_next_record keep header pages rounds fuel
                  (record { at_page = sc.at_page; slots = slots })
                ≡ some r)
              × Fetches fuel (rest_in slots (records_of (pages_behind sc.at_page))) r
        go none within =
            fetch_pages-Fetches rounds (record { at_page = sc.at_page; slots = none })
              (record { page = v.page; inside = v.inside; slots = tt }) l
        go (some it) within =
            fetched-Fetches (λ sc'. fetch_pages keep header pages rounds fuel sc') fuel sc.at_page
              it.page it.next_slot_num v.page v.inside within.0 within.1
              (λ slots v'.
                fetch_pages-Fetches rounds (record { at_page = sc.at_page; slots = slots }) v' l)
