-- ===== src/Record/Scan/Slots.antt =====
-- record_manager.cpp: the slots that a scan of one page gives.
use oceanbase_jp.Prelude.{
  ℕ, zero, suc, ◌+◌, ◌-◌, ◌≡◌, ◌≤◌, ◌<◌, refl, sym, ◌∙◌, inl, inr, Bool, true, false, ◌&&◌, Option,
  none, some, List, [], ◌∷◌, arith, if◌then◌else◌, Bool-cases, ℕ_discrete, subst,
}
use oceanbase_jp.Lang.Bitmap.{next_setted_bit}
use oceanbase_jp.Lang.Bitmap.Search.{next_setted_bit-First, next_setted_bit-First_after}
use oceanbase_jp.Lang.Bitmap.Bytes.{First}
use oceanbase_jp.Record.Page.{RecordPage, bitmap_of}
use oceanbase_jp.Record.Page.Valid.{used}
use oceanbase_jp.Record.Scan.{iterator_init, iterator_step, fetch_in_page}

-- The slots in use that the condition keeps, in order, by the slots left to look at.
unfoldable pub slots_from : (ℕ → Bool) → (ℕ → Bool) → ℕ → ℕ → List ℕ
slots_from used keep zero slot = []
slots_from used keep (suc rounds) slot =
    let rest = slots_from used keep rounds (slot + 1) in
    if used slot && keep slot then slot ∷ rest else rest

module _ (u k : ℕ → Bool) where
  pub slots_from_none :
      (rounds slot : ℕ)
      → ((j : ℕ) → slot ≤ j → j < slot + rounds → u j ≡ false)
      → slots_from u k rounds slot ≡ []
  unfolding slots_from
  slots_from_none zero slot h = refl
  slots_from_none (suc n) slot h = ground (
    arith,
    h slot (omega arith) (omega arith),
    slots_from_none n (slot + 1) (λ j a b. h j (omega arith) (omega arith)),
  )

  -- Slots that are free may be passed over; the slot in use is then the first, if it is kept.
  pub slots_from_found :
      (rounds slot i : ℕ)
      → slot ≤ i
      → i < slot + rounds
      → u i ≡ true
      → ((j : ℕ) → slot ≤ j → j < i → u j ≡ false)
      → slots_from u k rounds slot ≡ (
          let rest = slots_from u k (slot + rounds - (i + 1)) (i + 1) in
          if k i then i ∷ rest else rest)
  unfolding slots_from
  slots_from_found zero slot i lo hi at h = absurd (omega arith)
  slots_from_found (suc n) slot i lo hi at h = elim (ℕ_discrete slot i) [
    | yes e ↦
        let here : u slot ≡ true = subst (λ x. u x ≡ true) (sym e) at in
        let left : slot + suc n - (i + 1) ≡ n = omega arith in rw (here, left, ← e) refl
    | no ne ↦
        let left : slot + 1 + n - (i + 1) ≡ slot + suc n - (i + 1) = omega arith in
        rw (h slot (omega arith) (omega arith)) (
          slots_from_found n (slot + 1) i (omega arith) (omega arith) at
            (λ j a b. h j (omega arith) b)
          ∙ rw left refl)
  ]

-- The next slot of an iterator is one in use.
abbrev pub IsAt : RecordPage → Option ℕ → Type 0
IsAt page none = Unit {0}
IsAt page (some slot) = (slot < page.header.record_capacity) × (used page slot ≡ true)

abbrev pub push : Option ℕ → List ℕ → List ℕ
push none xs = xs
push (some x) xs = x ∷ xs

module _ (keep : RecordPage → ℕ → Bool) (page : RecordPage) where
  -- The slots that are left to an iterator.
  abbrev pub left : Option ℕ → List ℕ
  left none = []
  left (some slot) = slots_from (used page) (keep page) (page.header.record_capacity - slot) slot

  -- The slots of a page that a scan gives: all in use that the condition keeps.
  abbrev pub all_slots : List ℕ
  all_slots = slots_from (used page) (keep page) page.header.record_capacity 0

  First-left :
      (lo : ℕ) (r : Option ℕ)
      → lo ≤ page.header.record_capacity
      → First (used page) true lo page.header.record_capacity r
      → IsAt page r
        × (left r ≡ slots_from (used page) (keep page) (page.header.record_capacity - lo) lo)
  First-left lo r l (inl (e, free)) =
      rw e
        (tt, sym (slots_from_none (used page) (keep page) _ lo (λ j a b. free j a (omega arith))))
  First-left lo r l (inr (i, e, a, b, at, free)) =
      let cap = page.header.record_capacity in
      let here =
        slots_from_found (used page) (keep page) (cap - i) i i (omega arith) (omega arith) at
          (λ j x y. absurd (omega arith)) in
      let from = slots_from_found (used page) (keep page) (cap - lo) lo i a (omega arith) at free in
      let same : lo + (cap - lo) - (i + 1) ≡ i + (cap - i) - (i + 1) = omega arith in
      rw e ((b, at), here ∙ sym (from ∙ rw same refl))

  -- What a fetch from a page gives.
  pub record Fetched (next found next' : Option ℕ) : Type 0 where
    pub at : IsAt page next'
    pub given : left next ≡ push found (left next')
    pub ended : found ≡ none → next' ≡ none

  First-later :
      (slot hi : ℕ) (r : Option ℕ) (s : ℕ)
      → First (used page) true (slot + 1) hi r
      → r ≡ some s
      → slot < s
  First-later slot hi r s (inl (e, free)) f = ground (arith, e, f)
  First-later slot hi r s (inr (i, e, a, b, at, free)) f = ground (arith, e, f, a)

  step-left :
      (slot : ℕ)
      → IsAt page (some slot)
      → let next = (iterator_step page slot).next_slot_num in
        IsAt page next
        × (left next
            ≡ slots_from
                (used page)
                (keep page)
                (page.header.record_capacity - (slot + 1))
                (slot + 1))
        × ((s : ℕ) → next ≡ some s → slot < s)
  unfolding iterator_step
  step-left slot at =
      let found = next_setted_bit-First_after page.bytes (bitmap_of page.header) slot at.1 in
      let l = First-left (slot + 1) _ (omega (arith, at.0)) found in
      (l.0, l.1, λ s e. First-later slot _ _ s found e)

  left_step :
      (slot : ℕ)
      → IsAt page (some slot)
      → left (some slot) ≡ (
          let rest = left (iterator_step page slot).next_slot_num in
          if keep page slot then slot ∷ rest else rest)
  left_step slot at =
      let cap = page.header.record_capacity in
      let here =
        slots_from_found (used page) (keep page) (cap - slot) slot slot (omega arith)
          (omega (arith, at.0)) at.1 (λ j x y. absurd (omega arith)) in
      let same : slot + (cap - slot) - (slot + 1) ≡ cap - (slot + 1) = omega (arith, at.0) in
      here ∙ rw (same, (step-left slot at).1) refl

  pub init-left :
      IsAt page (iterator_init page).next_slot_num
      × (left (iterator_init page).next_slot_num ≡ all_slots)
  unfolding iterator_init
  init-left =
      let found =
        First-left 0 (next_setted_bit page.bytes (bitmap_of page.header) 0) (omega arith)
          (next_setted_bit-First page.bytes (bitmap_of page.header) 0 (inl refl)) in
      let same : page.header.record_capacity - 0 ≡ page.header.record_capacity = omega arith in
      (found.0, found.1 ∙ rw same refl)

  -- The fuel that is enough.
  abbrev pub Enough : ℕ → Option ℕ → Type 0
  Enough fuel none = 0 < fuel
  Enough fuel (some slot) = page.header.record_capacity < slot + fuel

  enough :
      (fuel slot : ℕ) (next : Option ℕ)
      → Enough (suc fuel) (some slot)
      → ((s : ℕ) → next ≡ some s → slot < s)
      → slot < page.header.record_capacity
      → Enough fuel next
  enough fuel slot none l later at = omega (arith, l, at)
  enough fuel slot (some s) l later at = omega (arith, l, later s refl)

  -- fetch_next_record_in_page gives the slots that are left, one by one and in order, and ends.
  pub fetch_in_page-Fetched :
      (fuel : ℕ) (next : Option ℕ)
      → IsAt page next
      → Enough fuel next
      → (found : Option ℕ) × (next' : Option ℕ) × (fetch_in_page keep fuel
            (record { page = page; next_slot_num = next })
          ≡ some (found, record { page = page; next_slot_num = next' }))
        × Fetched next found next'
  unfolding fetch_in_page
  fetch_in_page-Fetched zero none at l = absurd (omega (arith, l))
  fetch_in_page-Fetched zero (some slot) at l = absurd (omega (arith, l, at.0))
  fetch_in_page-Fetched (suc fuel) none at l =
      (none, none, refl, record { at = tt; given = refl; ended = λ e. refl })
  fetch_in_page-Fetched (suc fuel) (some slot) at l =
      let next = (iterator_step page slot).next_slot_num in
      let step = step-left slot at in
      let here = left_step slot at in
      elim (Bool-cases (keep page slot)) [
        | inl q ↦ rw q (
          some slot,
          next,
          unfold iterator_step in refl,
          record { at = step.0; given = here ∙ rw q refl; ended = λ e. ground arith },
        )
        | inr q ↦
            let (found, next', by, f) =
              fetch_in_page-Fetched fuel next step.0 (enough fuel slot next l step.2 at.0) in
            rw q (
              found,
              next',
              unfold iterator_step in by,
              record { at = f.at; given = here ∙ rw q f.given; ended = f.ended },
            )
      ]

  pub Enough-fuel :
      (fuel : ℕ) (next : Option ℕ) → page.header.record_capacity < fuel → Enough fuel next
  Enough-fuel fuel none l = omega (arith, l)
  Enough-fuel fuel (some slot) l = omega (arith, l)
