-- ===== src/Buffer/Cache.antt =====
-- disk_buffer_pool.cpp: the cache of frames as a map from keys to frames.
use oceanbase_jp.Prelude.{
  ℕ, ◌≡◌, ◌≤◌, refl, inl, inr, false, ◌&&◌, Option, none, some, [], ◌∷◌, arith, ◌==◌, if◌then◌else◌,
  suc, Option-cases, sym, ◌∙◌,
}
use oceanbase_jp.Buffer.{
  Frame, Entry, Entries, is_at, find, remove, assign, count, get, begin_purge,
}

-- No entry has the key, and no two entries have the same.
abbrev pub NotIn : ℕ → ℕ → Entries → Type 0
NotIn fd num [] = Unit {0}
NotIn fd num (e ∷ es) = (is_at e fd num ≡ false) × NotIn fd num es

abbrev pub IsCache : Entries → Type 0
IsCache [] = Unit {0}
IsCache (e ∷ es) = NotIn e.key_desc e.key_num es × IsCache es

pub find-NotIn :
    (es : Entries) (fd num u n : ℕ) → fd ≡ u → num ≡ n → NotIn fd num es → find es u n ≡ none
unfolding find
find-NotIn [] fd num u n e f h = refl
find-NotIn (x ∷ es) fd num u n e f h = ground (arith, find-NotIn es fd num u n e f h.1)

pub NotIn-find : (es : Entries) (fd num : ℕ) → find es fd num ≡ none → NotIn fd num es
unfolding find
NotIn-find [] fd num h = tt
NotIn-find (x ∷ es) fd num h = ground (arith, NotIn-find es fd num)

pub find-remove :
    (es : Entries) (fd num u n : ℕ)
    → IsCache es
    → find (remove es fd num) u n ≡ (if fd == u && num == n then none else find es u n)
unfolding find remove
find-remove [] fd num u n h = ground arith
find-remove (x ∷ es) fd num u n h = ground (
  arith,
  find-remove es fd num u n h.1,
  λ (e : x.key_desc ≡ u) (f : x.key_num ≡ n). find-NotIn es x.key_desc x.key_num u n e f h.0,
)

remove-NotIn : (es : Entries) (fd num u n : ℕ) → NotIn u n es → NotIn u n (remove es fd num)
unfolding remove
remove-NotIn [] fd num u n h = tt
remove-NotIn (x ∷ es) fd num u n h = ground (arith, remove-NotIn es fd num u n h.1)

pub remove-IsCache : (es : Entries) (fd num : ℕ) → IsCache es → IsCache (remove es fd num)
unfolding remove
remove-IsCache [] fd num h = tt
remove-IsCache (x ∷ es) fd num h =
    ground (arith, remove-IsCache es fd num h.1, remove-NotIn es fd num x.key_desc x.key_num h.0)

removed-NotIn : (es : Entries) (fd num : ℕ) → IsCache es → NotIn fd num (remove es fd num)
removed-NotIn es fd num h =
    NotIn-find (remove es fd num) fd num (ground (arith, find-remove es fd num fd num h))

pub count-remove :
    (es : Entries) (fd num : ℕ) (frame : Frame)
    → find es fd num ≡ some frame
    → suc (count (remove es fd num)) ≡ count es
unfolding find remove count
count-remove [] fd num frame h = ground arith
count-remove (x ∷ es) fd num frame h = ground (arith, count-remove es fd num frame)

pub find-assign :
    (es : Entries) (fd num : ℕ) (old frame : Frame) (u n : ℕ)
    → find es fd num ≡ some old
    → find (assign es fd num frame) u n ≡ (if fd == u && num == n then some frame else find es u n)
unfolding find assign
find-assign [] fd num old frame u n h = ground arith
find-assign (x ∷ es) fd num old frame u n h = ground (arith, find-assign es fd num old frame u n)

assign-NotIn :
    (es : Entries) (fd num : ℕ) (frame : Frame) (u n : ℕ)
    → NotIn u n es
    → NotIn u n (assign es fd num frame)
unfolding assign
assign-NotIn [] fd num frame u n h = tt
assign-NotIn (x ∷ es) fd num frame u n h = ground (arith, assign-NotIn es fd num frame u n h.1)

pub assign-IsCache :
    (es : Entries) (fd num : ℕ) (frame : Frame) → IsCache es → IsCache (assign es fd num frame)
unfolding assign
assign-IsCache [] fd num frame h = tt
assign-IsCache (x ∷ es) fd num frame h = ground (
  arith,
  assign-IsCache es fd num frame h.1,
  assign-NotIn es fd num frame x.key_desc x.key_num h.0,
)

pub count-assign :
    (es : Entries) (fd num : ℕ) (frame : Frame) → count (assign es fd num frame) ≡ count es
unfolding assign count
count-assign [] fd num frame = refl
count-assign (x ∷ es) fd num frame = ground (arith, count-assign es fd num frame)

front-find :
    (es : Entries) (fd num : ℕ) (frame : Frame) (u n : ℕ)
    → IsCache es
    → find es fd num ≡ some frame
    → find (record { key_desc = fd; key_num = num; frame = frame } ∷ remove es fd num) u n
      ≡ find es u n
unfolding find
front-find es fd num frame u n h e = ground (arith, find-remove es fd num u n h)

-- Looking an entry up answers by the map, and keeps the map.
pub record Got (es : Entries) (fd num : ℕ) (r : Option Frame × Entries) : Type 0 where
  pub found : r.0 ≡ find es fd num
  pub cache : IsCache r.1
  pub same : (u n : ℕ) → find r.1 u n ≡ find es u n
  pub size : count r.1 ≡ count es

pub get-Got : (es : Entries) (fd num : ℕ) → IsCache es → Got es fd num (get es fd num)
unfolding get
get-Got es fd num h = elim (Option-cases (find es fd num)) [
  | inl e ↦ rw (e, get) (record { found = sym e; cache = h; same = λ u n. refl; size = refl })
  | inr (frame, e) ↦
      rw (e, get)
        (record {
          found = sym e;
          cache = (removed-NotIn es fd num h, remove-IsCache es fd num h);
          same = λ u n. front-find es fd num frame u n h e;
          size = unfold count in count-remove es fd num frame e;
        })
]

pub get_absent : (es : Entries) (fd num : ℕ) → find es fd num ≡ none → get es fd num ≡ (none, es)
unfolding get
get_absent es fd num h = rw (h, get) refl

-- The entry that may be purged is in the cache and not pinned.
pub begin_purge-find :
    (es : Entries) (e : Entry)
    → IsCache es
    → begin_purge es ≡ some e
    → (find es e.key_desc e.key_num ≡ some e.frame) × (e.frame.pin_count ≡ 0)
unfolding begin_purge find
begin_purge-find [] e h p = ground arith
begin_purge-find (x ∷ es) e h p = elim (Option-cases (begin_purge es)) [
  | inl q ↦ ground (arith, q)
  | inr (f, q) ↦
      let same : f ≡ e = ground (arith, q) in
      let behind = begin_purge-find es e h.1 (q ∙ rw same refl) in
      (
        ground (
          arith,
          behind.0,
          λ (a : x.key_desc ≡ e.key_desc) (b : x.key_num ≡ e.key_num).
              find-NotIn es x.key_desc x.key_num e.key_desc e.key_num a b h.0,
        ),
        behind.1,
      )
]

-- Where no entry may be purged, all frames are pinned.
pub begin_purge-pinned :
    (es : Entries) (u n : ℕ) (f : Frame)
    → begin_purge es ≡ none
    → find es u n ≡ some f
    → 1 ≤ f.pin_count
unfolding begin_purge find
begin_purge-pinned [] u n f p h = ground arith
begin_purge-pinned (x ∷ es) u n f p h = elim (Option-cases (begin_purge es)) [
  | inr (e, q) ↦ ground (arith, q)
  | inl q ↦ ground (arith, q, begin_purge-pinned es u n f q)
]
