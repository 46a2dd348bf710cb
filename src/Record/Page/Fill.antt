-- ===== src/Record/Page/Fill.antt =====
-- record_manager.cpp: what filling a free slot does to the view of a page.
use oceanbase_jp.Prelude.{
  ℕ, ◌<◌, ◌≡◌, refl, sym, ◌∙◌, ap, subst, true, false, some, arith, ◌==◌, if◌then◌else◌, ℕ_discrete,
  if_self, if_other,
}
use oceanbase_jp.Prelude.Memory.{Mem, read, read-copy_in}
use oceanbase_jp.Lang.Bitmap.{set_bit}
use oceanbase_jp.Lang.Bitmap.Bits.{IsBytes, set_bit-IsBytes, get_bit-set_bit}
use oceanbase_jp.Record.Page.{PageHeader, RecordPage, bitmap_of, get_record_data, slot_filled}
use oceanbase_jp.Record.Page.Count.{count_set_add}
use oceanbase_jp.Record.Page.Valid.{
  used, IsValid, view, copy_in-IsBytes, view-used, view_congr, get_bit-copy_in, read-copy_in_other,
  read-set_bit,
}

module _ (p : RecordPage) (src : Mem) (i : ℕ) (valid : IsValid p) (bytes : IsBytes src)
    (inside : i < p.header.record_capacity) where
  pub slot_filled-used :
      (j : ℕ)
      → j < p.header.record_capacity
      → used (slot_filled p src i) j ≡ (if i == j then true else used p j)
  unfolding slot_filled
  slot_filled-used j l =
      get_bit-copy_in p.header valid.laid_out (set_bit p.bytes (bitmap_of p.header) i) i src
        p.header.record_real_size j l
      ∙ get_bit-set_bit p.bytes (bitmap_of p.header) i valid.bytes j

  pub slot_filled-IsValid : used p i ≡ false → IsValid (slot_filled p src i)
  unfolding slot_filled
  slot_filled-IsValid free = record {
    laid_out = record {
      apart = valid.laid_out.apart;
      roomy = valid.laid_out.roomy;
      small = valid.laid_out.small;
    };
    bytes =
        copy_in-IsBytes _ _ src _ (set_bit-IsBytes p.bytes (bitmap_of p.header) i valid.bytes)
          bytes;
    counted = omega (
      arith,
      count_set_add (used p) (used (slot_filled p src i)) p.header.record_capacity i inside free
          slot_filled-used,
      valid.counted,
    );
  }

  pub view-slot_filled :
      (j : ℕ)
      → view (slot_filled p src i) j
        ≡ (if i == j then some (read src 0 p.header.record_real_size) else view p j)
  unfolding slot_filled get_record_data
  view-slot_filled j = elim (ℕ_discrete i j) [
    | yes e ↦
        subst
          (λ k.
            view (slot_filled p src i) k
            ≡ (if i == k then some (read src 0 h.record_real_size) else view p k))
          e
          (view-used (slot_filled p src i) i inside
              (slot_filled-used i inside ∙ if_self i true (used p i))
            ∙ ap some (read-copy_in marked (get_record_data h i) src h.record_real_size)
            ∙ sym (if_self i (some (read src 0 h.record_real_size)) (view p i)))
    | no e ↦
        view_congr p (slot_filled p src i) j refl
          (λ l. slot_filled-used j l ∙ if_other i j true (used p j) e)
          (read-copy_in_other h valid.laid_out marked i j src e
            ∙ read-set_bit h valid.laid_out p.bytes i j inside)
        ∙ sym (if_other i j (some (read src 0 h.record_real_size)) (view p j) e)
  ]
    where
      h : PageHeader
      h = p.header

      marked : Mem
      marked = set_bit p.bytes (bitmap_of h) i
