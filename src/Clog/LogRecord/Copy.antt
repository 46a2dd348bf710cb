-- ===== src/Clog/LogRecord/Copy.antt =====
-- The bytes of a record in the log: copies of its parts are parts of one image.
use oceanbase_jp.Prelude.{
  ℕ, ◌+◌, ◌-◌, ◌≤◌, ◌≡◌, ◌⊎◌, refl, ap, fun_ext, false, arith, ltb, if◌then◌else◌,
}
use oceanbase_jp.Prelude.Memory.{Mem, copy_in}
use oceanbase_jp.Rc.{success}
use oceanbase_jp.Clog.LogRecord.{
  LogType, redo_mtr_begin, redo_mtr_commit, redo_insert, redo_update, redo_delete, redo_error,
  LogRecord, nodata_size, struct_bytes, copied, copy_with_data, copy_record,
}

-- A type with data behind the struct.
abbrev pub HasData : LogType → Type 0
HasData flag = (flag ≡ redo_insert) ⊎ (flag ≡ redo_update)

-- The bytes of a record in the log.
unfoldable pub image_by : LogRecord → LogType → Mem
image_by r redo_insert i = if ltb i nodata_size then struct_bytes r i else r.bytes (i - nodata_size)
image_by r redo_update i = if ltb i nodata_size then struct_bytes r i else r.bytes (i - nodata_size)
image_by r _ i = struct_bytes r i

unfoldable pub image : LogRecord → Mem
unfolding image_by
image r = image_by r r.flag

-- The part of the image from an offset on.
abbrev pub image_from : LogRecord → ℕ → Mem
image_from r start i = image r (start + i)

module _ (r : LogRecord) (m : Mem) (dest start n : ℕ) where
  with_data_at :
      (x : ℕ)
      → copy_with_data r m dest start n x
        ≡ copy_in m dest (λ i. image_by r redo_insert (start + i)) n x
  unfolding copy_with_data image_by
  with_data_at x = ground arith

  copied-image :
      (flag : LogType)
      → copied r m dest start n flag ≡ copy_in m dest (λ i. image_by r flag (start + i)) n
  unfolding copied image_by
  copied-image redo_insert = fun_ext with_data_at
  copied-image redo_update = fun_ext with_data_at
  copied-image redo_error = refl
  copied-image redo_mtr_begin = refl
  copied-image redo_mtr_commit = refl
  copied-image redo_delete = refl

  -- A copy within a record is a copy of the image.
  pub copy_record-image :
      start + n ≤ r.logrec_len
      → copy_record r m dest start n ≡ (success, copy_in m dest (image_from r start) n)
  unfolding copy_record image
  copy_record-image h =
      let inside : ltb r.logrec_len (start + n) ≡ false = ground arith in
      rw inside (ap (λ c. (success, c)) (copied-image r.flag))
