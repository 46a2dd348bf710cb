-- ===== src/Clog/LogRecord/Image.antt =====
-- A record is parsed back from its image in the log.
use oceanbase_jp.Prelude.{
  ℕ, zero, suc, ◌+◌, ◌-◌, ◌≤◌, ◌<◌, ◌≡◌, ◌≢◌, refl, sym, ap, ◌∙◌, fun_ext, some, List, [], ◌∷◌,
  arith, ltb, if◌then◌else◌,
}
use oceanbase_jp.Prelude.Memory.{Mem}
use oceanbase_jp.Clog.LogRecord.{
  LogType, redo_mtr_begin, redo_mtr_commit, redo_insert, redo_update, redo_delete, redo_error,
  LogRecord, nodata_size, table_name_max_len, type_code, log_type, byte_of, int_at, text_byte,
  text_at, struct_bytes, parse_record, parse_by, parse_marker, parse_with_data,
}
use oceanbase_jp.Clog.LogRecord.Copy.{image_by, image}

-- Words of 32 bits.
abbrev pub IsWord : ℕ → Type 0
IsWord v = v < 4294967296

int_at-byte_of :
    (m : Mem) (a v : ℕ)
    → IsWord v
    → m a ≡ byte_of v 0
    → m (a + 1) ≡ byte_of v 1
    → m (a + 2) ≡ byte_of v 2
    → m (a + 3) ≡ byte_of v 3
    → int_at m a ≡ v
unfolding int_at byte_of
int_at-byte_of m a v w b0 b1 b2 b3 = omega arith

-- A text without a zero, shorter than a size.
abbrev pub IsText : ℕ → List ℕ → Type 0
IsText n [] = 1 ≤ n
IsText n (c ∷ cs) = (c ≢ 0) × (1 ≤ n) × IsText (n - 1) cs

text_at-text_byte :
    (n : ℕ) (m : Mem) (a : ℕ) (cs : List ℕ)
    → IsText n cs
    → ((i : ℕ) → i < n → m (a + i) ≡ text_byte cs i)
    → text_at n m a ≡ cs
unfolding text_at text_byte
text_at-text_byte zero m a [] t h = absurd (omega (arith, t))
text_at-text_byte zero m a (c ∷ cs) t h = absurd (omega (arith, t.1))
text_at-text_byte (suc n) m a [] t h = let e = h 0 (omega arith) in ground arith
text_at-text_byte (suc n) m a (c ∷ cs) t h =
    let e = h 0 (omega arith) in
    let first : m a ≡ c = ground arith in
    let rest : text_at n m (a + 1) ≡ cs =
      text_at-text_byte n m (a + 1) cs (shorter t.2) (λ i l. later i (h (suc i) (omega arith))) in
    ground (arith, t.0)
  where
    shorter : IsText (suc n - 1) cs → IsText n cs
    shorter x = let e : suc n - 1 ≡ n = omega arith in rw (← e) x

    later : (i : ℕ) → m (a + suc i) ≡ text_byte cs i → m (a + 1 + i) ≡ text_byte cs i
    later i e = ground arith

-- The fields that are kept in the log, by the type.
abbrev pub kept : LogRecord → LogType → LogRecord
kept r redo_insert = record r { bytes = λ i. if ltb i r.data_len then r.bytes i else 0 }
kept r redo_update = record r { bytes = λ i. if ltb i r.data_len then r.bytes i else 0 }
kept r redo_delete = record r { data_len = 0; bytes = λ i. 0 }
kept r _ = record r { table_name = []; page_num = 0; slot_num = 0; data_len = 0; bytes = λ i. 0 }

-- Fields that fit.
pub record IsLogRecord (r : LogRecord) : Type 0 where
  pub a_type : r.flag ≢ redo_error
  pub lsn : IsWord r.lsn
  pub trx_id : IsWord r.trx_id
  pub logrec_len : IsWord r.logrec_len
  pub page_num : IsWord r.page_num
  pub slot_num : IsWord r.slot_num
  pub data_len : IsWord r.data_len
  pub name : IsText table_name_max_len r.table_name

-- The bytes of a record, and those that follow the struct.
abbrev pub image_size : LogRecord → LogType → ℕ
image_size r redo_insert = nodata_size + r.data_len
image_size r redo_update = nodata_size + r.data_len
image_size r redo_delete = 44
image_size r _ = 16

module _ (m : Mem) (r : LogRecord) (f : IsLogRecord r) where
  abbrev Agrees : ℕ → Type 0
  Agrees n = (i : ℕ) → i < n → m i ≡ struct_bytes r i

  header_lsn : Agrees 16 → int_at m 0 ≡ r.lsn
  unfolding struct_bytes
  header_lsn h =
      int_at-byte_of m 0 r.lsn f.lsn (h 0 (omega arith)) (h 1 (omega arith)) (h 2 (omega arith))
        (h 3 (omega arith))

  header_trx_id : Agrees 16 → int_at m 4 ≡ r.trx_id
  unfolding struct_bytes
  header_trx_id h =
      int_at-byte_of m 4 r.trx_id f.trx_id (h 4 (omega arith)) (h 5 (omega arith))
        (h 6 (omega arith)) (h 7 (omega arith))

  header_len : Agrees 16 → int_at m 12 ≡ r.logrec_len
  unfolding struct_bytes
  header_len h =
      int_at-byte_of m 12 r.logrec_len f.logrec_len (h 12 (omega arith)) (h 13 (omega arith))
        (h 14 (omega arith)) (h 15 (omega arith))

  header_flag : Agrees 16 → log_type (int_at m 8) ≡ r.flag
  unfolding struct_bytes
  header_flag h =
      ap log_type (
        int_at-byte_of m 8 (type_code r.flag) (code_word r.flag) (h 8 (omega arith))
          (h 9 (omega arith)) (h 10 (omega arith)) (h 11 (omega arith)))
      ∙ back r.flag
    where
      code_word : (t : LogType) → IsWord (type_code t)
      code_word t = ground arith

      back : (t : LogType) → log_type (type_code t) ≡ t
      back t = unfold type_code log_type in ground arith

  name_back : Agrees 44 → text_at table_name_max_len m 16 ≡ r.table_name
  name_back h =
      text_at-text_byte table_name_max_len m 16 r.table_name f.name
        (λ i l. h (16 + i) (omega arith) ∙ (unfold struct_bytes in in_name i l))
    where
      in_name : (i : ℕ) → i < 20 → struct_bytes r (16 + i) ≡ text_byte r.table_name i
      in_name i l = unfold struct_bytes in ground arith

  page_back : Agrees 44 → int_at m 36 ≡ r.page_num
  unfolding struct_bytes
  page_back h =
      int_at-byte_of m 36 r.page_num f.page_num (h 36 (omega arith)) (h 37 (omega arith))
        (h 38 (omega arith)) (h 39 (omega arith))

  slot_back : Agrees 44 → int_at m 40 ≡ r.slot_num
  unfolding struct_bytes
  slot_back h =
      int_at-byte_of m 40 r.slot_num f.slot_num (h 40 (omega arith)) (h 41 (omega arith))
        (h 42 (omega arith)) (h 43 (omega arith))

  len_back : Agrees 48 → int_at m 44 ≡ r.data_len
  unfolding struct_bytes
  len_back h =
      int_at-byte_of m 44 r.data_len f.data_len (h 44 (omega arith)) (h 45 (omega arith))
        (h 46 (omega arith)) (h 47 (omega arith))

  with_data_back :
      (flag : LogType)
      → r.flag ≡ flag
      → Agrees 48
      → ((i : ℕ) → i < r.data_len → m (nodata_size + i) ≡ r.bytes i)
      → parse_with_data flag m (int_at m 44)
        ≡ record r { bytes = λ i. if ltb i r.data_len then r.bytes i else 0 }
  unfolding parse_with_data
  with_data_back flag e h b = rw (len_back h) (λ j. record {
    flag = sym e j;
    lsn = header_lsn (λ i l. h i (omega arith)) j;
    trx_id = header_trx_id (λ i l. h i (omega arith)) j;
    logrec_len = header_len (λ i l. h i (omega arith)) j;
    table_name = name_back (λ i l. h i (omega arith)) j;
    page_num = page_back (λ i l. h i (omega arith)) j;
    slot_num = slot_back (λ i l. h i (omega arith)) j;
    data_len = r.data_len;
    bytes = fun_ext same_byte j;
  })
    where
      same_byte :
          (i : ℕ)
          → (if ltb i r.data_len then m (nodata_size + i) else 0)
            ≡ (if ltb i r.data_len then r.bytes i else 0)
      same_byte i = ground (arith, b i)

  marker_back :
      (flag : LogType) → r.flag ≡ flag → Agrees 16 → parse_marker flag m ≡ kept r redo_mtr_begin
  unfolding parse_marker
  marker_back flag e h = λ j. record {
    flag = sym e j;
    lsn = header_lsn h j;
    trx_id = header_trx_id h j;
    logrec_len = header_len h j;
    table_name = [];
    page_num = 0;
    slot_num = 0;
    data_len = 0;
    bytes = λ i. 0;
  }

  delete_back :
      r.flag ≡ redo_delete → Agrees 44 → parse_with_data redo_delete m 0 ≡ kept r redo_delete
  unfolding parse_with_data
  delete_back e h = λ j. record {
    flag = sym e j;
    lsn = header_lsn (λ i l. h i (omega arith)) j;
    trx_id = header_trx_id (λ i l. h i (omega arith)) j;
    logrec_len = header_len (λ i l. h i (omega arith)) j;
    table_name = name_back h j;
    page_num = page_back h j;
    slot_num = slot_back h j;
    data_len = 0;
    bytes = fun_ext no_byte j;
  }
    where
      no_byte : (i : ℕ) → (if ltb i 0 then m (nodata_size + i) else 0) ≡ 0
      no_byte i = ground arith

  parse_by-kept :
      (flag : LogType)
      → r.flag ≡ flag
      → ((i : ℕ) → i < image_size r flag → m i ≡ image_by r flag i)
      → parse_by flag m ≡ some (kept r flag)
  unfolding parse_by image_by
  parse_by-kept redo_error e h = absurd (f.a_type e)
  parse_by-kept redo_mtr_begin e h = ap some (marker_back redo_mtr_begin e h)
  parse_by-kept redo_mtr_commit e h = ap some (marker_back redo_mtr_commit e h)
  parse_by-kept redo_insert e h = ap some (
      with_data_back redo_insert e (λ i l. h i (omega arith) ∙ ground arith)
        (λ i l. h (nodata_size + i) (omega arith) ∙ ground arith))
  parse_by-kept redo_update e h = ap some (
      with_data_back redo_update e (λ i l. h i (omega arith) ∙ ground arith)
        (λ i l. h (nodata_size + i) (omega arith) ∙ ground arith))
  parse_by-kept redo_delete e h = ap some (delete_back e h)

  -- A record whose fields fit is read back from memory that begins with its image, with the fields
  -- that its type has in the log.
  pub parse_record-image :
      ((i : ℕ) → i < image_size r r.flag → m i ≡ image r i) → parse_record m ≡ some (kept r r.flag)
  unfolding parse_record image
  parse_record-image h =
      rw (header_flag (λ i l. header_byte r.flag h i l)) (parse_by-kept r.flag refl h)
    where
      header_byte :
          (flag : LogType)
          → ((i : ℕ) → i < image_size r flag → m i ≡ image_by r flag i)
          → (i : ℕ) → i < 16
          → m i ≡ struct_bytes r i
      header_byte redo_error g i l = g i l
      header_byte redo_mtr_begin g i l = g i l
      header_byte redo_mtr_commit g i l = g i l
      header_byte redo_insert g i l = g i (omega arith) ∙ (unfold image_by in ground arith)
      header_byte redo_update g i l = g i (omega arith) ∙ (unfold image_by in ground arith)
      header_byte redo_delete g i l = g i (omega arith)

  -- The length of a record is read from the header of its image.
  pub image_len : ((i : ℕ) → i < 16 → m i ≡ image r i) → int_at m 12 ≡ r.logrec_len
  unfolding image image_by
  image_len h = header_len (λ i l. h i l ∙ by r.flag i l)
    where
      by : (flag : LogType) (i : ℕ) → i < 16 → image_by r flag i ≡ struct_bytes r i
      by flag i l = unfold image_by in ground arith
