-- ===== src/Trx/Word.antt =====
-- trx.cpp: the transaction field of a row, and visibility.
use oceanbase_jp.Prelude.{ℕ, ◌^◌, ◌<◌, ◌≡◌, ◌≢◌, Bool, true, not, arith}
use oceanbase_jp.Trx.{Row, Trx, set_record_trx_id, get_record_trx_id, is_visible, commit_row}

-- The identifier and the mark that were written into a row are read back, and the other fields stay.
pub get_record_trx_id-set_record_trx_id :
    (row : Row) (id : ℕ) (deleted : Bool)
    → id < 2 ^ 31
    → (get_record_trx_id (set_record_trx_id row id deleted) ≡ (id, deleted))
      × ((set_record_trx_id row id deleted).fields ≡ row.fields)
unfolding set_record_trx_id get_record_trx_id
get_record_trx_id-set_record_trx_id row id deleted l = ground arith

-- A row that a started transaction has written is visible to it, and a row that it has marked as
-- deleted is not; to any other transaction it is the other way round: the row is not visible yet,
-- and the deleted one still is.
pub is_visible-set_record_trx_id :
    (writer reader : Trx) (row : Row) (deleted : Bool)
    → 0 < writer.trx_id
    → writer.trx_id < 2 ^ 31
    → (is_visible writer (set_record_trx_id row writer.trx_id deleted) ≡ not deleted)
      × (reader.trx_id ≢ writer.trx_id
          → is_visible reader (set_record_trx_id row writer.trx_id deleted) ≡ deleted)
unfolding set_record_trx_id get_record_trx_id is_visible
is_visible-set_record_trx_id writer reader row deleted pos l = (ground arith, λ h. ground arith)

-- A committed row is visible to every transaction.
pub is_visible-commit_row : (t : Trx) (row : Row) → is_visible t (commit_row row) ≡ true
unfolding commit_row set_record_trx_id get_record_trx_id is_visible
is_visible-commit_row t row = ground arith
