-- ===== src/Clog/LogBuffer/Total.antt =====
-- The log that a file and a buffer hold together: the data of their blocks in order.
use oceanbase_jp.Prelude.{
  ℕ, zero, suc, ◌+◌, ◌-◌, ◌*◌, ◌≤◌, ◌<◌, ◌≡◌, ◌⊎◌, inl, refl, ap, ap₂, ◌∙◌, List, [], ◌∷◌, ◌++◌,
  arith, ltb, ◌==◌, if◌then◌else◌,
}
use oceanbase_jp.Prelude.Memory.{Mem, read, copy_in, read-copy_in, read-copy_in_apart}
use oceanbase_jp.Clog.LogBuffer.{
  Block, LogBuffer, block_size, block_hdr_size, block_data_size, buffer_blocks,
}

abbrev pub data_of : Block → List ℕ
data_of block = read block.content 0 block.log_data_len

-- The data of the blocks from 1 on.
unfoldable pub gathered : (ℕ → Block) → ℕ → List ℕ
gathered blocks zero = []
gathered blocks (suc n) = gathered blocks n ++ data_of (blocks (suc n))

pub gathered_congr :
    (f g : ℕ → Block) (n : ℕ) → ((i : ℕ) → 1 ≤ i → i ≤ n → f i ≡ g i) → gathered f n ≡ gathered g n
unfolding gathered
gathered_congr f g zero h = refl
gathered_congr f g (suc n) h =
    ap₂ ◌++◌ (gathered_congr f g n (λ i a b. h i a (omega arith)))
      (ap data_of (h (suc n) (omega arith) (omega arith)))

-- The blocks of the file, and from the first block of the buffer on those of the buffer.
unfoldable pub overlaid : (ℕ → Block) → LogBuffer → ℕ → Block
overlaid file b i =
    if ltb i (b.current_block - b.write_block)
    then file i
    else b.blocks (i - (b.current_block - b.write_block))

-- A buffer with a block: its blocks have their numbers, all before the last are full, and the offset
-- is behind the data of the last.
pub record IsOpen (b : LogBuffer) : Type 0 where
  pub numbered :
      (i : ℕ) → i ≤ b.write_block → (b.blocks i).log_block_no + b.write_block ≡ b.current_block + i
  pub full : (i : ℕ) → i < b.write_block → (b.blocks i).log_data_len ≡ block_data_size
  pub within : (b.blocks b.write_block).log_data_len ≤ block_data_size
  pub offset :
      b.write_offset
      ≡ block_size * b.write_block + block_hdr_size + (b.blocks b.write_block).log_data_len
  pub room : b.write_block < buffer_blocks
  pub behind : b.write_block < b.current_block

abbrev pub IsIdle : LogBuffer → Type 0
IsIdle b = (b.write_offset ≡ 0) × (b.write_block ≡ 0)

abbrev pub IsLogBuffer : LogBuffer → Type 0
IsLogBuffer b = IsIdle b ⊎ IsOpen b

-- The whole log of a buffer with a block.
abbrev pub total_open : (ℕ → Block) → LogBuffer → List ℕ
total_open file b = gathered (overlaid file b) b.current_block

-- A buffer that has its block number behind the file has no data.
abbrev pub total_of : (ℕ → Block) → LogBuffer → List ℕ
total_of file b = if b.write_offset == 0 then gathered file b.current_block else total_open file b

pub read_split : (m : Mem) (a k n : ℕ) → read m a (k + n) ≡ read m a k ++ read m (a + k) n
unfolding read
read_split m a zero n =
    ap (read m a) {x = 0 + n} {y = n} (omega arith)
    ∙ ap (λ x. read m x n) {x = a} {y = a + 0} (omega arith)
read_split m a (suc k) n =
    ap (read m a) {x = suc k + n} {y = suc (k + n)} (omega arith)
    ∙ ap (◌∷◌ (m a)) (
        read_split m (a + 1) k n
        ∙ ap (λ x. read m (a + 1) k ++ read m x n) {x = a + 1 + k} {y = a + suc k} (omega arith))

-- What is read behind a copy.
pub read-append :
    (m src : Mem) (len n : ℕ)
    → read (copy_in m len src n) 0 (len + n) ≡ read m 0 len ++ read src 0 n
read-append m src len n =
    read_split (copy_in m len src n) 0 len n
    ∙ ap₂ ◌++◌ (read-copy_in_apart m len src n 0 len (inl (omega arith))) (
        ap (λ x. read (copy_in m len src n) x n) {x = 0 + len} {y = len} (omega arith)
        ∙ read-copy_in m len src n)
