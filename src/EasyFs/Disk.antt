-- ===== src/EasyFs/Disk.antt =====
-- The blocks as the layers above the cache see them (`BlockCache.Transparent.view`): bytes by block
-- number and offset. `get_block_cache(b, ..).lock().read(..)` and `.modify(..)` are a read and a
-- change of one block; the types that the closures take (`BitmapBlock`, `IndirectBlock`,
-- `DataBlock`) lie in it little-endian, as on RISC-V.
use ch_os.Base.{ℕ, ◌*◌, ◌<◌, ◌^◌, ◌≡◌, ap, ◌&&◌, arith, ◌==◌, if◌then◌else◌, update, false}
use ch_os.Base.Bytes.{
  read_le, write_le, read_le-write_le, read_le-write_le_apart, read_le-lt, write_le-lt,
}

abbrev pub block_sz : ℕ
block_sz = 512

abbrev pub Disk : Type 0
Disk = ℕ → ℕ → ℕ

abbrev pub IsDisk : Disk → Type 0
IsDisk d = (b o : ℕ) → d b o < 256

-- The word of 64 bits at an index of a `BitmapBlock`.
unfoldable pub word : Disk → ℕ → ℕ → ℕ
word d b i = read_le 8 (d b) (i * 8)

pub set_word : Disk → ℕ → ℕ → ℕ → Disk
set_word d b i v = update d b (write_le 8 (d b) (i * 8) v)

-- The number of 32 bits at an index of an `IndirectBlock`.
pub index : Disk → ℕ → ℕ → ℕ
index d b i = read_le 4 (d b) (i * 4)

pub set_index : Disk → ℕ → ℕ → ℕ → Disk
set_index d b i v = update d b (write_le 4 (d b) (i * 4) v)

pub word-set_word :
    (d : Disk) (b i v b' i' : ℕ)
    → v < 2 ^ 64
    → word (set_word d b i v) b' i' ≡ (if (b' == b) && (i' == i) then v else word d b' i')
unfolding word set_word
word-set_word d b i v b' i' h = ground (
  arith,
  read_le-write_le 8 (d b) (i * 8) v h,
  read_le-write_le_apart 8 8 (d b) (i * 8) (i' * 8) v,
)

pub index-set_index :
    (d : Disk) (b i v b' i' : ℕ)
    → v < 2 ^ 32
    → index (set_index d b i v) b' i' ≡ (if (b' == b) && (i' == i) then v else index d b' i')
unfolding index set_index
index-set_index d b i v b' i' h = ground (
  arith,
  read_le-write_le 4 (d b) (i * 4) v h,
  read_le-write_le_apart 4 4 (d b) (i * 4) (i' * 4) v,
)

pub set_word_other :
    (d : Disk) (b i v b' o : ℕ) → (b' == b) ≡ false → set_word d b i v b' o ≡ d b' o
unfolding set_word
set_word_other d b i v b' o h = ground arith

pub word-lt : (d : Disk) (b i : ℕ) → IsDisk d → word d b i < 2 ^ 64
unfolding word
word-lt d b i h = read_le-lt 8 (d b) (i * 8) (h b)

pub set_word-IsDisk : (d : Disk) (b i v : ℕ) → IsDisk d → IsDisk (set_word d b i v)
unfolding set_word
set_word-IsDisk d b i v h b' o = ground (arith, h b' o, write_le-lt 8 (d b) (i * 8) v o (h b))

-- The numbers of a block are read from its bytes.
pub index-same : (d d' : Disk) (b i : ℕ) → d' b ≡ d b → index d' b i ≡ index d b i
unfolding index
index-same d d' b i e = ap (λ bytes. read_le 4 bytes (i * 4)) e
