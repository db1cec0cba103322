-- ===== src/EasyFs/DiskInode/Content.antt =====
-- easy-fs/src/layout.rs, `DiskInode::read_at` and `write_at`: the bytes of a file, block by block.
-- A buffer is its length and its bytes.
pub mod Read
pub mod Write
pub mod Laws
use ch_os.Base.{
  ℕ, zero, suc, ◌+◌, ◌-◌, ◌*◌, ◌/◌, ◌%◌, ◌^◌, min, ◌&&◌, ◌==◌, ltb, leb, if◌then◌else◌, update,
}
use ch_os.Base.Bits.{add_usize}
use ch_os.Base.Outcome.{Outcome, done, panic, assert, ◌>>=◌, ◌>>◌}
use ch_os.EasyFs.Disk.{Disk, block_sz}
use ch_os.EasyFs.DiskInode.{DiskInode, get_block_id}

pub record Buffer : Type 0 where
  pub len : ℕ
  pub byte : ℕ → ℕ

-- `dst[at..at + n].copy_from_slice(src)`
abbrev pub copy_bytes : (ℕ → ℕ) → ℕ → ℕ → (ℕ → ℕ) → ℕ → ℕ
copy_bytes dst at n src i = if leb at i && ltb i (at + n) then src (i - at) else dst i

-- `end_current_block`
abbrev pub block_end : ℕ → ℕ → ℕ
block_end start end = min ((start / block_sz + 1) * block_sz) end

-- The loop of `read_at`, on fuel: `buf` is filled up to `read_size`.
unfoldable pub read_from : ℕ → DiskInode → ℕ → ℕ → ℕ → ℕ → Buffer → Disk → Outcome (ℕ × Buffer)
read_from zero n start end start_block read_size buf d = panic
read_from (suc fuel) n start end start_block read_size buf d = do
  let size = block_end start end - start
  assert (leb (read_size + size) buf.len)
  b ← get_block_id n (start_block % 2 ^ 32) d
  assert (leb (start % block_sz + size) block_sz)
  let byte' = copy_bytes buf.byte read_size size (λ i. d b (start % block_sz + i))
  let buf' = record buf { byte = byte' }
  let more = read_from fuel n (block_end start end) end (start_block + 1) (read_size + size) buf' d
  if block_end start end == end then done (read_size + size, buf') else more

-- A round that is not the last takes a byte at least.
unfoldable pub read_at : DiskInode → ℕ → Buffer → Disk → Outcome (ℕ × Buffer)
read_at n offset buf d =
    let end = min (add_usize offset buf.len) n.size in
    let loop = read_from (suc (end - offset)) n offset end (offset / block_sz) 0 buf d in
    if leb end offset then done (0, buf) else loop

-- The loop of `write_at`, on fuel.
unfoldable pub write_from : ℕ → DiskInode → ℕ → ℕ → ℕ → ℕ → Buffer → Disk → Outcome (ℕ × Disk)
write_from zero n start end start_block write_size buf d = panic
write_from (suc fuel) n start end start_block write_size buf d = do
  let size = block_end start end - start
  b ← get_block_id n (start_block % 2 ^ 32) d
  assert (leb (write_size + size) buf.len)
  assert (leb (start % block_sz + size) block_sz)
  let d' = update d b (copy_bytes (d b) (start % block_sz) size (λ i. buf.byte (write_size + i)))
  let more =
      write_from fuel n (block_end start end) end (start_block + 1) (write_size + size) buf d'
  if block_end start end == end then done (write_size + size, d') else more

unfoldable pub write_at : DiskInode → ℕ → Buffer → Disk → Outcome (ℕ × Disk)
write_at n offset buf d = do
  let end = min (add_usize offset buf.len) n.size
  assert (leb offset end)
  write_from (suc (end - offset)) n offset end (offset / block_sz) 0 buf d
