-- ===== src/EasyFs/DiskInode/Content/Laws.antt =====
-- `DiskInode::write_at`, and `read_at` of what it wrote.
use ch_os.Base.{
  ℕ, suc, ◌+◌, ◌-◌, ◌/◌, ◌^◌, ◌≤◌, ◌<◌, ◌≡◌, refl, ap, ◌∙◌, min, leb, arith, true, false,
}
use ch_os.Base.Bits.{add_usize}
use ch_os.Base.Outcome.{Outcome, done, panic}
use ch_os.EasyFs.Disk.{Disk, block_sz}
use ch_os.EasyFs.DiskInode.{DiskInode}
use ch_os.EasyFs.DiskInode.Content.{Buffer, read_at, write_at, write_from}
use ch_os.EasyFs.DiskInode.Content.Read.{read_at-Holds}
use ch_os.EasyFs.DiskInode.Content.Write.{Laid, Written, write_from-Written}

write_at-loop :
    (n : DiskInode) (d : Disk) (offset : ℕ) (buf : Buffer)
    → offset + buf.len < 2 ^ 64
    → offset < n.size
    → write_at n offset buf d
      ≡ write_from
          (suc (min (offset + buf.len) n.size - offset))
          n
          offset
          (min (offset + buf.len) n.size)
          (offset / block_sz)
          0
          buf
          d
unfolding write_at
write_at-loop n d offset buf h inside =
    let sum : add_usize offset buf.len ≡ offset + buf.len = omega arith in
    let valid : leb offset (min (offset + buf.len) n.size) ≡ true = ground arith in rw (sum, valid)

-- `write_at` on a file of less than 2^32 bytes whose blocks are known, differ, and are none of its
-- index blocks, for a buffer that is not empty at an offset inside the file that does not overflow
-- with its length: it returns how many bytes of the buffer fit before the end of the file, the
-- bytes of the file from the offset on become those, the others and every block that is not one
-- of the file's stay, and the blocks stay laid out as they were.
pub write_at-Written :
    (n : DiskInode) (d : Disk) (blk : ℕ → ℕ) (offset : ℕ) (buf : Buffer)
    → Laid n d blk
    → (small : n.size < 2 ^ 32) → offset < n.size
    → 0 < buf.len
    → offset + buf.len < 2 ^ 64
    → (d' : Disk) × (write_at n offset buf d ≡ done (min buf.len (n.size - offset), d'))
      × Written n blk small offset (min (offset + buf.len) n.size) 0 buf d d'
write_at-Written n d blk offset buf laid small inside some_bytes h =
    let end = min (offset + buf.len) n.size in
    let (d', e, w) =
      write_from-Written n blk small (suc (end - offset)) offset end (offset / block_sz) 0 buf d
        laid (omega arith) (omega arith) (omega arith) (omega arith) refl in
    (
      d',
      write_at-loop n d offset buf h inside
          ∙ e
          ∙ ap {B = Outcome (ℕ × Disk)} (λ k. done (k, d')) (omega arith),
      w,
    )

-- Where `write_at` of a buffer that is not empty fits in such a file, `read_at` at the same offset
-- with a buffer of the same length returns the length and gives the bytes that were written.
pub read_at-write_at :
    (n : DiskInode) (d : Disk) (blk : ℕ → ℕ) (offset : ℕ) (buf into : Buffer)
    → Laid n d blk
    → n.size < 2 ^ 32
    → 0 < buf.len
    → offset + buf.len ≤ n.size
    → into.len ≡ buf.len
    → (d' : Disk) × (into' : Buffer) × (write_at n offset buf d ≡ done (buf.len, d'))
      × (read_at n offset into d' ≡ done (buf.len, into'))
      × ((i : ℕ) → i < buf.len → into'.byte i ≡ buf.byte i)
read_at-write_at n d blk offset buf into laid small some_bytes fits same =
    let (d', e, w) =
      write_at-Written n d blk offset buf laid small (omega arith) some_bytes (omega arith) in
    let (into', e', held) = read_at-Holds n d' blk offset into w.laid.located small (omega arith) in
    (
      d',
      into',
      e ∙ ap {B = Outcome (ℕ × Disk)} (λ k. done (k, d')) (omega arith),
      e' ∙ ap {B = Outcome (ℕ × Buffer)} (λ k. done (k, into')) (omega arith),
      λ i h.
          let here : buf.byte (0 + (offset + i - offset)) ≡ buf.byte i =
            ap (λ j. buf.byte j) (omega arith) in
          ground (arith, held.1 i, w.bytes (offset + i) (omega arith)),
    )

-- `write_at` past the end of the file panics.
pub write_at-panic :
    (n : DiskInode) (d : Disk) (offset : ℕ) (buf : Buffer)
    → n.size < offset
    → write_at n offset buf d ≡ panic
unfolding write_at
write_at-panic n d offset buf h =
    let past : leb offset (min (add_usize offset buf.len) n.size) ≡ false = ground arith in rw past
