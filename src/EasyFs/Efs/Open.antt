-- ===== src/EasyFs/Efs/Open.antt =====
-- `create` and `open` of easy-fs/src/efs.rs agree.
use ch_os.Base.{
  ℕ, ◌+◌, ◌*◌, ◌^◌, ◌≤◌, ◌<◌, ◌≡◌, refl, sym, ap, ◌∙◌, fun_ext, arith, Option, none, some, ◌==◌,
  ltb, update, true, false, inl, inr, Bool-cases,
}
use ch_os.Base.Outcome.{done}
use ch_os.Base.Bytes.{read_le, write_le, read_le-write_le, read_le-write_le_apart, write_le-lt}
use ch_os.EasyFs.Disk.{Disk, IsDisk, word}
use ch_os.EasyFs.Bitmap.{maximum, alloc}
use ch_os.EasyFs.Bitmap
use ch_os.EasyFs.Bitmap.Bits.{bit_of}
use ch_os.EasyFs.Bitmap.Alloc.{alloc-lowest, alloc-full}
use ch_os.EasyFs.Bitmap.Elsewhere.{alloc-elsewhere}
use ch_os.EasyFs.Efs.{
  file_system, super_block, inode_area_blocks, data_bitmap_blocks, data_total_blocks,
  get_disk_inode_pos, alloc_inode, clear_blocks, write_super_block, read_super_block,
  init_directory, create, open_efs, sub_u32,
}
use ch_os.EasyFs.Efs.Division.{created, inode_area_blocks-eq}
use ch_os.EasyFs.Layout.{SuperBlock, new_super_block, efs_magic}
use ch_os.EasyFs.Layout

-- Six numbers of 32 bits in a row.
six : (ℕ → ℕ) → ℕ → ℕ → ℕ → ℕ → ℕ → ℕ → ℕ → ℕ
six bytes a b c d e f =
    write_le 4
      (write_le 4 (write_le 4 (write_le 4 (write_le 4 (write_le 4 bytes 0 a) 4 b) 8 c) 12 d) 16 e)
      20 f

over :
    (bytes : ℕ → ℕ) (o o' v w : ℕ)
    → o' + 4 ≤ o
    → read_le 4 bytes o' ≡ w
    → read_le 4 (write_le 4 bytes o v) o' ≡ w
over bytes o o' v w h e = read_le-write_le_apart 4 4 bytes o o' v (inl h) ∙ e

read-six :
    (bytes : ℕ → ℕ) (a b c d e f : ℕ)
    → a < 2 ^ 32
    → b < 2 ^ 32
    → c < 2 ^ 32
    → d < 2 ^ 32
    → e < 2 ^ 32
    → f < 2 ^ 32
    → let m = six bytes a b c d e f in
      (read_le 4 m 0 ≡ a)
      × (read_le 4 m 4 ≡ b)
      × (read_le 4 m 8 ≡ c)
      × (read_le 4 m 12 ≡ d)
      × (read_le 4 m 16 ≡ e)
      × (read_le 4 m 20 ≡ f)
unfolding six
read-six bytes a b c d e f ha hb hc hd he hf =
    let m₁ = write_le 4 bytes 0 a in
    let m₂ = write_le 4 m₁ 4 b in
    let m₃ = write_le 4 m₂ 8 c in
    let m₄ = write_le 4 m₃ 12 d in
    let m₅ = write_le 4 m₄ 16 e in
    (
      over m₅ 20 0 f a (omega arith) (
          over m₄ 16 0 e a (omega arith) (
            over m₃ 12 0 d a (omega arith) (
              over m₂ 8 0 c a (omega arith)
                (over m₁ 4 0 b a (omega arith) (read_le-write_le 4 bytes 0 a ha))))),
      over m₅ 20 4 f b (omega arith) (
          over m₄ 16 4 e b (omega arith) (
            over m₃ 12 4 d b (omega arith)
              (over m₂ 8 4 c b (omega arith) (read_le-write_le 4 m₁ 4 b hb)))),
      over m₅ 20 8 f c (omega arith) (
          over m₄ 16 8 e c (omega arith)
            (over m₃ 12 8 d c (omega arith) (read_le-write_le 4 m₂ 8 c hc))),
      over m₅ 20 12 f d (omega arith)
          (over m₄ 16 12 e d (omega arith) (read_le-write_le 4 m₃ 12 d hd)),
      over m₅ 20 16 f e (omega arith) (read_le-write_le 4 m₄ 16 e he),
      read_le-write_le 4 m₅ 20 f hf,
    )

write_super_block-IsDisk : (s : SuperBlock) (d : Disk) → IsDisk d → IsDisk (write_super_block s d)
unfolding write_super_block
write_super_block-IsDisk s d h b o = elim (Bool-cases (b == 0)) [
  | inl here ↦ rw here (
      write_le-lt 4 _ 20 _ o (λ p₅. write_le-lt 4 _ 16 _ p₅ (λ p₄. write_le-lt 4 _ 12 _ p₄ (λ p₃.
        write_le-lt 4 _ 8 _ p₃
          (λ p₂. write_le-lt 4 _ 4 _ p₂ (λ p₁. write_le-lt 4 _ 0 _ p₁ (h 0)))))))
  | inr other ↦ rw other (h b o)
]

read_super_block-same :
    (d d' : Disk) → ((o : ℕ) → d' 0 o ≡ d 0 o) → read_super_block d' ≡ read_super_block d
unfolding read_super_block
read_super_block-same d d' h = let same : d' 0 ≡ d 0 = fun_ext h in rw same refl

data_bitmap_blocks-lt : (total ib : ℕ) → data_bitmap_blocks total ib < 2 ^ 32
unfolding data_bitmap_blocks
data_bitmap_blocks-lt total ib = omega arith

open_efs-same : (d d' : Disk) → ((o : ℕ) → d' 0 o ≡ d 0 o) → open_efs d' ≡ open_efs d
unfolding open_efs
open_efs-same d d' h = rw (read_super_block-same d d' h) refl

-- What `open` makes of the super block that `create` writes.
open_efs-super_block :
    (total ib : ℕ) (d : Disk)
    → 1 + ib + ib * 1024 < total
    → total + 4096 < 2 ^ 32
    → open_efs (write_super_block (super_block total ib) d) ≡ done (created total ib)
unfolding open_efs read_super_block write_super_block super_block new_super_block Layout.is_valid
    six
open_efs-super_block total ib d fits small =
    let ia = inode_area_blocks-eq ib (omega arith) in
    let (m, t, i, a, b, f) =
      read-six (d 0) efs_magic total ib (inode_area_blocks ib) (data_bitmap_blocks total ib)
        (sub_u32 (data_total_blocks total ib) (data_bitmap_blocks total ib)) (omega arith)
        (omega arith) (omega arith) (omega (arith, ia)) (data_bitmap_blocks-lt total ib)
        (omega arith) in
    rw (m, i, a, b) refl

-- After the blocks are cleared and the super block is written, the first inode is free, and
-- `alloc_inode` gives it.
module _ (total ib : ℕ) (d : Disk) (h : IsDisk d) (one : 0 < ib) (fits : 1 + ib + ib * 1024 < total)
    (small : total + 4096 < 2 ^ 32) where
  abbrev prepared : Disk
  prepared = write_super_block (super_block total ib) (clear_blocks total d)

  cleared-IsDisk : IsDisk (clear_blocks total d)
  unfolding clear_blocks
  cleared-IsDisk b o = ground (arith, h b o)

  prepared-IsDisk : IsDisk prepared
  prepared-IsDisk =
      write_super_block-IsDisk (super_block total ib) (clear_blocks total d) cleared-IsDisk

  first_clear : bit_of 1 prepared 0 ≡ 0
  unfolding word read_le write_super_block clear_blocks
  first_clear = let inside : ltb 1 total ≡ true = ground arith in rw inside refl

  alloc-first :
      (d' : Disk) × (alloc (Bitmap.new 1 ib) prepared ≡ (some 0, d'))
      × ((o : ℕ) → d' 0 o ≡ prepared 0 o)
  unfolding maximum Bitmap.new
  alloc-first =
      from (alloc (Bitmap.new 1 ib) prepared) refl (alloc-elsewhere (Bitmap.new 1 ib) prepared 0)
    where
      from :
          (r : Option ℕ × Disk)
          → alloc (Bitmap.new 1 ib) prepared ≡ r
          → ((o : ℕ) → 0 < 1 → (alloc (Bitmap.new 1 ib) prepared).1 0 o ≡ prepared 0 o)
          → (d' : Disk) × (r ≡ (some 0, d')) × ((o : ℕ) → d' 0 o ≡ prepared 0 o)
      from (none, d') e same =
          let full =
            (alloc-full (Bitmap.new 1 ib) prepared prepared-IsDisk 0 d' e (omega arith)).1 in
          absurd (omega (arith, first_clear, full))
      from (some n, d') e same =
          let (n_lt, clear, disk', changed, lowest) =
            alloc-lowest (Bitmap.new 1 ib) prepared prepared-IsDisk n 0 d' e in
          let first : n ≡ 0 = ground (arith, lowest, first_clear) in
          (d', ap (λ n. (some n, d')) first, λ o. sym (ap (λ r. r.1 0 o) e) ∙ same o (omega arith))

  -- With at least one block for the bitmap of the inodes, and more than as many blocks as the
  -- inodes need, but fewer than 2^32 - 4096: `create` ends, and `open` on the disk that it
  -- leaves gives the same file system back.
  pub open_efs-create :
      (d' : Disk) × (create total ib d ≡ done (created total ib, d'))
      × (open_efs d' ≡ done (created total ib))
  unfolding create alloc_inode file_system get_disk_inode_pos
  open_efs-create =
      let (d₁, taken, same) = alloc-first in
      let efs = created total ib in
      let (b, o) = get_disk_inode_pos efs 0 in
      let d' : Disk = update d₁ b (init_directory (d₁ b) o) in
      let later : (0 == b) ≡ false = ground arith in
      (
        d',
        rw (taken, create) refl,
        open_efs-same prepared d' (λ q. rw later (same q))
            ∙ open_efs-super_block total ib (clear_blocks total d) fits small,
      )
