-- ===== src/EasyFs/ContentTests.antt =====
-- Runs of reads and writes of a file at a concrete disk.
use ch_os.Base.{ℕ, ◌+◌, ◌-◌, ◌%◌, ◌^◌, ◌<◌, ◌≡◌, refl, min, arith, inl, inr}
use ch_os.Base.Outcome.{done}
use ch_os.EasyFs.Disk.{Disk}
use ch_os.EasyFs.Layout.{file}
use ch_os.EasyFs.DiskInode.{DiskInode, get_block_id}
use ch_os.EasyFs.DiskInode.Content.{Buffer, read_at, write_at}
use ch_os.EasyFs.DiskInode.Content.Read.{Located, Holds, read_at-Holds}
use ch_os.EasyFs.DiskInode.Content.Write.{Laid, Written, IsIndex}
use ch_os.EasyFs.DiskInode.Content.Laws.{write_at-Written, read_at-write_at}

-- A file of 600 bytes in the blocks 40 and 41.
abbrev node : DiskInode
node = record { size = 600; direct = λ i. 40 + i; indirect1 = 0; indirect2 = 0; kind = file }

abbrev disk : Disk
disk b o = (b + o) % 256

node-Located : Located node disk (λ k. 40 + k)
unfolding get_block_id
node-Located k h = ground arith

node-Laid : Laid node disk (λ k. 40 + k)
node-Laid = record {
  located = node-Located;
  apart = λ k h i. no_index k i;
  injective = λ j k h g e. omega arith;
}
  where
    no_index : (k : ℕ) → ¬ IsIndex node disk (40 + k)
    no_index k (inl (h, e)) = omega arith
    no_index k (inr (inl (h, e))) = omega arith
    no_index k (inr (inr (i, h, e))) = omega arith

abbrev buffer : Buffer
buffer = record { len = 20; byte = λ i. i }

read_at-Holds_example :
    (buf' : Buffer) × (read_at node 500 buffer disk ≡ done (min 20 (600 - 500), buf'))
    × Holds disk (λ k. 40 + k) buffer 0 500 (min 20 (600 - 500)) buf'
read_at-Holds_example =
    read_at-Holds node disk (λ k. 40 + k) 500 buffer node-Located (omega arith) (omega arith)

node_small : node.size < 2 ^ 32
node_small = omega arith

write_at-Written_example :
    (d' : Disk) × (write_at node 500 buffer disk ≡ done (min 20 (600 - 500), d'))
    × Written node (λ k. 40 + k) node_small 500 (min (500 + 20) 600) 0 buffer disk d'
write_at-Written_example =
    write_at-Written node disk (λ k. 40 + k) 500 buffer node-Laid node_small (omega arith)
      (omega arith) (omega arith)

read_at-write_at_example :
    (d' : Disk) × (into' : Buffer) × (write_at node 500 buffer disk ≡ done (20, d'))
    × (read_at node 500 buffer d' ≡ done (20, into'))
    × ((i : ℕ) → i < 20 → into'.byte i ≡ buffer.byte i)
read_at-write_at_example =
    read_at-write_at node disk (λ k. 40 + k) 500 buffer buffer node-Laid (omega arith) (omega arith)
      (omega arith) refl
