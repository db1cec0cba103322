-- ===== src/EasyFs/VfsTests.antt =====
-- Runs of the inodes of the virtual file system at a concrete disk.
use ch_os.Base.{
  List, ℕ, zero, suc, ◌/◌, ◌^◌, ◌<◌, ◌≡◌, refl, ◌&&◌, if◌then◌else◌, arith, ◌==◌, [], ◌∷◌,
}
use ch_os.Base.Bytes.{read_le}
use ch_os.Base.Outcome.{done}
use ch_os.EasyFs.Disk.{Disk}
use ch_os.Base.Utf8.{is_utf8}
use ch_os.EasyFs.Layout.{directory, name_bytes, entry_name}
use ch_os.EasyFs.DiskInode.{DiskInode, get_block_id, is_dir}
use ch_os.EasyFs.DiskInode.Content.Read.{Located}
use ch_os.EasyFs.Vfs.{find_inode_id, list_entries, buffer_entry, bytes_from}
use ch_os.EasyFs.Vfs.Lookup.{HasNames, lookup, listing, names_of, find_inode_id-lookup}

-- A directory in block 40 with one entry: the name "a" and the inode 7.
abbrev root : DiskInode
root = record { size = 32; direct = λ i. 40; indirect1 = 0; indirect2 = 0; kind = directory }

abbrev disk : Disk
disk b o = if (b == 40) && (o == 0) then 97 else if (b == 40) && (o == 28) then 7 else 0

root-Located : Located root disk (λ k. 40)
unfolding get_block_id
root-Located k h = ground arith

abbrev names : ℕ → List ℕ
names i = 97 ∷ []

root_small : root.size < 2 ^ 32
root_small = omega arith

root-HasNames : HasNames root disk (λ k. 40) names
unfolding buffer_entry bytes_from entry_name name_bytes is_utf8 read_le
root-HasNames zero h = refl
root-HasNames (suc i) h = absurd (omega arith)

find_inode_id-lookup_example :
    (find_inode_id (97 ∷ []) root disk
      ≡ done (lookup (97 ∷ []) (listing disk (λ k. 40) names (32 / 32) 0)))
    × (list_entries (32 / 32) 0 root disk
        ≡ done (names_of (listing disk (λ k. 40) names (32 / 32) 0)))
unfolding is_dir
find_inode_id-lookup_example =
    find_inode_id-lookup root disk (λ k. 40) root-Located root_small (97 ∷ []) names refl
      root-HasNames
