-- ===== src/EasyFs/Vfs/Lookup.antt =====
-- `find_inode_id` and `ls` against the directory as a list of names and numbers.
use ch_os.Base.{
  ℕ, zero, suc, ◌+◌, ◌-◌, ◌*◌, ◌/◌, ◌^◌, ◌≤◌, ◌<◌, ◌≡◌, refl, ap, subst, ◌∙◌, min, Option, none,
  some, arith, if◌then◌else◌, List, [], ◌∷◌, true, Bool-cases, inl, inr,
}
use ch_os.Base.Bytes.{read_le, read_le-ext}
use ch_os.Base.Outcome.{Outcome, done}
use ch_os.EasyFs.Disk.{Disk}
use ch_os.EasyFs.Layout.{DirEntry, entry_name, empty_entry, dirent_sz}
use ch_os.EasyFs.DiskInode.{DiskInode, is_dir}
use ch_os.EasyFs.DiskInode.Content.{Buffer, read_at}
use ch_os.EasyFs.DiskInode.Content.Read.{Located, file_byte, Holds, read_at-Holds}
use ch_os.EasyFs.Vfs.{
  read_entry, find_entry, find_inode_id, list_entries, same_name, entry_buffer, buffer_entry,
  bytes_from,
}

bytes_from-same :
    (n : ℕ) (bytes bytes' : ℕ → ℕ) (o : ℕ)
    → ((q : ℕ) → o ≤ q → q < o + n → bytes q ≡ bytes' q)
    → bytes_from n bytes o ≡ bytes_from n bytes' o
unfolding bytes_from
bytes_from-same zero bytes bytes' o h = refl
bytes_from-same (suc n) bytes bytes' o h =
    ap (λ b. b ∷ bytes_from n bytes (o + 1)) (h o (omega arith) (omega arith))
    ∙ ap (λ l. bytes' o ∷ l)
        (bytes_from-same n bytes bytes' (o + 1) (λ q l u. h q (omega arith) (omega arith)))

-- The entry at `i` of a directory, out of the bytes of its file.
abbrev pub entry_at : Disk → (ℕ → ℕ) → ℕ → DirEntry
entry_at d blk i =
    buffer_entry (record { len = dirent_sz; byte = λ j. file_byte d blk (dirent_sz * i + j) })

-- The directory: the names of its entries, with the numbers of their inodes.
abbrev pub listing : Disk → (ℕ → ℕ) → (ℕ → List ℕ) → ℕ → ℕ → List (List ℕ × ℕ)
listing d blk names zero i = []
listing d blk names (suc left) i =
    (names i, (entry_at d blk i).inode_number) ∷ listing d blk names left (i + 1)

-- The number that goes with a name, if one does, and all names.
abbrev pub lookup : List ℕ → List (List ℕ × ℕ) → Option ℕ
lookup name [] = none
lookup name ((other, number) ∷ rest) =
    if same_name other name then some number else lookup name rest

abbrev pub names_of : List (List ℕ × ℕ) → List (List ℕ)
names_of [] = []
names_of ((name, number) ∷ rest) = name ∷ names_of rest

-- The name of every entry ends within its 28 bytes and is UTF-8.
abbrev pub HasNames : DiskInode → Disk → (ℕ → ℕ) → (ℕ → List ℕ) → Type 0
HasNames n d blk names =
    (i : ℕ) → i < n.size / dirent_sz → entry_name (entry_at d blk i).name ≡ done (names i)

module _ (n : DiskInode) (d : Disk) (blk : ℕ → ℕ) (located : Located n d blk)
    (small : n.size < 2 ^ 32) where
  read_entry-done :
      (i : ℕ) (dirent : DirEntry) (buf' : Buffer)
      → read_at n (dirent_sz * i) (entry_buffer dirent) d ≡ done (dirent_sz, buf')
      → read_entry n i dirent d ≡ done (buffer_entry buf')
  unfolding read_entry
  read_entry-done i dirent buf' e = rw e refl

  buffer_entry-Holds :
      (i : ℕ) (buf buf' : Buffer)
      → Holds d blk buf 0 (dirent_sz * i) dirent_sz buf'
      → buffer_entry buf' ≡ entry_at d blk i
  unfolding buffer_entry
  buffer_entry-Holds i buf buf' held =
      let bytes = λ (j : ℕ). file_byte d blk (dirent_sz * i + j) in
      let same : (q : ℕ) → q < 32 → buf'.byte q ≡ file_byte d blk (dirent_sz * i + q) =
        λ q h. held.1 q ∙ ground arith in
      ap (λ k. record { name = k; inode_number = read_le 4 buf'.byte 28 })
        (bytes_from-same 28 buf'.byte bytes 0 (λ q l u. same q (omega arith)))
      ∙ ap (λ k. record { name = bytes_from 28 bytes 0; inode_number = k })
          (read_le-ext 4 buf'.byte bytes 28 (λ q l u. same q (omega arith)))

  pub read_entry-entry_at :
      (i : ℕ) (dirent : DirEntry)
      → i < n.size / dirent_sz
      → read_entry n i dirent d ≡ done (entry_at d blk i)
  unfolding entry_buffer
  read_entry-entry_at i dirent h =
      let (buf', e, held) =
        read_at-Holds n d blk (dirent_sz * i) (entry_buffer dirent) located small (omega arith) in
      let whole : min dirent_sz (n.size - dirent_sz * i) ≡ dirent_sz = omega arith in
      read_entry-done i dirent buf' (e ∙ ap {B = Outcome (ℕ × Buffer)} (λ k. done (k, buf')) whole)
      ∙ ap {B = Outcome DirEntry} (λ k. done k)
          (buffer_entry-Holds i (entry_buffer dirent) buf'
            (subst (λ k. Holds d blk (entry_buffer dirent) 0 (dirent_sz * i) k buf') whole held))

  find_entry-step :
      (left i : ℕ) (name entry : List ℕ) (dirent e : DirEntry)
      → read_entry n i dirent d ≡ done e
      → entry_name e.name ≡ done entry
      → find_entry (suc left) i name n dirent d ≡ (
          if same_name entry name
          then done (some e.inode_number)
          else find_entry left (i + 1) name n e d)
  unfolding find_entry
  find_entry-step left i name entry dirent e read named = rw (read, named) refl

  find_entry-lookup :
      (left i : ℕ) (name : List ℕ) (names : ℕ → List ℕ) (dirent : DirEntry)
      → HasNames n d blk names
      → i + left ≤ n.size / dirent_sz
      → find_entry left i name n dirent d ≡ done (lookup name (listing d blk names left i))
  unfolding find_entry
  find_entry-lookup zero i name names dirent has h = refl
  find_entry-lookup (suc left) i name names dirent has h =
      find_entry-step left i name (names i) dirent (entry_at d blk i)
        (read_entry-entry_at i dirent (omega arith)) (has i (omega arith))
      ∙ elim (Bool-cases (same_name (names i) name)) [
        | inl hit ↦ rw hit refl
        | inr miss ↦
            rw miss (find_entry-lookup left (i + 1) name names (entry_at d blk i) has (omega arith))
      ]

  list_entries-names_of :
      (left i : ℕ) (names : ℕ → List ℕ)
      → HasNames n d blk names
      → i + left ≤ n.size / dirent_sz
      → list_entries left i n d ≡ done (names_of (listing d blk names left i))
  unfolding list_entries
  list_entries-names_of zero i names has h = refl
  list_entries-names_of (suc left) i names has h =
      rw
        (
          read_entry-entry_at i empty_entry (omega arith),
          has i (omega arith),
          list_entries-names_of left (i + 1) names has (omega arith),
        )
        refl

  -- In a directory of less than 2^32 bytes whose blocks can be looked up and whose names all end
  -- within their 28 bytes and are UTF-8: `find_inode_id` returns the number of the first entry with the name, and
  -- none where no entry has it; the loop of `ls` returns the names of the same entries in order.
  -- Neither panics.
  pub find_inode_id-lookup :
      (name : List ℕ) (names : ℕ → List ℕ)
      → is_dir n ≡ true
      → HasNames n d blk names
      → (find_inode_id name n d ≡ done (lookup name (listing d blk names (n.size / dirent_sz) 0)))
        × (list_entries (n.size / dirent_sz) 0 n d
            ≡ done (names_of (listing d blk names (n.size / dirent_sz) 0)))
  unfolding find_inode_id
  find_inode_id-lookup name names dir has = (
    rw dir (find_entry-lookup (n.size / dirent_sz) 0 name names empty_entry has (omega arith)),
    list_entries-names_of (n.size / dirent_sz) 0 names has (omega arith),
  )
