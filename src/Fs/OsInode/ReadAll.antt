-- ===== src/Fs/OsInode/ReadAll.antt =====
-- `OSInode::read_all`, in rounds of 512 bytes, gives the rest of the file.
use ch_os.Base.{
  ℕ, zero, suc, ◌+◌, ◌-◌, ◌^◌, ◌≤◌, ◌<◌, ◌≡◌, ◌≢◌, refl, ap, sym, ◌∙◌, min, max, List, [], ◌∷◌,
  ◌++◌, arith, Bool-cases, inl, inr, true, false, ◌==◌,
}
use ch_os.Base.Bits.{add_usize}
use ch_os.Base.Outcome.{Outcome, done}
use ch_os.EasyFs.Disk.{Disk}
use ch_os.EasyFs.DiskInode.Content.{Buffer}
use ch_os.EasyFs.DiskInode.Content.Read.{Located, file_byte, read_at-Holds}
use ch_os.EasyFs.Vfs.{bytes_from, read_disk_inode, disk_inode, lies_inside}
use ch_os.EasyFs.Vfs
use ch_os.Fs.OsInode.{OsInode, read_all, read_all_from}

-- The bytes of a file from `start` on, `n` of them.
abbrev pub file_bytes : Disk → (ℕ → ℕ) → ℕ → ℕ → List ℕ
file_bytes d blk start zero = []
file_bytes d blk start (suc n) = file_byte d blk start ∷ file_bytes d blk (start + 1) n

file_bytes-append :
    (d : Disk) (blk : ℕ → ℕ) (n k start : ℕ)
    → file_bytes d blk start n ++ file_bytes d blk (start + n) k ≡ file_bytes d blk start (n + k)
file_bytes-append d blk zero k start =
    let same_start : start + 0 ≡ start = omega arith in
    let same_count : k ≡ 0 + k = omega arith in
    ap (λ s. file_bytes d blk s k) same_start ∙ ap (λ c. file_bytes d blk start c) same_count
file_bytes-append d blk (suc n) k start =
    let same_start : start + suc n ≡ start + 1 + n = omega arith in
    let same_count : suc (n + k) ≡ suc n + k = omega arith in
    ap (λ s. file_bytes d blk start (suc n) ++ file_bytes d blk s k) same_start
    ∙ ap (λ l. file_byte d blk start ∷ l) (file_bytes-append d blk n k (start + 1))
    ∙ ap (λ c. file_bytes d blk start c) same_count

bytes_from-file_bytes :
    (d : Disk) (blk : ℕ → ℕ) (bytes : ℕ → ℕ) (n o start : ℕ)
    → ((i : ℕ) → i < n → bytes (o + i) ≡ file_byte d blk (start + i))
    → bytes_from n bytes o ≡ file_bytes d blk start n
unfolding bytes_from
bytes_from-file_bytes d blk bytes zero o start h = refl
bytes_from-file_bytes d blk bytes (suc n) o start h =
    let here : o + 0 ≡ o = omega arith in
    let there : start + 0 ≡ start = omega arith in
    ap (λ b. b ∷ bytes_from n bytes (o + 1))
      (ap bytes (sym here) ∙ h 0 (omega arith) ∙ ap (λ p. file_byte d blk p) there)
    ∙ ap (λ l. file_byte d blk start ∷ l)
        (bytes_from-file_bytes d blk bytes n (o + 1) (start + 1) (λ i l.
          let o_next : o + 1 + i ≡ o + suc i = omega arith in
          let p_next : start + suc i ≡ start + 1 + i = omega arith in
          ap bytes o_next ∙ h (suc i) (omega arith) ∙ ap (λ p. file_byte d blk p) p_next))

read_all_from-step :
    (fuel : ℕ) (f : OsInode) (buffer buffer' : Buffer) (d : Disk) (len : ℕ) (v : List ℕ)
    (f' : OsInode)
    → Vfs.read_at f.inode f.offset buffer d ≡ done (len, buffer')
    → (len == 0) ≡ false
    → read_all_from fuel (record f { offset = add_usize f.offset len }) buffer' d ≡ done (v, f')
    → read_all_from (suc fuel) f buffer d ≡ done (bytes_from len buffer'.byte 0 ++ v, f')
unfolding read_all_from
read_all_from-step fuel f buffer buffer' d len v f' e more rest = rw (e, more, rest) refl

read_all_from-end :
    (fuel : ℕ) (f : OsInode) (buffer buffer' : Buffer) (d : Disk) (len : ℕ)
    → Vfs.read_at f.inode f.offset buffer d ≡ done (len, buffer')
    → (len == 0) ≡ true
    → read_all_from (suc fuel) f buffer d ≡ done ([], f)
unfolding read_all_from
read_all_from-end fuel f buffer buffer' d len e ended = rw (e, ended) refl

module _ (d : Disk) (blk : ℕ → ℕ) where
  -- What `read_all` is to return.
  abbrev rest_of : OsInode → List ℕ × OsInode
  rest_of f =
      let size = (disk_inode f.inode d).size in
      (file_bytes d blk f.offset (size - f.offset), record f { offset = max f.offset size })

  -- What a round reads and what is left after it.
  rest_of-round :
      (f : OsInode) (bytes : ℕ → ℕ) (got : ℕ)
      → got ≤ (disk_inode f.inode d).size - f.offset
      → got ≢ 0
      → (disk_inode f.inode d).size < 2 ^ 32
      → ((i : ℕ) → i < got → bytes i ≡ file_byte d blk (f.offset + i))
      → let f₁ : OsInode = record f { offset = add_usize f.offset got } in
        ◌≡◌ {A = List ℕ × OsInode}
          (bytes_from got bytes 0 ++ (rest_of f₁).0, (rest_of f₁).1)
          (rest_of f)
  rest_of-round f bytes got h ne small same =
      let size = (disk_inode f.inode d).size in
      let moved : add_usize f.offset got ≡ f.offset + got = omega arith in
      let left : got + (size - (f.offset + got)) ≡ size - f.offset = omega arith in
      let ends : max (f.offset + got) size ≡ max f.offset size = omega arith in
      let read : bytes_from got bytes 0 ≡ file_bytes d blk f.offset got =
        bytes_from-file_bytes d blk bytes got 0 f.offset
          (λ i l. let at : 0 + i ≡ i = omega arith in ap bytes at ∙ same i l) in
      rw (moved, read, file_bytes-append d blk got (size - (f.offset + got)) f.offset, left, ends)
        refl

  read_all_from-file_bytes :
      (fuel : ℕ) (f : OsInode) (buffer : Buffer)
      → lies_inside f.inode ≡ true
      → Located (disk_inode f.inode d) d blk
      → (disk_inode f.inode d).size < 2 ^ 32
      → f.offset + 512 < 2 ^ 64
      → buffer.len ≡ 512
      → (disk_inode f.inode d).size - f.offset < fuel
      → read_all_from fuel f buffer d ≡ done (rest_of f)
  unfolding Vfs.read_at read_disk_inode
  read_all_from-file_bytes zero f buffer inside located small h l g = absurd (omega arith)
  read_all_from-file_bytes (suc fuel) f buffer inside located small h l g =
      let n = disk_inode f.inode d in
      let (buffer', e, held) = read_at-Holds n d blk f.offset buffer located small (omega arith) in
      let got = min buffer.len (n.size - f.offset) in
      elim (Bool-cases (got == 0)) [
        | inl ended ↦
            let none_left : n.size - f.offset ≡ 0 = ground arith in
            let stays : max f.offset n.size ≡ f.offset = omega arith in
            read_all_from-end fuel f buffer buffer' d got (rw inside e) ended
            ∙ rw (none_left, stays) refl
        | inr more ↦
            let f₁ : OsInode = record f { offset = add_usize f.offset got } in
            read_all_from-step fuel f buffer buffer' d got (rest_of f₁).0 (rest_of f₁).1
              (rw inside e) more
              (read_all_from-file_bytes fuel f₁ buffer' inside located small (omega arith)
                (held.0 ∙ l) (ground arith))
            ∙ ap {B = Outcome (List ℕ × OsInode)} (λ r. done r)
                (rest_of-round f buffer'.byte got (omega arith) (ground arith) small
                  (λ i k. held.1 i ∙ ground arith))
      ]

-- `read_all` on an opened file of less than 2^32 bytes whose inode lies within its
-- block and whose blocks can be looked up, at any place
-- that is not within 512 of the end of the machine's numbers: it ends, returns the bytes of the
-- file from the place on, all of them, and leaves the place at the end of the file.
pub read_all-file_bytes :
    (f : OsInode) (d : Disk) (blk : ℕ → ℕ)
    → f.inode.block_offset + 128 ≤ 512
    → Located (disk_inode f.inode d) d blk
    → (disk_inode f.inode d).size < 2 ^ 32
    → f.offset + 512 < 2 ^ 64
    → read_all f d
      ≡ done (
        file_bytes d blk f.offset ((disk_inode f.inode d).size - f.offset),
        record f { offset = max f.offset (disk_inode f.inode d).size },
      )
unfolding read_all
read_all-file_bytes f d blk inside located small h =
    read_all_from-file_bytes d blk (suc (disk_inode f.inode d).size) f
      (record { len = 512; byte = λ i. 0 }) (ground arith) located small h refl (omega arith)
