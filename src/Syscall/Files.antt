-- ===== src/Syscall/Files.antt =====
-- File descriptors: `alloc_fd` of os/src/task/task.rs, os/src/syscall/fs.rs, and the flags of
-- os/src/fs/inode.rs. A file is of any type, with its `readable` and `writable`; what reading and
-- writing it do is left to it. The result -1 is `none`.
use ch_os.Base.{
  ℕ, zero, suc, ◌≡◌, refl, Bool, true, false, not, ◌||◌, bit_and, Option, none, some, List, [], ◌∷◌,
  ◌++◌, arith, ◌==◌, leb, if◌then◌else◌, length, Option-cases, inl, inr, Bool-cases, ◌∙◌,
  length-append,
}
use mathlib.Core.Option

abbrev pub wronly : ℕ
wronly = 1

abbrev pub rdwr : ℕ
rdwr = 2

-- `OpenFlags::read_write`: (readable, writable)
pub read_write : ℕ → Bool × Bool
read_write flags =
    if flags == 0
    then (true, false)
    else if bit_and flags wronly == wronly
    then (false, true)
    else (true, true)

module _ {File : Type 0} where
  -- The file behind a descriptor.
  abbrev pub slot : List (Option File) → ℕ → Option File
  slot [] fd = none
  slot (o ∷ t) zero = o
  slot (o ∷ t) (suc fd) = slot t fd

  -- `fd_table[fd] = o`, where `fd` is in range.
  abbrev pub put : List (Option File) → ℕ → Option File → List (Option File)
  put [] fd o = []
  put (x ∷ t) zero o = o ∷ t
  put (x ∷ t) (suc fd) o = x ∷ put t fd o

  -- `(0..fd_table.len()).find(|fd| fd_table[*fd].is_none())`
  pub first_none : List (Option File) → Option ℕ
  first_none [] = none
  first_none (none ∷ t) = some 0
  first_none (some f ∷ t) = Option.map suc (first_none t)

  -- Where none is free, one is pushed, and `fd_table.len() - 1` is its place.
  abbrev alloc_at : List (Option File) → Option ℕ → ℕ × List (Option File)
  alloc_at t (some fd) = (fd, t)
  alloc_at t none = (length t, t ++ (none ∷ []))

  pub alloc_fd : List (Option File) → ℕ × List (Option File)
  alloc_fd t = alloc_at t (first_none t)

  -- `opened` is what `open_file` returns.
  pub sys_open : Option File → List (Option File) → Option ℕ × List (Option File)
  sys_open none t = (none, t)
  sys_open (some file) t = let (fd, t') = alloc_fd t in (some fd, put t' fd (some file))

  pub sys_close : ℕ → List (Option File) → Option ℕ × List (Option File)
  sys_close fd t =
      if leb (length t) fd
      then (none, t)
      else elim (slot t fd) [ none ↦ (none, t) | some f ↦ (some 0, put t fd none) ]

  -- The file that `sys_read` reads (with `allowed` its `readable`) or `sys_write` writes.
  pub opened_file : (File → Bool) → ℕ → List (Option File) → Option File
  opened_file allowed fd t =
      if leb (length t) fd
      then none
      else elim (slot t fd) [ none ↦ none | some f ↦ if allowed f then some f else none ]

  abbrev pub is_open : List (Option File) → ℕ → Bool
  is_open t fd = elim (slot t fd) [ none ↦ false | some f ↦ true ]

  slot-past : (t : List (Option File)) (fd : ℕ) → leb (length t) fd ≡ true → slot t fd ≡ none
  slot-past [] fd h = refl
  slot-past (o ∷ t) zero h = ground arith
  slot-past (o ∷ t) (suc fd) h = slot-past t fd (ground arith)

  slot-put :
      (t : List (Option File)) (fd q : ℕ) (o : Option File)
      → leb (length t) fd ≡ false
      → slot (put t fd o) q ≡ (if q == fd then o else slot t q)
  slot-put [] fd q o h = ground arith
  slot-put (x ∷ t) zero zero o h = refl
  slot-put (x ∷ t) zero (suc q) o h = ground arith
  slot-put (x ∷ t) (suc fd) zero o h = ground arith
  slot-put (x ∷ t) (suc fd) (suc q) o h = ground (arith, slot-put t fd q o (ground arith))

  -- What the search for a free descriptor finds.
  abbrev Lowest : List (Option File) → Option ℕ → Type 0
  Lowest t none = (q : ℕ) → (leb (length t) q || is_open t q) ≡ true
  Lowest t (some fd) =
      (leb (length t) fd ≡ false)
      × (slot t fd ≡ none)
      × ((q : ℕ) → (leb fd q || is_open t q) ≡ true)

  Lowest-later :
      (f : File) (t : List (Option File)) (o : Option ℕ)
      → Lowest t o
      → Lowest (some f ∷ t) (Option.map suc o)
  Lowest-later f t none l = past
    where
      past : (q : ℕ) → (leb (suc (length t)) q || is_open (some f ∷ t) q) ≡ true
      past zero = ground arith
      past (suc q) = ground (arith, l q)
  Lowest-later f t (some fd) l = (ground arith, l.1, below)
    where
      below : (q : ℕ) → (leb (suc fd) q || is_open (some f ∷ t) q) ≡ true
      below zero = ground arith
      below (suc q) = ground (arith, l.2 q)

  first_none-Lowest : (t : List (Option File)) → Lowest t (first_none t)
  unfolding first_none
  first_none-Lowest [] = λ q. ground arith
  first_none-Lowest (none ∷ t) = (ground arith, refl, λ q. ground arith)
  first_none-Lowest (some f ∷ t) = Lowest-later f t (first_none t) (first_none-Lowest t)

  slot-append : (t : List (Option File)) (q : ℕ) → slot (t ++ (none ∷ [])) q ≡ slot t q
  slot-append [] zero = refl
  slot-append [] (suc q) = refl
  slot-append (x ∷ t) zero = refl
  slot-append (x ∷ t) (suc q) = slot-append t q

  -- `sys_open` gives the lowest descriptor that is free; from then on it stands for the file, and
  -- every other descriptor for what it did.
  pub sys_open-lowest :
      (file : File) (t : List (Option File)) (q : ℕ)
      → (fd : ℕ) × (t' : List (Option File)) × (sys_open (some file) t ≡ (some fd, t'))
        × (slot t fd ≡ none)
        × (slot t' q ≡ (if q == fd then some file else slot t q))
        × ((leb fd q || is_open t q) ≡ true)
  unfolding sys_open alloc_fd
  sys_open-lowest file t q = from (first_none t) (first_none-Lowest t)
    where
      from :
          (o : Option ℕ)
          → Lowest t o
          → (fd : ℕ) × (t' : List (Option File)) × ◌≡◌ {A = Option ℕ × List (Option File)}
              (some (alloc_at t o).0, put (alloc_at t o).1 (alloc_at t o).0 (some file))
              (some fd, t')
            × (slot t fd ≡ none)
            × (slot t' q ≡ (if q == fd then some file else slot t q))
            × ((leb fd q || is_open t q) ≡ true)
      from none l = (
        length t,
        put (t ++ (none ∷ [])) (length t) (some file),
        refl,
        slot-past t (length t) (ground arith),
        slot-put (t ++ (none ∷ [])) (length t) q (some file)
              (ground (arith, length-append t (none ∷ [])))
            ∙ ground (arith, slot-append t q),
        l q,
      )
      from (some fd) l =
          (fd, put t fd (some file), refl, l.1, slot-put t fd q (some file) l.0, l.2 q)

  -- `sys_close` of a descriptor that is open frees it and changes no other; of one that is not open
  -- it returns -1 and changes nothing.
  pub slot-sys_close :
      (t : List (Option File)) (fd q : ℕ)
      → (slot (sys_close fd t).1 q ≡ (if q == fd then none else slot t q))
        × ((sys_close fd t).0 ≡ (if is_open t fd then some 0 else none))
  unfolding sys_close
  slot-sys_close t fd q = elim (Bool-cases (leb (length t) fd)) [
    | inl past ↦ rw past (ground (arith, slot-past t fd past), ground (arith, slot-past t fd past))
    | inr within ↦
        rw (within, sys_close)
          (elim (Option-cases (slot t fd)) [
            | inl free ↦ rw free (ground arith, ground arith)
            | inr (f, on) ↦ rw on (slot-put t fd q none within, ground arith)
          ])
  ]

  -- A descriptor just opened is the one that `sys_read` and `sys_write` find, where the file allows
  -- it, and one just closed is none that they find.
  pub opened_file-sys_close :
      (allowed : File → Bool) (t : List (Option File)) (fd : ℕ)
      → opened_file allowed fd (sys_close fd t).1 ≡ none
  unfolding opened_file
  opened_file-sys_close allowed t fd = ground (arith, slot-sys_close t fd fd)

-- An opened file can be read or written or both; it can be written just where it is not opened with
-- the flags all clear, and read just where WRONLY is clear.
pub read_write_lem :
    (flags : ℕ)
    → ((read_write flags).1 ≡ not (flags == 0))
      × ((read_write flags).0 ≡ not (bit_and flags wronly == wronly))
unfolding read_write
read_write_lem flags = elim (Bool-cases (flags == 0)) [
  | inl clear ↦ let e : flags ≡ 0 = ground arith in rw e (refl, refl)
  | inr some_set ↦ rw (some_set, read_write) (ground arith, ground arith)
]
