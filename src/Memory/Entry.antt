-- ===== src/Memory/Entry.antt =====
-- os/src/memory/page_table.rs, `PTEFlags` and `PageTableEntry`. An entry is its `bits`, a set of
-- flags the number of its `u8`.
use ch_os.Base.{
  ℕ, ◌+◌, ◌-◌, ◌*◌, ◌/◌, ◌%◌, ◌^◌, ◌<◌, ◌≡◌, Bool, true, false, not, bit_and, bit_or, arith, ◌==◌,
}
use ch_os.Base.Bits.{bit_and-mask, bit_or-shifted, bit_or-two-pow, bit_and-two-pow}
use ch_os.Memory.Address.{phys_page_num}
use ch_os.Memory.Address.Pages.{phys_page_num-mod}

abbrev pub flag_v : ℕ
flag_v = 2 ^ 0

abbrev pub flag_r : ℕ
flag_r = 2 ^ 1

abbrev pub flag_w : ℕ
flag_w = 2 ^ 2

abbrev pub flag_x : ℕ
flag_x = 2 ^ 3

abbrev pub flag_u : ℕ
flag_u = 2 ^ 4

-- `PageTableEntry::new`: `<<` drops the bits above 64.
unfoldable pub entry : ℕ → ℕ → ℕ
entry ppn flags = bit_or (ppn * 2 ^ 10 % 2 ^ 64) flags

pub empty : ℕ
empty = 0

unfoldable pub ppn : ℕ → ℕ
ppn bits = phys_page_num (bit_and (bits / 2 ^ 10) (2 ^ 44 - 1))

-- All eight bits of the `u8` are flags, so `from_bits` gives `Some`.
unfoldable pub flags : ℕ → ℕ
flags bits = bits % 2 ^ 8

unfoldable pub is_valid : ℕ → Bool
is_valid bits = not (bit_and (flags bits) flag_v == 0)

pub readable : ℕ → Bool
readable bits = not (bit_and (flags bits) flag_r == 0)

pub writable : ℕ → Bool
writable bits = not (bit_and (flags bits) flag_w == 0)

pub executable : ℕ → Bool
executable bits = not (bit_and (flags bits) flag_x == 0)

entry-sum : (p f : ℕ) → p < 2 ^ 44 → f < 2 ^ 8 → entry p f ≡ p * 2 ^ 10 + f
unfolding entry
entry-sum p f hp hf = ground (arith, bit_or-shifted 10 p f)

-- An entry gives back the page number and the flags that it was built from.
pub entry_fields :
    (p f : ℕ) → p < 2 ^ 44 → f < 2 ^ 8 → (ppn (entry p f) ≡ p) × (flags (entry p f) ≡ f)
unfolding ppn flags
entry_fields p f hp hf = ground (
  arith,
  entry-sum p f,
  bit_and-mask 44 (entry p f / 2 ^ 10),
  phys_page_num-mod (entry p f / 2 ^ 10 % 2 ^ 44),
)

pub is_valid-bit : (bits : ℕ) → is_valid bits ≡ (bits % 2 == 1)
unfolding is_valid flags
is_valid-bit bits = ground (arith, bit_and-two-pow 0 (bits % 2 ^ 8))

-- What `map` writes is valid, whatever the flags.
pub is_valid-entry :
    (p f : ℕ) → p < 2 ^ 44 → f < 2 ^ 8 → is_valid (entry p (bit_or f flag_v)) ≡ true
is_valid-entry p f hp hf = ground (
  arith,
  is_valid-bit (entry p (bit_or f flag_v)),
  entry-sum p (bit_or f flag_v),
  bit_or-two-pow 0 f,
)

pub is_valid-zero : is_valid 0 ≡ false
is_valid-zero = is_valid-bit 0

pub is_valid-empty : is_valid empty ≡ false
unfolding empty
is_valid-empty = is_valid-zero

-- A link to a node: its frame, and valid.
pub link_fields :
    (g : ℕ) → g < 2 ^ 44 → (ppn (entry g flag_v) ≡ g) × (is_valid (entry g flag_v) ≡ true)
link_fields g h = ground (arith, entry_fields g flag_v, is_valid-entry g 0 h, bit_or-two-pow 0 0)

-- The ppn of any entry is a page number of 44 bits.
pub ppn-lt : (bits : ℕ) → ppn bits < 2 ^ 44
unfolding ppn
ppn-lt bits = omega (arith, phys_page_num-mod (bit_and (bits / 2 ^ 10) (2 ^ 44 - 1)))
