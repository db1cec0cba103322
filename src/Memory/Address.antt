-- ===== src/Memory/Address.antt =====
-- os/src/memory/address.rs. `PhysAddr`, `VirtAddr`, `PhysPageNum` and `VirtPageNum` wrap a `usize`
-- each, and are the number here.
pub mod Pages
pub mod Range
use ch_os.Base.{ℕ, zero, suc, ◌+◌, ◌-◌, ◌*◌, ◌/◌, ◌%◌, ◌^◌, bit_and, Bool, true, false}
use ch_os.Base.{List, [], ◌∷◌, Option, none, some, ◌==◌, leb, if◌then◌else◌}
use ch_os.Base.Bits.{add_usize, sub_usize}
use ch_os.Base.Outcome.{Outcome, done, panic, assert, ◌>>=◌, ◌>>◌}

-- os/src/config.rs
abbrev pub page_size : ℕ
page_size = 0x1000

abbrev pub page_size_bits : ℕ
page_size_bits = 0xc

abbrev pub pa_width_sv39 : ℕ
pa_width_sv39 = 56

abbrev pub ppn_width_sv39 : ℕ
ppn_width_sv39 = pa_width_sv39 - page_size_bits

abbrev pub va_width_sv39 : ℕ
va_width_sv39 = 39

abbrev pub vpn_width_sv39 : ℕ
vpn_width_sv39 = va_width_sv39 - page_size_bits

-- `From<usize>`: each keeps the bits of its width.
unfoldable pub phys_addr : ℕ → ℕ
phys_addr v = bit_and v (2 ^ pa_width_sv39 - 1)

unfoldable pub phys_page_num : ℕ → ℕ
phys_page_num v = bit_and v (2 ^ ppn_width_sv39 - 1)

unfoldable pub virt_addr : ℕ → ℕ
virt_addr v = bit_and v (2 ^ va_width_sv39 - 1)

pub virt_page_num : ℕ → ℕ
virt_page_num v = bit_and v (2 ^ vpn_width_sv39 - 1)

-- `PhysAddr::page_offset`, `floor`, `ceil` and `aligned`.
unfoldable pub phys_offset : ℕ → ℕ
phys_offset a = bit_and a (page_size - 1)

unfoldable pub phys_floor : ℕ → ℕ
phys_floor a = a / page_size

pub phys_ceil : ℕ → ℕ
phys_ceil a = add_usize (sub_usize a 1) page_size / page_size

pub phys_aligned : ℕ → Bool
phys_aligned a = phys_offset a == 0

-- `VirtAddr::floor`, `ceil`, `page_offset` and `aligned`.
unfoldable pub virt_floor : ℕ → ℕ
virt_floor a = a / page_size

unfoldable pub virt_ceil : ℕ → ℕ
virt_ceil a = add_usize (sub_usize a 1) page_size / page_size

unfoldable pub virt_offset : ℕ → ℕ
virt_offset a = bit_and a (page_size - 1)

pub virt_aligned : ℕ → Bool
virt_aligned a = virt_offset a == 0

-- From an address to its page number; the address must be aligned.
unfoldable pub phys_to_page : ℕ → Outcome ℕ
phys_to_page a = do assert (phys_offset a == 0); done (phys_floor a)

unfoldable pub virt_to_page : ℕ → Outcome ℕ
virt_to_page a = do assert (virt_offset a == 0); done (virt_floor a)

-- From a page number to the address of its page; `<<` drops the bits above 64.
unfoldable pub page_to_phys : ℕ → ℕ
page_to_phys p = p * 2 ^ page_size_bits % 2 ^ 64

unfoldable pub page_to_virt : ℕ → ℕ
page_to_virt p = p * 2 ^ page_size_bits % 2 ^ 64

-- The loop of `VirtPageNum::indexes` fills its array from the last place down.
unfoldable pub indexes_from : ℕ → ℕ → List ℕ → List ℕ
indexes_from zero vpn idx = idx
indexes_from (suc i) vpn idx = indexes_from i (vpn / 2 ^ 9) (bit_and vpn 511 ∷ idx)

unfoldable pub indexes : ℕ → List ℕ
unfolding indexes_from
indexes vpn = indexes_from 3 vpn []

-- `StepByOne::step`
unfoldable pub step : ℕ → ℕ
step p = add_usize p 1

-- `SimpleRange` of page numbers, and its iterator.
pub record SimpleRange : Type 0 where
  pub l : ℕ
  pub r : ℕ

unfoldable pub new_range : ℕ → ℕ → Outcome SimpleRange
new_range start end = do assert (leb start end); done (record { l = start; r = end })

pub record RangeIterator : Type 0 where
  pub current : ℕ
  pub end : ℕ

unfoldable pub into_iter : SimpleRange → RangeIterator
into_iter s = record { current = s.l; end = s.r }

pub next : RangeIterator → Option ℕ × RangeIterator
unfolding step
next it =
    if it.current == it.end
    then (none, it)
    else (some it.current, record it { current = step it.current })

-- What a `for` loop over the iterator visits, in at most `fuel` rounds.
pub visits : ℕ → RangeIterator → List ℕ
visits zero it = []
visits (suc fuel) it = let (p, it') = next it in elim p [ none ↦ [] | some q ↦ q ∷ visits fuel it' ]
