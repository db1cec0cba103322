-- ===== src/Memory/Address/Pages.antt =====
-- Pages and addresses: rounding, splitting, the way back, and the three indexes of a page number.
use ch_os.Base.{ℕ, ◌+◌, ◌*◌, ◌/◌, ◌%◌, ◌^◌, ◌≤◌, ◌<◌, ◌≡◌, ◌↔◌, [], ◌∷◌, arith}
use ch_os.Base.Bits.{bit_and-mask}
use ch_os.Base.Outcome.{done}
use ch_os.Memory.Address.{
  page_size, phys_addr, phys_page_num, virt_addr, phys_offset, virt_floor, virt_ceil, virt_offset,
  virt_to_page, page_to_virt, indexes,
}

pub virt_addr-mod : (v : ℕ) → virt_addr v ≡ v % 2 ^ 39
unfolding virt_addr
virt_addr-mod v = bit_and-mask 39 v

pub phys_addr-mod : (v : ℕ) → phys_addr v ≡ v % 2 ^ 56
unfolding phys_addr
phys_addr-mod v = bit_and-mask 56 v

pub phys_page_num-mod : (v : ℕ) → phys_page_num v ≡ v % 2 ^ 44
unfolding phys_page_num
phys_page_num-mod v = bit_and-mask 44 v

pub virt_offset-mod : (v : ℕ) → virt_offset v ≡ v % 4096
unfolding virt_offset
virt_offset-mod v = bit_and-mask 12 v

pub phys_offset-mod : (v : ℕ) → phys_offset v ≡ v % 4096
unfolding phys_offset
phys_offset-mod v = bit_and-mask 12 v

-- A virtual address of 64 bits is its page and its offset in that page, which is less than a
-- page.
pub virt_split :
    (a : ℕ)
    → a < 2 ^ 64
    → (page_to_virt (virt_floor a) + virt_offset a ≡ a) × (virt_offset a < page_size)
unfolding page_to_virt virt_floor
virt_split a h = omega (arith, virt_offset-mod a)

-- For addresses below 2^63, `ceil` is the least page that does not begin below the address, and
-- `floor` the last that does not begin above it; address 0 included, where `self.0 - 1` wraps.
pub virt_rounding :
    (a p : ℕ)
    → a < 2 ^ 63
    → ((p ≤ virt_floor a) ↔ (p * page_size ≤ a)) × ((virt_ceil a ≤ p) ↔ (a ≤ p * page_size))
unfolding virt_floor virt_ceil
virt_rounding a p h = ((λ q. omega arith, λ q. omega arith), (λ q. omega arith, λ q. omega arith))

-- A page number below 2^52 is got back from its address.
pub virt_to_page-page_to_virt : (p : ℕ) → p < 2 ^ 52 → virt_to_page (page_to_virt p) ≡ done p
unfolding virt_to_page page_to_virt virt_floor
virt_to_page-page_to_virt p h = ground (arith, virt_offset-mod (p * 2 ^ 12 % 2 ^ 64))

-- The three indexes are the digits of the page number in base 512.
pub indexes-digits :
    (vpn : ℕ) → indexes vpn ≡ (vpn / 2 ^ 18 % 512) ∷ (vpn / 2 ^ 9 % 512) ∷ (vpn % 512) ∷ []
unfolding indexes
indexes-digits vpn =
    ground (
      arith,
      bit_and-mask 9 vpn,
      bit_and-mask 9 (vpn / 2 ^ 9),
      bit_and-mask 9 (vpn / 2 ^ 9 / 2 ^ 9),
    )

-- Page numbers below 2^27, those of the address space, with the same three indexes are the same.
pub indexes_injective : (p q : ℕ) → p < 2 ^ 27 → q < 2 ^ 27 → indexes p ≡ indexes q → p ≡ q
indexes_injective p q hp hq e = ground (arith, indexes-digits p, indexes-digits q)
