-- ===== src/Drivers/SdCard/Fields.antt =====
-- The fields of `SDCardCSD` as runs of bits of the register, a number of 128 bits whose highest byte
-- is sent first.
use ch_os.Base.{
  ℕ, zero, suc, ◌+◌, ◌-◌, ◌*◌, ◌/◌, ◌%◌, ◌^◌, ◌≤◌, ◌<◌, ◌≡◌, refl, ap, ◌∙◌, Bool, true, false,
  arith, ◌==◌, ==_iff, Bool-cases, inl, inr, ltb, bit_and, bit_or, if◌then◌else◌,
}
use native.Mathlib.Nat.{mod-eq_of_lt, pow-le-pow_right, mul-le-mul_left}
use ch_os.Base.Bits.{bit_or-shifted}
use ch_os.Drivers.SdCard.Registers.{Csd, Cid, csd_of, card_info, shl, shr}

-- A number of `n` bytes from the offset `o` on, the highest first.
unfoldable pub read_be : ℕ → (ℕ → ℕ) → ℕ → ℕ
read_be zero tab o = 0
read_be (suc n) tab o = tab o * 256 ^ n + read_be n tab (o + 1)

-- The bits of a register from `high` down to `low`.
abbrev pub bits : ℕ → ℕ → ℕ → ℕ
bits register high low = register / 2 ^ low % 2 ^ (high + 1 - low)

-- A card-specific data register and its fields.
pub record IsCsdOf (register : ℕ) (csd : Csd) : Type 0 where
  pub csd_struct : csd.csd_struct ≡ bits register 127 126
  pub sys_spec_version : csd.sys_spec_version ≡ bits register 125 122
  pub reserved1 : csd.reserved1 ≡ bits register 121 120
  pub taac : csd.taac ≡ bits register 119 112
  pub nsac : csd.nsac ≡ bits register 111 104
  pub max_bus_clk_frec : csd.max_bus_clk_frec ≡ bits register 103 96
  pub card_comd_classes : csd.card_comd_classes ≡ bits register 95 84
  pub rd_block_len : csd.rd_block_len ≡ bits register 83 80
  pub part_block_read : csd.part_block_read ≡ bits register 79 79
  pub wr_block_misalign : csd.wr_block_misalign ≡ bits register 78 78
  pub rd_block_misalign : csd.rd_block_misalign ≡ bits register 77 77
  pub dsr_impl : csd.dsr_impl ≡ bits register 76 76
  pub device_size : csd.device_size ≡ bits register 69 48
  pub erase_gr_size : csd.erase_gr_size ≡ bits register 46 46
  pub erase_gr_mul : csd.erase_gr_mul ≡ bits register 45 39
  pub wr_protect_gr_size : csd.wr_protect_gr_size ≡ bits register 38 32
  pub wr_protect_gr_enable : csd.wr_protect_gr_enable ≡ bits register 31 31
  pub man_defl_ecc : csd.man_defl_ecc ≡ bits register 30 29
  pub wr_speed_fact : csd.wr_speed_fact ≡ bits register 28 26
  pub max_wr_block_len : csd.max_wr_block_len ≡ bits register 25 22
  pub write_block_pa_partial : csd.write_block_pa_partial ≡ bits register 21 21
  pub content_protect_appli : csd.content_protect_appli ≡ bits register 16 16
  pub file_format_group : csd.file_format_group ≡ bits register 15 15
  pub copy_flag : csd.copy_flag ≡ bits register 14 14
  pub perm_wr_protect : csd.perm_wr_protect ≡ bits register 13 13
  pub temp_wr_protect : csd.temp_wr_protect ≡ bits register 12 12
  pub file_format : csd.file_format ≡ bits register 11 10
  pub ecc : csd.ecc ≡ bits register 9 8
  pub csd_crc : csd.csd_crc ≡ bits register 7 1

-- A test that every number below a bound passes.
passes : (ℕ → Bool) → ℕ → Bool
passes test zero = true
passes test (suc n) = if test n then passes test n else false

passes-below : (test : ℕ → Bool) (n k : ℕ) → k < n → passes test n ≡ true → test k ≡ true
unfolding passes
passes-below test zero k h all = absurd (omega arith)
passes-below test (suc n) k h all = elim (Bool-cases (k == n)) [
  | inl last ↦ ground (arith, ap test ((==_iff k n).0 last))
  | inr before ↦ ground (arith, passes-below test n k)
]

le-ltb : (a b : ℕ) → a ≤ b → ltb b a ≡ false
le-ltb a b h = ground arith

-- A mask of the bits of a byte from `low` on, `width` of them.
masked : ℕ → ℕ → ℕ → Bool
masked low width b = bit_and b ((2 ^ width - 1) * 2 ^ low) / 2 ^ low == b / 2 ^ low % 2 ^ width

-- All fields of all bytes; what does not fit a byte passes.
width_masked : ℕ → ℕ → Bool
unfolding masked passes
width_masked low width = if ltb 8 (low + width) then true else passes (masked low width) 256

low_masked : ℕ → Bool
low_masked low = passes (width_masked low) 9

all_masked-true : passes low_masked 8 ≡ true
unfolding low_masked width_masked passes
all_masked-true = refl

guarded : (c b : Bool) → c ≡ false → (if c then true else b) ≡ true → b ≡ true
guarded c b h g = ground arith

mask_lem :
    (low width b : ℕ)
    → low < 8
    → low + width ≤ 8
    → b < 256
    → bit_and b ((2 ^ width - 1) * 2 ^ low) / 2 ^ low ≡ b / 2 ^ low % 2 ^ width
unfolding low_masked width_masked masked
mask_lem low width b l h small =
    let at_low : low_masked low ≡ true = passes-below low_masked 8 low l all_masked-true in
    let at_width : width_masked low width ≡ true =
      passes-below (width_masked low) 9 width (omega arith) at_low in
    let fits : ltb 8 (low + width) ≡ false = le-ltb (low + width) 8 h in
    let at_byte = guarded (ltb 8 (low + width)) (passes (masked low width) 256) fits at_width in
    (==_iff _ _).0 (passes-below (masked low width) 256 b small at_byte)

-- A field that continues the bits of another.
or_fields : (w k x y : ℕ) → x * 2 ^ k < 2 ^ w → y < 2 ^ k → bit_or (shl w x k) y ≡ x * 2 ^ k + y
or_fields w k x y fits small = rw (mod-eq_of_lt fits) (bit_or-shifted k x y small)

or_three :
    (a b c : ℕ)
    → a < 2 ^ 16
    → b < 256
    → c < 256
    → bit_or (bit_or (shl 32 a 16) (shl 32 b 8)) c ≡ a * 2 ^ 16 + b * 2 ^ 8 + c
or_three a b c ha hb hc =
    let second : shl 32 b 8 ≡ b * 2 ^ 8 = omega arith in
    let both : bit_or (shl 32 a 16) (shl 32 b 8) ≡ (a * 2 ^ 8 + b) * 2 ^ 8 =
      or_fields 32 16 a (shl 32 b 8) (omega arith) (omega arith) ∙ omega arith in
    rw both (bit_or-shifted 8 (a * 2 ^ 8 + b) c hc ∙ omega arith)

module _ (tab : ℕ → ℕ) (bytes : (i : ℕ) → tab i < 256) where
  -- The bits of one byte of the register.
  field :
      (k low width : ℕ)
      → k < 16
      → low < 8
      → low + width ≤ 8
      → bit_and (tab k) ((2 ^ width - 1) * 2 ^ low) / 2 ^ low ≡ tab k / 2 ^ low % 2 ^ width
  field k low width h l f = mask_lem low width (tab k) l f (bytes k)

  -- The bytes of the register, from the highest down.
  register_bytes :
      let r = read_be 16 tab 0 in
      (r / 2 ^ 120 ≡ tab 0)
      × (r / 2 ^ 112 % 256 ≡ tab 1)
      × (r / 2 ^ 104 % 256 ≡ tab 2)
      × (r / 2 ^ 96 % 256 ≡ tab 3)
      × (r / 2 ^ 88 % 256 ≡ tab 4)
      × (r / 2 ^ 80 % 256 ≡ tab 5)
      × (r / 2 ^ 72 % 256 ≡ tab 6)
      × (r / 2 ^ 64 % 256 ≡ tab 7)
      × (r / 2 ^ 56 % 256 ≡ tab 8)
      × (r / 2 ^ 48 % 256 ≡ tab 9)
      × (r / 2 ^ 40 % 256 ≡ tab 10)
      × (r / 2 ^ 32 % 256 ≡ tab 11)
      × (r / 2 ^ 24 % 256 ≡ tab 12)
      × (r / 2 ^ 16 % 256 ≡ tab 13)
      × (r / 2 ^ 8 % 256 ≡ tab 14)
      × (r % 256 ≡ tab 15)
  unfolding read_be
  register_bytes = omega (
    arith,
    bytes 0,
    bytes 1,
    bytes 2,
    bytes 3,
    bytes 4,
    bytes 5,
    bytes 6,
    bytes 7,
    bytes 8,
    bytes 9,
    bytes 10,
    bytes 11,
    bytes 12,
    bytes 13,
    bytes 14,
    bytes 15,
  )

  -- Every field that the driver takes out of the sixteen bytes that the card sends for its CSD is
  -- the run of bits of the register at which the standard puts it.
  pub csd_of-IsCsdOf : IsCsdOf (read_be 16 tab 0) (csd_of tab)
  unfolding csd_of
  csd_of-IsCsdOf =
      let r = register_bytes in
      record {
        csd_struct = omega (arith, r, field 0 6 2 (omega arith) (omega arith) (omega arith));
        sys_spec_version = omega (arith, r, field 0 2 4 (omega arith) (omega arith) (omega arith));
        reserved1 = omega (arith, r, field 0 0 2 (omega arith) (omega arith) (omega arith));
        taac = omega (arith, r);
        nsac = omega (arith, r);
        max_bus_clk_frec = omega (arith, r);
        card_comd_classes =
            let high = field 5 4 4 (omega arith) (omega arith) (omega arith) in
            or_fields 16 4 (tab 4) (shr (bit_and (tab 5) 0xF0) 4) (omega (arith, bytes 4))
              (omega (arith, high))
            ∙ omega (arith, r, high);
        rd_block_len = omega (arith, r, field 5 0 4 (omega arith) (omega arith) (omega arith));
        part_block_read = omega (arith, r, field 6 7 1 (omega arith) (omega arith) (omega arith));
        wr_block_misalign = omega (arith, r, field 6 6 1 (omega arith) (omega arith) (omega arith));
        rd_block_misalign = omega (arith, r, field 6 5 1 (omega arith) (omega arith) (omega arith));
        dsr_impl = omega (arith, r, field 6 4 1 (omega arith) (omega arith) (omega arith));
        device_size =
            let low = field 7 0 6 (omega arith) (omega arith) (omega arith) in
            or_three (bit_and (tab 7) 0x3F) (tab 8) (tab 9) (omega (arith, low)) (bytes 8) (bytes 9)
            ∙ omega (arith, r, low);
        erase_gr_size = omega (arith, r, field 10 6 1 (omega arith) (omega arith) (omega arith));
        erase_gr_mul =
            let high = field 11 7 1 (omega arith) (omega arith) (omega arith) in
            let low = field 10 0 6 (omega arith) (omega arith) (omega arith) in
            or_fields 8 1 (bit_and (tab 10) 0x3F) (shr (bit_and (tab 11) 0x80) 7)
              (omega (arith, low)) (omega (arith, high))
            ∙ omega (arith, r, high, low);
        wr_protect_gr_size =
            omega (arith, r, field 11 0 7 (omega arith) (omega arith) (omega arith));
        wr_protect_gr_enable =
            omega (arith, r, field 12 7 1 (omega arith) (omega arith) (omega arith));
        man_defl_ecc = omega (arith, r, field 12 5 2 (omega arith) (omega arith) (omega arith));
        wr_speed_fact = omega (arith, r, field 12 2 3 (omega arith) (omega arith) (omega arith));
        max_wr_block_len =
            let high = field 13 6 2 (omega arith) (omega arith) (omega arith) in
            let low = field 12 0 2 (omega arith) (omega arith) (omega arith) in
            or_fields 8 2 (bit_and (tab 12) 0x03) (shr (bit_and (tab 13) 0xC0) 6)
              (omega (arith, low)) (omega (arith, high))
            ∙ omega (arith, r, high, low);
        write_block_pa_partial =
            omega (arith, r, field 13 5 1 (omega arith) (omega arith) (omega arith));
        content_protect_appli =
            omega (arith, r, field 13 0 1 (omega arith) (omega arith) (omega arith));
        file_format_group =
            omega (arith, r, field 14 7 1 (omega arith) (omega arith) (omega arith));
        copy_flag = omega (arith, r, field 14 6 1 (omega arith) (omega arith) (omega arith));
        perm_wr_protect = omega (arith, r, field 14 5 1 (omega arith) (omega arith) (omega arith));
        temp_wr_protect = omega (arith, r, field 14 4 1 (omega arith) (omega arith) (omega arith));
        file_format = omega (arith, r, field 14 2 2 (omega arith) (omega arith) (omega arith));
        ecc = omega (arith, r, field 14 0 2 (omega arith) (omega arith) (omega arith));
        csd_crc = omega (arith, r, field 15 1 7 (omega arith) (omega arith) (omega arith));
      }

-- The product of a size and a power of two, in a `u64`.
no_wrap :
    (d l : ℕ)
    → d < 2 ^ 22
    → l < 16
    → (d + 1) * 1024 % 2 ^ 64 * shl 64 1 l % 2 ^ 64 ≡ (d + 1) * 1024 * 2 ^ l
no_wrap d l hd hl =
    let p : 2 ^ l ≤ 2 ^ 15 =
      pow-le-pow_right {n = 2} (omega arith) {i = l} {j = 15} (omega arith) in
    let block : shl 64 1 l ≡ 2 ^ l = omega arith in
    let size : (d + 1) * 1024 % 2 ^ 64 ≡ (d + 1) * 1024 = omega arith in
    let bound : (d + 1) * 1024 * 2 ^ l ≤ (d + 1) * 1024 * 2 ^ 15 =
      mul-le-mul_left ((d + 1) * 1024) p in
    rw (size, block) (mod-eq_of_lt (omega (arith, bound)))

-- The capacity that `get_cardinfo` computes in a `u64` does not wrap: it is the size of the card that
-- the register gives, its device size plus one in units of 1024 blocks of the given length.
pub card_capacity-register :
    (tab : ℕ → ℕ) (cid : Cid)
    → ((i : ℕ) → tab i < 256)
    → let r = read_be 16 tab 0 in
      (card_info (csd_of tab) cid).card_capacity ≡ (bits r 69 48 + 1) * 1024 * 2 ^ bits r 83 80
unfolding card_info
card_capacity-register tab cid bytes =
    let f = csd_of-IsCsdOf tab bytes in
    rw (f.device_size, f.rd_block_len)
      (no_wrap (bits (read_be 16 tab 0) 69 48) (bits (read_be 16 tab 0) 83 80) (omega arith)
        (omega arith))
