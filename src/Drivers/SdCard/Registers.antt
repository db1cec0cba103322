-- ===== src/Drivers/SdCard/Registers.antt =====
-- The registers of the card: `get_csdregister`, `get_cidregister` and `get_cardinfo`.
use ch_os.Base.{
  ℕ, ◌+◌, ◌*◌, ◌/◌, ◌%◌, ◌^◌, Option, none, some, bit_and, bit_or, ◌==◌, if◌then◌else◌,
}
use mathlib.Core.Option
use ch_os.Drivers.SdCard.{
  SdCard, Cmd, cmd9, cmd10, send_cmd, end_cmd, get_response, read_data, start_single_read,
}

-- `x << k` in a number of `w` bits.
abbrev pub shl : ℕ → ℕ → ℕ → ℕ
shl w x k = x * 2 ^ k % 2 ^ w

abbrev pub shr : ℕ → ℕ → ℕ
shr x k = x / 2 ^ k

-- `SDCardCSD`
pub record Csd : Type 0 where
  pub csd_struct : ℕ
  pub sys_spec_version : ℕ
  pub reserved1 : ℕ
  pub taac : ℕ
  pub nsac : ℕ
  pub max_bus_clk_frec : ℕ
  pub card_comd_classes : ℕ
  pub rd_block_len : ℕ
  pub part_block_read : ℕ
  pub wr_block_misalign : ℕ
  pub rd_block_misalign : ℕ
  pub dsr_impl : ℕ
  pub reserved2 : ℕ
  pub device_size : ℕ
  pub erase_gr_size : ℕ
  pub erase_gr_mul : ℕ
  pub wr_protect_gr_size : ℕ
  pub wr_protect_gr_enable : ℕ
  pub man_defl_ecc : ℕ
  pub wr_speed_fact : ℕ
  pub max_wr_block_len : ℕ
  pub write_block_pa_partial : ℕ
  pub reserved3 : ℕ
  pub content_protect_appli : ℕ
  pub file_format_group : ℕ
  pub copy_flag : ℕ
  pub perm_wr_protect : ℕ
  pub temp_wr_protect : ℕ
  pub file_format : ℕ
  pub ecc : ℕ
  pub csd_crc : ℕ
  pub reserved4 : ℕ

-- `SDCardCID`
pub record Cid : Type 0 where
  pub manufacturer_id : ℕ
  pub oem_appli_id : ℕ
  pub prod_name1 : ℕ
  pub prod_name2 : ℕ
  pub prod_rev : ℕ
  pub prod_sn : ℕ
  pub reserved1 : ℕ
  pub manufact_date : ℕ
  pub cid_crc : ℕ
  pub reserved2 : ℕ

-- `SDCardInfo`
pub record CardInfo : Type 0 where
  pub sd_csd : Csd
  pub sd_cid : Cid
  pub card_capacity : ℕ
  pub card_block_size : ℕ

-- The fields in the bytes that the card sends.
unfoldable pub csd_of : (ℕ → ℕ) → Csd
csd_of tab = record {
  csd_struct = shr (bit_and (tab 0) 0xC0) 6;
  sys_spec_version = shr (bit_and (tab 0) 0x3C) 2;
  reserved1 = bit_and (tab 0) 0x03;
  taac = tab 1;
  nsac = tab 2;
  max_bus_clk_frec = tab 3;
  card_comd_classes = bit_or (shl 16 (tab 4) 4) (shr (bit_and (tab 5) 0xF0) 4);
  rd_block_len = bit_and (tab 5) 0x0F;
  part_block_read = shr (bit_and (tab 6) 0x80) 7;
  wr_block_misalign = shr (bit_and (tab 6) 0x40) 6;
  rd_block_misalign = shr (bit_and (tab 6) 0x20) 5;
  dsr_impl = shr (bit_and (tab 6) 0x10) 4;
  reserved2 = 0;
  device_size = bit_or (bit_or (shl 32 (bit_and (tab 7) 0x3F) 16) (shl 32 (tab 8) 8)) (tab 9);
  erase_gr_size = shr (bit_and (tab 10) 0x40) 6;
  erase_gr_mul = bit_or (shl 8 (bit_and (tab 10) 0x3F) 1) (shr (bit_and (tab 11) 0x80) 7);
  wr_protect_gr_size = bit_and (tab 11) 0x7F;
  wr_protect_gr_enable = shr (bit_and (tab 12) 0x80) 7;
  man_defl_ecc = shr (bit_and (tab 12) 0x60) 5;
  wr_speed_fact = shr (bit_and (tab 12) 0x1C) 2;
  max_wr_block_len = bit_or (shl 8 (bit_and (tab 12) 0x03) 2) (shr (bit_and (tab 13) 0xC0) 6);
  write_block_pa_partial = shr (bit_and (tab 13) 0x20) 5;
  reserved3 = 0;
  content_protect_appli = bit_and (tab 13) 0x01;
  file_format_group = shr (bit_and (tab 14) 0x80) 7;
  copy_flag = shr (bit_and (tab 14) 0x40) 6;
  perm_wr_protect = shr (bit_and (tab 14) 0x20) 5;
  temp_wr_protect = shr (bit_and (tab 14) 0x10) 4;
  file_format = shr (bit_and (tab 14) 0x0C) 2;
  ecc = bit_and (tab 14) 0x03;
  csd_crc = shr (bit_and (tab 15) 0xFE) 1;
  reserved4 = 1;
}

unfoldable pub cid_of : (ℕ → ℕ) → Cid
cid_of tab = record {
  manufacturer_id = tab 0;
  oem_appli_id = bit_or (shl 16 (tab 1) 8) (tab 2);
  prod_name1 =
      bit_or (bit_or (bit_or (shl 32 (tab 3) 24) (shl 32 (tab 4) 16)) (shl 32 (tab 5) 8)) (tab 6);
  prod_name2 = tab 7;
  prod_rev = tab 8;
  prod_sn =
      bit_or (bit_or (bit_or (shl 32 (tab 9) 24) (shl 32 (tab 10) 16)) (shl 32 (tab 11) 8))
        (tab 12);
  reserved1 = shr (bit_and (tab 13) 0xF0) 4;
  manufact_date = bit_or (shl 16 (bit_and (tab 13) 0x0F) 8) (tab 14);
  cid_crc = shr (bit_and (tab 15) 0xFE) 1;
  reserved2 = 1;
}

module _ {D : Type 0} (sd : SdCard D) where
  -- A register by its command: what both functions do before they take the bytes apart.
  unfoldable pub register_bytes : Cmd → D → Option (ℕ → ℕ) × D
  register_bytes cmd s =
      let (r, s₁) = get_response sd (send_cmd sd cmd 0 0 s) in
      if r == 0x00
      then (let (token, s₂) = get_response sd s₁ in
          if token == start_single_read
          then (let (tab, s₃) = read_data sd 18 s₂ in (some tab, end_cmd sd s₃))
          else (none, end_cmd sd s₂))
      else (none, end_cmd sd s₁)

  unfoldable pub get_csdregister : D → Option Csd × D
  get_csdregister s = let (tab, s') = register_bytes cmd9 s in (Option.map csd_of tab, s')

  unfoldable pub get_cidregister : D → Option Cid × D
  get_cidregister s = let (tab, s') = register_bytes cmd10 s in (Option.map cid_of tab, s')

-- The size and the capacity that `get_cardinfo` computes, in a `u64`.
unfoldable pub card_info : Csd → Cid → CardInfo
card_info csd cid =
    let block_size = shl 64 1 csd.rd_block_len in
    record {
      sd_csd = csd;
      sd_cid = cid;
      card_capacity = (csd.device_size + 1) * 1024 % 2 ^ 64 * block_size % 2 ^ 64;
      card_block_size = block_size;
    }

module _ {D : Type 0} (sd : SdCard D) where
  unfoldable pub get_cardinfo : D → Option CardInfo × D
  get_cardinfo s =
      let (csd, s₁) = get_csdregister sd s in
      elim csd [
        | none ↦ (none, s₁)
        | some c ↦ (let (cid, s₂) = get_cidregister sd s₁ in (Option.map (card_info c) cid, s₂))
      ]
