-- ===== src/Drivers/SdCard.antt =====
-- os/src/drivers/block/sdcard.rs, `SDCard`: commands and responses over SPI. A function returns
-- its result with the new state of the bus.
pub mod Registers
pub mod Sectors
pub mod Init
pub mod Wire
pub mod Reading
pub mod Writing
pub mod Fields
pub mod Errors
pub mod Release
use ch_os.Base.{
  ℕ, zero, suc, ◌+◌, ◌-◌, ◌*◌, ◌/◌, ◌%◌, ◌^◌, Bool, true, false, List, [], ◌∷◌, bit_and, bit_or,
  ◌==◌, if◌then◌else◌,
}
use ch_os.Base.Outcome.{Outcome, done, panic, ◌>>=◌}
use ch_os.Drivers.Spi.{Spi, Tmod, trans, recv}

pub record SdCard (D : Type 0) : Type 0 where
  pub spi : Spi D
  pub spi_cs : ℕ
  pub cs_gpionum : ℕ

-- `CMD`
pub data Cmd : Type 0 where
  cmd0 cmd8 cmd9 cmd10 cmd12 cmd16 cmd17 cmd18 acmd23 cmd24 cmd25 acmd41 cmd55 cmd58 cmd59 : Cmd

abbrev pub number : Cmd → ℕ
number cmd0 = 0
number cmd8 = 8
number cmd9 = 9
number cmd10 = 10
number cmd12 = 12
number cmd16 = 16
number cmd17 = 17
number cmd18 = 18
number acmd23 = 23
number cmd24 = 24
number cmd25 = 25
number acmd41 = 41
number cmd55 = 55
number cmd58 = 58
number cmd59 = 59

-- `SD_START_DATA_SINGLE_BLOCK_READ` and the tokens of the other transfers.
abbrev pub start_single_read : ℕ
start_single_read = 0xFE

abbrev pub start_single_write : ℕ
start_single_write = 0xFE

abbrev pub start_multiple_write : ℕ
start_multiple_write = 0xFC

abbrev pub sec_len : ℕ
sec_len = 512

-- The bytes of a command.
unfoldable pub frame : Cmd → ℕ → ℕ → List ℕ
frame cmd arg crc =
    bit_or (number cmd) 0x40
    ∷ (arg / 2 ^ 24 % 2 ^ 8)
    ∷ (bit_and (arg / 2 ^ 16) 0xff % 2 ^ 8)
    ∷ (bit_and (arg / 2 ^ 8) 0xff % 2 ^ 8)
    ∷ (bit_and arg 0xff % 2 ^ 8)
    ∷ crc
    ∷ []

-- The initial value of `timeout`.
abbrev pub response_timeout : ℕ
response_timeout = 0x0FFF

module _ {D : Type 0} (sd : SdCard D) where
  unfoldable pub cs_high : D → D
  cs_high s = sd.spi.set_pin sd.cs_gpionum true s

  unfoldable pub cs_low : D → D
  cs_low s = sd.spi.set_pin sd.cs_gpionum false s

  unfoldable pub high_speed_enable : D → D
  high_speed_enable s = sd.spi.set_clk_rate 10000000 s

  unfoldable pub lowlevel_init : D → D
  lowlevel_init s = sd.spi.set_clk_rate 200000 (sd.spi.set_direction sd.cs_gpionum s)

  unfoldable pub write_data : List ℕ → D → D
  write_data bytes s = sd.spi.send_data sd.spi_cs bytes (sd.spi.configure trans s)

  unfoldable pub read_data : ℕ → D → (ℕ → ℕ) × D
  read_data len s = sd.spi.recv_data sd.spi_cs len (sd.spi.configure recv s)

  unfoldable pub send_cmd : Cmd → ℕ → ℕ → D → D
  send_cmd cmd arg crc s = write_data (frame cmd arg crc) (cs_low s)

  unfoldable pub end_cmd : D → D
  end_cmd s = write_data (0xff ∷ []) (cs_high s)

  -- The loop of `get_response`, with `timeout` tries left.
  unfoldable pub response_from : ℕ → D → ℕ × D
  response_from zero s = (0xFF, s)
  response_from (suc timeout) s =
      let (result, s') = read_data 1 s in
      elim (result 0 == 0xFF) [ true ↦ response_from timeout s' | false ↦ (result 0, s') ]

  unfoldable pub get_response : D → ℕ × D
  get_response s = response_from response_timeout s

  -- The loop of `get_dataresponse` while the card is busy. It may never end: `panic` is a card that
  -- is busy for more than `fuel` bytes.
  unfoldable pub wait_busy : ℕ → ℕ → D → Outcome D
  wait_busy zero byte s = panic
  wait_busy (suc fuel) byte s = elim (byte == 0) [
    | true ↦ (let (response, s') = read_data 1 s in wait_busy fuel (response 0) s')
    | false ↦ done s
  ]

  unfoldable pub get_dataresponse : ℕ → D → Outcome (ℕ × D)
  get_dataresponse fuel s =
      let (response, s₁) = read_data 1 s in
      if bit_and (response 0) 0x1F == 0x05
      then (let (busy, s₂) = read_data 1 s₁ in wait_busy fuel (busy 0) s₂ >>= λ s₃. done (0, s₃))
      else done (0xFF, s₁)
