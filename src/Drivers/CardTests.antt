-- ===== src/Drivers/CardTests.antt =====
-- Transfers over a wire whose answers are given.
use ch_os.Base.{
  ℕ, ◌+◌, ◌*◌, ◌<◌, ◌≤◌, ◌≡◌, refl, Bool, true, false, List, [], ◌∷◌, ◌++◌, arith, ◌==◌,
  if◌then◌else◌, ◌%◌, ◌^◌,
}
use ch_os.Base.Outcome.{done, Meets}
use ch_os.Drivers.Spi.{Spi}
use ch_os.Drivers.SdCard.{SdCard, cmd24, frame, response_timeout, start_single_write}
use ch_os.Drivers.SdCard.Registers.{Cid, csd_of, card_info}
use ch_os.Drivers.SdCard.Init.{init}
use ch_os.Drivers.SdCard.Sectors.{ok, err, is_whole, read_sector, write_sector, write_block}
use ch_os.Drivers.SdCard.Wire.{Wire}
use ch_os.Drivers.SdCard.Reading.{read_bytes, read_sector-Serves, read_sector-silent}
use ch_os.Drivers.SdCard.Writing.{block_bytes, write_block-Accepts}
use ch_os.Drivers.SdCard.Fields.{bits, read_be, IsCsdOf, csd_of-IsCsdOf, card_capacity-register}
use ch_os.Drivers.SdCard.Errors.{Explained, init-Explained}
use ch_os.Drivers.SdCard.Release.{driver-released}

record Bus : Type 0 where
  pin : Bool
  sent : List ℕ
  position : ℕ

-- A wire with the given answers.
abbrev spi : (ℕ → ℕ) → Spi Bus
spi answer = record {
  set_direction = λ n s. s;
  set_pin = λ n b s. record s { pin = b };
  set_clk_rate = λ n s. s;
  configure = λ t s. s;
  send_data = λ cs bytes s. record s { sent = s.sent ++ bytes };
  recv_data =
      λ cs n s. let from = s.position in (λ i. answer (from + i), record s { position = from + n });
}

abbrev card : (ℕ → ℕ) → SdCard Bus
card answer = record { spi = spi answer; spi_cs = 3; cs_gpionum = 7 }

abbrev wire : (answer : ℕ → ℕ) → Wire (card answer) answer
wire answer = record {
  pin = λ s. s.pin;
  sent = λ s. s.sent;
  position = λ s. s.position;
  pin-set_pin = λ b s. refl;
  sent-set_pin = λ b s. refl;
  position-set_pin = λ b s. refl;
  pin-configure = λ t s. refl;
  sent-configure = λ t s. refl;
  position-configure = λ t s. refl;
  pin-set_clk_rate = λ n s. refl;
  pin-send_data = λ bytes s. refl;
  sent-send_data = λ bytes s. refl;
  position-send_data = λ bytes s. refl;
  pin-recv_data = λ n s. refl;
  sent-recv_data = λ n s. refl;
  position-recv_data = λ n s. refl;
  received = λ n i s h. refl;
}

abbrev start : Bus
start = record { pin = true; sent = []; position = 0 }

-- An idle byte, the acknowledgement, another idle byte, the token of a block, and the block.
abbrev serving : ℕ → ℕ
serving p =
    if p == 0 then 255 else if p == 1 then 0 else if p == 2 then 255 else if p == 3 then 254 else 7

read_sector-Serves_example :
    (bytes' : ℕ → ℕ) × (s' : Bus) × (read_sector (card serving) 512 (λ i. 0) 9 start
      ≡ done (ok, bytes', s'))
    × ((i : ℕ) → i < 512 → bytes' i ≡ 7)
    × ((i : ℕ) → 512 ≤ i → bytes' i ≡ 0)
    × (s'.sent ≡ [] ++ read_bytes (card serving) serving (wire serving) 512 9)
read_sector-Serves_example =
    read_sector-Serves (card serving) serving (wire serving) 512 9 2 518 (λ i. 0) (λ i. 7) start
      refl (1, omega arith, (λ j l. ground arith), refl, (λ e. ground arith), refl)
      (
        4,
        (1, omega arith, (λ j l. ground arith), refl, (λ e. ground arith), refl),
        (λ i l. ground arith),
        refl,
      )

read_sector-silent_example :
    (s' : Bus) × (read_sector (card (λ p. 255)) 1024 (λ i. 5) 9 start ≡ done (err, λ i. 5, s'))
    × (s'.pin ≡ true)
    × (s'.position ≡ 0 + response_timeout)
read_sector-silent_example =
    read_sector-silent (card (λ p. 255)) (λ p. 255) (wire (λ p. 255)) 1024 9 (λ i. 5) start refl
      (λ j l. refl)

-- The acknowledgement, the acceptance of the data, and a card that is busy for one byte.
abbrev accepting : ℕ → ℕ
accepting p = if p == 0 then 0 else if p == 1 then 5 else if p == 2 then 0 else 1

write_block-Accepts_example :
    (s' : Bus) × (write_block (card accepting) 8 3 512 (λ i. 1) start ≡ done s')
    × (s'.sent
        ≡ []
          ++ (frame cmd24 (3 % 2 ^ 32) 0
              ++ (block_bytes start_single_write 0 (λ i. 1) ++ 0xff ∷ 0xff ∷ [])))
    × (s'.position ≡ 4)
    × (s'.pin ≡ true)
write_block-Accepts_example =
    write_block-Accepts (card accepting) accepting (wire accepting) 8 3 1 4 (λ i. 1) start
      (0, omega arith, (λ j l. absurd (omega arith)), refl, (λ e. ground arith), refl)
      (1, omega arith, refl, (λ j l. ground arith), (λ e. ground arith), refl)

-- A register of 2 ^ 13 units of 1024 blocks of 512 bytes.
abbrev tab : ℕ → ℕ
tab i = if i == 5 then 0x59 else if i == 8 then 0x1F else if i == 9 then 0xFF else 0

csd_of-IsCsdOf_example : IsCsdOf (read_be 16 tab 0) (csd_of tab)
csd_of-IsCsdOf_example = csd_of-IsCsdOf tab (λ i. ground arith)

abbrev cid : Cid
cid = record {
  manufacturer_id = 1;
  oem_appli_id = 2;
  prod_name1 = 3;
  prod_name2 = 4;
  prod_rev = 5;
  prod_sn = 6;
  reserved1 = 0;
  manufact_date = 7;
  cid_crc = 8;
  reserved2 = 1;
}

card_capacity-register_example :
    (card_info (csd_of tab) cid).card_capacity
    ≡ (bits (read_be 16 tab 0) 69 48 + 1) * 1024 * 2 ^ bits (read_be 16 tab 0) 83 80
card_capacity-register_example = card_capacity-register tab cid (λ i. ground arith)

init-Explained_example : Explained (init (card (λ p. 1)) start).0
init-Explained_example = init-Explained (card (λ p. 1)) start

driver-released_example :
    ((init (card serving) start).1.pin ≡ true)
    × Meets
        (is_whole 512 ≡ false)
        (λ (a, b, s'). s'.pin ≡ true)
        (read_sector (card serving) 512 (λ i. 0) 9 start)
    × Meets
        (Unit {0})
        (λ (a, s'). s'.pin ≡ true)
        (write_sector (card serving) 8 512 (λ i. 0) 9 start)
driver-released_example =
    driver-released (card serving) serving (wire serving) 8 512 9 (λ i. 0) start
