-- ===== src/Drivers/SdCard/Init.antt =====
-- `init` of the card, and the test of its capacity in `init_sdcard`.
use ch_os.Base.{
  ℕ, zero, suc, ◌/◌, true, false, [], ◌∷◌, none, some, bit_and, ◌==◌, ltb, if◌then◌else◌,
}
use ch_os.Base.Outcome.{Outcome, done, panic, assert, ◌>>◌}
use ch_os.Drivers.SdCard.{
  SdCard, Cmd, cmd0, cmd8, cmd55, acmd41, cmd58, cs_high, lowlevel_init, high_speed_enable,
  send_cmd, end_cmd, get_response, read_data, write_data,
}
use ch_os.Drivers.SdCard.Registers.{CardInfo, get_cardinfo}

-- `InitError`. The frame of four bytes is given by its first, the only one that is read.
pub data InitResult : Type 0 where
  ready : CardInfo → InitResult
  cmd_failed : Cmd → ℕ → InitResult
  card_capacity_status_not_set : (ℕ → ℕ) → InitResult
  cannot_get_card_info : InitResult

-- How a loop of `init` ends: it breaks, `index` runs out, or a command fails.
pub data Loop : Type 0 where
  breaks exhausted : Loop
  returns : Cmd → ℕ → Loop

module _ {D : Type 0} (sd : SdCard D) where
  -- A command, its response, and the end of the command.
  unfoldable pub command : Cmd → ℕ → ℕ → D → ℕ × D
  command cmd arg crc s =
      let (result, s') = get_response sd (send_cmd sd cmd arg crc s) in (result, end_cmd sd s')

  -- `CMD55` and `ACMD41`, at most `index` times.
  unfoldable pub initiate : ℕ → D → Loop × D
  initiate zero s = (exhausted, s)
  initiate (suc index) s =
      let (result, s₁) = command cmd55 0 0 s in
      elim (result == 0x01) [
        | true ↦
            (let (result', s₂) = command acmd41 0x40000000 0 s₁ in
              elim (result' == 0x00) [ true ↦ (breaks, s₂) | false ↦ initiate index s₂ ])
        | false ↦ (returns cmd55 result, s₁)
      ]

  -- A command whose response is followed by four bytes.
  unfoldable pub command_frame : Cmd → ℕ → ℕ → D → ℕ × (ℕ → ℕ) × D
  command_frame cmd arg crc s =
      let (result, s₁) = get_response sd (send_cmd sd cmd arg crc s) in
      let (frame, s₂) = read_data sd 4 s₁ in (result, frame, end_cmd sd s₂)

  -- `CMD58`, at most `index` times; `frame` is what was read last.
  unfoldable pub read_ocr : ℕ → (ℕ → ℕ) → D → Loop × (ℕ → ℕ) × D
  read_ocr zero frame s = (exhausted, frame, s)
  read_ocr (suc index) frame s =
      let (result, frame', s') = command_frame cmd58 0 1 s in
      elim (result == 0x00) [ true ↦ (breaks, frame', s') | false ↦ read_ocr index frame' s' ]

  -- What follows the loops.
  abbrev pub card_ready : (ℕ → ℕ) → D → InitResult × D
  card_ready frame s =
      let (info, s') = get_cardinfo sd (high_speed_enable sd s) in
      if bit_and (frame 0) 0x40 == 0
      then (card_capacity_status_not_set frame, s)
      else (elim info [ some i ↦ (ready i, s') | none ↦ (cannot_get_card_info, s') ])

  -- `result` is that of `CMD8`: the loops have a `result` of their own.
  abbrev pub after_ocr : ℕ → Loop × (ℕ → ℕ) × D → InitResult × D
  after_ocr result (breaks, frame, s) = card_ready frame s
  after_ocr result (exhausted, frame, s) = (cmd_failed cmd58 result, s)
  after_ocr result (returns cmd r, frame, s) = (cmd_failed cmd r, s)

  abbrev pub after_initiate : ℕ → Loop × D → InitResult × D
  after_initiate result (breaks, s) = after_ocr result (read_ocr 255 (λ i. 0) s)
  after_initiate result (exhausted, s) = (cmd_failed acmd41 result, s)
  after_initiate result (returns cmd r, s) = (cmd_failed cmd r, s)

  unfoldable pub init : D → InitResult × D
  init s =
      let dummy = 0xff ∷ 0xff ∷ 0xff ∷ 0xff ∷ 0xff ∷ 0xff ∷ 0xff ∷ 0xff ∷ 0xff ∷ 0xff ∷ [] in
      let s₁ = write_data sd dummy (cs_high sd (lowlevel_init sd s)) in
      let (result₀, s₂) = command cmd0 0 0x95 s₁ in
      let (result, frame, s₃) = command_frame cmd8 0x01AA 0x87 s₂ in
      if result₀ == 0x01
      then (if result == 0x01
          then after_initiate result (initiate 255 s₃)
          else (cmd_failed cmd8 result, s₃))
      else (cmd_failed cmd0 result₀, s₂)

  -- `init_sdcard` from the call of `init` on: `unwrap`, and a card of at least one sector.
  unfoldable pub init_card : D → Outcome D
  init_card s =
      let (r, s') = init s in
      elim r [ ready info ↦ assert (ltb 0 (info.card_capacity / 512)) >> done s' | _ ↦ panic ]
