-- ===== src/Drivers/SdCard/Release.antt =====
-- The pin that selects the card: it is high again after every transfer.
use ch_os.Base.{
  ℕ, zero, suc, ◌+◌, ◌/◌, ◌≡◌, refl, Bool, true, false, [], ◌∷◌, arith, ◌==◌, if◌then◌else◌,
  Bool-cases, Option-cases, inl, inr, bit_and,
}
use ch_os.Base.Outcome.{done, assert, Meets, Meets->>=, Meets-any}
use ch_os.Drivers.SdCard.{
  SdCard, Cmd, cmd0, cmd8, cmd9, cmd10, cmd55, acmd41, cmd58, send_cmd, get_response,
  get_dataresponse, high_speed_enable, cs_high, lowlevel_init, write_data, sec_len,
  start_single_read,
}
use ch_os.Drivers.SdCard.Registers.{register_bytes, get_csdregister, get_cidregister, get_cardinfo}
use ch_os.Drivers.SdCard.Sectors.{
  stop_reading, read_sector, write_chunks, write_sector, start_writing, finish, slice, is_whole,
}
use ch_os.Drivers.SdCard.Init.{
  InitResult, cmd_failed, Loop, breaks, exhausted, returns, command, command_frame, initiate,
  read_ocr, card_ready, after_ocr, after_initiate, init,
}
use ch_os.Drivers.SdCard.Wire.{Wire, pin-end_cmd}

-- A choice of two ends.
Meets-if :
    {A : Type 0} (E : Type 0) (P : A → Type 0) (c : Bool) (x y : A)
    → P x
    → P y
    → Meets E P (if c then done x else done y)
Meets-if E P true x y h k = h
Meets-if E P false x y h k = k

-- The result of a transfer, and the pin.
module _ {D : Type 0} (sd : SdCard D) (answer : ℕ → ℕ) (w : Wire sd answer) where
  open w use {pin}

  pin-stop_reading : (s : D) → pin (stop_reading sd s) ≡ true
  unfolding stop_reading
  pin-stop_reading s = pin-end_cmd sd answer w _

  read_sector-released :
      (len sector : ℕ) (bytes : ℕ → ℕ) (s : D)
      → Meets
          (is_whole len ≡ false)
          (λ (a, b, s'). pin s' ≡ true)
          (read_sector sd len bytes sector s)
  unfolding read_sector
  read_sector-released len sector bytes s = elim (Bool-cases (is_whole len)) [
    | inr odd ↦ rw odd refl
    | inl whole ↦ elim (Bool-cases (len == sec_len)) [
      | inl one ↦
          rw (whole, one)
            (Meets-if _ (λ (a, b, s'). pin s' ≡ true) _ _ _ (pin-end_cmd sd answer w _)
              (pin-end_cmd sd answer w _))
      | inr several ↦
          rw (whole, several)
            (Meets-if _ (λ (a, b, s'). pin s' ≡ true) _ _ _ (pin-stop_reading _)
              (pin-end_cmd sd answer w _))
    ]
  ]

  pin-write_chunks :
      (fuel n token o : ℕ) (bytes : ℕ → ℕ) (s : D)
      → Meets
          (Unit {0})
          (λ (a, s'). pin (finish sd a s').1 ≡ true)
          (write_chunks sd fuel n token o bytes s)
  unfolding write_chunks
  pin-write_chunks fuel zero token o bytes s = pin-end_cmd sd answer w _
  pin-write_chunks fuel (suc n) token o bytes s =
      let s₁ = write_data sd (0xff ∷ token ∷ []) s in
      let s₂ = write_data sd (slice sec_len bytes o) s₁ in
      Meets->>= _ (get_dataresponse sd fuel (write_data sd (0xff ∷ 0xff ∷ []) s₂)) _ (Meets-any _)
        (λ e. e)
        (λ (r, s₄) _. elim (Bool-cases (r == 0x00)) [
          | inl e ↦ rw e (pin-write_chunks fuel n token (o + sec_len) bytes s₄)
          | inr e ↦ rw e (pin-end_cmd sd answer w s₄)
        ])

  write_sector-released :
      (fuel len sector : ℕ) (bytes : ℕ → ℕ) (s : D)
      → Meets (Unit {0}) (λ (a, s'). pin s' ≡ true) (write_sector sd fuel len bytes sector s)
  unfolding write_sector
  write_sector-released fuel len sector bytes s =
      Meets->>= _ (assert (is_whole len)) _ (Meets-any _) (λ e. e)
        (λ _ _.
          Meets->>= _ (start_writing sd len sector s) _ (Meets-any _) (λ e. e)
            (λ s₁ _. elim (Bool-cases ((get_response sd s₁).0 == 0x00)) [
              | inl e ↦ rw e (
                  Meets->>= _
                    (write_chunks sd fuel (len / sec_len) (if len == sec_len then 0xFE else 0xFC) 0
                      bytes (get_response sd s₁).1)
                    _
                    (pin-write_chunks fuel (len / sec_len) (if len == sec_len then 0xFE else 0xFC) 0
                      bytes (get_response sd s₁).1)
                    (λ e. e) (λ r h. h))
              | inr e ↦ rw e (pin-end_cmd sd answer w (get_response sd s₁).1)
            ]))

  pin-register_bytes : (cmd : Cmd) (s : D) → pin (register_bytes sd cmd s).1 ≡ true
  unfolding register_bytes
  pin-register_bytes cmd s =
      let r = get_response sd (send_cmd sd cmd 0 0 s) in
      let t = get_response sd r.1 in
      elim (Bool-cases (r.0 == 0x00)) [
        | inr e ↦ rw e (pin-end_cmd sd answer w r.1)
        | inl e ↦ rw e (elim (Bool-cases (t.0 == start_single_read)) [
          | inr e' ↦ rw e' (pin-end_cmd sd answer w t.1)
          | inl e' ↦ rw e' (pin-end_cmd sd answer w _)
        ])
      ]

  pin-get_cardinfo : (s : D) → pin (get_cardinfo sd s).1 ≡ true
  unfolding get_cardinfo get_csdregister get_cidregister
  pin-get_cardinfo s =
      let c = register_bytes sd cmd9 s in
      ground (arith, pin-register_bytes cmd9 s, pin-register_bytes cmd10 c.1)

  pin-card_ready : (frame : ℕ → ℕ) (s : D) → pin s ≡ true → pin (card_ready sd frame s).1 ≡ true
  pin-card_ready frame s h =
      let info = get_cardinfo sd (high_speed_enable sd s) in
      elim (Bool-cases (bit_and (frame 0) 0x40 == 0)) [
        | inl e ↦ rw e h
        | inr e ↦ rw e (elim (Option-cases info.0) [
          | inl e' ↦ rw e' (pin-get_cardinfo (high_speed_enable sd s))
          | inr (i, e') ↦ rw e' (pin-get_cardinfo (high_speed_enable sd s))
        ])
      ]

  pin-command : (cmd : Cmd) (arg crc : ℕ) (s : D) → pin (command sd cmd arg crc s).1 ≡ true
  unfolding command
  pin-command cmd arg crc s = pin-end_cmd sd answer w _

  pin-command_frame :
      (cmd : Cmd) (arg crc : ℕ) (s : D) → pin (command_frame sd cmd arg crc s).2 ≡ true
  unfolding command_frame
  pin-command_frame cmd arg crc s = pin-end_cmd sd answer w _

  pin-read_ocr :
      (n : ℕ) (frame : ℕ → ℕ) (s : D) → pin s ≡ true → pin (read_ocr sd n frame s).2 ≡ true
  unfolding read_ocr
  pin-read_ocr zero frame s h = h
  pin-read_ocr (suc n) frame s h =
      let c = command_frame sd cmd58 0 1 s in
      let after = pin-command_frame cmd58 0 1 s in
      ground (arith, after, pin-read_ocr n c.1 c.2 after)

  pin-initiate : (n : ℕ) (s : D) → pin s ≡ true → pin (initiate sd n s).1 ≡ true
  unfolding initiate
  pin-initiate zero s h = h
  pin-initiate (suc n) s h =
      let c = command sd cmd55 0 0 s in
      let c' = command sd acmd41 0x40000000 0 c.1 in
      let after = pin-command acmd41 0x40000000 0 c.1 in
      ground (arith, pin-command cmd55 0 0 s, after, pin-initiate n c'.1 after)

  pin-after_ocr :
      (r : ℕ) (l : Loop) (frame : ℕ → ℕ) (s : D)
      → pin s ≡ true
      → pin (after_ocr sd r (l, frame, s)).1 ≡ true
  pin-after_ocr r breaks frame s h = pin-card_ready frame s h
  pin-after_ocr r exhausted frame s h = h
  pin-after_ocr r (returns cmd c) frame s h = h

  pin-after_initiate :
      (r : ℕ) (l : Loop) (s : D) → pin s ≡ true → pin (after_initiate sd r (l, s)).1 ≡ true
  pin-after_initiate r breaks s h =
      let o = read_ocr sd 255 (λ i. 0) s in
      pin-after_ocr r o.0 o.1 o.2 (pin-read_ocr 255 (λ i. 0) s h)
  pin-after_initiate r exhausted s h = h
  pin-after_initiate r (returns cmd c) s h = h

  pin-first_commands :
      (r₀ r : ℕ) (result : InitResult × D) (s₂ s₃ : D)
      → pin result.1 ≡ true
      → pin s₂ ≡ true
      → pin s₃ ≡ true
      → pin
          (if r₀ == 0x01
            then (if r == 0x01 then result else (cmd_failed cmd8 r, s₃))
            else (cmd_failed cmd0 r₀, s₂)).1
        ≡ true
  pin-first_commands r₀ r result s₂ s₃ h h₂ h₃ = ground arith

  init-released : (s : D) → pin (init sd s).1 ≡ true
  unfolding init
  init-released s =
      let dummy = 0xff ∷ 0xff ∷ 0xff ∷ 0xff ∷ 0xff ∷ 0xff ∷ 0xff ∷ 0xff ∷ 0xff ∷ 0xff ∷ [] in
      let reset = write_data sd dummy (cs_high sd (lowlevel_init sd s)) in
      let c0 = command sd cmd0 0 0x95 reset in
      let c8 = command_frame sd cmd8 0x01AA 0x87 c0.1 in
      let l = initiate sd 255 c8.2 in
      let after = pin-command_frame cmd8 0x01AA 0x87 c0.1 in
      pin-first_commands c0.0 c8.0 (after_initiate sd c8.0 l) c0.1 c8.2
        (pin-after_initiate c8.0 l.0 l.1 (pin-initiate 255 c8.2 after))
        (pin-command cmd0 0 0x95 reset) after

  -- Whatever the card answers, the driver leaves it deselected: after `init`, after a read that does
  -- not panic (it does so only where the buffer is not a whole number of blocks), and after a write
  -- that does not panic, on success and on every error.
  pub driver-released :
      (fuel len sector : ℕ) (bytes : ℕ → ℕ) (s : D)
      → (pin (init sd s).1 ≡ true)
        × Meets
            (is_whole len ≡ false)
            (λ (a, b, s'). pin s' ≡ true)
            (read_sector sd len bytes sector s)
        × Meets (Unit {0}) (λ (a, s'). pin s' ≡ true) (write_sector sd fuel len bytes sector s)
  driver-released fuel len sector bytes s = (
    init-released s,
    read_sector-released len sector bytes s,
    write_sector-released fuel len sector bytes s,
  )
