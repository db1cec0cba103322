-- ===== src/Drivers/SdCard/Errors.antt =====
-- The errors of `init`, and the response that each reports.
use ch_os.Base.{
  ℕ, zero, suc, ◌≡◌, ◌≢◌, sym, subst, [], ◌∷◌, arith, ◌==◌, if◌then◌else◌, Bool-cases, Option-cases,
  inl, inr, bit_and,
}
use ch_os.Drivers.SdCard.{
  SdCard, Cmd, cmd0, cmd8, cmd55, acmd41, cmd58, high_speed_enable, cs_high, lowlevel_init,
  write_data,
}
use ch_os.Drivers.SdCard.Registers.{get_cardinfo}
use ch_os.Drivers.SdCard.Init.{
  InitResult, ready, cmd_failed, card_capacity_status_not_set, cannot_get_card_info, Loop, breaks,
  exhausted, returns, command, command_frame, initiate, read_ocr, after_ocr, after_initiate, init,
}

-- What the result of `init` says of a command: the responses to `CMD0`, `CMD8` and `CMD55` are not
-- the one that is wanted, but for the two commands that are repeated it is the response to `CMD8`.
abbrev pub Blames : Cmd → ℕ → Type 0
Blames acmd41 r = r ≡ 1
Blames cmd58 r = r ≡ 1
Blames cmd r = r ≢ 1

abbrev pub Explained : InitResult → Type 0
Explained (cmd_failed cmd r) = Blames cmd r
Explained (ready info) = Unit {0}
Explained (card_capacity_status_not_set frame) = bit_and (frame 0) 0x40 ≡ 0
Explained cannot_get_card_info = Unit {0}

-- How the loops end.
abbrev FailsAt55 : Loop → Type 0
FailsAt55 breaks = Unit {0}
FailsAt55 exhausted = Unit {0}
FailsAt55 (returns cmd r) = (cmd ≡ cmd55) × (r ≢ 1)

abbrev NoReturn : Loop → Type 0
NoReturn breaks = Unit {0}
NoReturn exhausted = Unit {0}
NoReturn (returns cmd r) = ⊥

module _ {D : Type 0} (sd : SdCard D) where
  initiate-FailsAt55 : (n : ℕ) (s : D) → FailsAt55 (initiate sd n s).0
  unfolding initiate
  initiate-FailsAt55 zero s = tt
  initiate-FailsAt55 (suc n) s =
      let c55 = command sd cmd55 0 0 s in
      let c41 = command sd acmd41 0x40000000 0 c55.1 in ground (arith, initiate-FailsAt55 n c41.1)

  read_ocr-NoReturn : (n : ℕ) (frame : ℕ → ℕ) (s : D) → NoReturn (read_ocr sd n frame s).0
  unfolding read_ocr
  read_ocr-NoReturn zero frame s = tt
  read_ocr-NoReturn (suc n) frame s =
      let c58 = command_frame sd cmd58 0 1 s in ground (arith, read_ocr-NoReturn n c58.1 c58.2)

  after_ocr-Explained :
      (r : ℕ) (l : Loop) (frame : ℕ → ℕ) (s : D)
      → r ≡ 1
      → NoReturn l
      → Explained (after_ocr sd r (l, frame, s)).0
  after_ocr-Explained r breaks frame s h n = elim (Bool-cases (bit_and (frame 0) 0x40 == 0)) [
    | inl clear ↦ rw clear (ground arith)
    | inr is_set ↦ rw is_set (elim (Option-cases (get_cardinfo sd (high_speed_enable sd s)).0) [
      | inl none_read ↦ rw none_read tt
      | inr (info, read) ↦ rw read tt
    ])
  ]
  after_ocr-Explained r exhausted frame s h n = h
  after_ocr-Explained r (returns cmd c) frame s h n = elim n [ ]

  after_initiate-Explained :
      (r : ℕ) (l : Loop) (s : D) → r ≡ 1 → FailsAt55 l → Explained (after_initiate sd r (l, s)).0
  after_initiate-Explained r breaks s h n =
      let o = read_ocr sd 255 (λ i. 0) s in
      after_ocr-Explained r o.0 o.1 o.2 h (read_ocr-NoReturn 255 (λ i. 0) s)
  after_initiate-Explained r exhausted s h n = h
  after_initiate-Explained r (returns cmd c) s h (is55, ne) = subst (λ x. Blames x c) (sym is55) ne

  first_commands :
      (r₀ r : ℕ) (result : InitResult × D) (s₂ s₃ : D)
      → (r ≡ 1 → Explained result.0)
      → Explained
          (if r₀ == 0x01
            then (if r == 0x01 then result else (cmd_failed cmd8 r, s₃))
            else (cmd_failed cmd0 r₀, s₂)).0
  first_commands r₀ r result s₂ s₃ h = elim (Bool-cases (r₀ == 0x01)) [
    | inl e ↦ rw e (elim (Bool-cases (r == 0x01)) [
      | inl e' ↦ rw e' (h (ground arith))
      | inr e' ↦ rw e' (ground arith)
    ])
    | inr e ↦ rw e (ground arith)
  ]

  -- Whatever the card answers: where `init` fails at `CMD0`, `CMD8` or `CMD55`, the response that it
  -- reports is not the 1 that it waits for; where it gives up on `ACMD41` or `CMD58`, the response
  -- that it reports is always 1, that of `CMD8`, and not the last response to the command; and a
  -- capacity status is reported as not set only where the bit is clear.
  pub init-Explained : (s : D) → Explained (init sd s).0
  unfolding init
  init-Explained s =
      let dummy = 0xff ∷ 0xff ∷ 0xff ∷ 0xff ∷ 0xff ∷ 0xff ∷ 0xff ∷ 0xff ∷ 0xff ∷ 0xff ∷ [] in
      let c0 = command sd cmd0 0 0x95 (write_data sd dummy (cs_high sd (lowlevel_init sd s))) in
      let c8 = command_frame sd cmd8 0x01AA 0x87 c0.1 in
      let rest = after_initiate sd c8.0 (initiate sd 255 c8.2) in
      first_commands c0.0 c8.0 rest c0.1 c8.2 (λ e.
        let l = initiate sd 255 c8.2 in
        after_initiate-Explained c8.0 l.0 l.1 e (initiate-FailsAt55 255 c8.2))
