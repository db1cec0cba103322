-- ===== src/Drivers/SdCard/Wire.antt =====
-- What can be seen of a card on its wires: the level of its pin, the bytes that were sent to it, and
-- how many of its answers were read. The answers of a run are a sequence.
use ch_os.Base.{
  ℕ, zero, suc, ◌+◌, ◌<◌, ◌≡◌, ◌≢◌, refl, sym, ap, ◌∙◌, Bool, true, false, List, [], ◌∷◌, ◌++◌,
  arith, ◌==◌, Bool-cases, inl, inr,
}
use ch_os.Drivers.Spi.{Tmod}
use ch_os.Drivers.SdCard.{
  SdCard, Cmd, frame, cs_high, cs_low, write_data, read_data, send_cmd, end_cmd, response_from,
  response_timeout, get_response,
}

-- What the driver relies on: a pin is set as told and by nothing else, what is sent is sent once and
-- in order, and bytes are received in order.
pub record Wire {D : Type 0} (sd : SdCard D) (answer : ℕ → ℕ) : Type 0 where
  pub pin : D → Bool
  pub sent : D → List ℕ
  pub position : D → ℕ
  pub pin-set_pin : (b : Bool) (s : D) → pin (sd.spi.set_pin sd.cs_gpionum b s) ≡ b
  pub sent-set_pin : (b : Bool) (s : D) → sent (sd.spi.set_pin sd.cs_gpionum b s) ≡ sent s
  pub position-set_pin :
      (b : Bool) (s : D) → position (sd.spi.set_pin sd.cs_gpionum b s) ≡ position s
  pub pin-configure : (t : Tmod) (s : D) → pin (sd.spi.configure t s) ≡ pin s
  pub sent-configure : (t : Tmod) (s : D) → sent (sd.spi.configure t s) ≡ sent s
  pub position-configure : (t : Tmod) (s : D) → position (sd.spi.configure t s) ≡ position s
  pub pin-set_clk_rate : (n : ℕ) (s : D) → pin (sd.spi.set_clk_rate n s) ≡ pin s
  pub pin-send_data : (bytes : List ℕ) (s : D) → pin (sd.spi.send_data sd.spi_cs bytes s) ≡ pin s
  pub sent-send_data :
      (bytes : List ℕ) (s : D) → sent (sd.spi.send_data sd.spi_cs bytes s) ≡ sent s ++ bytes
  pub position-send_data :
      (bytes : List ℕ) (s : D) → position (sd.spi.send_data sd.spi_cs bytes s) ≡ position s
  pub pin-recv_data : (n : ℕ) (s : D) → pin (sd.spi.recv_data sd.spi_cs n s).1 ≡ pin s
  pub sent-recv_data : (n : ℕ) (s : D) → sent (sd.spi.recv_data sd.spi_cs n s).1 ≡ sent s
  pub position-recv_data :
      (n : ℕ) (s : D) → position (sd.spi.recv_data sd.spi_cs n s).1 ≡ position s + n
  pub received :
      (n i : ℕ) (s : D) → i < n → (sd.spi.recv_data sd.spi_cs n s).0 i ≡ answer (position s + i)

-- A response `b` that stands in the answers from `p` on, at most 4094 idle bytes before it; `q` is
-- the position behind it.
abbrev pub Responds : (ℕ → ℕ) → ℕ → ℕ → ℕ → Type 0
Responds answer p b q =
    (idle : ℕ) × (idle < response_timeout)
    × ((j : ℕ) → j < idle → answer (p + j) ≡ 0xFF)
    × (answer (p + idle) ≡ b)
    × (b ≢ 0xFF)
    × (q ≡ p + idle + 1)

module _ {D : Type 0} (sd : SdCard D) (answer : ℕ → ℕ) (w : Wire sd answer) where
  open w use {pin, sent, position}

  pub pin-write_data : (bytes : List ℕ) (s : D) → pin (write_data sd bytes s) ≡ pin s
  unfolding write_data
  pin-write_data bytes s = w.pin-send_data bytes _ ∙ w.pin-configure _ s

  pub sent-write_data : (bytes : List ℕ) (s : D) → sent (write_data sd bytes s) ≡ sent s ++ bytes
  unfolding write_data
  sent-write_data bytes s = w.sent-send_data bytes _ ∙ ap (λ l. l ++ bytes) (w.sent-configure _ s)

  pub position-write_data : (bytes : List ℕ) (s : D) → position (write_data sd bytes s) ≡ position s
  unfolding write_data
  position-write_data bytes s = w.position-send_data bytes _ ∙ w.position-configure _ s

  pub pin-read_data : (n : ℕ) (s : D) → pin (read_data sd n s).1 ≡ pin s
  unfolding read_data
  pin-read_data n s = w.pin-recv_data n _ ∙ w.pin-configure _ s

  pub sent-read_data : (n : ℕ) (s : D) → sent (read_data sd n s).1 ≡ sent s
  unfolding read_data
  sent-read_data n s = w.sent-recv_data n _ ∙ w.sent-configure _ s

  pub position-read_data : (n : ℕ) (s : D) → position (read_data sd n s).1 ≡ position s + n
  unfolding read_data
  position-read_data n s = w.position-recv_data n _ ∙ ap (λ p. p + n) (w.position-configure _ s)

  pub read_data-answer :
      (n i : ℕ) (s : D) → i < n → (read_data sd n s).0 i ≡ answer (position s + i)
  unfolding read_data
  read_data-answer n i s h =
      w.received n i _ h ∙ ap (λ p. answer (p + i)) (w.position-configure _ s)

  pub sent-send_cmd :
      (cmd : Cmd) (arg crc : ℕ) (s : D)
      → sent (send_cmd sd cmd arg crc s) ≡ sent s ++ frame cmd arg crc
  unfolding send_cmd cs_low
  sent-send_cmd cmd arg crc s =
      sent-write_data _ _ ∙ ap (λ l. l ++ frame cmd arg crc) (w.sent-set_pin false s)

  pub position-send_cmd :
      (cmd : Cmd) (arg crc : ℕ) (s : D) → position (send_cmd sd cmd arg crc s) ≡ position s
  unfolding send_cmd cs_low
  position-send_cmd cmd arg crc s = position-write_data _ _ ∙ w.position-set_pin false s

  pub pin-end_cmd : (s : D) → pin (end_cmd sd s) ≡ true
  unfolding end_cmd cs_high
  pin-end_cmd s = pin-write_data _ _ ∙ w.pin-set_pin true s

  pub sent-end_cmd : (s : D) → sent (end_cmd sd s) ≡ sent s ++ 0xff ∷ []
  unfolding end_cmd cs_high
  sent-end_cmd s = sent-write_data _ _ ∙ ap (λ l. l ++ 0xff ∷ []) (w.sent-set_pin true s)

  pub position-end_cmd : (s : D) → position (end_cmd sd s) ≡ position s
  unfolding end_cmd cs_high
  position-end_cmd s = position-write_data _ _ ∙ w.position-set_pin true s

  -- One try of the loop.
  response_from-idle :
      (n : ℕ) (s : D)
      → (read_data sd 1 s).0 0 ≡ 0xFF
      → response_from sd (suc n) s ≡ response_from sd n (read_data sd 1 s).1
  unfolding response_from
  response_from-idle n s e = ground arith

  response_from-got :
      (n : ℕ) (s : D)
      → (read_data sd 1 s).0 0 ≢ 0xFF
      → response_from sd (suc n) s ≡ ((read_data sd 1 s).0 0, (read_data sd 1 s).1)
  unfolding response_from
  response_from-got n s e = ground arith

  sent-response_from : (n : ℕ) (s : D) → sent (response_from sd n s).1 ≡ sent s
  unfolding response_from
  sent-response_from zero s = refl
  sent-response_from (suc n) s = elim (Bool-cases ((read_data sd 1 s).0 0 == 0xFF)) [
    | inl e ↦
        rw (response_from-idle n s (ground arith))
          (sent-response_from n (read_data sd 1 s).1 ∙ sent-read_data 1 s)
    | inr e ↦ rw (response_from-got n s (ground arith)) (sent-read_data 1 s)
  ]

  pub sent-get_response : (s : D) → sent (get_response sd s).1 ≡ sent s
  unfolding get_response
  sent-get_response s = sent-response_from response_timeout s

  -- The loop comes to the response.
  response_from-found :
      (n idle b : ℕ) (s : D)
      → idle < n
      → ((j : ℕ) → j < idle → answer (position s + j) ≡ 0xFF)
      → answer (position s + idle) ≡ b
      → b ≢ 0xFF
      → ((response_from sd n s).0 ≡ b) × (position (response_from sd n s).1 ≡ position s + idle + 1)
  unfolding response_from
  response_from-found zero idle b s h wait found ne = absurd (omega arith)
  response_from-found (suc n) zero b s h wait found ne =
      let now : (read_data sd 1 s).0 0 ≡ b = read_data-answer 1 0 s (omega arith) ∙ found in
      rw (response_from-got n s (λ e. ne (sym now ∙ e))) (now, position-read_data 1 s ∙ omega arith)
  response_from-found (suc n) (suc idle) b s h wait found ne =
      let now : (read_data sd 1 s).0 0 ≡ 0xFF =
        read_data-answer 1 0 s (omega arith) ∙ wait 0 (omega arith) in
      let s' = (read_data sd 1 s).1 in
      let moved : position s' ≡ position s + 1 = position-read_data 1 s in
      let shift : (j : ℕ) → position s' + j ≡ position s + suc j = λ j. omega arith in
      let (r, at) =
        response_from-found n idle b s' (omega arith)
          (λ j l. ap answer (shift j) ∙ wait (suc j) (omega arith)) (ap answer (shift idle) ∙ found)
          ne in
      rw (response_from-idle n s now) (r, omega (arith, at))

  pub get_response-Responds :
      (s : D) (b q : ℕ)
      → Responds answer (position s) b q
      → ((get_response sd s).0 ≡ b) × (position (get_response sd s).1 ≡ q)
  unfolding get_response
  get_response-Responds s b q (idle, soon, wait, found, ne, behind) =
      let (r, at) = response_from-found response_timeout idle b s soon wait found ne in
      (r, omega (arith, at))

  -- Where no answer comes, the loop gives up after all its tries.
  response_from-silent :
      (n : ℕ) (s : D)
      → ((j : ℕ) → j < n → answer (position s + j) ≡ 0xFF)
      → ((response_from sd n s).0 ≡ 0xFF) × (position (response_from sd n s).1 ≡ position s + n)
  unfolding response_from
  response_from-silent zero s wait = (refl, omega arith)
  response_from-silent (suc n) s wait =
      let now : (read_data sd 1 s).0 0 ≡ 0xFF =
        read_data-answer 1 0 s (omega arith) ∙ wait 0 (omega arith) in
      let s' = (read_data sd 1 s).1 in
      let moved : position s' ≡ position s + 1 = position-read_data 1 s in
      let shift : (j : ℕ) → position s' + j ≡ position s + suc j = λ j. omega arith in
      let (r, at) =
        response_from-silent n s' (λ j l. ap answer (shift j) ∙ wait (suc j) (omega arith)) in
      rw (response_from-idle n s now) (r, omega (arith, at))

  pub get_response-silent :
      (s : D)
      → ((j : ℕ) → j < response_timeout → answer (position s + j) ≡ 0xFF)
      → ((get_response sd s).0 ≡ 0xFF)
        × (position (get_response sd s).1 ≡ position s + response_timeout)
  unfolding get_response
  get_response-silent s wait = response_from-silent response_timeout s wait
