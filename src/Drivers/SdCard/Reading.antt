-- ===== src/Drivers/SdCard/Reading.antt =====
-- What `read_sector` reads from a card that serves blocks, and what it does with a silent one.
use ch_os.Base.{
  ℕ, zero, suc, ◌+◌, ◌-◌, ◌*◌, ◌/◌, ◌≤◌, ◌<◌, ◌≡◌, refl, sym, ap, ◌∙◌, subst, true, false, List, [],
  ◌∷◌, ◌++◌, arith, ◌==◌, ltb, if◌then◌else◌, Bool-cases, inl, inr,
}
use mathlib.Core.List.{append_assoc}
use ch_os.Base.Outcome.{done}
use ch_os.Drivers.SdCard.{
  SdCard, Cmd, frame, cmd12, cmd17, cmd18, send_cmd, end_cmd, get_response, read_data,
  response_timeout, start_single_read, sec_len,
}
use ch_os.Drivers.SdCard.Sectors.{
  ok, err, put_chunk, is_whole, read_chunks, stop_reading, read_sector,
}
use ch_os.Drivers.SdCard.Wire.{
  Wire, Responds, sent-read_data, position-read_data, read_data-answer, sent-send_cmd,
  position-send_cmd, sent-end_cmd, pin-end_cmd, position-end_cmd, sent-get_response,
  get_response-Responds, get_response-silent,
}

-- In the answers from `p` to `q` stand `n` blocks, each behind its token and with two bytes behind
-- it: the contents from the offset `o` on.
abbrev pub Serves : (ℕ → ℕ) → ℕ → ℕ → (ℕ → ℕ) → ℕ → ℕ → Type 0
Serves answer zero p contents o q = q ≡ p
Serves answer (suc n) p contents o q =
    (t : ℕ) × Responds answer p start_single_read t
    × ((i : ℕ) → i < sec_len → answer (t + i) ≡ contents (o + i))
    × Serves answer n (t + sec_len + 2) contents (o + sec_len) q

-- The bytes of a buffer that has the contents in `n` chunks from the offset `o` on.
abbrev pub Filled : ℕ → ℕ → (ℕ → ℕ) → (ℕ → ℕ) → (ℕ → ℕ) → Type 0
Filled n o contents bytes bytes' =
    ((i : ℕ) → o ≤ i → i < o + n * sec_len → bytes' i ≡ contents i)
    × ((i : ℕ) → i < o → bytes' i ≡ bytes i)
    × ((i : ℕ) → o + n * sec_len ≤ i → bytes' i ≡ bytes i)

put_chunk-in :
    (bytes chunk contents : ℕ → ℕ) (o i : ℕ)
    → ((j : ℕ) → j < sec_len → chunk j ≡ contents (o + j))
    → o ≤ i
    → i < o + sec_len
    → put_chunk bytes o chunk i ≡ contents i
put_chunk-in bytes chunk contents o i h l u =
    let same : o + (i - o) ≡ i = omega arith in ground (arith, h (i - o), ap contents same)

-- One chunk more in front.
Filled-chunk :
    (n o : ℕ) (contents bytes chunk bytes' : ℕ → ℕ)
    → ((j : ℕ) → j < sec_len → chunk j ≡ contents (o + j))
    → Filled n (o + sec_len) contents (put_chunk bytes o chunk) bytes'
    → Filled (suc n) o contents bytes bytes'
Filled-chunk n o contents bytes chunk bytes' h f = (
  λ i l u. elim (Bool-cases (ltb i (o + sec_len))) [
    | inl near ↦ f.1 i (ground arith) ∙ put_chunk-in bytes chunk contents o i h l (ground arith)
    | inr far ↦ f.0 i (ground arith) (ground arith)
  ],
  λ i l. f.1 i (omega arith) ∙ ground arith,
  λ i l. f.2 i (omega arith) ∙ ground arith,
)

module _ {D : Type 0} (sd : SdCard D) (answer : ℕ → ℕ) (w : Wire sd answer) where
  open w use {sent, position}

  read_chunks-step :
      (n o : ℕ) (bytes : ℕ → ℕ) (s : D)
      → (get_response sd s).0 ≡ start_single_read
      → let read = read_data sd sec_len (get_response sd s).1 in
        read_chunks sd (suc n) o bytes s
        ≡ read_chunks sd n (o + sec_len) (put_chunk bytes o read.0) (read_data sd 2 read.1).1
  unfolding read_chunks
  read_chunks-step n o bytes s e = ground arith

  read_chunks-Serves :
      (n o q : ℕ) (bytes contents : ℕ → ℕ) (s : D)
      → Serves answer n (position s) contents o q
      → (bytes' : ℕ → ℕ) × (s' : D) × (read_chunks sd n o bytes s ≡ (false, bytes', s'))
        × Filled n o contents bytes bytes'
        × (position s' ≡ q)
        × (sent s' ≡ sent s)
  unfolding read_chunks
  read_chunks-Serves zero o q bytes contents s h =
      (bytes, s, refl, (λ i l u. absurd (omega arith), λ i l. refl, λ i l. refl), sym h, refl)
  read_chunks-Serves (suc n) o q bytes contents s (t, token, block, more) =
      let (is_token, behind) = get_response-Responds sd answer w s start_single_read t token in
      let s₁ : D = (get_response sd s).1 in
      let (chunk, s₂) = read_data sd sec_len s₁ in
      let s₃ : D = (read_data sd 2 s₂).1 in
      let at : position s₃ ≡ t + sec_len + 2 =
        position-read_data sd answer w 2 s₂
        ∙ omega (arith, position-read_data sd answer w sec_len s₁, behind) in
      let (bytes', s', runs, filled, ends, quiet) =
        read_chunks-Serves n (o + sec_len) q (put_chunk bytes o chunk) contents s₃
          (subst (λ p. Serves answer n p contents (o + sec_len) q) (sym at) more) in
      (
        bytes',
        s',
        read_chunks-step n o bytes s is_token ∙ runs,
        Filled-chunk n o contents bytes chunk bytes'
            (λ j l.
              read_data-answer sd answer w sec_len j s₁ l
              ∙ ap (λ p. answer (p + j)) behind
              ∙ block j l)
            filled,
        ends,
        quiet
            ∙ sent-read_data sd answer w 2 s₂
            ∙ sent-read_data sd answer w sec_len s₁
            ∙ sent-get_response sd answer w s,
      )

  -- The bytes that a read of one block sends, or of several.
  abbrev pub read_bytes : ℕ → ℕ → List ℕ
  read_bytes len sector =
      if len == sec_len
      then frame cmd17 sector 0 ++ 0xff ∷ []
      else frame cmd18 sector 0 ++ 0xff ∷ (frame cmd12 0 0 ++ 0xff ∷ 0xff ∷ [])

  sent-stop_reading :
      (s : D) → sent (stop_reading sd s) ≡ sent s ++ (frame cmd12 0 0 ++ 0xff ∷ 0xff ∷ [])
  unfolding stop_reading
  sent-stop_reading s =
      let s₁ : D = send_cmd sd cmd12 0 0 s in
      let s₂ : D = (get_response sd s₁).1 in
      let asked : sent s₂ ≡ sent s ++ frame cmd12 0 0 =
        sent-get_response sd answer w s₁ ∙ sent-send_cmd sd answer w cmd12 0 0 s in
      sent-end_cmd sd answer w (end_cmd sd s₂)
      ∙ ap (λ l. l ++ 0xff ∷ []) (sent-end_cmd sd answer w s₂ ∙ ap (λ l. l ++ 0xff ∷ []) asked)
      ∙ simp append_assoc

  -- The command of a read.
  abbrev read_cmd : ℕ → Cmd
  read_cmd len = if len == sec_len then cmd17 else cmd18

  abbrev finish_read : ℕ → D → D
  finish_read len s = if len == sec_len then end_cmd sd s else stop_reading sd (end_cmd sd s)

  read_sector-ends :
      (len sector : ℕ) (bytes bytes' : ℕ → ℕ) (s s₂ : D)
      → is_whole len ≡ true
      → (get_response sd (send_cmd sd (read_cmd len) sector 0 s)).0 ≡ 0x00
      → read_chunks sd
          (len / sec_len)
          0
          bytes
          (get_response sd (send_cmd sd (read_cmd len) sector 0 s)).1
        ≡ (false, bytes', s₂)
      → read_sector sd len bytes sector s ≡ done (ok, bytes', finish_read len s₂)
  unfolding read_sector
  read_sector-ends len sector bytes bytes' s s₂ whole ack runs =
      elim (Bool-cases (len == sec_len)) [
        | inl one ↦ ground (arith, one, whole, ack, runs)
        | inr several ↦ ground (arith, several, whole, ack, runs)
      ]

  read_sector-fails :
      (len sector : ℕ) (bytes : ℕ → ℕ) (s : D)
      → is_whole len ≡ true
      → (get_response sd (send_cmd sd (read_cmd len) sector 0 s)).0 ≡ 0xFF
      → read_sector sd len bytes sector s
        ≡ done (err, bytes, end_cmd sd (get_response sd (send_cmd sd (read_cmd len) sector 0 s)).1)
  unfolding read_sector
  read_sector-fails len sector bytes s whole late = elim (Bool-cases (len == sec_len)) [
    | inl one ↦ ground (arith, one, whole, late)
    | inr several ↦ ground (arith, several, whole, late)
  ]

  sent-finish_read :
      (len sector : ℕ) (s s₂ : D)
      → sent s₂ ≡ sent s ++ frame (read_cmd len) sector 0
      → sent (finish_read len s₂) ≡ sent s ++ read_bytes len sector
  sent-finish_read len sector s s₂ before = elim (Bool-cases (len == sec_len)) [
    | inl one ↦
        let as_asked =
          before ∙ ap (λ b. sent s ++ frame (if b then cmd17 else cmd18) sector 0) one in
        rw one (
          sent-end_cmd sd answer w s₂
          ∙ ap (λ l. l ++ 0xff ∷ []) as_asked
          ∙ append_assoc (sent s) (frame cmd17 sector 0) (0xff ∷ []))
    | inr several ↦
        let as_asked =
          before ∙ ap (λ b. sent s ++ frame (if b then cmd17 else cmd18) sector 0) several in
        rw several (
          sent-stop_reading (end_cmd sd s₂)
          ∙ ap (λ l. l ++ (frame cmd12 0 0 ++ 0xff ∷ 0xff ∷ []))
              (sent-end_cmd sd answer w s₂ ∙ ap (λ l. l ++ 0xff ∷ []) as_asked)
          ∙ simp append_assoc)
  ]

  -- A read of a whole number of blocks from a card that acknowledges the command and then serves
  -- as many blocks, each within the 4095 tries of `get_response`: it succeeds, the buffer has
  -- exactly the contents that were served, and what was sent is the command for one block or for
  -- several, in the second case with the command that stops the transfer.
  pub read_sector-Serves :
      (len sector p q : ℕ) (bytes contents : ℕ → ℕ) (s : D)
      → is_whole len ≡ true
      → Responds answer (position s) 0x00 p
      → Serves answer (len / sec_len) p contents 0 q
      → (bytes' : ℕ → ℕ) × (s' : D) × (read_sector sd len bytes sector s ≡ done (ok, bytes', s'))
        × ((i : ℕ) → i < len → bytes' i ≡ contents i)
        × ((i : ℕ) → len ≤ i → bytes' i ≡ bytes i)
        × (sent s' ≡ sent s ++ read_bytes len sector)
  unfolding read_sector
  read_sector-Serves len sector p q bytes contents s whole ack serves =
      let asked : D = send_cmd sd (read_cmd len) sector 0 s in
      let (good, at) = get_response-Responds sd answer w asked 0x00 p (
        subst (λ x. Responds answer x 0x00 p)
          (sym (position-send_cmd sd answer w (read_cmd len) sector 0 s)) ack) in
      let s₁ : D = (get_response sd asked).1 in
      let (bytes', s₂, runs, filled, ends, quiet) =
        read_chunks-Serves (len / sec_len) 0 q bytes contents s₁
          (subst (λ x. Serves answer (len / sec_len) x contents 0 q) (sym at) serves) in
      let before : sent s₂ ≡ sent s ++ frame (read_cmd len) sector 0 =
        quiet
        ∙ sent-get_response sd answer w asked
        ∙ sent-send_cmd sd answer w (read_cmd len) sector 0 s in
      (
        bytes',
        finish_read len s₂,
        read_sector-ends len sector bytes bytes' s s₂ whole good runs,
        λ i l. filled.0 i (omega arith) (ground arith),
        λ i l. filled.2 i (ground arith),
        sent-finish_read len sector s s₂ before,
      )

  -- A card that is silent for 4095 bytes: the read fails, the buffer is as before, and the command
  -- is ended all the same.
  pub read_sector-silent :
      (len sector : ℕ) (bytes : ℕ → ℕ) (s : D)
      → is_whole len ≡ true
      → ((j : ℕ) → j < response_timeout → answer (position s + j) ≡ 0xFF)
      → (s' : D) × (read_sector sd len bytes sector s ≡ done (err, bytes, s'))
        × (w.pin s' ≡ true)
        × (position s' ≡ position s + response_timeout)
  unfolding read_sector
  read_sector-silent len sector bytes s whole wait =
      let asked : D = send_cmd sd (read_cmd len) sector 0 s in
      let place = position-send_cmd sd answer w (read_cmd len) sector 0 s in
      let (none_came, at) =
        get_response-silent sd answer w asked (λ j l. ap (λ x. answer (x + j)) place ∙ wait j l) in
      let s₁ : D = (get_response sd asked).1 in
      (
        end_cmd sd s₁,
        read_sector-fails len sector bytes s whole none_came,
        pin-end_cmd sd answer w s₁,
        position-end_cmd sd answer w s₁ ∙ at ∙ ap (λ x. x + response_timeout) place,
      )
