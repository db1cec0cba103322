-- ===== src/Drivers/SdCard/Writing.antt =====
-- What a write sends to a card that accepts the data.
use ch_os.Base.{
  ℕ, zero, suc, ◌+◌, ◌%◌, ◌^◌, ◌<◌, ◌≡◌, ◌≢◌, refl, sym, ap, ◌∙◌, subst, true, List, [], ◌∷◌, ◌++◌,
  arith, bit_and,
}
use mathlib.Core.List.{append_assoc, append-nil}
use ch_os.Base.Outcome.{done, ◌>>=◌}
use ch_os.Drivers.SdCard.{
  SdCard, frame, cmd24, send_cmd, end_cmd, get_response, get_dataresponse, wait_busy, read_data,
  write_data, start_single_write, sec_len,
}
use ch_os.Drivers.SdCard.Sectors.{ok, slice, write_chunks, start_writing, write_sector, write_block}
use ch_os.Drivers.SdCard.Wire.{
  Wire, Responds, sent-read_data, position-read_data, read_data-answer, sent-write_data,
  position-write_data, sent-send_cmd, position-send_cmd, sent-end_cmd, pin-end_cmd,
  position-end_cmd, sent-get_response, get_response-Responds,
}

-- From `p` on the card accepts data and is busy for less than `fuel` bytes; `q` is behind that.
abbrev pub Accepts : (ℕ → ℕ) → ℕ → ℕ → ℕ → Type 0
Accepts answer fuel p q =
    (busy : ℕ) × (busy < fuel)
    × (bit_and (answer p) 0x1F ≡ 0x05)
    × ((j : ℕ) → j < busy → answer (p + 1 + j) ≡ 0)
    × (answer (p + 1 + busy) ≢ 0)
    × (q ≡ p + busy + 2)

-- The bytes of a block behind its token.
abbrev pub block_bytes : ℕ → ℕ → (ℕ → ℕ) → List ℕ
block_bytes token o bytes = 0xff ∷ token ∷ (slice sec_len bytes o ++ 0xff ∷ 0xff ∷ [])

-- `n` blocks are accepted, one after the other.
abbrev pub AcceptsAll : (ℕ → ℕ) → ℕ → ℕ → ℕ → ℕ → Type 0
AcceptsAll answer fuel zero p q = q ≡ p
AcceptsAll answer fuel (suc n) p q =
    (t : ℕ) × Accepts answer fuel p t × AcceptsAll answer fuel n t q

abbrev pub all_bytes : ℕ → ℕ → ℕ → (ℕ → ℕ) → List ℕ
all_bytes zero token o bytes = []
all_bytes (suc n) token o bytes = block_bytes token o bytes ++ all_bytes n token (o + sec_len) bytes

module _ {D : Type 0} (sd : SdCard D) (answer : ℕ → ℕ) (w : Wire sd answer) where
  open w use {sent, position}

  wait_busy-on :
      (fuel : ℕ) (s : D)
      → wait_busy sd (suc fuel) 0 s
        ≡ wait_busy sd fuel ((read_data sd 1 s).0 0) (read_data sd 1 s).1
  unfolding wait_busy
  wait_busy-on fuel s = refl

  wait_busy-off : (fuel byte : ℕ) (s : D) → byte ≢ 0 → wait_busy sd (suc fuel) byte s ≡ done s
  unfolding wait_busy
  wait_busy-off fuel byte s h = ground arith

  -- The byte in hand is the one before the position.
  wait_busy-ends :
      (fuel busy byte p : ℕ) (s : D)
      → busy < fuel
      → position s ≡ p + 1
      → byte ≡ answer p
      → ((j : ℕ) → j < busy → answer (p + j) ≡ 0)
      → answer (p + busy) ≢ 0
      → (s' : D) × (wait_busy sd fuel byte s ≡ done s')
        × (position s' ≡ p + busy + 1)
        × (sent s' ≡ sent s)
  wait_busy-ends zero busy byte p s h at now wait free = absurd (omega arith)
  wait_busy-ends (suc fuel) zero byte p s h at now wait free = (
    s,
    wait_busy-off fuel byte s (λ e. free (ap answer (omega arith) ∙ sym now ∙ e)),
    omega (arith, at),
    refl,
  )
  wait_busy-ends (suc fuel) (suc busy) byte p s h at now wait free =
      let is_busy : byte ≡ 0 = now ∙ ap answer (omega arith) ∙ wait 0 (omega arith) in
      let next = (read_data sd 1 s).0 0 in
      let s₁ : D = (read_data sd 1 s).1 in
      let seen : next ≡ answer (p + 1) =
        read_data-answer sd answer w 1 0 s (omega arith) ∙ ap answer (omega (arith, at)) in
      let shift : (j : ℕ) → p + 1 + j ≡ p + suc j = λ j. omega arith in
      let (s', runs, ends, quiet) =
        wait_busy-ends fuel busy next (p + 1) s₁ (omega arith)
          (position-read_data sd answer w 1 s ∙ omega (arith, at)) seen
          (λ j l. ap answer (shift j) ∙ wait (suc j) (omega arith))
          (λ e. free (sym (ap answer (shift busy)) ∙ e)) in
      (
        s',
        ap (λ b. wait_busy sd (suc fuel) b s) is_busy ∙ wait_busy-on fuel s ∙ runs,
        omega (arith, ends),
        quiet ∙ sent-read_data sd answer w 1 s,
      )

  get_dataresponse-accepted :
      (fuel : ℕ) (s s' : D)
      → bit_and ((read_data sd 1 s).0 0) 0x1F ≡ 0x05
      → (let busy = read_data sd 1 (read_data sd 1 s).1 in wait_busy sd fuel (busy.0 0) busy.1)
        ≡ done s'
      → get_dataresponse sd fuel s ≡ done (0, s')
  unfolding get_dataresponse
  get_dataresponse-accepted fuel s s' good waits =
      rw good (ap (λ o. o >>= λ s₃. done (0, s₃)) waits)

  get_dataresponse-Accepts :
      (fuel q : ℕ) (s : D)
      → Accepts answer fuel (position s) q
      → (s' : D) × (get_dataresponse sd fuel s ≡ done (0, s'))
        × (position s' ≡ q)
        × (sent s' ≡ sent s)
  get_dataresponse-Accepts fuel q s (busy, soon, accepted, wait, free, behind) =
      let s₁ : D = (read_data sd 1 s).1 in
      let s₂ : D = (read_data sd 1 s₁).1 in
      let p₁ : position s₁ ≡ position s + 1 = position-read_data sd answer w 1 s in
      let first : (read_data sd 1 s).0 0 ≡ answer (position s) =
        read_data-answer sd answer w 1 0 s (omega arith) ∙ ap answer (omega arith) in
      let (s', runs, ends, quiet) =
        wait_busy-ends fuel busy ((read_data sd 1 s₁).0 0) (position s + 1) s₂ soon
          (position-read_data sd answer w 1 s₁ ∙ ap (λ x. x + 1) p₁)
          (read_data-answer sd answer w 1 0 s₁ (omega arith) ∙ ap answer (omega (arith, p₁))) wait
          free in
      (
        s',
        get_dataresponse-accepted fuel s s' (ap (λ b. bit_and b 0x1F) first ∙ accepted) runs,
        omega (arith, ends),
        quiet ∙ sent-read_data sd answer w 1 s₁ ∙ sent-read_data sd answer w 1 s,
      )

  write_chunks-step :
      (fuel n token o : ℕ) (bytes : ℕ → ℕ) (s s₄ : D)
      → (let s₁ = write_data sd (0xff ∷ token ∷ []) s in
          let s₂ = write_data sd (slice sec_len bytes o) s₁ in
          get_dataresponse sd fuel (write_data sd (0xff ∷ 0xff ∷ []) s₂))
        ≡ done (0, s₄)
      → write_chunks sd fuel (suc n) token o bytes s
        ≡ write_chunks sd fuel n token (o + sec_len) bytes s₄
  unfolding write_chunks
  write_chunks-step fuel n token o bytes s s₄ e = rw e refl

  sent-block :
      (token o : ℕ) (bytes : ℕ → ℕ) (s : D)
      → sent (
          write_data sd
            (0xff ∷ 0xff ∷ [])
            (write_data sd (slice sec_len bytes o) (write_data sd (0xff ∷ token ∷ []) s)))
        ≡ sent s ++ block_bytes token o bytes
  sent-block token o bytes s =
      let s₁ : D = write_data sd (0xff ∷ token ∷ []) s in
      let s₂ : D = write_data sd (slice sec_len bytes o) s₁ in
      sent-write_data sd answer w (0xff ∷ 0xff ∷ []) s₂
      ∙ ap (λ l. l ++ 0xff ∷ 0xff ∷ [])
          (sent-write_data sd answer w (slice sec_len bytes o) s₁
            ∙ ap (λ l. l ++ slice sec_len bytes o)
                (sent-write_data sd answer w (0xff ∷ token ∷ []) s))
      ∙ simp append_assoc

  write_chunks-AcceptsAll :
      (fuel n token o q : ℕ) (bytes : ℕ → ℕ) (s : D)
      → AcceptsAll answer fuel n (position s) q
      → (s' : D) × (write_chunks sd fuel n token o bytes s ≡ done (ok, s'))
        × (position s' ≡ q)
        × (sent s' ≡ sent s ++ all_bytes n token o bytes)
  unfolding write_chunks
  write_chunks-AcceptsAll fuel zero token o q bytes s h = (s, refl, sym h, simp append-nil)
  write_chunks-AcceptsAll fuel (suc n) token o q bytes s (t, accepts, more) =
      let s₁ : D = write_data sd (0xff ∷ token ∷ []) s in
      let s₂ : D = write_data sd (slice sec_len bytes o) s₁ in
      let s₃ : D = write_data sd (0xff ∷ 0xff ∷ []) s₂ in
      let place : position s₃ ≡ position s =
        position-write_data sd answer w _ s₂
        ∙ position-write_data sd answer w _ s₁
        ∙ position-write_data sd answer w _ s in
      let (s₄, good, at, quiet) =
        get_dataresponse-Accepts fuel t s₃
          (subst (λ x. Accepts answer fuel x t) (sym place) accepts) in
      let (s', runs, ends, more_sent) =
        write_chunks-AcceptsAll fuel n token (o + sec_len) q bytes s₄
          (subst (λ x. AcceptsAll answer fuel n x q) (sym at) more) in
      (
        s',
        write_chunks-step fuel n token o bytes s s₄ good ∙ runs,
        ends,
        more_sent
            ∙ ap (λ l. l ++ all_bytes n token (o + sec_len) bytes)
                (quiet ∙ sent-block token o bytes s)
            ∙ append_assoc (sent s) (block_bytes token o bytes) _,
      )

  write_block-ends :
      (fuel block_id : ℕ) (bytes : ℕ → ℕ) (s s' : D)
      → let asked = get_response sd (send_cmd sd cmd24 (block_id % 2 ^ 32) 0 s) in
        asked.0 ≡ 0x00
        → write_chunks sd fuel 1 start_single_write 0 bytes asked.1 ≡ done (ok, s')
        → write_block sd fuel block_id sec_len bytes s ≡ done (end_cmd sd (end_cmd sd s'))
  unfolding write_block write_sector start_writing
  write_block-ends fuel block_id bytes s s' ack runs = rw (ack, runs) refl

  -- A block of 512 bytes that is written to a card that acknowledges the command and accepts the
  -- data, busy for less than `fuel` bytes after it: the write ends without panic, and what was sent
  -- is the command with the number of the block, the token, the bytes of the block in order with
  -- two more behind them, and twice the byte that ends a command. The card is then deselected.
  pub write_block-Accepts :
      (fuel block_id p q : ℕ) (bytes : ℕ → ℕ) (s : D)
      → Responds answer (position s) 0x00 p
      → Accepts answer fuel p q
      → (s' : D) × (write_block sd fuel block_id sec_len bytes s ≡ done s')
        × (sent s'
            ≡ sent s
              ++ (frame cmd24 (block_id % 2 ^ 32) 0
                  ++ (block_bytes start_single_write 0 bytes ++ 0xff ∷ 0xff ∷ [])))
        × (position s' ≡ q)
        × (w.pin s' ≡ true)
  write_block-Accepts fuel block_id p q bytes s ack accepts =
      let asked : D = send_cmd sd cmd24 (block_id % 2 ^ 32) 0 s in
      let (good, at) = get_response-Responds sd answer w asked 0x00 p (
        subst (λ x. Responds answer x 0x00 p)
          (sym (position-send_cmd sd answer w cmd24 (block_id % 2 ^ 32) 0 s)) ack) in
      let s₁ : D = (get_response sd asked).1 in
      let (s₂, runs, ends, written) =
        write_chunks-AcceptsAll fuel 1 start_single_write 0 q bytes s₁
          (q, subst (λ x. Accepts answer fuel x q) (sym at) accepts, refl) in
      let before : sent s₁ ≡ sent s ++ frame cmd24 (block_id % 2 ^ 32) 0 =
        sent-get_response sd answer w asked
        ∙ sent-send_cmd sd answer w cmd24 (block_id % 2 ^ 32) 0 s in
      (
        end_cmd sd (end_cmd sd s₂),
        write_block-ends fuel block_id bytes s s₂ good runs,
        sent-end_cmd sd answer w (end_cmd sd s₂)
            ∙ ap (λ l. l ++ 0xff ∷ [])
                (sent-end_cmd sd answer w s₂
                  ∙ ap (λ l. l ++ 0xff ∷ [])
                      (written
                        ∙ ap (λ l. l ++ (block_bytes start_single_write 0 bytes ++ [])) before))
            ∙ simp (append_assoc, append-nil),
        position-end_cmd sd answer w (end_cmd sd s₂) ∙ position-end_cmd sd answer w s₂ ∙ ends,
        pin-end_cmd sd answer w (end_cmd sd s₂),
      )
