-- ===== src/Drivers/SdCard/Sectors.antt =====
-- Sectors of the card: `read_sector` and `write_sector`. A buffer is its length and the bytes at its
-- offsets.
use ch_os.Base.{
  ℕ, zero, suc, ◌+◌, ◌-◌, ◌/◌, ◌%◌, ◌^◌, Bool, true, false, ◌&&◌, List, [], ◌∷◌, ◌==◌, leb, ltb,
  if◌then◌else◌,
}
use ch_os.Base.Outcome.{Outcome, done, panic, assert, ◌>>=◌, ◌>>◌}
use ch_os.Drivers.SdCard.{
  SdCard, cmd12, cmd17, cmd18, acmd23, cmd24, cmd25, send_cmd, end_cmd, get_response,
  get_dataresponse, read_data, write_data, start_single_read, start_single_write,
  start_multiple_write, sec_len,
}

-- The result `Result<(), ()>`.
pub data Answer : Type 0 where
  ok err : Answer

abbrev pub succeeded : Answer → Bool
succeeded ok = true
succeeded err = false

-- The buffer after the chunk that begins at `o` was filled from `chunk`.
abbrev pub put_chunk : (ℕ → ℕ) → ℕ → (ℕ → ℕ) → ℕ → ℕ
put_chunk bytes o chunk i = if leb o i && ltb i (o + sec_len) then chunk (i - o) else bytes i

-- The elements from the offset `o` on, `n` of them.
unfoldable pub slice : ℕ → (ℕ → ℕ) → ℕ → List ℕ
slice zero bytes o = []
slice (suc n) bytes o = bytes o ∷ slice n bytes (o + 1)

-- `assert!(data_buf.len() >= SEC_LEN && ..)`
abbrev pub is_whole : ℕ → Bool
is_whole len = leb sec_len len && (len % sec_len == 0)

module _ {D : Type 0} (sd : SdCard D) where
  -- The loop over the chunks of the buffer, `n` of them from the offset `o` on; the result is
  -- `error`.
  unfoldable pub read_chunks : ℕ → ℕ → (ℕ → ℕ) → D → Bool × (ℕ → ℕ) × D
  read_chunks zero o bytes s = (false, bytes, s)
  read_chunks (suc n) o bytes s =
      let (token, s₁) = get_response sd s in
      elim (token == start_single_read) [
        | true ↦
            (let (chunk, s₂) = read_data sd sec_len s₁ in
              let (crc, s₃) = read_data sd 2 s₂ in
              read_chunks n (o + sec_len) (put_chunk bytes o chunk) s₃)
        | false ↦ (true, bytes, s₁)
      ]

  -- What ends a transfer of several blocks.
  unfoldable pub stop_reading : D → D
  stop_reading s =
      let (r, s') = get_response sd (send_cmd sd cmd12 0 0 s) in end_cmd sd (end_cmd sd s')

  unfoldable pub read_sector : ℕ → (ℕ → ℕ) → ℕ → D → Outcome (Answer × (ℕ → ℕ) × D)
  read_sector len bytes sector s = do
    assert (is_whole len)
    let flag = if len == sec_len then false else true
    let (r, s₁) = get_response sd (send_cmd sd (if flag then cmd18 else cmd17) sector 0 s)
    let failed : Outcome (Answer × (ℕ → ℕ) × D) = done (err, bytes, end_cmd sd s₁)
    let (error, bytes', s₂) = read_chunks (len / sec_len) 0 bytes s₁
    let s₃ = end_cmd sd s₂
    let s₄ = if flag then stop_reading s₃ else s₃
    if r == 0x00 then done (if error then err else ok, bytes', s₄) else failed

  -- The loop over the chunks to write, each behind its token.
  unfoldable pub write_chunks : ℕ → ℕ → ℕ → ℕ → (ℕ → ℕ) → D → Outcome (Answer × D)
  write_chunks fuel zero token o bytes s = done (ok, s)
  write_chunks fuel (suc n) token o bytes s = do
    let s₁ = write_data sd (0xff ∷ token ∷ []) s
    let s₂ = write_data sd (slice sec_len bytes o) s₁
    let s₃ = write_data sd (0xff ∷ 0xff ∷ []) s₂
    (r, s₄) ← get_dataresponse sd fuel s₃
    elim (r == 0x00) [
      | true ↦ write_chunks fuel n token (o + sec_len) bytes s₄
      | false ↦ done (err, end_cmd sd s₄)
    ]

  -- The end of `write_sector`; a chunk that failed has ended the command already.
  abbrev pub finish : Answer → D → Answer × D
  finish ok s = (ok, end_cmd sd (end_cmd sd s))
  finish err s = (err, s)

  -- The command that begins to write, with the number of blocks before it where there are several;
  -- that must fit a `u32`.
  unfoldable pub start_writing : ℕ → ℕ → D → Outcome D
  start_writing len sector s =
      if len == sec_len
      then done (send_cmd sd cmd24 sector 0 s)
      else if ltb (len / sec_len) (2 ^ 32)
      then (let (r, s₁) = get_response sd (send_cmd sd acmd23 (len / sec_len) 0 s) in
          done (send_cmd sd cmd25 sector 0 (end_cmd sd s₁)))
      else panic

  unfoldable pub write_sector : ℕ → ℕ → (ℕ → ℕ) → ℕ → D → Outcome (Answer × D)
  write_sector fuel len bytes sector s = do
    assert (is_whole len)
    let token = if len == sec_len then start_single_write else start_multiple_write
    s₁ ← start_writing len sector s
    let (r, s₂) = get_response sd s₁
    let writing =
        write_chunks fuel (len / sec_len) token 0 bytes s₂ >>= λ (a, s₃). done (finish a s₃)
    if r == 0x00 then writing else done (err, end_cmd sd s₂)

  -- `read_block` and `write_block` of `SDCardWrapper`: `block_id as u32`, and `unwrap`.
  unfoldable pub read_block : ℕ → ℕ → (ℕ → ℕ) → D → Outcome ((ℕ → ℕ) × D)
  read_block block_id len bytes s = do
    (a, bytes', s') ← read_sector len bytes (block_id % 2 ^ 32) s
    assert (succeeded a)
    done (bytes', s')

  unfoldable pub write_block : ℕ → ℕ → ℕ → (ℕ → ℕ) → D → Outcome D
  write_block fuel block_id len bytes s = do
    (a, s') ← write_sector fuel len bytes (block_id % 2 ^ 32) s
    assert (succeeded a)
    done s'
