-- ===== src/Memory/UserString.antt =====
-- os/src/memory/page_table.rs, `translated_str` and `translated_refmut`: a string and a number in the
-- memory of a user.
use ch_os.Base.{
  ℕ, zero, suc, ◌+◌, ◌-◌, ◌*◌, ◌/◌, ◌%◌, ◌^◌, ◌<◌, ◌≡◌, ◌≢◌, refl, ◌&&◌, List, [], ◌∷◌, ◌++◌, arith,
  ◌==◌, ltb, length, if◌then◌else◌, ==-ne,
}
use ch_os.Base.Bits.{add_usize}
use ch_os.Base.Outcome.{Outcome, done, panic, unwrap, ◌>>=◌}
use ch_os.Memory.Address.{virt_addr, page_size}
use ch_os.Memory.PageTable.{PageTable, translate_va}
use ch_os.Memory.MapArea.{byte_of}

-- `get_mut` of a byte at a physical address.
abbrev pub byte_at : (ℕ → ℕ → ℕ) → ℕ → ℕ
byte_at words pa = byte_of words (pa / page_size) (pa % page_size)

-- `string.push(ch as char)`: the character with the number of the byte, in UTF-8.
abbrev pub char_bytes : ℕ → List ℕ
char_bytes ch = if ltb ch 128 then ch ∷ [] else (192 + ch / 64) ∷ (128 + ch % 64) ∷ []

-- The loop of `translated_str`, on fuel. In the source a string without an end runs on until a
-- page is not mapped.
unfoldable pub str_from : ℕ → (ℕ → ℕ → ℕ) → PageTable → ℕ → Outcome (List ℕ)
str_from zero words pt va = panic
str_from (suc fuel) words pt va = do
  pa ← unwrap (translate_va words pt (virt_addr va))
  let ch = byte_at words pa
  let more = (do rest ← str_from fuel words pt (add_usize va 1); done (char_bytes ch ++ rest))
  if ch == 0 then done [] else more

unfoldable pub translated_str : ℕ → (ℕ → ℕ → ℕ) → PageTable → ℕ → Outcome (List ℕ)
translated_str fuel words pt ptr = str_from fuel words pt ptr

-- A byte of memory is written.
unfoldable pub store_byte : (ℕ → ℕ → ℕ) → ℕ → ℕ → ℕ → ℕ → ℕ
store_byte words pa b p w =
    let shift = 256 ^ (pa % page_size % 8) in
    if (p == pa / page_size) && (w == pa % page_size / 8)
    then words p w - words p w / shift % 256 * shift + b * shift
    else words p w

-- `*translated_refmut(token, ptr) = v` for an `i32`: four bytes, from the lowest on.
unfoldable pub store_i32 : (ℕ → ℕ → ℕ) → ℕ → ℕ → ℕ → ℕ → ℕ
store_i32 words pa v =
    let one = store_byte words pa (v % 256) in
    let two = store_byte one (pa + 1) (v / 256 % 256) in
    let three = store_byte two (pa + 2) (v / 256 ^ 2 % 256) in
    store_byte three (pa + 3) (v / 256 ^ 3 % 256)

unfoldable pub write_refmut : (ℕ → ℕ → ℕ) → PageTable → ℕ → ℕ → Outcome (ℕ → ℕ → ℕ)
write_refmut words pt ptr v = do
  pa ← unwrap (translate_va words pt (virt_addr ptr))
  done (store_i32 words pa v)

-- The string that stands in memory: bytes that are not zero, then a zero.
abbrev pub encode : List ℕ → List ℕ
encode [] = []
encode (c ∷ cs) = char_bytes c ++ encode cs

-- `va` is mapped to `pa`, and the bytes from `va` on are `cs` and a zero.
abbrev pub HasString : (ℕ → ℕ → ℕ) → PageTable → ℕ → List ℕ → Type 0
HasString words pt va [] =
    (pa : ℕ) × (unwrap (translate_va words pt (virt_addr va)) ≡ done pa) × (byte_at words pa ≡ 0)
HasString words pt va (c ∷ cs) =
    ((pa : ℕ) × (unwrap (translate_va words pt (virt_addr va)) ≡ done pa) × (byte_at words pa ≡ c))
    × (c ≢ 0)
    × HasString words pt (add_usize va 1) cs

-- A string in the user's memory is read to its end, whatever the pages that it lies in, where the
-- fuel is more than its length.
pub translated_str-HasString :
    (cs : List ℕ) (fuel : ℕ) (words : ℕ → ℕ → ℕ) (pt : PageTable) (va : ℕ)
    → HasString words pt va cs
    → length cs < fuel
    → translated_str fuel words pt va ≡ done (encode cs)
unfolding translated_str str_from
translated_str-HasString cs zero words pt va h l = absurd (omega arith)
translated_str-HasString [] (suc fuel) words pt va (pa, e, ended) l = rw (e, ended) refl
translated_str-HasString (c ∷ cs) (suc fuel) words pt va ((pa, e, here), ne, later) l =
    rw
      (
        e,
        here,
        ==-ne c 0 ne,
        translated_str-HasString cs fuel words pt (add_usize va 1) later (omega arith),
      )
      refl
