-- ===== src/Base/Utf8.antt =====
-- `core::str::from_utf8`: the byte sequences that are UTF-8.
use ch_os.Base.{
  refl, ◌≡◌, ℕ, Bool, true, false, ◌&&◌, Option, none, some, List, [], ◌∷◌, leb, ltb, ◌==◌,
  if◌then◌else◌,
}

-- The ranges, by least and greatest byte, of the bytes that must follow a first byte.
abbrev continuation : ℕ × ℕ
continuation = (0x80, 0xBF)

pub follow : ℕ → Option (List (ℕ × ℕ))
follow b =
    if ltb b 0x80
    then some []
    else if ltb b 0xC2
    then none
    else if ltb b 0xE0
    then some (continuation ∷ [])
    else if b == 0xE0
    then some ((0xA0, 0xBF) ∷ continuation ∷ [])
    else if b == 0xED
    then some ((0x80, 0x9F) ∷ continuation ∷ [])
    else if ltb b 0xF0
    then some (continuation ∷ continuation ∷ [])
    else if b == 0xF0
    then some ((0x90, 0xBF) ∷ continuation ∷ continuation ∷ [])
    else if ltb b 0xF4
    then some (continuation ∷ continuation ∷ continuation ∷ [])
    else if b == 0xF4
    then some ((0x80, 0x8F) ∷ continuation ∷ continuation ∷ [])
    else none

-- The bytes after a character's first ones, of which those in the ranges are still to come.
pub utf8_from : List (ℕ × ℕ) → List ℕ → Bool
unfolding follow
utf8_from [] [] = true
utf8_from (r ∷ rs) [] = false
utf8_from ((l, h) ∷ rs) (b ∷ bs) = leb l b && leb b h && utf8_from rs bs
utf8_from [] (b ∷ bs) = elim (follow b) [ none ↦ false | some rs ↦ utf8_from rs bs ]

unfoldable pub is_utf8 : List ℕ → Bool
unfolding follow utf8_from
is_utf8 bytes = utf8_from [] bytes

-- Sequences of one to four bytes; then an overlong one, a surrogate, a number past the last
-- character, one that is cut off, and one that starts in the middle.
tests :
    (is_utf8 (97 ∷ 0xC3 ∷ 0xA9 ∷ 0xE2 ∷ 0x82 ∷ 0xAC ∷ 0xF0 ∷ 0x9F ∷ 0x98 ∷ 0x80 ∷ []) ≡ true)
    × (is_utf8 (0xC0 ∷ 0x80 ∷ []) ≡ false)
    × (is_utf8 (0xED ∷ 0xA0 ∷ 0x80 ∷ []) ≡ false)
    × (is_utf8 (0xF4 ∷ 0x90 ∷ 0x80 ∷ 0x80 ∷ []) ≡ false)
    × (is_utf8 (0xE2 ∷ 0x82 ∷ []) ≡ false)
    × (is_utf8 (0x80 ∷ []) ≡ false)
unfolding is_utf8 utf8_from follow
tests = (refl, refl, refl, refl, refl, refl)
