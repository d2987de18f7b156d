-- ===== src/Control/WebSocket/Utf8.antt =====
-- `String::from_utf8` of the standard library, which apps/control-plane/src/websocket.rs calls: which
-- bytes it takes for text.
use fanzloud.Base.{
  ℕ, zero, suc, Bool, true, false, ◌&&◌, Option, none, some, List, [], ◌∷◌, ltb, leb, ◌==◌,
  if◌then◌else◌,
}

abbrev within : ℕ → ℕ → ℕ → Bool
within low high byte = leb low byte && leb byte high

-- How many bytes follow a first byte, and the range of the next of them.
lead : ℕ → Option (ℕ × ℕ × ℕ)
lead byte =
    if ltb byte 0x80
    then some (0, 0x80, 0xBF)
    else if within 0xC2 0xDF byte
    then some (1, 0x80, 0xBF)
    else if byte == 0xE0
    then some (2, 0xA0, 0xBF)
    else if byte == 0xED
    then some (2, 0x80, 0x9F)
    else if within 0xE1 0xEF byte
    then some (2, 0x80, 0xBF)
    else if byte == 0xF0
    then some (3, 0x90, 0xBF)
    else if within 0xF1 0xF3 byte
    then some (3, 0x80, 0xBF)
    else if byte == 0xF4
    then some (3, 0x80, 0x8F)
    else none

-- The bytes still to come of one character, and the range of the next.
utf8_from : ℕ → ℕ → ℕ → List ℕ → Bool
utf8_from zero low high [] = true
utf8_from (suc more) low high [] = false
utf8_from zero low high (byte ∷ bytes) = elim (lead byte) [
  | none ↦ false
  | some (more, l, h) ↦ utf8_from more l h bytes
]
utf8_from (suc more) low high (byte ∷ bytes) =
    within low high byte && utf8_from more 0x80 0xBF bytes

unfoldable pub is_utf8 : List ℕ → Bool
unfolding utf8_from lead
is_utf8 bytes = utf8_from 0 0x80 0xBF bytes
