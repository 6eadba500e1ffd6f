-- ===== src/Text.antt =====
-- Python's `str` and its strict UTF-8 codec, which the wire names go through. A `str` is the list
-- of its code points; a lone surrogate cannot be encoded.
pub mod RoundTrip
use gatherlink.Prelude.{
  ℕ, zero, suc, ◌+◌, ◌-◌, ◌*◌, ◌/◌, ◌%◌, ◌≡◌, refl, Bool, ◌&&◌, Option, none, some, List, [], ◌∷◌,
  ◌++◌, ltb, leb, ◌==◌, if◌then◌else◌, Result, ok, err, unicode_error, ◌⊕◌,
}
use gatherlink.Bytes.{Bytes}

abbrev pub Text : Type 0
Text = List ℕ

encode_char : ℕ → Result Bytes
encode_char c =
    if ltb c 0x80
    then ok (c ∷ [])
    else if ltb c 0x800
    then ok ((0xC0 + c / 64) ∷ (0x80 + c % 64) ∷ [])
    else if leb 0xD800 c && leb c 0xDFFF
    then err unicode_error
    else if ltb c 0x10000
    then ok ((0xE0 + c / 4096) ∷ (0x80 + c / 64 % 64) ∷ (0x80 + c % 64) ∷ [])
    else if ltb c 0x110000
    then ok
        ((0xF0 + c / 262144) ∷ (0x80 + c / 4096 % 64) ∷ (0x80 + c / 64 % 64) ∷ (0x80 + c % 64) ∷ [])
    else err unicode_error

-- `text.encode("utf-8")`
unfoldable pub utf8_encode : Text → Result Bytes
unfolding encode_char
utf8_encode [] = ok []
utf8_encode (c ∷ text) = encode_char c ⊕ utf8_encode text

-- Between characters, or inside one: how many bytes follow the next one, the range that the next
-- one must lie in, and the bits so far.
pub data Mode : Type 0 where
  start : Mode
  more : (left lo hi acc : ℕ) → Mode

lead_byte : ℕ → Option (Mode × Text)
lead_byte b =
    if ltb b 0x80
    then some (start, b ∷ [])
    else if leb 0xC2 b && leb b 0xDF
    then some (more 0 0x80 0xBF (b - 0xC0), [])
    else if b == 0xE0
    then some (more 1 0xA0 0xBF 0, [])
    else if b == 0xED
    then some (more 1 0x80 0x9F 13, [])
    else if leb 0xE1 b && leb b 0xEF
    then some (more 1 0x80 0xBF (b - 0xE0), [])
    else if b == 0xF0
    then some (more 2 0x90 0xBF 0, [])
    else if b == 0xF4
    then some (more 2 0x80 0x8F 4, [])
    else if leb 0xF1 b && leb b 0xF3
    then some (more 2 0x80 0xBF (b - 0xF0), [])
    else none

next_byte : Mode → ℕ → Option (Mode × Text)
unfolding lead_byte
next_byte start b = lead_byte b
next_byte (more zero lo hi acc) b =
    if leb lo b && leb b hi then some (start, (acc * 64 + (b - 0x80)) ∷ []) else none
next_byte (more (suc left) lo hi acc) b =
    if leb lo b && leb b hi then some (more left 0x80 0xBF (acc * 64 + (b - 0x80)), []) else none

prepend : Text → Option Text → Option Text
prepend out none = none
prepend out (some text) = some (out ++ text)

decode_from : Mode → Bytes → Option Text
unfolding next_byte prepend
decode_from start [] = some []
decode_from (more left lo hi acc) [] = none
decode_from m (b ∷ bs) = elim (next_byte m b) [
  | none ↦ none
  | some (m', out) ↦ prepend out (decode_from m' bs)
]

-- `value.decode("utf-8")`; `none` is a UnicodeDecodeError.
unfoldable pub utf8_decode : Bytes → Option Text
unfolding decode_from
utf8_decode = decode_from start
