-- ===== src/Text/RoundTrip.antt =====
-- Decoding what the UTF-8 encoder wrote gives the text back.
use gatherlink.Prelude.{ℕ, ◌≡◌, some, [], ◌∷◌, ◌++◌, ok, arith, ⊕-eq-ok}
use gatherlink.Bytes.{Bytes}
use gatherlink.Text.{Text, encode_char, utf8_encode, utf8_decode, start, decode_from, prepend}

decode-encode_char :
    (c : ℕ) (bs rest : Bytes)
    → encode_char c ≡ ok bs
    → decode_from start (bs ++ rest) ≡ prepend (c ∷ []) (decode_from start rest)
unfolding encode_char decode_from
decode-encode_char c bs rest h = ground arith

pub utf8_decode-encode :
    (text : Text) {bs : Bytes} → utf8_encode text ≡ ok bs → utf8_decode bs ≡ some text
unfolding utf8_encode utf8_decode
utf8_decode-encode [] {bs} h = let e : bs ≡ [] = cc in rw e
utf8_decode-encode (c ∷ text) {bs} h =
    let (x, y, hx, hy, e) = ⊕-eq-ok (encode_char c) (utf8_encode text) h in
    rw (e, decode-encode_char c x y hx, utf8_decode-encode text hy)
