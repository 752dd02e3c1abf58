-- ===== src/Percent/RoundTrip.antt =====
-- The percent encoding of header values: what it writes, and that it is read back.
use cloudevents_sdk_cpp.Base.{
  ℕ, ◌*◌, ◌/◌, ◌%◌, ◌^◌, ◌<◌, ◌≤◌, ◌≡◌, ◌≢◌, refl, ◌∙◌, arith, true, false, some, [], ◌∷◌, Bytes,
  IsByte, All, Bool-cases, inl, inr, ◌==◌, bit_and, bit_or,
}
use cloudevents_sdk_cpp.Base.Bits.{bit_and-mask, bit_or-shift}
use cloudevents_sdk_cpp.Errors.{ok}
use cloudevents_sdk_cpp.Utf8.{is_valid_utf8}
use cloudevents_sdk_cpp.Percent.{
  needs_escape, hex_digit, hex_value, percent_encode, push_back, unescape_loop, check_utf8,
  percent_decode,
}

hex_value-digit : (v : ℕ) → v < 16 → hex_value (hex_digit v) ≡ some v
unfolding hex_value hex_digit
hex_value-digit v h = ground arith

nibbles : (b : ℕ) → IsByte b → bit_or (b / 2 ^ 4 * 2 ^ 4) (bit_and b 0x0f) % 256 ≡ b
nibbles b h = rw (bit_and-mask 4 b, bit_or-shift 4 (b / 16) (b % 16) (omega arith)) (omega arith)

-- A character other than the percent sign stands for itself.
unescape_plain :
    (whole : Bytes) (c : ℕ) (text : Bytes)
    → (c == b'%') ≡ false
    → unescape_loop whole (c ∷ text) ≡ push_back c (unescape_loop whole text)
unfolding unescape_loop
unescape_plain whole c [] h = rw h
unescape_plain whole c (d ∷ []) h = rw h
unescape_plain whole c (d ∷ e ∷ text) h = rw h

unescape_escaped :
    (whole : Bytes) (b : ℕ) (text : Bytes)
    → IsByte b
    → unescape_loop whole (b'%' ∷ hex_digit (b / 2 ^ 4) ∷ hex_digit (bit_and b 0x0f) ∷ text)
      ≡ push_back b (unescape_loop whole text)
unfolding unescape_loop
unescape_escaped whole b text h = rw (
  hex_value-digit (b / 16) (omega arith),
  hex_value-digit (bit_and b 15) (rw (bit_and-mask 4 b) (omega arith)),
  nibbles b h,
)

pub unescape_loop-encode :
    (whole text : Bytes) → All IsByte text → unescape_loop whole (percent_encode text) ≡ ok text
unfolding percent_encode
unescape_loop-encode whole [] h = unfold unescape_loop in refl
unescape_loop-encode whole (b ∷ text) (hb, h) = elim (Bool-cases (needs_escape b)) [
  | inl e ↦
      rw (e, unescape_escaped whole b (percent_encode text) hb, unescape_loop-encode whole text h)
  | inr e ↦ rw (
    e,
    unescape_plain whole b (percent_encode text) (ground arith),
    unescape_loop-encode whole text h,
  )
]

-- Decoding an encoded text gives the text back when it is well-formed UTF-8, and otherwise fails
-- with `invalid_utf8`, whatever the bytes are.
pub percent_decode-encode :
    (text : Bytes)
    → All IsByte text
    → percent_decode (percent_encode text) ≡ check_utf8 (percent_encode text) text
unfolding percent_decode
percent_decode-encode text h = rw (unescape_loop-encode (percent_encode text) text h)

-- Visible ASCII other than the double quote.
abbrev pub IsHeaderSafe : ℕ → Type 0
IsHeaderSafe c = (0x21 ≤ c) × (c ≤ 0x7e) × (c ≢ b'"')

hex_digit-IsHeaderSafe : (v : ℕ) → v < 16 → IsHeaderSafe (hex_digit v)
unfolding hex_digit
hex_digit-IsHeaderSafe v h = ground arith

-- Every character that the encoder writes is visible ASCII and no double quote.
pub percent_encode-IsHeaderSafe :
    (text : Bytes) → All IsByte text → All IsHeaderSafe (percent_encode text)
unfolding percent_encode
percent_encode-IsHeaderSafe [] h = tt
percent_encode-IsHeaderSafe (b ∷ text) (hb, h) = elim (Bool-cases (needs_escape b)) [
  | inl e ↦ rw e (
    ground arith,
    (
      hex_digit-IsHeaderSafe (b / 16) (omega arith),
      (
        hex_digit-IsHeaderSafe (bit_and b 15) (rw (bit_and-mask 4 b) (omega arith)),
        percent_encode-IsHeaderSafe text h,
      ),
    ),
  )
  | inr e ↦ rw e (ground arith, percent_encode-IsHeaderSafe text h)
]

-- well-formed UTF-8, each character of which is a byte
abbrev pub IsUtf8 : Bytes → Type 0
IsUtf8 text = All IsByte text × (is_valid_utf8 text ≡ true)

pub percent_decode-ok : (v : Bytes) → IsUtf8 v → percent_decode (percent_encode v) ≡ ok v
percent_decode-ok v (b, u) = percent_decode-encode v b ∙ rw u refl
