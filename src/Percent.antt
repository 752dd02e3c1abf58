-- ===== src/Percent.antt =====
-- include/cloudevents/binding/detail/percent.hpp
pub mod RoundTrip
use cloudevents_sdk_cpp.Base.{
  ℕ, ◌+◌, ◌-◌, ◌*◌, ◌/◌, ◌%◌, ◌^◌, Bool, true, false, ◌||◌, Option, none, some, [], ◌∷◌, Bytes, ltb,
  ◌==◌, if◌then◌else◌, within, bit_and, bit_or,
}
use cloudevents_sdk_cpp.Errors.{Result, ok, fail, parse_error, invalid_utf8, ◌>>=◌}
use cloudevents_sdk_cpp.Utf8.{is_valid_utf8}

abbrev pub needs_escape : ℕ → Bool
needs_escape byte = ltb byte 0x21 || ltb 0x7e byte || byte == b'"' || byte == b'%'

unfoldable pub hex_digit : ℕ → ℕ
hex_digit value = if ltb value 10 then b'0' + value else b'A' + (value - 10)

-- `none` is `not_a_hex_digit`, the value -1 that the callers test by `< 0`
unfoldable pub hex_value : ℕ → Option ℕ
hex_value character =
    if within b'0' b'9' character
    then some (character - b'0')
    else if within b'a' b'f' character
    then some (character - b'a' + 10)
    else if within b'A' b'F' character
    then some (character - b'A' + 10)
    else none

unfoldable pub percent_encode : Bytes → Bytes
percent_encode [] = []
percent_encode (byte ∷ text) =
    let rest = percent_encode text in
    if needs_escape byte
    then b'%' ∷ hex_digit (byte / 2 ^ 4) ∷ hex_digit (bit_and byte 0x0f) ∷ rest
    else byte ∷ rest

abbrev pub push_back : ℕ → Result Bytes → Result Bytes
push_back c rest = do out ← rest; ok (c ∷ out)

abbrev pub push_escape : Bytes → Option ℕ → Option ℕ → Result Bytes → Result Bytes
push_escape whole (some high) (some low) rest = push_back (bit_or (high * 2 ^ 4) low % 256) rest
push_escape whole (some high) none rest = fail parse_error "percent escape is not hexadecimal" whole
push_escape whole none low rest = fail parse_error "percent escape is not hexadecimal" whole

abbrev pub truncated : Bytes → Result Bytes
truncated whole = fail parse_error "truncated percent escape" whole

-- the loop of `percent_decode`; what it pushes stands in front of what the rest pushes
unfoldable pub unescape_loop : Bytes → Bytes → Result Bytes
unescape_loop whole [] = ok []
unescape_loop whole (c ∷ []) = if c == b'%' then truncated whole else push_back c (ok [])
unescape_loop whole (c ∷ d ∷ []) =
    let plain = push_back c (unescape_loop whole (d ∷ [])) in
    if c == b'%' then truncated whole else plain
unescape_loop whole (c ∷ high ∷ low ∷ text) =
    let plain = push_back c (unescape_loop whole (high ∷ low ∷ text)) in
    let escaped = push_escape whole (hex_value high) (hex_value low) (unescape_loop whole text) in
    if c == b'%' then escaped else plain

-- the check behind the loop
abbrev pub check_utf8 : Bytes → Bytes → Result Bytes
check_utf8 whole out =
    if is_valid_utf8 out
    then ok out
    else fail invalid_utf8 "the decoded header value is not well-formed UTF-8" whole

unfoldable pub percent_decode : Bytes → Result Bytes
unfolding unescape_loop
percent_decode text = do out ← unescape_loop text text; check_utf8 text out
