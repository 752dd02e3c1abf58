-- ===== src/Base64.antt =====
-- include/cloudevents/format/base64.hpp. A `char` is its unsigned byte; every comparison here
-- has the same answer for the signed one, since the alphabet is ASCII.
pub mod Quantum
pub mod RoundTrip
pub mod Canonical
use cloudevents_sdk_cpp.Base.{
  ℕ, zero, suc, ◌+◌, ◌-◌, ◌*◌, ◌/◌, ◌%◌, ◌^◌, Bool, true, false, ◌&&◌, List, [], ◌∷◌, Bytes, codes,
  length, leb, ltb, ◌==◌, if◌then◌else◌, within, bit_and, bit_or,
}
use cloudevents_sdk_cpp.Errors.{Result, ok, fail, invalid_base64, ◌>>=◌}

abbrev pub not_in_alphabet : ℕ
not_in_alphabet = 0xff

unfoldable pub base64_value : ℕ → ℕ
base64_value character =
    if within b'A' b'Z' character
    then character - b'A'
    else if within b'a' b'z' character
    then character - b'a' + 26
    else if within b'0' b'9' character
    then character - b'0' + 52
    else if character == b'+'
    then 62
    else if character == b'/'
    then 63
    else not_in_alphabet

abbrev base64_alphabet : Bytes
base64_alphabet = codes "ABCDEFGHIJKLMNOPQRSTUVWXYZabcdefghijklmnopqrstuvwxyz0123456789+/"

-- `text[i]`; every index below is in range
abbrev char_at : Bytes → ℕ → ℕ
char_at [] i = 0
char_at (c ∷ cs) zero = c
char_at (c ∷ cs) (suc i) = char_at cs i

unfoldable pub base64_character : ℕ → ℕ
base64_character value = char_at base64_alphabet (bit_and value 0x3f)

-- `x << k` on `std::uint32_t`
abbrev pub shl32 : ℕ → ℕ → ℕ
shl32 x k = x * 2 ^ k % 2 ^ 32

-- the `pack` lambda, from the group that the loop has reached
unfoldable pub pack : ℕ → Bytes → ℕ
pack group [] = group
pack group (octet ∷ octets) = pack (bit_or (shl32 group 8) octet) octets

abbrev pub emit : ℕ → ℕ → ℕ
emit packed offset = base64_character (packed / 2 ^ offset)

unfoldable pub base64_encode : Bytes → Bytes
base64_encode [] = []
base64_encode (a ∷ []) =
    let group = shl32 (pack 0 (a ∷ [])) 4 in emit group 6 ∷ emit group 0 ∷ b'=' ∷ b'=' ∷ []
base64_encode (a ∷ b ∷ []) =
    let group = shl32 (pack 0 (a ∷ b ∷ [])) 2 in
    emit group 12 ∷ emit group 6 ∷ emit group 0 ∷ b'=' ∷ []
base64_encode (a ∷ b ∷ c ∷ rest) =
    let group = pack 0 (a ∷ b ∷ c ∷ []) in
    emit group 18 ∷ emit group 12 ∷ emit group 6 ∷ emit group 0 ∷ base64_encode rest

-- the first loop of `base64_decode`: the text without its trailing `=`, and how many there were
abbrev pub add_front : ℕ → Bytes × ℕ → Bytes × ℕ
add_front c ([], padding) = if c == b'=' then ([], padding + 1) else (c ∷ [], padding)
add_front c (b ∷ bs, padding) = (c ∷ b ∷ bs, padding)

unfoldable pub strip_padding : Bytes → Bytes × ℕ
strip_padding [] = ([], 0)
strip_padding (c ∷ cs) = add_front c (strip_padding cs)

-- `accumulator = (accumulator << 6) | sextet`
unfoldable pub next_accumulator : ℕ → ℕ → ℕ
next_accumulator accumulator sextet = bit_or (shl32 accumulator 6) sextet

-- the check behind the second loop
abbrev trailing_bits : Bytes → ℕ → ℕ → Result Bytes
trailing_bits whole accumulator bits =
    if ltb 0 bits && ltb 0 (bit_and accumulator (2 ^ bits - 1))
    then fail invalid_base64 "unused trailing bits are not zero" whole
    else ok []

-- the second loop; what it pushes stands in front of what the rest pushes
unfoldable pub decode_loop : Bytes → ℕ → ℕ → Bytes → Result Bytes
decode_loop whole accumulator bits [] = trailing_bits whole accumulator bits
decode_loop whole accumulator bits (character ∷ body) =
    let sextet = base64_value character in
    let acc = next_accumulator accumulator sextet in
    let short = decode_loop whole acc (bits + 6) body in
    let full = (do
      out ← decode_loop whole acc (bits + 6 - 8) body
      ok (bit_and (acc / 2 ^ (bits + 6 - 8)) 0xff ∷ out)) in
    if sextet == not_in_alphabet
    then fail invalid_base64 "character is not in the base64 alphabet" whole
    else if leb 8 (bits + 6)
    then full
    else short

abbrev pub decode_body : Bytes → Bytes × ℕ → Result Bytes
decode_body text (body, padding) =
    if ltb 2 padding
    then fail invalid_base64 "more than two padding characters" text
    else if ltb 0 padding && ltb 0 (length text % 4)
    then fail invalid_base64 "padding does not complete the final quantum" text
    else if length body % 4 == 1
    then fail invalid_base64 "encoded length leaves a stray sextet" text
    else decode_loop text 0 0 body

unfoldable pub base64_decode : Bytes → Result Bytes
unfolding decode_loop strip_padding
base64_decode text = decode_body text (strip_padding text)
