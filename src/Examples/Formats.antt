-- ===== src/Examples/Formats.antt =====
-- Base64, UTF-8, percent encoding and the Protobuf wire at concrete inputs.
use cloudevents_sdk_cpp.Base.{
  ℕ, ◌+◌, ◌*◌, ◌/◌, ◌^◌, ◌<◌, ◌≡◌, refl, ◌↔◌, ◌⊎◌, arith, true, List, [], ◌∷◌, ◌++◌, IsByte, All,
  codes, length,
}
use cloudevents_sdk_cpp.Errors.{Result, ok, ◌>>=◌}
use cloudevents_sdk_cpp.Base64.{
  base64_encode, base64_decode, base64_character, base64_value, pack, strip_padding, decode_loop,
  next_accumulator,
}
use cloudevents_sdk_cpp.Base64.RoundTrip.{base64_decode-encode, length-base64_encode}
use cloudevents_sdk_cpp.Base64.Canonical.{base64_decode_canonical}
use cloudevents_sdk_cpp.Utf8.{is_valid_utf8}
use cloudevents_sdk_cpp.Utf8.Scalars.{IsScalar, encode_scalars}
use cloudevents_sdk_cpp.Utf8.WellFormed.{is_valid_utf8_iff}
use cloudevents_sdk_cpp.Percent.{percent_encode, percent_decode, check_utf8}
use cloudevents_sdk_cpp.Percent.RoundTrip.{
  percent_decode-encode, percent_encode-IsHeaderSafe, IsHeaderSafe,
}
use cloudevents_sdk_cpp.Wire.{
  read_varint, varint_loop, add_group, put_varint, read_header, put_tag, varint, max_varint_bytes,
}
use cloudevents_sdk_cpp.Wire.Varint.{read_varint-put_varint, read_varint_bounds, Took}
use cloudevents_sdk_cpp.Wire.Fields.{read_header-put_tag}
use cloudevents_sdk_cpp.Protobuf.{Field, read_field, for_each_field, visit_read}
use cloudevents_sdk_cpp.Protobuf.Walk.{for_each_field-unroll}
use cloudevents_sdk_cpp.Protobuf.Visits.{
  number_field, bytes_field, write_all, visit_all, for_each_field-write_all,
}

encode_man : base64_encode (codes "Ma") ≡ codes "TWE="
unfolding base64_encode base64_character pack
encode_man = refl

decode_unpadded : base64_decode (codes "TWE") ≡ ok (codes "Ma")
unfolding base64_decode strip_padding decode_loop base64_value next_accumulator
decode_unpadded = refl

base64_decode-encode_example : base64_decode (base64_encode (0 ∷ 255 ∷ [])) ≡ ok (0 ∷ 255 ∷ [])
base64_decode-encode_example = base64_decode-encode (0 ∷ 255 ∷ []) (omega arith)

length-base64_encode_example : length (base64_encode (0 ∷ 255 ∷ [])) ≡ 4 * ((2 + 2) / 3)
length-base64_encode_example = length-base64_encode (0 ∷ 255 ∷ []) (omega arith)

base64_decode_canonical_example :
    All IsByte (codes "Ma")
    × ((codes "TWE" ≡ base64_encode (codes "Ma"))
        ⊎ (codes "TWE" ≡ (strip_padding (base64_encode (codes "Ma"))).0))
base64_decode_canonical_example =
    base64_decode_canonical (codes "TWE") (codes "Ma") (omega arith) decode_unpadded

is_valid_utf8_iff_example :
    (is_valid_utf8 (0xc3 ∷ 0xa9 ∷ []) ≡ true)
    ↔ ((cs : List ℕ) × All IsScalar cs × (0xc3 ∷ 0xa9 ∷ [] ≡ encode_scalars cs))
is_valid_utf8_iff_example = is_valid_utf8_iff (0xc3 ∷ 0xa9 ∷ []) (omega arith)

percent_decode-encode_example :
    percent_decode (percent_encode (codes "a b"))
    ≡ check_utf8 (percent_encode (codes "a b")) (codes "a b")
percent_decode-encode_example = percent_decode-encode (codes "a b") (omega arith)

percent_encode-IsHeaderSafe_example : All IsHeaderSafe (percent_encode (0 ∷ 34 ∷ 200 ∷ []))
percent_encode-IsHeaderSafe_example = percent_encode-IsHeaderSafe (0 ∷ 34 ∷ 200 ∷ []) (omega arith)

read_varint-put_varint_example : read_varint (put_varint [] 300 ++ 7 ∷ []) ≡ ok (300, 7 ∷ [])
read_varint-put_varint_example = read_varint-put_varint 300 (7 ∷ []) (omega arith)

three_hundred : read_varint (172 ∷ 2 ∷ 7 ∷ []) ≡ ok (300, 7 ∷ [])
unfolding read_varint varint_loop add_group
three_hundred = refl

read_varint_bounds_example : (300 < 2 ^ 64) × Took (172 ∷ 2 ∷ 7 ∷ []) (7 ∷ []) max_varint_bytes
read_varint_bounds_example =
    read_varint_bounds (172 ∷ 2 ∷ 7 ∷ []) 300 (7 ∷ []) (omega arith) three_hundred

read_header-put_tag_example :
    read_header (put_tag [] 5 varint ++ 1 ∷ []) ≡ ok (record { number = 5; kind = varint }, 1 ∷ [])
read_header-put_tag_example = read_header-put_tag 5 varint (1 ∷ []) (omega arith) (omega arith)

-- A visitor that collects the numbers of the fields.
abbrev collect : Field → List ℕ → Result (List ℕ)
collect f numbers = ok (f.number ∷ numbers)

for_each_field-unroll_example : for_each_field collect [] (8 ∷ 1 ∷ []) ≡ (
    read_field (8 ∷ 1 ∷ []) >>= λ read.
    visit_read collect read.0 [] >>= λ s'. for_each_field collect s' read.1)
for_each_field-unroll_example = for_each_field-unroll collect [] 8 (1 ∷ [])

for_each_field-write_all_example :
    for_each_field collect [] (write_all [] (number_field 1 300 ∷ bytes_field 2 (codes "x") ∷ []))
    ≡ visit_all collect [] (number_field 1 300 ∷ bytes_field 2 (codes "x") ∷ [])
for_each_field-write_all_example =
    for_each_field-write_all collect (number_field 1 300 ∷ bytes_field 2 (codes "x") ∷ []) []
      (omega arith)
