-- ===== src/Wire.antt =====
-- include/cloudevents/format/detail/protobuf_wire.hpp. The reader is the bytes that it has not
-- read; an operation returns its result with the bytes left. After a failure no caller reads on.
pub mod Varint
pub mod Fields
use cloudevents_sdk_cpp.Base.{
  ℕ, zero, suc, ◌+◌, ◌*◌, ◌/◌, ◌^◌, ◌%◌, ◌<◌, Bool, true, false, ◌&&◌, ◌||◌, [], ◌∷◌, ◌++◌, Bytes,
  length, take, drop, ltb, leb, ◌==◌, if◌then◌else◌, bit_and, bit_or, arith,
}
use cloudevents_sdk_cpp.Base.Order.{lt_wf}
use cloudevents_sdk_cpp.Errors.{Result, ok, err, fail, parse_error, invalid_utf8, ◌>>=◌}
use cloudevents_sdk_cpp.Utf8.{is_valid_utf8}
use mathlib.Core.Logic.{dite}
use mathlib.Core.WellFounded.{Acc}
use native.Mathlib.Decide.{dec_lt}

abbrev pub max_varint_bytes : ℕ
max_varint_bytes = 10

pub data WireType : Type 0 where
  varint fixed64 length_delimited fixed32 : WireType

-- the enumerators' values
abbrev pub wire_value : WireType → ℕ
wire_value varint = 0
wire_value fixed64 = 1
wire_value length_delimited = 2
wire_value fixed32 = 5

unfoldable pub skippable : ℕ → Bool
skippable kind = kind == 0 || kind == 1 || kind == 2 || kind == 5

-- `static_cast<wire_type>`, of a skippable kind
abbrev pub to_wire_type : ℕ → WireType
to_wire_type kind =
    if kind == 0
    then varint
    else if kind == 1
    then fixed64
    else if kind == 2
    then length_delimited
    else fixed32

pub record FieldHeader : Type 0 where
  pub number : ℕ
  pub kind : WireType

-- `value |= uint64{byte & 0x7f} << (7 * index)`
unfoldable pub add_group : ℕ → ℕ → ℕ → ℕ
add_group value byte index = bit_or value (bit_and byte 0x7f * 2 ^ (7 * index) % 2 ^ 64)

unfoldable pub varint_loop : ℕ → ℕ → Bytes → Result (ℕ × Bytes)
varint_loop index value [] = fail parse_error "a varint is cut short" []
varint_loop index value (byte ∷ rest) =
    let value' = add_group value byte index in
    let more = varint_loop (index + 1) value' rest in
    if index + 1 == max_varint_bytes && ltb 1 byte
    then fail parse_error "a varint does not fit 64 bits" []
    else if bit_and byte 0x80 == 0
    then ok (value', rest)
    else more

unfoldable pub read_varint : Bytes → Result (ℕ × Bytes)
unfolding varint_loop
read_varint rest = varint_loop 0 0 rest

abbrev pub max_field_number : ℕ
max_field_number = 0x1fff_ffff

-- what `read_header` does with the tag
abbrev pub header_of : ℕ → ℕ → Bytes → Result (FieldHeader × Bytes)
header_of number kind rest =
    if number == 0 || ltb max_field_number number
    then fail parse_error "a field number is out of range" []
    else if skippable kind
    then ok (record { number = number; kind = to_wire_type kind }, rest)
    else fail parse_error "a wire type this reader cannot skip (a group)" []

unfoldable pub read_header : Bytes → Result (FieldHeader × Bytes)
read_header rest = do
  (tag, rest') ← read_varint rest
  header_of (tag / 2 ^ 3) (bit_and tag 0x7) rest'

abbrev pub split_body : ℕ → Bytes → Result (Bytes × Bytes)
split_body size rest =
    if ltb (length rest) size
    then fail parse_error "a length runs past the end of the input" []
    else ok (take size rest, drop size rest)

unfoldable pub read_length_delimited : Bytes → Result (Bytes × Bytes)
read_length_delimited rest = do (size, rest') ← read_varint rest; split_body size rest'

abbrev pub skip_fixed : ℕ → Bytes → Result Bytes
skip_fixed size rest =
    if ltb (length rest) size
    then fail parse_error "a fixed-width field is cut short" []
    else ok (drop size rest)

unfoldable pub skip : WireType → Bytes → Result Bytes
skip varint rest = do (_, rest') ← read_varint rest; ok rest'
skip length_delimited rest = do (_, rest') ← read_length_delimited rest; ok rest'
skip fixed64 rest = skip_fixed 8 rest
skip fixed32 rest = skip_fixed 4 rest

unfoldable pub read_text : Bytes → Result Bytes
read_text bytes =
    if is_valid_utf8 bytes
    then ok bytes
    else fail invalid_utf8 "a string field is not well-formed UTF-8" []

-- the bytes that `put_varint` pushes onto `out`; `value >>= 7` is `value / 128`
pub varint_shrinks : (v : ℕ) → 0x7f < v → v / 2 ^ 7 < v
varint_shrinks v h = omega arith

unfoldable pub varint_bytes : (value : ℕ) → Acc ◌<◌ value → Bytes
varint_bytes value (Acc.intro _ below) =
    dite (dec_lt 0x7f value)
      (λ more.
        bit_or (bit_and value 0x7f) 0x80
        ∷ varint_bytes (value / 2 ^ 7) (below (value / 2 ^ 7) (varint_shrinks value more)))
      (λ _. value ∷ [])

unfoldable pub put_varint : Bytes → ℕ → Bytes
unfolding varint_bytes
put_varint out value = out ++ varint_bytes value (lt_wf.apply value)

unfoldable pub put_tag : Bytes → ℕ → WireType → Bytes
put_tag out number kind = put_varint out (bit_or (number * 2 ^ 3) (wire_value kind))

unfoldable pub put_varint_field : Bytes → ℕ → ℕ → Bytes
put_varint_field out number value = put_varint (put_tag out number varint) value

unfoldable pub put_field : Bytes → ℕ → Bytes → Bytes
put_field out number body = put_varint (put_tag out number length_delimited) (length body) ++ body
