-- ===== src/Protobuf/Value.antt =====
-- include/cloudevents/format/protobuf_format.hpp: a `CloudEventAttributeValue`, read and written.
use cloudevents_sdk_cpp.Base.{
  ℕ, ◌+◌, ◌-◌, ◌*◌, ◌/◌, ◌%◌, ◌^◌, Bool, true, false, not, ◌||◌, ◌&&◌, Option, none, some, [],
  Bytes, ltb, ◌==◌, if◌then◌else◌,
}
use cloudevents_sdk_cpp.Base.Words.{add64, sub64, mul64, neg64, biased, less64}
use cloudevents_sdk_cpp.Errors.{Errc, Result, ok, fail, ◌>>=◌}
use cloudevents_sdk_cpp.Wire.{
  WireType, varint, length_delimited, read_text, put_varint_field, put_field,
}
use cloudevents_sdk_cpp.Protobuf.{Field, for_each_field}
use cloudevents_sdk_cpp.Timestamp.{Timestamp, utc_designator, representable, nanoseconds_per_second}
use cloudevents_sdk_cpp.Event.{
  Int32, pos, negsuc, AttributeValue, boolean, int32, string, binary, uri, uri_ref, instant,
}

abbrev pub is_varint : WireType → Bool
is_varint varint = true
is_varint _ = false

abbrev pub is_length_delimited : WireType → Bool
is_length_delimited length_delimited = true
is_length_delimited _ = false

-- the numbers of `value_arm`, `timestamp_field`
abbrev pub boolean_arm : ℕ
boolean_arm = 1

abbrev pub integer_arm : ℕ
integer_arm = 2

abbrev pub string_arm : ℕ
string_arm = 3

abbrev pub bytes_arm : ℕ
bytes_arm = 4

abbrev pub uri_arm : ℕ
uri_arm = 5

abbrev pub uri_ref_arm : ℕ
uri_ref_arm = 6

abbrev pub timestamp_arm : ℕ
timestamp_arm = 7

abbrev pub seconds_field : ℕ
seconds_field = 1

abbrev pub nanos_field : ℕ
nanos_field = 2

-- the fewest of 0, 3, 6 and 9 digits
unfoldable pub digits_holding : ℕ → ℕ
digits_holding fraction =
    if fraction == 0
    then 0
    else if fraction % 10 ^ 6 == 0
    then 3
    else if fraction % 10 ^ 3 == 0
    then 6
    else 9

-- on signed 64-bit counts
unfoldable pub make_instant : ℕ → ℕ → Result Timestamp
make_instant seconds nanos =
    if less64 nanos 0 || not (less64 nanos nanoseconds_per_second)
    then fail Errc.invalid_timestamp "Timestamp.nanos is outside 0 to 999999999" []
    else if less64 representable seconds || less64 seconds (neg64 representable)
    then fail Errc.invalid_timestamp
        "the instant is outside the range of the timestamp type (years 1678 to 2262)" []
    else ok (record {
      utc = add64 (mul64 seconds nanoseconds_per_second) nanos;
      offset = 0;
      form = utc_designator;
      fractional_digits = digits_holding nanos;
    })

-- the lambda of `read_timestamp`, on the seconds and the nanoseconds read so far
abbrev pub timestamp_visit : Field → ℕ × ℕ → Result (ℕ × ℕ)
timestamp_visit current (seconds, nanos) =
    if is_varint current.kind && current.number == seconds_field
    then ok (current.varint, nanos)
    else if is_varint current.kind && current.number == nanos_field
    then ok (seconds, current.varint)
    else ok (seconds, nanos)

unfoldable pub read_timestamp : Bytes → Result Timestamp
read_timestamp body = do
  read ← for_each_field timestamp_visit (0, 0) body
  make_instant read.0 read.1

-- `static_cast<std::int32_t>` of a value in its range, from 64 bits
abbrev pub to_int32 : ℕ → Int32
to_int32 raw = if ltb raw (2 ^ 63) then pos raw else negsuc (2 ^ 64 - 1 - raw)

unfoldable pub read_integer : ℕ → Result AttributeValue
read_integer raw =
    if less64 raw (neg64 (2 ^ 31)) || less64 (2 ^ 31 - 1) raw
    then fail Errc.out_of_range "ce_integer is outside the range of int32" []
    else ok (int32 (to_int32 raw))

-- `arm`
abbrev pub Arm : Type 0
Arm = Option AttributeValue

unfoldable pub read_varint_arm : Field → Result Arm
read_varint_arm current =
    if current.number == boolean_arm
    then ok (some (boolean (not (current.varint == 0))))
    else if not (current.number == integer_arm)
    then ok none
    else (do integer ← read_integer current.varint; ok (some integer))

abbrev pub text_arm : ℕ → Bytes → AttributeValue
text_arm number text =
    if number == uri_arm
    then uri text
    else if number == uri_ref_arm
    then uri_ref text
    else string text

unfoldable pub read_text_arm : Field → Result Arm
read_text_arm current = do text ← read_text current.body; ok (some (text_arm current.number text))

unfoldable pub read_length_arm : Field → Result Arm
read_length_arm current =
    if current.number == bytes_arm
    then ok (some (binary current.body))
    else if current.number == timestamp_arm
    then (do read ← read_timestamp current.body; ok (some (instant read)))
    else if current.number == string_arm
        || current.number == uri_arm
        || current.number == uri_ref_arm
    then read_text_arm current
    else ok none

abbrev pub replace_arm : Arm → Arm → Arm
replace_arm value none = value
replace_arm value (some read) = some read

-- the lambda of `read_value`
abbrev pub value_visit : Field → Arm → Result Arm
value_visit current value = do
  read ← if is_varint current.kind then read_varint_arm current else read_length_arm current
  ok (replace_arm value read)

unfoldable pub read_value : Bytes → Result Arm
read_value body = for_each_field value_visit none body

-- `static_cast<std::uint64_t>(static_cast<std::int64_t>(value))`
abbrev pub int_word : Int32 → ℕ
int_word (pos n) = n
int_word (negsuc n) = 2 ^ 64 - 1 - n

-- `floor<seconds>` of the signed count of nanoseconds, and what is left. The count is taken from
-- `first_second` seconds before the epoch, which is before every instant.
abbrev pub first_second : ℕ
first_second = 9223372037

abbrev pub from_first_second : ℕ → ℕ
from_first_second utc = biased utc + (first_second * nanoseconds_per_second - 2 ^ 63)

abbrev pub floor_seconds : ℕ → ℕ
floor_seconds utc = sub64 (from_first_second utc / nanoseconds_per_second) first_second

abbrev pub nanos_of : ℕ → ℕ
nanos_of utc = from_first_second utc % nanoseconds_per_second

abbrev pub put_unless_zero : Bytes → ℕ → ℕ → Bytes
put_unless_zero out number value = if value == 0 then out else put_varint_field out number value

unfoldable pub timestamp_body : Timestamp → Bytes
timestamp_body value =
    put_unless_zero (put_unless_zero [] seconds_field (floor_seconds value.utc)) nanos_field
      (nanos_of value.utc)

unfoldable pub put_arm : Bytes → AttributeValue → Bytes
put_arm out (boolean value) = put_varint_field out boolean_arm (if value then 1 else 0)
put_arm out (int32 value) = put_varint_field out integer_arm (int_word value)
put_arm out (string value) = put_field out string_arm value
put_arm out (binary value) = put_field out bytes_arm value
put_arm out (uri value) = put_field out uri_arm value
put_arm out (uri_ref value) = put_field out uri_ref_arm value
put_arm out (instant value) = put_field out timestamp_arm (timestamp_body value)

unfoldable pub encode_value : AttributeValue → Bytes
encode_value value = put_arm [] value
