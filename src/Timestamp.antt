-- ===== src/Timestamp.antt =====
-- include/cloudevents/detail/timestamp.hpp: `timestamp`, `parse_timestamp` and `to_string`. The counts
-- of nanoseconds, seconds and minutes are 64-bit words.
pub mod Digits
pub mod Instant
pub mod RoundTrip
use cloudevents_sdk_cpp.Base.{
  ℕ, ◌+◌, ◌-◌, ◌*◌, ◌/◌, ◌%◌, ◌^◌, min, Bool, not, ◌||◌, Option, none, some, [], ◌∷◌, ◌++◌, Bytes,
  codes, length, take, same, ltb, leb, if◌then◌else◌,
}
use cloudevents_sdk_cpp.Base.Words.{add64, sub64, mul64, neg64, biased, less64}
use cloudevents_sdk_cpp.Errors.{Errc, Result, ok, fail, forward_failure, ◌>>=◌}
use cloudevents_sdk_cpp.Decimal.{decimal_text, padded, fixed_digits, to_int}
use cloudevents_sdk_cpp.Calendar.{Date, is_valid_date, day_number, date_of}
use cloudevents_sdk_cpp.Platform.{Captures, Platform}

pub data OffsetForm : Type 0 where
  utc_designator numeric : OffsetForm

pub record Timestamp : Type 0 where
  pub utc : ℕ
  pub offset : ℕ
  pub form : OffsetForm
  pub fractional_digits : ℕ

abbrev pub max_fractional_digits : ℕ
max_fractional_digits = 9

-- `fraction_digits::make`
unfoldable pub make_fraction_digits : ℕ → Result ℕ
make_fraction_digits count =
    if ltb max_fractional_digits count
    then fail Errc.invalid_attribute_value
        "a nanosecond instant expresses at most nine fractional digits" (decimal_text count)
    else ok count

abbrev pub nanoseconds_per_second : ℕ
nanoseconds_per_second = 10 ^ 9

-- the loop over the digits of the fraction
unfoldable pub subsecond : ℕ → ℕ → Bytes → ℕ
subsecond place total [] = total
subsecond place total (digit ∷ digits) =
    subsecond (place / 10) (total + place * (digit - b'0')) digits

-- the number of digits and the nanoseconds of the fraction
unfoldable pub read_fraction : Bytes → Option Bytes → Result (ℕ × ℕ)
read_fraction text none = ok (0, 0)
read_fraction text (some digits) = do
  counted ← forward_failure (make_fraction_digits (length digits)) text
  ok (counted, subsecond (nanoseconds_per_second / 10) 0 digits)

abbrev pub signed_offset : Bytes → ℕ → ℕ
signed_offset sign offset = if same sign (codes "-") then neg64 offset else offset

unfoldable pub read_offset : Bytes → Captures → Result (OffsetForm × ℕ)
read_offset text match_ =
    let offset_hour = to_int 0 match_.offset_hour in
    let offset_minute = to_int 0 match_.offset_minute in
    if match_.utc_designator
    then ok (utc_designator, 0)
    else if ltb 23 offset_hour || ltb 59 offset_minute
    then fail Errc.invalid_timestamp "offset out of range" text
    else ok (numeric, signed_offset match_.offset_sign (offset_hour * 60 + offset_minute))

abbrev pub epoch_day : ℕ
epoch_day = 719528

-- seconds since 1970-01-01T00:00:00Z of a local day and time at an offset in minutes
unfoldable pub since_epoch : ℕ → ℕ → ℕ → ℕ
since_epoch day time_of_day offset =
    sub64 (add64 (mul64 (sub64 day epoch_day) 86400) time_of_day) (mul64 offset 60)

-- the largest number of whole seconds that nanoseconds can count, less one
abbrev pub representable : ℕ
representable = (2 ^ 63 - 1) / 10 ^ 9 - 1

unfoldable pub make_timestamp : Bytes → ℕ → ℕ × ℕ → OffsetForm × ℕ → Result Timestamp
make_timestamp text seconds (digits, nanos) (form, offset) =
    if less64 representable seconds || less64 seconds (neg64 representable)
    then fail Errc.out_of_range
        "instant is outside the range a nanosecond-resolution clock can represent (roughly the years 1678 to 2262)"
        text
    else ok (record {
      utc = add64 (mul64 seconds nanoseconds_per_second) nanos;
      offset = offset;
      form = form;
      fractional_digits = digits;
    })

unfoldable pub parse_captures : Bytes → Captures → Result Timestamp
parse_captures text match_ =
    let year = to_int 0 match_.year in
    let month = to_int 0 match_.month in
    let day = to_int 0 match_.day in
    let hour = to_int 0 match_.hour in
    let minute = to_int 0 match_.minute in
    let second = to_int 0 match_.second in
    if not (is_valid_date year month day)
    then fail Errc.invalid_timestamp "no such calendar date" text
    else if ltb 23 hour || ltb 59 minute
    then fail Errc.invalid_timestamp "hour or minute out of range" text
    else if ltb 60 second
    then fail Errc.invalid_timestamp "second out of range" text
    else (do
      fraction ← read_fraction text match_.fraction
      offset ← read_offset text match_
      make_timestamp text
          (since_epoch (day_number year month day) (hour * 3600 + minute * 60 + second) offset.1)
          fraction offset)

abbrev pub parse_match : Bytes → Option Captures → Result Timestamp
parse_match text none = fail Errc.invalid_timestamp "not an RFC 3339 date-time" text
parse_match text (some match_) = parse_captures text match_

unfoldable pub parse_timestamp : Platform → Bytes → Result Timestamp
parse_timestamp P text = parse_match text (P.match_rfc3339 text)

abbrev pub nanoseconds_per_day : ℕ
nanoseconds_per_day = 86400 * 10 ^ 9

-- The word zero stands for 1970-01-01. Counted from the whole day `first_day` days before it, which
-- is before every instant, the signed count of nanoseconds is a natural number.
abbrev pub first_day : ℕ
first_day = 106752

abbrev pub from_first_day : ℕ → ℕ
from_first_day local = biased local + (first_day * nanoseconds_per_day - 2 ^ 63)

-- `value.utc + value.offset`, which wraps where the sum overflows
unfoldable pub local_time : Timestamp → ℕ
local_time value = add64 value.utc (mul64 value.offset (60 * 10 ^ 9))

unfoldable pub local_date : ℕ → Date
local_date local = date_of (from_first_day local / nanoseconds_per_day + (epoch_day - first_day))

abbrev pub since_midnight : ℕ → ℕ
since_midnight local = from_first_day local % nanoseconds_per_day

unfoldable pub fraction_text : ℕ → ℕ → Bytes
fraction_text count nanos =
    if ltb 0 count
    then b'.' ∷ take (min count max_fractional_digits) (fixed_digits max_fractional_digits nanos)
    else []

abbrev pub is_negative : ℕ → Bool
is_negative word = leb (2 ^ 63) word

abbrev pub offset_text : OffsetForm → ℕ → Bytes
offset_text utc_designator offset = codes "Z"
offset_text numeric offset =
    let magnitude = if is_negative offset then neg64 offset else offset in
    (if is_negative offset then codes "-" else codes "+")
    ++ padded 2 (magnitude / 60)
    ++ codes ":"
    ++ padded 2 (magnitude % 60)

abbrev pub date_text : Date → Bytes
date_text ymd =
    padded 4 ymd.year ++ codes "-" ++ padded 2 ymd.month ++ codes "-" ++ padded 2 ymd.day

-- the hours, minutes and seconds of the nanoseconds since midnight
abbrev pub time_text : ℕ → Bytes
time_text midnight =
    let seconds = midnight / 10 ^ 9 in
    padded 2 (seconds / 3600)
    ++ codes ":"
    ++ padded 2 (seconds / 60 % 60)
    ++ codes ":"
    ++ padded 2 (seconds % 60)

-- `to_string`
unfoldable pub timestamp_text : Timestamp → Bytes
timestamp_text value =
    let local = local_time value in
    date_text (local_date local)
    ++ codes "T"
    ++ time_text (since_midnight local)
    ++ fraction_text value.fractional_digits (since_midnight local % 10 ^ 9)
    ++ offset_text value.form value.offset
