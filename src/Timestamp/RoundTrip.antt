-- ===== src/Timestamp/RoundTrip.antt =====
-- A timestamp written as text and parsed.
use cloudevents_sdk_cpp.Base.{
  ℕ, ◌+◌, ◌-◌, ◌*◌, ◌/◌, ◌%◌, ◌^◌, ◌≤◌, ◌<◌, ◌≡◌, refl, ap, ◌∙◌, arith, Bool, true, false, some, [],
  ◌++◌, Bytes, le→ltb, if◌then◌else◌, codes,
}
use cloudevents_sdk_cpp.Base.Words.{add64, mul64, neg64, biased}
use cloudevents_sdk_cpp.Errors.{ok}
use cloudevents_sdk_cpp.Decimal.{fixed_digits, to_int}
use cloudevents_sdk_cpp.Decimal.Fixed.{padded_two, padded_four, to_int-fixed_digits}
use cloudevents_sdk_cpp.Calendar.{
  Date, is_valid_date, day_number, date_of, month_length, days_before_year,
}
use cloudevents_sdk_cpp.Calendar.Dates.{year_of_range, date_of-HasDay}
use cloudevents_sdk_cpp.Platform.{Captures, Platform}
use cloudevents_sdk_cpp.Timestamp.{
  Timestamp, OffsetForm, utc_designator, numeric, since_epoch, representable, make_timestamp,
  parse_captures, parse_timestamp, local_time, local_date, since_midnight, read_offset,
  read_fraction, signed_offset, timestamp_text, nanoseconds_per_second,
}
use cloudevents_sdk_cpp.Timestamp.Digits.{
  unshown, fraction_group, fraction_part, fraction_text-group, read_fraction-group, magnitude_of,
  sign_of, IsOffset, offset_part, offset_text-part, signed_offset-magnitude,
}
use cloudevents_sdk_cpp.Timestamp.Instant.{
  day_of_local, seconds_of_local, IsRepresentable, HasLocal, local-IsShifted, since_epoch-local,
  since_epoch_range, day_of_local_bounds,
}

-- What the digits of a date need.
date_bounds :
    (n : ℕ)
    → 600000 ≤ n
    → n < 900000
    → (1000 ≤ (date_of n).year)
      × ((date_of n).year < 10000)
      × ((date_of n).month < 100)
      × ((date_of n).day < 100)
unfolding date_of days_before_year is_valid_date month_length
date_bounds n h k =
    let d = date_of-HasDay n in
    let range = year_of_range n in (omega arith, omega arith, ground arith, ground arith)

abbrev is_utc : OffsetForm → Bool
is_utc utc_designator = true
is_utc numeric = false

abbrev numeric_group : OffsetForm → Bytes → Bytes
numeric_group utc_designator text = []
numeric_group numeric text = text

local_day : Timestamp → Date
local_day t = date_of (day_of_local (local_time t))

abbrev local_seconds : Timestamp → ℕ
local_seconds t = seconds_of_local (local_time t)

abbrev local_nanos : Timestamp → ℕ
local_nanos t = since_midnight (local_time t) % 10 ^ 9

-- The groups of the text of a timestamp: each number of its local date and time in digits of its own.
unfoldable pub captures_of : Timestamp → Captures
unfolding local_day
captures_of t = record {
  year = fixed_digits 4 (local_day t).year;
  month = fixed_digits 2 (local_day t).month;
  day = fixed_digits 2 (local_day t).day;
  hour = fixed_digits 2 (local_seconds t / 3600);
  minute = fixed_digits 2 (local_seconds t / 60 % 60);
  second = fixed_digits 2 (local_seconds t % 60);
  fraction = fraction_group t.fractional_digits (local_nanos t);
  utc_designator = is_utc t.form;
  offset_sign = numeric_group t.form (sign_of t.offset);
  offset_hour = numeric_group t.form (fixed_digits 2 (magnitude_of t.offset / 60));
  offset_minute = numeric_group t.form (fixed_digits 2 (magnitude_of t.offset % 60));
}

-- the text of which the groups are those of `rfc3339_pattern`
abbrev pub groups_text : Captures → Bytes
groups_text c =
    (c.year ++ codes "-" ++ c.month ++ codes "-" ++ c.day)
    ++ codes "T"
    ++ (c.hour ++ codes ":" ++ c.minute ++ codes ":" ++ c.second)
    ++ fraction_part c.fraction
    ++ (if c.utc_designator
        then codes "Z"
        else c.offset_sign ++ c.offset_hour ++ codes ":" ++ c.offset_minute)

-- An instant in the range of `parse_timestamp`, whose local time is in the range of nanoseconds, at
-- an offset of less than a day, which is 0 in the form `Z`, with at most nine digits.
pub record IsWritten (t : Timestamp) : Type 0 where
  pub range : IsRepresentable t.utc
  pub has_local : HasLocal t.utc t.offset
  pub offset : IsOffset t.form t.offset
  pub digits : t.fractional_digits ≤ 9

-- The timestamp without the nanoseconds that its digits do not show.
unfoldable pub shown : Timestamp → Timestamp
shown t = record t { utc = add64 t.utc (neg64 (unshown t.fractional_digits (local_nanos t))) }

-- What `rfc3339_pattern` does with the text of a timestamp: it matches, and each group is the number
-- that stands in its place.
abbrev pub HasGroups : Platform → Timestamp → Type 0
HasGroups P t = P.match_rfc3339 (groups_text (captures_of t)) ≡ some (captures_of t)

offset_part-groups :
    (form : OffsetForm) (offset : ℕ)
    → offset_part form offset ≡ (
        if is_utc form
        then codes "Z"
        else numeric_group form (sign_of offset)
          ++ numeric_group form (fixed_digits 2 (magnitude_of offset / 60))
          ++ codes ":"
          ++ numeric_group form (fixed_digits 2 (magnitude_of offset % 60)))
unfolding offset_part
offset_part-groups utc_designator offset = refl
offset_part-groups numeric offset = refl

seconds_below : (local : ℕ) → seconds_of_local local < 86400
seconds_below local = omega arith

timestamp_text-groups :
    (t : Timestamp) → IsWritten t → timestamp_text t ≡ groups_text (captures_of t)
unfolding timestamp_text captures_of local_day local_date
timestamp_text-groups t h =
    let (least, most) = day_of_local_bounds (local_time t) in
    let (a, b, c, d) = date_bounds (day_of_local (local_time t)) least most in
    let below = seconds_below (local_time t) in
    rw
      (
        padded_four (local_day t).year a b,
        padded_two (local_day t).month c,
        padded_two (local_day t).day d,
        padded_two (local_seconds t / 3600) (omega arith),
        padded_two (local_seconds t / 60 % 60) (omega arith),
        padded_two (local_seconds t % 60) (omega arith),
        fraction_text-group t.fractional_digits (local_nanos t) h.digits,
        offset_text-part t.form t.offset h.offset,
        offset_part-groups t.form t.offset,
      )
      refl

whole_minutes : (m : ℕ) → m / 60 * 60 + m % 60 ≡ m
whole_minutes m = omega arith

read_offset-form :
    (text : Bytes) (form : OffsetForm) (t : Timestamp)
    → IsOffset form t.offset
    → read_offset text (captures_of (record t { form = form })) ≡ ok (form, t.offset)
unfolding read_offset captures_of
read_offset-form text utc_designator t h = rw h refl
read_offset-form text numeric t (word, day) =
    let m = magnitude_of t.offset in
    rw
      (
        to_int-fixed_digits 2 (m / 60) (omega arith),
        to_int-fixed_digits 2 (m % 60) (omega arith),
        le→ltb 23 (m / 60) (omega arith),
        le→ltb 59 (m % 60) (omega arith),
      )
      (ap (λ (n : ℕ). ok (numeric, signed_offset (sign_of t.offset) n)) (whole_minutes m)
        ∙ ap (λ (n : ℕ). ok (numeric, n)) (signed_offset-magnitude t.offset word))

-- What `parse_captures` does once each group is read.
parse_captures-read :
    (text : Bytes) (c : Captures) (fraction : ℕ × ℕ) (offset : OffsetForm × ℕ)
    → is_valid_date (to_int 0 c.year) (to_int 0 c.month) (to_int 0 c.day) ≡ true
    → to_int 0 c.hour ≤ 23
    → to_int 0 c.minute ≤ 59
    → to_int 0 c.second ≤ 60
    → read_fraction text c.fraction ≡ ok fraction
    → read_offset text c ≡ ok offset
    → parse_captures text c
      ≡ make_timestamp text
          (since_epoch
            (day_number (to_int 0 c.year) (to_int 0 c.month) (to_int 0 c.day))
            (to_int 0 c.hour * 3600 + to_int 0 c.minute * 60 + to_int 0 c.second)
            offset.1)
          fraction
          offset
unfolding parse_captures
parse_captures-read text c fraction offset valid h m s f o =
    rw
      (
        valid,
        le→ltb 23 (to_int 0 c.hour) h,
        le→ltb 59 (to_int 0 c.minute) m,
        le→ltb 60 (to_int 0 c.second) s,
        f,
        o,
      )
      refl

hour_parts : (sec : ℕ) → sec < 86400 → sec / 3600 * 3600 + sec / 60 % 60 * 60 + sec % 60 ≡ sec
hour_parts sec h = omega arith

make_timestamp-representable :
    (text : Bytes) (seconds : ℕ) (fraction : ℕ × ℕ) (offset : OffsetForm × ℕ)
    → biased seconds ≤ 2 ^ 63 + representable
    → 2 ^ 63 - representable ≤ biased seconds
    → make_timestamp text seconds fraction offset
      ≡ ok (record {
        utc = add64 (mul64 seconds nanoseconds_per_second) fraction.1;
        offset = offset.1;
        form = offset.0;
        fractional_digits = fraction.0;
      })
unfolding make_timestamp
make_timestamp-representable text seconds fraction offset h k =
    rw
      (
        le→ltb (biased representable) (biased seconds) h,
        le→ltb (biased seconds) (biased (neg64 representable)) k,
      )
      refl

-- Fewer nanoseconds behind the second make an instant so much earlier.
without_nanos :
    (second nanos hidden : ℕ)
    → hidden ≤ nanos
    → nanos < 10 ^ 9
    → add64 second (nanos - hidden) ≡ add64 (add64 second nanos) (neg64 hidden)
without_nanos second nanos hidden h k = omega arith

local_nanos_below : (t : Timestamp) → local_nanos t < 10 ^ 9
local_nanos_below t = omega arith

unshown_within : (count nanos : ℕ) → unshown count nanos ≤ nanos
unshown_within count nanos = omega arith

parse_captures-groups :
    (text : Bytes) (t : Timestamp)
    → IsWritten t
    → parse_captures text (captures_of t) ≡ ok (shown t)
unfolding captures_of local_day local_time shown
parse_captures-groups text t h =
    let local = local_time t in
    let (least, most) = day_of_local_bounds local in
    let (a, b, c, d) = date_bounds (day_of_local local) least most in
    let below = seconds_below local in
    let day = date_of-HasDay (day_of_local local) in
    let shifted = local-IsShifted t.utc t.offset h.range.0 h.has_local in
    let (high, low) = since_epoch_range t.utc t.offset local h.range shifted in
    let year_read = to_int-fixed_digits 4 (local_day t).year b in
    let month_read = to_int-fixed_digits 2 (local_day t).month c in
    let day_read = to_int-fixed_digits 2 (local_day t).day d in
    let hour_read = to_int-fixed_digits 2 (local_seconds t / 3600) (omega arith) in
    let minute_read = to_int-fixed_digits 2 (local_seconds t / 60 % 60) (omega arith) in
    let second_read = to_int-fixed_digits 2 (local_seconds t % 60) (omega arith) in
    let hidden = unshown t.fractional_digits (local_nanos t) in
    parse_captures-read text (captures_of t) (t.fractional_digits, local_nanos t - hidden)
      (t.form, t.offset) (rw (year_read, month_read, day_read) day.valid)
      (rw hour_read (omega arith)) (rw minute_read (omega arith)) (rw second_read (omega arith))
      (read_fraction-group text t.fractional_digits (local_nanos t) (h.digits, local_nanos_below t))
      (read_offset-form text t.form t h.offset)
    ∙ rw
        (
          year_read,
          month_read,
          day_read,
          hour_read,
          minute_read,
          second_read,
          day.number,
          hour_parts (local_seconds t) below,
          make_timestamp-representable text
              (since_epoch (day_of_local local) (local_seconds t) t.offset)
              (t.fractional_digits, local_nanos t - hidden) (t.form, t.offset) high low,
          without_nanos
              (mul64 (since_epoch (day_of_local local) (local_seconds t) t.offset)
                nanoseconds_per_second)
              (local_nanos t) hidden (unshown_within t.fractional_digits (local_nanos t))
              (local_nanos_below t),
          since_epoch-local t.utc t.offset local h.range.0 shifted,
        )
        refl

-- Parsing the text that to_string writes for a timestamp gives the timestamp back, its offset, form
-- and number of digits included, without the nanoseconds that its digits do not show, when its
-- instant is in the range of parse_timestamp, its local time in that of 64 bits of nanoseconds, its
-- offset less than a day, and 0 if the form is the UTC designator, and its digits are at most nine.
-- The pattern is assumed to match the text and to give each of its numbers as its group.
pub parse_timestamp-timestamp_text :
    (P : Platform) (t : Timestamp)
    → IsWritten t
    → HasGroups P t
    → parse_timestamp P (timestamp_text t) ≡ ok (shown t)
unfolding parse_timestamp
parse_timestamp-timestamp_text P t h matched =
    rw (timestamp_text-groups t h, matched) (parse_captures-groups _ t h)
