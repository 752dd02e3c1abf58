-- ===== src/Protobuf/Values.antt =====
-- An attribute value written is read back.
use cloudevents_sdk_cpp.Base.{
  ℕ, ◌+◌, ◌-◌, ◌*◌, ◌^◌, ◌<◌, ◌≤◌, ◌≡◌, refl, ap, arith, true, false, inl, inr, Bool-cases, ==_iff,
  lt→ltb, le→ltb, some, none, List, [], ◌∷◌, ◌++◌, All, length, ◌==◌, if◌then◌else◌,
}
use cloudevents_sdk_cpp.Base.Words.{add64, mul64, neg64, biased}
use cloudevents_sdk_cpp.Errors.{ok}
use cloudevents_sdk_cpp.Utf8.{is_valid_utf8}
use cloudevents_sdk_cpp.Wire.{read_text}
use cloudevents_sdk_cpp.Timestamp.{Timestamp, utc_designator, representable, nanoseconds_per_second}
use cloudevents_sdk_cpp.Event.{
  Int32, pos, negsuc, AttributeValue, boolean, int32, string, binary, uri, uri_ref, instant,
}
use cloudevents_sdk_cpp.Protobuf.Value.{
  digits_holding, make_instant, timestamp_visit, read_timestamp, read_integer, read_varint_arm,
  read_text_arm, read_length_arm, value_visit, read_value, int_word, floor_seconds, nanos_of,
  timestamp_body, put_arm, encode_value,
}
use cloudevents_sdk_cpp.Protobuf.Visits.{
  Written, number_field, bytes_field, Fits, IsNumbered, write, write_all, visit_all, Fits-within,
  for_each_field-write_all,
}

-- The seconds of the instant are ones that `make_instant` takes: the biased count of nanoseconds is
-- that of no more than `representable` seconds before or behind the epoch.
abbrev pub InRange : Timestamp → Type 0
InRange t =
    (t.utc < 2 ^ 64)
    × (2 ^ 63 - representable * 10 ^ 9 ≤ biased t.utc)
    × (biased t.utc < 2 ^ 63 + (representable + 1) * 10 ^ 9)

abbrev pub IsWritable : AttributeValue → Type 0
IsWritable (boolean value) = Unit
IsWritable (int32 (pos n)) = n < 2 ^ 31
IsWritable (int32 (negsuc n)) = n < 2 ^ 31
IsWritable (string text) = is_valid_utf8 text ≡ true
IsWritable (binary octets) = Unit
IsWritable (uri text) = is_valid_utf8 text ≡ true
IsWritable (uri_ref text) = is_valid_utf8 text ≡ true
IsWritable (instant t) = InRange t

abbrev pub utc_instant : Timestamp → Timestamp
utc_instant t = record {
  utc = t.utc;
  offset = 0;
  form = utc_designator;
  fractional_digits = digits_holding (nanos_of t.utc);
}

-- the same value, but for an instant its offset and its number of digits, which the wire leaves out
abbrev pub read_back : AttributeValue → AttributeValue
read_back (instant t) = instant (utc_instant t)
read_back value = value

abbrev numbered : ℕ → ℕ → List Written
numbered number value = if value == 0 then [] else number_field number value ∷ []

abbrev timestamp_fields : Timestamp → List Written
timestamp_fields t = numbered 1 (floor_seconds t.utc) ++ numbered 2 (nanos_of t.utc)

timestamp_body-write_all : (t : Timestamp) → timestamp_body t ≡ write_all [] (timestamp_fields t)
unfolding timestamp_body write_all write
timestamp_body-write_all t = elim (Bool-cases (floor_seconds t.utc == 0)) [
  | inl p ↦ elim (Bool-cases (nanos_of t.utc == 0)) [
    | inl q ↦ rw (p, q) refl
    | inr q ↦ rw (p, q) refl
  ]
  | inr p ↦ elim (Bool-cases (nanos_of t.utc == 0)) [
    | inl q ↦ rw (p, q) refl
    | inr q ↦ rw (p, q) refl
  ]
]

-- the biased count of nanoseconds, and the seconds and nanoseconds made of it
seconds_biased :
    (t : Timestamp)
    → InRange t
    → (biased (floor_seconds t.utc) ≤ 2 ^ 63 + representable)
      × (2 ^ 63 - representable ≤ biased (floor_seconds t.utc))
      × (add64 (mul64 (floor_seconds t.utc) nanoseconds_per_second) (nanos_of t.utc) ≡ t.utc)
seconds_biased t h = (omega arith, omega arith, omega arith)

make_instant-InRange :
    (t : Timestamp)
    → InRange t
    → make_instant (floor_seconds t.utc) (nanos_of t.utc) ≡ ok (utc_instant t)
unfolding make_instant
make_instant-InRange t h =
    let (most, least, same_utc) = seconds_biased t h in
    rw
      (
        le→ltb (biased (nanos_of t.utc)) (biased 0) (omega arith),
        lt→ltb (biased (nanos_of t.utc)) (biased nanoseconds_per_second) (omega arith),
        le→ltb (biased representable) (biased (floor_seconds t.utc)) (omega arith),
        le→ltb (biased (floor_seconds t.utc)) (biased (neg64 representable)) (omega arith),
      )
      (ap
        (λ (u : ℕ). ok (record {
          utc = u;
          offset = 0;
          form = utc_designator;
          fractional_digits = digits_holding (nanos_of t.utc);
        }))
        same_utc)

timestamp_fields-Fits : (t : Timestamp) → All Fits (timestamp_fields t)
timestamp_fields-Fits t = elim (Bool-cases (floor_seconds t.utc == 0)) [
  | inl p ↦ elim (Bool-cases (nanos_of t.utc == 0)) [
    | inl q ↦ rw (p, q) tt
    | inr q ↦ rw (p, q) (omega arith)
  ]
  | inr p ↦ elim (Bool-cases (nanos_of t.utc == 0)) [
    | inl q ↦ rw (p, q) (omega arith)
    | inr q ↦ rw (p, q) (omega arith)
  ]
]

timestamp_fields-visited :
    (t : Timestamp)
    → visit_all timestamp_visit (0, 0) (timestamp_fields t)
      ≡ ok (floor_seconds t.utc, nanos_of t.utc)
unfolding visit_all
timestamp_fields-visited t = elim (Bool-cases (floor_seconds t.utc == 0)) [
  | inl p ↦ elim (Bool-cases (nanos_of t.utc == 0)) [
    | inl q ↦ rw (p, q, (==_iff (floor_seconds t.utc) 0).0 p, (==_iff (nanos_of t.utc) 0).0 q) refl
    | inr q ↦ rw (p, q, (==_iff (floor_seconds t.utc) 0).0 p) refl
  ]
  | inr p ↦ elim (Bool-cases (nanos_of t.utc == 0)) [
    | inl q ↦ rw (p, q, (==_iff (nanos_of t.utc) 0).0 q) refl
    | inr q ↦ rw (p, q) refl
  ]
]

pub read_timestamp-timestamp_body :
    (t : Timestamp) → InRange t → read_timestamp (timestamp_body t) ≡ ok (utc_instant t)
unfolding read_timestamp
read_timestamp-timestamp_body t h =
    rw
      (
        timestamp_body-write_all t,
        for_each_field-write_all timestamp_visit (timestamp_fields t) (0, 0)
            (timestamp_fields-Fits t),
        timestamp_fields-visited t,
      )
      (make_instant-InRange t h)

-- the field of the arm of a value
abbrev arm_field : AttributeValue → Written
arm_field (boolean value) = number_field 1 (if value then 1 else 0)
arm_field (int32 value) = number_field 2 (int_word value)
arm_field (string text) = bytes_field 3 text
arm_field (binary octets) = bytes_field 4 octets
arm_field (uri text) = bytes_field 5 text
arm_field (uri_ref text) = bytes_field 6 text
arm_field (instant t) = bytes_field 7 (timestamp_body t)

encode_value-write_all : (v : AttributeValue) → encode_value v ≡ write_all [] (arm_field v ∷ [])
unfolding encode_value put_arm write_all write
encode_value-write_all (boolean value) = refl
encode_value-write_all (int32 value) = refl
encode_value-write_all (string text) = refl
encode_value-write_all (binary octets) = refl
encode_value-write_all (uri text) = refl
encode_value-write_all (uri_ref text) = refl
encode_value-write_all (instant t) = refl

arm_field-IsNumbered : (v : AttributeValue) → IsWritable v → IsNumbered (arm_field v)
arm_field-IsNumbered (boolean true) h = omega arith
arm_field-IsNumbered (boolean false) h = omega arith
arm_field-IsNumbered (int32 (pos n)) h = omega arith
arm_field-IsNumbered (int32 (negsuc n)) h = omega arith
arm_field-IsNumbered (string text) h = omega arith
arm_field-IsNumbered (binary octets) h = omega arith
arm_field-IsNumbered (uri text) h = omega arith
arm_field-IsNumbered (uri_ref text) h = omega arith
arm_field-IsNumbered (instant t) h = omega arith

read_integer-int_word :
    (i : Int32) → IsWritable (int32 i) → read_integer (int_word i) ≡ ok (int32 i)
unfolding read_integer
read_integer-int_word (pos n) h = ground arith
read_integer-int_word (negsuc n) h = ground arith

arm_field-visited :
    (v : AttributeValue)
    → IsWritable v
    → visit_all value_visit none (arm_field v ∷ []) ≡ ok (some (read_back v))
unfolding visit_all read_varint_arm read_length_arm read_text_arm read_text
arm_field-visited (boolean true) h = refl
arm_field-visited (boolean false) h = refl
arm_field-visited (int32 i) h = rw (read_integer-int_word i h) refl
arm_field-visited (string text) h = rw h refl
arm_field-visited (binary octets) h = refl
arm_field-visited (uri text) h = rw h refl
arm_field-visited (uri_ref text) h = rw h refl
arm_field-visited (instant t) h = rw (read_timestamp-timestamp_body t h) refl

-- A value written as a `CloudEventAttributeValue` is read back, whatever its type, when its integer
-- is one of 32 bits, its text is UTF-8 and its instant is in the range that the reader takes. What
-- changes is an instant's offset, which becomes UTC, and its number of fractional digits, which
-- becomes the fewest of 0, 3, 6 and 9 that hold its nanoseconds.
pub read_value-encode_value :
    (v : AttributeValue)
    → IsWritable v
    → length (encode_value v) < 2 ^ 64
    → read_value (encode_value v) ≡ ok (some (read_back v))
unfolding read_value
read_value-encode_value v h k =
    rw
      (
        encode_value-write_all v,
        for_each_field-write_all value_visit (arm_field v ∷ []) none (
            Fits-within (arm_field v ∷ []) (arm_field-IsNumbered v h, tt)
              (rw (encode_value-write_all v) at k)),
      )
      (arm_field-visited v h)
