-- ===== src/Examples/Messages.antt =====
-- Protobuf messages and dates at concrete inputs.
use cloudevents_sdk_cpp.Base.{
  ◌*◌, ◌+◌, ◌-◌, ◌^◌, ◌++◌, ◌<◌, ◌≤◌, ◌≡◌, refl, arith, inr, true, none, some, [], ◌∷◌, Bytes,
  length, codes,
}
use cloudevents_sdk_cpp.Base.Order.{lt_wf}
use native.Mathlib.Decide.{dec_lt}
use cloudevents_sdk_cpp.Base.Lists.{same}
use cloudevents_sdk_cpp.Errors.{ok, ◌>>=◌}
use cloudevents_sdk_cpp.Utf8.{
  is_valid_utf8, valid_loop, read_utf8_lead, continuations, utf8_code_point_allowed,
}
use cloudevents_sdk_cpp.Maps.{emplace, insert_or_assign, less}
use cloudevents_sdk_cpp.Maps.Emplaced.{emplace_all}
use cloudevents_sdk_cpp.Wire.{
  add_group, skippable, read_varint, varint_loop, read_header, read_length_delimited, read_text,
  put_varint, put_tag, put_varint_field, put_field,
}
use cloudevents_sdk_cpp.Decimal.{fixed_digits, padded, decimal_text, decimal_digits}
use cloudevents_sdk_cpp.Timestamp.{
  Timestamp, OffsetForm, parse_timestamp, timestamp_text, local_time, local_date, fraction_text,
}
use cloudevents_sdk_cpp.Timestamp.RoundTrip.{
  shown, IsWritten, HasGroups, captures_of, parse_timestamp-timestamp_text,
}
use cloudevents_sdk_cpp.Calendar.{
  date_of, year_of, find_month, is_leap, month_length, days_before_year,
}
use cloudevents_sdk_cpp.Attributes.{
  datacontenttype_policy, reserved_name, check_text, make, store_attribute, make_spec_version,
}
use cloudevents_sdk_cpp.Event.{Event, int32, pos, instant, DataT, build}
use cloudevents_sdk_cpp.Binding.Collected.{Passes, Each}
use cloudevents_sdk_cpp.Binding.ProtobufStructured.{
  media_type_essence, encode_protobuf_structured, decode_protobuf_structured,
}
use cloudevents_sdk_cpp.Binding.Essence.{
  parameters, media_type_essence-declared, decode_protobuf_structured-encode,
}
use cloudevents_sdk_cpp.Kafka.{kafka_traits}
use cloudevents_sdk_cpp.Protobuf.{read_field, for_each_field, for_each_loop}
use cloudevents_sdk_cpp.Protobuf.Value.{
  encode_value, put_arm, timestamp_body, read_value, read_integer, read_varint_arm,
}
use cloudevents_sdk_cpp.Protobuf.Scan.{
  DecodeOptions, default_options, store_required, store_attribute_entry, store_field, read_entry,
  scan_event,
}
use cloudevents_sdk_cpp.Protobuf.Decode.{
  decode_event, decode_events, apply_attribute, apply_attributes, build_event, scan_limited,
}
use cloudevents_sdk_cpp.Protobuf.Encode.{
  encode, encode_batch, encode_event, encode_attributes, emplace_extensions, put_entry, put_entries,
  put_data, proto_type_url,
}
use cloudevents_sdk_cpp.Protobuf.Values.{read_back, read_value-encode_value}
use cloudevents_sdk_cpp.Protobuf.Context.{IsCarried, attributes_list, context_list}
use cloudevents_sdk_cpp.Protobuf.Fields.{text_of}
use cloudevents_sdk_cpp.Protobuf.RoundTrip.{read_event, decode_event-encode_event}
use cloudevents_sdk_cpp.Protobuf.Limits.{too_many, decode_event-too_many}
use cloudevents_sdk_cpp.Protobuf.Batch.{IsAccepted, decode_events-encode_batch}
use cloudevents_sdk_cpp.Protobuf.Decoded.{decode_event-IsCarried, decode_event-stable}
use cloudevents_sdk_cpp.Examples.Sample.{sample, day_two, greeting, greeting-IsValid}

length-day_two : length (encode_value (instant day_two)) ≡ 6
unfolding encode_value put_arm timestamp_body put_varint_field put_field put_tag put_varint lt_wf
    dec_lt
length-day_two = refl

read_value-encode_value_example :
    read_value (encode_value (instant day_two)) ≡ ok (some (read_back (instant day_two)))
read_value-encode_value_example =
    read_value-encode_value (instant day_two) (omega arith) (omega (arith, length-day_two))

name_utf8 : is_valid_utf8 (codes "ext") ≡ true
unfolding is_valid_utf8 valid_loop read_utf8_lead continuations utf8_code_point_allowed
name_utf8 = refl

greeting-IsCarried : IsCarried greeting
greeting-IsCarried = record {
  id = greeting-IsValid.id;
  source = greeting-IsValid.source;
  type = greeting-IsValid.type;
  dataschema = tt;
  subject = greeting-IsValid.subject;
  time = omega arith;
  media_type = greeting-IsValid.media_type;
  names = greeting-IsValid.names;
  writable = ((name_utf8, tt), tt);
  ordered = greeting-IsValid.ordered;
}

length-greeting : length (encode_event greeting (proto_type_url greeting)) ≡ 97
unfolding encode_event encode_attributes emplace_extensions put_entry put_entries put_data
    proto_type_url encode_value put_arm timestamp_body put_varint_field put_field put_tag put_varint
    lt_wf dec_lt emplace less
length-greeting = refl

greeting-IsAccepted : IsAccepted default_options greeting
unfolding is_valid_utf8 valid_loop read_utf8_lead continuations utf8_code_point_allowed
    attributes_list context_list emplace_all emplace less
greeting-IsAccepted = record {
  carried = greeting-IsCarried;
  text = refl;
  count = omega arith;
  size = omega (arith, length-greeting);
}

decode_event-encode_event_example :
    (encode greeting >>= decode_event default_options) ≡ ok (read_event greeting)
decode_event-encode_event_example =
    decode_event-encode_event default_options greeting greeting-IsCarried greeting-IsAccepted.text
      greeting-IsAccepted.count greeting-IsAccepted.size (omega arith)

decode_events-encode_batch_example :
    (encode_batch (greeting ∷ greeting ∷ []) >>= decode_events default_options)
    ≡ ok (read_event greeting ∷ read_event greeting ∷ [])
decode_events-encode_batch_example =
    decode_events-encode_batch default_options (greeting ∷ greeting ∷ [])
      (greeting-IsAccepted, (greeting-IsAccepted, tt)) (omega arith) (omega arith)

-- an event with one extension, the integer 5
abbrev note : Event sample
note = record {
  id = codes "1";
  source = codes "/s";
  type = codes "t";
  rest = record {
    datacontenttype = none;
    dataschema = none;
    subject = none;
    time = none;
    extensions = (codes "a", int32 (pos 5)) ∷ [];
    payload = DataT.monostate;
  };
}

abbrev note_bytes : Bytes
note_bytes =
    10 ∷ 1 ∷ 49 ∷ 18 ∷ 2 ∷ 47 ∷ 115 ∷ 26 ∷ 3 ∷ 49 ∷ 46 ∷ 48 ∷ 34 ∷ 1 ∷ 116 ∷ 42 ∷ 7 ∷ 10 ∷ 1 ∷ 97
    ∷ 18 ∷ 2 ∷ 16 ∷ 5 ∷ []

note_decoded : decode_event default_options note_bytes ≡ ok note
unfolding decode_event scan_limited scan_event for_each_field for_each_loop read_field read_header
    read_varint varint_loop read_length_delimited store_field store_required store_attribute_entry
    read_entry read_text read_value read_varint_arm read_integer is_valid_utf8 valid_loop
    read_utf8_lead continuations utf8_code_point_allowed insert_or_assign build_event
    make_spec_version store_attribute make check_text apply_attributes apply_attribute same
    reserved_name build add_group skippable
note_decoded = refl

protobuf_type : Passes (datacontenttype_policy sample) (codes "application/protobuf")
unfolding check_text is_valid_utf8 valid_loop read_utf8_lead continuations utf8_code_point_allowed
protobuf_type = refl

decode_event-IsCarried_example :
    IsCarried note
    × Each (λ t. is_valid_utf8 t ≡ true) (text_of note.rest.payload)
    × (read_event note ≡ note)
decode_event-IsCarried_example =
    decode_event-IsCarried default_options note_bytes note (omega arith) protobuf_type note_decoded

length-note : length (encode_event note (proto_type_url note)) ≡ 24
unfolding encode_event encode_attributes emplace_extensions put_entry put_entries put_data
    proto_type_url encode_value put_arm put_varint_field put_field put_tag put_varint lt_wf dec_lt
    emplace less
length-note = refl

note-count : length (attributes_list note) ≤ 1024
unfolding attributes_list context_list emplace_all emplace less
note-count = omega arith

decode_event-stable_example : (encode note >>= decode_event default_options) ≡ ok note
decode_event-stable_example =
    decode_event-stable default_options note_bytes note (omega arith) protobuf_type note_decoded
      note-count (omega (arith, length-note)) (omega arith)

decode_protobuf_structured-encode_example :
    (encode_protobuf_structured kafka_traits greeting
      >>= (λ m. decode_protobuf_structured kafka_traits m default_options))
    ≡ ok (read_event greeting)
decode_protobuf_structured-encode_example =
    decode_protobuf_structured-encode kafka_traits default_options greeting greeting-IsAccepted
      (omega arith)

media_type_essence-declared_example :
    media_type_essence
      (codes " " ++ (codes "text/plain" ++ (codes " " ++ parameters (some (codes " q=1; r")))))
    ≡ codes "text/plain"
media_type_essence-declared_example =
    media_type_essence-declared (codes " ") (codes "text/plain") (codes " ")
      (some (codes " q=1; r")) (ground arith) (ground arith) (ground arith)

-- An evening five hours west of UTC, with three digits of its second, which hide 777 nanoseconds.
abbrev dusk : Timestamp
dusk = record {
  utc = 97445 * 10 ^ 9 + 250 * 10 ^ 6 + 777;
  offset = 2 ^ 64 - 300;
  form = OffsetForm.numeric;
  fractional_digits = 3;
}

dusk_text : timestamp_text dusk ≡ codes "1970-01-01T22:04:05.250-05:00"
unfolding timestamp_text local_time local_date fraction_text padded decimal_text decimal_digits
    date_of year_of find_month is_leap month_length days_before_year fixed_digits
dusk_text = refl

shown-dusk : shown dusk ≡ record dusk { utc = 97445 * 10 ^ 9 + 250 * 10 ^ 6 }
unfolding shown local_time
shown-dusk = refl

dusk-IsWritten : IsWritten dusk
unfolding local_time
dusk-IsWritten = record {
  range = omega arith;
  has_local = inr (omega arith);
  offset = omega arith;
  digits = omega arith;
}

dusk-HasGroups : HasGroups sample dusk
unfolding captures_of local_time fixed_digits date_of year_of find_month is_leap month_length
    days_before_year
dusk-HasGroups = refl

parse_timestamp-timestamp_text_example :
    parse_timestamp sample (timestamp_text dusk) ≡ ok (shown dusk)
parse_timestamp-timestamp_text_example =
    parse_timestamp-timestamp_text sample dusk dusk-IsWritten dusk-HasGroups

abbrev no_attributes : DecodeOptions
no_attributes = record default_options { max_attribute_count = 0 }

note-IsCarried : IsCarried note
note-IsCarried =
    (decode_event-IsCarried default_options note_bytes note (omega arith) protobuf_type
      note_decoded).0

note-too_many : 0 < length (attributes_list note)
unfolding attributes_list context_list emplace_all emplace less
note-too_many = omega arith

decode_event-too_many_example : (encode note >>= decode_event {P = sample} no_attributes) ≡ too_many
decode_event-too_many_example =
    decode_event-too_many no_attributes note note-IsCarried note-too_many
      (omega (arith, length-note)) (omega arith)
