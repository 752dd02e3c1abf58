-- ===== src/Examples/Events.antt =====
-- Messages, events and the bindings at concrete inputs.
use cloudevents_sdk_cpp.Base.{inr, ◌++◌, ◌≡◌, refl, ◌↔◌, none, some, [], ◌∷◌, codes, if◌then◌else◌}
use cloudevents_sdk_cpp.Base.Lists.{same}
use cloudevents_sdk_cpp.Errors.{ok}
use cloudevents_sdk_cpp.Text.{iequals, ascii_lower, starts_with_ignoring_case}
use cloudevents_sdk_cpp.Utf8.{
  is_valid_utf8, valid_loop, read_utf8_lead, continuations, utf8_code_point_allowed,
}
use cloudevents_sdk_cpp.Headers.{
  is_some, find, set, find_exact, set_exact, adopt, NameMatching, RawHeaders, Message,
}
use cloudevents_sdk_cpp.Headers.Lookup.{find-set, find_exact-set_exact}
use cloudevents_sdk_cpp.Headers.Adopt.{adopt_iff, Distinct}
use cloudevents_sdk_cpp.Attributes.{check_text}
use cloudevents_sdk_cpp.Event.{string, set_extension, remove_extension, extension}
use cloudevents_sdk_cpp.Event.Extensions.{Replaces, set_extension_lem, remove_extension_lem}
use cloudevents_sdk_cpp.Binding.{default_options}
use cloudevents_sdk_cpp.Http.{
  percent_encoded_values, literal_values, from_message, from_message_moving, detect_content_mode,
}
use cloudevents_sdk_cpp.Binding.Moving.{left_by}
use cloudevents_sdk_cpp.Http.Moving.{from_message_moving_lem, takes_body}
use cloudevents_sdk_cpp.Attributes.{make, store_attribute, make_spec_version}
use cloudevents_sdk_cpp.Event.{Builder, no_options}
use cloudevents_sdk_cpp.Binding.{
  first_repeated_name, first_repeated_loop, repeats, carries_prefix, attribute_name_of,
}
use cloudevents_sdk_cpp.Binding.Read.{read_attributes, read_loop, apply_attribute}
use cloudevents_sdk_cpp.Binding.Sound.{IsSound, read_attributes-IsSound}
use cloudevents_sdk_cpp.Http.{http_traits, check_header_text}
use cloudevents_sdk_cpp.Kafka
use cloudevents_sdk_cpp.Kafka.Moving.{kafka_moving_lem}
use cloudevents_sdk_cpp.Nats
use cloudevents_sdk_cpp.Mqtt
use cloudevents_sdk_cpp.Mqtt.{unprefixed_names}
use cloudevents_sdk_cpp.Mqtt.Foreign.{from_message-foreign}
use cloudevents_sdk_cpp.Nats.Moving.{nats_moving_lem}
use cloudevents_sdk_cpp.Examples.Sample.{sample, greeting, sample_format, sample_accepts}

abbrev request : Message
request = record {
  header_fields =
      (codes "ce-specversion", codes "1.0")
      ∷ (codes "CE-ID", codes "1")
      ∷ (codes "ce-source", codes "/s")
      ∷ (codes "ce-type", codes "t")
      ∷ [];
  body = codes "hi";
}

from_message_moving_example :
    ((from_message_moving sample_format percent_encoded_values request default_options).0
      ≡ from_message sample_format percent_encoded_values request default_options)
    × ((from_message_moving sample_format percent_encoded_values request default_options).1
        ≡ left_by request
            (takes_body sample_format percent_encoded_values (detect_content_mode request) request))
from_message_moving_example =
    from_message_moving_lem sample_format percent_encoded_values request default_options

find-set_example : find (set request.header_fields (codes "ce-id") (codes "2")) (codes "Ce-Id") ≡ (
    if iequals (codes "ce-id") (codes "Ce-Id")
    then some (codes "2")
    else find request.header_fields (codes "Ce-Id"))
find-set_example = find-set request.header_fields (codes "ce-id") (codes "2") (codes "Ce-Id")

find_exact-set_exact_example :
    find_exact (set_exact request.header_fields (codes "ce-id") (codes "2")) (codes "CE-ID") ≡ (
      if same (codes "ce-id") (codes "CE-ID")
      then some (codes "2")
      else find_exact request.header_fields (codes "CE-ID"))
find_exact-set_exact_example =
    find_exact-set_exact request.header_fields (codes "ce-id") (codes "2") (codes "CE-ID")

adopt_iff_example :
    (adopt request.header_fields NameMatching.case_insensitive
      ≡ ok (record { fields = request.header_fields }))
    ↔ ((request.header_fields ≡ request.header_fields)
        × Distinct NameMatching.case_insensitive request.header_fields)
adopt_iff_example =
    adopt_iff request.header_fields NameMatching.case_insensitive
      (record { fields = request.header_fields })

set_extension_lem_example :
    Replaces greeting
      (set_extension greeting (codes "b") (string (codes "v")))
      (codes "b")
      (some (string (codes "v")))
set_extension_lem_example = set_extension_lem greeting (codes "b") (string (codes "v")) (tt, tt)

remove_extension_lem_example :
    ((remove_extension greeting (codes "ext")).1 ≡ is_some (extension greeting (codes "ext")))
    × Replaces greeting (remove_extension greeting (codes "ext")).0 (codes "ext") none
remove_extension_lem_example = remove_extension_lem greeting (codes "ext") (tt, tt)

abbrev kafka_record : Message
kafka_record = record {
  header_fields =
      (codes "ce_specversion", codes "1.0")
      ∷ (codes "ce_id", codes "1")
      ∷ (codes "ce_source", codes "/s")
      ∷ (codes "ce_type", codes "t")
      ∷ (codes "content-type", codes "text/plain")
      ∷ [];
  body = codes "hi";
}

kafka_moving_lem_example :
    ((Kafka.from_message_moving sample_format kafka_record default_options).0
      ≡ Kafka.from_message sample_format kafka_record default_options)
    × ((Kafka.from_message_moving sample_format kafka_record default_options).1
        ≡ left_by kafka_record (
            Kafka.Moving.takes_body sample_format
              (Kafka.detect_content_mode kafka_record)
              kafka_record))
kafka_moving_lem_example = kafka_moving_lem sample_format kafka_record default_options

nats_moving_lem_example :
    ((Nats.from_message_moving sample_format request default_options).0
      ≡ Nats.from_message sample_format request default_options)
    × ((Nats.from_message_moving sample_format request default_options).1
        ≡ left_by request
            (Nats.Moving.takes_body sample_format (Nats.detect_content_mode request) request))
nats_moving_lem_example = nats_moving_lem sample_format request default_options

abbrev collected : Builder sample
collected = record {
  id = some (codes "1");
  source = some (codes "/s");
  type = some (codes "t");
  rest = no_options;
}

collected_run : read_attributes (http_traits literal_values) request.header_fields ≡ ok collected
unfolding read_attributes read_loop first_repeated_name first_repeated_loop repeats carries_prefix
    attribute_name_of starts_with_ignoring_case iequals ascii_lower same apply_attribute
    store_attribute make make_spec_version check_text is_valid_utf8 valid_loop read_utf8_lead
    continuations utf8_code_point_allowed check_header_text
collected_run = refl

read_attributes-IsSound_example : IsSound collected
read_attributes-IsSound_example =
    read_attributes-IsSound (http_traits literal_values) request.header_fields collected
      collected_run

-- A message in binary mode with unprefixed names.
abbrev mqtt_fields : RawHeaders
mqtt_fields =
    (codes "specversion", codes "1.0") ∷ (codes "id", codes "1") ∷ (codes "source", codes "/s") ∷ []

from_message-foreign_example :
    Mqtt.from_message sample_format unprefixed_names
      (record {
        header_fields =
            mqtt_fields ++ (codes "X-Trace", codes "7") ∷ (codes "type", codes "t") ∷ [];
        body = codes "hi";
      })
      default_options
    ≡ Mqtt.from_message sample_format unprefixed_names
        (record {
          header_fields = mqtt_fields ++ (codes "type", codes "t") ∷ [];
          body = codes "hi";
        })
        default_options
unfolding same
from_message-foreign_example =
    from_message-foreign sample_format unprefixed_names mqtt_fields ((codes "type", codes "t") ∷ [])
      (codes "X-Trace") (codes "7") (codes "hi") sample_accepts (inr refl) refl default_options
