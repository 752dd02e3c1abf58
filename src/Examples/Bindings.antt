-- ===== src/Examples/Bindings.antt =====
-- The round trips of the bindings at a concrete event.
use cloudevents_sdk_cpp.Base.{◌≡◌, refl, arith, true, some, All, codes}
use cloudevents_sdk_cpp.Base.Lists.{same}
use cloudevents_sdk_cpp.Errors.{ok, ◌>>=◌}
use cloudevents_sdk_cpp.Text.{iequals, ascii_lower, starts_with_ignoring_case}
use cloudevents_sdk_cpp.Utf8.{
  is_valid_utf8, valid_loop, read_utf8_lead, continuations, utf8_code_point_allowed,
}
use cloudevents_sdk_cpp.Headers.{binary_mode}
use cloudevents_sdk_cpp.Timestamp.{timestamp_text}
use cloudevents_sdk_cpp.Binding.{default_options}
use cloudevents_sdk_cpp.Binding.Write.{render_attribute}
use cloudevents_sdk_cpp.Binding.Body.{read_body}
use cloudevents_sdk_cpp.Binding.Carried.{attributes_of}
use cloudevents_sdk_cpp.Http.{
  percent_encoded_values, literal_values, to_message, from_message, has_control,
}
use cloudevents_sdk_cpp.Binding.Binary.{received}
use cloudevents_sdk_cpp.Percent.RoundTrip.{IsUtf8}
use cloudevents_sdk_cpp.Http.Values.{
  IsLiteral, from_message-to_message_percent, from_message-to_message_literal,
}
use cloudevents_sdk_cpp.Kafka
use cloudevents_sdk_cpp.Kafka.RoundTrip.{from_message-to_message_kafka}
use cloudevents_sdk_cpp.Nats
use cloudevents_sdk_cpp.Mqtt
use cloudevents_sdk_cpp.Mqtt.{kind_of, attribute_fields, unprefixed_names, has_nul}
use cloudevents_sdk_cpp.Mqtt.RoundTrip.{IsProperty, from_message-to_message_mqtt}
use cloudevents_sdk_cpp.Text.{starts_with}
use cloudevents_sdk_cpp.Nats.RoundTrip.{from_message-to_message_nats}
use cloudevents_sdk_cpp.Examples.Sample.{
  sample, day_two, greeting, sample_format, greeting-IsValid, sample_law, sample_accepts,
  day_two_text, day_two-HasGroups,
}

time-IsUtf8 : IsUtf8 (timestamp_text day_two)
unfolding is_valid_utf8 valid_loop read_utf8_lead continuations utf8_code_point_allowed
time-IsUtf8 = rw day_two_text (omega arith, refl)

time-IsLiteral : IsLiteral (timestamp_text day_two)
unfolding is_valid_utf8 valid_loop read_utf8_lead continuations utf8_code_point_allowed has_control
time-IsLiteral = rw day_two_text (refl, refl)

greeting_texts : All (λ a. IsUtf8 a.1) (attributes_of greeting)
unfolding is_valid_utf8 valid_loop read_utf8_lead continuations utf8_code_point_allowed
    render_attribute
greeting_texts = (
  (omega arith, refl),
  (
    (omega arith, refl),
    (
      (omega arith, refl),
      ((omega arith, refl), ((omega arith, refl), (time-IsUtf8, ((omega arith, refl), tt)))),
    ),
  ),
)

greeting_literals : All (λ a. IsLiteral a.1) (attributes_of greeting)
unfolding is_valid_utf8 valid_loop read_utf8_lead continuations utf8_code_point_allowed
    render_attribute has_control
greeting_literals = (
  (refl, refl),
  (
    (refl, refl),
    ((refl, refl), ((refl, refl), ((refl, refl), (time-IsLiteral, ((refl, refl), tt))))),
  ),
)

from_message-to_message_percent_example :
    (to_message sample_format percent_encoded_values greeting binary_mode
      >>= (λ m. from_message sample_format percent_encoded_values m default_options))
    ≡ (read_body sample (codes "hi") (some (codes "text/plain")) default_options
        >>= (λ payload. ok (received greeting payload)))
unfolding starts_with_ignoring_case iequals ascii_lower
from_message-to_message_percent_example =
    from_message-to_message_percent sample_format greeting default_options sample_law
      greeting-IsValid day_two-HasGroups greeting_texts refl

from_message-to_message_literal_example :
    (to_message sample_format literal_values greeting binary_mode
      >>= (λ m. from_message sample_format literal_values m default_options))
    ≡ (read_body sample (codes "hi") (some (codes "text/plain")) default_options
        >>= (λ payload. ok (received greeting payload)))
unfolding starts_with_ignoring_case iequals ascii_lower
from_message-to_message_literal_example =
    from_message-to_message_literal sample_format greeting default_options sample_law
      greeting-IsValid day_two-HasGroups greeting_literals refl

greeting_valid_texts : All (λ a. is_valid_utf8 a.1 ≡ true) (attributes_of greeting)
unfolding is_valid_utf8 valid_loop read_utf8_lead continuations utf8_code_point_allowed
    render_attribute
greeting_valid_texts = (refl, (refl, (refl, (refl, (refl, (time-IsUtf8.1, (refl, tt)))))))

from_message-to_message_kafka_example :
    (Kafka.to_message sample_format greeting binary_mode
      >>= (λ m. Kafka.from_message sample_format m default_options))
    ≡ (read_body sample (codes "hi") (some (codes "text/plain")) default_options
        >>= (λ payload. ok (received greeting payload)))
unfolding starts_with same
from_message-to_message_kafka_example =
    from_message-to_message_kafka sample_format greeting default_options sample_law greeting-IsValid
      day_two-HasGroups greeting_valid_texts refl

media_type_IsUtf8 : IsUtf8 (codes "text/plain")
unfolding is_valid_utf8 valid_loop read_utf8_lead continuations utf8_code_point_allowed
media_type_IsUtf8 = (omega arith, refl)

from_message-to_message_nats_example :
    (Nats.to_message sample_format greeting binary_mode
      >>= (λ m. Nats.from_message sample_format m default_options))
    ≡ (read_body sample (codes "hi") (some (codes "text/plain")) default_options
        >>= (λ payload. ok (received greeting payload)))
from_message-to_message_nats_example =
    from_message-to_message_nats sample_format greeting default_options sample_law greeting-IsValid
      day_two-HasGroups greeting_texts media_type_IsUtf8

time-IsProperty : IsProperty (timestamp_text day_two)
unfolding is_valid_utf8 valid_loop read_utf8_lead continuations utf8_code_point_allowed has_nul
time-IsProperty = rw day_two_text (refl, refl, omega arith)

greeting_properties : All (λ a. IsProperty a.1) (attributes_of greeting)
unfolding is_valid_utf8 valid_loop read_utf8_lead continuations utf8_code_point_allowed
    render_attribute has_nul
greeting_properties = (
  (refl, refl, omega arith),
  (
    (refl, refl, omega arith),
    (
      (refl, refl, omega arith),
      (
        (refl, refl, omega arith),
        ((refl, refl, omega arith), (time-IsProperty, ((refl, refl, omega arith), tt))),
      ),
    ),
  ),
)

from_message-to_message_mqtt_example :
    (Mqtt.to_message sample_format Mqtt.prefixed_names greeting binary_mode
      >>= (λ m. Mqtt.from_message sample_format Mqtt.prefixed_names m default_options))
    ≡ (read_body sample (codes "hi") (some (codes "text/plain")) default_options
        >>= (λ payload. ok (received greeting payload)))
unfolding starts_with same
from_message-to_message_mqtt_example =
    from_message-to_message_mqtt sample_format greeting default_options sample_law sample_accepts
      greeting-IsValid day_two-HasGroups greeting_properties refl
