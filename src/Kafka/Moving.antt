-- ===== src/Kafka/Moving.antt =====
-- Kafka: `from_message_moving` against `from_message`.
use cloudevents_sdk_cpp.Base.{◌≡◌, refl, Bool, false}
use cloudevents_sdk_cpp.Headers.{Message, ContentMode}
use cloudevents_sdk_cpp.Platform.{Platform}
use cloudevents_sdk_cpp.Binding.{DecodeOptions}
use cloudevents_sdk_cpp.Binding.Moving.{takes, left_by, take_body_lem}
use cloudevents_sdk_cpp.Binding.Structured.{JsonFormat}
use cloudevents_sdk_cpp.Kafka.{
  detect_content_mode, read_binary_mode, from_message, from_message_moving, move_as, read_as,
}

module _ {P : Platform} (F : JsonFormat P) where
  -- Whether a moving call takes the body.
  abbrev pub takes_body : ContentMode → Message → Bool
  takes_body ContentMode.binary_mode incoming =
      takes P incoming (read_binary_mode F incoming.header_fields)
  takes_body _ incoming = false

  move_as-read_as :
      (mode : ContentMode) (incoming : Message) (options : DecodeOptions)
      → ((move_as F mode incoming options).0 ≡ read_as F mode incoming options)
        × ((move_as F mode incoming options).1 ≡ left_by incoming (takes_body mode incoming))
  unfolding move_as read_as
  move_as-read_as ContentMode.structured incoming options = (refl, refl)
  move_as-read_as ContentMode.batched incoming options = (refl, refl)
  move_as-read_as ContentMode.binary_mode incoming options =
      take_body_lem P incoming options (read_binary_mode F incoming.header_fields)

  -- The moving reader of Kafka returns what its `from_message` returns. It keeps the fields, and it
  -- empties the body if the message is read in binary mode, the body is neither empty nor declared
  -- to be JSON, and the event is built; otherwise it leaves the message as it was.
  pub kafka_moving_lem :
      (incoming : Message) (options : DecodeOptions)
      → ((from_message_moving F incoming options).0 ≡ from_message F incoming options)
        × ((from_message_moving F incoming options).1
            ≡ left_by incoming (takes_body (detect_content_mode incoming) incoming))
  unfolding from_message_moving from_message
  kafka_moving_lem incoming options =
      move_as-read_as (detect_content_mode incoming) incoming options
