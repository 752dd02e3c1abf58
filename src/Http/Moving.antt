-- ===== src/Http/Moving.antt =====
-- `from_message_moving` against `from_message`.
use cloudevents_sdk_cpp.Base.{◌≡◌, refl, Bool, false}
use cloudevents_sdk_cpp.Headers.{Message, ContentMode}
use cloudevents_sdk_cpp.Platform.{Platform}
use cloudevents_sdk_cpp.Binding.{DecodeOptions}
use cloudevents_sdk_cpp.Binding.Moving.{takes, left_by, take_body_lem}
use cloudevents_sdk_cpp.Binding.Structured.{JsonFormat}
use cloudevents_sdk_cpp.Http.{
  ValuePolicy, detect_content_mode, read_binary_mode, from_message, from_message_moving, move_as,
  read_as,
}

module _ {P : Platform} (F : JsonFormat P) (values : ValuePolicy) where
  -- Whether a moving call takes the body: the message is in binary mode, its fields are read, the
  -- body is not empty and not declared to be JSON, and the event is built.
  abbrev pub takes_body : ContentMode → Message → Bool
  takes_body ContentMode.binary_mode request =
      takes P request (read_binary_mode F values request.header_fields)
  takes_body _ request = false

  move_as-read_as :
      (mode : ContentMode) (request : Message) (options : DecodeOptions)
      → ((move_as F values mode request options).0 ≡ read_as F values mode request options)
        × ((move_as F values mode request options).1 ≡ left_by request (takes_body mode request))
  unfolding move_as read_as
  move_as-read_as ContentMode.structured request options = (refl, refl)
  move_as-read_as ContentMode.batched request options = (refl, refl)
  move_as-read_as ContentMode.binary_mode request options =
      take_body_lem P request options (read_binary_mode F values request.header_fields)

  -- The moving reader returns what `from_message` returns. It keeps the fields, and it empties the
  -- body if the message is in binary mode, its fields are read, the body is neither empty nor
  -- declared to be JSON, and the event is built; otherwise it leaves the message as it was.
  pub from_message_moving_lem :
      (request : Message) (options : DecodeOptions)
      → ((from_message_moving F values request options).0 ≡ from_message F values request options)
        × ((from_message_moving F values request options).1
            ≡ left_by request (takes_body (detect_content_mode request) request))
  unfolding from_message_moving from_message
  from_message_moving_lem request options =
      move_as-read_as (detect_content_mode request) request options
