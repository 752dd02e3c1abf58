-- ===== src/Http/Values.antt =====
-- The round trip of an event through an HTTP message under each of the two value policies.
use cloudevents_sdk_cpp.Base.{◌≡◌, refl, true, false, [], Bytes, All}
use cloudevents_sdk_cpp.Errors.{ok, ◌>>=◌}
use cloudevents_sdk_cpp.Utf8.{is_valid_utf8}
use cloudevents_sdk_cpp.Percent.{percent_encode}
use cloudevents_sdk_cpp.Percent.RoundTrip.{IsUtf8, percent_decode-ok}
use cloudevents_sdk_cpp.Headers.{binary_mode}
use cloudevents_sdk_cpp.Platform.{Platform}
use cloudevents_sdk_cpp.Event.{Event}
use cloudevents_sdk_cpp.Timestamp.RoundTrip.{HasGroups}
use cloudevents_sdk_cpp.Binding.{DecodeOptions}
use cloudevents_sdk_cpp.Binding.Body.{body_of, read_body}
use cloudevents_sdk_cpp.Binding.Structured.{JsonFormat}
use cloudevents_sdk_cpp.Binding.Carried.{attributes_of}
use cloudevents_sdk_cpp.Binding.Collected.{Each, IsValid}
use cloudevents_sdk_cpp.Binding.Binary.{received}
use cloudevents_sdk_cpp.Binding.Names.{MatchesNames, extensions-IsName}
use cloudevents_sdk_cpp.Http.{
  percent_encoded_values, literal_values, encode_percent, encode_literal, check_header_text,
  has_control, mode_of, to_message, from_message,
}
use cloudevents_sdk_cpp.Http.RoundTrip.{from_message-to_message}

abbrev pub IsLiteral : Bytes → Type 0
IsLiteral text = (has_control text ≡ false) × (is_valid_utf8 text ≡ true)

encode_percent-ok : (v : Bytes) → IsUtf8 v → encode_percent v ≡ ok (percent_encode v)
unfolding encode_percent
encode_percent-ok v (b, u) = rw u refl

check_header_text-ok : (v : Bytes) → is_valid_utf8 v ≡ true → check_header_text v ≡ ok v
unfolding check_header_text
check_header_text-ok v u = rw u refl

encode_literal-ok : (v : Bytes) → IsLiteral v → encode_literal v ≡ ok v
unfolding encode_literal
encode_literal-ok v (c, u) = rw c (check_header_text-ok v u)

-- An event whose attributes are accepted by their classes, whose extensions are in order, and whose
-- time, if it has one, is an instant in the range of parse_timestamp with a local time in that of
-- 64 bits of nanoseconds, at an offset of less than a day that is 0 in the form of the UTC
-- designator, and with at most nine digits, is written in binary mode with percent-encoded values,
-- when its texts are well-formed UTF-8 and its media type does not name another content mode, and
-- the message reads back as the event with its extensions as texts, its time without the
-- nanoseconds that its digits do not show, and the payload that the body holds under the media
-- type, or fails as reading the body does. The pattern of names is assumed to match only lower-case
-- letters and digits, and that of timestamps to match the text of the time and to give each of its
-- numbers as its group.
pub from_message-to_message_percent :
    {P : Platform} (F : JsonFormat P) (e : Event P) (options : DecodeOptions)
    → MatchesNames P
    → IsValid e
    → Each (HasGroups P) e.rest.time
    → All (λ a. IsUtf8 a.1) (attributes_of e)
    → mode_of e.rest.datacontenttype ≡ binary_mode
    → (to_message F percent_encoded_values e binary_mode
        >>= (λ m. from_message F percent_encoded_values m options))
      ≡ (read_body P (body_of e.rest.payload []) e.rest.datacontenttype options
          >>= (λ payload. ok (received e payload)))
from_message-to_message_percent {P = P} F e options law valid timed texts mode =
    from_message-to_message percent_encoded_values percent_encode IsUtf8 encode_percent-ok
      percent_decode-ok F e valid timed texts
      (extensions-IsName P law e.rest.extensions valid.names) options mode

-- An event whose attributes are accepted by their classes, whose extensions are in order, and whose
-- time, if it has one, is an instant in the range of parse_timestamp with a local time in that of
-- 64 bits of nanoseconds, at an offset of less than a day that is 0 in the form of the UTC
-- designator, and with at most nine digits, is written in binary mode with literal values, when its
-- texts are well-formed UTF-8 without control characters and its media type does not name another
-- content mode, and the message reads back as the event with its extensions as texts, its time
-- without the nanoseconds that its digits do not show, and the payload that the body holds under
-- the media type, or fails as reading the body does. The pattern of names is assumed to match only
-- lower-case letters and digits, and that of timestamps to match the text of the time and to give
-- each of its numbers as its group.
pub from_message-to_message_literal :
    {P : Platform} (F : JsonFormat P) (e : Event P) (options : DecodeOptions)
    → MatchesNames P
    → IsValid e
    → Each (HasGroups P) e.rest.time
    → All (λ a. IsLiteral a.1) (attributes_of e)
    → mode_of e.rest.datacontenttype ≡ binary_mode
    → (to_message F literal_values e binary_mode >>= (λ m. from_message F literal_values m options))
      ≡ (read_body P (body_of e.rest.payload []) e.rest.datacontenttype options
          >>= (λ payload. ok (received e payload)))
from_message-to_message_literal {P = P} F e options law valid timed texts mode =
    from_message-to_message literal_values (λ v. v) IsLiteral encode_literal-ok
      (λ v h. check_header_text-ok v h.1) F e valid timed texts
      (extensions-IsName P law e.rest.extensions valid.names) options mode
