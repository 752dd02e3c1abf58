-- ===== src/Nats/RoundTrip.antt =====
-- An event written to a NATS message in binary mode and read back.
use cloudevents_sdk_cpp.Base.{◌≡◌, refl, true, ◌++◌, [], ◌∷◌, none, All, codes, map}
use cloudevents_sdk_cpp.Errors.{ok, ◌>>=◌}
use cloudevents_sdk_cpp.Text.{ascii_lower, iequals}
use cloudevents_sdk_cpp.Percent.{percent_encode}
use cloudevents_sdk_cpp.Percent.RoundTrip.{IsUtf8, percent_decode-ok}
use cloudevents_sdk_cpp.Headers.{RawHeaders, find_if, find, contains, binary_mode}
use cloudevents_sdk_cpp.Platform.{Platform}
use cloudevents_sdk_cpp.Event.{Event, build}
use cloudevents_sdk_cpp.Timestamp.RoundTrip.{HasGroups}
use cloudevents_sdk_cpp.Binding.{DecodeOptions}
use cloudevents_sdk_cpp.Binding.Write.{write_attributes}
use cloudevents_sdk_cpp.Binding.Body.{body_of, write_body, read_body}
use cloudevents_sdk_cpp.Binding.Structured.{JsonFormat}
use cloudevents_sdk_cpp.Binding.Carried.{attributes_of, extension_texts, IsName}
use cloudevents_sdk_cpp.Binding.Collected.{IsValid, Each}
use cloudevents_sdk_cpp.Binding.Binary.{received}
use cloudevents_sdk_cpp.Binding.Attributed.{
  all_attributes_of, all_fields, staged_whole, write_attributes-all_fields,
  read_attributes-all_fields,
}
use cloudevents_sdk_cpp.Binding.Names.{MatchesNames, extensions-IsName}
use cloudevents_sdk_cpp.Nats.{
  nats_traits, content_type_header, detect_content_mode, to_message, from_message, read_as,
  read_binary_mode,
}

-- No attribute is written to the field of the media type.
find-all_fields :
    (attrs : RawHeaders)
    → find
        (map (λ a. (nats_traits.attribute_prefix ++ a.0, percent_encode a.1)) attrs)
        content_type_header
      ≡ none
unfolding find_if iequals ascii_lower
find-all_fields [] = refl
find-all_fields (a ∷ attrs) = find-all_fields attrs

module _ {P : Platform} (F : JsonFormat P) (e : Event P) (valid : IsValid e)
    (timed : Each (HasGroups P) e.rest.time) (texts : All (λ a. IsUtf8 a.1) (attributes_of e))
    (media : Each IsUtf8 e.rest.datacontenttype)
    (lower : All (λ f. IsName f.0) (extension_texts e.rest.extensions)) where
  abbrev sent : RawHeaders
  sent =
      all_fields nats_traits refl percent_encode IsUtf8 (λ v h. refl) percent_decode-ok e valid
        timed texts media lower

  write-sent : write_attributes nats_traits e [] ≡ (sent, ok tt)
  write-sent =
      write_attributes-all_fields nats_traits refl percent_encode IsUtf8 (λ v h. refl)
        percent_decode-ok e valid timed texts media lower

  contains-sent : contains sent (codes "ce-specversion") ≡ true
  unfolding find_if iequals ascii_lower
  contains-sent = refl

  read_binary_mode-sent : read_binary_mode F sent ≡ ok (staged_whole e)
  unfolding read_binary_mode
  read_binary_mode-sent = rw contains-sent (
      read_attributes-all_fields nats_traits refl percent_encode IsUtf8 (λ v h. refl)
        percent_decode-ok e valid timed texts media lower)

  from_message-sent :
      (options : DecodeOptions)
      → (to_message F e binary_mode >>= (λ m. from_message F m options)) ≡ (
          read_body P (body_of e.rest.payload []) e.rest.datacontenttype options
          >>= (λ payload. ok (received e payload)))
  unfolding to_message from_message detect_content_mode read_as write_body build
  from_message-sent options =
      rw (write-sent, find-all_fields (all_attributes_of e), read_binary_mode-sent) refl

-- An event whose attributes are accepted by their classes, whose extensions are in order, and whose
-- time, if it has one, is an instant in the range of parse_timestamp with a local time in that of
-- 64 bits of nanoseconds, at an offset of less than a day that is 0 in the form of the UTC
-- designator, and with at most nine digits, is written to a NATS message in binary mode, when its
-- texts and its media type are well-formed UTF-8, and the message reads back as the event with its
-- extensions as texts, its time without the nanoseconds that its digits do not show, and the
-- payload that the body holds under the media type, or fails as reading the body does. No media
-- type makes the message one of another content mode. The pattern of names is assumed to match only
-- lower-case letters and digits, and that of timestamps to match the text of the time and to give
-- each of its numbers as its group.
pub from_message-to_message_nats :
    {P : Platform} (F : JsonFormat P) (e : Event P) (options : DecodeOptions)
    → MatchesNames P
    → IsValid e
    → Each (HasGroups P) e.rest.time
    → All (λ a. IsUtf8 a.1) (attributes_of e)
    → Each IsUtf8 e.rest.datacontenttype
    → (to_message F e binary_mode >>= (λ m. from_message F m options)) ≡ (
        read_body P (body_of e.rest.payload []) e.rest.datacontenttype options
        >>= (λ payload. ok (received e payload)))
from_message-to_message_nats {P = P} F e options law valid timed texts media =
    from_message-sent F e valid timed texts media
      (extensions-IsName P law e.rest.extensions valid.names) options
