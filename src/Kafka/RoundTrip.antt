-- ===== src/Kafka/RoundTrip.antt =====
-- An event written to a Kafka message in binary mode and read back.
use cloudevents_sdk_cpp.Base.{
  ◌≡◌, refl, true, false, ◌++◌, [], Option, none, some, Bytes, All, codes,
}
use cloudevents_sdk_cpp.Base.Lists.{same}
use cloudevents_sdk_cpp.Errors.{ok, ◌>>=◌}
use cloudevents_sdk_cpp.Text.{starts_with}
use cloudevents_sdk_cpp.Utf8.{is_valid_utf8}
use cloudevents_sdk_cpp.Headers.{RawHeaders, find_if, find_exact, contains_exact, binary_mode}
use cloudevents_sdk_cpp.Platform.{Platform}
use cloudevents_sdk_cpp.Attributes.{datacontenttype_policy}
use cloudevents_sdk_cpp.Event.{Event, DataT, build}
use cloudevents_sdk_cpp.Timestamp.RoundTrip.{HasGroups}
use cloudevents_sdk_cpp.Binding.{DecodeOptions, same_field_name, carries_prefix}
use cloudevents_sdk_cpp.Binding.Write.{write_attributes}
use cloudevents_sdk_cpp.Binding.Body.{body_of, write_body, read_body}
use cloudevents_sdk_cpp.Binding.Structured.{JsonFormat}
use cloudevents_sdk_cpp.Binding.Carried.{attributes_of, extension_texts, IsName}
use cloudevents_sdk_cpp.Binding.Collected.{
  shown_time, IsValid, Passes, Each, staged, as_texts, make-Passes,
}
use cloudevents_sdk_cpp.Binding.Binary.{
  received, fields, find-fields, write_attributes-fields, read_attributes-fields,
}
use cloudevents_sdk_cpp.Binding.Names.{MatchesNames, extensions-IsName}
use cloudevents_sdk_cpp.Kafka.{
  encode_value, kafka_traits, content_type_header, mode_of, detect_content_mode, to_message,
  from_message, read_as, read_binary_mode, declare_media_type,
}

unprefixed : carries_prefix kafka_traits content_type_header ≡ false
unfolding carries_prefix starts_with same
unprefixed = refl

separate :
    (n : Bytes)
    → same_field_name kafka_traits (kafka_traits.attribute_prefix ++ n) content_type_header ≡ false
unfolding same
separate n = refl

itself : same_field_name kafka_traits content_type_header content_type_header ≡ true
unfolding same
itself = refl

abbrev IsText : Bytes → Type 0
IsText v = is_valid_utf8 v ≡ true

encode_value-ok : (v : Bytes) → IsText v → encode_value v ≡ ok v
unfolding encode_value
encode_value-ok v h = rw h refl

declare_media_type-Each :
    {P : Platform} (F : JsonFormat P) (media_type : Option Bytes) (e : Event P)
    → Each (Passes (datacontenttype_policy P)) media_type
    → declare_media_type F media_type (
        staged e.id e.source e.type e.rest.dataschema e.rest.subject
          (shown_time e.rest.time)
          (as_texts e.rest.extensions))
      ≡ ok (record {
        id = some e.id;
        source = some e.source;
        type = some e.type;
        rest = record e.rest {
          datacontenttype = media_type;
          time = shown_time e.rest.time;
          extensions = as_texts e.rest.extensions;
          payload = DataT.monostate;
        };
      })
declare_media_type-Each F none e h = refl
declare_media_type-Each {P = P} F (some m) e h =
    rw (make-Passes (datacontenttype_policy P) m h) refl

module _ {P : Platform} (F : JsonFormat P) (e : Event P) (valid : IsValid e)
    (timed : Each (HasGroups P) e.rest.time)
    (texts : All (λ a. is_valid_utf8 a.1 ≡ true) (attributes_of e))
    (lower : All (λ f. IsName f.0) (extension_texts e.rest.extensions)) where
  abbrev sent : RawHeaders
  sent =
      fields kafka_traits (λ v. v) IsText encode_value-ok encode_value-ok refl unprefixed separate
        itself e valid timed texts lower

  write-sent : write_attributes kafka_traits e [] ≡ (sent, ok tt)
  write-sent =
      write_attributes-fields kafka_traits (λ v. v) IsText encode_value-ok encode_value-ok refl
        unprefixed separate itself e valid timed texts lower

  find-sent : find_exact sent content_type_header ≡ e.rest.datacontenttype
  find-sent =
      find-fields kafka_traits (λ v. v) IsText encode_value-ok encode_value-ok refl unprefixed
        separate itself e valid timed texts lower

  contains-sent : contains_exact sent (codes "ce_specversion") ≡ true
  unfolding find_if same
  contains-sent = refl

  read_binary_mode-sent :
      read_binary_mode F sent
      ≡ ok (record {
        id = some e.id;
        source = some e.source;
        type = some e.type;
        rest = record e.rest {
          time = shown_time e.rest.time;
          extensions = as_texts e.rest.extensions;
          payload = DataT.monostate;
        };
      })
  unfolding read_binary_mode
  read_binary_mode-sent =
      rw
        (
          contains-sent,
          read_attributes-fields kafka_traits (λ v. v) IsText encode_value-ok encode_value-ok refl
              unprefixed separate itself e valid timed texts lower,
          find-sent,
        )
        (declare_media_type-Each F e.rest.datacontenttype e valid.media_type)

  from_message-sent :
      (options : DecodeOptions)
      → mode_of e.rest.datacontenttype ≡ binary_mode
      → (to_message F e binary_mode >>= (λ m. from_message F m options)) ≡ (
          read_body P (body_of e.rest.payload []) e.rest.datacontenttype options
          >>= (λ payload. ok (received e payload)))
  unfolding to_message from_message detect_content_mode read_as write_body build
  from_message-sent options mode = rw (write-sent, find-sent, mode, read_binary_mode-sent) refl

-- An event whose attributes are accepted by their classes, whose extensions are in order, and whose
-- time, if it has one, is an instant in the range of parse_timestamp with a local time in that of
-- 64 bits of nanoseconds, at an offset of less than a day that is 0 in the form of the UTC
-- designator, and with at most nine digits, is written to a Kafka message in binary mode, when its
-- texts are UTF-8 and its media type does not name another content mode, and the message reads back
-- as the event with its extensions as texts, its time without the nanoseconds that its digits do
-- not show, and the payload that the body holds under the media type, or fails as reading the body
-- does. The pattern of names is assumed to match only lower-case letters and digits, and that of
-- timestamps to match the text of the time and to give each of its numbers as its group.
pub from_message-to_message_kafka :
    {P : Platform} (F : JsonFormat P) (e : Event P) (options : DecodeOptions)
    → MatchesNames P
    → IsValid e
    → Each (HasGroups P) e.rest.time
    → All (λ a. is_valid_utf8 a.1 ≡ true) (attributes_of e)
    → mode_of e.rest.datacontenttype ≡ binary_mode
    → (to_message F e binary_mode >>= (λ m. from_message F m options)) ≡ (
        read_body P (body_of e.rest.payload []) e.rest.datacontenttype options
        >>= (λ payload. ok (received e payload)))
from_message-to_message_kafka {P = P} F e options law valid timed texts mode =
    from_message-sent F e valid timed texts (extensions-IsName P law e.rest.extensions valid.names)
      options mode
