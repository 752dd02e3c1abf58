-- ===== src/Binding/Write.antt =====
-- include/cloudevents/binding/common.hpp: `write_attributes`.
use cloudevents_sdk_cpp.Base.{suc, Option, none, some, [], ◌∷◌, ◌++◌, Bytes, codes, if◌then◌else◌}
use cloudevents_sdk_cpp.Errors.{Result, ok, err, forward_failure}
use cloudevents_sdk_cpp.Base64.{base64_encode}
use cloudevents_sdk_cpp.Headers.{RawHeaders}
use cloudevents_sdk_cpp.Platform.{Platform}
use cloudevents_sdk_cpp.Decimal.{decimal_text}
use cloudevents_sdk_cpp.Timestamp.{Timestamp, timestamp_text}
use cloudevents_sdk_cpp.Event.{
  Int32, pos, negsuc, AttributeValue, boolean, int32, string, binary, uri, uri_ref, instant,
  ExtensionMap, Event,
}
use cloudevents_sdk_cpp.Binding.{Traits, put}

abbrev pub decimal : Int32 → Bytes
decimal (pos n) = decimal_text n
decimal (negsuc n) = b'-' ∷ decimal_text (suc n)

abbrev pub text_attribute : AttributeValue → Option Bytes
text_attribute (string text) = some text
text_attribute (uri link) = some link
text_attribute (uri_ref reference) = some reference
text_attribute _ = none

unfoldable pub render_attribute : AttributeValue → Bytes
render_attribute (boolean held) = if held then codes "true" else codes "false"
render_attribute (int32 held) = decimal held
render_attribute (string held) = held
render_attribute (binary held) = base64_encode held
render_attribute (uri held) = held
render_attribute (uri_ref held) = held
render_attribute (instant held) = timestamp_text held

-- the text that `write_attributes` puts for an extension
abbrev pub extension_text : AttributeValue → Bytes
extension_text value = elim (text_attribute value) [
  | some text ↦ text
  | none ↦ render_attribute value
]

abbrev pub time_text : Option Timestamp → Option Bytes
time_text none = none
time_text (some when_) = some (timestamp_text when_)

-- The fields written so far, and `failure`.
abbrev pub Writing : Type 0
Writing = RawHeaders × Result (Unit {0})

module _ (T : Traits) where
  unfoldable pub put_encoded : RawHeaders → Bytes → Result Bytes → Writing
  put_encoded into name (err e) = (into, forward_failure (err e) name)
  put_encoded into name (ok encoded) = (put T into (T.attribute_prefix ++ name) encoded, ok tt)

  unfoldable pub put_attribute : Bytes → Bytes → Writing → Writing
  put_attribute name value (into, err e) = (into, err e)
  put_attribute name value (into, ok _) = put_encoded into name (T.encode_value value)

  abbrev pub put_optional : Bytes → Option Bytes → Writing → Writing
  put_optional name none w = w
  put_optional name (some value) w = put_attribute name value w

  abbrev pub put_content_type : Option Bytes → Writing → Writing
  put_content_type none w = w
  put_content_type (some media_type) (into, failure) =
      if T.content_type_as_attribute
      then put_attribute (codes "datacontenttype") media_type (into, failure)
      else (put T into T.content_type_header media_type, failure)

  abbrev pub finish_writing : Option Bytes → Writing → Writing
  finish_writing media_type (into, err e) = (into, err e)
  finish_writing media_type (into, ok done) = put_content_type media_type (into, ok done)

module _ (T : Traits) where
  unfoldable pub put_extensions : ExtensionMap → Writing → Writing
  put_extensions [] w = w
  put_extensions (e ∷ es) w = put_extensions es (put_attribute T e.0 (extension_text e.1) w)

module _ (T : Traits) {P : Platform} where
  -- the calls of `put_attribute` before the media type, in the source's order
  abbrev pub write_context : Event P → Writing → Writing
  write_context e w = put_extensions T e.rest.extensions (
      put_optional T (codes "time") (time_text e.rest.time) (
        put_optional T (codes "subject") e.rest.subject (
          put_optional T (codes "dataschema") e.rest.dataschema (
            put_attribute T (codes "type") e.type (
              put_attribute T (codes "source") e.source (
                put_attribute T (codes "id") e.id
                  (put_attribute T (codes "specversion") (codes "1.0") w)))))))

  unfoldable pub write_attributes : Event P → RawHeaders → Writing
  write_attributes e into = finish_writing T e.rest.datacontenttype (write_context e (into, ok tt))
