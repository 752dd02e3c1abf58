-- ===== src/Binding/ProtobufStructured.antt =====
-- include/cloudevents/binding/detail/protobuf_structured.hpp: the structured-mode message of a
-- binding in the Protobuf event format.
use cloudevents_sdk_cpp.Base.{
  ℕ, Bool, false, ◌||◌, Option, none, some, [], ◌∷◌, Bytes, codes, ◌==◌, if◌then◌else◌,
}
use cloudevents_sdk_cpp.Errors.{Errc, Result, ok, fail, ◌>>=◌}
use cloudevents_sdk_cpp.Text.{iequals}
use cloudevents_sdk_cpp.Headers.{Message, find, find_exact}
use cloudevents_sdk_cpp.Platform.{Platform}
use cloudevents_sdk_cpp.Event.{Event}
use cloudevents_sdk_cpp.Binding.{Traits}
use cloudevents_sdk_cpp.Protobuf.Scan.{DecodeOptions}
use cloudevents_sdk_cpp.Protobuf.Decode.{decode_event}
use cloudevents_sdk_cpp.Protobuf.Encode.{encode}

abbrev pub is_padding : ℕ → Bool
is_padding c = c == b' ' || c == 0x9

-- what stands before the first `;`
unfoldable pub before_separator : Bytes → Bytes
before_separator [] = []
before_separator (c ∷ cs) = if c == b';' then [] else c ∷ before_separator cs

unfoldable pub trim_front : Bytes → Bytes
trim_front [] = []
trim_front (c ∷ cs) = if is_padding c then trim_front cs else c ∷ cs

abbrev pub trim_one : ℕ → Bytes → Bytes
trim_one c [] = if is_padding c then [] else c ∷ []
trim_one c (d ∷ ds) = c ∷ d ∷ ds

unfoldable pub trim_back : Bytes → Bytes
trim_back [] = []
trim_back (c ∷ cs) = trim_one c (trim_back cs)

unfoldable pub media_type_essence : Bytes → Bytes
media_type_essence declared = trim_back (trim_front (before_separator declared))

abbrev pub protobuf_content_type : Bytes
protobuf_content_type = codes "application/cloudevents+protobuf"

abbrev pub declares_protobuf : Option Bytes → Bool
declares_protobuf none = false
declares_protobuf (some declared) = iequals (media_type_essence declared) protobuf_content_type

module _ (T : Traits) where
  abbrev pub protobuf_message : Bytes → Message
  protobuf_message body = record {
    header_fields = (T.content_type_header, protobuf_content_type) ∷ [];
    body = body;
  }

  unfoldable pub encode_protobuf_structured : {P : Platform} → Event P → Result Message
  encode_protobuf_structured e = do body ← encode e; ok (protobuf_message body)

  abbrev pub declared_type : Message → Option Bytes
  declared_type from =
      if T.case_sensitive_names
      then find_exact from.header_fields T.content_type_header
      else find from.header_fields T.content_type_header

  unfoldable pub decode_protobuf_structured :
      {P : Platform} → Message → DecodeOptions → Result (Event P)
  decode_protobuf_structured from options =
      if declares_protobuf (declared_type from)
      then decode_event options from.body
      else fail Errc.not_a_cloudevent "the content type is not application/cloudevents+protobuf" []
