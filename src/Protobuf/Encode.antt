-- ===== src/Protobuf/Encode.antt =====
-- include/cloudevents/format/protobuf_format.hpp: an event written, from `encode_attributes` on, and
-- the encoding members of `protobuf_format`.
use cloudevents_sdk_cpp.Base.{
  Bool, true, false, not, ◌&&◌, Option, none, some, List, [], ◌∷◌, Bytes, codes, if◌then◌else◌,
}
use cloudevents_sdk_cpp.Errors.{Errc, Result, ok, fail}
use cloudevents_sdk_cpp.Text.{iequals}
use cloudevents_sdk_cpp.Wire.{put_field}
use cloudevents_sdk_cpp.Maps.{Map, emplace}
use cloudevents_sdk_cpp.Platform.{Platform}
use cloudevents_sdk_cpp.Event.{
  AttributeValue, string, uri, instant, ExtensionMap, DataT, Options, Event,
}
use cloudevents_sdk_cpp.Protobuf.Value.{encode_value}
use cloudevents_sdk_cpp.Protobuf.Scan.{
  key_field, value_field, valid_uri_reference, id_field, source_field, spec_version_field,
  type_field, attributes_field, binary_data_field, text_data_field, proto_data_field,
  type_url_field, any_value_field,
}

-- `bodies.emplace(name, encode_value(value))` of an attribute that may be absent
abbrev pub emplace_optional :
    {V : Type 0} → Map Bytes → Bytes → (V → AttributeValue) → Option V → Map Bytes
emplace_optional bodies name as_value none = bodies
emplace_optional bodies name as_value (some value) =
    emplace bodies name (encode_value (as_value value))

unfoldable pub emplace_extensions : Map Bytes → ExtensionMap → Map Bytes
emplace_extensions bodies [] = bodies
emplace_extensions bodies (e ∷ es) = emplace_extensions (emplace bodies e.0 (encode_value e.1)) es

unfoldable pub put_entry : Bytes → Bytes → Bytes → Bytes
put_entry out name value =
    put_field out attributes_field (put_field (put_field [] key_field name) value_field value)

unfoldable pub put_entries : Bytes → Map Bytes → Bytes
put_entries out [] = out
put_entries out (e ∷ es) = put_entries (put_entry out e.0 e.1) es

abbrev pub put_type_url : Bytes → Bytes → Bytes
put_type_url any [] = any
put_type_url any (c ∷ cs) = put_field any type_url_field (c ∷ cs)

unfoldable pub put_any : Bytes → Bytes → Bytes → Bytes
put_any out type_url value =
    put_field out proto_data_field (put_field (put_type_url [] type_url) any_value_field value)

abbrev pub type_url_of : Option Bytes → Option Bytes → Option Bytes
type_url_of (some media_type) (some schema) =
    if iequals media_type (codes "application/protobuf") && valid_uri_reference schema
    then some schema
    else none
type_url_of _ _ = none

abbrev pub put_binary : Bytes → Option Bytes → Bytes → Bytes
put_binary out (some type_url) value = put_any out type_url value
put_binary out none value = put_field out binary_data_field value

module _ {P : Platform} where
  abbrev pub encode_context : Options P → Map Bytes
  encode_context rest =
      emplace_optional
        (emplace_optional
          (emplace_optional
            (emplace_optional [] (codes "datacontenttype") string rest.datacontenttype)
            (codes "dataschema") uri rest.dataschema)
          (codes "subject") string rest.subject)
        (codes "time") instant rest.time

  unfoldable pub encode_attributes : Event P → Map Bytes
  encode_attributes e = emplace_extensions (encode_context e.rest) e.rest.extensions

  unfoldable pub proto_type_url : Event P → Option Bytes
  proto_type_url e = type_url_of e.rest.datacontenttype e.rest.dataschema

  unfoldable pub put_data : Bytes → Option Bytes → DataT P → Bytes
  put_data out type_url (DataT.binary_data value) = put_binary out type_url value
  put_data out type_url (DataT.text_data value) = put_field out text_data_field value
  put_data out type_url (DataT.json_text raw) = put_field out text_data_field raw
  put_data out type_url (DataT.json_document value) =
      put_field out text_data_field (P.dump_document value)
  put_data out type_url DataT.monostate = out

  abbrev pub put_required : Event P → Bytes
  put_required e =
      put_field
        (put_field (put_field (put_field [] id_field e.id) source_field e.source) spec_version_field
          (codes "1.0"))
        type_field e.type

  unfoldable pub encode_event : Event P → Option Bytes → Bytes
  encode_event e type_url =
      put_data (put_entries (put_required e) (encode_attributes e)) type_url e.rest.payload

  abbrev pub holds_binary : DataT P → Bool
  holds_binary (DataT.binary_data value) = true
  holds_binary _ = false

  -- `protobuf_format::encode_proto_data`
  unfoldable pub encode_event_as_any : Event P → Bytes → Result Bytes
  encode_event_as_any e type_url =
      if not (valid_uri_reference type_url)
      then fail Errc.parse_error "the type URL is not a URI-reference" (codes "proto_data")
      else if not (holds_binary e.rest.payload)
      then fail Errc.type_mismatch "proto_data carries a binary payload" (codes "data")
      else ok (encode_event e (some type_url))

  unfoldable pub put_events : Bytes → List (Event P) → Bytes
  put_events out [] = out
  put_events out (e ∷ es) = put_events (put_field out 1 (encode_event e (proto_type_url e))) es

  -- `protobuf_format::encode`
  unfoldable pub encode : Event P → Result Bytes
  encode e = ok (encode_event e (proto_type_url e))

  -- `protobuf_format::encode_batch`
  unfoldable pub encode_batch : List (Event P) → Result Bytes
  encode_batch events = ok (put_events [] events)
