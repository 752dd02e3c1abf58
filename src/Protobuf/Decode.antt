-- ===== src/Protobuf/Decode.antt =====
-- include/cloudevents/format/protobuf_format.hpp: the event of a scanned message, from
-- `text_of_string_arm` to `parse_json_payload`, and the decoding members of `protobuf_format`.
use cloudevents_sdk_cpp.Base.{
  not, ◌||◌, Option, none, some, List, [], ◌∷◌, ◌++◌, Bytes, codes, length, same, ltb, leb, ◌==◌,
  if◌then◌else◌,
}
use cloudevents_sdk_cpp.Errors.{Errc, Result, ok, fail, forward_failure, ◌>>=◌}
use cloudevents_sdk_cpp.Maps.{insert_or_assign}
use cloudevents_sdk_cpp.Platform.{Platform}
use cloudevents_sdk_cpp.Timestamp.{Timestamp}
use cloudevents_sdk_cpp.Attributes.{
  Policy, id_policy, source_policy, type_policy, subject_policy, dataschema_policy,
  datacontenttype_policy, extension_name_policy, make, store_attribute, make_spec_version,
  is_json_content_type,
}
use cloudevents_sdk_cpp.Event.{
  AttributeValue, string, uri, uri_ref, instant, DataT, Options, Event, no_options, build,
}
use cloudevents_sdk_cpp.Protobuf.{Field, for_each_field}
use cloudevents_sdk_cpp.Protobuf.Value.{Arm, is_length_delimited}
use cloudevents_sdk_cpp.Protobuf.Scan.{DecodeOptions, AttributeMap, DataField, RawEvent, scan_event}

abbrev pub text_of_string_arm : AttributeValue → Option Bytes
text_of_string_arm (string text) = some text
text_of_string_arm _ = none

abbrev pub text_of_uri_arm : AttributeValue → Option Bytes
text_of_uri_arm (uri absolute) = some absolute
text_of_uri_arm (uri_ref reference) = some reference
text_of_uri_arm _ = none

abbrev pub store_text : Policy → Option Bytes → Bytes → Result (Option Bytes)
store_text policy none name =
    fail Errc.type_mismatch "the attribute is carried in the wrong arm of its value" name
store_text policy (some text) name = store_attribute policy text

abbrev pub store_time : AttributeValue → Result (Option Timestamp)
store_time (instant value) = ok (some value)
store_time _ =
    fail Errc.type_mismatch "time is carried in the wrong arm of its value" (codes "time")

abbrev pub or_protobuf : Option Bytes → Option Bytes
or_protobuf none = some (codes "application/protobuf")
or_protobuf (some media_type) = some media_type

-- the dataschema, filled from the type URL when it is missing and there is one
abbrev pub schema_or_url : Option Bytes → Bytes → Result (Option Bytes)
schema_or_url (some schema) type_url = ok (some schema)
schema_or_url none [] = ok none
schema_or_url none (c ∷ cs) = do schema ← make dataschema_policy (c ∷ cs); ok (some schema)

module _ {P : Platform} where
  abbrev pub store_extension : Bytes → AttributeValue → Options P → Result (Options P)
  store_extension name value into = do
    attribute ← forward_failure (make (extension_name_policy P) name) name
    ok (record into { extensions = insert_or_assign into.extensions attribute value })

  unfoldable pub apply_attribute : Bytes → AttributeValue → Options P → Result (Options P)
  apply_attribute name value into =
      if same name (codes "datacontenttype")
      then (do
        slot ← store_text (datacontenttype_policy P) (text_of_string_arm value) name
        ok (record into { datacontenttype = slot }))
      else if same name (codes "dataschema")
      then (do
        slot ← store_text dataschema_policy (text_of_uri_arm value) name
        ok (record into { dataschema = slot }))
      else if same name (codes "subject")
      then (do
        slot ← store_text subject_policy (text_of_string_arm value) name
        ok (record into { subject = slot }))
      else if same name (codes "time")
      then (do slot ← store_time value; ok (record into { time = slot }))
      else store_extension name value into

  abbrev pub apply_arm : Bytes → Arm → Options P → Result (Options P)
  apply_arm name none into =
      fail Errc.invalid_attribute_value "an attribute value has no arm set" name
  apply_arm name (some value) into = apply_attribute name value into

  unfoldable pub apply_attributes : AttributeMap → Options P → Result (Options P)
  apply_attributes [] into = ok into
  apply_attributes (e ∷ es) into = do applied ← apply_arm e.0 e.1 into; apply_attributes es applied

  unfoldable pub apply_proto_data : RawEvent → Options P → Result (Options P)
  apply_proto_data raw into = do
    schema ← schema_or_url into.dataschema raw.type_url
    ok (record into {
      datacontenttype = or_protobuf into.datacontenttype;
      dataschema = schema;
      payload = DataT.binary_data raw.payload;
    })

  -- an empty `binary_data` field of an event without a media type sets no data
  abbrev pub binary_payload : Bytes → Option Bytes → DataT P → DataT P
  binary_payload [] none held = held
  binary_payload octets media_type held = DataT.binary_data octets

  abbrev pub apply_kind : DataField → RawEvent → Options P → Result (Options P)
  apply_kind DataField.absent raw into = ok into
  apply_kind DataField.text_field raw into =
      ok (record into { payload = DataT.text_data raw.payload })
  apply_kind DataField.binary_field raw into =
      ok (record into { payload = binary_payload raw.payload into.datacontenttype into.payload })
  apply_kind DataField.proto_field raw into = apply_proto_data raw into

  abbrev pub apply_data : RawEvent → Options P → Result (Options P)
  apply_data raw into = apply_kind raw.data_kind raw into

  unfoldable pub build_event : RawEvent → Result (Event P)
  build_event raw = do
    _ ← make_spec_version raw.version
    id ← store_attribute id_policy raw.id
    source ← store_attribute source_policy raw.source
    type ← store_attribute type_policy raw.type
    applied ← apply_attributes raw.attributes no_options
    rest ← apply_data raw applied
    build (record { id = id; source = source; type = type; rest = rest })

unfoldable pub scan_limited : DecodeOptions → Bytes → Result RawEvent
scan_limited options encoded =
    if ltb options.max_encoded_size (length encoded)
    then fail Errc.out_of_range "the encoded event is larger than the limit allows" []
    else scan_event options encoded

-- `protobuf_format::decode`
unfoldable pub decode_event : {P : Platform} → DecodeOptions → Bytes → Result (Event P)
decode_event options encoded = do raw ← scan_limited options encoded; build_event raw

pub record DetailedEvent (P : Platform) : Type 0 where
  pub event : Event P
  pub type_url : Option Bytes

abbrev pub carried_url : DataField → Bytes → Option Bytes
carried_url DataField.proto_field (c ∷ cs) = some (c ∷ cs)
carried_url _ _ = none

-- `protobuf_format::decode_detailed`
unfoldable pub decode_detailed_event :
    {P : Platform} → DecodeOptions → Bytes → Result (DetailedEvent P)
decode_detailed_event options encoded = do
  raw ← scan_limited options encoded
  built ← build_event raw
  ok (record { event = built; type_url = carried_url raw.data_kind raw.type_url })

-- the lambda of `batch_bodies`
abbrev pub batch_visit : DecodeOptions → Field → List Bytes → Result (List Bytes)
batch_visit options current bodies =
    if not (is_length_delimited current.kind) || not (current.number == 1)
    then ok bodies
    else if leb options.max_batch_event_count (length bodies)
    then fail Errc.out_of_range "the batch has more events than the limit allows" []
    else ok (bodies ++ current.body ∷ [])

unfoldable pub batch_bodies : DecodeOptions → Bytes → Result (List Bytes)
batch_bodies options encoded = for_each_field (batch_visit options) [] encoded

unfoldable pub decode_all : {P : Platform} → DecodeOptions → List Bytes → Result (List (Event P))
decode_all options [] = ok []
decode_all options (body ∷ bodies) = do
  decoded ← decode_event options body
  events ← decode_all options bodies
  ok (decoded ∷ events)

-- `protobuf_format::decode_batch`
unfoldable pub decode_events : {P : Platform} → DecodeOptions → Bytes → Result (List (Event P))
decode_events options encoded = do bodies ← batch_bodies options encoded; decode_all options bodies

module _ (P : Platform) where
  abbrev pub json_text_of : DataT P → Option Bytes
  json_text_of (DataT.text_data held) = some held
  json_text_of (DataT.binary_data octets) = some octets
  json_text_of _ = none

  abbrev pub parse_held : Option Bytes → Result (Option P.Document)
  parse_held none = ok none
  parse_held (some text) = do
    parsed ← forward_failure (P.parse_document text) (codes "data")
    ok (some parsed)

  abbrev pub parse_typed : Option Bytes → DataT P → Result (Option P.Document)
  parse_typed none held = ok none
  parse_typed (some media_type) held =
      if is_json_content_type P media_type then parse_held (json_text_of held) else ok none

  abbrev pub parse_json_payload : Event P → Result (Option P.Document)
  parse_json_payload e = parse_typed e.rest.datacontenttype e.rest.payload

  -- `protobuf_format::decode_as`: the event and the parsed payload
  unfoldable pub decode_as : DecodeOptions → Bytes → Result (Event P × Option P.Document)
  decode_as options encoded = do
    read ← decode_event options encoded
    payload ← parse_json_payload read
    ok (read, payload)
