-- ===== src/Kafka.antt =====
-- include/cloudevents/binding/kafka.hpp: the Kafka binding.
pub mod Moving
pub mod RoundTrip
use cloudevents_sdk_cpp.Base.{
  Bool, true, false, not, Option, none, some, List, [], ◌∷◌, Bytes, codes, if◌then◌else◌,
}
use cloudevents_sdk_cpp.Errors.{Errc, Error, Result, ok, err, fail, ◌>>=◌}
use cloudevents_sdk_cpp.Text.{starts_with, starts_with_ignoring_case}
use cloudevents_sdk_cpp.Utf8.{is_valid_utf8}
use cloudevents_sdk_cpp.Percent.{percent_encode, percent_decode}
use cloudevents_sdk_cpp.Headers.{
  RawHeaders, Message, ContentMode, find, find_exact, contains, contains_exact, binary_mode,
  structured, batched,
}
use cloudevents_sdk_cpp.Platform.{Platform}
use cloudevents_sdk_cpp.Attributes.{make, datacontenttype_policy}
use cloudevents_sdk_cpp.Event.{Event, Builder, Options, AttributeValue, extension}
use cloudevents_sdk_cpp.Binding.{Traits, DecodeOptions}
use cloudevents_sdk_cpp.Binding.Write.{write_attributes, Writing, render_attribute}
use cloudevents_sdk_cpp.Binding.Read.{read_attributes}
use cloudevents_sdk_cpp.Binding.Body.{write_body, copy_body, take_body}
use cloudevents_sdk_cpp.Protobuf.Scan
use cloudevents_sdk_cpp.Binding.ProtobufStructured.{
  encode_protobuf_structured, decode_protobuf_structured,
}
use cloudevents_sdk_cpp.Binding.Structured.{JsonFormat, encode_structured, decode_structured}

-- `kafka_traits::encode_value`, which `decode_value` calls too
unfoldable pub encode_value : Bytes → Result Bytes
encode_value text =
    if not (is_valid_utf8 text)
    then fail Errc.invalid_utf8 "a Kafka header value must be a UTF-8 string" []
    else ok text

abbrev pub content_type_header : Bytes
content_type_header = codes "content-type"

abbrev pub kafka_traits : Traits
kafka_traits = record {
  attribute_prefix = codes "ce_";
  content_type_header = content_type_header;
  case_sensitive_names = true;
  content_type_as_attribute = false;
  encode_value = encode_value;
  decode_value = encode_value;
}

abbrev pub mode_of : Option Bytes → ContentMode
mode_of none = binary_mode
mode_of (some declared) =
    if starts_with declared (codes "application/cloudevents-batch")
    then batched
    else if starts_with declared (codes "application/cloudevents")
    then structured
    else binary_mode

unfoldable pub detect_content_mode : Message → ContentMode
detect_content_mode incoming = mode_of (find_exact incoming.header_fields content_type_header)

abbrev pub no_batch_mode {ℓ} : {A : Type ℓ} → Result A
no_batch_mode = fail Errc.invalid_argument "the Kafka binding defines no batch mode" []

module _ {P : Platform} (F : JsonFormat P) where
  abbrev pub written_message : Event P → Writing → Result Message
  written_message e (into, err failure) = err failure
  written_message e (into, ok done) = ok (write_body e (record { header_fields = into; body = [] }))

  unfoldable pub to_message : Event P → ContentMode → Result Message
  to_message e ContentMode.batched = no_batch_mode
  to_message e ContentMode.structured = encode_structured F kafka_traits e
  to_message e ContentMode.binary_mode = written_message e (write_attributes kafka_traits e [])

  abbrev pub declare_media_type : Option Bytes → Builder P → Result (Builder P)
  declare_media_type none b = ok b
  declare_media_type (some declared) b = do
    media_type ← make (datacontenttype_policy P) declared
    ok (record b { rest = record b.rest { datacontenttype = some media_type } })

  -- the builder of a message in binary mode
  unfoldable pub read_binary_mode : RawHeaders → Result (Builder P)
  read_binary_mode fields =
      if not (contains_exact fields (codes "ce_specversion"))
      then fail Errc.not_a_cloudevent "no ce_specversion header and no CloudEvents content type" []
      else (do
        under_construction ← read_attributes kafka_traits fields
        declare_media_type (find_exact fields content_type_header) under_construction)

  -- the branches of `from_message`
  unfoldable pub read_as : ContentMode → Message → DecodeOptions → Result (Event P)
  read_as ContentMode.batched incoming options = no_batch_mode
  read_as ContentMode.structured incoming options = decode_structured F incoming options
  read_as ContentMode.binary_mode incoming options =
      copy_body P incoming options (read_binary_mode incoming.header_fields)

  unfoldable pub from_message : Message → DecodeOptions → Result (Event P)
  from_message incoming options = read_as (detect_content_mode incoming) incoming options

  -- the branches of `from_message_moving`: the result, and the message as it is left
  unfoldable pub move_as : ContentMode → Message → DecodeOptions → Result (Event P) × Message
  move_as ContentMode.batched incoming options = (no_batch_mode, incoming)
  move_as ContentMode.structured incoming options = (decode_structured F incoming options, incoming)
  move_as ContentMode.binary_mode incoming options =
      take_body P incoming options (read_binary_mode incoming.header_fields)

  unfoldable pub from_message_moving : Message → DecodeOptions → Result (Event P) × Message
  from_message_moving incoming options = move_as (detect_content_mode incoming) incoming options

-- `record`
pub record Record : Type 0 where
  pub value : Message
  pub key : Option Bytes

abbrev pub no_key : {P : Platform} → Event P → Option Bytes
no_key e = none

abbrev pub rendered : Option AttributeValue → Option Bytes
rendered none = none
rendered (some stored) = some (render_attribute stored)

-- `partitionkey_mapper::key_of`
unfoldable pub partition_key : {P : Platform} → Event P → Option Bytes
partition_key e = rendered (extension e (codes "partitionkey"))

module _ {P : Platform} (F : JsonFormat P) (key_of : Event P → Option Bytes) where
  unfoldable pub to_record : Event P → ContentMode → Result Record
  to_record e mode = do
    laid_out ← to_message F e mode
    ok (record { value = laid_out; key = key_of e })

-- the structured mode in the Protobuf event format
unfoldable pub to_message_protobuf : {P : Platform} → Event P → Result Message
to_message_protobuf e = encode_protobuf_structured kafka_traits e

unfoldable pub from_message_protobuf :
    {P : Platform} → Message → Scan.DecodeOptions → Result (Event P)
from_message_protobuf incoming options = decode_protobuf_structured kafka_traits incoming options
