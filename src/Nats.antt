-- ===== src/Nats.antt =====
-- include/cloudevents/binding/nats.hpp: the NATS binding.
pub mod Moving
pub mod RoundTrip
use cloudevents_sdk_cpp.Base.{
  Bool, true, false, not, Option, none, some, List, [], ◌∷◌, Bytes, codes, if◌then◌else◌,
}
use cloudevents_sdk_cpp.Errors.{Errc, Error, Result, ok, err, fail, ◌>>=◌}
use cloudevents_sdk_cpp.Text.{starts_with, starts_with_ignoring_case}
use cloudevents_sdk_cpp.Utf8.{is_valid_utf8}
use cloudevents_sdk_cpp.Percent.{percent_encode, percent_decode}
use cloudevents_sdk_cpp.Headers.{
  RawHeaders, Message, ContentMode, find, find_exact, contains, contains_exact, binary_mode,
  structured, batched,
}
use cloudevents_sdk_cpp.Platform.{Platform}
use cloudevents_sdk_cpp.Attributes.{make, datacontenttype_policy}
use cloudevents_sdk_cpp.Event.{Event, Builder, Options, extension}
use cloudevents_sdk_cpp.Binding.{Traits, DecodeOptions}
use cloudevents_sdk_cpp.Binding.Write.{write_attributes, Writing, render_attribute}
use cloudevents_sdk_cpp.Binding.Read.{read_attributes}
use cloudevents_sdk_cpp.Binding.Body.{write_body, copy_body, take_body}
use cloudevents_sdk_cpp.Protobuf.Decode
use cloudevents_sdk_cpp.Protobuf.Encode
use cloudevents_sdk_cpp.Protobuf.Scan
use cloudevents_sdk_cpp.Binding.ProtobufStructured.{
  encode_protobuf_structured, decode_protobuf_structured,
}
use cloudevents_sdk_cpp.Binding.Structured.{JsonFormat, encode_structured, decode_structured}

abbrev pub content_type_header : Bytes
content_type_header = codes "Content-Type"

abbrev pub nats_traits : Traits
nats_traits = record {
  attribute_prefix = codes "ce-";
  content_type_header = content_type_header;
  case_sensitive_names = false;
  content_type_as_attribute = true;
  encode_value = λ text. ok (percent_encode text);
  decode_value = percent_decode;
}

abbrev pub mode_of : Option Bytes → ContentMode
mode_of none = binary_mode
mode_of (some declared) =
    if starts_with_ignoring_case declared (codes "application/cloudevents")
    then structured
    else binary_mode

unfoldable pub detect_content_mode : Message → ContentMode
detect_content_mode incoming = mode_of (find incoming.header_fields content_type_header)

abbrev pub no_batch_mode {ℓ} : {A : Type ℓ} → Result A
no_batch_mode = fail Errc.invalid_argument "the NATS binding defines no batch mode" []

module _ {P : Platform} (F : JsonFormat P) where
  abbrev pub written_message : Event P → Writing → Result Message
  written_message e (into, err failure) = err failure
  written_message e (into, ok done) = ok (write_body e (record { header_fields = into; body = [] }))

  unfoldable pub to_message : Event P → ContentMode → Result Message
  to_message e ContentMode.batched = no_batch_mode
  to_message e ContentMode.structured = encode_structured F nats_traits e
  to_message e ContentMode.binary_mode = written_message e (write_attributes nats_traits e [])

  -- the payload form
  unfoldable pub to_payload : Event P → Result Bytes
  to_payload e = F.encode e

  unfoldable pub from_payload : Bytes → DecodeOptions → Result (Event P)
  from_payload payload options = F.decode payload options

  -- the result, and the payload as it is left
  unfoldable pub from_payload_moving : Bytes → DecodeOptions → Result (Event P) × Bytes
  from_payload_moving payload options = (from_payload payload options, payload)

  -- the builder of a message in binary mode
  unfoldable pub read_binary_mode : RawHeaders → Result (Builder P)
  read_binary_mode fields =
      if not (contains fields (codes "ce-specversion"))
      then fail Errc.not_a_cloudevent "no ce-specversion header and no CloudEvents content type" []
      else read_attributes nats_traits fields

  -- the branches of `from_message`, which compares the mode with `structured` alone
  unfoldable pub read_as : ContentMode → Message → DecodeOptions → Result (Event P)
  read_as ContentMode.structured incoming options = decode_structured F incoming options
  read_as _ incoming options =
      copy_body P incoming options (read_binary_mode incoming.header_fields)

  unfoldable pub from_message : Message → DecodeOptions → Result (Event P)
  from_message incoming options = read_as (detect_content_mode incoming) incoming options

  -- the branches of `from_message_moving`: the result, and the message as it is left
  unfoldable pub move_as : ContentMode → Message → DecodeOptions → Result (Event P) × Message
  move_as ContentMode.structured incoming options = (decode_structured F incoming options, incoming)
  move_as _ incoming options =
      take_body P incoming options (read_binary_mode incoming.header_fields)

  unfoldable pub from_message_moving : Message → DecodeOptions → Result (Event P) × Message
  from_message_moving incoming options = move_as (detect_content_mode incoming) incoming options

-- the structured mode in the Protobuf event format
unfoldable pub to_message_protobuf : {P : Platform} → Event P → Result Message
to_message_protobuf e = encode_protobuf_structured nats_traits e

unfoldable pub from_message_protobuf :
    {P : Platform} → Message → Scan.DecodeOptions → Result (Event P)
from_message_protobuf incoming options = decode_protobuf_structured nats_traits incoming options

unfoldable pub to_payload_protobuf : {P : Platform} → Event P → Result Bytes
to_payload_protobuf e = Encode.encode e

unfoldable pub from_payload_protobuf :
    {P : Platform} → Bytes → Scan.DecodeOptions → Result (Event P)
from_payload_protobuf payload options = Decode.decode_event options payload
