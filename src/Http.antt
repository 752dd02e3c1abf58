-- ===== src/Http.antt =====
-- include/cloudevents/binding/http.hpp: the HTTP binding.
pub mod Moving
pub mod RoundTrip
pub mod Values
use cloudevents_sdk_cpp.Base.{
  ℕ, Bool, true, false, not, ◌||◌, Option, none, some, List, [], ◌∷◌, Bytes, codes, ltb, ◌==◌,
  if◌then◌else◌,
}
use cloudevents_sdk_cpp.Errors.{Errc, Error, Result, ok, err, fail, ◌>>=◌}
use cloudevents_sdk_cpp.Text.{starts_with_ignoring_case}
use cloudevents_sdk_cpp.Utf8.{is_valid_utf8}
use cloudevents_sdk_cpp.Percent.{percent_encode, percent_decode}
use cloudevents_sdk_cpp.Headers.{
  RawHeaders, Message, ContentMode, set, find, contains, binary_mode, structured, batched,
}
use cloudevents_sdk_cpp.Platform.{Platform}
use cloudevents_sdk_cpp.Attributes.{make, datacontenttype_policy}
use cloudevents_sdk_cpp.Event.{Event, Builder, build, Options}
use cloudevents_sdk_cpp.Binding.{Traits, DecodeOptions}
use cloudevents_sdk_cpp.Binding.Write.{write_attributes, Writing}
use cloudevents_sdk_cpp.Binding.Read.{read_attributes}
use cloudevents_sdk_cpp.Binding.Body.{write_body, copy_body, take_body}
use cloudevents_sdk_cpp.Protobuf.Scan
use cloudevents_sdk_cpp.Binding.ProtobufStructured.{
  encode_protobuf_structured, decode_protobuf_structured,
}
use cloudevents_sdk_cpp.Binding.Structured.{
  JsonFormat, encode_structured, decode_structured, json_batch_content_type,
}

-- the concept `value_policy`
pub record ValuePolicy : Type 0 where
  pub encode : Bytes → Result Bytes
  pub decode : Bytes → Result Bytes

abbrev pub content_type_header : Bytes
content_type_header = codes "Content-Type"

abbrev pub http_traits : ValuePolicy → Traits
http_traits values = record {
  attribute_prefix = codes "ce-";
  content_type_header = content_type_header;
  case_sensitive_names = false;
  content_type_as_attribute = false;
  encode_value = values.encode;
  decode_value = values.decode;
}

unfoldable pub encode_percent : Bytes → Result Bytes
encode_percent text =
    if not (is_valid_utf8 text)
    then fail Errc.invalid_utf8 "an attribute value must be well-formed UTF-8" []
    else ok (percent_encode text)

abbrev pub percent_encoded_values : ValuePolicy
percent_encoded_values = record { encode = encode_percent; decode = percent_decode }

unfoldable pub has_control : Bytes → Bool
has_control [] = false
has_control (c ∷ cs) = ltb c 0x20 || c == 0x7f || has_control cs

unfoldable pub check_header_text : Bytes → Result Bytes
check_header_text text =
    if not (is_valid_utf8 text)
    then fail Errc.invalid_utf8 "a header value must be well-formed UTF-8" []
    else ok text

unfoldable pub encode_literal : Bytes → Result Bytes
encode_literal text =
    if has_control text
    then fail Errc.invalid_argument "a literal header value may not contain a control character" []
    else check_header_text text

abbrev pub literal_values : ValuePolicy
literal_values = record { encode = encode_literal; decode = check_header_text }

abbrev pub mode_of : Option Bytes → ContentMode
mode_of none = binary_mode
mode_of (some declared) =
    if starts_with_ignoring_case declared (codes "application/cloudevents-batch")
    then batched
    else if starts_with_ignoring_case declared (codes "application/cloudevents")
    then structured
    else binary_mode

unfoldable pub detect_content_mode : Message → ContentMode
detect_content_mode request = mode_of (find request.header_fields content_type_header)

abbrev pub batch_refused {ℓ} : {A : Type ℓ} → Result A
batch_refused = fail Errc.invalid_argument "this message is a batch; use from_batch_message" []

module _ {P : Platform} (F : JsonFormat P) (values : ValuePolicy) where
  abbrev pub written_message : Event P → Writing → Result Message
  written_message e (into, err failure) = err failure
  written_message e (into, ok done) = ok (write_body e (record { header_fields = into; body = [] }))

  unfoldable pub to_message : Event P → ContentMode → Result Message
  to_message e ContentMode.structured = encode_structured F (http_traits values) e
  to_message e ContentMode.batched =
      fail Errc.invalid_argument "a batch carries several events; use to_batch_message" []
  to_message e ContentMode.binary_mode =
      written_message e (write_attributes (http_traits values) e [])

  unfoldable pub to_batch_message : List (Event P) → Result Message
  to_batch_message events = do
    text ← F.encode_batch events
    ok (record { header_fields = set [] content_type_header json_batch_content_type; body = text })

  -- the media type that the Content-Type field declares, put into the builder
  abbrev pub declare_media_type : Option Bytes → Builder P → Result (Builder P)
  declare_media_type none b = ok b
  declare_media_type (some declared) b = do
    media_type ← make (datacontenttype_policy P) declared
    ok (record b { rest = record b.rest { datacontenttype = some media_type } })

  -- the builder of a message in binary mode
  unfoldable pub read_binary_mode : RawHeaders → Result (Builder P)
  read_binary_mode fields =
      if not (contains fields (codes "ce-specversion"))
      then fail Errc.not_a_cloudevent "no ce-specversion header and no CloudEvents content type" []
      else (do
        under_construction ← read_attributes (http_traits values) fields
        declare_media_type (find fields content_type_header) under_construction)

  -- the branches of `from_message`
  unfoldable pub read_as : ContentMode → Message → DecodeOptions → Result (Event P)
  read_as ContentMode.structured request options = decode_structured F request options
  read_as ContentMode.batched request options = batch_refused
  read_as ContentMode.binary_mode request options =
      copy_body P request options (read_binary_mode request.header_fields)

  unfoldable pub from_message : Message → DecodeOptions → Result (Event P)
  from_message request options = read_as (detect_content_mode request) request options

  -- the branches of `from_message_moving`: the result, and the message as it is left
  unfoldable pub move_as : ContentMode → Message → DecodeOptions → Result (Event P) × Message
  move_as ContentMode.structured request options = (decode_structured F request options, request)
  move_as ContentMode.batched request options = (batch_refused, request)
  move_as ContentMode.binary_mode request options =
      take_body P request options (read_binary_mode request.header_fields)

  unfoldable pub from_message_moving : Message → DecodeOptions → Result (Event P) × Message
  from_message_moving request options = move_as (detect_content_mode request) request options

  unfoldable pub from_batch_message : Message → DecodeOptions → Result (List (Event P))
  from_batch_message request options = elim (detect_content_mode request) [
    | batched ↦ F.decode_batch request.body options
    | _ ↦ fail Errc.not_a_cloudevent "the content type is not a CloudEvents batch" []
  ]

-- the structured mode in the Protobuf event format
unfoldable pub to_message_protobuf : {P : Platform} → Event P → Result Message
to_message_protobuf e = encode_protobuf_structured (http_traits percent_encoded_values) e

unfoldable pub from_message_protobuf :
    {P : Platform} → Message → Scan.DecodeOptions → Result (Event P)
from_message_protobuf request options =
    decode_protobuf_structured (http_traits percent_encoded_values) request options
