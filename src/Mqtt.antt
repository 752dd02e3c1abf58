-- ===== src/Mqtt.antt =====
-- include/cloudevents/binding/mqtt.hpp: the MQTT binding. A name policy is its prefix.
pub mod Foreign
pub mod RoundTrip
use cloudevents_sdk_cpp.Base.{
  Bool, true, false, not, ◌||◌, ◌&&◌, Option, none, some, List, [], ◌∷◌, ◌++◌, Bytes, codes, length,
  drop, ltb, ◌==◌, ◌+◌, ℕ, same, if◌then◌else◌,
}
use cloudevents_sdk_cpp.Errors.{Errc, Error, Result, ok, err, fail, ◌>>=◌, ◌>>◌}
use cloudevents_sdk_cpp.Text.{starts_with}
use cloudevents_sdk_cpp.Utf8.{is_valid_utf8}
use cloudevents_sdk_cpp.Headers.{
  RawHeaders, Message, ContentMode, add, find_exact, contains_exact, binary_mode, structured,
  batched,
}
use cloudevents_sdk_cpp.Platform.{Platform}
use cloudevents_sdk_cpp.Attributes.{make, datacontenttype_policy}
use cloudevents_sdk_cpp.Event.{Event, Builder, Options}
use cloudevents_sdk_cpp.Binding.{Traits, DecodeOptions}
use cloudevents_sdk_cpp.Binding.Write.{write_attributes, Writing}
use cloudevents_sdk_cpp.Binding.Read.{read_attributes}
use cloudevents_sdk_cpp.Binding.Body.{write_body, copy_body}
use cloudevents_sdk_cpp.Binding.Structured.{JsonFormat, encode_structured, decode_structured}

abbrev pub content_type_header : Bytes
content_type_header = codes "content-type"

unfoldable pub has_nul : Bytes → Bool
has_nul [] = false
has_nul (c ∷ cs) = c == 0 || has_nul cs

-- `mqtt_traits::encode_value`, which `decode_value` calls too
unfoldable pub encode_value : Bytes → Result Bytes
encode_value text =
    if not (is_valid_utf8 text)
    then fail Errc.invalid_utf8 "an MQTT User Property value must be a UTF-8 string" []
    else if has_nul text
    then fail Errc.invalid_argument "an MQTT User Property value may not contain NUL" []
    else if ltb 65535 (length text)
    then fail Errc.invalid_argument "an MQTT User Property value is at most 65535 bytes" []
    else ok text

abbrev pub unprefixed_names : Bytes
unprefixed_names = []

abbrev pub prefixed_names : Bytes
prefixed_names = codes "ce-"

abbrev pub mqtt_traits : Bytes → Traits
mqtt_traits prefix = record {
  attribute_prefix = prefix;
  content_type_header = content_type_header;
  case_sensitive_names = true;
  content_type_as_attribute = false;
  encode_value = encode_value;
  decode_value = encode_value;
}

abbrev pub mode_of : Option Bytes → ContentMode
mode_of none = binary_mode
mode_of (some declared) =
    if starts_with declared (codes "application/cloudevents-batch")
    then batched
    else if starts_with declared (codes "application/cloudevents")
    then structured
    else binary_mode

unfoldable pub detect_content_mode : Message → ContentMode
detect_content_mode incoming = mode_of (find_exact incoming.header_fields content_type_header)

pub data FieldKind : Type 0 where
  foreign attribute media_type_copy : FieldKind

abbrev pub is_empty : Bytes → Bool
is_empty [] = true
is_empty (c ∷ cs) = false

abbrev pub equals_declared : Option Bytes → Bytes → Bool
equals_declared none value = false
equals_declared (some declared) value = same declared value

-- the result, and `already_seen` after it, which is set on success
unfoldable pub accept_media_type_copy : Option Bytes → Bytes → Bool → Result Bool
accept_media_type_copy declared value already_seen =
    if already_seen || not (equals_declared declared value)
    then fail Errc.invalid_argument
        "a datacontenttype User Property must equal the Content Type property, once"
        (codes "datacontenttype")
    else ok true

-- the `switch` over the kind, in the order of its cases
abbrev pub switch {ℓ} : {A : Type ℓ} → FieldKind → A → A → A → A
switch foreign x y z = x
switch attribute x y z = y
switch media_type_copy x y z = z

module _ (P : Platform) (prefix : Bytes) where
  unfoldable pub kind_of : Bytes → FieldKind
  kind_of name =
      if not (starts_with name prefix) || not (P.match_attribute_name (drop (length prefix) name))
      then foreign
      else if is_empty prefix && same name (codes "datacontenttype")
      then media_type_copy
      else attribute

  -- the loop of `attribute_fields`, with the Content Type that `accept_media_type_copy` looks up
  unfoldable pub fields_loop : Option Bytes → RawHeaders → Bool → RawHeaders → Result RawHeaders
  fields_loop declared fields seen [] = ok fields
  fields_loop declared fields seen (f ∷ fs) =
      switch (kind_of f.0) (fields_loop declared fields seen fs)
        (fields_loop declared (add fields f.0 f.1) seen fs)
        (accept_media_type_copy declared f.1 seen
          >>= (λ seen'. fields_loop declared fields seen' fs))

  unfoldable pub attribute_fields : RawHeaders → Result RawHeaders
  attribute_fields incoming =
      fields_loop (find_exact incoming content_type_header) [] false incoming

  unfoldable pub carries_version : RawHeaders → Bool
  carries_version incoming = contains_exact incoming (prefix ++ codes "specversion")

-- `std::ranges::count_if` of the fields named content-type
unfoldable pub count_content_type : RawHeaders → ℕ
count_content_type [] = 0
count_content_type (f ∷ fs) =
    if same f.0 content_type_header then count_content_type fs + 1 else count_content_type fs

abbrev pub no_batch_mode {ℓ} : {A : Type ℓ} → Result A
no_batch_mode = fail Errc.invalid_argument "the MQTT binding defines no batch mode" []

module _ {P : Platform} (F : JsonFormat P) (prefix : Bytes) where
  abbrev pub encode_binary : Event P → Writing → Result Message
  encode_binary e (into, err failure) = err failure
  encode_binary e (into, ok done) = ok (write_body e (record { header_fields = into; body = [] }))

  unfoldable pub to_message : Event P → ContentMode → Result Message
  to_message e ContentMode.batched = no_batch_mode
  to_message e ContentMode.structured = encode_structured F (mqtt_traits prefix) e
  to_message e ContentMode.binary_mode =
      encode_binary e (write_attributes (mqtt_traits prefix) e [])

  abbrev pub declare_media_type : Option Bytes → Builder P → Result (Builder P)
  declare_media_type none b = ok b
  declare_media_type (some declared) b = do
    media_type ← make (datacontenttype_policy P) declared
    ok (record b { rest = record b.rest { datacontenttype = some media_type } })

  -- the builder that `decode_binary` makes from the fields
  unfoldable pub collect_binary : RawHeaders → Result (Builder P)
  collect_binary incoming = do
    fields ← attribute_fields P prefix incoming
    under_construction ← read_attributes (mqtt_traits prefix) fields
    declare_media_type (find_exact incoming content_type_header) under_construction

  unfoldable pub decode_binary : Message → DecodeOptions → Result (Event P)
  decode_binary incoming options =
      copy_body P incoming options (collect_binary incoming.header_fields)

  abbrev pub read_as : ContentMode → Message → DecodeOptions → Result (Event P)
  read_as ContentMode.batched incoming options = no_batch_mode
  read_as ContentMode.structured incoming options = decode_structured F incoming options
  read_as ContentMode.binary_mode incoming options =
      if not (carries_version P prefix incoming.header_fields)
      then fail Errc.not_a_cloudevent
          "no CloudEvents Content Type property and no specversion User Property" []
      else decode_binary incoming options

  unfoldable pub from_message : Message → DecodeOptions → Result (Event P)
  from_message incoming options =
      if ltb 1 (count_content_type incoming.header_fields)
      then fail Errc.invalid_argument
          "a User Property named content-type beside the Content Type property" []
      else read_as (detect_content_mode incoming) incoming options

-- the payload form of MQTT 3.1.1
module _ {P : Platform} (F : JsonFormat P) where
  unfoldable pub to_payload : Event P → Result Bytes
  to_payload e = F.encode e

  unfoldable pub from_payload : Bytes → DecodeOptions → Result (Event P)
  from_payload payload options = F.decode payload options

  unfoldable pub from_payload_message : Message → DecodeOptions → Result (Event P)
  from_payload_message incoming options = decode_structured F incoming options
