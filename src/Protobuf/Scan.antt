-- ===== src/Protobuf/Scan.antt =====
-- include/cloudevents/format/protobuf_format.hpp: the wire message with nothing checked beyond its
-- structure, from `read_entry` to `scan_event`.
use cloudevents_sdk_cpp.Base.{
  ℕ, zero, suc, ◌+◌, Bool, false, not, ◌&&◌, ◌||◌, none, [], ◌∷◌, Bytes, codes, ltb, leb, ◌==◌,
  within, if◌then◌else◌,
}
use cloudevents_sdk_cpp.Errors.{Errc, Result, ok, fail, ◌>>=◌}
use cloudevents_sdk_cpp.Wire.{read_text}
use cloudevents_sdk_cpp.Maps.{Map, insert_or_assign}
use cloudevents_sdk_cpp.Protobuf.{Field, for_each_field}
use cloudevents_sdk_cpp.Protobuf.Value.{Arm, read_value, is_length_delimited}

pub record DecodeOptions : Type 0 where
  pub max_encoded_size : ℕ
  pub max_attribute_count : ℕ
  pub max_batch_event_count : ℕ

abbrev pub default_options : DecodeOptions
default_options = record {
  max_encoded_size = 16777216;
  max_attribute_count = 1024;
  max_batch_event_count = 100000;
}

-- `attribute_map`
abbrev pub AttributeMap : Type 0
AttributeMap = Map Arm

abbrev pub key_field : ℕ
key_field = 1

abbrev pub value_field : ℕ
value_field = 2

-- the lambda of `read_entry`, on the key and the value read so far
abbrev pub entry_visit : Field → Bytes × Arm → Result (Bytes × Arm)
entry_visit current (key, value) =
    if not (is_length_delimited current.kind)
    then ok (key, value)
    else if current.number == key_field
    then (do text ← read_text current.body; ok (text, value))
    else if current.number == value_field
    then (do read ← read_value current.body; ok (key, read))
    else ok (key, value)

unfoldable pub read_entry : Bytes → AttributeMap → Result AttributeMap
read_entry body attributes = do
  entry ← for_each_field entry_visit ([], none) body
  ok (insert_or_assign attributes entry.0 entry.1)

pub data DataField : Type 0 where
  absent binary_field text_field proto_field : DataField

pub record RawEvent : Type 0 where
  pub id : Bytes
  pub source : Bytes
  pub version : Bytes
  pub type : Bytes
  pub attributes : AttributeMap
  pub attribute_entries : ℕ
  pub data_kind : DataField
  pub payload : Bytes
  pub type_url : Bytes

abbrev pub nothing_found : RawEvent
nothing_found = record {
  id = [];
  source = [];
  version = [];
  type = [];
  attributes = [];
  attribute_entries = 0;
  data_kind = absent;
  payload = [];
  type_url = [];
}

abbrev pub is_ascii_alphanumeric : ℕ → Bool
is_ascii_alphanumeric c = within b'a' b'z' c || within b'A' b'Z' c || within b'0' b'9' c

abbrev pub is_hex_digit : ℕ → Bool
is_hex_digit c = within b'0' b'9' c || within b'a' b'f' c || within b'A' b'F' c

abbrev pub contains_byte : Bytes → ℕ → Bool
contains_byte [] c = false
contains_byte (x ∷ xs) c = x == c || contains_byte xs c

abbrev pub uri_punctuation : Bytes
uri_punctuation = codes "-._~:/?#[]@!$&'()*+,;="

abbrev pub count_byte : ℕ → Bytes → ℕ
count_byte c [] = 0
count_byte c (x ∷ xs) = if x == c then count_byte c xs + 1 else count_byte c xs

-- The loop of `valid_uri_reference`: whether it runs through, with no escape digits due at the end.
unfoldable pub uri_loop : ℕ → Bytes → Bool
uri_loop due [] = due == 0
uri_loop (suc due) (c ∷ text) = is_hex_digit c && uri_loop due text
uri_loop zero (c ∷ text) =
    let escape = uri_loop 2 text in
    let plain = uri_loop 0 text in
    if c == b'%'
    then escape
    else if not (is_ascii_alphanumeric c) && not (contains_byte uri_punctuation c)
    then false
    else plain

unfoldable pub valid_uri_reference : Bytes → Bool
valid_uri_reference text = uri_loop 0 text && leb (count_byte b'#' text) 1

-- the numbers of `event_field`
abbrev pub id_field : ℕ
id_field = 1

abbrev pub source_field : ℕ
source_field = 2

abbrev pub spec_version_field : ℕ
spec_version_field = 3

abbrev pub type_field : ℕ
type_field = 4

abbrev pub attributes_field : ℕ
attributes_field = 5

abbrev pub binary_data_field : ℕ
binary_data_field = 6

abbrev pub text_data_field : ℕ
text_data_field = 7

abbrev pub proto_data_field : ℕ
proto_data_field = 8

abbrev pub type_url_field : ℕ
type_url_field = 1

abbrev pub any_value_field : ℕ
any_value_field = 2

unfoldable pub store_required : Field → RawEvent → Result RawEvent
store_required current into = do
  text ← read_text current.body
  ok (
      if current.number == id_field
      then record into { id = text }
      else if current.number == source_field
      then record into { source = text }
      else if current.number == spec_version_field
      then record into { version = text }
      else record into { type = text })

unfoldable pub store_attribute_entry : DecodeOptions → Field → RawEvent → Result RawEvent
store_attribute_entry options current into =
    if ltb options.max_attribute_count (into.attribute_entries + 1)
    then fail Errc.out_of_range "the event has more attributes than the limit allows" []
    else (do
      attributes ← read_entry current.body into.attributes
      ok (record into { attributes = attributes; attribute_entries = into.attribute_entries + 1 }))

-- the lambda of `store_any`, on the type URL and the value read so far
abbrev pub any_visit : Field → Bytes × Bytes → Result (Bytes × Bytes)
any_visit current (type_url, value) =
    if not (is_length_delimited current.kind)
    then ok (type_url, value)
    else if current.number == any_value_field
    then ok (type_url, current.body)
    else if current.number == type_url_field
    then (do text ← read_text current.body; ok (text, value))
    else ok (type_url, value)

abbrev pub store_checked_any : RawEvent → Bytes × Bytes → Result RawEvent
store_checked_any into (type_url, value) =
    if not (valid_uri_reference type_url)
    then fail Errc.parse_error "the Any type URL is not a URI-reference" (codes "proto_data")
    else ok (record into { type_url = type_url; payload = value })

unfoldable pub store_any : Bytes → RawEvent → Result RawEvent
store_any body into = do any ← for_each_field any_visit ([], []) body; store_checked_any into any

unfoldable pub store_data : Field → RawEvent → Result RawEvent
store_data current into =
    let held = record into { type_url = []; payload = current.body } in
    if current.number == binary_data_field
    then ok (record held { data_kind = binary_field })
    else if current.number == proto_data_field
    then store_any current.body (record held { data_kind = proto_field })
    else (do _ ← read_text current.body; ok (record held { data_kind = text_field }))

unfoldable pub store_field : DecodeOptions → Field → RawEvent → Result RawEvent
store_field options current into =
    if not (is_length_delimited current.kind)
    then ok into
    else if leb current.number type_field
    then store_required current into
    else if current.number == attributes_field
    then store_attribute_entry options current into
    else if leb current.number proto_data_field
    then store_data current into
    else ok into

unfoldable pub scan_event : DecodeOptions → Bytes → Result RawEvent
scan_event options body = for_each_field (store_field options) nothing_found body
