-- ===== src/Protobuf/Fields.antt =====
-- The fields of an event as a protobuf message.
use cloudevents_sdk_cpp.Base.{
  ◌^◌, ◌<◌, ◌≤◌, ◌≡◌, ◌≢◌, refl, ap, sym, ◌∙◌, arith, true, Option, none, some, List, [], ◌∷◌, ◌++◌,
  Bytes, All, All-append, length, map, codes,
}
use cloudevents_sdk_cpp.Utf8.{is_valid_utf8}
use cloudevents_sdk_cpp.Maps.{Map}
use cloudevents_sdk_cpp.Maps.Emplaced.{map_values}
use cloudevents_sdk_cpp.Platform.{Platform}
use cloudevents_sdk_cpp.Event.{DataT, Event}
use cloudevents_sdk_cpp.Binding.Collected.{Each}
use cloudevents_sdk_cpp.Protobuf.Value.{encode_value}
use cloudevents_sdk_cpp.Protobuf.Scan.{DecodeOptions, valid_uri_reference}
use cloudevents_sdk_cpp.Protobuf.Encode.{
  put_required, put_any, put_data, encode_event, proto_type_url,
}
use cloudevents_sdk_cpp.Protobuf.Visits.{
  Written, bytes_field, Fits, IsNumbered, write, write_all, Fits-within, write_all-join,
}
use cloudevents_sdk_cpp.Protobuf.Entries.{entry_field, put_entries-write_all}
use cloudevents_sdk_cpp.Protobuf.Context.{attributes_list, encode_attributes-attributes_list}

-- the fields of an event, in the order in which they are written
abbrev pub required_fields : {P : Platform} → Event P → List Written
required_fields e =
    bytes_field 1 e.id
    ∷ bytes_field 2 e.source
    ∷ bytes_field 3 (codes "1.0")
    ∷ bytes_field 4 e.type
    ∷ []

abbrev pub any_fields : Bytes → Bytes → List Written
any_fields type_url value = bytes_field 1 type_url ∷ bytes_field 2 value ∷ []

abbrev pub binary_fields : Option Bytes → Bytes → List Written
binary_fields none value = bytes_field 6 value ∷ []
binary_fields (some type_url) value = bytes_field 8 (write_all [] (any_fields type_url value)) ∷ []

-- An empty type URL is not written, and one that is written is a URI-reference.
abbrev pub IsTypeUrl : Bytes → Type 0
IsTypeUrl url = (url ≢ []) × (is_valid_utf8 url ≡ true) × (valid_uri_reference url ≡ true)

entry_fields-IsNumbered : (m : Map Bytes) → All IsNumbered (map entry_field m)
entry_fields-IsNumbered [] = tt
entry_fields-IsNumbered (e ∷ es) = (omega arith, entry_fields-IsNumbered es)

IsTypeUrl-full : (url : Option Bytes) → Each IsTypeUrl url → Each (λ u. u ≢ []) url
IsTypeUrl-full none h = tt
IsTypeUrl-full (some u) h = h.0

module _ {P : Platform} where
  abbrev pub data_fields : Option Bytes → DataT P → List Written
  data_fields type_url (DataT.binary_data value) = binary_fields type_url value
  data_fields type_url (DataT.text_data value) = bytes_field 7 value ∷ []
  data_fields type_url (DataT.json_text raw) = bytes_field 7 raw ∷ []
  data_fields type_url (DataT.json_document value) = bytes_field 7 (P.dump_document value) ∷ []
  data_fields type_url DataT.monostate = []

  -- the text of a payload that is text
  abbrev pub text_of : DataT P → Option Bytes
  text_of (DataT.text_data value) = some value
  text_of (DataT.json_text raw) = some raw
  text_of (DataT.json_document value) = some (P.dump_document value)
  text_of _ = none

  put_data-write_all :
      (out : Bytes) (type_url : Option Bytes) (payload : DataT P)
      → Each (λ url. url ≢ []) type_url
      → put_data out type_url payload ≡ write_all out (data_fields type_url payload)
  unfolding put_data put_any write_all write
  put_data-write_all out none (DataT.binary_data value) h = refl
  put_data-write_all out (some []) (DataT.binary_data value) h = absurd (h refl)
  put_data-write_all out (some (c ∷ cs)) (DataT.binary_data value) h = refl
  put_data-write_all out url (DataT.text_data value) h = refl
  put_data-write_all out url (DataT.json_text raw) h = refl
  put_data-write_all out url (DataT.json_document value) h = refl
  put_data-write_all out url DataT.monostate h = refl

  unfoldable pub event_fields : Event P → List Written
  event_fields e =
      required_fields e
      ++ (map entry_field (map_values encode_value (attributes_list e))
          ++ data_fields (proto_type_url e) e.rest.payload)

  encode_event-write_all :
      (e : Event P)
      → Each (λ url. url ≢ []) (proto_type_url e)
      → encode_event e (proto_type_url e) ≡ write_all [] (event_fields e)
  unfolding encode_event event_fields write_all write
  encode_event-write_all e h =
      rw
        (
          encode_attributes-attributes_list e,
          put_entries-write_all (map_values encode_value (attributes_list e)),
        )
        (put_data-write_all _ (proto_type_url e) e.rest.payload h
          ∙ sym (
              write_all-join (put_required e)
                (map entry_field (map_values encode_value (attributes_list e)))
                (data_fields (proto_type_url e) e.rest.payload)))

  data_fields-IsNumbered :
      (url : Option Bytes) (payload : DataT P) → All IsNumbered (data_fields url payload)
  data_fields-IsNumbered none (DataT.binary_data value) = omega arith
  data_fields-IsNumbered (some url) (DataT.binary_data value) = omega arith
  data_fields-IsNumbered url (DataT.text_data value) = omega arith
  data_fields-IsNumbered url (DataT.json_text value) = omega arith
  data_fields-IsNumbered url (DataT.json_document value) = omega arith
  data_fields-IsNumbered url DataT.monostate = tt

  event_fields-IsNumbered : (e : Event P) → All IsNumbered (event_fields e)
  unfolding event_fields
  event_fields-IsNumbered e = (
    omega arith,
    (
      omega arith,
      (
        omega arith,
        (
          omega arith,
          All-append IsNumbered (map entry_field (map_values encode_value (attributes_list e)))
              (data_fields (proto_type_url e) e.rest.payload)
              (entry_fields-IsNumbered (map_values encode_value (attributes_list e)))
              (data_fields-IsNumbered (proto_type_url e) e.rest.payload),
        ),
      ),
    ),
  )

  -- The fields of a message fit the wire when the message does.
  pub event_fields-Fits :
      (options : DecodeOptions) (e : Event P)
      → Each IsTypeUrl (proto_type_url e)
      → length (encode_event e (proto_type_url e)) ≤ options.max_encoded_size
      → options.max_encoded_size < 2 ^ 64
      → (encode_event e (proto_type_url e) ≡ write_all [] (event_fields e))
        × All Fits (event_fields e)
  event_fields-Fits options e u size word =
      let written : encode_event e (proto_type_url e) ≡ write_all [] (event_fields e) =
        encode_event-write_all e (IsTypeUrl-full (proto_type_url e) u) in
      (
        written,
        Fits-within (event_fields e) (event_fields-IsNumbered e)
            (omega (arith, ap (λ (b : Bytes). length b) written)),
      )
