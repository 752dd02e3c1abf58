-- ===== src/Protobuf/RoundTrip.antt =====
-- An event written as a protobuf message and read back.
use cloudevents_sdk_cpp.Base.{
  ◌^◌, ◌<◌, ◌≤◌, ◌≡◌, ◌≢◌, refl, ap, true, ◌&&◌, inl, inr, Option, none, some, [], ◌∷◌, Bytes,
  Bool-cases, Option-cases, length, codes,
}
use cloudevents_sdk_cpp.Base.Lists.{same}
use cloudevents_sdk_cpp.Errors.{ok, ◌>>=◌}
use cloudevents_sdk_cpp.Utf8.{is_valid_utf8}
use cloudevents_sdk_cpp.Text.{iequals}
use cloudevents_sdk_cpp.Maps.Emplaced.{map_values}
use cloudevents_sdk_cpp.Platform.{Platform}
use cloudevents_sdk_cpp.Attributes.{
  id_policy, source_policy, type_policy, dataschema_policy, check_text, store_attribute,
  make_spec_version,
}
use cloudevents_sdk_cpp.Event.{DataT, Options, Event, build}
use cloudevents_sdk_cpp.Binding.Collected.{Passes, Each, make-Passes}
use cloudevents_sdk_cpp.Protobuf.Scan.{DecodeOptions, DataField, RawEvent, valid_uri_reference}
use cloudevents_sdk_cpp.Protobuf.Decode.{apply_proto_data, apply_data, build_event, decode_event}
use cloudevents_sdk_cpp.Protobuf.Encode.{encode_event, proto_type_url, type_url_of, encode}
use cloudevents_sdk_cpp.Protobuf.Entries.{read_arm, counted}
use cloudevents_sdk_cpp.Protobuf.Context.{attributes_list, IsCarried, Each-some}
use cloudevents_sdk_cpp.Protobuf.Attributes.{
  check_text-utf8, read_options, apply_attributes-attributes_list,
}
use cloudevents_sdk_cpp.Protobuf.Message.{
  with_binary, with_data, required_raw, scanned, scan_limited-encode_event,
}
use cloudevents_sdk_cpp.Protobuf.Fields.{IsTypeUrl, text_of}

type_url_of-some :
    (m s : Option Bytes) (url : Bytes)
    → type_url_of m s ≡ some url
    → (media_type : Bytes) × (m ≡ some media_type)
      × (s ≡ some url)
      × (valid_uri_reference url ≡ true)
type_url_of-some none s url h = cc
type_url_of-some (some m) none url h = cc
type_url_of-some (some m) (some s) url h =
    elim (Bool-cases (iequals m (codes "application/protobuf"))) [
      | inr p ↦ cc (rw p at h)
      | inl p ↦ elim (Bool-cases (valid_uri_reference s)) [
        | inr q ↦ cc (rw (p, q) at h)
        | inl q ↦ let e : s ≡ url = cc (rw (p, q) at h) in (m, refl, ap some e, rw (← e) q)
      ]
    ]

dataschema-full : (text : Bytes) → Passes dataschema_policy text → text ≢ []
unfolding check_text
dataschema-full [] h = λ e. cc
dataschema-full (c ∷ cs) h = λ e. cc

module _ {P : Platform} where
  -- The payload as the message carries it: a JSON payload is text, and so is read as text, and an
  -- empty binary payload without a media type is none.
  abbrev pub carried_payload : Option Bytes → DataT P → DataT P
  carried_payload none (DataT.binary_data []) = DataT.monostate
  carried_payload (some m) (DataT.binary_data []) = DataT.binary_data []
  carried_payload m (DataT.binary_data (c ∷ cs)) = DataT.binary_data (c ∷ cs)
  carried_payload m (DataT.text_data text) = DataT.text_data text
  carried_payload m (DataT.json_text raw) = DataT.text_data raw
  carried_payload m (DataT.json_document value) = DataT.text_data (P.dump_document value)
  carried_payload m DataT.monostate = DataT.monostate

  -- the event as it is read back
  abbrev pub read_event : Event P → Event P
  read_event e = record e {
    rest = record (read_options e) {
      payload = carried_payload e.rest.datacontenttype e.rest.payload;
    };
  }

  pub proto_type_url-IsTypeUrl : (e : Event P) → IsCarried e → Each IsTypeUrl (proto_type_url e)
  unfolding proto_type_url
  proto_type_url-IsTypeUrl e c = elim (Option-cases (proto_type_url e)) [
    | inl p ↦ rw p tt
    | inr (url, p) ↦
        let (m, _, s, valid) = type_url_of-some e.rest.datacontenttype e.rest.dataschema url p in
        let passes = Each-some (Passes dataschema_policy) e.rest.dataschema url c.dataschema s in
        rw p (dataschema-full url passes, check_text-utf8 _ url _ _ passes, valid)
  ]

  -- the options with no payload, and with the one given
  abbrev bare : Option Bytes → Option Bytes → Options P → Options P
  bare m s into = record into { datacontenttype = m; dataschema = s; payload = DataT.monostate }

  apply_data-binary :
      (raw : RawEvent) (into : Options P) (m s : Option Bytes) (value : Bytes)
      → apply_data (with_binary (type_url_of m s) value raw) (bare m s into)
        ≡ ok (record (bare m s into) { payload = carried_payload m (DataT.binary_data value) })
  unfolding apply_proto_data
  apply_data-binary raw into none s [] = refl
  apply_data-binary raw into none s (c ∷ cs) = refl
  apply_data-binary raw into (some m) none [] = refl
  apply_data-binary raw into (some m) none (c ∷ cs) = refl
  apply_data-binary raw into (some m) (some s) [] =
      elim (Bool-cases (iequals m (codes "application/protobuf") && valid_uri_reference s)) [
        | inl p ↦ rw p refl
        | inr p ↦ rw p refl
      ]
  apply_data-binary raw into (some m) (some s) (c ∷ cs) =
      elim (Bool-cases (iequals m (codes "application/protobuf") && valid_uri_reference s)) [
        | inl p ↦ rw p refl
        | inr p ↦ rw p refl
      ]

  apply_data-with_data :
      (raw : RawEvent) (into : Options P) (m s : Option Bytes) (payload : DataT P)
      → raw.data_kind ≡ DataField.absent
      → apply_data (with_data (type_url_of m s) payload raw) (bare m s into)
        ≡ ok (record (bare m s into) { payload = carried_payload m payload })
  apply_data-with_data raw into m s (DataT.text_data text) h = refl
  apply_data-with_data raw into m s (DataT.json_text text) h = refl
  apply_data-with_data raw into m s (DataT.json_document value) h = refl
  apply_data-with_data raw into m s DataT.monostate h = rw h refl
  apply_data-with_data raw into m s (DataT.binary_data value) h =
      apply_data-binary raw into m s value

  -- The data of a message says nothing of the attributes.
  with_data-attributes :
      (url : Option Bytes) (payload : DataT P) (raw : RawEvent)
      → ((with_data url payload raw).version ≡ raw.version)
        × ((with_data url payload raw).id ≡ raw.id)
        × ((with_data url payload raw).source ≡ raw.source)
        × ((with_data url payload raw).type ≡ raw.type)
        × ((with_data url payload raw).attributes ≡ raw.attributes)
  with_data-attributes none (DataT.binary_data value) raw = (refl, refl, refl, refl, refl)
  with_data-attributes (some u) (DataT.binary_data value) raw = (refl, refl, refl, refl, refl)
  with_data-attributes url (DataT.text_data text) raw = (refl, refl, refl, refl, refl)
  with_data-attributes url (DataT.json_text text) raw = (refl, refl, refl, refl, refl)
  with_data-attributes url (DataT.json_document value) raw = (refl, refl, refl, refl, refl)
  with_data-attributes url DataT.monostate raw = (refl, refl, refl, refl, refl)

  build_event-scanned : (e : Event P) → IsCarried e → build_event (scanned e) ≡ ok (read_event e)
  unfolding build_event scanned required_raw proto_type_url store_attribute make_spec_version same
      build
  build_event-scanned e c =
      let found =
        counted (required_raw e) (map_values read_arm (attributes_list e))
          (length (attributes_list e)) in
      let (v, i, s, t, a) = with_data-attributes (proto_type_url e) e.rest.payload found in
      rw
        (
          v,
          i,
          s,
          t,
          a,
          make-Passes id_policy e.id c.id,
          make-Passes source_policy e.source c.source,
          make-Passes type_policy e.type c.type,
          apply_attributes-attributes_list e c,
          apply_data-with_data found (read_options e) e.rest.datacontenttype e.rest.dataschema
              e.rest.payload refl,
        )
        refl

-- Decoding an encoded event gives the event back, for every event whose attributes are accepted by
-- their classes, whose extensions are in order with texts in UTF-8 and integers of 32 bits, whose
-- instants are in range and whose text payload is UTF-8, when its attributes and its encoded size
-- are within the limits of the decoder, the size limit being one of 64 bits. What may differ is
-- what the format does not carry: instants come back in UTC with the fewest digits, a JSON payload
-- comes back as text, and an empty binary payload without a media type as none.
pub decode_event-encode_event :
    {P : Platform} (options : DecodeOptions) (e : Event P)
    → IsCarried e
    → Each (λ text. is_valid_utf8 text ≡ true) (text_of e.rest.payload)
    → length (attributes_list e) ≤ options.max_attribute_count
    → length (encode_event e (proto_type_url e)) ≤ options.max_encoded_size
    → options.max_encoded_size < 2 ^ 64
    → (encode e >>= decode_event options) ≡ ok (read_event e)
unfolding decode_event encode
decode_event-encode_event options e c text count size word =
    rw (scan_limited-encode_event options e c (proto_type_url-IsTypeUrl e c) text count size word)
      (build_event-scanned e c)
