-- ===== src/Protobuf/Decoded.antt =====
-- Every event that `decode_event` gives is valid, and encoding it and decoding it again gives it.
use cloudevents_sdk_cpp.Base.{
  ◌^◌, ◌<◌, ◌≤◌, ◌≡◌, refl, ap, sym, subst, ◌∙◌, true, Option, none, some, [], ◌∷◌, Bytes, IsByte,
  All, All-imp, length, codes,
}
use cloudevents_sdk_cpp.Errors.{ok, ◌>>=◌, bind_succeeds, ok-injective}
use cloudevents_sdk_cpp.Utf8.{is_valid_utf8}
use cloudevents_sdk_cpp.Maps.Emplaced.{map_values}
use cloudevents_sdk_cpp.Platform.{Platform}
use cloudevents_sdk_cpp.Timestamp.{Timestamp}
use cloudevents_sdk_cpp.Attributes.{
  id_policy, source_policy, type_policy, dataschema_policy, datacontenttype_policy,
  extension_name_policy, make, store_attribute, make_spec_version,
}
use cloudevents_sdk_cpp.Event.{DataT, Options, Event, ExtensionMap, build, no_options}
use cloudevents_sdk_cpp.Binding.Collected.{Passes, Each}
use cloudevents_sdk_cpp.Binding.Sound.{make-eq-ok, store_attribute-eq-ok}
use cloudevents_sdk_cpp.Protobuf.Scan.{DecodeOptions, DataField, RawEvent}
use cloudevents_sdk_cpp.Protobuf.Decode.{
  schema_or_url, or_protobuf, binary_payload, apply_attributes, apply_proto_data, apply_data,
  apply_kind, build_event, scan_limited, decode_event,
}
use cloudevents_sdk_cpp.Protobuf.Encode.{encode, encode_event, proto_type_url}
use cloudevents_sdk_cpp.Protobuf.Values.{InRange, read_back}
use cloudevents_sdk_cpp.Protobuf.Entries.{IsWritableEntry}
use cloudevents_sdk_cpp.Protobuf.Context.{utc_time, attributes_list, IsCarried}
use cloudevents_sdk_cpp.Protobuf.Fields.{text_of}
use cloudevents_sdk_cpp.Protobuf.RoundTrip.{carried_payload, read_event, decode_event-encode_event}
use cloudevents_sdk_cpp.Protobuf.Scanned.{IsReadData, IsScanned, scan_limited-IsScanned}
use cloudevents_sdk_cpp.Protobuf.Sound.{
  IsReadTime, IsReadExtension, IsReadOptions, datacontenttype-IsReadOptions,
  dataschema-IsReadOptions, apply_attributes-IsReadOptions, no_options-IsReadOptions,
}

-- The payload is one that is carried as it is.
abbrev IsReadPayload : {P : Platform} → Option Bytes → DataT P → Type 0
IsReadPayload m payload =
    Each (λ t. is_valid_utf8 t ≡ true) (text_of payload) × (carried_payload m payload ≡ payload)

-- options as `build_event` leaves them
abbrev IsBuilt : {P : Platform} → Options P → Type 0
IsBuilt o =
    IsReadOptions (record o { payload = DataT.monostate })
    × IsReadPayload o.datacontenttype o.payload

-- an event as `build_event` makes it
abbrev IsMade : {P : Platform} → Event P → Type 0
IsMade e =
    Passes id_policy e.id
    × Passes source_policy e.source
    × Passes type_policy e.type
    × IsBuilt e.rest

or_protobuf-Passes :
    (P : Platform) (m : Option Bytes)
    → Passes (datacontenttype_policy P) (codes "application/protobuf")
    → Each (Passes (datacontenttype_policy P)) m
    → Each (Passes (datacontenttype_policy P)) (or_protobuf m)
or_protobuf-Passes P none h k = h
or_protobuf-Passes P (some m) h k = k

schema_or_url-Passes :
    (s : Option Bytes) (url : Bytes) (slot : Option Bytes)
    → Each (Passes dataschema_policy) s
    → schema_or_url s url ≡ ok slot
    → Each (Passes dataschema_policy) slot
schema_or_url-Passes (some s) url slot h e =
    subst (Each (Passes dataschema_policy)) (ok-injective e) h
schema_or_url-Passes none [] slot h e = subst (Each (Passes dataschema_policy)) (ok-injective e) tt
schema_or_url-Passes none (c ∷ cs) slot h e =
    let (made, p, q) = bind_succeeds (make dataschema_policy (c ∷ cs)) _ e in
    subst (Each (Passes dataschema_policy)) (ok-injective q)
      (make-eq-ok dataschema_policy (c ∷ cs) made p)

Each-InRange : (o : Option Timestamp) → Each IsReadTime o → Each InRange o
Each-InRange none h = tt
Each-InRange (some t) h = h.0

read_time : (o : Option Timestamp) → Each IsReadTime o → utc_time o ≡ o
read_time none h = refl
read_time (some t) h = ap some h.1

read_extensions :
    (P : Platform) (es : ExtensionMap) → All (IsReadExtension P) es → map_values read_back es ≡ es
read_extensions P [] h = refl
read_extensions P (x ∷ xs) (h, hs) =
    ap (λ v. (x.0, v) ∷ map_values read_back xs) h.2.1
    ∙ ap (λ (t : ExtensionMap). x ∷ t) (read_extensions P xs hs)

module _ {P : Platform} where
  carried_binary :
      (m : Bytes) (octets : Bytes)
      → carried_payload {P = P} (some m) (DataT.binary_data octets) ≡ DataT.binary_data octets
  carried_binary m [] = refl
  carried_binary m (c ∷ cs) = refl

  or_protobuf-payload :
      (m : Option Bytes) (octets : Bytes)
      → IsReadPayload {P = P} (or_protobuf m) (DataT.binary_data octets)
  or_protobuf-payload none octets = (tt, carried_binary (codes "application/protobuf") octets)
  or_protobuf-payload (some m) octets = (tt, carried_binary m octets)

  binary_payload-IsRead :
      (octets : Bytes) (m : Option Bytes)
      → IsReadPayload {P = P} m (binary_payload octets m DataT.monostate)
  binary_payload-IsRead [] none = (tt, refl)
  binary_payload-IsRead [] (some m) = (tt, refl)
  binary_payload-IsRead (c ∷ cs) none = (tt, refl)
  binary_payload-IsRead (c ∷ cs) (some m) = (tt, refl)

  -- read options with their payload set
  with_payload :
      (o : Options P) (payload : DataT P)
      → IsReadOptions o
      → IsReadPayload o.datacontenttype payload
      → IsBuilt (record o { payload = payload })
  with_payload o payload k h =
      (subst (λ (d : DataT P). IsReadOptions (record o { payload = d })) k.empty k, h)

  apply_kind-IsBuilt :
      (kind : DataField) (raw : RawEvent) (o o' : Options P)
      → Passes (datacontenttype_policy P) (codes "application/protobuf")
      → IsReadData kind raw.payload
      → IsReadOptions o
      → apply_kind kind raw o ≡ ok o'
      → IsBuilt o'
  unfolding apply_proto_data
  apply_kind-IsBuilt DataField.absent raw o o' l h k e = subst IsBuilt (ok-injective e) (
      subst (λ (d : DataT P). IsBuilt (record o { payload = d })) (sym k.empty)
        (with_payload o DataT.monostate k (tt, refl)))
  apply_kind-IsBuilt DataField.text_field raw o o' l h k e =
      subst IsBuilt (ok-injective e) (with_payload o (DataT.text_data raw.payload) k (h, refl))
  apply_kind-IsBuilt DataField.binary_field raw o o' l h k e = subst IsBuilt (ok-injective e) (
      with_payload o (binary_payload raw.payload o.datacontenttype o.payload) k
        (rw k.empty (binary_payload-IsRead raw.payload o.datacontenttype)))
  apply_kind-IsBuilt DataField.proto_field raw o o' l h k e =
      let (slot, p, q) = bind_succeeds (schema_or_url o.dataschema raw.type_url) _ e in
      let typed =
        datacontenttype-IsReadOptions o k (or_protobuf o.datacontenttype)
          (or_protobuf-Passes P o.datacontenttype l k.media_type) in
      subst IsBuilt (ok-injective q) (
        with_payload
          (record o { datacontenttype = or_protobuf o.datacontenttype; dataschema = slot })
          (DataT.binary_data raw.payload)
          (dataschema-IsReadOptions (record o { datacontenttype = or_protobuf o.datacontenttype })
            typed slot (schema_or_url-Passes o.dataschema raw.type_url slot k.dataschema p))
          (or_protobuf-payload o.datacontenttype raw.payload))

  IsBuilt-IsCarried :
      (e : Event P)
      → Passes id_policy e.id
      → Passes source_policy e.source
      → Passes type_policy e.type
      → IsBuilt e.rest
      → IsCarried e
  IsBuilt-IsCarried e i s t (k, _) = record {
    id = i;
    source = s;
    type = t;
    dataschema = k.dataschema;
    subject = k.subject;
    time = Each-InRange e.rest.time k.time;
    media_type = k.media_type;
    names =
        All-imp (IsReadExtension P) (λ x. Passes (extension_name_policy P) x.0) e.rest.extensions
          (λ x h. h.0) k.extensions;
    writable =
        All-imp (IsReadExtension P) IsWritableEntry e.rest.extensions (λ x h. (h.1, h.2.0))
          k.extensions;
    ordered = k.ordered;
  }

  IsBuilt-read_event : (e : Event P) → IsBuilt e.rest → read_event e ≡ e
  IsBuilt-read_event e (k, (_, same_payload)) =
      rw
        (
          read_time e.rest.time k.time,
          read_extensions P e.rest.extensions k.extensions,
          same_payload,
        )
        refl

  build-eq-ok :
      (i s t : Option Bytes) (rest : Options P) (e : Event P)
      → Each (Passes id_policy) i
      → Each (Passes source_policy) s
      → Each (Passes type_policy) t
      → IsBuilt rest
      → build (record { id = i; source = s; type = t; rest = rest }) ≡ ok e
      → IsMade e
  unfolding build
  build-eq-ok none s t rest e hi hs ht hb h = cc
  build-eq-ok (some i) none t rest e hi hs ht hb h = cc
  build-eq-ok (some i) (some s) none rest e hi hs ht hb h = cc
  build-eq-ok (some i) (some s) (some t) rest e hi hs ht hb h =
      subst IsMade (ok-injective h) (hi, hs, ht, hb)

  build_event-eq-ok :
      (raw : RawEvent) (e : Event P)
      → Passes (datacontenttype_policy P) (codes "application/protobuf")
      → IsScanned raw
      → build_event raw ≡ ok e
      → IsMade e
  unfolding build_event
  build_event-eq-ok raw e l (entries, payload) h =
      let (_, _, h1) = bind_succeeds (make_spec_version raw.version) _ h in
      let (i, hi, h2) = bind_succeeds (store_attribute id_policy raw.id) _ h1 in
      let (s, hs, h3) = bind_succeeds (store_attribute source_policy raw.source) _ h2 in
      let (t, ht, h4) = bind_succeeds (store_attribute type_policy raw.type) _ h3 in
      let (applied, ha, h5) = bind_succeeds (apply_attributes raw.attributes no_options) _ h4 in
      let (rest, hr, h6) = bind_succeeds (apply_data raw applied) _ h5 in
      let read =
        apply_attributes-IsReadOptions raw.attributes no_options applied entries
          no_options-IsReadOptions ha in
      let built = apply_kind-IsBuilt raw.data_kind raw applied rest l payload read hr in
      build-eq-ok i s t rest e (store_attribute-eq-ok id_policy raw.id i hi)
        (store_attribute-eq-ok source_policy raw.source s hs)
        (store_attribute-eq-ok type_policy raw.type t ht) built h6

-- Every event decoded from bytes has attributes that their classes accept and extensions in order,
-- its texts are UTF-8, its integers have 32 bits and its instants are in range, and nothing of it is
-- lost when it is written again. (The type given to `proto_data` with no content type is valid.)
pub decode_event-IsCarried :
    {P : Platform} (options : DecodeOptions) (encoded : Bytes) (e : Event P)
    → All IsByte encoded
    → Passes (datacontenttype_policy P) (codes "application/protobuf")
    → decode_event options encoded ≡ ok e
    → IsCarried e × Each (λ t. is_valid_utf8 t ≡ true) (text_of e.rest.payload) × (read_event e ≡ e)
unfolding decode_event
decode_event-IsCarried options encoded e bytes l h =
    let (raw, p, q) = bind_succeeds (scan_limited options encoded) _ h in
    let (i, s, t, built) =
      build_event-eq-ok raw e l (scan_limited-IsScanned options encoded raw bytes p) q in
    (IsBuilt-IsCarried e i s t built, built.1.0, IsBuilt-read_event e built)

-- An event decoded from any bytes is encoded and decoded to itself, when what it is encoded to is
-- within the decoder's limits.
pub decode_event-stable :
    {P : Platform} (options : DecodeOptions) (encoded : Bytes) (e : Event P)
    → All IsByte encoded
    → Passes (datacontenttype_policy P) (codes "application/protobuf")
    → decode_event options encoded ≡ ok e
    → length (attributes_list e) ≤ options.max_attribute_count
    → length (encode_event e (proto_type_url e)) ≤ options.max_encoded_size
    → options.max_encoded_size < 2 ^ 64
    → (encode e >>= decode_event options) ≡ ok e
decode_event-stable options encoded e bytes l h count size word =
    let (carried, text, same_event) = decode_event-IsCarried options encoded e bytes l h in
    decode_event-encode_event options e carried text count size word ∙ ap ok same_event
