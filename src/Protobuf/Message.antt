-- ===== src/Protobuf/Message.antt =====
-- The message that the reader scans from the fields of an event.
use cloudevents_sdk_cpp.Base.{
  ℕ, ◌+◌, ◌^◌, ◌<◌, ◌≤◌, ◌≡◌, refl, ap, ◌∙◌, arith, true, Option, none, some, [], ◌++◌, Bytes, All,
  All-append_left, All-append_right, length, map, le→ltb, codes,
}
use cloudevents_sdk_cpp.Errors.{ok}
use cloudevents_sdk_cpp.Utf8.{is_valid_utf8, read_utf8_lead, continuations}
use cloudevents_sdk_cpp.Maps.Emplaced.{assign_all-append, map_values, map_values-Ordered}
use cloudevents_sdk_cpp.Platform.{Platform}
use cloudevents_sdk_cpp.Wire.{read_text}
use cloudevents_sdk_cpp.Event.{DataT, Event}
use cloudevents_sdk_cpp.Binding.Collected.{Each}
use cloudevents_sdk_cpp.Protobuf.Value.{encode_value}
use cloudevents_sdk_cpp.Protobuf.Scan.{
  DecodeOptions, DataField, RawEvent, nothing_found, any_visit, store_required, store_field,
  store_data, store_any, scan_event,
}
use cloudevents_sdk_cpp.Protobuf.Decode.{scan_limited}
use cloudevents_sdk_cpp.Protobuf.Encode.{encode_event, proto_type_url}
use cloudevents_sdk_cpp.Protobuf.Visits.{
  bytes_field, field_of, visit_all-step, Fits, visit_all, Fits-within, visit_all-append,
  for_each_field-write_all,
}
use cloudevents_sdk_cpp.Protobuf.Entries.{entry_field, read_arm, counted, entries-visited}
use cloudevents_sdk_cpp.Protobuf.Context.{attributes_list, IsCarried}
use cloudevents_sdk_cpp.Protobuf.Attributes.{
  check_text-utf8, attributes_list-writable, attributes_list-Ordered,
}
use cloudevents_sdk_cpp.Protobuf.Fields.{
  IsTypeUrl, text_of, required_fields, any_fields, data_fields, event_fields, event_fields-Fits,
}

version_text-utf8 : is_valid_utf8 (codes "1.0") ≡ true
unfolding is_valid_utf8 read_utf8_lead continuations
version_text-utf8 = refl

-- each required attribute read into its place
module _ (options : DecodeOptions) (raw : RawEvent) (text : Bytes)
    (checked : is_valid_utf8 text ≡ true) where
  store_id : store_field options (field_of (bytes_field 1 text)) raw ≡ ok (record raw { id = text })
  unfolding store_field store_required read_text
  store_id = rw checked refl

  store_source :
      store_field options (field_of (bytes_field 2 text)) raw ≡ ok (record raw { source = text })
  unfolding store_field store_required read_text
  store_source = rw checked refl

  store_version :
      store_field options (field_of (bytes_field 3 text)) raw ≡ ok (record raw { version = text })
  unfolding store_field store_required read_text
  store_version = rw checked refl

  store_type :
      store_field options (field_of (bytes_field 4 text)) raw ≡ ok (record raw { type = text })
  unfolding store_field store_required read_text
  store_type = rw checked refl

-- the message with its data read
abbrev pub with_binary : Option Bytes → Bytes → RawEvent → RawEvent
with_binary none value raw = record raw {
  type_url = [];
  payload = value;
  data_kind = DataField.binary_field;
}
with_binary (some url) value raw = record raw {
  type_url = url;
  payload = value;
  data_kind = DataField.proto_field;
}

abbrev pub with_text : Bytes → RawEvent → RawEvent
with_text value raw = record raw {
  type_url = [];
  payload = value;
  data_kind = DataField.text_field;
}

module _ {P : Platform} where
  -- the message with its data read
  abbrev pub with_data : Option Bytes → DataT P → RawEvent → RawEvent
  with_data url (DataT.binary_data value) raw = with_binary url value raw
  with_data url (DataT.text_data value) raw = with_text value raw
  with_data url (DataT.json_text value) raw = with_text value raw
  with_data url (DataT.json_document value) raw = with_text (P.dump_document value) raw
  with_data url DataT.monostate raw = raw

  data_fields-visited :
      (options : DecodeOptions) (raw : RawEvent) (url : Option Bytes) (payload : DataT P)
      → Each IsTypeUrl url
      → Each (λ text. is_valid_utf8 text ≡ true) (text_of payload)
      → All Fits (data_fields url payload)
      → visit_all (store_field options) raw (data_fields url payload)
        ≡ ok (with_data url payload raw)
  unfolding visit_all store_field store_data store_any read_text
  data_fields-visited options raw none (DataT.binary_data value) h k l = refl
  data_fields-visited options raw (some url) (DataT.binary_data value) (full, text, reference) k
        (l, _) =
      let fields = any_fields url value in
      rw
        (
          for_each_field-write_all any_visit fields ([], []) (Fits-within fields (omega arith) l.2),
          text,
          reference,
        )
        refl
  data_fields-visited options raw url (DataT.text_data value) h k l = rw k refl
  data_fields-visited options raw url (DataT.json_text value) h k l = rw k refl
  data_fields-visited options raw url (DataT.json_document value) h k l = rw k refl
  data_fields-visited options raw url DataT.monostate h k l = refl

  unfoldable pub required_raw : Event P → RawEvent
  required_raw e = record nothing_found {
    id = e.id;
    source = e.source;
    version = codes "1.0";
    type = e.type;
  }

  pub required_fields-visited :
      (options : DecodeOptions) (e : Event P)
      → IsCarried e
      → visit_all (store_field options) nothing_found (required_fields e) ≡ ok (required_raw e)
  unfolding required_raw
  required_fields-visited options e c =
      let visit = store_field options in
      visit_all-step visit (bytes_field 1 e.id) _ nothing_found _
        (store_id options nothing_found e.id (check_text-utf8 _ e.id _ _ c.id))
      ∙ visit_all-step visit (bytes_field 2 e.source) _ _ _
          (store_source options _ e.source (check_text-utf8 _ e.source _ _ c.source))
      ∙ visit_all-step visit (bytes_field 3 (codes "1.0")) _ _ _
          (store_version options _ (codes "1.0") version_text-utf8)
      ∙ visit_all-step visit (bytes_field 4 e.type) _ _ _
          (store_type options _ e.type (check_text-utf8 _ e.type _ _ c.type))
      ∙ unfold visit_all in refl

  entries_visited :
      (options : DecodeOptions) (e : Event P)
      → IsCarried e
      → All Fits (map entry_field (map_values encode_value (attributes_list e)))
      → length (attributes_list e) ≤ options.max_attribute_count
      → visit_all
          (store_field options)
          (required_raw e)
          (map entry_field (map_values encode_value (attributes_list e)))
        ≡ ok (
            counted
              (required_raw e)
              (map_values read_arm (attributes_list e))
              (length (attributes_list e)))
  unfolding required_raw
  entries_visited options e c fits count =
      entries-visited options (attributes_list e) (required_raw e) (attributes_list-writable e c)
        fits (omega arith)
      ∙ ap (λ m. ok (counted (required_raw e) m (0 + length (attributes_list e))))
          (assign_all-append [] (map_values read_arm (attributes_list e))
            (map_values-Ordered read_arm (attributes_list e) (attributes_list-Ordered e c)))
      ∙ ap (λ (n : ℕ). ok (counted (required_raw e) (map_values read_arm (attributes_list e)) n))
          (omega arith)

  -- what `scan_event` finds in the message of the event
  unfoldable pub scanned : Event P → RawEvent
  scanned e = with_data (proto_type_url e) e.rest.payload (
      counted (required_raw e) (map_values read_arm (attributes_list e))
        (length (attributes_list e)))

  event_fields-visited :
      (options : DecodeOptions) (e : Event P)
      → IsCarried e
      → Each IsTypeUrl (proto_type_url e)
      → Each (λ text. is_valid_utf8 text ≡ true) (text_of e.rest.payload)
      → length (attributes_list e) ≤ options.max_attribute_count
      → All Fits (event_fields e)
      → visit_all (store_field options) nothing_found (event_fields e) ≡ ok (scanned e)
  unfolding event_fields scanned
  event_fields-visited options e c u t count (i, (s, (v, (k, fits)))) =
      let entries = map entry_field (map_values encode_value (attributes_list e)) in
      let payload = data_fields (proto_type_url e) e.rest.payload in
      visit_all-append (store_field options) (required_fields e) (entries ++ payload) nothing_found
        (required_raw e) (required_fields-visited options e c)
      ∙ visit_all-append (store_field options) entries payload (required_raw e) _
          (entries_visited options e c (All-append_left Fits entries payload fits) count)
      ∙ data_fields-visited options _ (proto_type_url e) e.rest.payload u t
          (All-append_right Fits entries payload fits)

  pub scan_limited-encode_event :
      (options : DecodeOptions) (e : Event P)
      → IsCarried e
      → Each IsTypeUrl (proto_type_url e)
      → Each (λ text. is_valid_utf8 text ≡ true) (text_of e.rest.payload)
      → length (attributes_list e) ≤ options.max_attribute_count
      → length (encode_event e (proto_type_url e)) ≤ options.max_encoded_size
      → options.max_encoded_size < 2 ^ 64
      → scan_limited options (encode_event e (proto_type_url e)) ≡ ok (scanned e)
  unfolding scan_limited scan_event scanned
  scan_limited-encode_event options e c u t count size word =
      let (written, fits) = event_fields-Fits options e u size word in
      rw
        (
          le→ltb options.max_encoded_size (length (encode_event e (proto_type_url e))) size,
          written,
          for_each_field-write_all (store_field options) (event_fields e) nothing_found fits,
        )
        (event_fields-visited options e c u t count fits)
