-- ===== src/Protobuf/Limits.antt =====
-- A message above a limit of the decoder is refused.
use cloudevents_sdk_cpp.Base.{
  ◌+◌, ◌^◌, ◌<◌, ◌≤◌, ◌≡◌, refl, arith, inl, inr, List, [], ◌∷◌, ◌++◌, All, All-append_left,
  Bool-cases, length, map, ltb, le→ltb,
}
use cloudevents_sdk_cpp.Errors.{Errc, Result, fail, ◌>>=◌}
use cloudevents_sdk_cpp.Maps.{Map, insert_or_assign}
use cloudevents_sdk_cpp.Maps.Emplaced.{map_values}
use cloudevents_sdk_cpp.Platform.{Platform}
use cloudevents_sdk_cpp.Event.{AttributeValue, Event}
use cloudevents_sdk_cpp.Protobuf.Value.{encode_value}
use cloudevents_sdk_cpp.Protobuf.Scan.{
  DecodeOptions, RawEvent, nothing_found, store_field, store_attribute_entry, scan_event,
}
use cloudevents_sdk_cpp.Protobuf.Decode.{decode_event, scan_limited}
use cloudevents_sdk_cpp.Protobuf.Encode.{encode, encode_event, proto_type_url}
use cloudevents_sdk_cpp.Protobuf.Visits.{
  Written, Fits, visit_all, visit_all-append, for_each_field-write_all,
}
use cloudevents_sdk_cpp.Protobuf.Entries.{
  entry_field, IsWritableEntry, read_arm, read_entry-entry_fields, counted,
}
use cloudevents_sdk_cpp.Protobuf.Context.{attributes_list, IsCarried}
use cloudevents_sdk_cpp.Protobuf.Attributes.{attributes_list-writable}
use cloudevents_sdk_cpp.Protobuf.Fields.{
  required_fields, data_fields, event_fields, event_fields-Fits,
}
use cloudevents_sdk_cpp.Protobuf.Message.{required_raw, required_fields-visited}
use cloudevents_sdk_cpp.Protobuf.RoundTrip.{proto_type_url-IsTypeUrl}

abbrev pub too_many {ℓ} : {A : Type ℓ} → Result A
too_many = fail Errc.out_of_range "the event has more attributes than the limit allows" []

module _ (options : DecodeOptions) where
  -- The entry behind the last one allowed is refused, whatever follows it.
  entries-refused :
      (m : Map AttributeValue) (more : List Written) (raw : RawEvent)
      → All IsWritableEntry m
      → All Fits (map entry_field (map_values encode_value m))
      → raw.attribute_entries ≤ options.max_attribute_count
      → options.max_attribute_count < raw.attribute_entries + length m
      → visit_all (store_field options) raw (map entry_field (map_values encode_value m) ++ more)
        ≡ too_many
  unfolding visit_all store_field store_attribute_entry
  entries-refused [] more raw h k l n = absurd (omega arith)
  entries-refused (e ∷ es) more raw (h, hs) (k, ks) l n =
      elim (Bool-cases (ltb options.max_attribute_count (raw.attribute_entries + 1))) [
        | inl p ↦ rw p refl
        | inr p ↦
            rw (p, read_entry-entry_fields e raw.attributes h k.2)
              (entries-refused es more
                (counted raw (insert_or_assign raw.attributes e.0 (read_arm e.1))
                  (raw.attribute_entries + 1))
                hs ks (ground arith) (omega arith))
      ]

-- An event with more attributes than the limit allows is refused with out_of_range, however valid it
-- is, when its encoded size is within the size limit.
pub decode_event-too_many :
    {P : Platform} (options : DecodeOptions) (e : Event P)
    → IsCarried e
    → options.max_attribute_count < length (attributes_list e)
    → length (encode_event e (proto_type_url e)) ≤ options.max_encoded_size
    → options.max_encoded_size < 2 ^ 64
    → (encode e >>= decode_event {P = P} options) ≡ too_many
unfolding decode_event encode scan_limited scan_event required_raw event_fields
decode_event-too_many options e c count size word =
    let (written, fits) = event_fields-Fits options e (proto_type_url-IsTypeUrl e c) size word in
    let entries = map entry_field (map_values encode_value (attributes_list e)) in
    let payload = data_fields (proto_type_url e) e.rest.payload in
    rw
      (
        le→ltb options.max_encoded_size (length (encode_event e (proto_type_url e))) size,
        written,
        for_each_field-write_all (store_field options) (event_fields e) nothing_found fits,
        visit_all-append (store_field options) (required_fields e) (entries ++ payload)
            nothing_found (required_raw e) (required_fields-visited options e c),
        entries-refused options (attributes_list e) payload (required_raw e)
            (attributes_list-writable e c) (All-append_left Fits entries payload fits.1.1.1.1)
            (omega arith) (omega arith),
      )
      refl
