-- ===== src/Protobuf/Scanned.antt =====
-- What holds of the message that the reader scans from any bytes.
use cloudevents_sdk_cpp.Base.{
  ◌+◌, ◌≡◌, refl, subst, true, inl, inr, Bool-cases, none, [], Bytes, IsByte, All, ltb, leb, ◌==◌,
  length,
}
use cloudevents_sdk_cpp.Errors.{ok, bind_succeeds, ok-injective}
use cloudevents_sdk_cpp.Utf8.{is_valid_utf8}
use cloudevents_sdk_cpp.Maps.Emplaced.{insert_or_assign-All}
use cloudevents_sdk_cpp.Wire.{read_text}
use cloudevents_sdk_cpp.Binding.Collected.{Each}
use cloudevents_sdk_cpp.Protobuf.{Field, for_each_field}
use cloudevents_sdk_cpp.Protobuf.Value.{Arm, read_value, is_length_delimited}
use cloudevents_sdk_cpp.Protobuf.Scan.{
  DecodeOptions, AttributeMap, DataField, RawEvent, nothing_found, entry_visit, read_entry,
  any_visit, store_required, store_attribute_entry, store_any, store_data, store_field, scan_event,
  key_field, value_field, type_field, attributes_field, proto_data_field, binary_data_field,
  valid_uri_reference, id_field, source_field, spec_version_field,
}
use cloudevents_sdk_cpp.Protobuf.Decode.{scan_limited}
use cloudevents_sdk_cpp.Protobuf.Invariant.{IsReadField, for_each_field-Holds}
use cloudevents_sdk_cpp.Protobuf.ReadValues.{IsRead, read_text-eq-ok, read_value-IsRead}

abbrev pub IsReadEntry : Bytes × Arm → Type 0
IsReadEntry e = (is_valid_utf8 e.0 ≡ true) × Each IsRead e.1

abbrev pub IsReadData : DataField → Bytes → Type 0
IsReadData DataField.text_field payload = is_valid_utf8 payload ≡ true
IsReadData _ payload = Unit

-- The attributes and a payload that is text are such as the writer writes.
abbrev pub IsScanned : RawEvent → Type 0
IsScanned raw = All IsReadEntry raw.attributes × IsReadData raw.data_kind raw.payload

entry_visit-IsReadEntry :
    (f : Field) (s s' : Bytes × Arm)
    → IsReadField f
    → IsReadEntry s
    → entry_visit f s ≡ ok s'
    → IsReadEntry s'
entry_visit-IsReadEntry f (key, value) s' (_, bytes) (h, k) e =
    elim (Bool-cases (is_length_delimited f.kind)) [
      | inr p ↦ subst IsReadEntry (ok-injective (rw p at e)) (h, k)
      | inl p ↦ elim (Bool-cases (f.number == key_field)) [
        | inl q ↦
            let (text, r, u) = bind_succeeds (read_text f.body) _ (rw (p, q) at e) in
            subst IsReadEntry (ok-injective u) ((read_text-eq-ok f.body text r).1, k)
        | inr q ↦ elim (Bool-cases (f.number == value_field)) [
          | inl t ↦
              let (read, r, u) = bind_succeeds (read_value f.body) _ (rw (p, q, t) at e) in
              subst IsReadEntry (ok-injective u) (h, read_value-IsRead f.body read bytes r)
          | inr t ↦ subst IsReadEntry (ok-injective (rw (p, q, t) at e)) (h, k)
        ]
      ]
    ]

empty-utf8 : is_valid_utf8 [] ≡ true
unfolding is_valid_utf8
empty-utf8 = refl

read_entry-IsReadEntry :
    (body : Bytes) (attributes read : AttributeMap)
    → All IsByte body
    → All IsReadEntry attributes
    → read_entry body attributes ≡ ok read
    → All IsReadEntry read
unfolding read_entry
read_entry-IsReadEntry body attributes read h k e =
    let (entry, p, q) = bind_succeeds (for_each_field entry_visit ([], none) body) _ e in
    subst (All IsReadEntry) (ok-injective q) (
      insert_or_assign-All IsReadEntry attributes entry.0 entry.1
        (for_each_field-Holds entry_visit IsReadEntry entry_visit-IsReadEntry body ([], none) entry
          h (empty-utf8, tt) p)
        k)

store_required-IsScanned :
    (f : Field) (s s' : RawEvent) → IsScanned s → store_required f s ≡ ok s' → IsScanned s'
unfolding store_required
store_required-IsScanned f s s' h e =
    let (text, p, q) = bind_succeeds (read_text f.body) _ e in
    subst IsScanned (ok-injective q) (elim (Bool-cases (f.number == id_field)) [
      | inl a ↦ rw a h
      | inr a ↦ elim (Bool-cases (f.number == source_field)) [
        | inl b ↦ rw (a, b) h
        | inr b ↦ elim (Bool-cases (f.number == spec_version_field)) [
          | inl c ↦ rw (a, b, c) h
          | inr c ↦ rw (a, b, c) h
        ]
      ]
    ])

store_any-IsScanned :
    (body : Bytes) (s s' : RawEvent)
    → s.data_kind ≡ DataField.proto_field
    → IsScanned s
    → store_any body s ≡ ok s'
    → IsScanned s'
unfolding store_any
store_any-IsScanned body s s' d h e =
    let (any, p, q) = bind_succeeds (for_each_field any_visit ([], []) body) _ e in
    elim (Bool-cases (valid_uri_reference any.0)) [
      | inr r ↦ cc (rw r at q)
      | inl r ↦ subst IsScanned (ok-injective (rw r at q)) (h.0, rw d tt)
    ]

store_data-IsScanned :
    (f : Field) (s s' : RawEvent) → IsScanned s → store_data f s ≡ ok s' → IsScanned s'
unfolding store_data
store_data-IsScanned f s s' h e = elim (Bool-cases (f.number == binary_data_field)) [
  | inl p ↦ subst IsScanned (ok-injective (rw p at e)) (h.0, tt)
  | inr p ↦ elim (Bool-cases (f.number == proto_data_field)) [
    | inl q ↦
        store_any-IsScanned f.body
          (record s { type_url = []; payload = f.body; data_kind = DataField.proto_field }) s' refl
          (h.0, tt) (rw (p, q) at e)
    | inr q ↦
        let (text, r, u) = bind_succeeds (read_text f.body) _ (rw (p, q) at e) in
        let (same_text, utf8) = read_text-eq-ok f.body text r in
        subst IsScanned (ok-injective u) (h.0, rw same_text utf8)
  ]
]

module _ (options : DecodeOptions) where
  store_attribute_entry-IsScanned :
      (f : Field) (s s' : RawEvent)
      → IsReadField f
      → IsScanned s
      → store_attribute_entry options f s ≡ ok s'
      → IsScanned s'
  unfolding store_attribute_entry
  store_attribute_entry-IsScanned f s s' (_, bytes) (h, k) e =
      elim (Bool-cases (ltb options.max_attribute_count (s.attribute_entries + 1))) [
        | inl p ↦ cc (rw p at e)
        | inr p ↦
            let (read, q, r) = bind_succeeds (read_entry f.body s.attributes) _ (rw p at e) in
            subst IsScanned (ok-injective r)
              (read_entry-IsReadEntry f.body s.attributes read bytes h q, k)
      ]

  store_field-IsScanned :
      (f : Field) (s s' : RawEvent)
      → IsReadField f
      → IsScanned s
      → store_field options f s ≡ ok s'
      → IsScanned s'
  unfolding store_field
  store_field-IsScanned f s s' b h e = elim (Bool-cases (is_length_delimited f.kind)) [
    | inr p ↦ subst IsScanned (ok-injective (rw p at e)) h
    | inl p ↦ elim (Bool-cases (leb f.number type_field)) [
      | inl q ↦ store_required-IsScanned f s s' h (rw (p, q) at e)
      | inr q ↦ elim (Bool-cases (f.number == attributes_field)) [
        | inl r ↦ store_attribute_entry-IsScanned f s s' b h (rw (p, q, r) at e)
        | inr r ↦ elim (Bool-cases (leb f.number proto_data_field)) [
          | inl t ↦ store_data-IsScanned f s s' h (rw (p, q, r, t) at e)
          | inr t ↦ subst IsScanned (ok-injective (rw (p, q, r, t) at e)) h
        ]
      ]
    ]
  ]

  pub scan_limited-IsScanned :
      (encoded : Bytes) (raw : RawEvent)
      → All IsByte encoded
      → scan_limited options encoded ≡ ok raw
      → IsScanned raw
  unfolding scan_limited scan_event
  scan_limited-IsScanned encoded raw h e =
      elim (Bool-cases (ltb options.max_encoded_size (length encoded))) [
        | inl p ↦ cc (rw p at e)
        | inr p ↦
            for_each_field-Holds (store_field options) IsScanned store_field-IsScanned encoded
              nothing_found raw h (tt, tt) (rw p at e)
      ]
