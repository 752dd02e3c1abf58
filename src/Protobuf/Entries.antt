-- ===== src/Protobuf/Entries.antt =====
-- The entries of the attributes map of a message, written and read.
use cloudevents_sdk_cpp.Base.{
  ℕ, ◌+◌, ◌^◌, ◌<◌, ◌≤◌, ◌≡◌, refl, ap, ◌∙◌, arith, true, some, none, List, [], ◌∷◌, Bytes, All,
  length, map, le→ltb,
}
use cloudevents_sdk_cpp.Errors.{ok}
use cloudevents_sdk_cpp.Utf8.{is_valid_utf8}
use cloudevents_sdk_cpp.Maps.{Map, insert_or_assign}
use cloudevents_sdk_cpp.Maps.Emplaced.{assign_all, map_values}
use cloudevents_sdk_cpp.Wire.{read_text}
use cloudevents_sdk_cpp.Event.{AttributeValue}
use cloudevents_sdk_cpp.Protobuf.Value.{Arm, encode_value}
use cloudevents_sdk_cpp.Protobuf.Scan.{
  DecodeOptions, AttributeMap, RawEvent, entry_visit, read_entry, store_attribute_entry,
  store_field,
}
use cloudevents_sdk_cpp.Protobuf.Encode.{put_entry, put_entries}
use cloudevents_sdk_cpp.Protobuf.Visits.{
  Written, bytes_field, Fits, write, write_all, visit_all, Fits-within, for_each_field-write_all,
}
use cloudevents_sdk_cpp.Protobuf.Values.{IsWritable, read_back, read_value-encode_value}

abbrev pub entry_fields : Bytes → Bytes → List Written
entry_fields name value = bytes_field 1 name ∷ bytes_field 2 value ∷ []

abbrev pub entry_field : Bytes × Bytes → Written
entry_field e = bytes_field 5 (write_all [] (entry_fields e.0 e.1))

pub put_entries-write_all :
    (m : Map Bytes) (out : Bytes) → put_entries out m ≡ write_all out (map entry_field m)
unfolding put_entries put_entry write_all write
put_entries-write_all [] out = refl
put_entries-write_all (e ∷ es) out = put_entries-write_all es (put_entry out e.0 e.1)

abbrev pub IsWritableEntry : Bytes × AttributeValue → Type 0
IsWritableEntry e = (is_valid_utf8 e.0 ≡ true) × IsWritable e.1

-- what the reader holds for a value written
abbrev pub read_arm : AttributeValue → Arm
read_arm v = some (read_back v)

pub read_entry-entry_fields :
    (e : Bytes × AttributeValue) (attributes : AttributeMap)
    → IsWritableEntry e
    → length (write_all [] (entry_fields e.0 (encode_value e.1))) < 2 ^ 64
    → read_entry (write_all [] (entry_fields e.0 (encode_value e.1))) attributes
      ≡ ok (insert_or_assign attributes e.0 (read_arm e.1))
unfolding read_entry visit_all read_text
read_entry-entry_fields e attributes (text, writable) h =
    let fields = entry_fields e.0 (encode_value e.1) in
    let (key, value) = Fits-within fields (omega arith) h in
    rw
      (
        for_each_field-write_all entry_visit fields ([], none) (key, value),
        text,
        read_value-encode_value e.1 writable value.0.2,
      )
      refl

-- the message so far with so many entries read, which made that map
abbrev pub counted : RawEvent → AttributeMap → ℕ → RawEvent
counted raw attributes entries = record raw { attributes = attributes; attribute_entries = entries }

module _ (options : DecodeOptions) where
  -- Each entry is read and put into the map, when there are no more than the limit allows.
  pub entries-visited :
      (m : Map AttributeValue) (raw : RawEvent)
      → All IsWritableEntry m
      → All Fits (map entry_field (map_values encode_value m))
      → raw.attribute_entries + length m ≤ options.max_attribute_count
      → visit_all (store_field options) raw (map entry_field (map_values encode_value m))
        ≡ ok (
            counted raw
              (assign_all raw.attributes (map_values read_arm m))
              (raw.attribute_entries + length m))
  unfolding visit_all store_field store_attribute_entry assign_all
  entries-visited [] raw h k l = ap (λ (n : ℕ). ok (counted raw raw.attributes n)) (omega arith)
  entries-visited (e ∷ es) raw (h, hs) (k, ks) l =
      rw
        (
          le→ltb options.max_attribute_count (raw.attribute_entries + 1) (omega arith),
          read_entry-entry_fields e raw.attributes h k.2,
        )
        (entries-visited es
            (counted raw (insert_or_assign raw.attributes e.0 (read_arm e.1))
              (raw.attribute_entries + 1))
            hs ks (omega arith)
          ∙ ap
              (λ (n : ℕ). ok (
                counted raw
                  (assign_all (insert_or_assign raw.attributes e.0 (read_arm e.1))
                    (map_values read_arm es))
                  n))
              (omega arith))
