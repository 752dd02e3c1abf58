-- ===== src/Binding/Read.antt =====
-- include/cloudevents/binding/common.hpp: `apply_attribute` and `read_attributes`.
use cloudevents_sdk_cpp.Base.{Option, none, some, [], ◌∷◌, Bytes, codes, same, if◌then◌else◌}
use cloudevents_sdk_cpp.Errors.{Errc, Result, ok, fail, forward_failure, ◌>>=◌}
use cloudevents_sdk_cpp.Headers.{RawHeaders, two_fields}
use cloudevents_sdk_cpp.Platform.{Platform}
use cloudevents_sdk_cpp.Timestamp.{parse_timestamp}
use cloudevents_sdk_cpp.Attributes.{
  id_policy, source_policy, type_policy, subject_policy, dataschema_policy, datacontenttype_policy,
  extension_name_policy, make, store_attribute, make_spec_version,
}
use cloudevents_sdk_cpp.Event.{string, Builder, empty_builder}
use cloudevents_sdk_cpp.Maps.{insert_or_assign}
use cloudevents_sdk_cpp.Binding.{Traits, carries_prefix, first_repeated_name, attribute_name_of}

module _ (T : Traits) {P : Platform} where
  unfoldable pub apply_datacontenttype : Builder P → Bytes → Bytes → Result (Builder P)
  apply_datacontenttype into attribute value =
      if T.content_type_as_attribute
      then (do
        slot ← store_attribute (datacontenttype_policy P) value
        ok (record into { rest = record into.rest { datacontenttype = slot } }))
      else fail Errc.invalid_argument
          "this binding carries datacontenttype in its content-type field, not as a prefixed attribute"
          attribute

  abbrev pub apply_time : Builder P → Bytes → Result (Builder P)
  apply_time into value = do
    parsed ← forward_failure (parse_timestamp P value) (codes "time")
    ok (record into { rest = record into.rest { time = some parsed } })

  abbrev pub apply_extension : Builder P → Bytes → Bytes → Result (Builder P)
  apply_extension into attribute value = do
    name ← make (extension_name_policy P) attribute
    ok (record into {
      rest = record into.rest {
        extensions = insert_or_assign into.rest.extensions name (string value);
      };
    })

  unfoldable pub apply_attribute : Builder P → Bytes → Bytes → Result (Builder P)
  apply_attribute into attribute value =
      if same attribute (codes "datacontenttype")
      then apply_datacontenttype into attribute value
      else if same attribute (codes "specversion")
      then (do _ ← make_spec_version value; ok into)
      else if same attribute (codes "id")
      then (do slot ← store_attribute id_policy value; ok (record into { id = slot }))
      else if same attribute (codes "source")
      then (do slot ← store_attribute source_policy value; ok (record into { source = slot }))
      else if same attribute (codes "type")
      then (do slot ← store_attribute type_policy value; ok (record into { type = slot }))
      else if same attribute (codes "dataschema")
      then (do
        slot ← store_attribute dataschema_policy value
        ok (record into { rest = record into.rest { dataschema = slot } }))
      else if same attribute (codes "subject")
      then (do
        slot ← store_attribute subject_policy value
        ok (record into { rest = record into.rest { subject = slot } }))
      else if same attribute (codes "time")
      then apply_time into value
      else apply_extension into attribute value

  -- the loop of `read_attributes`
  unfoldable pub read_loop : Builder P → RawHeaders → Result (Builder P)
  read_loop under_construction [] = ok under_construction
  read_loop under_construction (field ∷ fields) =
      if carries_prefix T field.0
      then (do
        let attribute = attribute_name_of T field.0
        decoded ← forward_failure (T.decode_value field.1) attribute
        applied ← apply_attribute under_construction attribute decoded
        read_loop applied fields)
      else read_loop under_construction fields

  abbrev pub read_unless : Option Bytes → RawHeaders → Result (Builder P)
  read_unless (some repeated) delivered = fail Errc.invalid_argument two_fields repeated
  read_unless none delivered = read_loop empty_builder delivered

  unfoldable pub read_attributes : RawHeaders → Result (Builder P)
  read_attributes delivered = read_unless (first_repeated_name T delivered) delivered
