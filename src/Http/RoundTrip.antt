-- ===== src/Http/RoundTrip.antt =====
-- An event written to an HTTP message in binary mode and read back.
use cloudevents_sdk_cpp.Base.{
  ◌≡◌, refl, true, false, Option, none, some, [], ◌++◌, Bytes, All, codes,
}
use cloudevents_sdk_cpp.Errors.{ok, ◌>>=◌}
use cloudevents_sdk_cpp.Text.{ascii_lower, iequals, starts_with_ignoring_case}
use cloudevents_sdk_cpp.Headers.{RawHeaders, find_if, find, contains, binary_mode}
use cloudevents_sdk_cpp.Platform.{Platform}
use cloudevents_sdk_cpp.Attributes.{datacontenttype_policy}
use cloudevents_sdk_cpp.Event.{Event, DataT, build}
use cloudevents_sdk_cpp.Timestamp.RoundTrip.{HasGroups}
use cloudevents_sdk_cpp.Binding.{Traits, DecodeOptions, same_field_name, carries_prefix}
use cloudevents_sdk_cpp.Binding.Body.{body_of, write_body, read_body}
use cloudevents_sdk_cpp.Binding.Structured.{JsonFormat}
use cloudevents_sdk_cpp.Binding.Carried.{attributes_of, extension_texts, IsName}
use cloudevents_sdk_cpp.Binding.Collected.{
  shown_time, IsValid, Passes, Each, staged, as_texts, make-Passes,
}
use cloudevents_sdk_cpp.Binding.Binary.{
  received, fields, find-fields, write_attributes-fields, read_attributes-fields,
}
use cloudevents_sdk_cpp.Http.{
  ValuePolicy, http_traits, content_type_header, mode_of, detect_content_mode, to_message,
  from_message, read_as, read_binary_mode, declare_media_type,
}

module _ (values : ValuePolicy) (E : Bytes → Bytes) (Good : Bytes → Type 0)
    (encodes : (v : Bytes) → Good v → values.encode v ≡ ok (E v))
    (decodes : (v : Bytes) → Good v → values.decode (E v) ≡ ok v) where
  abbrev T : Traits
  T = http_traits values

  unprefixed : carries_prefix T T.content_type_header ≡ false
  unfolding carries_prefix starts_with_ignoring_case iequals ascii_lower
  unprefixed = refl

  separate : (n : Bytes) → same_field_name T (T.attribute_prefix ++ n) T.content_type_header ≡ false
  unfolding iequals ascii_lower
  separate n = refl

  itself : same_field_name T T.content_type_header T.content_type_header ≡ true
  unfolding iequals ascii_lower
  itself = refl

  declare_media_type-Each :
      {P : Platform} (F : JsonFormat P) (media_type : Option Bytes) (e : Event P)
      → Each (Passes (datacontenttype_policy P)) media_type
      → declare_media_type F values media_type (
          staged e.id e.source e.type e.rest.dataschema e.rest.subject
            (shown_time e.rest.time)
            (as_texts e.rest.extensions))
        ≡ ok (record {
          id = some e.id;
          source = some e.source;
          type = some e.type;
          rest = record e.rest {
            datacontenttype = media_type;
            time = shown_time e.rest.time;
            extensions = as_texts e.rest.extensions;
            payload = DataT.monostate;
          };
        })
  declare_media_type-Each F none e h = refl
  declare_media_type-Each {P = P} F (some m) e h =
      rw (make-Passes (datacontenttype_policy P) m h) refl

  module _ {P : Platform} (F : JsonFormat P) (e : Event P) (valid : IsValid e)
      (timed : Each (HasGroups P) e.rest.time) (good : All (λ a. Good a.1) (attributes_of e))
      (lower : All (λ f. IsName f.0) (extension_texts e.rest.extensions)) where
    abbrev sent : RawHeaders
    sent = fields T E Good encodes decodes refl unprefixed separate itself e valid timed good lower

    find-sent : find sent content_type_header ≡ e.rest.datacontenttype
    find-sent =
        find-fields T E Good encodes decodes refl unprefixed separate itself e valid timed good
          lower

    contains-sent : contains sent (codes "ce-specversion") ≡ true
    unfolding find_if iequals ascii_lower
    contains-sent = refl

    read_binary_mode-sent :
        read_binary_mode F values sent
        ≡ ok (record {
          id = some e.id;
          source = some e.source;
          type = some e.type;
          rest = record e.rest {
            time = shown_time e.rest.time;
            extensions = as_texts e.rest.extensions;
            payload = DataT.monostate;
          };
        })
    unfolding read_binary_mode
    read_binary_mode-sent =
        rw
          (
            contains-sent,
            read_attributes-fields T E Good encodes decodes refl unprefixed separate itself e valid
                timed good lower,
            find-sent,
          )
          (declare_media_type-Each F e.rest.datacontenttype e valid.media_type)

    -- An event that is valid, whose texts the value policy encodes and decodes, and whose media type
    -- is not that of another content mode, is written in binary mode, and the message reads back as
    -- the event with its extensions as texts and the payload that the body holds.
    pub from_message-to_message :
        (options : DecodeOptions)
        → mode_of e.rest.datacontenttype ≡ binary_mode
        → (to_message F values e binary_mode >>= (λ m. from_message F values m options)) ≡ (
            read_body P (body_of e.rest.payload []) e.rest.datacontenttype options
            >>= (λ payload. ok (received e payload)))
    unfolding to_message from_message detect_content_mode read_as write_body build
    from_message-to_message options mode =
        rw
          (
            write_attributes-fields T E Good encodes decodes refl unprefixed separate itself e valid
                timed good lower,
            find-sent,
            mode,
            read_binary_mode-sent,
          )
          refl
