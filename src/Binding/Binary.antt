-- ===== src/Binding/Binary.antt =====
-- The fields of an event in binary mode, for a binding that carries the media type in a field of its
-- own, outside the attributes.
use cloudevents_sdk_cpp.Base.{
  ◌≡◌, refl, ap, ◌∙◌, true, false, Option, none, some, [], ◌∷◌, ◌++◌, append-nil, map, Bytes, All,
}
use cloudevents_sdk_cpp.Errors.{ok}
use cloudevents_sdk_cpp.Headers.{RawHeaders, find_if}
use cloudevents_sdk_cpp.Platform.{Platform}
use cloudevents_sdk_cpp.Event.{Event, Builder, DataT, empty_builder}
use cloudevents_sdk_cpp.Timestamp.RoundTrip.{HasGroups}
use cloudevents_sdk_cpp.Binding.{Traits, same_field_name, carries_prefix}
use cloudevents_sdk_cpp.Binding.Apart.{Apart, Apart-append, put-add, first_repeated_name-none}
use cloudevents_sdk_cpp.Binding.Write.{write_attributes, finish_writing}
use cloudevents_sdk_cpp.Binding.Read.{read_attributes, read_loop}
use cloudevents_sdk_cpp.Binding.Carried.{
  attributes_of, extension_texts, IsName, write_context-put_all, put_all-fields, read_loop-fields,
}
use cloudevents_sdk_cpp.Binding.Collected.{
  shown_time, Each, IsValid, staged, as_texts, apply_all-attributes_of,
}
use cloudevents_sdk_cpp.Binding.Separate.{
  attributes_of-NamesApart, attributes_of-IsName, fields-Apart,
}

-- The event that a reader of the message makes: the time has the nanoseconds that its digits show, the
-- extensions are texts, and the payload is what the body holds.
abbrev pub received : {P : Platform} → Event P → DataT P → Event P
received e payload = record e {
  rest = record e.rest {
    time = shown_time e.rest.time;
    extensions = as_texts e.rest.extensions;
    payload = payload;
  };
}

-- the field of the media type
abbrev pub media_type_field : Traits → Option Bytes → RawHeaders
media_type_field T none = []
media_type_field T (some media_type) = (T.content_type_header, media_type) ∷ []

module _ (T : Traits) (E : Bytes → Bytes) (Good : Bytes → Type 0)
    (encodes : (v : Bytes) → Good v → T.encode_value v ≡ ok (E v))
    (decodes : (v : Bytes) → Good v → T.decode_value (E v) ≡ ok v)
    (outside : T.content_type_as_attribute ≡ false)
    (unprefixed : carries_prefix T T.content_type_header ≡ false)
    (separate : (n : Bytes)
      → same_field_name T (T.attribute_prefix ++ n) T.content_type_header ≡ false)
    (itself : same_field_name T T.content_type_header T.content_type_header ≡ true) where
  abbrev pub fields_of : RawHeaders → RawHeaders
  fields_of attrs = map (λ a. (T.attribute_prefix ++ a.0, E a.1)) attrs

  -- `find` or `find_exact` of the media type
  abbrev pub find_media_type : RawHeaders → Option Bytes
  find_media_type entries = find_if (λ c. same_field_name T c T.content_type_header) entries

  not_content_type :
      (attrs : RawHeaders)
      → All (λ f. same_field_name T f.0 T.content_type_header ≡ false) (fields_of attrs)
  not_content_type [] = tt
  not_content_type (a ∷ attrs) = (separate a.0, not_content_type attrs)

  find-past :
      (attrs more : RawHeaders) → find_media_type (fields_of attrs ++ more) ≡ find_media_type more
  unfolding find_if
  find-past [] more = refl
  find-past (a ∷ attrs) more = rw (separate a.0) (find-past attrs more)

  find-media_type_field :
      (media_type : Option Bytes) → find_media_type (media_type_field T media_type) ≡ media_type
  unfolding find_if
  find-media_type_field none = refl
  find-media_type_field (some m) = rw itself refl

  read_loop-media_type_field :
      {P : Platform} (b : Builder P) (media_type : Option Bytes)
      → read_loop T b (media_type_field T media_type) ≡ ok b
  unfolding read_loop
  read_loop-media_type_field b none = refl
  read_loop-media_type_field b (some m) = rw unprefixed refl

  finish_writing-field :
      (media_type : Option Bytes) (h : RawHeaders)
      → All (λ f. same_field_name T f.0 T.content_type_header ≡ false) h
      → finish_writing T media_type (h, ok tt) ≡ (h ++ media_type_field T media_type, ok tt)
  finish_writing-field none h other = rw (append-nil h) refl
  finish_writing-field (some m) h other =
      rw (put-add T h T.content_type_header m other, outside) refl

  media_type_field-Apart : (media_type : Option Bytes) → Apart T (media_type_field T media_type)
  media_type_field-Apart none = tt
  media_type_field-Apart (some m) = (tt, tt)

  apart_media_type :
      (media_type : Option Bytes) (h : RawHeaders)
      → All (λ f. same_field_name T f.0 T.content_type_header ≡ false) h
      → All (λ e. All (λ f. same_field_name T e.0 f.0 ≡ false) (media_type_field T media_type)) h
  apart_media_type media_type [] other = tt
  apart_media_type none (f ∷ fs) (o, os) = (tt, apart_media_type none fs os)
  apart_media_type (some m) (f ∷ fs) (o, os) = ((o, tt), apart_media_type (some m) fs os)

  module _ {P : Platform} (e : Event P) (valid : IsValid e) (timed : Each (HasGroups P) e.rest.time)
      (good : All (λ a. Good a.1) (attributes_of e))
      (lower : All (λ f. IsName f.0) (extension_texts e.rest.extensions)) where
    abbrev pub fields : RawHeaders
    fields = fields_of (attributes_of e) ++ media_type_field T e.rest.datacontenttype

    apart : Apart T (fields_of (attributes_of e))
    apart =
        fields-Apart T E (attributes_of e) (attributes_of-IsName e lower)
          (attributes_of-NamesApart e valid)

    all_fields-Apart : Apart T fields
    all_fields-Apart =
        Apart-append T (fields_of (attributes_of e)) (media_type_field T e.rest.datacontenttype)
          apart (media_type_field-Apart e.rest.datacontenttype)
          (apart_media_type e.rest.datacontenttype (fields_of (attributes_of e))
            (not_content_type (attributes_of e)))

    pub write_attributes-fields : write_attributes T e [] ≡ (fields, ok tt)
    unfolding write_attributes
    write_attributes-fields =
        ap (finish_writing T e.rest.datacontenttype) (
          write_context-put_all T e ([], ok tt)
          ∙ put_all-fields T E Good encodes decodes [] (attributes_of e) good apart)
        ∙ finish_writing-field e.rest.datacontenttype (fields_of (attributes_of e))
            (not_content_type (attributes_of e))

    pub read_attributes-fields :
        read_attributes T {P = P} fields
        ≡ ok (
            staged e.id e.source e.type e.rest.dataschema e.rest.subject
              (shown_time e.rest.time)
              (as_texts e.rest.extensions))
    unfolding read_attributes
    read_attributes-fields = rw (first_repeated_name-none T fields all_fields-Apart) (
        read_loop-fields T E Good encodes decodes empty_builder (attributes_of e)
          (media_type_field T e.rest.datacontenttype) good (attributes_of-IsName e lower)
        ∙ rw (apply_all-attributes_of T e valid timed)
            (read_loop-media_type_field _ e.rest.datacontenttype))

    pub find-fields : find_media_type fields ≡ e.rest.datacontenttype
    find-fields =
        find-past (attributes_of e) (media_type_field T e.rest.datacontenttype)
        ∙ find-media_type_field e.rest.datacontenttype
