-- ===== src/Binding/Attributed.antt =====
-- The fields of an event in binary mode, for a binding that carries the media type as one of the
-- attributes.
use cloudevents_sdk_cpp.Base.{
  ◌≡◌, refl, ap, sym, ◌∙◌, inl, inr, true, Option, none, some, [], ◌∷◌, ◌++◌, append-nil, map,
  Bytes, All, All-append, codes,
}
use cloudevents_sdk_cpp.Base.Lists.{same}
use cloudevents_sdk_cpp.Errors.{ok, ◌>>=◌, Result-cases}
use cloudevents_sdk_cpp.Text.{ascii_lower}
use cloudevents_sdk_cpp.Headers.{RawHeaders}
use cloudevents_sdk_cpp.Platform.{Platform}
use cloudevents_sdk_cpp.Attributes.{datacontenttype_policy}
use cloudevents_sdk_cpp.Event.{Event, Builder, DataT, empty_builder}
use cloudevents_sdk_cpp.Timestamp.RoundTrip.{HasGroups}
use cloudevents_sdk_cpp.Binding.{Traits}
use cloudevents_sdk_cpp.Binding.Apart.{Apart, first_repeated_name-none}
use cloudevents_sdk_cpp.Binding.Write.{Writing, write_attributes, finish_writing}
use cloudevents_sdk_cpp.Binding.Read.{
  apply_attribute, apply_datacontenttype, read_attributes, read_loop,
}
use cloudevents_sdk_cpp.Binding.Carried.{
  with_optional, attributes_of, extension_texts, IsName, apply_all, put_all, write_context-put_all,
  put_all-fields, read_loop-fields,
}
use cloudevents_sdk_cpp.Binding.Collected.{
  shown_time, IsValid, Passes, Each, staged, as_texts, apply_all-attributes_of,
  store_attribute-Passes,
}
use cloudevents_sdk_cpp.Binding.Separate.{
  NamesApart, NamesApart-last, attributes_of-NamesApart, attributes_of-IsName, attributes_of-Others,
  fields-Apart,
}

-- the media type behind the other attributes
abbrev pub media_attribute : Option Bytes → RawHeaders
media_attribute media_type = with_optional (codes "datacontenttype") media_type []

abbrev pub all_attributes_of : {P : Platform} → Event P → RawHeaders
all_attributes_of e = attributes_of e ++ media_attribute e.rest.datacontenttype

media_attribute-All :
    (Q : Bytes → Type 0) (media_type : Option Bytes)
    → Each Q media_type
    → All (λ a. Q a.1) (media_attribute media_type)
media_attribute-All Q none h = tt
media_attribute-All Q (some m) h = (h, tt)

all_attributes_of-NamesApart :
    {P : Platform} (e : Event P) → IsValid e → NamesApart (all_attributes_of e)
all_attributes_of-NamesApart e valid =
    NamesApart-last (attributes_of e) (codes "datacontenttype") e.rest.datacontenttype
      (attributes_of-NamesApart e valid) (attributes_of-Others e valid)

media_attribute-IsName :
    (media_type : Option Bytes) → All (λ a. IsName a.0) (media_attribute media_type)
unfolding ascii_lower
media_attribute-IsName none = tt
media_attribute-IsName (some m) = (refl, tt)

-- what the reader collects, the media type included
abbrev pub staged_whole : {P : Platform} → Event P → Builder P
staged_whole e = record {
  id = some e.id;
  source = some e.source;
  type = some e.type;
  rest = record e.rest {
    time = shown_time e.rest.time;
    extensions = as_texts e.rest.extensions;
    payload = DataT.monostate;
  };
}

module _ (T : Traits) (as_attribute : T.content_type_as_attribute ≡ true) where
  put_all-append :
      (xs ys : RawHeaders) (w : Writing) → put_all T (xs ++ ys) w ≡ put_all T ys (put_all T xs w)
  unfolding put_all
  put_all-append [] ys w = refl
  put_all-append (x ∷ xs) ys w = put_all-append xs ys _

  apply_all-append :
      {P : Platform} (b : Builder P) (xs ys : RawHeaders)
      → apply_all T b (xs ++ ys) ≡ (apply_all T b xs >>= (λ c. apply_all T c ys))
  apply_all-append b [] ys = refl
  apply_all-append b (x ∷ xs) ys = elim (Result-cases (apply_attribute T b x.0 x.1)) [
    | inl (c, q) ↦ rw q (apply_all-append c xs ys)
    | inr (e, q) ↦ rw q refl
  ]

  finish_writing-put_all :
      (media_type : Option Bytes) (h : RawHeaders)
      → finish_writing T media_type (h, ok tt) ≡ put_all T (media_attribute media_type) (h, ok tt)
  unfolding put_all
  finish_writing-put_all none h = refl
  finish_writing-put_all (some m) h = rw as_attribute refl

  apply_media_type :
      {P : Platform} (e : Event P) (media_type : Option Bytes)
      → Each (Passes (datacontenttype_policy P)) media_type
      → apply_all T
          (staged {P = P} e.id e.source e.type e.rest.dataschema e.rest.subject
            (shown_time e.rest.time)
            (as_texts e.rest.extensions))
          (media_attribute media_type)
        ≡ ok (record (staged_whole e) {
          rest = record (staged_whole e).rest { datacontenttype = media_type };
        })
  unfolding apply_attribute apply_datacontenttype same
  apply_media_type e none h = refl
  apply_media_type {P = P} e (some m) h =
      rw (as_attribute, store_attribute-Passes (datacontenttype_policy P) m h) refl

  module _ (E : Bytes → Bytes) (Good : Bytes → Type 0)
      (encodes : (v : Bytes) → Good v → T.encode_value v ≡ ok (E v))
      (decodes : (v : Bytes) → Good v → T.decode_value (E v) ≡ ok v) {P : Platform} (e : Event P)
      (valid : IsValid e) (timed : Each (HasGroups P) e.rest.time)
      (good : All (λ a. Good a.1) (attributes_of e)) (media : Each Good e.rest.datacontenttype)
      (lower : All (λ f. IsName f.0) (extension_texts e.rest.extensions)) where
    abbrev pub all_fields : RawHeaders
    all_fields = map (λ a. (T.attribute_prefix ++ a.0, E a.1)) (all_attributes_of e)

    good_attributes : All (λ a. Good a.1) (all_attributes_of e)
    good_attributes =
        All-append (λ a. Good a.1) (attributes_of e) (media_attribute e.rest.datacontenttype) good
          (media_attribute-All Good e.rest.datacontenttype media)

    attribute_names : All (λ a. IsName a.0) (all_attributes_of e)
    attribute_names =
        All-append (λ a. IsName a.0) (attributes_of e) (media_attribute e.rest.datacontenttype)
          (attributes_of-IsName e lower) (media_attribute-IsName e.rest.datacontenttype)

    all_fields-Apart : Apart T all_fields
    all_fields-Apart =
        fields-Apart T E (all_attributes_of e) attribute_names
          (all_attributes_of-NamesApart e valid)

    pub write_attributes-all_fields : write_attributes T e [] ≡ (all_fields, ok tt)
    unfolding write_attributes
    write_attributes-all_fields =
        ap (finish_writing T e.rest.datacontenttype) (
          write_context-put_all T e ([], ok tt)
          ∙ put_all-fields T E Good encodes decodes [] (attributes_of e) good (
              fields-Apart T E (attributes_of e) (attributes_of-IsName e lower)
                (attributes_of-NamesApart e valid)))
        ∙ finish_writing-put_all e.rest.datacontenttype _
        ∙ ap (put_all T (media_attribute e.rest.datacontenttype)) (
            sym (
              put_all-fields T E Good encodes decodes [] (attributes_of e) good (
                fields-Apart T E (attributes_of e) (attributes_of-IsName e lower)
                  (attributes_of-NamesApart e valid))))
        ∙ sym
            (put_all-append (attributes_of e) (media_attribute e.rest.datacontenttype) ([], ok tt))
        ∙ put_all-fields T E Good encodes decodes [] (all_attributes_of e) good_attributes
            all_fields-Apart

    apply_all-all_attributes_of :
        apply_all T {P = P} empty_builder (all_attributes_of e) ≡ ok (staged_whole e)
    apply_all-all_attributes_of =
        apply_all-append empty_builder (attributes_of e) (media_attribute e.rest.datacontenttype)
        ∙ rw (apply_all-attributes_of T e valid timed)
            (apply_media_type e e.rest.datacontenttype valid.media_type)

    read_loop-all_fields : read_loop T {P = P} empty_builder all_fields ≡ ok (staged_whole e)
    unfolding read_loop
    read_loop-all_fields =
        ap (read_loop T empty_builder) (sym (append-nil all_fields))
        ∙ read_loop-fields T E Good encodes decodes empty_builder (all_attributes_of e) []
            good_attributes attribute_names
        ∙ rw apply_all-all_attributes_of refl

    pub read_attributes-all_fields : read_attributes T {P = P} all_fields ≡ ok (staged_whole e)
    unfolding read_attributes
    read_attributes-all_fields =
        rw (first_repeated_name-none T all_fields all_fields-Apart) read_loop-all_fields
