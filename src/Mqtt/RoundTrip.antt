-- ===== src/Mqtt/RoundTrip.antt =====
-- An event written to an MQTT 5.0 message in binary mode, with the prefix ce-, and read back.
use cloudevents_sdk_cpp.Base.{
  ◌≤◌, ◌≡◌, refl, ap, sym, ◌∙◌, arith, true, false, leb, ltb, Option, none, some, [], ◌∷◌, ◌++◌,
  append_assoc, append-nil, map, Bytes, All, length,
}
use cloudevents_sdk_cpp.Base.Lists.{same}
use cloudevents_sdk_cpp.Errors.{ok, ◌>>=◌}
use cloudevents_sdk_cpp.Text.{starts_with}
use cloudevents_sdk_cpp.Utf8.{is_valid_utf8}
use cloudevents_sdk_cpp.Headers.{RawHeaders, find_if, find_exact, binary_mode}
use cloudevents_sdk_cpp.Platform.{Platform}
use cloudevents_sdk_cpp.Attributes.{datacontenttype_policy}
use cloudevents_sdk_cpp.Event.{Event, DataT, build}
use cloudevents_sdk_cpp.Timestamp.RoundTrip.{HasGroups}
use cloudevents_sdk_cpp.Binding.{Traits, DecodeOptions, same_field_name, carries_prefix}
use cloudevents_sdk_cpp.Binding.Write.{write_attributes}
use cloudevents_sdk_cpp.Binding.Read.{read_attributes}
use cloudevents_sdk_cpp.Binding.Body.{body_of, write_body, read_body}
use cloudevents_sdk_cpp.Binding.Structured.{JsonFormat}
use cloudevents_sdk_cpp.Binding.Carried.{attributes_of, extension_texts, IsName}
use cloudevents_sdk_cpp.Binding.Collected.{
  shown_time, IsValid, Passes, Each, staged, as_texts, make-Passes,
}
use cloudevents_sdk_cpp.Binding.Binary.{
  received, media_type_field, find-fields, write_attributes-fields, read_attributes-fields,
}
use cloudevents_sdk_cpp.Binding.Names.{
  MatchesNames, AcceptsNames, extensions-IsName, attributes_of-IsMatched,
}
use cloudevents_sdk_cpp.Mqtt.{
  encode_value, has_nul, mqtt_traits, prefixed_names, content_type_header, mode_of,
  detect_content_mode, foreign, attribute, kind_of, fields_loop, attribute_fields, carries_version,
  count_content_type, to_message, from_message, collect_binary, decode_binary, declare_media_type,
}

abbrev T : Traits
T = mqtt_traits prefixed_names

unprefixed : carries_prefix T content_type_header ≡ false
unfolding carries_prefix starts_with same
unprefixed = refl

separate : (n : Bytes) → same_field_name T (prefixed_names ++ n) content_type_header ≡ false
unfolding same
separate n = refl

itself : same_field_name T content_type_header content_type_header ≡ true
unfolding same
itself = refl

-- A text that a User Property carries.
abbrev pub IsProperty : Bytes → Type 0
IsProperty v = (is_valid_utf8 v ≡ true) × (has_nul v ≡ false) × (length v ≤ 65535)

encode_value-ok : (v : Bytes) → IsProperty v → encode_value v ≡ ok v
unfolding encode_value
encode_value-ok v (u, z, l) =
    let small : ltb 65535 (length v) ≡ false = ground arith in rw (u, z, small) refl

abbrev properties : RawHeaders → RawHeaders
properties attrs = map (λ a. (prefixed_names ++ a.0, a.1)) attrs

count-properties :
    (attrs more : RawHeaders)
    → count_content_type (properties attrs ++ more) ≡ count_content_type more
unfolding count_content_type same
count-properties [] more = refl
count-properties (a ∷ attrs) more = count-properties attrs more

count_media_type : (m : Option Bytes) → ltb 1 (count_content_type (media_type_field T m)) ≡ false
unfolding count_content_type same
count_media_type none = refl
count_media_type (some m) = refl

kind_of-property :
    (P : Platform) (n : Bytes)
    → P.match_attribute_name n ≡ true
    → kind_of P prefixed_names (prefixed_names ++ n) ≡ attribute
unfolding kind_of starts_with same
kind_of-property P n h =
    let longer : leb 3 (length (prefixed_names ++ n)) ≡ true = ground arith in rw (longer, h) refl

kind_of-content_type : (P : Platform) → kind_of P prefixed_names content_type_header ≡ foreign
unfolding kind_of starts_with same
kind_of-content_type P = refl

fields_loop-properties :
    (P : Platform) (declared media_type : Option Bytes) (kept attrs : RawHeaders)
    → All (λ a. P.match_attribute_name a.0 ≡ true) attrs
    → fields_loop P prefixed_names declared kept false
        (properties attrs ++ media_type_field T media_type)
      ≡ ok (kept ++ properties attrs)
unfolding fields_loop
fields_loop-properties P declared none kept [] h = rw (append-nil kept) refl
fields_loop-properties P declared (some m) kept [] h =
    rw (kind_of-content_type P, append-nil kept) refl
fields_loop-properties P declared media_type kept (a ∷ attrs) (h, hs) =
    rw (kind_of-property P a.0 h) (
      fields_loop-properties P declared media_type (kept ++ (prefixed_names ++ a.0, a.1) ∷ []) attrs
        hs
      ∙ ap ok (append_assoc kept ((prefixed_names ++ a.0, a.1) ∷ []) (properties attrs)))

declare_media_type-Each :
    {P : Platform} (F : JsonFormat P) (media_type : Option Bytes) (e : Event P)
    → Each (Passes (datacontenttype_policy P)) media_type
    → declare_media_type F prefixed_names media_type (
        staged e.id e.source e.type e.rest.dataschema e.rest.subject
          (shown_time e.rest.time)
          (as_texts e.rest.extensions))
      ≡ ok (record {
        id = some e.id;
        source = some e.source;
        type = some e.type;
        rest = record e.rest {
          datacontenttype = media_type;
          time = shown_time e.rest.time;
          extensions = as_texts e.rest.extensions;
          payload = DataT.monostate;
        };
      })
declare_media_type-Each F none e h = refl
declare_media_type-Each {P = P} F (some m) e h =
    rw (make-Passes (datacontenttype_policy P) m h) refl

module _ {P : Platform} where
  abbrev undeclared : Event P → Event P
  undeclared e = record e { rest = record e.rest { datacontenttype = none } }

  undeclared-IsValid : (e : Event P) → IsValid e → IsValid (undeclared e)
  undeclared-IsValid e h = record {
    id = h.id;
    source = h.source;
    type = h.type;
    dataschema = h.dataschema;
    subject = h.subject;
    time = h.time;
    media_type = tt;
    names = h.names;
    ordered = h.ordered;
  }

module _ {P : Platform} (F : JsonFormat P) (e : Event P) (valid : IsValid e)
    (timed : Each (HasGroups P) e.rest.time) (texts : All (λ a. IsProperty a.1) (attributes_of e))
    (lower : All (λ f. IsName f.0) (extension_texts e.rest.extensions))
    (matched : All (λ a. P.match_attribute_name a.0 ≡ true) (attributes_of e)) where
  abbrev sent : RawHeaders
  sent = properties (attributes_of e) ++ media_type_field T e.rest.datacontenttype

  write-sent : write_attributes T e [] ≡ (sent, ok tt)
  write-sent =
      write_attributes-fields T (λ v. v) IsProperty encode_value-ok encode_value-ok refl unprefixed
        separate itself e valid timed texts lower

  find-sent : find_exact sent content_type_header ≡ e.rest.datacontenttype
  find-sent =
      find-fields T (λ v. v) IsProperty encode_value-ok encode_value-ok refl unprefixed separate
        itself e valid timed texts lower

  count-sent : ltb 1 (count_content_type sent) ≡ false
  count-sent =
      rw (count-properties (attributes_of e) (media_type_field T e.rest.datacontenttype))
        (count_media_type e.rest.datacontenttype)

  carries_version-sent : carries_version P prefixed_names sent ≡ true
  unfolding carries_version find_if same
  carries_version-sent = refl

  read_attributes-properties :
      read_attributes T {P = P} (properties (attributes_of e))
      ≡ ok (
          staged e.id e.source e.type e.rest.dataschema e.rest.subject
            (shown_time e.rest.time)
            (as_texts e.rest.extensions))
  read_attributes-properties =
      ap (read_attributes T) (sym (append-nil (properties (attributes_of e))))
      ∙ read_attributes-fields T (λ v. v) IsProperty encode_value-ok encode_value-ok refl unprefixed
          separate itself (undeclared e) (undeclared-IsValid e valid) timed texts lower

  attribute_fields-sent : attribute_fields P prefixed_names sent ≡ ok (properties (attributes_of e))
  unfolding attribute_fields
  attribute_fields-sent =
      fields_loop-properties P _ e.rest.datacontenttype [] (attributes_of e) matched

  collect_binary-sent :
      collect_binary F prefixed_names sent
      ≡ ok (record {
        id = some e.id;
        source = some e.source;
        type = some e.type;
        rest = record e.rest {
          time = shown_time e.rest.time;
          extensions = as_texts e.rest.extensions;
          payload = DataT.monostate;
        };
      })
  unfolding collect_binary
  collect_binary-sent =
      rw (attribute_fields-sent, read_attributes-properties, find-sent)
        (declare_media_type-Each F e.rest.datacontenttype e valid.media_type)

  from_message-sent :
      (options : DecodeOptions)
      → mode_of e.rest.datacontenttype ≡ binary_mode
      → (to_message F prefixed_names e binary_mode
          >>= (λ m. from_message F prefixed_names m options))
        ≡ (read_body P (body_of e.rest.payload []) e.rest.datacontenttype options
            >>= (λ payload. ok (received e payload)))
  unfolding to_message from_message detect_content_mode decode_binary write_body build
  from_message-sent options mode =
      rw (write-sent, count-sent, find-sent, mode, carries_version-sent, collect_binary-sent) refl

-- An event whose attributes are accepted by their classes, whose extensions are in order, and whose
-- time, if it has one, is an instant in the range of parse_timestamp with a local time in that of
-- 64 bits of nanoseconds, at an offset of less than a day that is 0 in the form of the UTC
-- designator, and with at most nine digits, is written to an MQTT message in binary mode under the
-- prefix ce-, when its texts are UTF-8 of at most 65535 bytes without NUL and its media type does
-- not name another content mode, and the message reads back as the event with its extensions as
-- texts, its time without the nanoseconds that its digits do not show, and the payload that the
-- body holds under the media type, or fails as reading the body does. The pattern of names is
-- assumed to match exactly the texts of one or more lower-case letters and digits, and that of
-- timestamps to match the text of the time and to give each of its numbers as its group.
pub from_message-to_message_mqtt :
    {P : Platform} (F : JsonFormat P) (e : Event P) (options : DecodeOptions)
    → MatchesNames P
    → AcceptsNames P
    → IsValid e
    → Each (HasGroups P) e.rest.time
    → All (λ a. IsProperty a.1) (attributes_of e)
    → mode_of e.rest.datacontenttype ≡ binary_mode
    → (to_message F prefixed_names e binary_mode >>= (λ m. from_message F prefixed_names m options))
      ≡ (read_body P (body_of e.rest.payload []) e.rest.datacontenttype options
          >>= (λ payload. ok (received e payload)))
from_message-to_message_mqtt {P = P} F e options law accepts valid timed texts mode =
    from_message-sent F e valid timed texts (extensions-IsName P law e.rest.extensions valid.names)
      (attributes_of-IsMatched P accepts e valid) options mode
