-- ===== src/Protobuf/Attributes.antt =====
-- The attributes of an event are taken by the reader, which makes the same options of them.
use cloudevents_sdk_cpp.Base.{
  ◌≡◌, refl, ap, ◌∙◌, ◌⊎◌, inl, inr, true, none, [], ◌∷◌, Bytes, String, Bool-cases, All, All-imp,
  codes, arith,
}
use cloudevents_sdk_cpp.Base.Lists.{same}
use cloudevents_sdk_cpp.Errors.{Errc, ok}
use cloudevents_sdk_cpp.Utf8.{is_valid_utf8, read_utf8_lead, continuations}
use cloudevents_sdk_cpp.Maps.Order.{Ordered, Above}
use cloudevents_sdk_cpp.Maps.Emplaced.{
  assign_all-append, map_values, map_values-Ordered, emplace_all-All, emplace_all-Ordered,
}
use cloudevents_sdk_cpp.Platform.{Platform}
use cloudevents_sdk_cpp.Timestamp.{Timestamp}
use cloudevents_sdk_cpp.Attributes.{
  subject_policy, dataschema_policy, datacontenttype_policy, extension_name_policy, check_text,
  store_attribute,
}
use cloudevents_sdk_cpp.Event.{
  AttributeValue, string, uri, instant, DataT, Options, Event, no_options,
}
use cloudevents_sdk_cpp.Binding.Collected.{Passes, make-Passes, Passes-unreserved}
use cloudevents_sdk_cpp.Protobuf.Decode.{apply_attribute, apply_attributes}
use cloudevents_sdk_cpp.Protobuf.Values.{InRange, read_back}
use cloudevents_sdk_cpp.Protobuf.Entries.{read_arm, IsWritableEntry}
use cloudevents_sdk_cpp.Protobuf.Applied.{
  slot, extension_slot, IsContext, settle_all, settle_all-emplace_all, settle_all-extensions,
  Applies, apply_attributes-settle_all,
}
use cloudevents_sdk_cpp.Protobuf.Context.{
  utc_time, context_list, context_list-All, context_list-IsContext, context_list-Ordered, Each-some,
  settle_all-context_list, attributes_list, IsCarried,
}

pub check_text-utf8 :
    (c : Errc) (text attribute : Bytes) (detail : String)
    → check_text c text attribute detail ≡ none
    → is_valid_utf8 text ≡ true
unfolding check_text
check_text-utf8 c [] attribute detail h = cc
check_text-utf8 c (x ∷ xs) attribute detail h = elim (Bool-cases (is_valid_utf8 (x ∷ xs))) [
  | inl p ↦ p
  | inr p ↦ cc (rw p at h)
]

module _ (P : Platform) where
  datacontenttype-utf8 :
      (text : Bytes) → Passes (datacontenttype_policy P) text → is_valid_utf8 text ≡ true
  datacontenttype-utf8 text h =
      check_text-utf8 Errc.invalid_attribute_value text (codes "datacontenttype")
        "datacontenttype is present but empty" (ground arith)

  Applies-datacontenttype :
      (text : Bytes)
      → Passes (datacontenttype_policy P) text
      → Applies P (codes "datacontenttype", string text)
  unfolding apply_attribute store_attribute same
  Applies-datacontenttype text h into = rw (make-Passes (datacontenttype_policy P) text h) refl

  Applies-dataschema :
      (text : Bytes) → Passes dataschema_policy text → Applies P (codes "dataschema", uri text)
  unfolding apply_attribute store_attribute same
  Applies-dataschema text h into = rw (make-Passes dataschema_policy text h) refl

  Applies-subject :
      (text : Bytes) → Passes subject_policy text → Applies P (codes "subject", string text)
  unfolding apply_attribute store_attribute same
  Applies-subject text h into = rw (make-Passes subject_policy text h) refl

  Applies-time : (t : Timestamp) → Applies P (codes "time", instant t)
  unfolding apply_attribute same
  Applies-time t into = refl

  slot-extension : (n : Bytes) → Passes (extension_name_policy P) n → slot n ≡ extension_slot
  slot-extension n h =
      let (_, (_, (_, (_, (c, (d, (u, (w, _)))))))) = Passes-unreserved P n h in
      rw (c, d, u, w) refl

  Applies-extension :
      (e : Bytes × AttributeValue) → Passes (extension_name_policy P) e.0 → Applies P e
  unfolding apply_attribute
  Applies-extension e h into =
      let (_, (_, (_, (_, (c, (d, (u, (w, _)))))))) = Passes-unreserved P e.0 h in
      rw (c, d, u, w, make-Passes (extension_name_policy P) e.0 h) refl

-- the options that the attributes alone make
abbrev pub read_options : {P : Platform} → Event P → Options P
read_options e = record e.rest {
  time = utc_time e.rest.time;
  extensions = map_values read_back e.rest.extensions;
  payload = DataT.monostate;
}

module _ {P : Platform} (e : Event P) (carried : IsCarried e) where
  attributes_list-Applies : All (Applies P) (attributes_list e)
  unfolding attributes_list
  attributes_list-Applies =
      emplace_all-All (Applies P)
        (context_list e.rest.datacontenttype e.rest.dataschema e.rest.subject e.rest.time)
        e.rest.extensions
        (context_list-All (Applies P) e.rest.datacontenttype e.rest.dataschema e.rest.subject
          e.rest.time
          (λ v p. Applies-datacontenttype P v (
            Each-some (Passes (datacontenttype_policy P)) e.rest.datacontenttype v
              carried.media_type p))
          (λ v p.
            Applies-dataschema P v
              (Each-some (Passes dataschema_policy) e.rest.dataschema v carried.dataschema p))
          (λ v p.
            Applies-subject P v
              (Each-some (Passes subject_policy) e.rest.subject v carried.subject p))
          (λ t p. Applies-time P t))
        (All-imp (λ x. Passes (extension_name_policy P) x.0) (Applies P) e.rest.extensions
          (Applies-extension P) carried.names)

  pub attributes_list-writable : All IsWritableEntry (attributes_list e)
  unfolding attributes_list is_valid_utf8 read_utf8_lead continuations
  attributes_list-writable =
      emplace_all-All IsWritableEntry
        (context_list e.rest.datacontenttype e.rest.dataschema e.rest.subject e.rest.time)
        e.rest.extensions
        (context_list-All IsWritableEntry e.rest.datacontenttype e.rest.dataschema e.rest.subject
          e.rest.time
          (λ v p. (
            refl,
            datacontenttype-utf8 P v (
                Each-some (Passes (datacontenttype_policy P)) e.rest.datacontenttype v
                  carried.media_type p),
          ))
          (λ v p. (
            refl,
            check_text-utf8 _ v _ _
                (Each-some (Passes dataschema_policy) e.rest.dataschema v carried.dataschema p),
          ))
          (λ v p. (
            refl,
            check_text-utf8 _ v _ _
                (Each-some (Passes subject_policy) e.rest.subject v carried.subject p),
          ))
          (λ t p. (refl, Each-some InRange e.rest.time t carried.time p)))
        carried.writable

  pub attributes_list-Ordered : Ordered (attributes_list e)
  unfolding attributes_list
  attributes_list-Ordered =
      emplace_all-Ordered
        (context_list e.rest.datacontenttype e.rest.dataschema e.rest.subject e.rest.time)
        e.rest.extensions
        (context_list-Ordered e.rest.datacontenttype e.rest.dataschema e.rest.subject e.rest.time)

  pub apply_attributes-attributes_list :
      apply_attributes (map_values read_arm (attributes_list e)) no_options ≡ ok (read_options e)
  unfolding attributes_list
  apply_attributes-attributes_list =
      let names =
        All-imp (λ x. Passes (extension_name_policy P) x.0) (λ x. slot x.0 ≡ extension_slot)
          e.rest.extensions (λ x. slot-extension P x.0) carried.names in
      let context =
        context_list e.rest.datacontenttype e.rest.dataschema e.rest.subject e.rest.time in
      apply_attributes-settle_all P (attributes_list e) no_options attributes_list-Applies
      ∙ ap ok (
          settle_all-emplace_all context e.rest.extensions no_options
            (context_list-Ordered e.rest.datacontenttype e.rest.dataschema e.rest.subject
              e.rest.time)
            carried.ordered names
            (All-imp IsContext (λ f. IsContext f ⊎ Above f.0 e.rest.extensions) context
              (λ f c. inl c)
              (context_list-IsContext e.rest.datacontenttype e.rest.dataschema e.rest.subject
                e.rest.time))
          ∙ (settle_all-extensions e.rest.extensions (settle_all context no_options) names
              ∙ rw
                  (
                    settle_all-context_list e.rest.datacontenttype e.rest.dataschema e.rest.subject
                        e.rest.time,
                    assign_all-append [] (map_values read_back e.rest.extensions)
                        (map_values-Ordered read_back e.rest.extensions carried.ordered),
                  )
                  refl))
