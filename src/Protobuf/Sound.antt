-- ===== src/Protobuf/Sound.antt =====
-- What `build_event` puts into the options of an event is valid, and is written and read unchanged.
use cloudevents_sdk_cpp.Base.{
  ◌≡◌, refl, sym, subst, true, inl, inr, Bool-cases, Option-cases, Option, none, some, [], ◌∷◌,
  Bytes, All, codes,
}
use cloudevents_sdk_cpp.Base.Lists.{same}
use cloudevents_sdk_cpp.Errors.{ok, bind_succeeds, ok-injective, Result-cases}
use cloudevents_sdk_cpp.Utf8.{is_valid_utf8}
use cloudevents_sdk_cpp.Maps.Order.{Ordered, insert_or_assign-Ordered}
use cloudevents_sdk_cpp.Maps.Emplaced.{insert_or_assign-All}
use cloudevents_sdk_cpp.Platform.{Platform}
use cloudevents_sdk_cpp.Timestamp.{Timestamp}
use cloudevents_sdk_cpp.Attributes.{
  Policy, subject_policy, dataschema_policy, datacontenttype_policy, extension_name_policy, make,
}
use cloudevents_sdk_cpp.Event.{
  AttributeValue, boolean, int32, string, binary, uri, uri_ref, instant, DataT, Options, no_options,
}
use cloudevents_sdk_cpp.Binding.Collected.{Passes, Each}
use cloudevents_sdk_cpp.Binding.Sound.{make-eq-ok, store_attribute-eq-ok}
use cloudevents_sdk_cpp.Protobuf.Scan.{AttributeMap}
use cloudevents_sdk_cpp.Protobuf.Decode.{
  text_of_string_arm, text_of_uri_arm, store_text, store_time, store_extension, apply_attribute,
  apply_attributes,
}
use cloudevents_sdk_cpp.Protobuf.Values.{InRange, utc_instant}
use cloudevents_sdk_cpp.Protobuf.ReadValues.{IsRead}
use cloudevents_sdk_cpp.Protobuf.Scanned.{IsReadEntry}

abbrev pub IsReadTime : Timestamp → Type 0
IsReadTime t = InRange t × (utc_instant t ≡ t)

abbrev pub IsReadExtension : Platform → Bytes × AttributeValue → Type 0
IsReadExtension P x = Passes (extension_name_policy P) x.0 × (is_valid_utf8 x.0 ≡ true) × IsRead x.1

-- The attributes present are such as their classes accept, and come back as they are.
pub record IsReadOptions {P : Platform} (o : Options P) : Type 0 where
  pub media_type : Each (Passes (datacontenttype_policy P)) o.datacontenttype
  pub dataschema : Each (Passes dataschema_policy) o.dataschema
  pub subject : Each (Passes subject_policy) o.subject
  pub time : Each IsReadTime o.time
  pub extensions : All (IsReadExtension P) o.extensions
  pub ordered : Ordered o.extensions
  pub empty : o.payload ≡ DataT.monostate

pub make-eq-text : (policy : Policy) (text made : Bytes) → make policy text ≡ ok made → made ≡ text
unfolding make
make-eq-text policy text made h = elim (Option-cases (policy.check text)) [
  | inl p ↦ sym (ok-injective (rw p at h))
  | inr (x, p) ↦ elim (Bool-cases policy.names_offending_text) [
    | inl q ↦ cc (rw (p, q) at h)
    | inr q ↦ cc (rw (p, q) at h)
  ]
]

store_text-Passes :
    (policy : Policy) (text : Option Bytes) (name : Bytes) (slot : Option Bytes)
    → store_text policy text name ≡ ok slot
    → Each (Passes policy) slot
store_text-Passes policy none name slot h = cc
store_text-Passes policy (some text) name slot h = store_attribute-eq-ok policy text slot h

store_time-IsReadTime :
    (value : AttributeValue) (slot : Option Timestamp)
    → IsRead value
    → store_time value ≡ ok slot
    → Each IsReadTime slot
store_time-IsReadTime (boolean b) slot h e = cc
store_time-IsReadTime (int32 i) slot h e = cc
store_time-IsReadTime (string s) slot h e = cc
store_time-IsReadTime (binary b) slot h e = cc
store_time-IsReadTime (uri u) slot h e = cc
store_time-IsReadTime (uri_ref u) slot h e = cc
store_time-IsReadTime (instant t) slot (range, back) e =
    let same_time : utc_instant t ≡ t = cc in
    subst (Each IsReadTime) (ok-injective e) (range, same_time)

module _ {P : Platform} (o : Options P) (k : IsReadOptions o) where
  pub datacontenttype-IsReadOptions :
      (slot : Option Bytes)
      → Each (Passes (datacontenttype_policy P)) slot
      → IsReadOptions (record o { datacontenttype = slot })
  datacontenttype-IsReadOptions slot h = record {
    media_type = h;
    dataschema = k.dataschema;
    subject = k.subject;
    time = k.time;
    extensions = k.extensions;
    ordered = k.ordered;
    empty = k.empty;
  }

  pub dataschema-IsReadOptions :
      (slot : Option Bytes)
      → Each (Passes dataschema_policy) slot
      → IsReadOptions (record o { dataschema = slot })
  dataschema-IsReadOptions slot h = record {
    media_type = k.media_type;
    dataschema = h;
    subject = k.subject;
    time = k.time;
    extensions = k.extensions;
    ordered = k.ordered;
    empty = k.empty;
  }

  pub subject-IsReadOptions :
      (slot : Option Bytes)
      → Each (Passes subject_policy) slot
      → IsReadOptions (record o { subject = slot })
  subject-IsReadOptions slot h = record {
    media_type = k.media_type;
    dataschema = k.dataschema;
    subject = h;
    time = k.time;
    extensions = k.extensions;
    ordered = k.ordered;
    empty = k.empty;
  }

  pub time-IsReadOptions :
      (slot : Option Timestamp) → Each IsReadTime slot → IsReadOptions (record o { time = slot })
  time-IsReadOptions slot h = record {
    media_type = k.media_type;
    dataschema = k.dataschema;
    subject = k.subject;
    time = h;
    extensions = k.extensions;
    ordered = k.ordered;
    empty = k.empty;
  }

module _ {P : Platform} where
  store_extension-IsReadOptions :
      (name : Bytes) (value : AttributeValue) (o o' : Options P)
      → is_valid_utf8 name ≡ true
      → IsRead value
      → IsReadOptions o
      → store_extension name value o ≡ ok o'
      → IsReadOptions o'
  store_extension-IsReadOptions name value o o' u h k e =
      elim (Result-cases (make (extension_name_policy P) name)) [
        | inr (x, p) ↦ cc (rw p at e)
        | inl (made, p) ↦
            let q = make-eq-text (extension_name_policy P) name made p in
            subst IsReadOptions (ok-injective (rw p at e)) (record {
              media_type = k.media_type;
              dataschema = k.dataschema;
              subject = k.subject;
              time = k.time;
              extensions =
                  insert_or_assign-All (IsReadExtension P) o.extensions made value
                    (make-eq-ok (extension_name_policy P) name made p, rw q u, h) k.extensions;
              ordered = insert_or_assign-Ordered o.extensions made value k.ordered;
              empty = k.empty;
            })
      ]

  apply_attribute-IsReadOptions :
      (name : Bytes) (value : AttributeValue) (o o' : Options P)
      → is_valid_utf8 name ≡ true
      → IsRead value
      → IsReadOptions o
      → apply_attribute name value o ≡ ok o'
      → IsReadOptions o'
  unfolding apply_attribute
  apply_attribute-IsReadOptions name value o o' u h k e =
      elim (Bool-cases (same name (codes "datacontenttype"))) [
        | inl a ↦
            let (slot, p, q) =
              bind_succeeds (store_text (datacontenttype_policy P) (text_of_string_arm value) name)
                _ (rw a at e) in
            subst IsReadOptions (ok-injective q) (
              datacontenttype-IsReadOptions o k slot
                (store_text-Passes (datacontenttype_policy P) _ name slot p))
        | inr a ↦ elim (Bool-cases (same name (codes "dataschema"))) [
          | inl b ↦
              let (slot, p, q) =
                bind_succeeds (store_text dataschema_policy (text_of_uri_arm value) name) _
                  (rw (a, b) at e) in
              subst IsReadOptions (ok-injective q) (
                dataschema-IsReadOptions o k slot
                  (store_text-Passes dataschema_policy _ name slot p))
          | inr b ↦ elim (Bool-cases (same name (codes "subject"))) [
            | inl c ↦
                let (slot, p, q) =
                  bind_succeeds (store_text subject_policy (text_of_string_arm value) name) _
                    (rw (a, b, c) at e) in
                subst IsReadOptions (ok-injective q)
                  (subject-IsReadOptions o k slot (store_text-Passes subject_policy _ name slot p))
            | inr c ↦ elim (Bool-cases (same name (codes "time"))) [
              | inl d ↦
                  let (slot, p, q) = bind_succeeds (store_time value) _ (rw (a, b, c, d) at e) in
                  subst IsReadOptions (ok-injective q)
                    (time-IsReadOptions o k slot (store_time-IsReadTime value slot h p))
              | inr d ↦ store_extension-IsReadOptions name value o o' u h k (rw (a, b, c, d) at e)
            ]
          ]
        ]
      ]

  pub apply_attributes-IsReadOptions :
      (m : AttributeMap) (o o' : Options P)
      → All IsReadEntry m
      → IsReadOptions o
      → apply_attributes m o ≡ ok o'
      → IsReadOptions o'
  unfolding apply_attributes
  apply_attributes-IsReadOptions [] o o' h k e = subst IsReadOptions (ok-injective e) k
  apply_attributes-IsReadOptions ((name, none) ∷ m) o o' h k e = cc
  apply_attributes-IsReadOptions ((name, some value) ∷ m) o o' ((u, h), hs) k e =
      let (next, p, q) = bind_succeeds (apply_attribute name value o) _ e in
      apply_attributes-IsReadOptions m next o' hs
        (apply_attribute-IsReadOptions name value o next u h k p) q

  pub no_options-IsReadOptions : IsReadOptions {P = P} no_options
  no_options-IsReadOptions = record {
    media_type = tt;
    dataschema = tt;
    subject = tt;
    time = tt;
    extensions = tt;
    ordered = tt;
    empty = refl;
  }
