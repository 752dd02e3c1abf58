-- ===== src/Binding/Collected.antt =====
-- The builder that `apply_attribute` fills from the attributes of an event.
use cloudevents_sdk_cpp.Base.{
  ◌≡◌, refl, ap, ◌∙◌, inl, inr, true, false, Option, none, some, List, [], ◌∷◌, ◌++◌, append_assoc,
  append-nil, Bytes, Bool-cases, All, All-append, codes,
}
use cloudevents_sdk_cpp.Base.Lists.{same}
use cloudevents_sdk_cpp.Errors.{ok}
use cloudevents_sdk_cpp.Headers.{RawHeaders}
use cloudevents_sdk_cpp.Platform.{Platform}
use cloudevents_sdk_cpp.Timestamp.{Timestamp, parse_timestamp, timestamp_text}
use cloudevents_sdk_cpp.Timestamp.RoundTrip.{
  IsWritten, HasGroups, shown, parse_timestamp-timestamp_text,
}
use cloudevents_sdk_cpp.Attributes.{
  Policy, id_policy, source_policy, type_policy, dataschema_policy, subject_policy,
  datacontenttype_policy, extension_name_policy, make, store_attribute, make_spec_version,
  reserved_name, reserved_names, any_same,
}
use cloudevents_sdk_cpp.Event.{
  AttributeValue, string, Event, ExtensionMap, Builder, empty_builder, DataT,
}
use cloudevents_sdk_cpp.Maps.{less}
use cloudevents_sdk_cpp.Maps.Order.{Ordered, Above, insert_or_assign-last}
use cloudevents_sdk_cpp.Binding.{Traits}
use cloudevents_sdk_cpp.Binding.Write.{extension_text, time_text}
use cloudevents_sdk_cpp.Binding.Read.{apply_attribute, apply_extension}
use cloudevents_sdk_cpp.Binding.Carried.{with_optional, extension_texts, attributes_of, apply_all}

abbrev pub Passes : Policy → Bytes → Type 0
Passes policy text = policy.check text ≡ none

abbrev pub Each {ℓ} : {A : Type ℓ} → (A → Type 0) → Option A → Type 0
Each Q none = Unit
Each Q (some a) = Q a

pub make-Passes : (policy : Policy) (text : Bytes) → Passes policy text → make policy text ≡ ok text
unfolding make
make-Passes policy text h = rw h refl

pub store_attribute-Passes :
    (policy : Policy) (text : Bytes)
    → Passes policy text
    → store_attribute policy text ≡ ok (some text)
unfolding store_attribute
store_attribute-Passes policy text h = rw (make-Passes policy text h) refl

-- The attributes of the event are such as their classes accept, its time is one that can be
-- written, and its extensions are in order.
pub record IsValid {P : Platform} (e : Event P) : Type 0 where
  pub id : Passes id_policy e.id
  pub source : Passes source_policy e.source
  pub type : Passes type_policy e.type
  pub dataschema : Each (Passes dataschema_policy) e.rest.dataschema
  pub subject : Each (Passes subject_policy) e.rest.subject
  pub time : Each IsWritten e.rest.time
  pub media_type : Each (Passes (datacontenttype_policy P)) e.rest.datacontenttype
  pub names : All (λ x. Passes (extension_name_policy P) x.0) e.rest.extensions
  pub ordered : Ordered e.rest.extensions

-- what is left of a time that is written
abbrev pub shown_time : Option Timestamp → Option Timestamp
shown_time none = none
shown_time (some t) = some (shown t)

-- what the text of a time is parsed to
parsed_time :
    (P : Platform) (time : Option Timestamp)
    → Each IsWritten time
    → Each (HasGroups P) time
    → Each (λ t. parse_timestamp P (timestamp_text t) ≡ ok (shown t)) time
parsed_time P none h k = tt
parsed_time P (some t) h k = parse_timestamp-timestamp_text P t h k

-- the extensions as text
abbrev pub as_texts : ExtensionMap → ExtensionMap
as_texts [] = []
as_texts (e ∷ es) = (e.0, string (extension_text e.1)) ∷ as_texts es

module _ {P : Platform} where
  abbrev pub staged :
      Bytes
      → Bytes
      → Bytes
      → Option Bytes
      → Option Bytes
      → Option Timestamp
      → ExtensionMap
      → Builder P
  staged i s t d u w x = record {
    id = some i;
    source = some s;
    type = some t;
    rest = record {
      datacontenttype = none;
      dataschema = d;
      subject = u;
      time = w;
      extensions = x;
      payload = DataT.monostate;
    };
  }

any_same-All :
    (n : Bytes) (rs : List Bytes) → any_same n rs ≡ false → All (λ r. same n r ≡ false) rs
any_same-All n [] h = tt
any_same-All n (r ∷ rs) h = elim (Bool-cases (same n r)) [
  | inl p ↦ cc (rw p at h)
  | inr p ↦ (p, any_same-All n rs (rw p at h))
]

-- The name of an extension is none of the reserved ones.
pub Passes-unreserved :
    (P : Platform) (n : Bytes)
    → Passes (extension_name_policy P) n
    → All (λ r. same n r ≡ false) reserved_names
unfolding reserved_name
Passes-unreserved P n h = elim (Bool-cases (P.match_attribute_name n)) [
  | inl p ↦ elim (Bool-cases (reserved_name n)) [
    | inl q ↦ cc (rw (p, q) at h)
    | inr q ↦ any_same-All n reserved_names q
  ]
  | inr p ↦ cc (rw p at h)
]

All-Above :
    (x : ExtensionMap) (e : Bytes × AttributeValue) (es : ExtensionMap)
    → All (λ f. Above f.0 (e ∷ es)) x
    → All (λ f. less f.0 e.0 ≡ true) x × All (λ f. Above f.0 es) x
All-Above [] e es h = (tt, tt)
All-Above (f ∷ fs) e es ((p, q), hs) = let (ps, qs) = All-Above fs e es hs in ((p, ps), (q, qs))

module _ (T : Traits) {P : Platform} where
  apply_attribute-extension :
      (b : Builder P) (n v : Bytes)
      → Passes (extension_name_policy P) n
      → apply_attribute T b n v ≡ apply_extension T b n v
  unfolding apply_attribute
  apply_attribute-extension b n v h =
      let (i, (s, (v, (t, (c, (d, (u, (w, _)))))))) = Passes-unreserved P n h in
      rw (c, v, i, s, t, d, u, w) refl

  apply_extensions :
      (i s t : Bytes) (d u : Option Bytes) (w : Option Timestamp) (x es : ExtensionMap)
      → All (λ f. Passes (extension_name_policy P) f.0) es
      → All (λ f. Above f.0 es) x
      → Ordered es
      → apply_all T (staged {P = P} i s t d u w x) (extension_texts es)
        ≡ ok (staged i s t d u w (x ++ as_texts es))
  apply_extensions i s t d u w x [] h a o = rw (append-nil x) refl
  apply_extensions i s t d u w x (e ∷ es) (h, hs) a (o, os) =
      let text = extension_text e.1 in
      let new : ExtensionMap = (e.0, string text) ∷ [] in
      let (behind, above) = All-Above x e es a in
      rw
        (
          apply_attribute-extension (staged i s t d u w x) e.0 text h,
          make-Passes (extension_name_policy P) e.0 h,
          insert_or_assign-last x e.0 (string text) behind,
        )
        (apply_extensions i s t d u w (x ++ new) es hs
            (All-append (λ f. Above f.0 es) x new above (o, tt)) os
          ∙ ap (λ (l : ExtensionMap). ok (staged {P = P} i s t d u w l))
              (append_assoc x new (as_texts es)))

  apply_time-step :
      (i s t : Bytes) (d u : Option Bytes) (w : Option Timestamp) (more : RawHeaders)
      → Each (λ m. parse_timestamp P (timestamp_text m) ≡ ok (shown m)) w
      → apply_all T
          (staged {P = P} i s t d u none [])
          (with_optional (codes "time") (time_text w) more)
        ≡ apply_all T (staged i s t d u (shown_time w) []) more
  unfolding apply_attribute same
  apply_time-step i s t d u none more h = refl
  apply_time-step i s t d u (some m) more h = rw h refl

  apply_subject-step :
      (i s t : Bytes) (d u : Option Bytes) (more : RawHeaders)
      → Each (Passes subject_policy) u
      → apply_all T (staged {P = P} i s t d none none []) (with_optional (codes "subject") u more)
        ≡ apply_all T (staged i s t d u none []) more
  unfolding apply_attribute same
  apply_subject-step i s t d none more h = refl
  apply_subject-step i s t d (some m) more h = rw (store_attribute-Passes subject_policy m h) refl

  apply_dataschema-step :
      (i s t : Bytes) (d : Option Bytes) (more : RawHeaders)
      → Each (Passes dataschema_policy) d
      → apply_all T
          (staged {P = P} i s t none none none [])
          (with_optional (codes "dataschema") d more)
        ≡ apply_all T (staged i s t d none none []) more
  unfolding apply_attribute same
  apply_dataschema-step i s t none more h = refl
  apply_dataschema-step i s t (some m) more h =
      rw (store_attribute-Passes dataschema_policy m h) refl

  -- The reader collects the attributes that the writer wrote, the extensions as their texts.
  pub apply_all-attributes_of :
      (e : Event P)
      → IsValid e
      → Each (HasGroups P) e.rest.time
      → apply_all T {P = P} empty_builder (attributes_of e)
        ≡ ok (
            staged e.id e.source e.type e.rest.dataschema e.rest.subject
              (shown_time e.rest.time)
              (as_texts e.rest.extensions))
  unfolding apply_attribute same make_spec_version
  apply_all-attributes_of e h timed =
      rw
        (
          store_attribute-Passes id_policy e.id h.id,
          store_attribute-Passes source_policy e.source h.source,
          store_attribute-Passes type_policy e.type h.type,
        )
        (apply_dataschema-step e.id e.source e.type e.rest.dataschema _ h.dataschema
          ∙ apply_subject-step e.id e.source e.type e.rest.dataschema e.rest.subject _ h.subject
          ∙ apply_time-step e.id e.source e.type e.rest.dataschema e.rest.subject e.rest.time _
              (parsed_time P e.rest.time h.time timed)
          ∙ apply_extensions e.id e.source e.type e.rest.dataschema e.rest.subject
              (shown_time e.rest.time) [] e.rest.extensions h.names tt h.ordered)
