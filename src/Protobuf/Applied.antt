-- ===== src/Protobuf/Applied.antt =====
-- What `apply_attributes` makes of the attributes that `encode_attributes` wrote.
use cloudevents_sdk_cpp.Base.{
  ◌≡◌, ◌≢◌, refl, ap, ◌∙◌, ◌⊎◌, inl, inr, true, Option, none, some, [], ◌∷◌, Bytes, Bool-cases, All,
  if◌then◌else◌, codes,
}
use cloudevents_sdk_cpp.Base.Lists.{same}
use cloudevents_sdk_cpp.Errors.{ok}
use cloudevents_sdk_cpp.Maps.{Map, less, emplace, insert_or_assign}
use cloudevents_sdk_cpp.Maps.Order.{Ordered, Above, Above-trans, less_asym, less_total}
use cloudevents_sdk_cpp.Maps.Emplaced.{
  emplace_all, assign_all, map_values, emplace-All, emplace-Ordered,
}
use cloudevents_sdk_cpp.Platform.{Platform}
use cloudevents_sdk_cpp.Timestamp.{Timestamp}
use cloudevents_sdk_cpp.Event.{AttributeValue, instant, Options}
use cloudevents_sdk_cpp.Protobuf.Decode.{
  text_of_string_arm, text_of_uri_arm, apply_arm, apply_attributes,
}
use cloudevents_sdk_cpp.Protobuf.Values.{read_back}
use cloudevents_sdk_cpp.Protobuf.Entries.{read_arm}

-- where `apply_attribute` puts an attribute
pub data Slot : Type 0 where
  datacontenttype_slot dataschema_slot subject_slot time_slot extension_slot : Slot

abbrev pub slot : Bytes → Slot
slot name =
    if same name (codes "datacontenttype")
    then datacontenttype_slot
    else if same name (codes "dataschema")
    then dataschema_slot
    else if same name (codes "subject")
    then subject_slot
    else if same name (codes "time")
    then time_slot
    else extension_slot

abbrev pub time_of : AttributeValue → Option Timestamp
time_of (instant t) = some t
time_of _ = none

-- a name of its own, not an extension's
abbrev pub IsContext : Bytes × AttributeValue → Type 0
IsContext e = slot e.0 ≢ extension_slot

behind-IsContext :
    (m : Map AttributeValue) (e : Bytes × AttributeValue)
    → Above e.0 m
    → All (λ f. IsContext f ⊎ (less f.0 e.0 ≡ true)) m
    → All IsContext m
behind-IsContext [] e a h = tt
behind-IsContext (f ∷ fs) e (a, as_) (inl c, hs) = (c, behind-IsContext fs e as_ hs)
behind-IsContext (f ∷ fs) e (a, as_) (inr l, hs) = cc (less_asym e.0 f.0 a)

first :
    (m : Map AttributeValue) (e : Bytes × AttributeValue) (es : Map AttributeValue)
    → All (λ f. IsContext f ⊎ Above f.0 (e ∷ es)) m
    → All (λ f. IsContext f ⊎ (less f.0 e.0 ≡ true)) m
first [] e es h = tt
first (f ∷ fs) e es (inl c, hs) = (inl c, first fs e es hs)
first (f ∷ fs) e es (inr (a, as_), hs) = (inr a, first fs e es hs)

remaining :
    (m : Map AttributeValue) (e : Bytes × AttributeValue) (es : Map AttributeValue)
    → All (λ f. IsContext f ⊎ Above f.0 (e ∷ es)) m
    → All (λ f. IsContext f ⊎ Above f.0 es) m
remaining [] e es h = tt
remaining (f ∷ fs) e es (inl c, hs) = (inl c, remaining fs e es hs)
remaining (f ∷ fs) e es (inr (a, as_), hs) = (inr as_, remaining fs e es hs)

module _ {P : Platform} where
  abbrev pub settle_slot : Slot → Bytes → AttributeValue → Options P → Options P
  settle_slot datacontenttype_slot name value into = record into {
    datacontenttype = text_of_string_arm value;
  }
  settle_slot dataschema_slot name value into = record into { dataschema = text_of_uri_arm value }
  settle_slot subject_slot name value into = record into { subject = text_of_string_arm value }
  settle_slot time_slot name value into = record into { time = time_of (read_back value) }
  settle_slot extension_slot name value into = record into {
    extensions = insert_or_assign into.extensions name (read_back value);
  }

  -- the options with one attribute more
  abbrev pub settle : Bytes × AttributeValue → Options P → Options P
  settle e into = settle_slot (slot e.0) e.0 e.1 into

  unfoldable pub settle_all : Map AttributeValue → Options P → Options P
  settle_all [] into = into
  settle_all (e ∷ es) into = settle_all es (settle e into)

  settle_slot_comm :
      (s : Slot) (n m : Bytes) (v w : AttributeValue) (into : Options P)
      → s ≢ extension_slot
      → settle_slot s n v (settle_slot extension_slot m w into)
        ≡ settle_slot extension_slot m w (settle_slot s n v into)
  settle_slot_comm datacontenttype_slot n m v w into h = refl
  settle_slot_comm dataschema_slot n m v w into h = refl
  settle_slot_comm subject_slot n m v w into h = refl
  settle_slot_comm time_slot n m v w into h = refl
  settle_slot_comm extension_slot n m v w into h = absurd (h refl)

  settle_all-settle :
      (m : Map AttributeValue) (e : Bytes × AttributeValue) (into : Options P)
      → slot e.0 ≡ extension_slot
      → All IsContext m
      → settle_all m (settle e into) ≡ settle e (settle_all m into)
  unfolding settle_all
  settle_all-settle [] e into h k = refl
  settle_all-settle (f ∷ fs) e into h (k, ks) =
      ap (settle_all fs) (rw h (settle_slot_comm (slot f.0) f.0 e.0 f.1 e.1 into k))
      ∙ settle_all-settle fs e (settle f into) h ks

  -- An extension behind all the extensions of the map could as well be assigned last.
  settle_all-emplace :
      (m : Map AttributeValue) (e : Bytes × AttributeValue) (into : Options P)
      → slot e.0 ≡ extension_slot
      → Ordered m
      → All (λ f. IsContext f ⊎ (less f.0 e.0 ≡ true)) m
      → settle_all (emplace m e.0 e.1) into ≡ settle e (settle_all m into)
  unfolding settle_all emplace
  settle_all-emplace [] e into h o k = refl
  settle_all-emplace (f ∷ fs) e into h (o, os) (k, ks) = elim (Bool-cases (less e.0 f.0)) [
    | inl p ↦ rw p (
        settle_all-settle (f ∷ fs) e into h
          (behind-IsContext (f ∷ fs) e (p, Above-trans e.0 f.0 fs p o) (k, ks)))
    | inr p ↦ elim (Bool-cases (less f.0 e.0)) [
      | inl q ↦ rw (p, q) (settle_all-emplace fs e (settle f into) h os ks)
      | inr q ↦ elim k [ inl c ↦ absurd (c (ap slot (less_total f.0 e.0 q p) ∙ h)) | inr l ↦ cc ]
    ]
  ]

  pub settle_all-emplace_all :
      (m es : Map AttributeValue) (into : Options P)
      → Ordered m
      → Ordered es
      → All (λ e. slot e.0 ≡ extension_slot) es
      → All (λ f. IsContext f ⊎ Above f.0 es) m
      → settle_all (emplace_all m es) into ≡ settle_all es (settle_all m into)
  unfolding settle_all emplace_all
  settle_all-emplace_all m [] into o os h k = refl
  settle_all-emplace_all m (e ∷ es) into o (a, os) (h, hs) k =
      settle_all-emplace_all (emplace m e.0 e.1) es into (emplace-Ordered m e.0 e.1 o) os hs
        (emplace-All (λ f. IsContext f ⊎ Above f.0 es) m e.0 e.1 (inr a) (remaining m e es k))
      ∙ ap (settle_all es) (settle_all-emplace m e into h o (first m e es k))

  pub settle_all-extensions :
      (es : Map AttributeValue) (into : Options P)
      → All (λ e. slot e.0 ≡ extension_slot) es
      → settle_all es into
        ≡ record into { extensions = assign_all into.extensions (map_values read_back es) }
  unfolding settle_all assign_all
  settle_all-extensions [] into h = refl
  settle_all-extensions (e ∷ es) into (h, hs) = rw h (settle_all-extensions es _ hs)

-- The attributes that the reader takes.
module _ (P : Platform) where
  abbrev pub Applies : Bytes × AttributeValue → Type 0
  Applies e = (into : Options P) → apply_arm e.0 (read_arm e.1) into ≡ ok (settle {P = P} e into)

  pub apply_attributes-settle_all :
      (m : Map AttributeValue) (into : Options P)
      → All Applies m
      → apply_attributes (map_values read_arm m) into ≡ ok (settle_all m into)
  unfolding apply_attributes settle_all
  apply_attributes-settle_all [] into h = refl
  apply_attributes-settle_all (e ∷ es) into (h, hs) =
      rw (h into) (apply_attributes-settle_all es (settle {P = P} e into) hs)
