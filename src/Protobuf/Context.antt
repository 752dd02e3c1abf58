-- ===== src/Protobuf/Context.antt =====
-- The attributes of an event as one map in order, and the options made of it.
use cloudevents_sdk_cpp.Base.{
  ◌≡◌, refl, subst, Option, none, some, [], ◌∷◌, Bytes, All, codes, arith,
}
use cloudevents_sdk_cpp.Base.Lists.{same}
use cloudevents_sdk_cpp.Maps.{Map, less, emplace}
use cloudevents_sdk_cpp.Maps.Order.{Ordered}
use cloudevents_sdk_cpp.Maps.Emplaced.{emplace_all, map_values, map_values-emplace}
use cloudevents_sdk_cpp.Platform.{Platform}
use cloudevents_sdk_cpp.Timestamp.{Timestamp}
use cloudevents_sdk_cpp.Attributes.{
  id_policy, source_policy, type_policy, subject_policy, dataschema_policy, datacontenttype_policy,
  extension_name_policy,
}
use cloudevents_sdk_cpp.Event.{
  AttributeValue, string, uri, instant, DataT, Options, Event, no_options,
}
use cloudevents_sdk_cpp.Binding.Collected.{Passes, Each}
use cloudevents_sdk_cpp.Protobuf.Value.{encode_value}
use cloudevents_sdk_cpp.Protobuf.Encode.{emplace_extensions, encode_context, encode_attributes}
use cloudevents_sdk_cpp.Protobuf.Values.{InRange, utc_instant}
use cloudevents_sdk_cpp.Protobuf.Entries.{IsWritableEntry}
use cloudevents_sdk_cpp.Protobuf.Applied.{IsContext, settle_all}

abbrev optional_entry :
    {V : Type 0} → Bytes → (V → AttributeValue) → Option V → Map AttributeValue → Map AttributeValue
optional_entry name as_value none more = more
optional_entry name as_value (some value) more = (name, as_value value) ∷ more

abbrev pub utc_time : Option Timestamp → Option Timestamp
utc_time none = none
utc_time (some t) = some (utc_instant t)

-- the context attributes that the map carries, in order
unfoldable pub context_list :
    Option Bytes → Option Bytes → Option Bytes → Option Timestamp → Map AttributeValue
context_list d s u w = optional_entry (codes "datacontenttype") string d (
    optional_entry (codes "dataschema") uri s
      (optional_entry (codes "subject") string u (optional_entry (codes "time") instant w [])))

module _ {P : Platform} where
  abbrev pub staged : Option Bytes → Option Bytes → Option Bytes → Option Timestamp → Options P
  staged d s u w = record {
    datacontenttype = d;
    dataschema = s;
    subject = u;
    time = w;
    extensions = [];
    payload = DataT.monostate;
  }

  pub settle_all-context_list :
      (d s u : Option Bytes) (w : Option Timestamp)
      → settle_all (context_list d s u w) no_options ≡ staged d s u (utc_time w)
  unfolding settle_all context_list same
  settle_all-context_list d s u w = ground arith

pub context_list-Ordered :
    (d s u : Option Bytes) (w : Option Timestamp) → Ordered (context_list d s u w)
unfolding context_list less
context_list-Ordered d s u w = ground arith

encode_context-context_list :
    (P : Platform) (d s u : Option Bytes) (w : Option Timestamp)
    → encode_context (staged {P = P} d s u w) ≡ map_values encode_value (context_list d s u w)
unfolding context_list emplace less
encode_context-context_list P d s u w = ground arith

All-optional :
    {V : Type 0} (Q : Bytes × AttributeValue → Type 0) (name : Bytes)
    (as_value : V → AttributeValue) (o : Option V) (more : Map AttributeValue)
    → ((v : V) → o ≡ some v → Q (name, as_value v))
    → All Q more
    → All Q (optional_entry name as_value o more)
All-optional Q name as_value none more h k = k
All-optional Q name as_value (some v) more h k = (h v refl, k)

-- A property of the context attributes that are there.
pub context_list-All :
    (Q : Bytes × AttributeValue → Type 0) (d s u : Option Bytes) (w : Option Timestamp)
    → ((v : Bytes) → d ≡ some v → Q (codes "datacontenttype", string v))
    → ((v : Bytes) → s ≡ some v → Q (codes "dataschema", uri v))
    → ((v : Bytes) → u ≡ some v → Q (codes "subject", string v))
    → ((t : Timestamp) → w ≡ some t → Q (codes "time", instant t))
    → All Q (context_list d s u w)
unfolding context_list
context_list-All Q d s u w hd hs hu hw = All-optional Q (codes "datacontenttype") string d _ hd (
    All-optional Q (codes "dataschema") uri s _ hs (
      All-optional Q (codes "subject") string u _ hu
        (All-optional Q (codes "time") instant w [] hw tt)))

pub context_list-IsContext :
    (d s u : Option Bytes) (w : Option Timestamp) → All IsContext (context_list d s u w)
unfolding same
context_list-IsContext d s u w =
    context_list-All IsContext d s u w (λ v e h. cc) (λ v e h. cc) (λ v e h. cc) (λ v e h. cc)

pub Each-some : {A : Type 0} (R : A → Type 0) (o : Option A) (a : A) → Each R o → o ≡ some a → R a
Each-some R none a h e = cc
Each-some R (some b) a h e = let p : b ≡ a = cc in subst R p h

unfoldable pub attributes_list : {P : Platform} → Event P → Map AttributeValue
attributes_list e =
    emplace_all (context_list e.rest.datacontenttype e.rest.dataschema e.rest.subject e.rest.time)
      e.rest.extensions

emplace_extensions-emplace_all :
    (m es : Map AttributeValue)
    → emplace_extensions (map_values encode_value m) es ≡ map_values encode_value (emplace_all m es)
unfolding emplace_extensions emplace_all
emplace_extensions-emplace_all m [] = refl
emplace_extensions-emplace_all m (e ∷ es) =
    rw (← map_values-emplace encode_value m e.0 e.1)
      (emplace_extensions-emplace_all (emplace m e.0 e.1) es)

pub encode_attributes-attributes_list :
    {P : Platform} (e : Event P) → encode_attributes e ≡ map_values encode_value (attributes_list e)
unfolding encode_attributes attributes_list
encode_attributes-attributes_list {P = P} e =
    rw
      (encode_context-context_list P e.rest.datacontenttype e.rest.dataschema e.rest.subject
        e.rest.time)
      (emplace_extensions-emplace_all
        (context_list e.rest.datacontenttype e.rest.dataschema e.rest.subject e.rest.time)
        e.rest.extensions)

-- The attributes of the event are such as their classes accept, its extensions are in order, and
-- the wire carries its instants and integers.
pub record IsCarried {P : Platform} (e : Event P) : Type 0 where
  pub id : Passes id_policy e.id
  pub source : Passes source_policy e.source
  pub type : Passes type_policy e.type
  pub dataschema : Each (Passes dataschema_policy) e.rest.dataschema
  pub subject : Each (Passes subject_policy) e.rest.subject
  pub time : Each InRange e.rest.time
  pub media_type : Each (Passes (datacontenttype_policy P)) e.rest.datacontenttype
  pub names : All (λ x. Passes (extension_name_policy P) x.0) e.rest.extensions
  pub writable : All IsWritableEntry e.rest.extensions
  pub ordered : Ordered e.rest.extensions
