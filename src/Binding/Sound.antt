-- ===== src/Binding/Sound.antt =====
-- What `read_attributes` puts into a builder is what the classes of the attributes accept.
use cloudevents_sdk_cpp.Base.{
  ◌≡◌, subst, inl, inr, Bool, true, false, Option, [], ◌∷◌, Bytes, Bool-cases, Option-cases, All,
  if◌then◌else◌, codes,
}
use cloudevents_sdk_cpp.Base.Lists.{same}
use cloudevents_sdk_cpp.Errors.{Result, ok, ◌>>=◌, forward_failure, bind_succeeds, ok-injective}
use cloudevents_sdk_cpp.Headers.{RawHeaders}
use cloudevents_sdk_cpp.Platform.{Platform}
use cloudevents_sdk_cpp.Timestamp.{parse_timestamp}
use cloudevents_sdk_cpp.Attributes.{
  Policy, id_policy, source_policy, type_policy, dataschema_policy, subject_policy,
  datacontenttype_policy, extension_name_policy, make, store_attribute, make_spec_version,
}
use cloudevents_sdk_cpp.Event.{string, Builder, empty_builder}
use cloudevents_sdk_cpp.Maps.Emplaced.{insert_or_assign-All}
use cloudevents_sdk_cpp.Maps.Order.{Ordered, insert_or_assign-Ordered}
use cloudevents_sdk_cpp.Binding.{Traits, carries_prefix, attribute_name_of, first_repeated_name}
use cloudevents_sdk_cpp.Binding.Read.{
  apply_attribute, apply_datacontenttype, apply_extension, apply_time, read_loop, read_attributes,
}
use cloudevents_sdk_cpp.Binding.Collected.{Passes, Each}

-- Every attribute present is one that its class accepts, and the extensions are in order.
pub IsSound : {P : Platform} → Builder P → Type 0
IsSound {P = P} b =
    Each (Passes id_policy) b.id
    × Each (Passes source_policy) b.source
    × Each (Passes type_policy) b.type
    × Each (Passes dataschema_policy) b.rest.dataschema
    × Each (Passes subject_policy) b.rest.subject
    × Each (Passes (datacontenttype_policy P)) b.rest.datacontenttype
    × All (λ x. Passes (extension_name_policy P) x.0) b.rest.extensions
    × Ordered b.rest.extensions

pub make-eq-ok :
    (policy : Policy) (text made : Bytes) → make policy text ≡ ok made → Passes policy made
unfolding make
make-eq-ok policy text made h = elim (Option-cases (policy.check text)) [
  | inl p ↦ let e = ok-injective (rw p at h) in rw (← e) p
  | inr (x, p) ↦ elim (Bool-cases policy.names_offending_text) [
    | inl q ↦ cc (rw (p, q) at h)
    | inr q ↦ cc (rw (p, q) at h)
  ]
]

pub store_attribute-eq-ok :
    (policy : Policy) (text : Bytes) (slot : Option Bytes)
    → store_attribute policy text ≡ ok slot
    → Each (Passes policy) slot
unfolding store_attribute
store_attribute-eq-ok policy text slot h =
    let (made, p, q) = bind_succeeds (make policy text) _ h in
    subst (Each (Passes policy)) (ok-injective q) (make-eq-ok policy text made p)

module _ (T : Traits) {P : Platform} where
  apply_extension-IsSound :
      (b b' : Builder P) (n v : Bytes) → IsSound b → apply_extension T b n v ≡ ok b' → IsSound b'
  unfolding IsSound
  apply_extension-IsSound b b' n v (i, s, t, d, u, m, ns, o) e =
      let policy = extension_name_policy P in
      let (name, p, q) = bind_succeeds (make policy n) _ e in
      subst IsSound (ok-injective q) (
        i,
        s,
        t,
        d,
        u,
        m,
        insert_or_assign-All (λ x. Passes policy x.0) b.rest.extensions name (string v)
            (make-eq-ok policy n name p) ns,
        insert_or_assign-Ordered b.rest.extensions name (string v) o,
      )

  -- A stored attribute replaces one field of the builder.
  stored :
      (policy : Policy) (v : Bytes) (b' : Builder P) (put : Option Bytes → Builder P)
      → ((slot : Option Bytes) → Each (Passes policy) slot → IsSound (put slot))
      → (store_attribute policy v >>= (λ slot. ok (put slot))) ≡ ok b'
      → IsSound b'
  stored policy v b' put sound e =
      let (slot, p, q) = bind_succeeds (store_attribute policy v) _ e in
      subst IsSound (ok-injective q) (sound slot (store_attribute-eq-ok policy v slot p))

  apply_datacontenttype-IsSound :
      (b b' : Builder P) (n v : Bytes)
      → IsSound b
      → apply_datacontenttype T b n v ≡ ok b'
      → IsSound b'
  unfolding apply_datacontenttype IsSound
  apply_datacontenttype-IsSound b b' n v (i, s, t, d, u, m, ns, o) e =
      elim (Bool-cases T.content_type_as_attribute) [
        | inl p ↦
            stored (datacontenttype_policy P) v b'
              (λ slot. record b { rest = record b.rest { datacontenttype = slot } })
              (λ slot c. (i, s, t, d, u, c, ns, o)) (rw p at e)
        | inr p ↦ cc (rw p at e)
      ]

  apply_time-IsSound :
      (b b' : Builder P) (v : Bytes) → IsSound b → apply_time T b v ≡ ok b' → IsSound b'
  unfolding IsSound
  apply_time-IsSound b b' v h e =
      let (parsed, p, q) =
        bind_succeeds (forward_failure (parse_timestamp P v) (codes "time")) _ e in
      subst IsSound (ok-injective q) h

  -- One test of the chain in `apply_attribute`.
  chosen :
      (b' : Builder P) (c : Bool) (x y : Result (Builder P))
      → (x ≡ ok b' → IsSound b')
      → (y ≡ ok b' → IsSound b')
      → (if c then x else y) ≡ ok b'
      → IsSound b'
  chosen b' true x y f g e = f e
  chosen b' false x y f g e = g e

  apply_attribute-IsSound :
      (b b' : Builder P) (n v : Bytes) → IsSound b → apply_attribute T b n v ≡ ok b' → IsSound b'
  unfolding apply_attribute IsSound
  apply_attribute-IsSound b b' n v h =
      let (i, s, t, d, u, m, ns, o) = h in
      chosen b' (same n (codes "datacontenttype")) _ _ (apply_datacontenttype-IsSound b b' n v h) (
        chosen b' (same n (codes "specversion")) _ _
          (λ e.
            subst IsSound (ok-injective (bind_succeeds (make_spec_version v) (λ _. ok b) e).2) h)
          (chosen b' (same n (codes "id")) _ _
            (stored id_policy v b' (λ slot. record b { id = slot })
              (λ slot c. (c, s, t, d, u, m, ns, o)))
            (chosen b' (same n (codes "source")) _ _
              (stored source_policy v b' (λ slot. record b { source = slot })
                (λ slot c. (i, c, t, d, u, m, ns, o)))
              (chosen b' (same n (codes "type")) _ _
                (stored type_policy v b' (λ slot. record b { type = slot })
                  (λ slot c. (i, s, c, d, u, m, ns, o)))
                (chosen b' (same n (codes "dataschema")) _ _
                  (stored dataschema_policy v b'
                    (λ slot. record b { rest = record b.rest { dataschema = slot } })
                    (λ slot c. (i, s, t, c, u, m, ns, o)))
                  (chosen b' (same n (codes "subject")) _ _
                    (stored subject_policy v b'
                      (λ slot. record b { rest = record b.rest { subject = slot } })
                      (λ slot c. (i, s, t, d, c, m, ns, o)))
                    (chosen b' (same n (codes "time")) _ _ (apply_time-IsSound b b' v h)
                      (apply_extension-IsSound b b' n v h))))))))

  read_loop-IsSound :
      (b b' : Builder P) (fields : RawHeaders)
      → IsSound b
      → read_loop T b fields ≡ ok b'
      → IsSound b'
  unfolding read_loop
  read_loop-IsSound b b' [] h e = subst IsSound (ok-injective e) h
  read_loop-IsSound b b' (f ∷ fs) h e = elim (Bool-cases (carries_prefix T f.0)) [
    | inl p ↦
        let name = attribute_name_of T f.0 in
        let (v, _, q) = bind_succeeds (forward_failure (T.decode_value f.1) name) _ (rw p at e) in
        let (c, r, t) = bind_succeeds (apply_attribute T b name v) _ q in
        read_loop-IsSound c b' fs (apply_attribute-IsSound b c name v h r) t
    | inr p ↦ read_loop-IsSound b b' fs h (rw p at e)
  ]

  -- Whatever fields are delivered, a builder that `read_attributes` returns holds only attributes
  -- that their classes accept, and its extensions have valid names in strictly ascending order.
  pub read_attributes-IsSound :
      (delivered : RawHeaders) (b : Builder P) → read_attributes T delivered ≡ ok b → IsSound b
  unfolding read_attributes IsSound
  read_attributes-IsSound delivered b e = elim (Option-cases (first_repeated_name T delivered)) [
    | inl p ↦
        read_loop-IsSound empty_builder b delivered (tt, tt, tt, tt, tt, tt, tt, tt) (rw p at e)
    | inr (n, p) ↦ cc (rw p at e)
  ]
