-- ===== src/Binding/Separate.antt =====
-- The attributes of a valid event have different names, so their fields have.
use cloudevents_sdk_cpp.Base.{
  ◌≡◌, refl, false, Option, none, some, List, [], ◌∷◌, ◌++◌, map, Bytes, arith, All, All-append,
  codes,
}
use cloudevents_sdk_cpp.Base.Lists.{same}
use cloudevents_sdk_cpp.Text.{ascii_lower}
use cloudevents_sdk_cpp.Headers.{Entry, RawHeaders}
use cloudevents_sdk_cpp.Platform.{Platform}
use cloudevents_sdk_cpp.Attributes.{reserved_names, extension_name_policy}
use cloudevents_sdk_cpp.Event.{Event, ExtensionMap}
use cloudevents_sdk_cpp.Maps.Order.{Ordered, Above, less-same}
use cloudevents_sdk_cpp.Binding.{Traits, same_field_name}
use cloudevents_sdk_cpp.Binding.Apart.{Apart, field_apart}
use cloudevents_sdk_cpp.Binding.Write.{time_text, extension_text}
use cloudevents_sdk_cpp.Binding.Carried.{with_optional, extension_texts, attributes_of, IsName}
use cloudevents_sdk_cpp.Binding.Collected.{IsValid, Passes, Passes-unreserved}

same_sym : (a b : Bytes) → same a b ≡ same b a
unfolding same
same_sym [] [] = refl
same_sym [] (y ∷ ys) = refl
same_sym (x ∷ xs) [] = refl
same_sym (x ∷ xs) (y ∷ ys) = ground (arith, same_sym xs ys)

-- No attribute of the list has this name.
abbrev pub Without : Bytes → RawHeaders → Type 0
Without name attrs = All (λ f. same name f.0 ≡ false) attrs

abbrev pub NamesApart : RawHeaders → Type 0
NamesApart [] = Unit
NamesApart (a ∷ attrs) = Without a.0 attrs × NamesApart attrs

optional-All :
    (Q : Entry → Type 0) (name : Bytes) (value : Option Bytes) (more : RawHeaders)
    → ((v : Bytes) → Q (name, v))
    → All Q more
    → All Q (with_optional name value more)
optional-All Q name none more q h = h
optional-All Q name (some v) more q h = (q v, h)

optional-NamesApart :
    (name : Bytes) (value : Option Bytes) (more : RawHeaders)
    → Without name more
    → NamesApart more
    → NamesApart (with_optional name value more)
optional-NamesApart name none more w h = h
optional-NamesApart name (some v) more w h = (w, h)

All-cons :
    (n : Bytes) (fs : RawHeaders) (v : Bytes) (rs : List Bytes)
    → All (λ r. same n r ≡ false) rs
    → All (λ r. Without r fs) rs
    → All (λ r. Without r ((n, v) ∷ fs)) rs
All-cons n fs v [] h k = tt
All-cons n fs v (r ∷ rs) (h, hs) (k, ks) = ((rw (same_sym r n) h, k), All-cons n fs v rs hs ks)

All-nil : (rs : List Bytes) → All (λ r. Without r []) rs
All-nil [] = tt
All-nil (r ∷ rs) = (tt, All-nil rs)

extensions-Without :
    (P : Platform) (es : ExtensionMap)
    → All (λ f. Passes (extension_name_policy P) f.0) es
    → All (λ r. Without r (extension_texts es)) reserved_names
extensions-Without P [] h = All-nil reserved_names
extensions-Without P (e ∷ es) (h, hs) =
    All-cons e.0 (extension_texts es) (extension_text e.1) reserved_names
      (Passes-unreserved P e.0 h) (extensions-Without P es hs)

Above-Without :
    (name : Bytes) (es : ExtensionMap) → Above name es → Without name (extension_texts es)
Above-Without name [] h = tt
Above-Without name (e ∷ es) (h, hs) = (less-same name e.0 h, Above-Without name es hs)

extensions-NamesApart : (es : ExtensionMap) → Ordered es → NamesApart (extension_texts es)
extensions-NamesApart [] h = tt
extensions-NamesApart (e ∷ es) (h, hs) = (Above-Without e.0 es h, extensions-NamesApart es hs)

-- An attribute with a new name behind the others.
pub NamesApart-last :
    (attrs : RawHeaders) (name : Bytes) (value : Option Bytes)
    → NamesApart attrs
    → All (λ a. same a.0 name ≡ false) attrs
    → NamesApart (attrs ++ with_optional name value [])
NamesApart-last [] name none h o = tt
NamesApart-last [] name (some v) h o = (tt, tt)
NamesApart-last (a ∷ attrs) name value (w, h) (o, os) = (
  All-append (λ f. same a.0 f.0 ≡ false) attrs (with_optional name value []) w
      (optional-All (λ f. same a.0 f.0 ≡ false) name value [] (λ v. o) tt),
  NamesApart-last attrs name value h os,
)

extensions-Others :
    (P : Platform) (es : ExtensionMap)
    → All (λ f. Passes (extension_name_policy P) f.0) es
    → All (λ a. same a.0 (codes "datacontenttype") ≡ false) (extension_texts es)
extensions-Others P [] h = tt
extensions-Others P (e ∷ es) (h, hs) =
    let (_, (_, (_, (_, (c, _))))) = Passes-unreserved P e.0 h in (c, extensions-Others P es hs)

module _ {P : Platform} where
  abbrev pub optionals : Event P → RawHeaders
  optionals e = with_optional (codes "dataschema") e.rest.dataschema (
      with_optional (codes "subject") e.rest.subject
        (with_optional (codes "time") (time_text e.rest.time) (extension_texts e.rest.extensions)))

  pub optionals-All :
      (Q : Entry → Type 0) (e : Event P)
      → ((v : Bytes) → Q (codes "dataschema", v))
      → ((v : Bytes) → Q (codes "subject", v))
      → ((v : Bytes) → Q (codes "time", v))
      → All Q (extension_texts e.rest.extensions)
      → All Q (optionals e)
  optionals-All Q e d u w h = optional-All Q (codes "dataschema") e.rest.dataschema _ d (
      optional-All Q (codes "subject") e.rest.subject _ u
        (optional-All Q (codes "time") (time_text e.rest.time) _ w h))

  pub attributes_of-NamesApart : (e : Event P) → IsValid e → NamesApart (attributes_of e)
  unfolding same
  attributes_of-NamesApart e h =
      let X = extension_texts e.rest.extensions in
      let (i, (s, (v, (t, (_, (d, (u, (w, _)))))))) =
        extensions-Without P e.rest.extensions h.names in
      let past = λ (r : Bytes). optionals-All (λ f. same r f.0 ≡ false) e in
      let other = λ (x : Bytes). refl in
      (
        (refl, (refl, (refl, past (codes "specversion") other other other v))),
        (
          (refl, (refl, past (codes "id") other other other i)),
          (
            (refl, past (codes "source") other other other s),
            (
              past (codes "type") other other other t,
              optional-NamesApart (codes "dataschema") e.rest.dataschema _
                  (optional-All (λ f. same (codes "dataschema") f.0 ≡ false) (codes "subject")
                    e.rest.subject _ other
                    (optional-All (λ f. same (codes "dataschema") f.0 ≡ false) (codes "time")
                      (time_text e.rest.time) _ other d))
                  (optional-NamesApart (codes "subject") e.rest.subject _
                    (optional-All (λ f. same (codes "subject") f.0 ≡ false) (codes "time")
                      (time_text e.rest.time) _ other u)
                    (optional-NamesApart (codes "time") (time_text e.rest.time) X w
                      (extensions-NamesApart e.rest.extensions h.ordered))),
            ),
          ),
        ),
      )

  pub attributes_of-Others :
      (e : Event P)
      → IsValid e
      → All (λ a. same a.0 (codes "datacontenttype") ≡ false) (attributes_of e)
  unfolding same
  attributes_of-Others e h = (
    refl,
    (
      refl,
      (
        refl,
        (
          refl,
          optionals-All (λ a. same a.0 (codes "datacontenttype") ≡ false) e (λ v. refl) (λ v. refl)
              (λ v. refl) (extensions-Others P e.rest.extensions h.names),
        ),
      ),
    ),
  )

  pub attributes_of-IsName :
      (e : Event P)
      → All (λ f. IsName f.0) (extension_texts e.rest.extensions)
      → All (λ f. IsName f.0) (attributes_of e)
  unfolding ascii_lower
  attributes_of-IsName e h = (
    refl,
    (refl, (refl, (refl, optionals-All (λ f. IsName f.0) e (λ v. refl) (λ v. refl) (λ v. refl) h))),
  )

module _ (T : Traits) (E : Bytes → Bytes) where
  abbrev field : Entry → Entry
  field a = (T.attribute_prefix ++ a.0, E a.1)

  fields-apart_from :
      (a : Entry) (attrs : RawHeaders)
      → IsName a.0
      → All (λ f. IsName f.0) attrs
      → Without a.0 attrs
      → All (λ f. same_field_name T (T.attribute_prefix ++ a.0) f.0 ≡ false) (map field attrs)
  fields-apart_from a [] n ns w = tt
  fields-apart_from a (f ∷ fs) n (m, ms) (w, ws) =
      (field_apart T a.0 f.0 n m w, fields-apart_from a fs n ms ws)

  pub fields-Apart :
      (attrs : RawHeaders)
      → All (λ f. IsName f.0) attrs
      → NamesApart attrs
      → Apart T (map field attrs)
  fields-Apart [] n h = tt
  fields-Apart (a ∷ attrs) (n, ns) (w, ws) =
      (fields-apart_from a attrs n ns w, fields-Apart attrs ns ws)
