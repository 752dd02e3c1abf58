-- ===== src/Binding/Carried.antt =====
-- The fields that `write_attributes` writes, and what `read_attributes` makes of them.
use cloudevents_sdk_cpp.Base.{
  ◌≡◌, refl, ap, ◌∙◌, inl, inr, Option, none, some, [], ◌∷◌, ◌++◌, append_assoc, append-nil, map,
  Bytes, All, codes,
}
use cloudevents_sdk_cpp.Errors.{Result, ok, ◌>>=◌, Result-cases}
use cloudevents_sdk_cpp.Text.{ascii_lower}
use cloudevents_sdk_cpp.Headers.{Entry, RawHeaders}
use cloudevents_sdk_cpp.Platform.{Platform}
use cloudevents_sdk_cpp.Event.{Event, ExtensionMap, Builder}
use cloudevents_sdk_cpp.Binding.{Traits}
use cloudevents_sdk_cpp.Binding.Apart.{
  Apart, Apart-middle, put-add, carries_prefix-field, attribute_name_of-field,
}
use cloudevents_sdk_cpp.Binding.Write.{
  Writing, put_attribute, put_encoded, put_optional, put_extensions, time_text, extension_text,
  write_context,
}
use cloudevents_sdk_cpp.Binding.Read.{apply_attribute, read_loop}

-- An attribute that may be absent, in front of others.
abbrev pub with_optional : Bytes → Option Bytes → RawHeaders → RawHeaders
with_optional name none more = more
with_optional name (some value) more = (name, value) ∷ more

abbrev pub extension_texts : ExtensionMap → RawHeaders
extension_texts [] = []
extension_texts (e ∷ es) = (e.0, extension_text e.1) ∷ extension_texts es

module _ {P : Platform} where
  -- the attributes of an event and their texts, in the order they are written
  abbrev pub attributes_of : Event P → RawHeaders
  attributes_of e =
      (codes "specversion", codes "1.0")
      ∷ (codes "id", e.id)
      ∷ (codes "source", e.source)
      ∷ (codes "type", e.type)
      ∷ with_optional (codes "dataschema") e.rest.dataschema (
          with_optional (codes "subject") e.rest.subject (
            with_optional (codes "time") (time_text e.rest.time)
              (extension_texts e.rest.extensions)))

abbrev pub IsName : Bytes → Type 0
IsName name = map ascii_lower name ≡ name

-- `put_attribute` on each attribute
unfoldable pub put_all : Traits → RawHeaders → Writing → Writing
put_all T [] w = w
put_all T (a ∷ attrs) w = put_all T attrs (put_attribute T a.0 a.1 w)

module _ (T : Traits) where
  put_all-optional :
      (name : Bytes) (value : Option Bytes) (more : RawHeaders) (w : Writing)
      → put_all T (with_optional name value more) w ≡ put_all T more (put_optional T name value w)
  unfolding put_all
  put_all-optional name none more w = refl
  put_all-optional name (some value) more w = refl

  put_extensions-put_all :
      (es : ExtensionMap) (w : Writing) → put_extensions T es w ≡ put_all T (extension_texts es) w
  unfolding put_all put_extensions
  put_extensions-put_all [] w = refl
  put_extensions-put_all (e ∷ es) w = put_extensions-put_all es _

  pub write_context-put_all :
      {P : Platform} (e : Event P) (w : Writing)
      → write_context T e w ≡ put_all T (attributes_of e) w
  unfolding put_all
  write_context-put_all {P = P} e w =
      rw
        (
          put_all-optional (codes "dataschema") e.rest.dataschema,
          put_all-optional (codes "subject") e.rest.subject,
          put_all-optional (codes "time") (time_text e.rest.time),
        )
        (put_extensions-put_all e.rest.extensions _)

module _ (T : Traits) where
  -- what the reader does with one attribute after the other
  abbrev pub apply_all : {P : Platform} → Builder P → RawHeaders → Result (Builder P)
  apply_all b [] = ok b
  apply_all b (a ∷ attrs) = do applied ← apply_attribute T b a.0 a.1; apply_all applied attrs

-- Values that the binding encodes and decodes again.
module _ (T : Traits) (E : Bytes → Bytes) (Good : Bytes → Type 0)
    (encodes : (v : Bytes) → Good v → T.encode_value v ≡ ok (E v))
    (decodes : (v : Bytes) → Good v → T.decode_value (E v) ≡ ok v) where
  abbrev pub field_of : Entry → Entry
  field_of a = (T.attribute_prefix ++ a.0, E a.1)

  pub put_all-fields :
      (h attrs : RawHeaders)
      → All (λ a. Good a.1) attrs
      → Apart T (h ++ map field_of attrs)
      → put_all T attrs (h, ok tt) ≡ (h ++ map field_of attrs, ok tt)
  unfolding put_all put_attribute put_encoded
  put_all-fields h [] g d = rw (append-nil h) refl
  put_all-fields h (a ∷ attrs) (g, gs) d =
      let assoc = append_assoc h (field_of a ∷ []) (map field_of attrs) in
      rw
        (
          encodes a.1 g,
          put-add T h (T.attribute_prefix ++ a.0) (E a.1)
              (Apart-middle T h (field_of a) (map field_of attrs) d),
        )
        (put_all-fields (h ++ field_of a ∷ []) attrs gs (rw (← assoc) at d)
          ∙ ap (λ (t : RawHeaders). (t, ok tt)) assoc)

  pub read_loop-fields :
      {P : Platform} (b : Builder P) (attrs more : RawHeaders)
      → All (λ a. Good a.1) attrs
      → All (λ a. IsName a.0) attrs
      → read_loop T b (map field_of attrs ++ more)
        ≡ (apply_all T b attrs >>= (λ c. read_loop T c more))
  unfolding read_loop
  read_loop-fields b [] more g n = refl
  read_loop-fields b (a ∷ attrs) more (g, gs) (n, ns) =
      rw (carries_prefix-field T a.0, attribute_name_of-field T a.0 n, decodes a.1 g)
        (elim (Result-cases (apply_attribute T b a.0 a.1)) [
          | inl (c, q) ↦ rw q (read_loop-fields c attrs more gs ns)
          | inr (e, q) ↦ rw q refl
        ])
