-- ===== src/Binding/Essence.antt =====
-- The media type of a Content-Type value, and the structured Protobuf message read back.
use cloudevents_sdk_cpp.Base.{
  ℕ, ◌^◌, ◌<◌, ◌≡◌, refl, ap, ◌∙◌, true, false, inl, inr, Bool-cases, some, [], ◌∷◌, ◌++◌,
  append-nil, Bytes, All, All-imp, arith, Option, none, ◌==◌, same_iff,
}
use cloudevents_sdk_cpp.Errors.{ok, ◌>>=◌}
use cloudevents_sdk_cpp.Text.{iequals, iequals_iff}
use cloudevents_sdk_cpp.Headers.{find_if}
use cloudevents_sdk_cpp.Platform.{Platform}
use cloudevents_sdk_cpp.Event.{Event}
use cloudevents_sdk_cpp.Binding.{Traits}
use cloudevents_sdk_cpp.Binding.ProtobufStructured.{
  is_padding, before_separator, trim_front, trim_back, media_type_essence, protobuf_content_type,
  encode_protobuf_structured, decode_protobuf_structured, declares_protobuf, declared_type,
  protobuf_message,
}
use cloudevents_sdk_cpp.Protobuf.Scan.{DecodeOptions}
use cloudevents_sdk_cpp.Protobuf.Encode.{encode}
use cloudevents_sdk_cpp.Protobuf.RoundTrip.{read_event, decode_event-encode_event}
use cloudevents_sdk_cpp.Protobuf.Batch.{IsAccepted, body_of}

-- a character of a media type, which is neither a blank nor a semicolon
abbrev pub IsPlain : ℕ → Type 0
IsPlain c = (is_padding c ≡ false) × ((c == b';') ≡ false)

abbrev pub IsPadding : ℕ → Type 0
IsPadding c = (is_padding c ≡ true) × ((c == b';') ≡ false)

before_separator-append :
    (xs ys : Bytes)
    → All (λ c. (c == b';') ≡ false) xs
    → before_separator (xs ++ ys) ≡ xs ++ before_separator ys
unfolding before_separator
before_separator-append [] ys h = refl
before_separator-append (x ∷ xs) ys (h, hs) =
    rw h (ap (λ (t : Bytes). x ∷ t) (before_separator-append xs ys hs))

trim_front-padding : (xs ys : Bytes) → All IsPadding xs → trim_front (xs ++ ys) ≡ trim_front ys
unfolding trim_front
trim_front-padding [] ys h = refl
trim_front-padding (x ∷ xs) ys (h, hs) = rw h.0 (trim_front-padding xs ys hs)

trim_back-padding : (xs : Bytes) → All IsPadding xs → trim_back xs ≡ []
unfolding trim_back
trim_back-padding [] h = refl
trim_back-padding (x ∷ xs) (h, hs) = rw (trim_back-padding xs hs, h.0) refl

trim_back-plain :
    (core padding : Bytes)
    → All IsPlain core
    → All IsPadding padding
    → trim_back (core ++ padding) ≡ core
unfolding trim_back
trim_back-plain [] padding h k = trim_back-padding padding k
trim_back-plain (c ∷ []) padding (h, hs) k = rw (trim_back-padding padding k, h.0) refl
trim_back-plain (c ∷ d ∷ ds) padding (h, hs) k = rw (trim_back-plain (d ∷ ds) padding hs k) refl

trim_front-plain :
    (core padding : Bytes)
    → All IsPlain core
    → All IsPadding padding
    → trim_back (trim_front (core ++ padding)) ≡ core
unfolding trim_front trim_back
trim_front-plain [] padding h k = rw (← append-nil padding, trim_front-padding padding [] k) refl
trim_front-plain (c ∷ cs) padding h k = rw h.0.0 (trim_back-plain (c ∷ cs) padding h k)

-- the parameters of a media type, if there are any
abbrev pub parameters : Option Bytes → Bytes
parameters none = []
parameters (some text) = b';' ∷ text

before_separator-parameters : (params : Option Bytes) → before_separator (parameters params) ≡ []
unfolding before_separator
before_separator-parameters none = refl
before_separator-parameters (some text) = refl

plain_bytes : (xs : Bytes) → All IsPlain xs → All (λ c. (c == b';') ≡ false) xs
plain_bytes xs h = All-imp IsPlain (λ c. (c == b';') ≡ false) xs (λ c p. p.1) h

padding_bytes : (xs : Bytes) → All IsPadding xs → All (λ c. (c == b';') ≡ false) xs
padding_bytes xs h = All-imp IsPadding (λ c. (c == b';') ≡ false) xs (λ c p. p.1) h

-- The essence of a declared media type is the type itself, whatever blanks stand around it and
-- whatever parameters follow it, for a type without blanks and semicolons.
pub media_type_essence-declared :
    (front core back : Bytes) (params : Option Bytes)
    → All IsPadding front
    → All IsPlain core
    → All IsPadding back
    → media_type_essence (front ++ (core ++ (back ++ parameters params))) ≡ core
unfolding media_type_essence
media_type_essence-declared front core back params h k l =
    rw
      (
        before_separator-append front (core ++ (back ++ parameters params)) (padding_bytes front h),
        before_separator-append core (back ++ parameters params) (plain_bytes core k),
        before_separator-append back (parameters params) (padding_bytes back l),
        before_separator-parameters params,
        append-nil back,
        trim_front-padding front (core ++ back) h,
      )
      (trim_front-plain core back k l)

content_type-IsPlain : All IsPlain protobuf_content_type
content_type-IsPlain = ground arith

iequals_refl : (name : Bytes) → iequals name name ≡ true
iequals_refl name = (iequals_iff name name).1 refl

declared_type-message :
    (T : Traits) (body : Bytes)
    → declared_type T (protobuf_message T body) ≡ some protobuf_content_type
unfolding find_if
declared_type-message T body = elim (Bool-cases T.case_sensitive_names) [
  | inl p ↦ rw (p, (same_iff T.content_type_header T.content_type_header).1 refl) refl
  | inr p ↦ rw (p, iequals_refl T.content_type_header) refl
]

content_type-essence : declares_protobuf (some protobuf_content_type) ≡ true
content_type-essence =
    ap (λ (t : Bytes). iequals t protobuf_content_type)
      (media_type_essence-declared [] protobuf_content_type [] none tt content_type-IsPlain tt)
    ∙ iequals_refl protobuf_content_type

-- Every binding reads back the structured Protobuf message that it writes, as `decode_event` gives
-- the event back, when the event is accepted under the limits of the decoder.
pub decode_protobuf_structured-encode :
    {P : Platform} (T : Traits) (options : DecodeOptions) (e : Event P)
    → IsAccepted options e
    → options.max_encoded_size < 2 ^ 64
    → (encode_protobuf_structured T e >>= λ m. decode_protobuf_structured T m options)
      ≡ ok (read_event e)
unfolding encode_protobuf_structured decode_protobuf_structured encode
decode_protobuf_structured-encode T options e h word =
    rw (declared_type-message T (body_of e), content_type-essence)
      (decode_event-encode_event options e h.carried h.text h.count h.size word)
