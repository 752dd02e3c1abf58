-- ===== src/Mqtt/Foreign.antt =====
-- User Properties that are no attributes.
use cloudevents_sdk_cpp.Base.{
  ◌≡◌, refl, ap, ◌⊎◌, same_iff, drop, drop-append, length, codes, ltb, if◌then◌else◌, Bool, true,
  false, Option, [], ◌∷◌, ◌++◌, Bytes, same, Bool-cases, inl, inr,
}
use cloudevents_sdk_cpp.Errors.{Errc, Result, fail, Result-cases}
use cloudevents_sdk_cpp.Text.{starts_with}
use cloudevents_sdk_cpp.Event.{Event}
use cloudevents_sdk_cpp.Binding.{DecodeOptions, carries_prefix}
use cloudevents_sdk_cpp.Binding.Apart.{carries_prefix-field}
use cloudevents_sdk_cpp.Binding.Names.{AcceptsNames, specversion-IsMatched}
use cloudevents_sdk_cpp.Binding.Structured.{JsonFormat}
use cloudevents_sdk_cpp.Headers.{
  RawHeaders, Message, ContentMode, is_some, add, find_if, find_exact,
}
use cloudevents_sdk_cpp.Platform.{Platform}
use cloudevents_sdk_cpp.Mqtt.{
  content_type_header, FieldKind, foreign, attribute, media_type_copy, kind_of, fields_loop,
  accept_media_type_copy, attribute_fields, switch, mqtt_traits, count_content_type, mode_of,
  detect_content_mode, carries_version, collect_binary, decode_binary, read_as, from_message,
}

find_if-skip :
    (t : Bytes → Bool) (xs ys : RawHeaders) (n v : Bytes)
    → t n ≡ false
    → find_if t (xs ++ (n, v) ∷ ys) ≡ find_if t (xs ++ ys)
unfolding find_if
find_if-skip t [] ys n v h = rw h refl
find_if-skip t (x ∷ xs) ys n v h = elim (Bool-cases (t x.0)) [
  | inl p ↦ rw p refl
  | inr p ↦ rw p (find_if-skip t xs ys n v h)
]

switch_cong :
    {A : Type 0} (k : FieldKind) {x x' y y' z z' : A}
    → x ≡ x'
    → y ≡ y'
    → z ≡ z'
    → switch k x y z ≡ switch k x' y' z'
switch_cong foreign p q r = p
switch_cong attribute p q r = q
switch_cong media_type_copy p q r = r

module _ (P : Platform) (prefix : Bytes) where
  fields_loop-skip :
      (declared : Option Bytes) (fields : RawHeaders) (seen : Bool) (xs ys : RawHeaders)
      (n v : Bytes)
      → kind_of P prefix n ≡ foreign
      → fields_loop P prefix declared fields seen (xs ++ (n, v) ∷ ys)
        ≡ fields_loop P prefix declared fields seen (xs ++ ys)
  unfolding fields_loop
  fields_loop-skip declared fields seen [] ys n v h = rw h refl
  fields_loop-skip declared fields seen (x ∷ xs) ys n v h =
      switch_cong (kind_of P prefix x.0) (fields_loop-skip declared fields seen xs ys n v h)
        (fields_loop-skip declared (add fields x.0 x.1) seen xs ys n v h)
        (elim (Result-cases (accept_media_type_copy declared x.1 seen)) [
          | inl (s, p) ↦ rw p (fields_loop-skip declared fields s xs ys n v h)
          | inr (e, p) ↦ rw p refl
        ])

  attribute_fields-foreign :
      (xs ys : RawHeaders) (n v : Bytes)
      → kind_of P prefix n ≡ foreign
      → same n content_type_header ≡ false
      → attribute_fields P prefix (xs ++ (n, v) ∷ ys) ≡ attribute_fields P prefix (xs ++ ys)
  unfolding attribute_fields
  attribute_fields-foreign xs ys n v h d =
      rw (find_if-skip (λ c. same c content_type_header) xs ys n v d)
        (fields_loop-skip (find_exact (xs ++ ys) content_type_header) [] false xs ys n v h)

count-skip :
    (xs ys : RawHeaders) (n v : Bytes)
    → same n content_type_header ≡ false
    → count_content_type (xs ++ (n, v) ∷ ys) ≡ count_content_type (xs ++ ys)
unfolding count_content_type
count-skip [] ys n v h = rw h refl
count-skip (x ∷ xs) ys n v h = rw (count-skip xs ys n v h) refl

-- The name does not begin with the prefix of the name policy, or what follows the prefix is not the
-- name of an attribute.
abbrev pub IsForeign : Platform → Bytes → Bytes → Type 0
IsForeign P prefix n =
    (starts_with n prefix ≡ false) ⊎ (P.match_attribute_name (drop (length prefix) n) ≡ false)

kind_of-foreign :
    (P : Platform) (prefix n : Bytes) → IsForeign P prefix n → kind_of P prefix n ≡ foreign
unfolding kind_of
kind_of-foreign P prefix n (inl p) = rw p refl
kind_of-foreign P prefix n (inr q) = elim (Bool-cases (starts_with n prefix)) [
  | inl p ↦ rw (p, q) refl
  | inr p ↦ rw p refl
]

begins_with_prefix : (prefix n : Bytes) → starts_with (prefix ++ n) prefix ≡ true
unfolding carries_prefix
begins_with_prefix prefix n = carries_prefix-field (mqtt_traits prefix) n

-- It is not the name of the version either.
other_than_version :
    (P : Platform) (prefix n : Bytes)
    → AcceptsNames P
    → IsForeign P prefix n
    → same n (prefix ++ codes "specversion") ≡ false
other_than_version P prefix n accepts h =
    let version = codes "specversion" in
    elim (Bool-cases (same n (prefix ++ version))) [
      | inl p ↦
          let e = (same_iff n (prefix ++ version)).0 p in
          elim h [
            | inl q ↦ cc (rw (e, begins_with_prefix prefix version) at q)
            | inr q ↦ cc (rw (e, drop-append prefix version, specversion-IsMatched P accepts) at q)
          ]
      | inr p ↦ p
    ]

module _ {P : Platform} (F : JsonFormat P) (prefix : Bytes) (xs ys : RawHeaders) (n v body : Bytes)
    (accepts : AcceptsNames P) (h : IsForeign P prefix n)
    (other : same n content_type_header ≡ false) where
  abbrev with_field : Message
  with_field = record { header_fields = xs ++ (n, v) ∷ ys; body = body }

  abbrev without_field : Message
  without_field = record { header_fields = xs ++ ys; body = body }

  find_content_type-foreign :
      find_exact (xs ++ (n, v) ∷ ys) content_type_header ≡ find_exact (xs ++ ys) content_type_header
  find_content_type-foreign = find_if-skip (λ c. same c content_type_header) xs ys n v other

  carries_version-foreign :
      carries_version P prefix (xs ++ (n, v) ∷ ys) ≡ carries_version P prefix (xs ++ ys)
  unfolding carries_version
  carries_version-foreign = ap is_some (
      find_if-skip (λ c. same c (prefix ++ codes "specversion")) xs ys n v
        (other_than_version P prefix n accepts h))

  collect_binary-foreign :
      collect_binary F prefix (xs ++ (n, v) ∷ ys) ≡ collect_binary F prefix (xs ++ ys)
  unfolding collect_binary
  collect_binary-foreign =
      rw
        (
          attribute_fields-foreign P prefix xs ys n v (kind_of-foreign P prefix n h) other,
          find_content_type-foreign,
        )
        refl

  read_as-foreign :
      (mode : ContentMode) (options : DecodeOptions)
      → read_as F prefix mode with_field options ≡ read_as F prefix mode without_field options
  unfolding decode_binary
  read_as-foreign ContentMode.batched options = refl
  read_as-foreign ContentMode.structured options = refl
  read_as-foreign ContentMode.binary_mode options =
      rw (carries_version-foreign, collect_binary-foreign) refl

  -- A User Property whose name does not begin with the prefix of the name policy, or does not have
  -- the name of an attribute behind it, and that is not the Content Type, is ignored wherever it
  -- stands and in every content mode: the message reads as it does without it, and fails as it does
  -- without it. The pattern of names is assumed to match each text of lower-case letters and digits.
  pub from_message-foreign :
      (options : DecodeOptions)
      → from_message F prefix with_field options ≡ from_message F prefix without_field options
  unfolding from_message detect_content_mode
  from_message-foreign options =
      rw (count-skip xs ys n v other, find_content_type-foreign)
        (ap
          (λ (r : Result (Event P)).
            if ltb 1 (count_content_type (xs ++ ys))
            then fail Errc.invalid_argument
                "a User Property named content-type beside the Content Type property" []
            else r)
          (read_as-foreign (mode_of (find_exact (xs ++ ys) content_type_header)) options))
