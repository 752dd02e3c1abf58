-- ===== src/Wire/Fields.antt =====
-- Tags and length-delimited bodies: round trips, and that a body is part of the input.
use cloudevents_sdk_cpp.Base.{
  ℕ, ◌+◌, ◌*◌, ◌/◌, ◌%◌, ◌^◌, ◌<◌, ◌≤◌, ◌≡◌, refl, ap, ◌∙◌, arith, [], ◌++◌, Bytes, IsByte, All,
  length, length-append, take-append, drop-append, take-append-drop, append_assoc, bit_or,
}
use cloudevents_sdk_cpp.Base.Bits.{bit_and-mask, bit_or-shift}
use cloudevents_sdk_cpp.Errors.{ok, bind_succeeds}
use cloudevents_sdk_cpp.Wire.{
  WireType, varint, fixed64, length_delimited, fixed32, wire_value, skippable, read_varint,
  header_of, read_header, split_body, read_length_delimited, put_varint, put_tag, put_varint_field,
  put_field, max_field_number, max_varint_bytes,
}
use cloudevents_sdk_cpp.Wire.Varint.{read_varint-put_varint, read_varint_bounds}

put_varint-append : (out : Bytes) (v : ℕ) → put_varint out v ≡ out ++ put_varint [] v
unfolding put_varint
put_varint-append out v = refl

tag_lem :
    (number : ℕ) (kind : WireType)
    → bit_or (number * 2 ^ 3) (wire_value kind) ≡ number * 8 + wire_value kind
tag_lem number varint = bit_or-shift 3 number 0 (omega arith)
tag_lem number fixed64 = bit_or-shift 3 number 1 (omega arith)
tag_lem number length_delimited = bit_or-shift 3 number 2 (omega arith)
tag_lem number fixed32 = bit_or-shift 3 number 5 (omega arith)

header_of_tag :
    (number : ℕ) (kind : WireType) (rest : Bytes)
    → 0 < number
    → number ≤ max_field_number
    → header_of number (wire_value kind) rest ≡ ok (record { number = number; kind = kind }, rest)
unfolding skippable
header_of_tag number varint rest h k = ground arith
header_of_tag number fixed64 rest h k = ground arith
header_of_tag number length_delimited rest h k = ground arith
header_of_tag number fixed32 rest h k = ground arith

wire_value-lt : (kind : WireType) → wire_value kind < 8
wire_value-lt varint = omega arith
wire_value-lt fixed64 = omega arith
wire_value-lt length_delimited = omega arith
wire_value-lt fixed32 = omega arith

-- A tag is read back as the field number and the wire type that it was written from, for the field
-- numbers that the wire allows.
pub read_header-put_tag :
    (number : ℕ) (kind : WireType) (rest : Bytes)
    → 0 < number
    → number ≤ max_field_number
    → read_header (put_tag [] number kind ++ rest)
      ≡ ok (record { number = number; kind = kind }, rest)
unfolding read_header put_tag
read_header-put_tag number kind rest h k =
    let tag : ℕ = number * 8 + wire_value kind in
    let num : tag / 8 ≡ number = omega (arith, wire_value-lt kind) in
    let low : tag % 8 ≡ wire_value kind = omega (arith, wire_value-lt kind) in
    rw
      (
        tag_lem number kind,
        read_varint-put_varint tag rest (omega (arith, wire_value-lt kind)),
        bit_and-mask 3 tag,
        num,
        low,
      )
      (header_of_tag number kind rest h k)

pub read_length_delimited-body :
    (body rest : Bytes)
    → length body < 2 ^ 64
    → read_length_delimited (put_varint [] (length body) ++ (body ++ rest)) ≡ ok (body, rest)
unfolding read_length_delimited
read_length_delimited-body body rest h =
    rw
      (
        read_varint-put_varint (length body) (body ++ rest) h,
        take-append body rest,
        drop-append body rest,
      )
      (ground (arith, length-append body rest))

split_body-append :
    (size : ℕ) (src body rest : Bytes) → split_body size src ≡ ok (body, rest) → src ≡ body ++ rest
split_body-append size src body rest h = ground (arith, take-append-drop size src)

-- A length-delimited body and what follows it are the end of the input: no read goes past it.
pub read_length_delimited-within :
    (src body rest : Bytes)
    → All IsByte src
    → read_length_delimited src ≡ ok (body, rest)
    → (used : Bytes) × (src ≡ used ++ (body ++ rest))
      × (0 < length used)
      × (length used ≤ max_varint_bytes)
unfolding read_length_delimited
read_length_delimited-within src body rest h e =
    let ((size, src'), p, q) = bind_succeeds (read_varint src) _ e in
    let (_, t) = read_varint_bounds src size src' h p in
    (
      t.used,
      t.splits ∙ ap (λ (s : Bytes). t.used ++ s) (split_body-append size src' body rest q),
      t.some_used,
      t.few,
    )

-- The writers append, and a field is its tag, its length and its body.
pub put_varint_field_shape :
    (number value : ℕ)
    → put_varint_field [] number value ≡ put_tag [] number varint ++ put_varint [] value
unfolding put_varint_field
put_varint_field_shape number value = put_varint-append (put_tag [] number varint) value

pub put_field_shape :
    (number : ℕ) (body : Bytes)
    → put_field [] number body
      ≡ put_tag [] number length_delimited ++ (put_varint [] (length body) ++ body)
unfolding put_field
put_field_shape number body =
    rw put_varint-append
      (append_assoc (put_tag [] number length_delimited) (put_varint [] (length body)) body)

put_tag-append :
    (out : Bytes) (number : ℕ) (kind : WireType)
    → put_tag out number kind ≡ out ++ put_tag [] number kind
unfolding put_tag
put_tag-append out number kind = put_varint-append out _

pub put_varint_field-append :
    (out : Bytes) (number value : ℕ)
    → put_varint_field out number value ≡ out ++ put_varint_field [] number value
unfolding put_varint_field
put_varint_field-append out number value =
    put_varint-append (put_tag out number varint) value
    ∙ rw (put_tag-append out number varint, put_varint-append (put_tag [] number varint) value)
        (append_assoc out (put_tag [] number varint) (put_varint [] value))

pub put_field-append :
    (out : Bytes) (number : ℕ) (body : Bytes)
    → put_field out number body ≡ out ++ put_field [] number body
unfolding put_field
put_field-append out number body =
    let tag : Bytes = put_tag [] number length_delimited in
    let size : Bytes = put_varint [] (length body) in
    rw (
      put_varint-append (put_tag out number length_delimited) (length body),
      put_tag-append out number length_delimited,
      put_varint-append tag (length body),
      append_assoc out tag size,
      append_assoc out (tag ++ size) body,
    )
