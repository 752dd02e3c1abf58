-- ===== src/Protobuf/Walk.antt =====
-- The walk over a message body ends on every input, and visits the fields that were written.
use cloudevents_sdk_cpp.Base.{
  ℕ, zero, suc, ◌+◌, ◌/◌, bit_and, ◌<◌, ◌≤◌, ◌≡◌, refl, ap, arith, Option, [], ◌∷◌, Bytes, length,
  length-drop, inl, inr,
}
use cloudevents_sdk_cpp.Errors.{Result, ok, ◌>>=◌, bind_succeeds, Result-cases}
use cloudevents_sdk_cpp.Wire.{
  WireType, varint, fixed64, length_delimited, fixed32, FieldHeader, add_group, varint_loop,
  read_varint, header_of, read_header, split_body, read_length_delimited, skip_fixed, skip,
}
use cloudevents_sdk_cpp.Protobuf.{
  Field, read_field_of, read_field, visit_read, for_each_loop, for_each_field,
}

varint_loop-shorter :
    (src : Bytes) (index value v : ℕ) (rest : Bytes)
    → varint_loop index value src ≡ ok (v, rest)
    → length rest < length src
unfolding varint_loop
varint_loop-shorter [] index value v rest e = cc
varint_loop-shorter (b ∷ src) index value v rest e =
    ground (arith, varint_loop-shorter src (index + 1) (add_group value b index) v rest)

read_varint-shorter :
    (src : Bytes) (v : ℕ) (rest : Bytes) → read_varint src ≡ ok (v, rest) → length rest < length src
unfolding read_varint
read_varint-shorter src v rest e = varint_loop-shorter src 0 0 v rest e

pub header_of-rest :
    (number kind : ℕ) (src : Bytes) (h : FieldHeader) (rest : Bytes)
    → header_of number kind src ≡ ok (h, rest)
    → src ≡ rest
header_of-rest number kind src h rest e = ground arith

read_header-shorter :
    (src : Bytes) (h : FieldHeader) (rest : Bytes)
    → read_header src ≡ ok (h, rest)
    → length rest < length src
unfolding read_header
read_header-shorter src h rest e =
    let ((tag, src'), p, q) = bind_succeeds (read_varint src) _ e in
    omega (
      arith,
      read_varint-shorter src tag src' p,
      ap (λ (s : Bytes). length s) (header_of-rest (tag / 8) (bit_and tag 7) src' h rest q),
    )

split_body-shorter :
    (size : ℕ) (src body rest : Bytes)
    → split_body size src ≡ ok (body, rest)
    → length rest ≤ length src
split_body-shorter size src body rest e = ground (arith, length-drop size src)

skip_fixed-shorter :
    (size : ℕ) (src rest : Bytes) → skip_fixed size src ≡ ok rest → length rest ≤ length src
skip_fixed-shorter size src rest e = ground (arith, length-drop size src)

read_field_of-shorter :
    (kind : WireType) (number : ℕ) (src : Bytes) (read : Option Field) (rest : Bytes)
    → read_field_of kind number src ≡ ok (read, rest)
    → length rest ≤ length src
unfolding skip read_length_delimited
read_field_of-shorter varint number src read rest e =
    let ((v, src'), p, q) = bind_succeeds (read_varint src) _ e in
    ground (arith, read_varint-shorter src v src' p)
read_field_of-shorter length_delimited number src read rest e =
    let ((body, src'), p, q) = bind_succeeds (read_length_delimited src) _ e in
    let ((size, src''), p', q') = bind_succeeds (read_varint src) _ p in
    ground
      (arith, read_varint-shorter src size src'' p', split_body-shorter size src'' body src' q')
read_field_of-shorter fixed64 number src read rest e =
    let (src', p, q) = bind_succeeds (skip_fixed 8 src) _ e in
    ground (arith, skip_fixed-shorter 8 src src' p)
read_field_of-shorter fixed32 number src read rest e =
    let (src', p, q) = bind_succeeds (skip_fixed 4 src) _ e in
    ground (arith, skip_fixed-shorter 4 src src' p)

-- Reading a field takes a byte at least, whatever the field is.
pub read_field-shorter :
    (src : Bytes) (read : Option Field) (rest : Bytes)
    → read_field src ≡ ok (read, rest)
    → length rest < length src
unfolding read_field
read_field-shorter src read rest e =
    let ((head, src'), p, q) = bind_succeeds (read_header src) _ e in
    omega (
      arith,
      read_header-shorter src head src' p,
      read_field_of-shorter head.kind head.number src' read rest q,
    )

module _ {ℓ} {S : Type ℓ} (visit : Field → S → Result S) where
  for_each_loop-fuel :
      (f g : ℕ) (s : S) (src : Bytes)
      → length src ≤ f
      → length src ≤ g
      → for_each_loop visit f s src ≡ for_each_loop visit g s src
  unfolding for_each_loop
  for_each_loop-fuel f g s [] h k = refl
  for_each_loop-fuel zero g s (b ∷ src) h k = absurd (omega arith)
  for_each_loop-fuel (suc f) zero s (b ∷ src) h k = absurd (omega arith)
  for_each_loop-fuel (suc f) (suc g) s (b ∷ src) h k = elim (Result-cases (read_field (b ∷ src))) [
    | inr (x, e) ↦ rw e
    | inl ((read, rest), e) ↦ rw e (elim (Result-cases (visit_read visit read s)) [
      | inr (x, v) ↦ rw v
      | inl (s', v) ↦ rw v (
          for_each_loop-fuel f g s' rest (omega (arith, read_field-shorter (b ∷ src) read rest e))
            (omega (arith, read_field-shorter (b ∷ src) read rest e)))
    ])
  ]

  -- The rounds allowed are always enough: the walk over a body that is not empty reads one field,
  -- visits it and walks over the rest, with no bound on it.
  pub for_each_field-unroll :
      (s : S) (b : ℕ) (src : Bytes)
      → for_each_field visit s (b ∷ src) ≡ (
          read_field (b ∷ src) >>= λ read.
          visit_read visit read.0 s >>= λ s'. for_each_field visit s' read.1)
  unfolding for_each_field
  for_each_field-unroll s b src = elim (Result-cases (read_field (b ∷ src))) [
    | inr (x, e) ↦ rw e
    | inl ((read, rest), e) ↦ rw e (elim (Result-cases (visit_read visit read s)) [
      | inr (x, v) ↦ rw v
      | inl (s', v) ↦ rw v (
          for_each_loop-fuel (length src) (length rest) s' rest
            (omega (arith, read_field-shorter (b ∷ src) read rest e)) (omega arith))
    ])
  ]
