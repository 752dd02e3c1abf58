-- ===== src/Protobuf/Invariant.antt =====
-- What holds of every field that is read holds of what the walk over a body makes of them.
use cloudevents_sdk_cpp.Base.{
  ℕ, zero, suc, ◌^◌, ◌<◌, ◌/◌, ◌∙◌, sym, bit_and, ◌≡◌, refl, subst, arith, IsByte, Option, none,
  some, [], ◌∷◌, ◌++◌, Bytes, inl, inr, Bool-cases, ltb, All, All-append_left, All-append_right,
  length, drop,
}
use cloudevents_sdk_cpp.Errors.{Result, ok, bind_succeeds, ok-injective}
use cloudevents_sdk_cpp.Wire.{
  WireType, varint, fixed64, length_delimited, fixed32, read_varint, read_header,
  read_length_delimited, skip_fixed, skip,
}
use cloudevents_sdk_cpp.Wire.Fields.{read_length_delimited-within}
use cloudevents_sdk_cpp.Wire.Varint.{read_varint_bounds}
use cloudevents_sdk_cpp.Protobuf.{Field, read_field_of, read_field, visit_read, for_each_field}
use cloudevents_sdk_cpp.Protobuf.Walk.{for_each_field-unroll, read_field-shorter, header_of-rest}

-- a field as it is read from bytes
abbrev pub IsReadField : Field → Type 0
IsReadField f = (f.varint < 2 ^ 64) × All IsByte f.body

abbrev ReadFields : Option Field × Bytes → Type 0
ReadFields (none, rest) = All IsByte rest
ReadFields (some f, rest) = IsReadField f × All IsByte rest

read_varint-bytes :
    (src : Bytes) (v : ℕ) (rest : Bytes)
    → All IsByte src
    → read_varint src ≡ ok (v, rest)
    → (v < 2 ^ 64) × All IsByte rest
read_varint-bytes src v rest h e =
    let (below, took) = read_varint_bounds src v rest h e in
    (below, All-append_right IsByte took.used rest (subst (All IsByte) took.splits h))

drop-bytes : (n : ℕ) (src : Bytes) → All IsByte src → All IsByte (drop n src)
drop-bytes zero src h = h
drop-bytes (suc n) [] h = h
drop-bytes (suc n) (x ∷ xs) (h, hs) = drop-bytes n xs hs

skip_fixed-bytes :
    (size : ℕ) (src rest : Bytes) → All IsByte src → skip_fixed size src ≡ ok rest → All IsByte rest
skip_fixed-bytes size src rest h e = elim (Bool-cases (ltb (length src) size)) [
  | inl p ↦ cc (rw p at e)
  | inr p ↦ subst (All IsByte) (ok-injective (rw p at e)) (drop-bytes size src h)
]

read_field_of-bytes :
    (kind : WireType) (number : ℕ) (src : Bytes) (read : Option Field × Bytes)
    → All IsByte src
    → read_field_of kind number src ≡ ok read
    → ReadFields read
unfolding skip
read_field_of-bytes varint number src read h e =
    let ((v, rest), p, q) = bind_succeeds (read_varint src) _ e in
    let (below, bytes) = read_varint-bytes src v rest h p in
    subst ReadFields (ok-injective q) ((below, tt), bytes)
read_field_of-bytes length_delimited number src read h e =
    let ((body, rest), p, q) = bind_succeeds (read_length_delimited src) _ e in
    let (used, splits, _, _) = read_length_delimited-within src body rest h p in
    let bytes = All-append_right IsByte used (body ++ rest) (subst (All IsByte) splits h) in
    subst ReadFields (ok-injective q) (
      (omega arith, All-append_left IsByte body rest bytes),
      All-append_right IsByte body rest bytes,
    )
read_field_of-bytes fixed64 number src read h e =
    let (rest, p, q) = bind_succeeds (skip_fixed 8 src) _ e in
    subst ReadFields (ok-injective q) (skip_fixed-bytes 8 src rest h p)
read_field_of-bytes fixed32 number src read h e =
    let (rest, p, q) = bind_succeeds (skip_fixed 4 src) _ e in
    subst ReadFields (ok-injective q) (skip_fixed-bytes 4 src rest h p)

read_field-bytes :
    (src : Bytes) (read : Option Field × Bytes)
    → All IsByte src
    → read_field src ≡ ok read
    → ReadFields read
unfolding read_field read_header
read_field-bytes src read h e =
    let ((head, rest), p, q) = bind_succeeds (read_header src) _ e in
    let ((tag, rest'), p', q') = bind_succeeds (read_varint src) _ p in
    let (_, bytes) = read_varint-bytes src tag rest' h p' in
    read_field_of-bytes head.kind head.number rest read
      (subst (All IsByte) (header_of-rest (tag / 8) (bit_and tag 7) rest' head rest q') bytes) q

module _ {ℓ} {S : Type ℓ} (visit : Field → S → Result S) (Holds : S → Type 0)
    (keeps : (f : Field) (s s' : S) → IsReadField f → Holds s → visit f s ≡ ok s' → Holds s') where
  visit_read-Holds :
      (read : Option Field) (rest : Bytes) (s s' : S)
      → ReadFields (read, rest)
      → Holds s
      → visit_read visit read s ≡ ok s'
      → Holds s' × All IsByte rest
  visit_read-Holds none rest s s' h k e = (subst Holds (ok-injective e) k, h)
  visit_read-Holds (some f) rest s s' (h, hs) k e = (keeps f s s' h k e, hs)

  for_each_field-nil : (s : S) → for_each_field visit s [] ≡ ok s
  unfolding for_each_field
  for_each_field-nil s = refl

  for_each_field-within :
      (fuel : ℕ) (src : Bytes) (s s' : S)
      → length src < fuel
      → All IsByte src
      → Holds s
      → for_each_field visit s src ≡ ok s'
      → Holds s'
  for_each_field-within zero src s s' l h k e = elim l [ ]
  for_each_field-within (suc fuel) [] s s' l h k e =
      subst Holds (ok-injective (sym (for_each_field-nil s) ∙ e)) k
  for_each_field-within (suc fuel) (b ∷ src) s s' l h k e =
      let e' = rw (for_each_field-unroll visit s b src) at e in
      let ((read, rest), p, q) = bind_succeeds (read_field (b ∷ src)) _ e' in
      let (t, p', q') = bind_succeeds (visit_read visit read s) _ q in
      let (k', h') =
        visit_read-Holds read rest s t (read_field-bytes (b ∷ src) (read, rest) h p) k p' in
      for_each_field-within fuel rest t s' (omega (arith, read_field-shorter (b ∷ src) read rest p))
        h' k' q'

  -- What the visitor keeps on every field that can be read holds at the end of the walk.
  pub for_each_field-Holds :
      (src : Bytes) (s s' : S)
      → All IsByte src
      → Holds s
      → for_each_field visit s src ≡ ok s'
      → Holds s'
  for_each_field-Holds src s s' h k e =
      for_each_field-within (suc (length src)) src s s' (omega arith) h k e
