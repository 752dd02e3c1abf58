-- ===== src/Protobuf/Visits.antt =====
-- Fields written one behind the other are visited in that order, each with what was written.
use cloudevents_sdk_cpp.Base.{
  ℕ, ◌^◌, ◌<◌, ◌≤◌, ◌≡◌, refl, ap, sym, fun_ext, ◌∙◌, arith, some, List, [], ◌∷◌, ◌++◌, Bytes, All,
  length, length-append, append_assoc, append-nil,
}
use cloudevents_sdk_cpp.Errors.{Result, ok, ◌>>=◌, bind_succeeds, ok-injective}
use cloudevents_sdk_cpp.Wire.{
  varint, length_delimited, put_field, put_varint_field, put_tag, put_varint, max_field_number,
}
use cloudevents_sdk_cpp.Wire.Varint.{read_varint-put_varint}
use cloudevents_sdk_cpp.Wire.Fields.{
  read_header-put_tag, read_length_delimited-body, put_field_shape, put_varint_field_shape,
  put_varint_field-append, put_field-append,
}
use cloudevents_sdk_cpp.Protobuf.{Field, read_field, for_each_field}
use cloudevents_sdk_cpp.Protobuf.Walk.{for_each_field-unroll, read_field-shorter}

-- A call of `put_varint_field` or of `put_field`, with its arguments.
pub data Written : Type 0 where
  number_field : ℕ → ℕ → Written
  bytes_field : ℕ → Bytes → Written

abbrev pub field_of : Written → Field
field_of (number_field n v) = record { number = n; kind = varint; varint = v; body = [] }
field_of (bytes_field n b) = record { number = n; kind = length_delimited; varint = 0; body = b }

-- the writer's call for the field
unfoldable pub write : Bytes → Written → Bytes
write out (number_field n v) = put_varint_field out n v
write out (bytes_field n b) = put_field out n b

abbrev pub Fits : Written → Type 0
Fits (number_field n v) = (0 < n) × (n ≤ max_field_number) × (v < 2 ^ 64)
Fits (bytes_field n b) = (0 < n) × (n ≤ max_field_number) × (length b < 2 ^ 64)

unfoldable pub write_all : Bytes → List Written → Bytes
write_all out [] = out
write_all out (w ∷ ws) = write_all (write out w) ws

-- One written field is read back, and the bytes behind it are left.
pub read_field-write :
    (w : Written) (rest : Bytes)
    → Fits w
    → read_field (write [] w ++ rest) ≡ ok (some (field_of w), rest)
unfolding read_field write
read_field-write (number_field n v) rest (h, k, l) = rw (
  put_varint_field_shape n v,
  append_assoc (put_tag [] n varint) (put_varint [] v) rest,
  read_header-put_tag n varint (put_varint [] v ++ rest) h k,
  read_varint-put_varint v rest l,
)
read_field-write (bytes_field n b) rest (h, k, l) = rw (
  put_field_shape n b,
  append_assoc (put_tag [] n length_delimited) (put_varint [] (length b) ++ b) rest,
  read_header-put_tag n length_delimited ((put_varint [] (length b) ++ b) ++ rest) h k,
  append_assoc (put_varint [] (length b)) b rest,
  read_length_delimited-body b rest l,
)

write-append : (out : Bytes) (w : Written) → write out w ≡ out ++ write [] w
unfolding write
write-append out (number_field n v) = put_varint_field-append out n v
write-append out (bytes_field n b) = put_field-append out n b

write_all-append : (out : Bytes) (ws : List Written) → write_all out ws ≡ out ++ write_all [] ws
unfolding write_all
write_all-append out [] = sym (append-nil out)
write_all-append out (w ∷ ws) =
    write_all-append (write out w) ws
    ∙ rw (write-append out w, append_assoc out (write [] w) (write_all [] ws))
        (ap (λ (t : Bytes). out ++ t) (sym (write_all-append (write [] w) ws)))

-- what `Fits` asks besides a length that fits
abbrev pub IsNumbered : Written → Type 0
IsNumbered (number_field n v) = (0 < n) × (n ≤ max_field_number) × (v < 2 ^ 64)
IsNumbered (bytes_field n b) = (0 < n) × (n ≤ max_field_number)

length-write : (n : ℕ) (b : Bytes) → length b ≤ length (write [] (bytes_field n b))
unfolding write
length-write n b =
    rw
      (
        put_field_shape n b,
        length-append (put_tag [] n length_delimited) (put_varint [] (length b) ++ b),
        length-append (put_varint [] (length b)) b,
      )
      (omega arith)

-- The body of a field is no longer than the message that holds it.
pub Fits-within :
    (ws : List Written) → All IsNumbered ws → length (write_all [] ws) < 2 ^ 64 → All Fits ws
unfolding write_all
Fits-within [] h k = tt
Fits-within (number_field n v ∷ ws) (h, hs) k =
    let e = ap (λ (t : Bytes). length t) (write_all-append (write [] (number_field n v)) ws) in
    (
      h,
      Fits-within ws hs
          (omega (arith, e, length-append (write [] (number_field n v)) (write_all [] ws))),
    )
Fits-within (bytes_field n b ∷ ws) ((p, q), hs) k =
    let e = ap (λ (t : Bytes). length t) (write_all-append (write [] (bytes_field n b)) ws) in
    let sum = length-append (write [] (bytes_field n b)) (write_all [] ws) in
    ((p, q, omega (arith, e, sum, length-write n b)), Fits-within ws hs (omega (arith, e, sum)))

pub write_all-join :
    (out : Bytes) (vs ws : List Written)
    → write_all out (vs ++ ws) ≡ write_all (write_all out vs) ws
unfolding write_all
write_all-join out [] ws = refl
write_all-join out (v ∷ vs) ws = write_all-join (write out v) vs ws

module _ {ℓ} {S : Type ℓ} (visit : Field → S → Result S) where
  -- the visits in order, up to the first that fails
  unfoldable pub visit_all : S → List Written → Result S
  visit_all s [] = ok s
  visit_all s (w ∷ ws) = visit (field_of w) s >>= λ s'. visit_all s' ws

  for_each_field-step :
      (s : S) (src rest : Bytes) (f : Field)
      → read_field src ≡ ok (some f, rest)
      → for_each_field visit s src ≡ (visit f s >>= λ s'. for_each_field visit s' rest)
  for_each_field-step s [] rest f e = absurd (omega (arith, read_field-shorter [] (some f) rest e))
  for_each_field-step s (b ∷ src) rest f e = for_each_field-unroll visit s b src ∙ rw e

  -- Walking over a body that the writer wrote calls the visitor on the written fields in order, when
  -- their numbers, values and lengths fit the wire.
  pub for_each_field-write_all :
      (ws : List Written) (s : S)
      → All Fits ws
      → for_each_field visit s (write_all [] ws) ≡ visit_all s ws
  unfolding write_all visit_all
  for_each_field-write_all [] s h = unfold for_each_field in refl
  for_each_field-write_all (w ∷ ws) s (hw, h) = rw (write_all-append (write [] w) ws) (
      for_each_field-step s (write [] w ++ write_all [] ws) (write_all [] ws) (field_of w)
        (read_field-write w (write_all [] ws) hw)
      ∙ ap (λ k. visit (field_of w) s >>= k) (fun_ext (λ s'. for_each_field-write_all ws s' h)))

  pub visit_all-step :
      (w : Written) (ws : List Written) (s s' : S)
      → visit (field_of w) s ≡ ok s'
      → visit_all s (w ∷ ws) ≡ visit_all s' ws
  unfolding visit_all
  visit_all-step w ws s s' h = rw h refl

  pub visit_all-append :
      (vs ws : List Written) (s s' : S)
      → visit_all s vs ≡ ok s'
      → visit_all s (vs ++ ws) ≡ visit_all s' ws
  unfolding visit_all
  visit_all-append [] ws s s' h = ap (λ t. visit_all t ws) (ok-injective h)
  visit_all-append (v ∷ vs) ws s s' h =
      let (t, p, q) = bind_succeeds (visit (field_of v) s) _ h in
      rw p (visit_all-append vs ws t s' q)
