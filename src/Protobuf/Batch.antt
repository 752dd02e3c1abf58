-- ===== src/Protobuf/Batch.antt =====
-- A batch of events written as a protobuf message and read back.
use cloudevents_sdk_cpp.Base.{
  ℕ, ◌+◌, ◌^◌, ◌<◌, ◌≤◌, ◌≡◌, refl, ap, sym, ◌∙◌, arith, true, false, List, [], ◌∷◌, ◌++◌,
  append_assoc, append-nil, Bytes, All, length, length-append, length-map, map, leb,
}
use cloudevents_sdk_cpp.Errors.{ok, ◌>>=◌}
use cloudevents_sdk_cpp.Utf8.{is_valid_utf8}
use cloudevents_sdk_cpp.Platform.{Platform}
use cloudevents_sdk_cpp.Event.{Event}
use cloudevents_sdk_cpp.Binding.Collected.{Each}
use cloudevents_sdk_cpp.Protobuf.Scan.{DecodeOptions}
use cloudevents_sdk_cpp.Protobuf.Decode.{
  batch_visit, batch_bodies, decode_event, decode_all, decode_events,
}
use cloudevents_sdk_cpp.Protobuf.Encode.{
  encode_event, proto_type_url, put_events, encode, encode_batch,
}
use cloudevents_sdk_cpp.Protobuf.Visits.{
  Written, bytes_field, Fits, write, write_all, visit_all, for_each_field-write_all,
}
use cloudevents_sdk_cpp.Protobuf.Context.{attributes_list, IsCarried}
use cloudevents_sdk_cpp.Protobuf.Fields.{text_of}
use cloudevents_sdk_cpp.Protobuf.RoundTrip.{read_event, decode_event-encode_event}

abbrev pub body_of : {P : Platform} → Event P → Bytes
body_of e = encode_event e (proto_type_url e)

-- The event is one that `decode_event` takes when it is encoded.
pub record IsAccepted {P : Platform} (options : DecodeOptions) (e : Event P) : Type 0 where
  pub carried : IsCarried e
  pub text : Each (λ t. is_valid_utf8 t ≡ true) (text_of e.rest.payload)
  pub count : length (attributes_list e) ≤ options.max_attribute_count
  pub size : length (body_of e) ≤ options.max_encoded_size

abbrev batch_fields : List Bytes → List Written
batch_fields bodies = map (λ b. bytes_field 1 b) bodies

leb-lt : (a b : ℕ) → b < a → leb a b ≡ false
leb-lt a b h = ground arith

module _ (options : DecodeOptions) where
  batch_fields-visited :
      (bodies held : List Bytes)
      → length held + length bodies ≤ options.max_batch_event_count
      → visit_all (batch_visit options) held (batch_fields bodies) ≡ ok (held ++ bodies)
  unfolding visit_all
  batch_fields-visited [] held h = ap ok (sym (append-nil held))
  batch_fields-visited (b ∷ bodies) held h =
      rw (leb-lt options.max_batch_event_count (length held) (omega arith)) (
        batch_fields-visited bodies (held ++ b ∷ [])
          (omega (arith, length-append {0} held (b ∷ [])))
        ∙ ap ok (append_assoc held (b ∷ []) bodies))

module _ {P : Platform} where
  put_events-write_all :
      (es : List (Event P)) (out : Bytes)
      → put_events out es ≡ write_all out (batch_fields (map body_of es))
  unfolding put_events write_all write
  put_events-write_all [] out = refl
  put_events-write_all (e ∷ es) out = put_events-write_all es _

module _ {P : Platform} (options : DecodeOptions) where
  batch_fields-Fits :
      (es : List (Event P))
      → options.max_encoded_size < 2 ^ 64
      → All (IsAccepted options) es
      → All Fits (batch_fields (map body_of es))
  batch_fields-Fits [] h k = tt
  batch_fields-Fits (e ∷ es) h (k, ks) =
      let size = k.size in ((omega arith, omega arith, omega arith), batch_fields-Fits es h ks)

  decoded :
      (e : Event P)
      → options.max_encoded_size < 2 ^ 64
      → IsAccepted options e
      → decode_event options (body_of e) ≡ ok (read_event e)
  unfolding encode
  decoded e h k = decode_event-encode_event options e k.carried k.text k.count k.size h

  decode_all-bodies :
      (es : List (Event P))
      → options.max_encoded_size < 2 ^ 64
      → All (IsAccepted options) es
      → decode_all options (map body_of es) ≡ ok (map read_event es)
  unfolding decode_all
  decode_all-bodies [] h k = refl
  decode_all-bodies (e ∷ es) h (k, ks) = rw (decoded e h k, decode_all-bodies es h ks) refl

-- Decoding an encoded batch gives its events back, each as `decode_event` gives it, in their order,
-- when each is accepted and there are no more than the limit allows.
pub decode_events-encode_batch :
    {P : Platform} (options : DecodeOptions) (es : List (Event P))
    → All (IsAccepted options) es
    → length es ≤ options.max_batch_event_count
    → options.max_encoded_size < 2 ^ 64
    → (encode_batch es >>= decode_events options) ≡ ok (map read_event es)
unfolding decode_events batch_bodies encode_batch
decode_events-encode_batch options es h count word =
    rw
      (
        put_events-write_all es [],
        for_each_field-write_all (batch_visit options) (batch_fields (map body_of es)) []
            (batch_fields-Fits options es word h),
        batch_fields-visited options (map body_of es) [] (omega (arith, length-map body_of es)),
      )
      (decode_all-bodies options es word h)
