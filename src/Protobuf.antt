-- ===== src/Protobuf.antt =====
-- include/cloudevents/format/protobuf_format.hpp: the walk over the fields of a message body, and
-- the values read from single fields.
pub mod Walk
pub mod Visits
pub mod Values
pub mod Value
pub mod Scan
pub mod Decode
pub mod Encode
pub mod Entries
pub mod Applied
pub mod Context
pub mod Attributes
pub mod Fields
pub mod Message
pub mod Limits
pub mod RoundTrip
pub mod Batch
pub mod Invariant
pub mod ReadValues
pub mod Scanned
pub mod Sound
pub mod Decoded
use cloudevents_sdk_cpp.Base.{
  ℕ, zero, suc, ◌+◌, ◌-◌, ◌*◌, ◌/◌, ◌^◌, ◌%◌, ◌<◌, Bool, true, false, ◌&&◌, ◌||◌, Option, none,
  some, List, [], ◌∷◌, ◌++◌, Bytes, length, ltb, leb, ◌==◌, if◌then◌else◌,
}
use cloudevents_sdk_cpp.Errors.{Result, ok, err, fail, parse_error, ◌>>=◌}
use cloudevents_sdk_cpp.Wire.{
  WireType, varint, fixed64, length_delimited, fixed32, FieldHeader, read_varint, read_header,
  read_length_delimited, skip,
}

-- One field read off the wire.
pub record Field : Type 0 where
  pub number : ℕ
  pub kind : WireType
  pub varint : ℕ
  pub body : Bytes

-- what `read_field` does behind the header, by the wire type
abbrev pub read_field_of : WireType → ℕ → Bytes → Result (Option Field × Bytes)
read_field_of varint number rest = do
  (value, rest') ← read_varint rest
  ok (some (record { number = number; kind = varint; varint = value; body = [] }), rest')
read_field_of length_delimited number rest = do
  (body, rest') ← read_length_delimited rest
  ok (some (record { number = number; kind = length_delimited; varint = 0; body = body }), rest')
read_field_of fixed64 number rest = do rest' ← skip fixed64 rest; ok (none, rest')
read_field_of fixed32 number rest = do rest' ← skip fixed32 rest; ok (none, rest')

unfoldable pub read_field : Bytes → Result (Option Field × Bytes)
read_field rest = do (head, rest') ← read_header rest; read_field_of head.kind head.number rest'

module _ {ℓ} {S : Type ℓ} (visit : Field → S → Result S) where
  -- `visit` returns the variables that the source's lambda assigns
  abbrev pub visit_read : Option Field → S → Result S
  visit_read none s = ok s
  visit_read (some current) s = visit current s

  -- Each round takes a byte at least, so as many rounds as there are bytes are enough.
  unfoldable pub for_each_loop : ℕ → S → Bytes → Result S
  for_each_loop fuel s [] = ok s
  for_each_loop zero s (b ∷ bytes) = ok s
  for_each_loop (suc fuel) s (b ∷ bytes) =
      read_field (b ∷ bytes) >>= λ read. visit_read read.0 s >>= λ s'. for_each_loop fuel s' read.1

  unfoldable pub for_each_field : S → Bytes → Result S
  unfolding for_each_loop
  for_each_field s body = for_each_loop (length body) s body
