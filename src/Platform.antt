-- ===== src/Platform.antt =====
-- What the attributes and the bindings take from elsewhere: the matchers that the CTRE library
-- compiles from the patterns of include/cloudevents/attributes.hpp and
-- include/cloudevents/detail/timestamp.hpp, and the JSON codec that a caller supplies
-- (include/cloudevents/format/json_codec.hpp).
use cloudevents_sdk_cpp.Base.{Bool, Option, Bytes}
use cloudevents_sdk_cpp.Errors.{Result}

-- The groups of `rfc3339_pattern`. One of the UTC designator and the numeric offset is there.
pub record Captures : Type 0 where
  pub year : Bytes
  pub month : Bytes
  pub day : Bytes
  pub hour : Bytes
  pub minute : Bytes
  pub second : Bytes
  pub fraction : Option Bytes
  pub utc_designator : Bool
  pub offset_sign : Bytes
  pub offset_hour : Bytes
  pub offset_minute : Bytes

pub record Platform : Type 1 where
  -- `ctre::match` with `^[a-z0-9]+$`
  pub match_attribute_name : Bytes → Bool
  -- `ctre::match` with the media type pattern: the subtype, its second group
  pub match_content_type : Bytes → Option Bytes
  -- `ctre::match` with `rfc3339_pattern`
  pub match_rfc3339 : Bytes → Option Captures
  -- `Codec::value`, `Codec::parse` and `Codec::dump`
  pub Document : Type 0
  pub parse_document : Bytes → Result Document
  pub dump_document : Document → Bytes
