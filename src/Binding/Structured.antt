-- ===== src/Binding/Structured.antt =====
-- include/cloudevents/binding/common.hpp: `encode_structured` and `decode_structured`. The JSON event
-- format (include/cloudevents/format/json_format.hpp) stands behind an interface.
use cloudevents_sdk_cpp.Base.{Bytes, List, [], codes}
use cloudevents_sdk_cpp.Errors.{Result, ok, ◌>>=◌}
use cloudevents_sdk_cpp.Headers.{Message}
use cloudevents_sdk_cpp.Platform.{Platform}
use cloudevents_sdk_cpp.Event.{Event}
use cloudevents_sdk_cpp.Binding.{Traits, DecodeOptions, put}

pub record JsonFormat (P : Platform) : Type 0 where
  pub encode : Event P → Result Bytes
  pub decode : Bytes → DecodeOptions → Result (Event P)
  pub encode_batch : List (Event P) → Result Bytes
  pub decode_batch : Bytes → DecodeOptions → Result (List (Event P))

abbrev pub json_content_type : Bytes
json_content_type = codes "application/cloudevents+json"

abbrev pub json_batch_content_type : Bytes
json_batch_content_type = codes "application/cloudevents-batch+json"

module _ {P : Platform} (F : JsonFormat P) where
  abbrev pub structured_message : Traits → Bytes → Message
  structured_message T text = record {
    header_fields = put T [] T.content_type_header json_content_type;
    body = text;
  }

  unfoldable pub encode_structured : Traits → Event P → Result Message
  encode_structured T e = do text ← F.encode e; ok (structured_message T text)

  abbrev pub decode_structured : Message → DecodeOptions → Result (Event P)
  decode_structured from options = F.decode from.body options
