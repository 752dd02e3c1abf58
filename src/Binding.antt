-- ===== src/Binding.antt =====
-- include/cloudevents/binding/common.hpp: what the transport bindings share. A binding is a record
-- of the constants and the two functions of its traits class.
pub mod Write
pub mod Read
pub mod Body
pub mod Moving
pub mod Structured
pub mod Apart
pub mod Carried
pub mod Collected
pub mod Separate
pub mod Sound
pub mod ProtobufStructured
pub mod Essence
pub mod Attributed
pub mod Binary
pub mod Names
use cloudevents_sdk_cpp.Base.{
  ℕ, suc, zero, ◌+◌, ◌/◌, ◌%◌, Bool, true, false, not, ◌&&◌, ◌||◌, Option, none, some, List, [],
  ◌∷◌, ◌++◌, map, Bytes, String, codes, same, ltb, leb, ◌==◌, length, drop, if◌then◌else◌,
}
use cloudevents_sdk_cpp.Errors.{Errc, Error, Result, ok, err, fail, forward_failure, ◌>>=◌}
use cloudevents_sdk_cpp.Text.{ascii_lower, iequals, starts_with, starts_with_ignoring_case}
use cloudevents_sdk_cpp.Base64.{base64_encode}
use cloudevents_sdk_cpp.Headers.{Entry, RawHeaders, set, set_exact, Message, two_fields}
use cloudevents_sdk_cpp.Platform.{Platform}
use cloudevents_sdk_cpp.Attributes.{
  id_policy, source_policy, type_policy, subject_policy, dataschema_policy, datacontenttype_policy,
  extension_name_policy, make, store_attribute, make_spec_version, is_json_content_type,
}
use cloudevents_sdk_cpp.Event.{
  Int32, pos, negsuc, AttributeValue, boolean, int32, string, binary, uri, uri_ref, instant, DataT,
  ExtensionMap, Options, Event, Builder, empty_builder, build, set_data,
}
use cloudevents_sdk_cpp.Maps.{insert_or_assign}

-- the requirements of the concept `binding_traits`, with `content_type_policy`
pub record Traits : Type 0 where
  pub attribute_prefix : Bytes
  pub content_type_header : Bytes
  pub case_sensitive_names : Bool
  pub content_type_as_attribute : Bool
  pub encode_value : Bytes → Result Bytes
  pub decode_value : Bytes → Result Bytes

pub record DecodeOptions : Type 0 where
  pub retain_document_up_to : ℕ
  pub parse_binary_body : Bool

abbrev pub default_options : DecodeOptions
default_options = record { retain_document_up_to = 16384; parse_binary_body = true }

abbrev pub retains_text_of : ℕ → DecodeOptions → Bool
retains_text_of length options =
    not (options.retain_document_up_to == 0) && leb length options.retain_document_up_to

module _ (T : Traits) where
  unfoldable pub put : RawHeaders → Bytes → Bytes → RawHeaders
  put into name value =
      if T.case_sensitive_names then set_exact into name value else set into name value

  unfoldable pub carries_prefix : Bytes → Bool
  carries_prefix name =
      if T.case_sensitive_names
      then starts_with name T.attribute_prefix
      else starts_with_ignoring_case name T.attribute_prefix

  abbrev pub same_field_name : Bytes → Bytes → Bool
  same_field_name left right =
      if T.case_sensitive_names then same left right else iequals left right

  -- the inner loop of `first_repeated_name`
  unfoldable pub repeats : RawHeaders → Bytes → Bool
  repeats [] later = false
  repeats (earlier ∷ es) later = same_field_name earlier.0 later || repeats es later

  unfoldable pub first_repeated_loop : RawHeaders → RawHeaders → Option Bytes
  first_repeated_loop before [] = none
  first_repeated_loop before (later ∷ behind) =
      if repeats before later.0
      then some later.0
      else first_repeated_loop (before ++ later ∷ []) behind

  unfoldable pub first_repeated_name : RawHeaders → Option Bytes
  first_repeated_name delivered = first_repeated_loop [] delivered

  unfoldable pub attribute_name_of : Bytes → Bytes
  attribute_name_of field =
      let name = drop (length T.attribute_prefix) field in
      if T.case_sensitive_names then name else map ascii_lower name
