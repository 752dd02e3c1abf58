-- ===== src/Attributes.antt =====
-- include/cloudevents/attributes.hpp: the policies of the attributes, and `validated_string::make`
-- of include/cloudevents/detail/validated_string.hpp, whose value is the text it views.
use cloudevents_sdk_cpp.Base.{
  Bool, true, false, not, ◌||◌, Option, none, some, List, [], ◌∷◌, Bytes, String, codes, same,
  if◌then◌else◌,
}
use cloudevents_sdk_cpp.Errors.{Errc, Error, Result, ok, err, fail, ◌>>=◌}
use cloudevents_sdk_cpp.Text.{iequals, iends_with}
use cloudevents_sdk_cpp.Utf8.{is_valid_utf8}
use cloudevents_sdk_cpp.Platform.{Platform}

abbrev pub reserved_names : List Bytes
reserved_names =
    codes "id"
    ∷ codes "source"
    ∷ codes "specversion"
    ∷ codes "type"
    ∷ codes "datacontenttype"
    ∷ codes "dataschema"
    ∷ codes "subject"
    ∷ codes "time"
    ∷ codes "data"
    ∷ codes "data_base64"
    ∷ []

abbrev pub any_same : Bytes → List Bytes → Bool
any_same name [] = false
any_same name (r ∷ rs) = same name r || any_same name rs

unfoldable pub reserved_name : Bytes → Bool
reserved_name name = any_same name reserved_names

abbrev pub static_error : Errc → String → Bytes → Option Error
static_error c d w = some (record { code = c; detail = d; where_ = w })

unfoldable pub check_text : Errc → Bytes → Bytes → String → Option Error
check_text empty [] attribute empty_detail = static_error empty empty_detail attribute
check_text empty (c ∷ cs) attribute empty_detail =
    if is_valid_utf8 (c ∷ cs)
    then none
    else static_error Errc.invalid_utf8 "an attribute value must be well-formed UTF-8" attribute

-- A policy of `validated_string`: its check, and whether a refusal names the offending text.
pub record Policy : Type 0 where
  pub check : Bytes → Option Error
  pub names_offending_text : Bool

abbrev pub id_policy : Policy
id_policy = record {
  check =
      λ text. check_text Errc.missing_required_attribute text (codes "id") "id must be non-empty";
  names_offending_text = false;
}

abbrev pub source_policy : Policy
source_policy = record {
  check = λ text.
      check_text Errc.missing_required_attribute text (codes "source") "source must be non-empty";
  names_offending_text = false;
}

abbrev pub type_policy : Policy
type_policy = record {
  check = λ text.
      check_text Errc.missing_required_attribute text (codes "type") "type must be non-empty";
  names_offending_text = false;
}

abbrev pub subject_policy : Policy
subject_policy = record {
  check = λ text.
      check_text Errc.invalid_attribute_value text (codes "subject") "subject is present but empty";
  names_offending_text = false;
}

abbrev pub dataschema_policy : Policy
dataschema_policy = record {
  check = λ text.
      check_text Errc.invalid_attribute_value text (codes "dataschema")
        "dataschema is present but empty";
  names_offending_text = false;
}

abbrev pub refuse {ℓ} : {A : Type ℓ} → Error → Bool → Bytes → Result A
refuse refused true text = err (record refused { where_ = text })
refuse refused false text = err refused

abbrev pub made_of {ℓ} : {A : Type ℓ} → Option Error → Bool → Bytes → A → Result A
made_of none names text made = ok made
made_of (some refused) names text made = refuse refused names text

-- `validated_string<Policy>::make`
unfoldable pub make : Policy → Bytes → Result Bytes
make policy text = made_of (policy.check text) policy.names_offending_text text text

-- `store_attribute`: the new content of the slot
unfoldable pub store_attribute : Policy → Bytes → Result (Option Bytes)
store_attribute policy text = do made ← make policy text; ok (some made)

-- `spec_version::make`; a `spec_version` has no state.
unfoldable pub make_spec_version : Bytes → Result (Unit {0})
make_spec_version text =
    if same text (codes "1.0")
    then ok tt
    else fail Errc.unsupported_spec_version "this SDK implements CloudEvents 1.0 only"
        (codes "specversion")

module _ (P : Platform) where
  unfoldable pub is_json_content_type : Bytes → Bool
  is_json_content_type content_type = elim (P.match_content_type content_type) [
    | none ↦ false
    | some subtype ↦ iequals subtype (codes "json") || iends_with subtype (codes "+json")
  ]

  abbrev pub check_datacontenttype : Bytes → Option Error
  check_datacontenttype text =
      elim (check_text Errc.invalid_attribute_value text (codes "datacontenttype")
        "datacontenttype is present but empty") [
          | some refused ↦ some refused
          | none ↦ elim (P.match_content_type text) [
            | none ↦
                static_error Errc.invalid_content_type "not a valid media type"
                  (codes "datacontenttype")
            | some subtype ↦ none
          ]
        ]

  abbrev pub datacontenttype_policy : Policy
  datacontenttype_policy = record { check = check_datacontenttype; names_offending_text = false }

  abbrev pub check_extension_name : Bytes → Option Error
  check_extension_name text =
      if not (P.match_attribute_name text)
      then static_error Errc.invalid_attribute_name "extension names must match [a-z0-9]+"
          (codes "extension")
      else if reserved_name text
      then static_error Errc.reserved_attribute_name
          "an extension may not redefine a context attribute" (codes "extension")
      else none

  abbrev pub extension_name_policy : Policy
  extension_name_policy = record { check = check_extension_name; names_offending_text = true }
