-- ===== src/Event.antt =====
-- include/cloudevents/core.hpp: the event, its options, its builder and its extensions. A
-- `std::map` of extensions is the list of its entries in the order of their names.
use cloudevents_sdk_cpp.Base.{
  ℕ, suc, zero, ◌+◌, ◌/◌, ◌%◌, ◌≡◌, Bool, true, false, Option, none, some, List, [], ◌∷◌, ◌++◌,
  Bytes, String, codes, same, ltb, length, if◌then◌else◌,
}
use cloudevents_sdk_cpp.Errors.{Errc, Error, Result, ok, err, fail}
use cloudevents_sdk_cpp.Maps.{Map, insert_or_assign, lookup, erase}
use cloudevents_sdk_cpp.Timestamp.{Timestamp}
use cloudevents_sdk_cpp.Platform.{Platform}
pub mod Extensions

-- `std::int32_t`, in the two halves of its range
pub data Int32 : Type 0 where
  pos : ℕ → Int32
  negsuc : ℕ → Int32

-- `attribute_value`, a `std::variant`
pub data AttributeValue : Type 0 where
  boolean : Bool → AttributeValue
  int32 : Int32 → AttributeValue
  string : Bytes → AttributeValue
  binary : Bytes → AttributeValue
  uri : Bytes → AttributeValue
  uri_ref : Bytes → AttributeValue
  instant : Timestamp → AttributeValue

-- `data_t`, a `std::variant`
pub data DataT (P : Platform) : Type 0 where
  monostate : DataT P
  text_data : Bytes → DataT P
  binary_data : Bytes → DataT P
  json_text : Bytes → DataT P
  json_document : P.Document → DataT P

abbrev pub ExtensionMap : Type 0
ExtensionMap = Map AttributeValue

pub record Options (P : Platform) : Type 0 where
  pub datacontenttype : Option Bytes
  pub dataschema : Option Bytes
  pub subject : Option Bytes
  pub time : Option Timestamp
  pub extensions : ExtensionMap
  pub payload : DataT P

pub record Event (P : Platform) : Type 0 where
  pub id : Bytes
  pub source : Bytes
  pub type : Bytes
  pub rest : Options P

pub record Builder (P : Platform) : Type 0 where
  pub id : Option Bytes
  pub source : Option Bytes
  pub type : Option Bytes
  pub rest : Options P

pub record LintWarning : Type 0 where
  pub attribute : Bytes
  pub message : String

abbrev pub required {ℓ} :
    {A : Type ℓ} → Option Bytes → String → Bytes → (Bytes → Result A) → Result A
required none detail name next = fail Errc.missing_required_attribute detail name
required (some a) detail name next = next a

abbrev pub lint_loop : ExtensionMap → List LintWarning
lint_loop [] = []
lint_loop (e ∷ es) =
    if ltb 20 (length e.0)
    then record { attribute = e.0; message = "extension names should be 20 characters or fewer" }
      ∷ lint_loop es
    else lint_loop es

module _ {P : Platform} where
  abbrev pub no_options : Options P
  no_options = record {
    datacontenttype = none;
    dataschema = none;
    subject = none;
    time = none;
    extensions = [];
    payload = DataT.monostate;
  }

  abbrev pub empty_builder : Builder P
  empty_builder = record { id = none; source = none; type = none; rest = no_options }

  unfoldable pub build : Builder P → Result (Event P)
  build b = required b.id "id must be present" (codes "id") (λ i.
      required b.source "source must be present" (codes "source") (λ s.
        required b.type "type must be present" (codes "type")
          (λ t. ok (record { id = i; source = s; type = t; rest = b.rest }))))

  abbrev pub set_data : Event P → DataT P → Option Bytes → Event P
  set_data e payload media_type = record e {
    rest = record e.rest { payload = payload; datacontenttype = media_type };
  }

  unfoldable pub set_extension : Event P → Bytes → AttributeValue → Event P
  set_extension e name value = record e {
    rest = record e.rest { extensions = insert_or_assign e.rest.extensions name value };
  }

  unfoldable pub extension : Event P → Bytes → Option AttributeValue
  extension e name = lookup e.rest.extensions name

  -- the event and the result, by what `find` found
  abbrev pub remove_found : Event P → Bytes → Option AttributeValue → Event P × Bool
  remove_found e name none = (e, false)
  remove_found e name (some value) =
      (record e { rest = record e.rest { extensions = erase e.rest.extensions name } }, true)

  unfoldable pub remove_extension : Event P → Bytes → Event P × Bool
  remove_extension e name = remove_found e name (lookup e.rest.extensions name)

  abbrev pub lint : Event P → List LintWarning
  lint e = lint_loop e.rest.extensions
