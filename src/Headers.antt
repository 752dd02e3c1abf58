-- ===== src/Headers.antt =====
-- include/cloudevents/message.hpp: the fields of a message in the order they were added, the fields
-- an adopting reader accepts, and the message itself. A pointer to a value is an `Option`.
use cloudevents_sdk_cpp.Base.{
  ℕ, ◌≡◌, refl, Bool, true, false, not, Option, none, some, List, [], ◌∷◌, ◌++◌, Bytes, length,
  same, if◌then◌else◌, String,
}
use cloudevents_sdk_cpp.Errors.{Errc, Result, ok, fail}
use cloudevents_sdk_cpp.Text.{iequals}
pub mod Lookup
pub mod Adopt

abbrev pub Entry : Type 0
Entry = Bytes × Bytes

abbrev pub RawHeaders : Type 0
RawHeaders = List Entry

abbrev pub add : RawHeaders → Bytes → Bytes → RawHeaders
add entries name value = entries ++ ((name, value) ∷ [])

-- `std::erase_if` with a test of the name
unfoldable pub erase_if : (Bytes → Bool) → RawHeaders → RawHeaders
erase_if matches [] = []
erase_if matches (e ∷ es) = if matches e.0 then erase_if matches es else e ∷ erase_if matches es

abbrev pub set : RawHeaders → Bytes → Bytes → RawHeaders
set entries name value = add (erase_if (λ candidate. iequals candidate name) entries) name value

abbrev pub set_exact : RawHeaders → Bytes → Bytes → RawHeaders
set_exact entries name value = add (erase_if (λ candidate. same candidate name) entries) name value

-- the loop of `find` and of `find_exact`
unfoldable pub find_if : (Bytes → Bool) → RawHeaders → Option Bytes
find_if matches [] = none
find_if matches (e ∷ es) = if matches e.0 then some e.1 else find_if matches es

abbrev pub find : RawHeaders → Bytes → Option Bytes
find entries name = find_if (λ candidate. iequals candidate name) entries

abbrev pub find_exact : RawHeaders → Bytes → Option Bytes
find_exact entries name = find_if (λ candidate. same candidate name) entries

abbrev pub is_some {ℓ} : {A : Type ℓ} → Option A → Bool
is_some none = false
is_some (some a) = true

abbrev pub contains : RawHeaders → Bytes → Bool
contains entries name = is_some (find entries name)

abbrev pub contains_exact : RawHeaders → Bytes → Bool
contains_exact entries name = is_some (find_exact entries name)

pub data NameMatching : Type 0 where
  case_sensitive case_insensitive : NameMatching

-- `headers` wraps the fields it adopted.
pub record Headers : Type 0 where
  pub fields : RawHeaders

abbrev pub two_fields : String
two_fields = "two fields carry the same attribute, so which one is meant is undecidable"

abbrev pub already : NameMatching → RawHeaders → Bytes → Bool
already NameMatching.case_sensitive adopted name = contains_exact adopted name
already NameMatching.case_insensitive adopted name = contains adopted name

-- the loop of `adopt`, with the fields adopted so far
unfoldable pub adopt_loop : NameMatching → RawHeaders → RawHeaders → Result Headers
adopt_loop matching adopted [] = ok (record { fields = adopted })
adopt_loop matching adopted (e ∷ es) =
    if already matching adopted e.0
    then fail Errc.invalid_argument two_fields e.0
    else adopt_loop matching (add adopted e.0 e.1) es

unfoldable pub adopt : RawHeaders → NameMatching → Result Headers
adopt delivered matching = adopt_loop matching [] delivered

pub record Message : Type 0 where
  pub header_fields : RawHeaders
  pub body : Bytes

pub data ContentMode : Type 0 where
  binary_mode structured batched : ContentMode
