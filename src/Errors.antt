-- ===== src/Errors.antt =====
-- include/cloudevents/result.hpp: the error codes, the error value and `result<T>`, which is
-- `std::expected<T, error>`. `detail` is always one of the source's literals, kept as a text;
-- `where` is the offending input or a name, as bytes.
use cloudevents_sdk_cpp.Base.{◌≡◌, refl, ◌⊎◌, inl, inr, Bytes, String}

pub data Errc : Type 0 where
  missing_required_attribute invalid_attribute_name reserved_attribute_name : Errc
  invalid_attribute_value unsupported_spec_version invalid_timestamp : Errc
  invalid_content_type parse_error type_mismatch out_of_range data_conflict : Errc
  invalid_base64 invalid_utf8 not_a_cloudevent invalid_argument : Errc

unfoldable pub to_string_view : Errc → String
to_string_view missing_required_attribute = "missing_required_attribute"
to_string_view invalid_attribute_name = "invalid_attribute_name"
to_string_view reserved_attribute_name = "reserved_attribute_name"
to_string_view invalid_attribute_value = "invalid_attribute_value"
to_string_view unsupported_spec_version = "unsupported_spec_version"
to_string_view invalid_timestamp = "invalid_timestamp"
to_string_view invalid_content_type = "invalid_content_type"
to_string_view parse_error = "parse_error"
to_string_view type_mismatch = "type_mismatch"
to_string_view out_of_range = "out_of_range"
to_string_view data_conflict = "data_conflict"
to_string_view invalid_base64 = "invalid_base64"
to_string_view invalid_utf8 = "invalid_utf8"
to_string_view not_a_cloudevent = "not_a_cloudevent"
to_string_view invalid_argument = "invalid_argument"

-- `error`, and `static_error`, which `widen` copies field by field
pub record Error : Type 0 where
  pub code : Errc
  pub detail : String
  pub where_ : Bytes

pub data Result {ℓ} (A : Type ℓ) : Type ℓ where
  ok : A → Result A
  err : Error → Result A

-- a call followed by `if (!x) return forward_failure(...)`
infixl 5 ◌>>=◌
abbrev pub ◌>>=◌ {ℓ κ} : {A : Type ℓ} {B : Type κ} → Result A → (A → Result B) → Result B
err failure >>= next = err failure
ok value >>= next = next value

-- the same for a `result<void>`
infixl 5 ◌>>◌
abbrev pub ◌>>◌ {κ} : {B : Type κ} → Result (Unit {0}) → Result B → Result B
first >> rest = first >>= (λ done. rest)

-- `fail(code, detail, where)`
abbrev pub fail {ℓ} : {A : Type ℓ} → Errc → String → Bytes → Result A
fail c d w = err (record { code = c; detail = d; where_ = w })

-- `forward_failure(diagnosis, where)` on the error of a call; with no `where` it is `◌>>=◌`.
abbrev pub forward_failure {ℓ} : {A : Type ℓ} → Result A → Bytes → Result A
forward_failure (ok a) w = ok a
forward_failure (err e) w = err (record e { where_ = w })

-- What a chain that succeeded went through.
pub bind_succeeds {ℓ κ} :
    {A : Type ℓ} {B : Type κ} {y : B} (r : Result A) (next : A → Result B)
    → (r >>= next) ≡ ok y
    → (x : A) × (r ≡ ok x) × (next x ≡ ok y)
bind_succeeds (err failure) next success = cc
bind_succeeds (ok value) next success = (value, refl, success)

pub Result-cases {ℓ} :
    {A : Type ℓ} (r : Result A) → ((a : A) × (r ≡ ok a)) ⊎ ((e : Error) × (r ≡ err e))
Result-cases (ok a) = inl (a, refl)
Result-cases (err e) = inr (e, refl)

pub bind_assoc {ℓ} :
    {A B C : Type ℓ} (r : Result A) (f : A → Result B) (g : B → Result C)
    → (r >>= f >>= g) ≡ (r >>= (λ a. f a >>= g))
bind_assoc (ok a) f g = refl
bind_assoc (err e) f g = refl

pub ok-injective {ℓ} : {A : Type ℓ} {a b : A} → ok a ≡ ok b → a ≡ b
ok-injective e = cc
