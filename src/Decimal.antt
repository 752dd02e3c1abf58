-- ===== src/Decimal.antt =====
-- Decimal text: `std::to_string`, the `{:02}` and `{:04}` of `std::format`, and
-- `ce::v2::detail::to_int` of include/cloudevents/detail/timestamp.hpp.
pub mod Fixed
use cloudevents_sdk_cpp.Base.{
  ℕ, zero, suc, ◌+◌, ◌-◌, ◌*◌, ◌/◌, ◌%◌, [], ◌∷◌, ◌++◌, Bytes, length, ltb, replicate,
  if◌then◌else◌,
}

-- the digits of a number below 10 ^ fuel
unfoldable pub decimal_digits : ℕ → ℕ → Bytes
decimal_digits zero n = []
decimal_digits (suc fuel) n =
    if ltb n 10 then (b'0' + n) ∷ [] else decimal_digits fuel (n / 10) ++ (b'0' + n % 10) ∷ []

unfoldable pub decimal_text : ℕ → Bytes
unfolding decimal_digits
decimal_text n = decimal_digits (suc n) n

-- filled with `0` on the left
unfoldable pub padded : ℕ → ℕ → Bytes
padded width n = let digits = decimal_text n in replicate (width - length digits) b'0' ++ digits

-- the last `count` digits of a number
unfoldable pub fixed_digits : ℕ → ℕ → Bytes
fixed_digits zero n = []
fixed_digits (suc count) n = fixed_digits count (n / 10) ++ (b'0' + n % 10) ∷ []

-- the loop of `to_int`, from the value so far
unfoldable pub to_int : ℕ → Bytes → ℕ
to_int value [] = value
to_int value (digit ∷ digits) = to_int (value * 10 + (digit - b'0')) digits
