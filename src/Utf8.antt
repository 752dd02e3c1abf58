-- ===== src/Utf8.antt =====
-- include/cloudevents/attributes.hpp: `read_utf8_lead` to `is_valid_utf8`.
pub mod Lead
pub mod Scalars
pub mod WellFormed
use cloudevents_sdk_cpp.Base.{
  ℕ, zero, suc, ◌-◌, ◌*◌, ◌%◌, ◌^◌, Bool, true, false, not, ◌&&◌, ◌||◌, Option, none, some, [], ◌∷◌,
  Bytes, length, take, drop, ltb, leb, ◌==◌, if◌then◌else◌, bit_and, bit_or,
}

pub record Utf8Lead : Type 0 where
  pub length : ℕ
  pub payload : ℕ

unfoldable pub read_utf8_lead : ℕ → Utf8Lead
read_utf8_lead lead =
    if ltb lead 0x80
    then record { length = 1; payload = lead }
    else if bit_and lead 0xe0 == 0xc0
    then record { length = 2; payload = bit_and lead 0x1f }
    else if bit_and lead 0xf0 == 0xe0
    then record { length = 3; payload = bit_and lead 0x0f }
    else if bit_and lead 0xf8 == 0xf0
    then record { length = 4; payload = bit_and lead 0x07 }
    else record { length = 0; payload = 0 }

abbrev pub utf8_floor : ℕ → ℕ
utf8_floor length = if length == 2 then 0x80 else if length == 3 then 0x800 else 0x10000

unfoldable pub utf8_code_point_allowed : ℕ → ℕ → Bool
utf8_code_point_allowed length code =
    leb (utf8_floor length) code && leb code 0x10ffff && (ltb code 0xd800 || ltb 0xdfff code)

-- the inner loop over the continuation bytes; `none` is its `return false`
unfoldable pub continuations : ℕ → Bytes → Option ℕ
continuations code [] = some code
continuations code (byte ∷ bytes) =
    if bit_and byte 0xc0 == 0x80
    then continuations (bit_or (code * 2 ^ 6 % 2 ^ 32) (bit_and byte 0x3f)) bytes
    else none

-- what follows the inner loop, with the rest of the outer loop
abbrev pub finish_sequence : ℕ → Option ℕ → Bool → Bool
finish_sequence length none rest = false
finish_sequence length (some code) rest =
    if ltb 1 length && not (utf8_code_point_allowed length code) then false else rest

-- one round of the outer loop, on its decoded lead byte and the bytes behind it
abbrev pub sequence : Utf8Lead → Bytes → (Bytes → Bool) → Bool
sequence lead behind loop =
    if lead.length == 0 || ltb (suc (length behind)) lead.length
    then false
    else finish_sequence lead.length (continuations lead.payload (take (lead.length - 1) behind))
        (loop (drop (lead.length - 1) behind))

-- The outer loop takes a byte at least in each round, so `length text` rounds are enough.
unfoldable pub valid_loop : ℕ → Bytes → Bool
valid_loop fuel [] = true
valid_loop zero (lead ∷ behind) = false
valid_loop (suc fuel) (lead ∷ behind) = sequence (read_utf8_lead lead) behind (valid_loop fuel)

unfoldable pub is_valid_utf8 : Bytes → Bool
unfolding valid_loop
is_valid_utf8 text = valid_loop (length text) text
