-- ===== src/Utf8/Lead.antt =====
-- The masks on a lead byte and on a continuation byte, as ranges and remainders.
use cloudevents_sdk_cpp.Base.{
  ℕ, ◌+◌, ◌-◌, ◌*◌, ◌/◌, ◌%◌, ◌^◌, ◌<◌, ◌≡◌, refl, arith, none, ◌∷◌, Bytes, IsByte, ltb, within,
  if◌then◌else◌, bit_and,
}
use cloudevents_sdk_cpp.Base.Bits.{every_below, agree_below, bit_and-mask, bit_or-shift}
use cloudevents_sdk_cpp.Utf8.{read_utf8_lead, continuations}

unfoldable pub lead_length : ℕ → ℕ
lead_length a =
    if ltb a 128
    then 1
    else if ltb a 192
    then 0
    else if ltb a 224
    then 2
    else if ltb a 240
    then 3
    else if ltb a 248
    then 4
    else 0

unfoldable pub lead_payload : ℕ → ℕ
lead_payload a =
    if ltb a 128
    then a
    else if ltb a 192
    then 0
    else if ltb a 224
    then a - 192
    else if ltb a 240
    then a - 224
    else if ltb a 248
    then a - 240
    else 0

length_table : (a : ℕ) → a < 256 → (read_utf8_lead a).length ≡ lead_length a
unfolding every_below read_utf8_lead lead_length
length_table = agree_below 256 (λ a. (read_utf8_lead a).length) lead_length refl

payload_table : (a : ℕ) → a < 256 → (read_utf8_lead a).payload ≡ lead_payload a
unfolding every_below read_utf8_lead lead_payload
payload_table = agree_below 256 (λ a. (read_utf8_lead a).payload) lead_payload refl

pub read_utf8_lead_lem :
    (a : ℕ)
    → IsByte a
    → read_utf8_lead a ≡ record { length = lead_length a; payload = lead_payload a }
read_utf8_lead_lem a h = λ i. record { length = length_table a h i; payload = payload_table a h i }

marker_table : (b : ℕ) → b < 256 → bit_and b 0xc0 ≡ b / 64 * 64
unfolding every_below
marker_table = agree_below 256 (λ b. bit_and b 0xc0) (λ b. b / 64 * 64) refl

-- A continuation byte is 0x80 to 0xbf, and adds its six low bits.
pub continuations_step :
    (code b : ℕ) (bs : Bytes)
    → IsByte b
    → code < 2 ^ 20
    → continuations code (b ∷ bs)
      ≡ (if within 128 191 b then continuations (code * 64 + b % 64) bs else none)
unfolding continuations
continuations_step code b bs h small =
    let e : code * 2 ^ 6 % 2 ^ 32 ≡ code * 2 ^ 6 = omega arith in
    rw (marker_table b h, bit_and-mask 6 b, e, bit_or-shift 6 code (b % 64) (omega arith))
      (ground arith)
