-- ===== src/Base64/Quantum.antt =====
-- The alphabet, the packing of a quantum and one round of the decoder, as arithmetic.
use cloudevents_sdk_cpp.Base.{ℕ, ◌+◌, ◌*◌, ◌%◌, ◌^◌, ◌<◌, ◌≡◌, refl, ◌∙◌, arith, [], ◌∷◌, bit_or}
use cloudevents_sdk_cpp.Base.Bits.{every_below, agree_below, bit_or-shift, bit_and-mask}
use native.Mathlib.Nat.{mod-mod}
use cloudevents_sdk_cpp.Base64.{base64_value, base64_character, pack, shl32, next_accumulator}

pub base64_value-character : (v : ℕ) → v < 64 → base64_value (base64_character v) ≡ v
unfolding every_below base64_value base64_character
base64_value-character = agree_below 64 (λ v. base64_value (base64_character v)) (λ v. v) refl

pub base64_character_mod : (v : ℕ) → base64_character v ≡ base64_character (v % 64)
unfolding base64_character
base64_character_mod v = rw (bit_and-mask 6 v, bit_and-mask 6 (v % 64), mod-mod v 64)

-- `(group << 8) | octet`, while the group has room
shl32_octet : (g o : ℕ) → g < 2 ^ 24 → o < 256 → bit_or (shl32 g 8) o ≡ g * 256 + o
shl32_octet g o hg ho = let e : shl32 g 8 ≡ g * 2 ^ 8 = omega arith in rw e (bit_or-shift 8 g o ho)

first_octet : (a : ℕ) → a < 256 → bit_or (shl32 0 8) a ≡ a
first_octet a h = shl32_octet 0 a (omega arith) h ∙ omega arith

module _ (a b c : ℕ) (ha : a < 256) (hb : b < 256) (hc : c < 256) where
  pub pack_one : pack 0 (a ∷ []) ≡ a
  unfolding pack
  pack_one = first_octet a ha

  pub pack_two : pack 0 (a ∷ b ∷ []) ≡ a * 256 + b
  unfolding pack
  pack_two = rw (first_octet a ha) (shl32_octet a b (omega arith) hb)

  pub pack_three : pack 0 (a ∷ b ∷ c ∷ []) ≡ (a * 256 + b) * 256 + c
  unfolding pack
  pack_three =
      rw (first_octet a ha, shl32_octet a b (omega arith) hb)
        (shl32_octet (a * 256 + b) c (omega arith) hc)

-- One sextet enters the accumulator from the right, and the oldest six bits leave it.
pub next_accumulator_lem : (acc v : ℕ) → v < 64 → next_accumulator acc v ≡ acc % 2 ^ 26 * 64 + v
unfolding next_accumulator
next_accumulator_lem acc v h =
    let e : shl32 acc 6 ≡ acc % 2 ^ 26 * 2 ^ 6 = omega arith in
    rw e (bit_or-shift 6 (acc % 2 ^ 26) v h)
