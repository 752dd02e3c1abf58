-- ===== src/Timestamp/Digits.antt =====
-- The fraction of a second and the offset of a timestamp, written and read.
use cloudevents_sdk_cpp.Base.{
  ℕ, zero, suc, ◌+◌, ◌-◌, ◌/◌, ◌%◌, ◌^◌, ◌≤◌, ◌<◌, ◌≡◌, refl, ap, arith, min, false, inl, inr,
  Bool-cases, Option, none, some, [], ◌∷◌, ◌++◌, Bytes, length, take, ltb, le→ltb, leb→le,
  if◌then◌else◌, codes,
}
use cloudevents_sdk_cpp.Base.Lists.{same}
use cloudevents_sdk_cpp.Base.Words.{neg64}
use cloudevents_sdk_cpp.Errors.{Result, ok}
use cloudevents_sdk_cpp.Decimal.{fixed_digits}
use cloudevents_sdk_cpp.Decimal.Fixed.{padded_two}
use cloudevents_sdk_cpp.Timestamp.{
  OffsetForm, utc_designator, numeric, make_fraction_digits, subsecond, read_fraction,
  signed_offset, fraction_text, offset_text, is_negative,
}

-- Nanoseconds of which so many digits of a second show a part.
abbrev pub IsShownBy : ℕ → ℕ → Type 0
IsShownBy count nanos = (count ≤ 9) × (nanos < 10 ^ 9)

-- the nanoseconds behind the digits
abbrev pub unshown : ℕ → ℕ → ℕ
unshown count nanos = nanos % 10 ^ (9 - count)

above_nine : (n : ℕ) → n + 10 ≤ 9 → ⊥
above_nine n h = omega arith

digit_value : (x : ℕ) → b'0' + x - b'0' ≡ x
digit_value x = omega arith

subsecond-take :
    (count nanos : ℕ)
    → IsShownBy count nanos
    → (length (take count (fixed_digits 9 nanos)) ≡ count)
      × (subsecond (10 ^ 8) 0 (take count (fixed_digits 9 nanos)) ≡ nanos - unshown count nanos)
unfolding subsecond fixed_digits
subsecond-take zero nanos h = (refl, omega arith)
subsecond-take (suc zero) nanos h = (refl, omega arith)
subsecond-take (suc (suc zero)) nanos h = (refl, omega arith)
subsecond-take (suc (suc (suc zero))) nanos h = (refl, omega arith)
subsecond-take (suc (suc (suc (suc zero)))) nanos h = (refl, simp digit_value (omega arith))
subsecond-take (suc (suc (suc (suc (suc zero))))) nanos h = (refl, simp digit_value (omega arith))
subsecond-take (suc (suc (suc (suc (suc (suc zero)))))) nanos h =
    (refl, simp digit_value (omega arith))
subsecond-take (suc (suc (suc (suc (suc (suc (suc zero))))))) nanos h =
    (refl, simp digit_value (omega arith))
subsecond-take (suc (suc (suc (suc (suc (suc (suc (suc zero)))))))) nanos h =
    (refl, simp digit_value (omega arith))
subsecond-take (suc (suc (suc (suc (suc (suc (suc (suc (suc zero))))))))) nanos h =
    (refl, simp digit_value (omega arith))
subsecond-take (suc (suc (suc (suc (suc (suc (suc (suc (suc (suc n)))))))))) nanos (h, _) =
    absurd (above_nine n (omega arith))

ltb-false : (n : ℕ) → ltb 0 n ≡ false → n ≡ 0
ltb-false n h = ground arith

nothing_shown : (nanos : ℕ) → IsShownBy 0 nanos → 0 ≡ nanos - unshown 0 nanos
nothing_shown nanos h = omega arith

none_shown :
    (count nanos : ℕ)
    → IsShownBy count nanos
    → count ≡ 0
    → ◌≡◌ {A = Result (ℕ × ℕ)} (ok (0, 0)) (ok (count, nanos - unshown count nanos))
none_shown count nanos h e = rw e (ap (λ (n : ℕ). ok (0, n)) (nothing_shown nanos (rw e at h)))

-- the group of the fraction
abbrev pub fraction_group : ℕ → ℕ → Option Bytes
fraction_group count nanos = if ltb 0 count then some (take count (fixed_digits 9 nanos)) else none

abbrev pub fraction_part : Option Bytes → Bytes
fraction_part none = []
fraction_part (some digits) = b'.' ∷ digits

min_nine : (count : ℕ) → count ≤ 9 → min count 9 ≡ count
min_nine count h = omega arith

pub fraction_text-group :
    (count nanos : ℕ)
    → count ≤ 9
    → fraction_text count nanos ≡ fraction_part (fraction_group count nanos)
unfolding fraction_text
fraction_text-group count nanos h = elim (Bool-cases (ltb 0 count)) [
  | inl p ↦ rw (p, min_nine count h) refl
  | inr p ↦ rw p refl
]

pub read_fraction-group :
    (text : Bytes) (count nanos : ℕ)
    → IsShownBy count nanos
    → read_fraction text (fraction_group count nanos) ≡ ok (count, nanos - unshown count nanos)
unfolding read_fraction make_fraction_digits
read_fraction-group text count nanos h = elim (Bool-cases (ltb 0 count)) [
  | inl p ↦
      let (size, total) = subsecond-take count nanos h in
      rw (p, size, le→ltb 9 count h.0, total) refl
  | inr p ↦ rw p (none_shown count nanos h (ltb-false count p))
]

-- the groups of the offset: its sign, its hours and its minutes
abbrev pub magnitude_of : ℕ → ℕ
magnitude_of offset = if is_negative offset then neg64 offset else offset

abbrev pub sign_of : ℕ → Bytes
sign_of offset = if is_negative offset then codes "-" else codes "+"

-- less than a day, to the east or to the west
abbrev pub IsOffset : OffsetForm → ℕ → Type 0
IsOffset utc_designator offset = offset ≡ 0
IsOffset numeric offset = (offset < 2 ^ 64) × (magnitude_of offset < 1440)

unfoldable pub offset_part : OffsetForm → ℕ → Bytes
offset_part utc_designator offset = codes "Z"
offset_part numeric offset =
    sign_of offset
    ++ fixed_digits 2 (magnitude_of offset / 60)
    ++ codes ":"
    ++ fixed_digits 2 (magnitude_of offset % 60)

pub offset_text-part :
    (form : OffsetForm) (offset : ℕ)
    → IsOffset form offset
    → offset_text form offset ≡ offset_part form offset
unfolding offset_part
offset_text-part utc_designator offset h = refl
offset_text-part numeric offset (_, h) =
    rw
      (
        padded_two (magnitude_of offset / 60) (omega arith),
        padded_two (magnitude_of offset % 60) (omega arith),
      )
      refl

pub signed_offset-magnitude :
    (offset : ℕ) → offset < 2 ^ 64 → signed_offset (sign_of offset) (magnitude_of offset) ≡ offset
unfolding same
signed_offset-magnitude offset h = elim (Bool-cases (is_negative offset)) [
  | inl p ↦ rw p (omega (arith, leb→le (2 ^ 63) offset p))
  | inr p ↦ rw p refl
]
