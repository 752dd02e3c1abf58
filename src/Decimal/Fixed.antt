-- ===== src/Decimal/Fixed.antt =====
-- Decimal texts of a fixed width.
use cloudevents_sdk_cpp.Base.{
  ℕ, zero, suc, ◌+◌, ◌-◌, ◌*◌, ◌/◌, ◌%◌, ◌^◌, ◌≤◌, ◌<◌, ◌≡◌, refl, true, false, [], ◌∷◌, ◌++◌,
  Bytes, length, length-append, same_iff, All, All-append, arith, ltb,
}
use cloudevents_sdk_cpp.Base.Lists.{same}
use cloudevents_sdk_cpp.Base.Bits.{every_below, every_below_lem}
use native.Mathlib.Nat.{pow-suc, one-le-pow}
use cloudevents_sdk_cpp.Decimal.{decimal_digits, decimal_text, padded, fixed_digits, to_int}

two_table : every_below (λ n. same (padded 2 n) (fixed_digits 2 n)) 100 ≡ true
unfolding every_below same padded decimal_text decimal_digits fixed_digits
two_table = refl

pub padded_two : (n : ℕ) → n < 100 → padded 2 n ≡ fixed_digits 2 n
padded_two n h = (same_iff _ _).0 (every_below_lem _ 100 n h two_table)

pub length-fixed_digits : (count n : ℕ) → length (fixed_digits count n) ≡ count
unfolding fixed_digits
length-fixed_digits zero n = refl
length-fixed_digits (suc k) n = omega (
  arith,
  length-append (fixed_digits k (n / 10)) ((b'0' + n % 10) ∷ []),
  length-fixed_digits k (n / 10),
)

-- A number with a leading digit other than 0 has no digits to fill in.
decimal_digits-fixed :
    (k fuel n : ℕ)
    → 10 ^ k ≤ n
    → n < 10 ^ suc k
    → k < fuel
    → decimal_digits fuel n ≡ fixed_digits (suc k) n
unfolding decimal_digits fixed_digits
decimal_digits-fixed k zero n h l f = absurd (omega arith)
decimal_digits-fixed zero (suc fuel) n h l f =
    let small : ltb n 10 ≡ true = ground arith in
    let digit : n % 10 ≡ n = omega arith in rw (small, digit) refl
decimal_digits-fixed (suc k) (suc fuel) n h l f =
    let ih =
      decimal_digits-fixed k fuel (n / 10) (omega (arith, pow-suc 10 k))
        (omega (arith, pow-suc 10 (suc k))) (omega arith) in
    let large : ltb n 10 ≡ false = ground (arith, pow-suc 10 k, one-le-pow k 10) in
    rw (large, ih) refl

pub padded_four : (n : ℕ) → 1000 ≤ n → n < 10000 → padded 4 n ≡ fixed_digits 4 n
unfolding padded decimal_text
padded_four n h k =
    rw (decimal_digits-fixed 3 (suc n) n h k (omega arith), length-fixed_digits 4 n) refl

to_int-snoc : (v : ℕ) (xs : Bytes) (d : ℕ) → to_int v (xs ++ d ∷ []) ≡ to_int v xs * 10 + (d - b'0')
unfolding to_int
to_int-snoc v [] d = refl
to_int-snoc v (x ∷ xs) d = to_int-snoc (v * 10 + (x - b'0')) xs d

-- The digits are read back as the number, as far as they reach.
pub to_int-fixed_digits : (count n : ℕ) → n < 10 ^ count → to_int 0 (fixed_digits count n) ≡ n
unfolding to_int fixed_digits
to_int-fixed_digits zero n h = omega arith
to_int-fixed_digits (suc k) n h =
    rw
      (
        to_int-snoc 0 (fixed_digits k (n / 10)) (b'0' + n % 10),
        to_int-fixed_digits k (n / 10) (omega (arith, pow-suc 10 k)),
      )
      (omega arith)

abbrev pub IsDigit : ℕ → Type 0
IsDigit c = (b'0' ≤ c) × (c ≤ b'9')

pub fixed_digits-IsDigit : (count n : ℕ) → All IsDigit (fixed_digits count n)
unfolding fixed_digits
fixed_digits-IsDigit zero n = tt
fixed_digits-IsDigit (suc k) n =
    All-append IsDigit (fixed_digits k (n / 10)) _ (fixed_digits-IsDigit k (n / 10)) (omega arith)
