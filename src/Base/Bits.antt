-- ===== src/Base/Bits.antt =====
-- `&` with a low mask and `|` of disjoint fields, as arithmetic on the native numbers.
use cloudevents_sdk_cpp.Base.Tests.{◌==◌, ==_iff}
use mathlib.Core.Bool.{Bool, true, ◌&&◌}
use mathlib.Core.Path.{◌∙◌, ap, refl, ◌≡◌}
use native.Mathlib.Omega.{arith}
use native.Mathlib.Nat.{add-suc, add-zero, div-add-mod', mod-lt, one-le-pow, pow-suc}
use Prim.Native.Nat.{
  bit_and, bit_and-bitwise, bit_or, bit_or-bitwise, digits, max, min, suc, zero, ◌%◌, ◌*◌, ◌+◌, ◌-◌,
  ◌/◌, ◌<◌, ◌^◌, ◌≤◌, ℕ,
}

-- A table of the first `k` numbers, computed from the top.
unfoldable pub every_below : (ℕ → Bool) → ℕ → Bool
every_below test zero = true
every_below test (suc k) = every_below test k && test k

pub every_below_lem :
    (test : ℕ → Bool) (k y : ℕ) → y < k → every_below test k ≡ true → test y ≡ true
unfolding every_below
every_below_lem test zero y below table = absurd (omega arith)
every_below_lem test (suc k) y below table = ground (arith, every_below_lem test k y)

-- Two functions that agree by evaluation on every number below `n`.
pub agree_below :
    (n : ℕ) (f g : ℕ → ℕ) → every_below (λ x. f x == g x) n ≡ true → (x : ℕ) → x < n → f x ≡ g x
agree_below n f g h x lt = (==_iff (f x) (g x)).0 (every_below_lem (λ y. f y == g y) n x lt h)

-- The recursion that the native operations stand for does not depend on its fuel.
module _ (z : ℕ → ℕ) (f : ℕ → ℕ → ℕ) where
  digits-more : (n a b : ℕ) → a ≤ n → digits z f (suc n) a b ≡ digits z f n a b
  digits-more zero zero b h = refl
  digits-more zero (suc a) b h = absurd (omega arith)
  digits-more (suc n) zero b h = refl
  digits-more (suc n) (suc a) b h =
      ap (λ (t : ℕ). t * 2 + f (suc a % 2) (b % 2))
        (digits-more n (suc a / 2) (b / 2) (omega arith))

  digits-fuel : (k n a b : ℕ) → a ≤ n → digits z f (n + k) a b ≡ digits z f n a b
  digits-fuel zero n a b h = rw add-zero
  digits-fuel (suc k) n a b h =
      rw (add-suc n k) (digits-more (n + k) a b (omega arith) ∙ digits-fuel k n a b h)

  digits_half :
      (a b : ℕ)
      → digits z f (suc a) (suc a) b
        ≡ digits z f (suc a / 2) (suc a / 2) (b / 2) * 2 + f (suc a % 2) (b % 2)
  digits_half a b =
      let e : suc a / 2 + (a - suc a / 2) ≡ a = omega arith in
      ap (λ (t : ℕ). t * 2 + f (suc a % 2) (b % 2))
        (rw e at (digits-fuel (a - suc a / 2) (suc a / 2) (suc a / 2) (b / 2) (omega arith)))

bit_or_half : (a b : ℕ) → bit_or a b ≡ bit_or (a / 2) (b / 2) * 2 + max (a % 2) (b % 2)
bit_or_half zero b = omega (arith, bit_or-bitwise 0 b, bit_or-bitwise 0 (b / 2))
bit_or_half (suc a) b =
    rw (bit_or-bitwise (suc a) b, bit_or-bitwise (suc a / 2) (b / 2)) (digits_half (λ y. y) max a b)

bit_and_half : (a b : ℕ) → bit_and a b ≡ bit_and (a / 2) (b / 2) * 2 + min (a % 2) (b % 2)
bit_and_half zero b = omega (arith, bit_and-bitwise 0 b, bit_and-bitwise 0 (b / 2))
bit_and_half (suc a) b =
    rw (bit_and-bitwise (suc a) b, bit_and-bitwise (suc a / 2) (b / 2))
      (digits_half (λ y. 0) min a b)

bit_or-zero : (n a : ℕ) → a ≤ n → bit_or a 0 ≡ a
bit_or-zero n zero h = refl
bit_or-zero zero (suc a) h = absurd (omega arith)
bit_or-zero (suc n) (suc a) h =
    omega (arith, bit_or_half (suc a) 0, bit_or-zero n (suc a / 2) (omega arith))

bit_and-zero : (n a : ℕ) → a ≤ n → bit_and a 0 ≡ 0
bit_and-zero n zero h = refl
bit_and-zero zero (suc a) h = absurd (omega arith)
bit_and-zero (suc n) (suc a) h =
    omega (arith, bit_and_half (suc a) 0, bit_and-zero n (suc a / 2) (omega arith))

pub pow_double : (q k : ℕ) → q * 2 ^ suc k ≡ 2 * (q * 2 ^ k)
pow_double q k = omega (arith, ap (λ (t : ℕ). q * t) (pow-suc 2 k))

-- `(q << k) | r` is a sum when `r` has at most `k` bits.
pub bit_or-shift : (k q r : ℕ) → r < 2 ^ k → bit_or (q * 2 ^ k) r ≡ q * 2 ^ k + r
bit_or-shift zero q r h = ground (arith, bit_or-zero q q (omega arith))
bit_or-shift (suc k) q r h = omega (
  arith,
  bit_or_half (q * 2 ^ suc k) r,
  pow_double q k,
  pow_double 1 k,
  rw (← half) at (bit_or-shift k q (r / 2) (omega (arith, pow_double 1 k))),
)
  where
    half : q * 2 ^ suc k / 2 ≡ q * 2 ^ k
    half = omega (arith, pow_double q k)

bit_and-low : (k q r : ℕ) → r < 2 ^ k → bit_and (q * 2 ^ k + r) (2 ^ k - 1) ≡ r
bit_and-low zero q r h = omega (arith, bit_and-zero (q * 1 + r) (q * 1 + r) (omega arith))
bit_and-low (suc k) q r h = omega (
  arith,
  bit_and_half (q * 2 ^ suc k + r) (2 ^ suc k - 1),
  rw (← low, ← mask) at (bit_and-low k q (r / 2) (omega (arith, pow_double 1 k))),
  pow_double 1 k,
  pow_double q k,
  one-le-pow k 2 (omega arith),
)
  where
    low : (q * 2 ^ suc k + r) / 2 ≡ q * 2 ^ k + r / 2
    low = omega (arith, pow_double q k)

    mask : (2 ^ suc k - 1) / 2 ≡ 2 ^ k - 1
    mask = omega (arith, pow_double 1 k, one-le-pow k 2 (omega arith))

-- `x & (2 ^ k - 1)` is the remainder.
pub bit_and-mask : (k x : ℕ) → bit_and x (2 ^ k - 1) ≡ x % 2 ^ k
bit_and-mask k x =
    let P : ℕ = 2 ^ k in
    rw (div-add-mod' x P) at
      (bit_and-low k (x / P) (x % P) (mod-lt x (one-le-pow k 2 (omega arith))))

-- `r | (q << k)`, with the low field on the left.
pub bit_or-shift_left : (k q r : ℕ) → r < 2 ^ k → bit_or r (q * 2 ^ k) ≡ r + q * 2 ^ k
bit_or-shift_left zero q r h =
    let e : r ≡ 0 = omega arith in rw e (bit_or-bitwise 0 (q * 2 ^ 0) ∙ omega arith)
bit_or-shift_left (suc k) q r h = omega (
  arith,
  bit_or_half r (q * 2 ^ suc k),
  pow_double q k,
  pow_double 1 k,
  rw (← half) at (bit_or-shift_left k q (r / 2) (omega (arith, pow_double 1 k))),
)
  where
    half : q * 2 ^ suc k / 2 ≡ q * 2 ^ k
    half = omega (arith, pow_double q k)
