-- ===== src/Base/Words.antt =====
-- 64-bit integers in two's complement: a word is a number below 2 ^ 64, and each operation wraps.
use cloudevents_sdk_cpp.Base.Tests.{ltb}
use Prim.Native.Nat.{ℕ, ◌+◌, ◌-◌, ◌*◌, ◌%◌, ◌^◌}
use mathlib.Core.Bool.{Bool}

abbrev pub add64 : ℕ → ℕ → ℕ
add64 a b = (a + b) % 2 ^ 64

abbrev pub neg64 : ℕ → ℕ
neg64 a = (2 ^ 64 - a % 2 ^ 64) % 2 ^ 64

abbrev pub sub64 : ℕ → ℕ → ℕ
sub64 a b = (a + (2 ^ 64 - b % 2 ^ 64)) % 2 ^ 64

abbrev pub mul64 : ℕ → ℕ → ℕ
mul64 a b = a * b % 2 ^ 64

-- The signed value plus 2 ^ 63, so that the order of the signed values is the order of these.
abbrev pub biased : ℕ → ℕ
biased a = (a + 2 ^ 63) % 2 ^ 64

abbrev pub less64 : ℕ → ℕ → Bool
less64 a b = ltb (biased a) (biased b)
