-- ===== src/Timestamp/Instant.antt =====
-- The local day and time of an instant, and the instant made of them, on 64-bit words.
use cloudevents_sdk_cpp.Base.{ℕ, ◌+◌, ◌-◌, ◌*◌, ◌/◌, ◌%◌, ◌^◌, ◌≤◌, ◌<◌, ◌≡◌, ◌⊎◌, arith, inl, inr}
use cloudevents_sdk_cpp.Base.Words.{add64, mul64, biased}
use cloudevents_sdk_cpp.Timestamp.{
  since_epoch, epoch_day, first_day, from_first_day, nanoseconds_per_day, nanoseconds_per_second,
  representable,
}

-- `local` is that many nanoseconds behind `utc`, or before it, and neither wraps.
abbrev pub IsShifted : ℕ → ℕ → ℕ → Type 0
IsShifted utc offset local =
    ((offset < 1440) × (biased local ≡ biased utc + offset * (60 * 10 ^ 9)))
    ⊎ ((2 ^ 64 - 1440 < offset)
        × (offset < 2 ^ 64)
        × (biased local + (2 ^ 64 - offset) * (60 * 10 ^ 9) ≡ biased utc))

abbrev pub day_of_local : ℕ → ℕ
day_of_local local = from_first_day local / nanoseconds_per_day + (epoch_day - first_day)

abbrev pub seconds_of_local : ℕ → ℕ
seconds_of_local local = from_first_day local % nanoseconds_per_day / 10 ^ 9

pub since_epoch-local :
    (utc offset local : ℕ)
    → utc < 2 ^ 64
    → IsShifted utc offset local
    → add64
        (mul64
          (since_epoch (day_of_local local) (seconds_of_local local) offset)
          nanoseconds_per_second)
        (from_first_day local % nanoseconds_per_day % 10 ^ 9)
      ≡ utc
unfolding since_epoch
since_epoch-local utc offset local h (inl (a, b)) = omega arith
since_epoch-local utc offset local h (inr (a, b, c)) = omega arith

-- the instants that `parse_timestamp` takes
abbrev pub IsRepresentable : ℕ → Type 0
IsRepresentable utc =
    (utc < 2 ^ 64)
    × (2 ^ 63 - representable * 10 ^ 9 ≤ biased utc)
    × (biased utc < 2 ^ 63 + (representable + 1) * 10 ^ 9)

pub since_epoch_range :
    (utc offset local : ℕ)
    → IsRepresentable utc
    → IsShifted utc offset local
    → (biased (since_epoch (day_of_local local) (seconds_of_local local) offset)
        ≤ 2 ^ 63 + representable)
      × (2 ^ 63 - representable
          ≤ biased (since_epoch (day_of_local local) (seconds_of_local local) offset))
unfolding since_epoch
since_epoch_range utc offset local h (inl (a, b)) = (omega arith, omega arith)
since_epoch_range utc offset local h (inr (a, b, c)) = (omega arith, omega arith)

-- The sum of the instant and its offset, in nanoseconds, does not overflow.
abbrev pub HasLocal : ℕ → ℕ → Type 0
HasLocal utc offset =
    ((offset < 1440) × (biased utc + offset * (60 * 10 ^ 9) < 2 ^ 64))
    ⊎ ((2 ^ 64 - 1440 < offset)
        × (offset < 2 ^ 64)
        × ((2 ^ 64 - offset) * (60 * 10 ^ 9) ≤ biased utc))

pub local-IsShifted :
    (utc offset : ℕ)
    → utc < 2 ^ 64
    → HasLocal utc offset
    → IsShifted utc offset (add64 utc (mul64 offset (60 * 10 ^ 9)))
local-IsShifted utc offset h (inl (a, b)) = inl (a, omega arith)
local-IsShifted utc offset h (inr (a, b, c)) = inr (a, b, omega arith)

pub nanoseconds-local : (local : ℕ) → from_first_day local % nanoseconds_per_day % 10 ^ 9 < 10 ^ 9
nanoseconds-local local = omega arith

pub day_of_local_bounds :
    (local : ℕ) → (600000 ≤ day_of_local local) × (day_of_local local < 900000)
day_of_local_bounds local = (omega arith, omega arith)
