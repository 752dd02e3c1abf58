-- ===== src/Wire/Varint.antt =====
-- Varints: what the writer pushes, and that the reader takes it back and never overruns.
use cloudevents_sdk_cpp.Base.{
  ℕ, suc, ◌+◌, ◌-◌, ◌*◌, ◌/◌, ◌%◌, ◌^◌, ◌<◌, ◌≤◌, ◌≡◌, refl, ap, subst, ◌∙◌, arith, [], ◌∷◌, ◌++◌,
  Bytes, IsByte, All, length, ◌==◌, bit_and, bit_or, inl, inr, Bool-cases, ◌&&◌, ltb,
}
use cloudevents_sdk_cpp.Base.Bits.{every_below, agree_below, bit_and-mask, bit_or-shift_left}
use cloudevents_sdk_cpp.Errors.{Result, ok}
use cloudevents_sdk_cpp.Wire.{
  add_group, varint_loop, read_varint, varint_bytes, varint_shrinks, put_varint, max_varint_bytes,
}
use mathlib.Core.WellFounded.{Acc}
use mathlib.Core.Logic.{dite}
use cloudevents_sdk_cpp.Base.Order.{lt_wf}
use native.Mathlib.Decide.{dec_lt}
use native.Mathlib.Nat.{div-add-mod, pow-le-pow_right}
use native.Mathlib.Numerals.{towards_suc}

flag_table : (b : ℕ) → b < 256 → bit_and b 0x80 ≡ b / 128 * 128
unfolding every_below
flag_table = agree_below 256 (λ b. bit_and b 0x80) (λ b. b / 128 * 128) refl

group_byte : (v : ℕ) → bit_or (bit_and v 0x7f) 0x80 ≡ v % 128 + 128
group_byte v = rw (bit_and-mask 7 v) (bit_or-shift_left 7 1 (v % 128) (omega arith))

-- While the value so far is below the shift and the sum fits, a group is added with no carry.
add_group_lem :
    (value b index : ℕ)
    → value < 2 ^ (7 * index)
    → value + b % 128 * 2 ^ (7 * index) < 2 ^ 64
    → add_group value b index ≡ value + b % 128 * 2 ^ (7 * index)
unfolding add_group
add_group_lem value b index h fits =
    let e : b % 128 * 2 ^ (7 * index) % 2 ^ 64 ≡ b % 128 * 2 ^ (7 * index) = omega arith in
    rw (bit_and-mask 7 b, e) (bit_or-shift_left (7 * index) (b % 128) value h)

pow_seven : (i : ℕ) → 2 ^ (7 * (i + 1)) ≡ 128 * 2 ^ (7 * i)
pow_seven i = let e : 7 * (i + 1) ≡ 7 * i + 7 = omega arith in rw e (seven (7 * i))
  where
    seven : (s : ℕ) → 2 ^ (s + 7) ≡ 128 * 2 ^ s
    seven s = simp towards_suc (omega arith)

split_group : (w p : ℕ) → w * p ≡ w % 128 * p + w / 128 * (128 * p)
split_group w p = omega (arith, ap (λ (t : ℕ). t * p) (div-add-mod w 128))

-- The tenth byte holds one bit.
tenth : (index w : ℕ) → w * 2 ^ (7 * index) < 2 ^ 64 → index + 1 ≡ 10 → w ≤ 1
tenth index w h e =
    let i : index ≡ 9 = omega arith in let k : w * 2 ^ (7 * 9) < 2 ^ 64 = rw i at h in omega arith

module _ (index value w : ℕ) (rest : Bytes) (low : value < 2 ^ (7 * index))
    (fits : value + w * 2 ^ (7 * index) < 2 ^ 64) where
  last_byte : w ≤ 127 → varint_loop index value (w ∷ rest) ≡ ok (value + w * 2 ^ (7 * index), rest)
  unfolding varint_loop
  last_byte h =
      let e : w % 128 ≡ w = omega arith in
      rw (add_group_lem value w index low (rw e fits), flag_table w (omega arith), e)
        (ground (arith, tenth index w))

  inner_byte :
      127 < w
      → varint_loop index value ((w % 128 + 128) ∷ rest)
        ≡ varint_loop (index + 1) (value + w % 128 * 2 ^ (7 * index)) rest
  unfolding varint_loop
  inner_byte h =
      let e : (w % 128 + 128) % 128 ≡ w % 128 = omega arith in
      rw
        (
          add_group_lem value (w % 128 + 128) index low
              (rw e (omega (arith, split_group w (2 ^ (7 * index))))),
          flag_table (w % 128 + 128) (omega arith),
          e,
        )
        (ground (arith, tenth index w))

next_sum :
    (index value w : ℕ)
    → value + w % 128 * 2 ^ (7 * index) + w / 128 * 2 ^ (7 * (index + 1))
      ≡ value + w * 2 ^ (7 * index)
next_sum index value w = rw (pow_seven index) (omega (arith, split_group w (2 ^ (7 * index))))

next_low :
    (index value w : ℕ)
    → value < 2 ^ (7 * index)
    → value + w % 128 * 2 ^ (7 * index) < 2 ^ (7 * (index + 1))
next_low index value w low =
    rw (pow_seven index) (below_128 (w % 128) (2 ^ (7 * index)) value (omega arith) low)
  where
    below_128 : (q p v : ℕ) → q ≤ 127 → v < p → v + q * p < 128 * p
    below_128 q p v h k = grind arith

varint_loop-bytes :
    (w : ℕ) (smaller : Acc ◌<◌ w) (index value : ℕ) (rest : Bytes)
    → value < 2 ^ (7 * index)
    → value + w * 2 ^ (7 * index) < 2 ^ 64
    → varint_loop index value (varint_bytes w smaller ++ rest)
      ≡ ok (value + w * 2 ^ (7 * index), rest)
unfolding varint_bytes
varint_loop-bytes w (Acc.intro _ below) index value rest low fits =
    elim (dec_lt 127 w)
      as (λ d.
        varint_loop index value (
          dite d
            (λ more.
              bit_or (bit_and w 0x7f) 0x80
              ∷ varint_bytes (w / 2 ^ 7) (below (w / 2 ^ 7) (varint_shrinks w more)))
            (λ _. w ∷ [])
          ++ rest)
        ≡ ok (value + w * 2 ^ (7 * index), rest)) [
          | no few ↦ last_byte index value w rest low fits (omega arith)
          | yes more ↦
              let p : ℕ = 2 ^ (7 * index) in
              rw (group_byte w) (
                inner_byte index value w _ low fits more
                ∙ varint_loop-bytes (w / 128) (below (w / 128) (varint_shrinks w more)) (index + 1)
                    (value + w % 128 * p) rest (next_low index value w low)
                    (omega (arith, next_sum index value w))
                ∙ ap (λ (t : ℕ). ok (t, rest)) (next_sum index value w))
        ]

-- A 64-bit value is read back as it was written, and the bytes behind it are left.
pub read_varint-put_varint :
    (value : ℕ) (rest : Bytes)
    → value < 2 ^ 64
    → read_varint (put_varint [] value ++ rest) ≡ ok (value, rest)
unfolding read_varint put_varint
read_varint-put_varint value rest h =
    varint_loop-bytes value (lt_wf.apply value) 0 0 rest (omega arith) (omega arith)
    ∙ ap (λ (t : ℕ). ok (t, rest)) (omega arith)

-- The tenth byte is refused unless it is 0 or 1, so no group leaves the 64 bits.
sum_fits :
    (index value b : ℕ)
    → index ≤ 9
    → value < 2 ^ (7 * index)
    → (index + 1 ≡ 10 → b ≤ 1)
    → value + b % 128 * 2 ^ (7 * index) < 2 ^ 64
sum_fits index value b hi low last = elim (dec_lt index 9) [
  | yes early ↦ omega (
    arith,
    next_low index value b low,
    pow-le-pow_right {n = 2} (omega arith) {i = 7 * (index + 1)} {j = 63} (omega arith),
  )
  | no tail ↦
      let i : index ≡ 9 = omega arith in
      let one : b ≤ 1 = last (omega arith) in
      let low' : value < 2 ^ (7 * 9) = rw i at low in rw i (omega arith)
]

-- What a successful read took off the front, and what it returned.
pub record Took (src rest : Bytes) (most : ℕ) : Type 0 where
  pub used : Bytes
  pub splits : src ≡ used ++ rest
  pub some_used : 0 < length used
  pub few : length used ≤ most

Took-one : (b : ℕ) (src rest : Bytes) (most : ℕ) → 0 < most → src ≡ rest → Took (b ∷ src) rest most
Took-one b src rest most h e = record {
  used = b ∷ [];
  splits = ap (λ (t : Bytes). b ∷ t) e;
  some_used = omega arith;
  few = omega arith;
}

Took-more :
    (b : ℕ) {src rest : Bytes} {most : ℕ} → Took src rest most → Took (b ∷ src) rest (suc most)
Took-more b t = record {
  used = b ∷ t.used;
  splits = ap (λ (s : Bytes). b ∷ s) t.splits;
  some_used = omega arith;
  few = omega (arith, t.few);
}

varint_loop_bounds :
    (src : Bytes) (index value v : ℕ) (rest : Bytes)
    → index ≤ 9
    → value < 2 ^ (7 * index)
    → All IsByte src
    → varint_loop index value src ≡ ok (v, rest)
    → (v < 2 ^ 64) × Took src rest (10 - index)
unfolding varint_loop
varint_loop_bounds [] index value v rest hi low h e = cc
varint_loop_bounds (b ∷ src) index value v rest hi low (hb, h) e =
    elim (Bool-cases (index + 1 == 10 && ltb 1 b)) [
      | inl wide ↦ cc (rw wide at e)
      | inr fine ↦
          let fits = sum_fits index value b hi low (λ k. ground arith) in
          let e' = rw (fine, add_group_lem value b index low fits) at e in
          elim (Bool-cases (bit_and b 0x80 == 0)) [
            | inl done ↦
                let p : ◌≡◌ {A = Result (ℕ × Bytes)} (ok (value + b % 128 * 2 ^ (7 * index), src))
                    (ok (v, rest)) =
                  rw done at e' in
                (ground arith, Took-one b src rest (10 - index) (omega arith) cc)
            | inr more ↦
                let k : index ≤ 8 = ground (arith, flag_table b hb) in
                let (u, t) =
                  varint_loop_bounds src (index + 1) (value + b % 128 * 2 ^ (7 * index)) v rest
                    (omega arith) (next_low index value b low) h (rw more at e') in
                let n : suc (10 - (index + 1)) ≡ 10 - index = omega arith in
                (u, subst (Took (b ∷ src) rest) n (Took-more b t))
          ]
    ]

-- A successful read returns a 64-bit value and takes between one and ten bytes off the front.
pub read_varint_bounds :
    (src : Bytes) (v : ℕ) (rest : Bytes)
    → All IsByte src
    → read_varint src ≡ ok (v, rest)
    → (v < 2 ^ 64) × Took src rest max_varint_bytes
unfolding read_varint
read_varint_bounds src v rest h e =
    varint_loop_bounds src 0 0 v rest (omega arith) (omega arith) h e
