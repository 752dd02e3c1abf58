-- ===== src/Utf8/WellFormed.antt =====
-- The validator accepts exactly the encodings of sequences of scalar values.
use cloudevents_sdk_cpp.Base.{
  ℕ, zero, suc, ◌+◌, ◌-◌, ◌*◌, ◌%◌, ◌<◌, ◌≤◌, ◌≡◌, refl, ap, sym, ◌∙◌, arith, true, false, List, [],
  ◌∷◌, ◌++◌, Bytes, IsByte, All, ◌⊎◌, inl, inr, length, length-append, ◌↔◌, All-append_right,
}
use mathlib.Core.Bool.{false≢true}
use native.Mathlib.Decide.{dec_lt}
use cloudevents_sdk_cpp.Utf8.{valid_loop, is_valid_utf8, utf8_code_point_allowed}
use cloudevents_sdk_cpp.Utf8.Scalars.{
  IsScalar, encode_scalar, encode_scalars, round_lem, one_byte, two_bytes, three_bytes, four_bytes,
  encode_scalar_round,
}
use cloudevents_sdk_cpp.Utf8.Lead.{lead_length}

encode_scalar_length : (c : ℕ) → 0 < length (encode_scalar c)
unfolding encode_scalar
encode_scalar_length c = ground arith

length-encode_scalars :
    (c : ℕ) (cs : List ℕ)
    → length (encode_scalars (c ∷ cs)) ≡ length (encode_scalar c) + length (encode_scalars cs)
unfolding encode_scalars
length-encode_scalars c cs = length-append (encode_scalar c) (encode_scalars cs)

-- With a round for each byte, the validator accepts the encoding of any scalar values.
encode_scalars_valid :
    (fuel : ℕ) (cs : List ℕ)
    → All IsScalar cs
    → length (encode_scalars cs) ≤ fuel
    → valid_loop fuel (encode_scalars cs) ≡ true
unfolding encode_scalars
encode_scalars_valid fuel [] h k = unfold valid_loop in refl
encode_scalars_valid zero (c ∷ cs) h k =
    absurd (omega (arith, encode_scalar_length c, length-encode_scalars c cs))
encode_scalars_valid (suc fuel) (c ∷ cs) (hc, h) k =
    let fits : length (encode_scalars cs) ≤ fuel =
      omega (arith, encode_scalar_length c, length-encode_scalars c cs) in
    encode_scalar_round fuel c (encode_scalars cs) hc ∙ encode_scalars_valid fuel cs h fits

-- The first sequence of an accepted text.
record Begins (fuel : ℕ) (text : Bytes) : Type 0 where
  scalar : ℕ
  rest : Bytes
  is_scalar : IsScalar scalar
  splits : text ≡ encode_scalar scalar ++ rest
  rest_valid : valid_loop fuel rest ≡ true

module _ (fuel a : ℕ) (ha : IsByte a) where
  cut_short :
      (behind : Bytes)
      → (lead_length a ≡ 0) ⊎ (suc (length behind) < lead_length a)
      → valid_loop (suc fuel) (a ∷ behind) ≡ false
  cut_short behind h = round_lem fuel a behind ha ∙ ground arith

  abbrev Begun : Bytes → Type 0
  Begun behind = valid_loop (suc fuel) (a ∷ behind) ≡ true → Begins fuel (a ∷ behind)

  refuse :
      (behind : Bytes) → (lead_length a ≡ 0) ⊎ (suc (length behind) < lead_length a) → Begun behind
  refuse behind h e = absurd (false≢true (sym (cut_short behind h) ∙ e))

  Begins_one : (rest : Bytes) → a < 0x80 → Begun rest
  Begins_one rest h e = record {
    scalar = a;
    rest = rest;
    is_scalar = ground arith;
    splits = unfold encode_scalar in ground arith;
    rest_valid = sym (one_byte fuel a rest h) ∙ e;
  }

  Begins_two : (behind : Bytes) → All IsByte behind → 0xc0 ≤ a → a < 0xe0 → Begun behind
  Begins_two [] hb h k = refuse [] (inr (unfold lead_length in ground arith))
  Begins_two (b ∷ rest) (hb, _) h k = λ e.
      let facts = sym (two_bytes fuel a b rest h k hb) ∙ e in
      record {
        scalar = (a - 192) * 64 + b % 64;
        rest = rest;
        is_scalar = unfold utf8_code_point_allowed in ground arith;
        splits = unfold utf8_code_point_allowed encode_scalar in ground arith;
        rest_valid = unfold utf8_code_point_allowed in ground arith;
      }

  Begins_three : (behind : Bytes) → All IsByte behind → 0xe0 ≤ a → a < 0xf0 → Begun behind
  Begins_three [] hb h k = refuse [] (inr (unfold lead_length in ground arith))
  Begins_three (b ∷ []) hb h k = refuse (b ∷ []) (inr (unfold lead_length in ground arith))
  Begins_three (b ∷ c ∷ rest) (hb, (hc, _)) h k = λ e.
      let facts = sym (three_bytes fuel a b c rest h k hb hc) ∙ e in
      record {
        scalar = ((a - 224) * 64 + b % 64) * 64 + c % 64;
        rest = rest;
        is_scalar = unfold utf8_code_point_allowed in ground arith;
        splits = unfold utf8_code_point_allowed encode_scalar in ground arith;
        rest_valid = unfold utf8_code_point_allowed in ground arith;
      }

  Begins_four : (behind : Bytes) → All IsByte behind → 0xf0 ≤ a → a < 0xf8 → Begun behind
  Begins_four [] hb h k = refuse [] (inr (unfold lead_length in ground arith))
  Begins_four (b ∷ []) hb h k = refuse (b ∷ []) (inr (unfold lead_length in ground arith))
  Begins_four (b ∷ c ∷ []) hb h k = refuse (b ∷ c ∷ []) (inr (unfold lead_length in ground arith))
  Begins_four (b ∷ c ∷ d ∷ rest) (hb, (hc, (hd, _))) h k = λ e.
      let facts = sym (four_bytes fuel a b c d rest h k hb hc hd) ∙ e in
      record {
        scalar = (((a - 240) * 64 + b % 64) * 64 + c % 64) * 64 + d % 64;
        rest = rest;
        is_scalar = unfold utf8_code_point_allowed in ground arith;
        splits = unfold utf8_code_point_allowed encode_scalar in ground arith;
        rest_valid = unfold utf8_code_point_allowed in ground arith;
      }

  first_sequence : (behind : Bytes) → All IsByte behind → Begun behind
  first_sequence behind hb = elim (dec_lt a 0x80) [
    | yes one ↦ Begins_one behind one
    | no n1 ↦ elim (dec_lt a 0xc0) [
      | yes stray ↦ refuse behind (inl (unfold lead_length in ground arith))
      | no n2 ↦ elim (dec_lt a 0xe0) [
        | yes two ↦ Begins_two behind hb (omega arith) two
        | no n3 ↦ elim (dec_lt a 0xf0) [
          | yes three ↦ Begins_three behind hb (omega arith) three
          | no n4 ↦ elim (dec_lt a 0xf8) [
            | yes four ↦ Begins_four behind hb (omega arith) four
            | no n5 ↦ refuse behind (inl (unfold lead_length in ground arith))
          ]
        ]
      ]
    ]
  ]

valid_loop_scalars :
    (fuel : ℕ) (text : Bytes)
    → All IsByte text
    → valid_loop fuel text ≡ true
    → (cs : List ℕ) × All IsScalar cs × (text ≡ encode_scalars cs)
unfolding encode_scalars
valid_loop_scalars fuel [] h e = ([], tt, refl)
valid_loop_scalars zero (a ∷ text) h e = absurd (false≢true (unfold valid_loop in e))
valid_loop_scalars (suc fuel) (a ∷ text) (ha, h) e =
    let b = first_sequence fuel a ha text h e in
    let bytes : All IsByte (encode_scalar b.scalar ++ b.rest) = rw (← b.splits) (ha, h) in
    let (cs, hcs, same) =
      valid_loop_scalars fuel b.rest (All-append_right IsByte (encode_scalar b.scalar) b.rest bytes)
        b.rest_valid in
    (
      b.scalar ∷ cs,
      (b.is_scalar, hcs),
      b.splits ∙ ap (λ (t : Bytes). encode_scalar b.scalar ++ t) same,
    )

-- A byte string is accepted exactly when it is the UTF-8 encoding of some sequence of Unicode
-- scalar values: no overlong form, no surrogate, nothing above 0x10FFFF, nothing cut short.
pub is_valid_utf8_iff :
    (text : Bytes)
    → All IsByte text
    → (is_valid_utf8 text ≡ true) ↔ ((cs : List ℕ) × All IsScalar cs × (text ≡ encode_scalars cs))
unfolding is_valid_utf8
is_valid_utf8_iff text h = (
  valid_loop_scalars (length text) text h,
  λ p. rw p.2 (encode_scalars_valid (length (encode_scalars p.0)) p.0 p.1 (omega arith)),
)
