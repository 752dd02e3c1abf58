-- ===== src/Utf8/Scalars.antt =====
-- Well-formed UTF-8 as the encoding of a sequence of Unicode scalar values.
use cloudevents_sdk_cpp.Base.{
  ℕ, suc, ◌+◌, ◌-◌, ◌*◌, ◌/◌, ◌%◌, ◌<◌, ◌≤◌, ◌≡◌, refl, ap, ◌∙◌, arith, some, List, [], ◌∷◌, ◌++◌,
  Bytes, IsByte, ltb, within, if◌then◌else◌, ◌⊎◌, inl, inr, Bool-cases, ltb→lt, ◌&&◌,
}
use cloudevents_sdk_cpp.Utf8.{
  Utf8Lead, continuations, sequence, valid_loop, utf8_code_point_allowed,
}
use cloudevents_sdk_cpp.Utf8.Lead.{
  lead_length, lead_payload, read_utf8_lead_lem, continuations_step,
}

abbrev pub IsScalar : ℕ → Type 0
IsScalar c = (c < 0x110000) × ((c < 0xd800) ⊎ (0xdfff < c))

-- The encoding of one scalar value, from RFC 3629.
unfoldable pub encode_scalar : ℕ → Bytes
encode_scalar c =
    if ltb c 0x80
    then c ∷ []
    else if ltb c 0x800
    then (0xc0 + c / 64) ∷ (0x80 + c % 64) ∷ []
    else if ltb c 0x10000
    then (0xe0 + c / 4096) ∷ (0x80 + c / 64 % 64) ∷ (0x80 + c % 64) ∷ []
    else (0xf0 + c / 262144) ∷ (0x80 + c / 4096 % 64) ∷ (0x80 + c / 64 % 64) ∷ (0x80 + c % 64) ∷ []

unfoldable pub encode_scalars : List ℕ → Bytes
encode_scalars [] = []
encode_scalars (c ∷ cs) = encode_scalar c ++ encode_scalars cs

-- One round of the loop with the lead byte read.
pub round_lem :
    (fuel a : ℕ) (behind : Bytes)
    → IsByte a
    → valid_loop (suc fuel) (a ∷ behind)
      ≡ sequence
          (record { length = lead_length a; payload = lead_payload a })
          behind
          (valid_loop fuel)
unfolding valid_loop
round_lem fuel a behind h =
    ap (λ (l : Utf8Lead). sequence l behind (valid_loop fuel)) (read_utf8_lead_lem a h)

continuations-nil : (code : ℕ) → continuations code [] ≡ some code
unfolding continuations
continuations-nil code = refl

-- What a round checks, for each length of a sequence.
pub one_byte :
    (fuel a : ℕ) (rest : Bytes) → a < 0x80 → valid_loop (suc fuel) (a ∷ rest) ≡ valid_loop fuel rest
one_byte fuel a rest h =
    let l : lead_length a ≡ 1 = unfold lead_length in ground arith in
    round_lem fuel a rest (omega arith) ∙ rw (l, continuations-nil) (ground arith)

pub two_bytes :
    (fuel a b : ℕ) (rest : Bytes)
    → 0xc0 ≤ a
    → a < 0xe0
    → IsByte b
    → valid_loop (suc fuel) (a ∷ b ∷ rest) ≡ (
        within 0x80 0xbf b
        && utf8_code_point_allowed 2 ((a - 192) * 64 + b % 64)
        && valid_loop fuel rest)
two_bytes fuel a b rest h k hb =
    let l : lead_length a ≡ 2 = unfold lead_length in ground arith in
    let p : lead_payload a ≡ a - 192 = unfold lead_payload in ground arith in
    round_lem fuel a (b ∷ rest) (omega arith)
    ∙ rw (l, p, continuations_step (a - 192) b [] hb (omega arith), continuations-nil)
        (ground arith)

pub three_bytes :
    (fuel a b c : ℕ) (rest : Bytes)
    → 0xe0 ≤ a
    → a < 0xf0
    → IsByte b
    → IsByte c
    → valid_loop (suc fuel) (a ∷ b ∷ c ∷ rest) ≡ (
        within 0x80 0xbf b
        && within 0x80 0xbf c
        && utf8_code_point_allowed 3 (((a - 224) * 64 + b % 64) * 64 + c % 64)
        && valid_loop fuel rest)
three_bytes fuel a b c rest h k hb hc =
    let l : lead_length a ≡ 3 = unfold lead_length in ground arith in
    let p : lead_payload a ≡ a - 224 = unfold lead_payload in ground arith in
    round_lem fuel a (b ∷ c ∷ rest) (omega arith)
    ∙ rw
        (
          l,
          p,
          continuations_step (a - 224) b (c ∷ []) hb (omega arith),
          continuations_step ((a - 224) * 64 + b % 64) c [] hc (omega arith),
          continuations-nil,
        )
        (ground arith)

pub four_bytes :
    (fuel a b c d : ℕ) (rest : Bytes)
    → 0xf0 ≤ a
    → a < 0xf8
    → IsByte b
    → IsByte c
    → IsByte d
    → valid_loop (suc fuel) (a ∷ b ∷ c ∷ d ∷ rest) ≡ (
        within 0x80 0xbf b
        && within 0x80 0xbf c
        && within 0x80 0xbf d
        && utf8_code_point_allowed 4 ((((a - 240) * 64 + b % 64) * 64 + c % 64) * 64 + d % 64)
        && valid_loop fuel rest)
four_bytes fuel a b c d rest h k hb hc hd =
    let l : lead_length a ≡ 4 = unfold lead_length in ground arith in
    let p : lead_payload a ≡ a - 240 = unfold lead_payload in ground arith in
    round_lem fuel a (b ∷ c ∷ d ∷ rest) (omega arith)
    ∙ rw
        (
          l,
          p,
          continuations_step (a - 240) b (c ∷ d ∷ []) hb (omega arith),
          continuations_step ((a - 240) * 64 + b % 64) c (d ∷ []) hc (omega arith),
          continuations_step (((a - 240) * 64 + b % 64) * 64 + c % 64) d [] hd (omega arith),
          continuations-nil,
        )
        (ground arith)

-- The encoding of a scalar value takes one round.
pub encode_scalar_round :
    (fuel c : ℕ) (rest : Bytes)
    → IsScalar c
    → valid_loop (suc fuel) (encode_scalar c ++ rest) ≡ valid_loop fuel rest
unfolding encode_scalar utf8_code_point_allowed
encode_scalar_round fuel c rest h = elim (Bool-cases (ltb c 0x80)) [
  | inl e ↦ rw e (one_byte fuel c rest (ltb→lt _ _ e))
  | inr e ↦ elim (Bool-cases (ltb c 0x800)) [
    | inl f ↦ rw (e, f) (ground (arith, two_bytes fuel (0xc0 + c / 64) (0x80 + c % 64) rest))
    | inr f ↦ elim (Bool-cases (ltb c 0x10000)) [
      | inl g ↦
          rw (e, f, g)
            (ground
              (arith, three_bytes fuel (0xe0 + c / 4096) (0x80 + c / 64 % 64) (0x80 + c % 64) rest))
      | inr g ↦
          rw (e, f, g)
            (ground (
              arith,
              four_bytes fuel (0xf0 + c / 262144) (0x80 + c / 4096 % 64) (0x80 + c / 64 % 64)
                  (0x80 + c % 64) rest,
            ))
    ]
  ]
]
