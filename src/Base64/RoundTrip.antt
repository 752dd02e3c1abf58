-- ===== src/Base64/RoundTrip.antt =====
-- What the encoder writes, in plain arithmetic, and that the decoder reads it back.
use cloudevents_sdk_cpp.Base.{
  ℕ, ◌+◌, ◌*◌, ◌/◌, ◌%◌, ◌^◌, ◌<◌, ◌≤◌, ◌≡◌, ◌≢◌, refl, ◌∙◌, ap, sym, arith, [], ◌∷◌, ◌++◌, Bytes,
  IsByte, All, ◌==◌, if◌then◌else◌, bit_and, length, length-append,
}
use cloudevents_sdk_cpp.Base.Bits.{bit_and-mask}
use cloudevents_sdk_cpp.Errors.{Result, ok, fail, invalid_base64, ◌>>=◌, bind_assoc}
use cloudevents_sdk_cpp.Base64.{
  base64_value, base64_character, not_in_alphabet, shl32, next_accumulator, base64_encode,
  decode_loop, add_front, strip_padding, decode_body, base64_decode,
}
use cloudevents_sdk_cpp.Base64.Quantum.{
  base64_value-character, base64_character_mod, pack_one, pack_two, pack_three,
  next_accumulator_lem,
}

-- The sextets of each quantum as characters, with no padding.
unfoldable pub unpadded : Bytes → Bytes
unpadded [] = []
unpadded (a ∷ []) = base64_character (a / 4) ∷ base64_character (a % 4 * 16) ∷ []
unpadded (a ∷ b ∷ []) =
    base64_character (a / 4)
    ∷ base64_character (a % 4 * 16 + b / 16)
    ∷ base64_character (b % 16 * 4)
    ∷ []
unpadded (a ∷ b ∷ c ∷ rest) =
    base64_character (a / 4)
    ∷ base64_character (a % 4 * 16 + b / 16)
    ∷ base64_character (b % 16 * 4 + c / 64)
    ∷ base64_character (c % 64)
    ∷ unpadded rest

unfoldable pub padding_of : Bytes → Bytes
padding_of [] = []
padding_of (a ∷ []) = b'=' ∷ b'=' ∷ []
padding_of (a ∷ b ∷ []) = b'=' ∷ []
padding_of (a ∷ b ∷ c ∷ rest) = padding_of rest

emit_lem : (x v : ℕ) → x % 64 ≡ v → base64_character x ≡ base64_character v
emit_lem x v h = base64_character_mod x ∙ ap base64_character h

pub base64_encode-unpadded :
    (bs : Bytes) → All IsByte bs → base64_encode bs ≡ unpadded bs ++ padding_of bs
unfolding base64_encode unpadded padding_of
base64_encode-unpadded [] h = refl
base64_encode-unpadded (a ∷ []) (ha, _) = cc (
  pack_one a 0 0 ha (omega arith) (omega arith),
  emit_lem (shl32 a 4 / 2 ^ 6) (a / 4) (omega arith),
  emit_lem (shl32 a 4 / 2 ^ 0) (a % 4 * 16) (omega arith),
)
base64_encode-unpadded (a ∷ b ∷ []) (ha, (hb, _)) =
    let g : ℕ = a * 256 + b in
    cc (
      pack_two a b 0 ha hb (omega arith),
      emit_lem (shl32 g 2 / 2 ^ 12) (a / 4) (omega arith),
      emit_lem (shl32 g 2 / 2 ^ 6) (a % 4 * 16 + b / 16) (omega arith),
      emit_lem (shl32 g 2 / 2 ^ 0) (b % 16 * 4) (omega arith),
    )
base64_encode-unpadded (a ∷ b ∷ c ∷ rest) (ha, (hb, (hc, h))) =
    let g : ℕ = (a * 256 + b) * 256 + c in
    cc (
      pack_three a b c ha hb hc,
      emit_lem (g / 2 ^ 18) (a / 4) (omega arith),
      emit_lem (g / 2 ^ 12) (a % 4 * 16 + b / 16) (omega arith),
      emit_lem (g / 2 ^ 6) (b % 16 * 4 + c / 64) (omega arith),
      emit_lem (g / 2 ^ 0) (c % 64) (omega arith),
      base64_encode-unpadded rest h,
    )

-- One round of the decoder on a character of the alphabet, at each number of bits left over.
module _ (w : Bytes) (acc v : ℕ) (hv : v < 64) (body : Bytes) where
  round_zero :
      decode_loop w acc 0 (base64_character v ∷ body)
      ≡ decode_loop w (next_accumulator acc v) 6 body
  unfolding decode_loop
  round_zero = ground (arith, base64_value-character v hv)

  abbrev push_octet : ℕ → Result Bytes → Result Bytes
  push_octet bits r = do out ← r; ok (bit_and (next_accumulator acc v / 2 ^ bits) 0xff ∷ out)

  round_two :
      decode_loop w acc 2 (base64_character v ∷ body)
      ≡ push_octet 0 (decode_loop w (next_accumulator acc v) 0 body)
  unfolding decode_loop
  round_two = ground (arith, base64_value-character v hv)

  round_four :
      decode_loop w acc 4 (base64_character v ∷ body)
      ≡ push_octet 2 (decode_loop w (next_accumulator acc v) 2 body)
  unfolding decode_loop
  round_four = ground (arith, base64_value-character v hv)

  round_six :
      decode_loop w acc 6 (base64_character v ∷ body)
      ≡ push_octet 4 (decode_loop w (next_accumulator acc v) 4 body)
  unfolding decode_loop
  round_six = ground (arith, base64_value-character v hv)

-- The octet that two sextets in a row give, with `k` bits of the second one left over.
module _ (acc u v : ℕ) (hu : u < 64) (hv : v < 64) where
  octet_four :
      bit_and (next_accumulator (next_accumulator acc u) v / 2 ^ 4) 0xff ≡ (u * 64 + v) / 16
  octet_four =
      rw (bit_and-mask 8 _, next_accumulator_lem _ v hv, next_accumulator_lem acc u hu)
        (omega arith)

  octet_two :
      bit_and (next_accumulator (next_accumulator acc u) v / 2 ^ 2) 0xff ≡ (u % 16 * 64 + v) / 4
  octet_two =
      rw (bit_and-mask 8 _, next_accumulator_lem _ v hv, next_accumulator_lem acc u hu)
        (omega arith)

  octet_zero : bit_and (next_accumulator (next_accumulator acc u) v / 2 ^ 0) 0xff ≡ u % 4 * 64 + v
  octet_zero =
      rw (bit_and-mask 8 _, next_accumulator_lem _ v hv, next_accumulator_lem acc u hu)
        (omega arith)

-- Two, three and four characters of the alphabet behind a whole number of quanta.
module _ (w : Bytes) (acc s t u v : ℕ) (hs : s < 64) (ht : t < 64) (hu : u < 64) (hv : v < 64) where
  abbrev acc_two : ℕ
  acc_two = next_accumulator (next_accumulator acc s) t

  pub decode_two :
      (body : Bytes)
      → decode_loop w acc 0 (base64_character s ∷ base64_character t ∷ body)
        ≡ (decode_loop w acc_two 4 body >>= λ out. ok ((s * 64 + t) / 16 ∷ out))
  decode_two body =
      round_zero w acc s hs (base64_character t ∷ body)
      ∙ round_six w (next_accumulator acc s) t ht body
      ∙ rw (octet_four acc s t hs ht)

  pub decode_three :
      (body : Bytes)
      → decode_loop w acc 0 (base64_character s ∷ base64_character t ∷ base64_character u ∷ body)
        ≡ (decode_loop w (next_accumulator acc_two u) 2 body >>= λ out.
            ok ((s * 64 + t) / 16 ∷ (t % 16 * 64 + u) / 4 ∷ out))
  decode_three body =
      decode_two (base64_character u ∷ body)
      ∙ rw (round_four w acc_two u hu body, octet_two (next_accumulator acc s) t u ht hu)
          (bind_assoc (decode_loop w (next_accumulator acc_two u) 2 body) _ _)

  pub decode_four :
      (body : Bytes)
      → decode_loop w acc 0
          (base64_character s ∷ base64_character t ∷ base64_character u ∷ base64_character v ∷ body)
        ≡ (decode_loop w (next_accumulator (next_accumulator acc_two u) v) 0 body >>= λ out.
            ok ((s * 64 + t) / 16 ∷ (t % 16 * 64 + u) / 4 ∷ (u % 4 * 64 + v) ∷ out))
  decode_four body =
      decode_three (base64_character v ∷ body)
      ∙ rw (round_two w (next_accumulator acc_two u) v hv body, octet_zero acc_two u v hu hv)
          (bind_assoc (decode_loop w (next_accumulator (next_accumulator acc_two u) v) 0 body) _ _)

-- The check behind the loop, at each number of bits left over.
module _ (w : Bytes) (acc v : ℕ) (hv : v < 64) where
  pub end_four :
      decode_loop w (next_accumulator acc v) 4 []
      ≡ (if v % 16 == 0 then ok [] else fail invalid_base64 "unused trailing bits are not zero" w)
  unfolding decode_loop
  end_four = rw (bit_and-mask 4 _, next_accumulator_lem acc v hv) (ground arith)

  pub end_two :
      decode_loop w (next_accumulator acc v) 2 []
      ≡ (if v % 4 == 0 then ok [] else fail invalid_base64 "unused trailing bits are not zero" w)
  unfolding decode_loop
  end_two = rw (bit_and-mask 2 _, next_accumulator_lem acc v hv) (ground arith)

decode_loop-unpadded :
    (w : Bytes) (acc : ℕ) (bs : Bytes) → All IsByte bs → decode_loop w acc 0 (unpadded bs) ≡ ok bs
unfolding unpadded
decode_loop-unpadded w acc [] h = unfold decode_loop in refl
decode_loop-unpadded w acc (a ∷ []) (ha, _) =
    let t : ℕ = a % 4 * 16 in
    ground (
      arith,
      decode_two w acc (a / 4) t 0 0 (omega arith) (omega arith) (omega arith) (omega arith) [],
      end_four w (next_accumulator acc (a / 4)) t (omega arith),
    )
decode_loop-unpadded w acc (a ∷ b ∷ []) (ha, (hb, _)) =
    let t : ℕ = a % 4 * 16 + b / 16 in
    let u : ℕ = b % 16 * 4 in
    ground (
      arith,
      decode_three w acc (a / 4) t u 0 (omega arith) (omega arith) (omega arith) (omega arith) [],
      end_two w (next_accumulator (next_accumulator acc (a / 4)) t) u (omega arith),
    )
decode_loop-unpadded w acc (a ∷ b ∷ c ∷ rest) (ha, (hb, (hc, h))) =
    let t : ℕ = a % 4 * 16 + b / 16 in
    let u : ℕ = b % 16 * 4 + c / 64 in
    let acc' : ℕ =
      next_accumulator (next_accumulator (next_accumulator (next_accumulator acc (a / 4)) t) u)
        (c % 64) in
    ground (
      arith,
      decode_four w acc (a / 4) t u (c % 64) (omega arith) (omega arith) (omega arith) (omega arith)
          (unpadded rest),
      decode_loop-unpadded w acc' rest h,
    )

value_pad : base64_value b'=' ≡ not_in_alphabet
unfolding base64_value
value_pad = refl

-- The alphabet has no `=`, so the padding alone is stripped.
character-ne-pad : (v : ℕ) → base64_character v ≢ b'='
character-ne-pad v h = omega (
  arith,
  value_pad,
  ap base64_value (sym h ∙ base64_character_mod v) ∙ base64_value-character (v % 64) (omega arith),
)

strip_padding-character :
    (v : ℕ) (cs : Bytes)
    → strip_padding (base64_character v ∷ cs)
      ≡ (base64_character v ∷ (strip_padding cs).0, (strip_padding cs).1)
unfolding strip_padding
strip_padding-character v cs = go (strip_padding cs)
  where
    go : (r : Bytes × ℕ) → add_front (base64_character v) r ≡ (base64_character v ∷ r.0, r.1)
    go ([], n) = ground (arith, character-ne-pad v)
    go (b ∷ bs, n) = refl

pub strip_padding-unpadded :
    (bs : Bytes)
    → strip_padding (unpadded bs ++ padding_of bs) ≡ (unpadded bs, length (padding_of bs))
unfolding unpadded padding_of
strip_padding-unpadded [] = unfold strip_padding in refl
strip_padding-unpadded (a ∷ []) = simp strip_padding-character (unfold strip_padding in refl)
strip_padding-unpadded (a ∷ b ∷ []) = simp strip_padding-character (unfold strip_padding in refl)
strip_padding-unpadded (a ∷ b ∷ c ∷ rest) =
    simp (strip_padding-character, strip_padding-unpadded rest)

-- Whole quanta, and at most two characters of padding.
pub encoded_shape :
    (bs : Bytes)
    → (length (unpadded bs) + length (padding_of bs) ≡ 4 * ((length bs + 2) / 3))
      × (length (padding_of bs) ≤ 2)
unfolding unpadded padding_of
encoded_shape [] = omega arith
encoded_shape (a ∷ []) = omega arith
encoded_shape (a ∷ b ∷ []) = omega arith
encoded_shape (a ∷ b ∷ c ∷ rest) = omega (arith, encoded_shape rest)

decode_body-unpadded :
    (text bs : Bytes)
    → All IsByte bs
    → length text % 4 ≡ 0
    → decode_body text (unpadded bs, length (padding_of bs)) ≡ ok bs
decode_body-unpadded text bs h e =
    ground (arith, encoded_shape bs, decode_loop-unpadded text 0 bs h)

-- Decoding what the encoder wrote gives the bytes back, for every sequence of bytes.
pub base64_decode-encode : (bs : Bytes) → All IsByte bs → base64_decode (base64_encode bs) ≡ ok bs
unfolding base64_decode
base64_decode-encode bs h =
    rw (base64_encode-unpadded bs h, strip_padding-unpadded bs)
      (decode_body-unpadded (unpadded bs ++ padding_of bs) bs h
        (rw length-append (omega (arith, encoded_shape bs))))

-- The encoder writes four characters for every three bytes begun.
pub length-base64_encode :
    (bs : Bytes) → All IsByte bs → length (base64_encode bs) ≡ 4 * ((length bs + 2) / 3)
length-base64_encode bs h =
    rw (base64_encode-unpadded bs h, length-append (unpadded bs) (padding_of bs))
      (encoded_shape bs).0
