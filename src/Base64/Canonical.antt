-- ===== src/Base64/Canonical.antt =====
-- What the decoder accepts: the encoder's output, with its padding or without any.
use cloudevents_sdk_cpp.Base.{
  ℕ, ◌+◌, ◌*◌, ◌/◌, ◌%◌, ◌<◌, ◌≤◌, ◌≡◌, ◌≢◌, refl, ◌∙◌, ap, sym, subst, arith, true, List, [], ◌∷◌,
  ◌++◌, map, Bytes, IsByte, All, leb, ◌==◌, if◌then◌else◌, length, length-append, replicate,
  length-replicate, length-map, append-nil, All-append_left, ==_iff, Bool-cases, ◌⊎◌, inl, inr,
  ◌||◌,
}
use cloudevents_sdk_cpp.Base.Bits.{every_below, every_below_lem}
use cloudevents_sdk_cpp.Errors.{ok, fail, invalid_base64, ok-injective, bind_succeeds}
use native.Mathlib.Numerals.{add-one}
use cloudevents_sdk_cpp.Base64.{
  base64_value, base64_character, not_in_alphabet, next_accumulator, base64_encode, decode_loop,
  add_front, strip_padding, decode_body, base64_decode,
}
use cloudevents_sdk_cpp.Base64.RoundTrip.{
  unpadded, padding_of, base64_encode-unpadded, strip_padding-unpadded, encoded_shape, decode_two,
  decode_three, decode_four, end_four, end_two,
}

alphabet_table :
    every_below
      (λ c. base64_value c == not_in_alphabet || base64_character (base64_value c) == c)
      256
    ≡ true
unfolding every_below base64_value base64_character
alphabet_table = refl

value_table :
    every_below (λ c. base64_value c == not_in_alphabet || leb (base64_value c) 63) 256 ≡ true
unfolding every_below base64_value
value_table = refl

-- A byte that the decoder does not refuse is the character of its sextet.
character-value :
    (c : ℕ)
    → IsByte c
    → base64_value c ≢ not_in_alphabet
    → (base64_character (base64_value c) ≡ c) × (base64_value c < 64)
character-value c h k =
    ground (arith, every_below_lem _ 256 c h alphabet_table, every_below_lem _ 256 c h value_table)

-- A round that does not fail read a character of the alphabet, and the rest does not fail.
record Goes (w body : Bytes) (c : ℕ) : Type 0 where
  in_alphabet : base64_value c ≢ not_in_alphabet
  acc : ℕ
  bits : ℕ
  out : Bytes
  rest : decode_loop w acc bits body ≡ ok out

decode_loop-Goes :
    (w : Bytes) (acc bits c : ℕ) (body out : Bytes)
    → decode_loop w acc bits (c ∷ body) ≡ ok out
    → Goes w body c
unfolding decode_loop
decode_loop-Goes w acc bits c body out h = elim (Bool-cases (base64_value c == not_in_alphabet)) [
  | inl e ↦ cc (rw e at h)
  | inr e ↦ elim (Bool-cases (leb 8 (bits + 6))) [
    | inl full ↦
        let (r, q, _) = bind_succeeds (decode_loop w _ _ body) _ (rw (e, full) at h) in
        record { in_alphabet = ground arith; acc = _; bits = _; out = r; rest = q }
    | inr short ↦ record {
      in_alphabet = ground arith;
      acc = _;
      bits = _;
      out = out;
      rest = rw (e, short) at h;
    }
  ]
]

sextets_of :
    (w : Bytes) (acc bits : ℕ) (body out : Bytes)
    → All IsByte body
    → decode_loop w acc bits body ≡ ok out
    → (vs : List ℕ) × All (λ v. v < 64) vs × (body ≡ map base64_character vs)
sextets_of w acc bits [] out h e = ([], tt, refl)
sextets_of w acc bits (c ∷ body) out (hc, h) e =
    let g = decode_loop-Goes w acc bits c body out e in
    let (vs, hvs, same) = sextets_of w g.acc g.bits body g.out h g.rest in
    let (back, small) = character-value c hc g.in_alphabet in
    (base64_value c ∷ vs, (small, hvs), cc (back, same))

-- Sextets that close a quantum with no bit left over are the encoding of their octets.
module _ (s t u : ℕ) (hs : s < 64) (ht : t < 64) (hu : u < 64) where
  close_two :
      t % 16 ≡ 0
      → (map base64_character (s ∷ t ∷ []) ≡ unpadded ((s * 64 + t) / 16 ∷ []))
        × (All IsByte ((s * 64 + t) / 16 ∷ []))
  unfolding unpadded
  close_two z =
      let a : ℕ = (s * 64 + t) / 16 in
      let p : a / 4 ≡ s = omega arith in
      let q : a % 4 * 16 ≡ t = omega arith in (rw (p, q), (omega arith, tt))

  close_three :
      u % 4 ≡ 0
      → (map base64_character (s ∷ t ∷ u ∷ [])
          ≡ unpadded ((s * 64 + t) / 16 ∷ (t % 16 * 64 + u) / 4 ∷ []))
        × (All IsByte ((s * 64 + t) / 16 ∷ (t % 16 * 64 + u) / 4 ∷ []))
  unfolding unpadded
  close_three z =
      let a : ℕ = (s * 64 + t) / 16 in
      let b : ℕ = (t % 16 * 64 + u) / 4 in
      let p : a / 4 ≡ s = omega arith in
      let q : a % 4 * 16 + b / 16 ≡ t = omega arith in
      let r : b % 16 * 4 ≡ u = omega arith in (rw (p, q, r), (omega arith, (omega arith, tt)))

  close_four :
      (v : ℕ) (vs out : Bytes)
      → v < 64
      → (map base64_character vs ≡ unpadded out) × All IsByte out
      → (map base64_character (s ∷ t ∷ u ∷ v ∷ vs)
          ≡ unpadded ((s * 64 + t) / 16 ∷ (t % 16 * 64 + u) / 4 ∷ (u % 4 * 64 + v) ∷ out))
        × (All IsByte ((s * 64 + t) / 16 ∷ (t % 16 * 64 + u) / 4 ∷ (u % 4 * 64 + v) ∷ out))
  unfolding unpadded
  close_four v vs out hv (e, h) =
      let a : ℕ = (s * 64 + t) / 16 in
      let b : ℕ = (t % 16 * 64 + u) / 4 in
      let c : ℕ = u % 4 * 64 + v in
      let p : a / 4 ≡ s = omega arith in
      let q : a % 4 * 16 + b / 16 ≡ t = omega arith in
      let r : b % 16 * 4 + c / 64 ≡ u = omega arith in
      let x : c % 64 ≡ v = omega arith in
      (rw (p, q, r, x, e), (omega arith, (omega arith, (omega arith, h))))

-- The check behind the loop passes only when the bits left over are zero.
end_passes :
    {r : ℕ} {o : Bytes} (w : Bytes)
    → (if r == 0 then ok [] else fail invalid_base64 "unused trailing bits are not zero" w) ≡ ok o
    → (r ≡ 0) × ([] ≡ o)
end_passes w h = ground arith

abbrev Encodes : List ℕ → Bytes → Type 0
Encodes vs out = (map base64_character vs ≡ unpadded out) × All IsByte out

decode_loop_canonical :
    (w : Bytes) (vs : List ℕ) (out : Bytes) (acc : ℕ)
    → All (λ v. v < 64) vs
    → length vs % 4 ≢ 1
    → decode_loop w acc 0 (map base64_character vs) ≡ ok out
    → Encodes vs out
decode_loop_canonical w [] out acc h n e =
    let p : [] ≡ out = ok-injective (unfold decode_loop in e) in
    subst (Encodes []) p (unfold unpadded in refl, tt)
decode_loop_canonical w (s ∷ []) out acc h n e = absurd (omega arith)
decode_loop_canonical w (s ∷ t ∷ []) out acc (hs, (ht, _)) n e =
    let start = decode_two w acc s t 0 0 hs ht (omega arith) (omega arith) [] in
    let (o, q, r) = bind_succeeds (decode_loop w _ 4 []) _ (sym start ∙ e) in
    let (z, oe) = end_passes w (sym (end_four w (next_accumulator acc s) t ht) ∙ q) in
    subst (Encodes (s ∷ t ∷ [])) (ap (λ (x : Bytes). (s * 64 + t) / 16 ∷ x) oe ∙ ok-injective r)
      (close_two s t 0 hs ht (omega arith) z)
decode_loop_canonical w (s ∷ t ∷ u ∷ []) out acc (hs, (ht, (hu, _))) n e =
    let start = decode_three w acc s t u 0 hs ht hu (omega arith) [] in
    let (o, q, r) = bind_succeeds (decode_loop w _ 2 []) _ (sym start ∙ e) in
    let (z, oe) = end_passes w (sym (end_two w _ u hu) ∙ q) in
    subst (Encodes (s ∷ t ∷ u ∷ []))
      (ap (λ (x : Bytes). (s * 64 + t) / 16 ∷ (t % 16 * 64 + u) / 4 ∷ x) oe ∙ ok-injective r)
      (close_three s t u hs ht hu z)
decode_loop_canonical w (s ∷ t ∷ u ∷ v ∷ vs) out acc (hs, (ht, (hu, (hv, h)))) n e =
    let start = decode_four w acc s t u v hs ht hu hv (map base64_character vs) in
    let (o, q, r) = bind_succeeds (decode_loop w _ 0 (map base64_character vs)) _ (sym start ∙ e) in
    let rest = decode_loop_canonical w vs o _ h (λ x. n (omega arith)) q in
    subst (Encodes (s ∷ t ∷ u ∷ v ∷ vs)) (ok-injective r) (close_four s t u hs ht hu v vs o hv rest)

add_front-append :
    (c : ℕ) (r : Bytes × ℕ)
    → ((add_front c r).0 ++ replicate (add_front c r).1 b'=') ≡ c ∷ (r.0 ++ replicate r.1 b'=')
add_front-append c ([], n) = elim (Bool-cases (c == b'=')) [
  | inl e ↦ rw (e, add-one n) (ap (λ (x : ℕ). x ∷ replicate n b'=') (sym ((==_iff c b'=').0 e)))
  | inr e ↦ rw e
]
add_front-append c (b ∷ bs, n) = refl

strip_padding-append :
    (text : Bytes) → ((strip_padding text).0 ++ replicate (strip_padding text).1 b'=') ≡ text
unfolding strip_padding
strip_padding-append [] = refl
strip_padding-append (c ∷ cs) =
    add_front-append c (strip_padding cs) ∙ ap (λ (t : Bytes). c ∷ t) (strip_padding-append cs)

padding_of-replicate : (bs : Bytes) → replicate (length (padding_of bs)) b'=' ≡ padding_of bs
unfolding padding_of
padding_of-replicate [] = refl
padding_of-replicate (a ∷ []) = refl
padding_of-replicate (a ∷ b ∷ []) = refl
padding_of-replicate (a ∷ b ∷ c ∷ rest) = padding_of-replicate rest

-- The three checks that stand in front of the loop.
record Passes (text body : Bytes) (padding : ℕ) (bs : Bytes) : Type 0 where
  few : padding ≤ 2
  complete : (padding ≡ 0) ⊎ (length text % 4 ≡ 0)
  no_stray : length body % 4 ≢ 1
  loop : decode_loop text 0 0 body ≡ ok bs

decode_body-Passes :
    (text body : Bytes) (padding : ℕ) (bs : Bytes)
    → decode_body text (body, padding) ≡ ok bs
    → Passes text body padding bs
decode_body-Passes text body padding bs h = ground arith

padding_complete :
    (text bs : Bytes) (n : ℕ)
    → unpadded bs ++ replicate n b'=' ≡ text
    → n ≤ 2
    → (n ≡ 0) ⊎ (length text % 4 ≡ 0)
    → (n ≡ 0) ⊎ (n ≡ length (padding_of bs))
padding_complete text bs n shape h (inl z) = inl z
padding_complete text bs n shape h (inr z) = ground (
  arith,
  ap (λ (t : Bytes). length t) shape,
  encoded_shape bs,
  length-append (unpadded bs) (replicate n b'='),
  length-replicate {A = ℕ} n b'=',
)

canonical_text :
    (text bs : Bytes) (n : ℕ)
    → unpadded bs ++ replicate n b'=' ≡ text
    → All IsByte bs
    → (n ≡ 0) ⊎ (n ≡ length (padding_of bs))
    → (text ≡ base64_encode bs) ⊎ (text ≡ (strip_padding (base64_encode bs)).0)
canonical_text text bs n shape h (inl z) =
    inr (sym shape ∙ rw (z, append-nil, base64_encode-unpadded bs h, strip_padding-unpadded bs))
canonical_text text bs n shape h (inr z) =
    inl (sym shape ∙ rw (z, padding_of-replicate bs, base64_encode-unpadded bs h))

-- Whatever the decoder accepts is what the encoder writes for the bytes that it returns, with
-- the padding or with none of it; so no two texts but these two decode to the same bytes.
pub base64_decode_canonical :
    (text bs : Bytes)
    → All IsByte text
    → base64_decode text ≡ ok bs
    → All IsByte bs × ((text ≡ base64_encode bs) ⊎ (text ≡ (strip_padding (base64_encode bs)).0))
unfolding base64_decode
base64_decode_canonical text bs h e =
    let body : Bytes = (strip_padding text).0 in
    let n : ℕ = (strip_padding text).1 in
    let whole : body ++ replicate n b'=' ≡ text = strip_padding-append text in
    let p = decode_body-Passes text body n bs e in
    let hb : All IsByte body = All-append_left IsByte body (replicate n b'=') (rw whole h) in
    let (vs, hvs, same) = sextets_of text 0 0 body bs hb p.loop in
    let stray : length vs % 4 ≢ 1 =
      λ z. p.no_stray (ap (λ t. length t % 4) same ∙ rw (length-map base64_character vs) z) in
    let (enc, hbs) = decode_loop_canonical text vs bs 0 hvs stray (rw same at p.loop) in
    let shape : unpadded bs ++ replicate n b'=' ≡ text =
      ap (λ (t : Bytes). t ++ replicate n b'=') (sym (same ∙ enc)) ∙ whole in
    (hbs, canonical_text text bs n shape hbs (padding_complete text bs n shape p.few p.complete))
