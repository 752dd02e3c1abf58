-- ===== src/Binding/Apart.antt =====
-- Fields of which no two have the same name, as a binding compares names.
use cloudevents_sdk_cpp.Base.{
  ◌≡◌, refl, inl, inr, Bool, true, false, ◌||◌, none, [], ◌∷◌, ◌++◌, map, Bytes, same_iff,
  Bool-cases, All, All-append, All-append_right, arith, length, take-append, drop-append, leb,
  length-append,
}
use cloudevents_sdk_cpp.Base.Lists.{same}
use cloudevents_sdk_cpp.Text.{
  ascii_lower, iequals, iequals_iff, starts_with, starts_with_ignoring_case,
}
use cloudevents_sdk_cpp.Headers.{Entry, RawHeaders, add, erase_if}
use cloudevents_sdk_cpp.Binding.{
  Traits, put, same_field_name, repeats, first_repeated_loop, first_repeated_name, carries_prefix,
  attribute_name_of,
}

module _ (T : Traits) where
  abbrev pub Apart : RawHeaders → Type 0
  Apart [] = Unit
  Apart (e ∷ es) = All (λ f. same_field_name T e.0 f.0 ≡ false) es × Apart es

  pub Apart-append :
      (xs ys : RawHeaders)
      → Apart xs
      → Apart ys
      → All (λ e. All (λ f. same_field_name T e.0 f.0 ≡ false) ys) xs
      → Apart (xs ++ ys)
  Apart-append [] ys h k c = k
  Apart-append (x ∷ xs) ys (h, hs) k (c, cs) =
      (All-append (λ f. same_field_name T x.0 f.0 ≡ false) xs ys h c, Apart-append xs ys hs k cs)

  pub Apart-middle :
      (xs : RawHeaders) (e : Entry) (ys : RawHeaders)
      → Apart (xs ++ e ∷ ys)
      → All (λ f. same_field_name T f.0 e.0 ≡ false) xs
  Apart-middle [] e ys h = tt
  Apart-middle (x ∷ xs) e ys (h, hs) = (
    (All-append_right (λ f. same_field_name T x.0 f.0 ≡ false) xs (e ∷ ys) h).0,
    Apart-middle xs e ys hs,
  )

  erase_if-none :
      (t : Bytes → Bool) (es : RawHeaders) → All (λ f. t f.0 ≡ false) es → erase_if t es ≡ es
  unfolding erase_if
  erase_if-none t [] h = refl
  erase_if-none t (e ∷ es) (h, hs) = rw (h, erase_if-none t es hs) refl

  -- A field with a new name is put behind the others.
  pub put-add :
      (es : RawHeaders) (n v : Bytes)
      → All (λ f. same_field_name T f.0 n ≡ false) es
      → put T es n v ≡ add es n v
  unfolding put
  put-add es n v h = elim (Bool-cases T.case_sensitive_names) [
    | inl p ↦ rw (p, erase_if-none (λ c. same c n) es (rw p at h)) refl
    | inr p ↦ rw (p, erase_if-none (λ c. iequals c n) es (rw p at h)) refl
  ]

  repeats-add :
      (es : RawHeaders) (e : Entry) (n : Bytes)
      → repeats T (es ++ e ∷ []) n ≡ repeats T es n || same_field_name T e.0 n
  unfolding repeats
  repeats-add [] e n = ground arith
  repeats-add (x ∷ xs) e n = ground (arith, repeats-add xs e n)

  All-repeats-add :
      (before rest : RawHeaders) (e : Entry)
      → All (λ f. repeats T before f.0 ≡ false) rest
      → All (λ f. same_field_name T e.0 f.0 ≡ false) rest
      → All (λ f. repeats T (before ++ e ∷ []) f.0 ≡ false) rest
  All-repeats-add before [] e h k = tt
  All-repeats-add before (f ∷ fs) e (h, hs) (k, ks) =
      (rw (repeats-add before e f.0, h) k, All-repeats-add before fs e hs ks)

  first_repeated_loop-none :
      (before rest : RawHeaders)
      → All (λ f. repeats T before f.0 ≡ false) rest
      → Apart rest
      → first_repeated_loop T before rest ≡ none
  unfolding first_repeated_loop
  first_repeated_loop-none before [] h k = refl
  first_repeated_loop-none before (e ∷ es) (h, hs) (k, ks) =
      rw h (first_repeated_loop-none (before ++ e ∷ []) es (All-repeats-add before es e hs k) ks)

  All-repeats-nil : (es : RawHeaders) → All (λ f. repeats T [] f.0 ≡ false) es
  unfolding repeats
  All-repeats-nil [] = tt
  All-repeats-nil (e ∷ es) = (refl, All-repeats-nil es)

  pub first_repeated_name-none : (es : RawHeaders) → Apart es → first_repeated_name T es ≡ none
  unfolding first_repeated_name
  first_repeated_name-none es h = first_repeated_loop-none [] es (All-repeats-nil es) h

  same_prefix : (p a b : Bytes) → same (p ++ a) (p ++ b) ≡ same a b
  unfolding same
  same_prefix [] a b = refl
  same_prefix (c ∷ p) a b = ground (arith, same_prefix p a b)

  iequals_prefix : (p a b : Bytes) → iequals (p ++ a) (p ++ b) ≡ iequals a b
  unfolding iequals
  iequals_prefix [] a b = refl
  iequals_prefix (c ∷ p) a b = ground (arith, iequals_prefix p a b)

  -- Different names in lower case make different fields.
  pub field_apart :
      (a b : Bytes)
      → map ascii_lower a ≡ a
      → map ascii_lower b ≡ b
      → same a b ≡ false
      → same_field_name T (T.attribute_prefix ++ a) (T.attribute_prefix ++ b) ≡ false
  field_apart a b h k d = elim (Bool-cases T.case_sensitive_names) [
    | inl p ↦ rw (p, same_prefix T.attribute_prefix a b) d
    | inr p ↦
        rw (p, iequals_prefix T.attribute_prefix a b)
          (elim (Bool-cases (iequals a b)) [
            | inl q ↦ let e = (iequals_iff a b).0 q in let f = (same_iff a b).1 cc in cc
            | inr q ↦ q
          ])
  ]

  iequals_self : (a : Bytes) → iequals a a ≡ true
  iequals_self a = (iequals_iff a a).1 refl

  pub carries_prefix-field : (a : Bytes) → carries_prefix T (T.attribute_prefix ++ a) ≡ true
  unfolding carries_prefix starts_with starts_with_ignoring_case
  carries_prefix-field a =
      let p = T.attribute_prefix in
      let l : leb (length p) (length (p ++ a)) ≡ true = ground (arith, length-append p a) in
      elim (Bool-cases T.case_sensitive_names) [
        | inl c ↦ rw (c, l, take-append p a) ((same_iff p p).1 refl)
        | inr c ↦ rw (c, l, take-append p a) (iequals_self p)
      ]

  pub attribute_name_of-field :
      (a : Bytes) → map ascii_lower a ≡ a → attribute_name_of T (T.attribute_prefix ++ a) ≡ a
  unfolding attribute_name_of
  attribute_name_of-field a h = elim (Bool-cases T.case_sensitive_names) [
    | inl c ↦ rw (c, drop-append T.attribute_prefix a) refl
    | inr c ↦ rw (c, drop-append T.attribute_prefix a) h
  ]
