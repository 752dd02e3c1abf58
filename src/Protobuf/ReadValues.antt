-- ===== src/Protobuf/ReadValues.antt =====
-- A value that was read is one that is written and read back unchanged.
use cloudevents_sdk_cpp.Base.{
  ℕ, ◌+◌, ◌-◌, ◌*◌, ◌^◌, ◌<◌, ◌≤◌, ◌≡◌, refl, ap, subst, arith, true, false, not, ◌||◌, ◌&&◌, inl,
  inr, Bool-cases, none, some, Bytes, IsByte, All, ltb, ◌==◌, if◌then◌else◌,
}
use cloudevents_sdk_cpp.Base.Words.{add64, mul64, neg64, biased, less64}
use cloudevents_sdk_cpp.Errors.{ok, bind_succeeds, ok-injective}
use cloudevents_sdk_cpp.Utf8.{is_valid_utf8}
use cloudevents_sdk_cpp.Wire.{read_text}
use cloudevents_sdk_cpp.Timestamp.{Timestamp, utc_designator, representable, nanoseconds_per_second}
use cloudevents_sdk_cpp.Event.{AttributeValue, int32, instant}
use cloudevents_sdk_cpp.Binding.Collected.{Each}
use cloudevents_sdk_cpp.Protobuf.{Field, for_each_field}
use cloudevents_sdk_cpp.Protobuf.Value.{
  Arm, digits_holding, make_instant, timestamp_visit, read_timestamp, read_integer, read_varint_arm,
  read_text_arm, text_arm, read_length_arm, value_visit, replace_arm, read_value, nanos_of,
  is_varint, to_int32, string_arm, uri_arm, uri_ref_arm, bytes_arm, timestamp_arm, boolean_arm,
  integer_arm, seconds_field, nanos_field,
}
use cloudevents_sdk_cpp.Protobuf.Values.{InRange, IsWritable, read_back, utc_instant}
use cloudevents_sdk_cpp.Protobuf.Invariant.{IsReadField, for_each_field-Holds}

-- the value as the reader makes it
abbrev pub IsRead : AttributeValue → Type 0
IsRead v = IsWritable v × (read_back v ≡ v)

pub read_text-eq-ok :
    (bytes text : Bytes) → read_text bytes ≡ ok text → (bytes ≡ text) × (is_valid_utf8 text ≡ true)
unfolding read_text
read_text-eq-ok bytes text e = elim (Bool-cases (is_valid_utf8 bytes)) [
  | inl p ↦ let q = ok-injective (rw p at e) in (q, rw (← q) p)
  | inr p ↦ cc (rw p at e)
]

nanos_checked :
    (n : ℕ)
    → n < 2 ^ 64
    → (less64 n 0 || not (less64 n nanoseconds_per_second)) ≡ false
    → n < 10 ^ 9
nanos_checked n h e = ground arith

seconds_checked :
    (s : ℕ)
    → (less64 representable s || less64 s (neg64 representable)) ≡ false
    → (biased s ≤ 2 ^ 63 + representable) × (2 ^ 63 - representable ≤ biased s)
seconds_checked s e = ground arith

instant_InRange :
    (s n : ℕ)
    → s < 2 ^ 64
    → n < 10 ^ 9
    → biased s ≤ 2 ^ 63 + representable
    → 2 ^ 63 - representable ≤ biased s
    → (add64 (mul64 s nanoseconds_per_second) n < 2 ^ 64)
      × (2 ^ 63 - representable * 10 ^ 9 ≤ biased (add64 (mul64 s nanoseconds_per_second) n))
      × (biased (add64 (mul64 s nanoseconds_per_second) n) < 2 ^ 63 + (representable + 1) * 10 ^ 9)
      × (nanos_of (add64 (mul64 s nanoseconds_per_second) n) ≡ n)
instant_InRange s n h k p q = (omega arith, omega arith, omega arith, omega arith)

make_instant-eq-ok :
    (s n : ℕ) (t : Timestamp)
    → s < 2 ^ 64
    → n < 2 ^ 64
    → make_instant s n ≡ ok t
    → InRange t × (utc_instant t ≡ t)
unfolding make_instant
make_instant-eq-ok s n t h k e =
    elim (Bool-cases (less64 n 0 || not (less64 n nanoseconds_per_second))) [
      | inl p ↦ cc (rw p at e)
      | inr p ↦ elim (Bool-cases (less64 representable s || less64 s (neg64 representable))) [
        | inl q ↦ cc (rw (p, q) at e)
        | inr q ↦
            let below = nanos_checked n k p in
            let (most, least) = seconds_checked s q in
            let (a, b, c, d) = instant_InRange s n h below most least in
            subst (λ (u : Timestamp). InRange u × (utc_instant u ≡ u))
              (ok-injective (rw (p, q) at e))
              (
                (a, b, c),
                ap
                    (λ (x : ℕ). record {
                      utc = add64 (mul64 s nanoseconds_per_second) n;
                      offset = 0;
                      form = utc_designator;
                      fractional_digits = digits_holding x;
                    })
                    d,
              )
      ]
    ]

abbrev IsWords : ℕ × ℕ → Type 0
IsWords read = (read.0 < 2 ^ 64) × (read.1 < 2 ^ 64)

timestamp_visit-IsWords :
    (f : Field) (s s' : ℕ × ℕ)
    → IsReadField f
    → IsWords s
    → timestamp_visit f s ≡ ok s'
    → IsWords s'
timestamp_visit-IsWords f (seconds, nanos) s' (below, _) (h, k) e =
    elim (Bool-cases (is_varint f.kind && f.number == seconds_field)) [
      | inl p ↦ subst IsWords (ok-injective (rw p at e)) (below, k)
      | inr p ↦ elim (Bool-cases (is_varint f.kind && f.number == nanos_field)) [
        | inl q ↦ subst IsWords (ok-injective (rw (p, q) at e)) (h, below)
        | inr q ↦ subst IsWords (ok-injective (rw (p, q) at e)) (h, k)
      ]
    ]

read_timestamp-eq-ok :
    (body : Bytes) (t : Timestamp)
    → All IsByte body
    → read_timestamp body ≡ ok t
    → InRange t × (utc_instant t ≡ t)
unfolding read_timestamp
read_timestamp-eq-ok body t h e =
    let (read, p, q) = bind_succeeds (for_each_field timestamp_visit (0, 0) body) _ e in
    let (s, n) =
      for_each_field-Holds timestamp_visit IsWords timestamp_visit-IsWords body (0, 0) read h
        (omega arith) p in
    make_instant-eq-ok read.0 read.1 t s n q

integer_checked :
    (raw : ℕ)
    → raw < 2 ^ 64
    → (less64 raw (neg64 (2 ^ 31)) || less64 (2 ^ 31 - 1) raw) ≡ false
    → IsWritable (int32 (to_int32 raw))
integer_checked raw h e = elim (Bool-cases (ltb raw (2 ^ 63))) [
  | inl p ↦ rw p (ground arith)
  | inr p ↦ rw p (ground arith)
]

read_integer-eq-ok :
    (raw : ℕ) (v : AttributeValue) → raw < 2 ^ 64 → read_integer raw ≡ ok v → IsRead v
unfolding read_integer
read_integer-eq-ok raw v h e =
    elim (Bool-cases (less64 raw (neg64 (2 ^ 31)) || less64 (2 ^ 31 - 1) raw)) [
      | inl p ↦ cc (rw p at e)
      | inr p ↦ subst IsRead (ok-injective (rw p at e)) (integer_checked raw h p, refl)
    ]

text_arm-IsRead :
    (number : ℕ) (text : Bytes) → is_valid_utf8 text ≡ true → IsRead (text_arm number text)
text_arm-IsRead number text h = elim (Bool-cases (number == uri_arm)) [
  | inl p ↦ rw p (h, refl)
  | inr p ↦ elim (Bool-cases (number == uri_ref_arm)) [
    | inl q ↦ rw (p, q) (h, refl)
    | inr q ↦ rw (p, q) (h, refl)
  ]
]

read_text_arm-IsRead : (f : Field) (a : Arm) → read_text_arm f ≡ ok a → Each IsRead a
unfolding read_text_arm
read_text_arm-IsRead f a e =
    let (text, p, q) = bind_succeeds (read_text f.body) _ e in
    subst (Each IsRead) (ok-injective q)
      (text_arm-IsRead f.number text (read_text-eq-ok f.body text p).1)

read_length_arm-IsRead :
    (f : Field) (a : Arm) → IsReadField f → read_length_arm f ≡ ok a → Each IsRead a
unfolding read_length_arm
read_length_arm-IsRead f a (_, bytes) e = elim (Bool-cases (f.number == bytes_arm)) [
  | inl p ↦ subst (Each IsRead) (ok-injective (rw p at e)) (tt, refl)
  | inr p ↦ elim (Bool-cases (f.number == timestamp_arm)) [
    | inl q ↦
        let (t, r, u) = bind_succeeds (read_timestamp f.body) _ (rw (p, q) at e) in
        let (range, same_instant) = read_timestamp-eq-ok f.body t bytes r in
        subst (Each IsRead) (ok-injective u) (range, ap instant same_instant)
    | inr q ↦
        elim (Bool-cases
          (f.number == string_arm || f.number == uri_arm || f.number == uri_ref_arm)) [
            | inl r ↦ read_text_arm-IsRead f a (rw (p, q, r) at e)
            | inr r ↦ subst (Each IsRead) (ok-injective (rw (p, q, r) at e)) tt
          ]
  ]
]

read_varint_arm-IsRead :
    (f : Field) (a : Arm) → IsReadField f → read_varint_arm f ≡ ok a → Each IsRead a
unfolding read_varint_arm
read_varint_arm-IsRead f a (below, _) e = elim (Bool-cases (f.number == boolean_arm)) [
  | inl p ↦ subst (Each IsRead) (ok-injective (rw p at e)) (tt, refl)
  | inr p ↦ elim (Bool-cases (f.number == integer_arm)) [
    | inr q ↦ subst (Each IsRead) (ok-injective (rw (p, q) at e)) tt
    | inl q ↦
        let (v, r, u) = bind_succeeds (read_integer f.varint) _ (rw (p, q) at e) in
        subst (Each IsRead) (ok-injective u) (read_integer-eq-ok f.varint v below r)
  ]
]

replace_arm-IsRead :
    (held read : Arm) → Each IsRead held → Each IsRead read → Each IsRead (replace_arm held read)
replace_arm-IsRead held none h k = h
replace_arm-IsRead held (some v) h k = k

value_visit-IsRead :
    (f : Field) (s s' : Arm)
    → IsReadField f
    → Each IsRead s
    → value_visit f s ≡ ok s'
    → Each IsRead s'
value_visit-IsRead f s s' h k e =
    let (a, p, q) =
      bind_succeeds (if is_varint f.kind then read_varint_arm f else read_length_arm f) _ e in
    subst (Each IsRead) (ok-injective q) (
      replace_arm-IsRead s a k (elim (Bool-cases (is_varint f.kind)) [
        | inl r ↦ read_varint_arm-IsRead f a h (rw r at p)
        | inr r ↦ read_length_arm-IsRead f a h (rw r at p)
      ]))

-- Every value that `read_value` gives is one that the writer carries and the reader gives back
-- unchanged: an integer of 32 bits, a text that is UTF-8, an instant in range and in UTC.
pub read_value-IsRead :
    (body : Bytes) (a : Arm) → All IsByte body → read_value body ≡ ok a → Each IsRead a
unfolding read_value
read_value-IsRead body a h e =
    for_each_field-Holds value_visit (Each IsRead) value_visit-IsRead body none a h tt e
