-- ===== src/Headers/Adopt.antt =====
-- When `adopt` accepts the delivered fields.
use cloudevents_sdk_cpp.Base.{
  ◌≡◌, refl, sym, ◌∙◌, ◌↔◌, inl, inr, Bool, false, [], ◌∷◌, ◌++◌, append_assoc, append-nil, Bytes,
  same, Bool-cases, All,
}
use cloudevents_sdk_cpp.Errors.{ok}
use cloudevents_sdk_cpp.Text.{iequals}
use cloudevents_sdk_cpp.Headers.{
  RawHeaders, add, find_if, is_some, NameMatching, Headers, already, adopt_loop, adopt,
}

abbrev pub same_name : NameMatching → Bytes → Bytes → Bool
same_name NameMatching.case_sensitive = same
same_name NameMatching.case_insensitive = iequals

-- No two fields have the same name.
pub Distinct : NameMatching → RawHeaders → Type 0
Distinct matching [] = Unit
Distinct matching (e ∷ es) = All (λ f. same_name matching e.0 f.0 ≡ false) es × Distinct matching es

found-add :
    (t : Bytes → Bool) (seen : RawHeaders) (n v : Bytes)
    → (is_some (find_if t (add seen n v)) ≡ false)
      ↔ ((is_some (find_if t seen) ≡ false) × (t n ≡ false))
unfolding find_if
found-add t [] n v = elim (Bool-cases (t n)) [
  | inl p ↦ rw p (λ h. cc, λ (a, b). cc)
  | inr p ↦ rw p (λ h. (refl, refl), λ h. refl)
]
found-add t (e ∷ es) n v = elim (Bool-cases (t e.0)) [
  | inl p ↦ rw p (λ h. cc, λ (a, b). cc)
  | inr p ↦ rw p (found-add t es n v)
]

already-add :
    (matching : NameMatching) (seen : RawHeaders) (n v k : Bytes)
    → (already matching (add seen n v) k ≡ false)
      ↔ ((already matching seen k ≡ false) × (same_name matching n k ≡ false))
already-add NameMatching.case_sensitive seen n v k = found-add (λ c. same c k) seen n v
already-add NameMatching.case_insensitive seen n v k = found-add (λ c. iequals c k) seen n v

All-already-add :
    (matching : NameMatching) (seen rest : RawHeaders) (n v : Bytes)
    → All (λ f. already matching (add seen n v) f.0 ≡ false) rest ↔ (
        All (λ f. already matching seen f.0 ≡ false) rest
        × All (λ f. same_name matching n f.0 ≡ false) rest)
All-already-add matching seen [] n v = (λ _. (tt, tt), λ _. tt)
All-already-add matching seen (f ∷ fs) n v =
    let one = already-add matching seen n v f.0 in
    let more = All-already-add matching seen fs n v in
    (
      λ (a, b). (((one.0 a).0, (more.0 b).0), ((one.0 a).1, (more.0 b).1)),
      λ ((a, b), (c, d)). (one.1 (a, c), more.1 (b, d)),
    )

Accepts : NameMatching → RawHeaders → RawHeaders → Headers → Type 0
Accepts matching seen rest h =
    (h.fields ≡ seen ++ rest)
    × All (λ f. already matching seen f.0 ≡ false) rest
    × Distinct matching rest

adopt_loop_sound :
    (matching : NameMatching) (seen rest : RawHeaders) (h : Headers)
    → adopt_loop matching seen rest ≡ ok h
    → Accepts matching seen rest h
unfolding adopt_loop Accepts Distinct
adopt_loop_sound matching seen [] h p = (rw (append-nil seen) cc, tt, tt)
adopt_loop_sound matching seen (e ∷ es) h p = elim (Bool-cases (already matching seen e.0)) [
  | inl q ↦ cc (rw q at p)
  | inr q ↦
      let (a, b, c) = adopt_loop_sound matching (add seen e.0 e.1) es h (rw q at p) in
      let (x, y) = (All-already-add matching seen es e.0 e.1).0 b in
      (a ∙ append_assoc seen (e ∷ []) es, (q, x), (y, c))
]

adopt_loop_complete :
    (matching : NameMatching) (seen rest : RawHeaders) (h : Headers)
    → Accepts matching seen rest h
    → adopt_loop matching seen rest ≡ ok h
unfolding adopt_loop Accepts Distinct
adopt_loop_complete matching seen [] h (a, _, _) = let e = append-nil seen in cc
adopt_loop_complete matching seen (e ∷ es) h (a, (q, x), (y, c)) = rw q (
    adopt_loop_complete matching (add seen e.0 e.1) es h (
      a ∙ sym (append_assoc seen (e ∷ []) es),
      (All-already-add matching seen es e.0 e.1).1 (x, y),
      c,
    ))

All-already-nil :
    (matching : NameMatching) (d : RawHeaders) → All (λ f. already matching [] f.0 ≡ false) d
unfolding find_if
All-already-nil matching [] = tt
All-already-nil NameMatching.case_sensitive (f ∷ fs) =
    (refl, All-already-nil NameMatching.case_sensitive fs)
All-already-nil NameMatching.case_insensitive (f ∷ fs) =
    (refl, All-already-nil NameMatching.case_insensitive fs)

-- `adopt` succeeds exactly when no two delivered fields have the same name under the matching
-- asked for, and then it keeps the fields as delivered.
pub adopt_iff :
    (delivered : RawHeaders) (matching : NameMatching) (h : Headers)
    → (adopt delivered matching ≡ ok h) ↔ ((h.fields ≡ delivered) × Distinct matching delivered)
unfolding adopt Accepts
adopt_iff delivered matching h = (
  λ p. let (a, _, c) = adopt_loop_sound matching [] delivered h p in (a, c),
  λ (a, c). adopt_loop_complete matching [] delivered h (a, All-already-nil matching delivered, c),
)
