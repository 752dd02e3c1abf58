-- ===== src/Headers/Lookup.antt =====
-- What a lookup finds after `set` and `set_exact`.
use cloudevents_sdk_cpp.Base.{
  ◌≡◌, refl, sym, ◌↔◌, inl, inr, Bool, true, false, some, [], ◌∷◌, map, Bytes, same, same_iff,
  if◌then◌else◌, Bool-cases,
}
use cloudevents_sdk_cpp.Text.{ascii_lower, iequals, iequals_iff}
use cloudevents_sdk_cpp.Headers.{
  RawHeaders, add, erase_if, set, set_exact, find_if, find, find_exact,
}

-- Names compared by a key: the lower-case name, or the name itself.
module _ (r : Bytes → Bytes → Bool) (key : Bytes → Bytes)
    (law : (a b : Bytes) → (r a b ≡ true) ↔ (key a ≡ key b)) where
  shared : (a b c : Bytes) → r a b ≡ true → r a c ≡ r b c
  shared a b c h = elim (Bool-cases (r a c)) [
    | inl p ↦ elim (Bool-cases (r b c)) [
      | inl q ↦ cc
      | inr q ↦ let e = (law a b).0 h in let f = (law a c).0 p in let g = (law b c).1 cc in cc
    ]
    | inr p ↦ elim (Bool-cases (r b c)) [
      | inl q ↦ let e = (law a b).0 h in let f = (law b c).0 q in let g = (law a c).1 cc in cc
      | inr q ↦ cc
    ]
  ]

  mutual_sym : (a b : Bytes) → r a b ≡ r b a
  mutual_sym a b = elim (Bool-cases (r a b)) [
    | inl p ↦ let g = (law b a).1 (sym ((law a b).0 p)) in cc
    | inr p ↦ elim (Bool-cases (r b a)) [
      | inl q ↦ let g = (law a b).1 (sym ((law b a).0 q)) in cc
      | inr q ↦ cc
    ]
  ]

  if_once :
      {A : Type 0} (b : Bool) (x y z : A)
      → (if b then x else z) ≡ (if b then x else if b then y else z)
  if_once true x y z = refl
  if_once false x y z = refl

  find_if-set :
      (entries : RawHeaders) (n v m : Bytes)
      → find_if (λ c. r c m) (add (erase_if (λ c. r c n) entries) n v)
        ≡ (if r n m then some v else find_if (λ c. r c m) entries)
  unfolding find_if erase_if
  find_if-set [] n v m = refl
  find_if-set (e ∷ es) n v m = elim (Bool-cases (r e.0 n)) [
    | inl p ↦ rw (p, shared e.0 n m p, find_if-set es n v m) (if_once (r n m) _ _ _)
    | inr p ↦ elim (Bool-cases (r e.0 m)) [
      | inl q ↦ rw (p, q, mutual_sym n m, ← shared e.0 m n q, p) refl
      | inr q ↦ rw (p, q) (find_if-set es n v m)
    ]
  ]

-- A lookup that ignores case finds, after `set`, the value set when the name is the one set up to
-- case, and what it found before otherwise.
pub find-set :
    (entries : RawHeaders) (n v m : Bytes)
    → find (set entries n v) m ≡ (if iequals n m then some v else find entries m)
find-set = find_if-set iequals (map ascii_lower) iequals_iff

-- An exact lookup finds, after `set_exact`, the value set when the name is the one set, and what it
-- found before otherwise.
pub find_exact-set_exact :
    (entries : RawHeaders) (n v m : Bytes)
    → find_exact (set_exact entries n v) m ≡ (if same n m then some v else find_exact entries m)
find_exact-set_exact = find_if-set same (λ n. n) same_iff
