-- ===== src/Maps/Order.antt =====
-- The order of the keys in a map, and what a lookup finds after each change.
use cloudevents_sdk_cpp.Base.{
  ◌≡◌, refl, sym, ap, ◌⊎◌, inl, inr, true, false, none, some, [], ◌∷◌, ◌++◌, Bytes, same_iff,
  Bool-cases, All, arith,
}
use cloudevents_sdk_cpp.Base.Lists.{same}
use cloudevents_sdk_cpp.Maps.{Map, less, insert_or_assign, lookup, erase}

pub less_asym : (a b : Bytes) → less a b ≡ true → less b a ≡ false
unfolding less
less_asym a [] h = cc
less_asym [] (y ∷ ys) h = refl
less_asym (x ∷ xs) (y ∷ ys) h = ground (arith, less_asym xs ys)

less_irrefl : (a : Bytes) → less a a ≡ false
unfolding less
less_irrefl [] = refl
less_irrefl (x ∷ xs) = ground (arith, less_irrefl xs)

pub less_trans : (a b c : Bytes) → less a b ≡ true → less b c ≡ true → less a c ≡ true
unfolding less
less_trans a b [] h k = cc
less_trans a [] (z ∷ zs) h k = cc
less_trans [] (y ∷ ys) (z ∷ zs) h k = refl
less_trans (x ∷ xs) (y ∷ ys) (z ∷ zs) h k = ground (arith, less_trans xs ys zs)

pub less_total : (a b : Bytes) → less a b ≡ false → less b a ≡ false → a ≡ b
unfolding less
less_total [] [] h k = refl
less_total [] (y ∷ ys) h k = cc
less_total (x ∷ xs) [] h k = cc
less_total (x ∷ xs) (y ∷ ys) h k = ground (arith, less_total xs ys)

pub less-same : (a b : Bytes) → less a b ≡ true → same a b ≡ false
less-same a b h = elim (Bool-cases (same a b)) [
  | inl p ↦ let e = (same_iff a b).0 p in cc (rw e at h, less_irrefl b)
  | inr p ↦ p
]

pub less_cases :
    (a b : Bytes) → same a b ≡ false → (less a b ≡ true) ⊎ ((less a b ≡ false) × (less b a ≡ true))
less_cases a b d = elim (Bool-cases (less a b)) [
  | inl p ↦ inl p
  | inr p ↦ elim (Bool-cases (less b a)) [
    | inl q ↦ inr (p, q)
    | inr q ↦ let e = (same_iff a b).1 (less_total a b p q) in cc
  ]
]

-- the names in strictly ascending order, as `std::map` keeps them
module _ {V : Type 0} where
  abbrev pub Above : Bytes → Map V → Type 0
  Above name es = All (λ f. less name f.0 ≡ true) es

  abbrev pub Ordered : Map V → Type 0
  Ordered [] = Unit
  Ordered (e ∷ es) = Above e.0 es × Ordered es

  Above-insert :
      (name : Bytes) (es : Map V) (n : Bytes) (v : V)
      → less name n ≡ true
      → Above name es
      → Above name (insert_or_assign es n v)
  unfolding insert_or_assign
  Above-insert name [] n v h k = (h, tt)
  Above-insert name (e ∷ es) n v h (k, ks) = elim (Bool-cases (less n e.0)) [
    | inl p ↦ rw p (h, (k, ks))
    | inr p ↦ elim (Bool-cases (less e.0 n)) [
      | inl q ↦ rw (p, q) (k, Above-insert name es n v h ks)
      | inr q ↦ rw (p, q) (k, ks)
    ]
  ]

  pub Above-trans : (a b : Bytes) (es : Map V) → less a b ≡ true → Above b es → Above a es
  Above-trans a b [] h k = tt
  Above-trans a b (e ∷ es) h (k, ks) = (less_trans a b e.0 h k, Above-trans a b es h ks)

  pub insert_or_assign-Ordered :
      (es : Map V) (n : Bytes) (v : V) → Ordered es → Ordered (insert_or_assign es n v)
  unfolding insert_or_assign
  insert_or_assign-Ordered [] n v h = (tt, tt)
  insert_or_assign-Ordered (e ∷ es) n v (h, hs) = elim (Bool-cases (less n e.0)) [
    | inl p ↦ rw p ((p, Above-trans n e.0 es p h), (h, hs))
    | inr p ↦ elim (Bool-cases (less e.0 n)) [
      | inl q ↦ rw (p, q) (Above-insert e.0 es n v q h, insert_or_assign-Ordered es n v hs)
      | inr q ↦ rw (p, q) (h, hs)
    ]
  ]

  -- An entry behind all others is added at the end.
  pub insert_or_assign-last :
      (es : Map V) (n : Bytes) (v : V)
      → All (λ f. less f.0 n ≡ true) es
      → insert_or_assign es n v ≡ es ++ (n, v) ∷ []
  unfolding insert_or_assign
  insert_or_assign-last [] n v h = refl
  insert_or_assign-last (e ∷ es) n v (h, hs) =
      rw (less_asym e.0 n h, h) (ap (λ (t : Map V). e ∷ t) (insert_or_assign-last es n v hs))

  lookup-Above : (es : Map V) (n : Bytes) → Above n es → lookup es n ≡ none
  unfolding lookup
  lookup-Above [] n h = refl
  lookup-Above (e ∷ es) n (h, hs) = rw (less_asym n e.0 h, h) refl

  pub lookup-insert_same :
      (es : Map V) (n : Bytes) (v : V) → lookup (insert_or_assign es n v) n ≡ some v
  unfolding lookup insert_or_assign
  lookup-insert_same [] n v = rw (less_irrefl n) refl
  lookup-insert_same (e ∷ es) n v = elim (Bool-cases (less n e.0)) [
    | inl p ↦ rw (p, less_irrefl n) refl
    | inr p ↦ elim (Bool-cases (less e.0 n)) [
      | inl q ↦ rw (p, q, q) (lookup-insert_same es n v)
      | inr q ↦ rw (p, q, q, p) refl
    ]
  ]

  pub lookup-insert_other :
      (es : Map V) (n m : Bytes) (v : V)
      → Ordered es
      → same n m ≡ false
      → lookup (insert_or_assign es n v) m ≡ lookup es m
  unfolding lookup insert_or_assign
  lookup-insert_other [] n m v h d = elim (less_cases n m d) [
    | inl p ↦ rw p refl
    | inr (p, q) ↦ rw (p, q) refl
  ]
  lookup-insert_other (e ∷ es) n m v (h, hs) d = elim (Bool-cases (less n e.0)) [
    | inl p ↦ elim (less_cases n m d) [
      | inl q ↦ rw (p, q) refl
      | inr (q, r) ↦
          let t = less_trans m n e.0 r p in
          rw (p, q, r) (sym (lookup-Above (e ∷ es) m (t, Above-trans m e.0 es t h)))
    ]
    | inr p ↦ elim (Bool-cases (less e.0 n)) [
      | inl q ↦ elim (Bool-cases (less e.0 m)) [
        | inl r ↦ rw (p, q, r) (lookup-insert_other es n m v hs d)
        | inr r ↦ rw (p, q, r) refl
      ]
      | inr q ↦
          let e_is_n = less_total e.0 n q p in
          elim (less_cases e.0 m (rw (← e_is_n) at d)) [
            | inl r ↦ rw (p, q, r) refl
            | inr (r, t) ↦ rw (p, q, r, t) refl
          ]
    ]
  ]

  Above-erase : (name : Bytes) (es : Map V) (n : Bytes) → Above name es → Above name (erase es n)
  unfolding erase
  Above-erase name [] n h = tt
  Above-erase name (e ∷ es) n (h, hs) = elim (Bool-cases (less e.0 n)) [
    | inl p ↦ rw p (h, Above-erase name es n hs)
    | inr p ↦ elim (Bool-cases (less n e.0)) [ inl q ↦ rw (p, q) (h, hs) | inr q ↦ rw (p, q) hs ]
  ]

  pub erase-Ordered : (es : Map V) (n : Bytes) → Ordered es → Ordered (erase es n)
  unfolding erase
  erase-Ordered [] n h = tt
  erase-Ordered (e ∷ es) n (h, hs) = elim (Bool-cases (less e.0 n)) [
    | inl p ↦ rw p (Above-erase e.0 es n h, erase-Ordered es n hs)
    | inr p ↦ elim (Bool-cases (less n e.0)) [ inl q ↦ rw (p, q) (h, hs) | inr q ↦ rw (p, q) hs ]
  ]

  pub lookup-erase_same : (es : Map V) (n : Bytes) → Ordered es → lookup (erase es n) n ≡ none
  unfolding lookup erase
  lookup-erase_same [] n h = refl
  lookup-erase_same (e ∷ es) n (h, hs) = elim (Bool-cases (less e.0 n)) [
    | inl p ↦ rw (p, p) (lookup-erase_same es n hs)
    | inr p ↦ elim (Bool-cases (less n e.0)) [
      | inl q ↦ rw (p, q, p, q) refl
      | inr q ↦ let e_is_n = less_total e.0 n p q in rw (p, q) (lookup-Above es n (rw e_is_n at h))
    ]
  ]

  pub lookup-erase_other :
      (es : Map V) (n m : Bytes)
      → Ordered es
      → same n m ≡ false
      → lookup (erase es n) m ≡ lookup es m
  unfolding lookup erase
  lookup-erase_other [] n m h d = refl
  lookup-erase_other (e ∷ es) n m (h, hs) d = elim (Bool-cases (less e.0 n)) [
    | inl p ↦ rw (p, lookup-erase_other es n m hs d) refl
    | inr p ↦ elim (Bool-cases (less n e.0)) [
      | inl q ↦ rw (p, q) refl
      | inr q ↦
          let e_is_n = less_total e.0 n p q in
          elim (less_cases e.0 m (rw (← e_is_n) at d)) [
            | inl r ↦ rw (p, q, r) refl
            | inr (r, t) ↦ rw (p, q, r, t) (lookup-Above es m (Above-trans m e.0 es t h))
          ]
    ]
  ]
