-- ===== src/Maps/Emplaced.antt =====
-- `emplace` and `insert_or_assign` on maps in order, entry after entry.
use cloudevents_sdk_cpp.Base.{
  ◌≡◌, refl, ap, sym, subst, ◌∙◌, inl, inr, true, [], ◌∷◌, ◌++◌, append_assoc, append-nil, Bytes,
  Bool-cases, All,
}
use cloudevents_sdk_cpp.Maps.{Map, less, emplace, insert_or_assign}
use cloudevents_sdk_cpp.Maps.Order.{Above, Ordered, Above-trans, insert_or_assign-last, less_total}

module _ {V : Type 0} where
  -- `emplace` of every entry of the second map
  unfoldable pub emplace_all : Map V → Map V → Map V
  emplace_all m [] = m
  emplace_all m (e ∷ es) = emplace_all (emplace m e.0 e.1) es

  unfoldable pub assign_all : Map V → Map V → Map V
  assign_all m [] = m
  assign_all m (e ∷ es) = assign_all (insert_or_assign m e.0 e.1) es

  pub emplace-All :
      (Q : Bytes × V → Type 0) (es : Map V) (n : Bytes) (v : V)
      → Q (n, v)
      → All Q es
      → All Q (emplace es n v)
  unfolding emplace
  emplace-All Q [] n v h k = (h, tt)
  emplace-All Q (e ∷ es) n v h (k, ks) = elim (Bool-cases (less n e.0)) [
    | inl p ↦ rw p (h, (k, ks))
    | inr p ↦ elim (Bool-cases (less e.0 n)) [
      | inl q ↦ rw (p, q) (k, emplace-All Q es n v h ks)
      | inr q ↦ rw (p, q) (k, ks)
    ]
  ]

  pub insert_or_assign-All :
      (Q : Bytes × V → Type 0) (es : Map V) (n : Bytes) (v : V)
      → Q (n, v)
      → All Q es
      → All Q (insert_or_assign es n v)
  unfolding insert_or_assign
  insert_or_assign-All Q [] n v h k = (h, tt)
  insert_or_assign-All Q (e ∷ es) n v h (k, ks) = elim (Bool-cases (less n e.0)) [
    | inl p ↦ rw p (h, (k, ks))
    | inr p ↦ elim (Bool-cases (less e.0 n)) [
      | inl q ↦ rw (p, q) (k, insert_or_assign-All Q es n v h ks)
      | inr q ↦ rw (p, q) (subst (λ m. Q (m, v)) (less_total n e.0 p q) h, ks)
    ]
  ]

  pub emplace-Ordered : (es : Map V) (n : Bytes) (v : V) → Ordered es → Ordered (emplace es n v)
  unfolding emplace
  emplace-Ordered [] n v h = (tt, tt)
  emplace-Ordered (e ∷ es) n v (h, hs) = elim (Bool-cases (less n e.0)) [
    | inl p ↦ rw p ((p, Above-trans n e.0 es p h), (h, hs))
    | inr p ↦ elim (Bool-cases (less e.0 n)) [
      | inl q ↦
          rw (p, q) (emplace-All (λ f. less e.0 f.0 ≡ true) es n v q h, emplace-Ordered es n v hs)
      | inr q ↦ rw (p, q) (h, hs)
    ]
  ]

  pub emplace_all-Ordered : (m es : Map V) → Ordered m → Ordered (emplace_all m es)
  unfolding emplace_all
  emplace_all-Ordered m [] h = h
  emplace_all-Ordered m (e ∷ es) h =
      emplace_all-Ordered (emplace m e.0 e.1) es (emplace-Ordered m e.0 e.1 h)

  pub emplace_all-All :
      (Q : Bytes × V → Type 0) (m es : Map V) → All Q m → All Q es → All Q (emplace_all m es)
  unfolding emplace_all
  emplace_all-All Q m [] h k = h
  emplace_all-All Q m (e ∷ es) h (k, ks) =
      emplace_all-All Q (emplace m e.0 e.1) es (emplace-All Q m e.0 e.1 k h) ks

  Above-middle :
      (n : Bytes) (xs : Map V) (e : Bytes × V) (ys : Map V)
      → Above n (xs ++ e ∷ ys)
      → less n e.0 ≡ true
  Above-middle n [] e ys (h, hs) = h
  Above-middle n (x ∷ xs) e ys (h, hs) = Above-middle n xs e ys hs

  Ordered-front :
      (xs : Map V) (e : Bytes × V) (ys : Map V)
      → Ordered (xs ++ e ∷ ys)
      → All (λ f. less f.0 e.0 ≡ true) xs
  Ordered-front [] e ys h = tt
  Ordered-front (x ∷ xs) e ys (h, hs) = ((Above-middle x.0 xs e ys h), Ordered-front xs e ys hs)

  -- Entries in order behind those of the map are appended.
  pub assign_all-append : (m es : Map V) → Ordered (m ++ es) → assign_all m es ≡ m ++ es
  unfolding assign_all
  assign_all-append m [] h = sym (append-nil m)
  assign_all-append m (e ∷ es) h =
      let assoc = append_assoc m (e ∷ []) es in
      rw (insert_or_assign-last m e.0 e.1 (Ordered-front m e es h))
        (assign_all-append (m ++ e ∷ []) es (rw (← assoc) at h) ∙ assoc)

module _ {V W : Type 0} (f : V → W) where
  -- the map with each value changed
  abbrev pub map_values : Map V → Map W
  map_values [] = []
  map_values (e ∷ es) = (e.0, f e.1) ∷ map_values es

  map_values-Above : (n : Bytes) (m : Map V) → Above n m → Above n (map_values m)
  map_values-Above n [] h = tt
  map_values-Above n (e ∷ es) (h, hs) = (h, map_values-Above n es hs)

  pub map_values-Ordered : (m : Map V) → Ordered m → Ordered (map_values m)
  map_values-Ordered [] h = tt
  map_values-Ordered (e ∷ es) (h, hs) = (map_values-Above e.0 es h, map_values-Ordered es hs)

  pub map_values-emplace :
      (m : Map V) (n : Bytes) (v : V) → map_values (emplace m n v) ≡ emplace (map_values m) n (f v)
  unfolding emplace
  map_values-emplace [] n v = refl
  map_values-emplace (e ∷ es) n v = elim (Bool-cases (less n e.0)) [
    | inl p ↦ rw p refl
    | inr p ↦ elim (Bool-cases (less e.0 n)) [
      | inl q ↦ rw (p, q) (ap (λ (t : Map W). (e.0, f e.1) ∷ t) (map_values-emplace es n v))
      | inr q ↦ rw (p, q) refl
    ]
  ]
