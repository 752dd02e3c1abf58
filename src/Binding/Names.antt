-- ===== src/Binding/Names.antt =====
-- The names of extensions are lower case, by the pattern of include/cloudevents/attributes.hpp.
use cloudevents_sdk_cpp.Base.{
  ℕ, ◌≡◌, refl, inl, inr, Bool, true, ◌||◌, [], ◌∷◌, Bytes, All, codes, arith, Bool-cases, within,
}
use cloudevents_sdk_cpp.Text.{ascii_lower}
use cloudevents_sdk_cpp.Platform.{Platform}
use cloudevents_sdk_cpp.Attributes.{extension_name_policy}
use cloudevents_sdk_cpp.Event.{Event, ExtensionMap}
use cloudevents_sdk_cpp.Binding.Carried.{attributes_of, extension_texts, IsName}
use cloudevents_sdk_cpp.Binding.Collected.{IsValid, Passes}
use cloudevents_sdk_cpp.Binding.Separate.{optionals-All}

-- `[a-z0-9]`
abbrev pub in_name : ℕ → Bool
in_name c = within b'a' b'z' c || within b'0' b'9' c

-- What the pattern `^[a-z0-9]+$` says of a name that it matches.
abbrev pub MatchesNames : Platform → Type 0
MatchesNames P = (n : Bytes) → P.match_attribute_name n ≡ true → All (λ c. in_name c ≡ true) n

-- The pattern matches each name of one or more of its characters.
abbrev pub AcceptsNames : Platform → Type 0
AcceptsNames P =
    (c : ℕ) (cs : Bytes)
    → All (λ d. in_name d ≡ true) (c ∷ cs)
    → P.match_attribute_name (c ∷ cs) ≡ true

in_name-IsName : (n : Bytes) → All (λ c. in_name c ≡ true) n → IsName n
unfolding ascii_lower
in_name-IsName [] h = refl
in_name-IsName (c ∷ cs) (h, hs) = ground (arith, in_name-IsName cs hs)

module _ (P : Platform) (law : MatchesNames P) where
  Passes-IsName : (n : Bytes) → Passes (extension_name_policy P) n → IsName n
  Passes-IsName n h = elim (Bool-cases (P.match_attribute_name n)) [
    | inl p ↦ in_name-IsName n (law n p)
    | inr p ↦ cc (rw p at h)
  ]

  pub extensions-IsName :
      (es : ExtensionMap)
      → All (λ x. Passes (extension_name_policy P) x.0) es
      → All (λ f. IsName f.0) (extension_texts es)
  extensions-IsName [] h = tt
  extensions-IsName (e ∷ es) (h, hs) = (Passes-IsName e.0 h, extensions-IsName es hs)

module _ (P : Platform) (accepts : AcceptsNames P) where
  abbrev pub IsMatched : Bytes → Type 0
  IsMatched n = P.match_attribute_name n ≡ true

  Passes-IsMatched : (n : Bytes) → Passes (extension_name_policy P) n → IsMatched n
  Passes-IsMatched n h = elim (Bool-cases (P.match_attribute_name n)) [
    | inl p ↦ p
    | inr p ↦ cc (rw p at h)
  ]

  extensions-IsMatched :
      (es : ExtensionMap)
      → All (λ x. Passes (extension_name_policy P) x.0) es
      → All (λ f. IsMatched f.0) (extension_texts es)
  extensions-IsMatched [] h = tt
  extensions-IsMatched (e ∷ es) (h, hs) = (Passes-IsMatched e.0 h, extensions-IsMatched es hs)

  pub specversion-IsMatched : IsMatched (codes "specversion")
  specversion-IsMatched =
      accepts b's' (codes "pecversion")
        (refl, (refl, (refl, (refl, (refl, (refl, (refl, (refl, (refl, (refl, (refl, tt)))))))))))

  -- The names of all attributes match.
  pub attributes_of-IsMatched :
      (e : Event P) → IsValid e → All (λ a. IsMatched a.0) (attributes_of e)
  attributes_of-IsMatched e h =
      let name =
        λ (c : ℕ) (cs : Bytes) (q : All (λ d. in_name d ≡ true) (c ∷ cs)). accepts c cs q in
      (
        specversion-IsMatched,
        (
          name b'i' (codes "d") (refl, (refl, tt)),
          (
            name b's' (codes "ource") (refl, (refl, (refl, (refl, (refl, (refl, tt)))))),
            (
              name b't' (codes "ype") (refl, (refl, (refl, (refl, tt)))),
              optionals-All (λ a. IsMatched a.0) e
                  (λ v. name b'd' (codes "ataschema") (
                    refl,
                    (refl, (refl, (refl, (refl, (refl, (refl, (refl, (refl, (refl, tt))))))))),
                  ))
                  (λ v.
                    name b's' (codes "ubject")
                      (refl, (refl, (refl, (refl, (refl, (refl, (refl, tt))))))))
                  (λ v. name b't' (codes "ime") (refl, (refl, (refl, (refl, tt)))))
                  (extensions-IsMatched e.rest.extensions h.names),
            ),
          ),
        ),
      )
