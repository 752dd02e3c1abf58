-- ===== src/Text.antt =====
-- include/cloudevents/attributes.hpp, the comparisons of ASCII text that ignore case, with
-- `std::string_view::starts_with` beside them.
use cloudevents_sdk_cpp.Base.{
  ℕ, ◌+◌, ◌-◌, ◌≡◌, refl, ◌↔◌, Bool, true, false, ◌&&◌, [], ◌∷◌, map, arith, Bytes, length, take,
  drop, same, leb, within, ◌==◌, if◌then◌else◌,
}

-- `character - 'A' + 'a'` on the upper case letters
unfoldable pub ascii_lower : ℕ → ℕ
ascii_lower c = if within 0x41 0x5a c then c - 0x41 + 0x61 else c

unfoldable pub iequals : Bytes → Bytes → Bool
iequals [] [] = true
iequals (x ∷ xs) (y ∷ ys) = ascii_lower x == ascii_lower y && iequals xs ys
iequals _ _ = false

unfoldable pub iends_with : Bytes → Bytes → Bool
iends_with text suffix =
    leb (length suffix) (length text) && iequals (drop (length text - length suffix) text) suffix

unfoldable pub starts_with_ignoring_case : Bytes → Bytes → Bool
starts_with_ignoring_case text prefix =
    leb (length prefix) (length text) && iequals (take (length prefix) text) prefix

unfoldable pub starts_with : Bytes → Bytes → Bool
starts_with text prefix =
    leb (length prefix) (length text) && same (take (length prefix) text) prefix

pub iequals_iff :
    (xs ys : Bytes) → (iequals xs ys ≡ true) ↔ (map ascii_lower xs ≡ map ascii_lower ys)
unfolding iequals
iequals_iff [] [] = (λ _. refl, λ _. refl)
iequals_iff [] (y ∷ ys) = (λ h. cc, λ h. cc)
iequals_iff (x ∷ xs) [] = (λ h. cc, λ h. cc)
iequals_iff (x ∷ xs) (y ∷ ys) = ground (arith, iequals_iff xs ys)
