-- ===== src/Event/Extensions.antt =====
-- The extensions of an event: what is found after each change, and that nothing else changes
-- (include/cloudevents/core.hpp).
use cloudevents_sdk_cpp.Base.{
  ◌≡◌, refl, inl, inr, Bool-cases, Option, none, some, Bytes, same_iff, if◌then◌else◌,
}
use cloudevents_sdk_cpp.Base.Lists.{same}
use cloudevents_sdk_cpp.Headers.{is_some}
use cloudevents_sdk_cpp.Platform.{Platform}
use cloudevents_sdk_cpp.Maps.{insert_or_assign, lookup, erase}
use cloudevents_sdk_cpp.Maps.Order.{
  Ordered, insert_or_assign-Ordered, lookup-insert_same, lookup-insert_other, erase-Ordered,
  lookup-erase_same, lookup-erase_other,
}
use cloudevents_sdk_cpp.Event.{
  AttributeValue, ExtensionMap, Event, set_extension, remove_found, remove_extension, extension,
}

-- The extensions of the second event are in order, the one of that name is the value given, or none,
-- the others are those of the first event, and so is all else.
pub record Replaces {P : Platform} (e e' : Event P) (n : Bytes) (value : Option AttributeValue)
    : Type 0 where
  pub ordered : Ordered e'.rest.extensions
  pub found : (m : Bytes) → extension e' m ≡ (if same n m then value else extension e m)
  pub kept : e' ≡ record e { rest = record e.rest { extensions = e'.rest.extensions } }

lookup-insert_or_assign :
    (es : ExtensionMap) (n m : Bytes) (v : AttributeValue)
    → Ordered es
    → lookup (insert_or_assign es n v) m ≡ (if same n m then some v else lookup es m)
lookup-insert_or_assign es n m v h = elim (Bool-cases (same n m)) [
  | inl p ↦ rw (p, (same_iff n m).0 p) (lookup-insert_same es m v)
  | inr p ↦ rw p (lookup-insert_other es n m v h p)
]

lookup-erase :
    (es : ExtensionMap) (n m : Bytes)
    → Ordered es
    → lookup (erase es n) m ≡ (if same n m then none else lookup es m)
lookup-erase es n m h = elim (Bool-cases (same n m)) [
  | inl p ↦ rw (p, (same_iff n m).0 p) (lookup-erase_same es m h)
  | inr p ↦ rw p (lookup-erase_other es n m h p)
]

lookup_absent :
    (es : ExtensionMap) (n m : Bytes)
    → lookup es n ≡ none
    → lookup es m ≡ (if same n m then none else lookup es m)
lookup_absent es n m h = elim (Bool-cases (same n m)) [
  | inl p ↦ let e = (same_iff n m).0 p in rw (p, ← e, h) refl
  | inr p ↦ rw p refl
]

-- On an event whose extensions are in the order of `std::map`, `set_extension` keeps them in order,
-- `extension` then finds the value under that name and what it found before under every other name,
-- and nothing else of the event changes.
pub set_extension_lem :
    {P : Platform} (e : Event P) (n : Bytes) (v : AttributeValue)
    → Ordered e.rest.extensions
    → Replaces e (set_extension e n v) n (some v)
unfolding set_extension extension
set_extension_lem e n v h = record {
  ordered = insert_or_assign-Ordered e.rest.extensions n v h;
  found = λ m. lookup-insert_or_assign e.rest.extensions n m v h;
  kept = refl;
}

remove_found-Replaces :
    {P : Platform} (e : Event P) (n : Bytes) (found : Option AttributeValue)
    → Ordered e.rest.extensions
    → lookup e.rest.extensions n ≡ found
    → ((remove_found e n found).1 ≡ is_some found) × Replaces e (remove_found e n found).0 n none
unfolding extension
remove_found-Replaces e n none h p =
    (refl, record { ordered = h; found = λ m. lookup_absent e.rest.extensions n m p; kept = refl })
remove_found-Replaces e n (some v) h p = (
  refl,
  record {
    ordered = erase-Ordered e.rest.extensions n h;
    found = λ m. lookup-erase e.rest.extensions n m h;
    kept = refl;
  },
)

-- On an event whose extensions are in the order of `std::map`, `remove_extension` returns whether
-- `extension` finds the name, keeps the extensions in order, leaves none under that name and those
-- under every other name, and nothing else of the event changes.
pub remove_extension_lem :
    {P : Platform} (e : Event P) (n : Bytes)
    → Ordered e.rest.extensions
    → ((remove_extension e n).1 ≡ is_some (extension e n))
      × Replaces e (remove_extension e n).0 n none
unfolding remove_extension extension
remove_extension_lem e n h = remove_found-Replaces e n (lookup e.rest.extensions n) h refl
