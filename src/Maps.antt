-- ===== src/Maps.antt =====
-- `std::map` with strings as keys, as the list of its entries in the order of the keys: `core.hpp`
-- holds the extensions of an event so, and `format/protobuf_format.hpp` the attributes it reads and
-- writes (both under include/cloudevents).
pub mod Order
pub mod Emplaced
use cloudevents_sdk_cpp.Base.{
  ℕ, Bool, true, false, Option, none, some, List, [], ◌∷◌, Bytes, ltb, if◌then◌else◌,
}

abbrev pub Map : Type 0 → Type 0
Map V = List (Bytes × V)

-- `<` on strings
unfoldable pub less : Bytes → Bytes → Bool
less _ [] = false
less [] (y ∷ ys) = true
less (x ∷ xs) (y ∷ ys) = if ltb x y then true else if ltb y x then false else less xs ys

module _ {V : Type 0} where
  -- `std::map::insert_or_assign`
  unfoldable pub insert_or_assign : Map V → Bytes → V → Map V
  insert_or_assign [] name value = (name, value) ∷ []
  insert_or_assign (e ∷ es) name value =
      if less name e.0
      then (name, value) ∷ e ∷ es
      else if less e.0 name
      then e ∷ insert_or_assign es name value
      else (e.0, value) ∷ es

  -- `std::map::find`, which the order of the names defines
  unfoldable pub lookup : Map V → Bytes → Option V
  lookup [] name = none
  lookup (e ∷ es) name =
      if less e.0 name then lookup es name else if less name e.0 then none else some e.1

  -- `std::map::erase` of the entry of that name
  unfoldable pub erase : Map V → Bytes → Map V
  erase [] name = []
  erase (e ∷ es) name =
      if less e.0 name then e ∷ erase es name else if less name e.0 then e ∷ es else es

  -- `std::map::emplace`, which keeps what is there
  unfoldable pub emplace : Map V → Bytes → V → Map V
  emplace [] name value = (name, value) ∷ []
  emplace (e ∷ es) name value =
      if less name e.0
      then (name, value) ∷ e ∷ es
      else if less e.0 name
      then e ∷ emplace es name value
      else e ∷ es
