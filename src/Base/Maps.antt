-- ===== src/Base/Maps.antt =====
-- Go's `map[string]string`, as the labels and annotations of an object: an association list. A nil
-- map reads like an empty one.
use Prim.Native.String.{String}
use mathlib.Core.Path.{◌≡◌, refl}
use mathlib.Core.Option.{Option, none, some}
use mathlib.Core.List.{List, [], ◌∷◌}
use native.Mathlib.Omega.{arith}
use aergia_controller.Base.Tests.{◌==◌, ==_iff, if◌then◌else◌}

abbrev pub StringMap : Type 0
StringMap = List (String × String)

-- `v, ok := m[k]`
unfoldable pub lookup : String → StringMap → Option String
lookup k [] = none
lookup k ((j, v) ∷ m) = if k == j then some v else lookup k m

abbrev pub or_empty : Option String → String
or_empty none = ""
or_empty (some v) = v

-- `m[k]`, the empty text where the key is missing.
abbrev pub value_at : String → StringMap → String
value_at k m = or_empty (lookup k m)

unfoldable pub insert : String → String → StringMap → StringMap
insert k v [] = (k, v) ∷ []
insert k v ((j, w) ∷ m) = if k == j then (k, v) ∷ m else (j, w) ∷ insert k v m

unfoldable pub erase : String → StringMap → StringMap
erase k [] = []
erase k ((j, w) ∷ m) = let rest = erase k m in if k == j then rest else (j, w) ∷ rest

pub lookup-insert :
    (j k v : String) (m : StringMap)
    → lookup j (insert k v m) ≡ (if j == k then some v else lookup j m)
unfolding lookup insert
lookup-insert j k v [] = refl
lookup-insert j k v ((i, w) ∷ m) =
    ground (arith, ==_iff k i, ==_iff j i, ==_iff j k, lookup-insert j k v m)

pub lookup-erase :
    (j k : String) (m : StringMap) → lookup j (erase k m) ≡ (if j == k then none else lookup j m)
unfolding lookup erase
lookup-erase j k [] = ground arith
lookup-erase j k ((i, w) ∷ m) =
    ground (arith, ==_iff k i, ==_iff j i, ==_iff j k, lookup-erase j k m)
