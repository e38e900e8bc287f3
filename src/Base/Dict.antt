-- ===== src/Base/Dict.antt =====
-- `Map` and `Set` with texts as keys: association lists and lists.
use mathlib.Core.Path.{◌≡◌, refl}
use mathlib.Core.Bool.{Bool, true, false, not}
use mathlib.Core.Option.{Option, none, some}
use mathlib.Core.List.{List, [], ◌∷◌}
use native.Mathlib.Omega.{arith}
use modbus_simulator_go.Base.Tests.{if◌then◌else◌}
use modbus_simulator_go.Base.Lists.{any, keep}
use modbus_simulator_go.Base.Strings.{Text, text_eq, text_eq_iff}

module _ {ℓ} {V : Type ℓ} where
  -- `map.get(key)`
  unfoldable pub entry : Text → List (Text × V) → Option V
  entry key [] = none
  entry key ((k, v) ∷ m) = if text_eq k key then some v else entry key m

  -- `map.set(key, value)`
  unfoldable pub put : Text → V → List (Text × V) → List (Text × V)
  put key v [] = (key, v) ∷ []
  put key v ((k, w) ∷ m) = if text_eq k key then (key, v) ∷ m else (k, w) ∷ put key v m

  -- `map.delete(key)`
  unfoldable pub remove : Text → List (Text × V) → List (Text × V)
  remove key [] = []
  remove key ((k, v) ∷ m) = if text_eq k key then remove key m else (k, v) ∷ remove key m

  -- `new Map(entries)`, on the map so far: a later entry replaces an earlier one.
  unfoldable pub put_all : List (Text × V) → List (Text × V) → List (Text × V)
  put_all [] m = m
  put_all ((k, v) ∷ entries) m = put_all entries (put k v m)

  pub entry-put :
      (key j : Text) (v : V) (m : List (Text × V))
      → entry j (put key v m) ≡ (if text_eq key j then some v else entry j m)
  unfolding entry put
  entry-put key j v [] = refl
  entry-put key j v ((i, w) ∷ m) =
      ground (arith, text_eq_iff key j, text_eq_iff i key, text_eq_iff i j, entry-put key j v m)

  pub entry-remove :
      (key j : Text) (m : List (Text × V))
      → entry j (remove key m) ≡ (if text_eq key j then none else entry j m)
  unfolding entry remove
  entry-remove key j [] = ground arith
  entry-remove key j ((i, w) ∷ m) =
      ground (arith, text_eq_iff key j, text_eq_iff i key, text_eq_iff i j, entry-remove key j m)

-- `set.has(key)`
unfoldable pub contains : Text → List Text → Bool
contains key s = any (λ k. text_eq k key) s

-- `set.add(key)`
unfoldable pub add : Text → List Text → List Text
unfolding contains
add key s = if contains key s then s else key ∷ s

-- `set.delete(key)`
unfoldable pub erase : Text → List Text → List Text
erase key s = keep (λ k. not (text_eq k key)) s

pub contains-add :
    (key j : Text) (s : List Text)
    → contains j (add key s) ≡ (if text_eq key j then true else contains j s)
unfolding contains add
contains-add key j s = ground (arith, text_eq_iff key j)

pub contains-erase :
    (key j : Text) (s : List Text)
    → contains j (erase key s) ≡ (if text_eq key j then false else contains j s)
unfolding contains erase
contains-erase key j [] = ground arith
contains-erase key j (k ∷ s) =
    ground (arith, text_eq_iff key j, text_eq_iff k key, text_eq_iff k j, contains-erase key j s)
