-- ===== src/Prelude/StringMap.antt =====
-- A JavaScript `Map` with string keys: its entries in the order in which the keys were first set.
use mathlib.Core.Path.{◌≡◌, refl}
use mathlib.Core.Option.{Option, none, some}
use mathlib.Core.Bool.{false}
use mathlib.Core.List.{List, [], ◌∷◌}
use native.Mathlib.Omega.{arith}
use Prim.Native.String.{String}
use text.Mathlib.Text.{◌==◌ as str_eq}
use text.Mathlib.TextEquality.{eq_iff}
use ivrm_dashboard.Prelude.Tests.{if◌then◌else◌}

module _ {ℓ} {V : Type ℓ} where
  abbrev pub get : String → List (String × V) → Option V
  get k [] = none
  get k ((j, v) ∷ m) = if str_eq j k then some v else get k m

  -- `m.set(k, v)`: a key that is present keeps its place.
  abbrev pub set : String → V → List (String × V) → List (String × V)
  set k v [] = (k, v) ∷ []
  set k v ((j, w) ∷ m) = if str_eq j k then (j, v) ∷ m else (j, w) ∷ set k v m

  -- `m.delete(k)`
  abbrev pub delete : String → List (String × V) → List (String × V)
  delete k [] = []
  delete k ((j, w) ∷ m) = let rest = delete k m in if str_eq j k then rest else (j, w) ∷ rest

  abbrev pub values : List (String × V) → List V
  values [] = []
  values ((j, v) ∷ m) = v ∷ values m

  pub get-set :
      (k j : String) (v : V) (m : List (String × V))
      → get j (set k v m) ≡ (if str_eq k j then some v else get j m)
  get-set k j v [] = refl
  get-set k j v ((i, w) ∷ m) = ground (arith, eq_iff k j, eq_iff i k, eq_iff i j, get-set k j v m)

  pub get-delete :
      (k j : String) (m : List (String × V))
      → get j (delete k m) ≡ (if str_eq k j then none else get j m)
  get-delete k j [] = ground (arith, eq_iff k j)
  get-delete k j ((i, w) ∷ m) = ground (arith, eq_iff k j, eq_iff i k, eq_iff i j, get-delete k j m)

  pub delete-set : (k : String) (v : V) (m : List (String × V)) → delete k (set k v m) ≡ delete k m
  delete-set k v [] = ground (arith, eq_iff k k)
  delete-set k v ((i, w) ∷ m) = ground (arith, eq_iff i k, delete-set k v m)

  pub delete_comm :
      (k j : String) (m : List (String × V)) → delete k (delete j m) ≡ delete j (delete k m)
  delete_comm k j [] = refl
  delete_comm k j ((i, w) ∷ m) = ground (arith, delete_comm k j m)

  pub delete-set_comm :
      (k j : String) (v : V) (m : List (String × V))
      → str_eq j k ≡ false
      → delete k (set j v m) ≡ set j v (delete k m)
  delete-set_comm k j v [] e = ground (arith)
  delete-set_comm k j v ((i, w) ∷ m) e =
      ground (arith, eq_iff i j, eq_iff i k, eq_iff j k, delete-set_comm k j v m e)
