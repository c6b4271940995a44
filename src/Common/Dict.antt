-- ===== src/Common/Dict.antt =====
-- Go's `map[string]V` as an association list. Go's order of iteration is not fixed: where the
-- program ranges over a map, the model ranges over a list that is given.
use Prim.Native.String.{String}
use mathlib.Core.Path.{◌≡◌, refl}
use mathlib.Core.Bool.{Bool, true, false}
use mathlib.Core.Option.{Option, none, some}
use mathlib.Core.List.{List, [], ◌∷◌, map}
use native.Mathlib.Omega.{arith}
use text.Mathlib.TextEquality.{eq_iff}
use meshsync.Common.Tests.{◌==◌, if◌then◌else◌}

abbrev pub Dict {ℓ} : Type ℓ → Type ℓ
Dict V = List (String × V)

module _ {ℓ} {V : Type ℓ} where
  -- v, ok := m[k]
  unfoldable pub lookup : Dict V → String → Option V
  lookup [] k = none
  lookup ((j, v) ∷ m) k = if j == k then some v else lookup m k

  -- m[k] = v
  unfoldable pub insert : Dict V → String → V → Dict V
  insert [] k v = (k, v) ∷ []
  insert ((j, w) ∷ m) k v = if j == k then (k, v) ∷ m else (j, w) ∷ insert m k v

  -- delete(m, k)
  unfoldable pub delete : Dict V → String → Dict V
  delete [] k = []
  delete ((j, w) ∷ m) k = let rest = delete m k in if j == k then rest else (j, w) ∷ rest

  abbrev pub keys : Dict V → List String
  keys = map (λ e. e.0)

  abbrev pub has : Option V → Bool
  has none = false
  has (some v) = true

  pub lookup-insert :
      (m : Dict V) (k j : String) (v : V)
      → lookup (insert m k v) j ≡ (if k == j then some v else lookup m j)
  unfolding lookup insert
  lookup-insert [] k j v = refl
  lookup-insert ((i, w) ∷ m) k j v =
      ground (arith, eq_iff k j, eq_iff i k, eq_iff i j, lookup-insert m k j v)

  pub lookup-delete :
      (m : Dict V) (k j : String) → lookup (delete m k) j ≡ (if k == j then none else lookup m j)
  unfolding lookup delete
  lookup-delete [] k j = ground arith
  lookup-delete ((i, w) ∷ m) k j =
      ground (arith, eq_iff k j, eq_iff i k, eq_iff i j, lookup-delete m k j)

  -- Writing what is there changes nothing.
  pub insert-same : (m : Dict V) (k : String) (v : V) → lookup m k ≡ some v → insert m k v ≡ m
  unfolding lookup insert
  insert-same [] k v h = cc
  insert-same ((j, w) ∷ m) k v h = ground (arith, insert-same m k v, eq_iff j k)

pub lookup-nil {ℓ} : {V : Type ℓ} (k : String) → lookup {V = V} [] k ≡ none
unfolding lookup
lookup-nil k = refl

pub ruleset dict_laws = (lookup-nil, lookup-insert, lookup-delete)
