-- ===== src/Base/OrderedMap.antt =====
-- A JavaScript `Map` with string keys: the entries in insertion order. Writing a key that is there
-- keeps its place.
use mathlib.Core.Path.{◌≡◌, refl}
use mathlib.Core.Bool.{Bool}
use mathlib.Core.Option.{Option, none, some}
use mathlib.Core.List.{List, [], ◌∷◌}
use native.Mathlib.Omega.{arith}
use file_harbor.Base.Tests.{if◌then◌else◌, is_some}
use file_harbor.Base.Lists.{All}
use file_harbor.Base.Texts.{Text, ◌===◌, ===_iff}

module _ {ℓ} {V : Type ℓ} where
  unfoldable pub get : Text → List (Text × V) → Option V
  get k [] = none
  get k ((j, v) ∷ m) = if j === k then some v else get k m

  unfoldable pub put : Text → V → List (Text × V) → List (Text × V)
  put k v [] = (k, v) ∷ []
  put k v ((j, w) ∷ m) = if j === k then (j, v) ∷ m else (j, w) ∷ put k v m

  unfoldable pub delete : Text → List (Text × V) → List (Text × V)
  delete k [] = []
  delete k ((j, w) ∷ m) = if j === k then delete k m else (j, w) ∷ delete k m

  unfoldable pub has : Text → List (Text × V) → Bool
  unfolding get
  has k m = is_some (get k m)

  unfoldable pub values : List (Text × V) → List V
  values [] = []
  values ((k, v) ∷ m) = v ∷ values m

  -- A lookup after a write.
  pub get-put :
      (k j : Text) (v : V) (m : List (Text × V))
      → get j (put k v m) ≡ (if k === j then some v else get j m)
  unfolding get put
  get-put k j v [] = refl
  get-put k j v ((i, w) ∷ m) =
      ground (arith, ===_iff k j, ===_iff i k, ===_iff i j, get-put k j v m)

  -- A lookup after a removal.
  pub get-delete :
      (k j : Text) (m : List (Text × V)) → get j (delete k m) ≡ (if k === j then none else get j m)
  unfolding get delete
  get-delete k j [] = ground arith
  get-delete k j ((i, w) ∷ m) =
      ground (arith, ===_iff k j, ===_iff i k, ===_iff i j, get-delete k j m)

  pub values-put :
      (P : V → Type 0) (k : Text) (v : V) (m : List (Text × V))
      → P v
      → All P (values m)
      → All P (values (put k v m))
  unfolding values put
  values-put P k v [] p h = (p, tt)
  values-put P k v ((i, w) ∷ m) p (q, h) = ground (arith, values-put P k v m p h)
