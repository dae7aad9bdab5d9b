-- ===== src/Base/Store.antt =====
-- A JavaScript `Map` with string keys: an association list in insertion order.
use Prim.Native.String.{String}
use mathlib.Core.Path.{◌≡◌, refl}
use mathlib.Core.Option.{Option, none, some}
use mathlib.Core.List.{List, [], ◌∷◌}
use native.Mathlib.Omega.{arith}
use text.Mathlib.Text.{◌==◌}
use text.Mathlib.TextEquality.{eq_iff}
use text.Mathlib.TextPositions.{eq_refl}
use pe_hackathon.Base.Tests.{if◌then◌else◌}
use pe_hackathon.Base.Lists.{has}

abbrev pub Store {ℓ} : Type ℓ → Type ℓ
Store V = List (String × V)

module _ {ℓ} {V : Type ℓ} where
  -- `m.get(k)`
  unfoldable pub get : Store V → String → Option V
  get [] k = none
  get ((j, v) ∷ m) k = if j == k then some v else get m k

  -- `m.set(k, v)`
  unfoldable pub put : Store V → String → V → Store V
  put [] k v = (k, v) ∷ []
  put ((j, w) ∷ m) k v = if j == k then (j, v) ∷ m else (j, w) ∷ put m k v

  -- `m.delete(k)`
  unfoldable pub delete : Store V → String → Store V
  delete [] k = []
  delete ((j, w) ∷ m) k = let rest = delete m k in if j == k then rest else (j, w) ∷ rest

  -- `for (const k of [...m.keys()]) if (!ids.has(k)) m.delete(k)`
  unfoldable pub retain : List String → Store V → Store V
  retain ids [] = []
  retain ids ((j, w) ∷ m) = let rest = retain ids m in if has ids j then (j, w) ∷ rest else rest

  pub get-put :
      (m : Store V) (k j : String) (v : V)
      → get (put m k v) j ≡ (if k == j then some v else get m j)
  unfolding get put
  get-put [] k j v = refl
  get-put ((i, w) ∷ m) k j v = ground (arith, eq_iff k j, eq_iff i k, eq_iff i j, get-put m k j v)

  pub get-delete :
      (m : Store V) (k j : String) → get (delete m k) j ≡ (if k == j then none else get m j)
  unfolding get delete
  get-delete [] k j = ground arith
  get-delete ((i, w) ∷ m) k j = ground (arith, eq_iff k j, eq_iff i k, eq_iff i j, get-delete m k j)

  pub get-retain :
      (ids : List String) (m : Store V) (j : String)
      → get (retain ids m) j ≡ (if has ids j then get m j else none)
  unfolding get retain
  get-retain ids [] j = ground arith
  get-retain ids ((i, w) ∷ m) j = ground (arith, eq_iff i j, get-retain ids m j)

pub ruleset store_laws = (get-put, get-delete, get-retain)

module _ {ℓ} {V : Type ℓ} (m : Store V) (k : String) where
  pub get-put_self : (v : V) → get (put m k v) k ≡ some v
  get-put_self v = rw (get-put m k k v) (rw (eq_refl k))

  pub get-delete_self : get (delete m k) k ≡ none
  get-delete_self = rw (get-delete m k k) (rw (eq_refl k))
