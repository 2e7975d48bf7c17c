-- ===== src/Prelude/Maps.antt =====
-- Go's maps with string keys: association lists. A read of a missing key is `none`; an assignment
-- replaces the entry of the key in place, or adds one; `delete` drops it. `range` over a map
-- visits the entries in an unspecified order: an operation that ranges takes the order as an
-- argument, a function that permutes the entries.
use mathlib.Core.List.{List, [], ◌∷◌, map}
use mathlib.Core.Option.{Option, none, some}
use mathlib.Core.Path.{◌≡◌, refl}
use native.Mathlib.Omega.{arith}
use didcomm_prober.Prelude.Tests.{if◌then◌else◌}
use didcomm_prober.Prelude.Bytes.{Text, ◌==◌, eq_iff}

abbrev pub Assoc {ℓ} : Type ℓ → Type ℓ
Assoc V = List (Text × V)

module _ {ℓ} {V : Type ℓ} where
  unfoldable pub lookup : Text → Assoc V → Option V
  lookup key [] = none
  lookup key ((name, value) ∷ rest) = if name == key then some value else lookup key rest

  unfoldable pub insert : Text → V → Assoc V → Assoc V
  insert key new [] = (key, new) ∷ []
  insert key new ((name, value) ∷ rest) =
      if name == key then (key, new) ∷ rest else (name, value) ∷ insert key new rest

  unfoldable pub remove : Text → Assoc V → Assoc V
  remove k [] = []
  remove k ((j, v) ∷ m) = let rest = remove k m in if j == k then rest else (j, v) ∷ rest

  abbrev pub keys : Assoc V → List Text
  keys = map (λ e. e.0)

  abbrev pub values : Assoc V → List V
  values = map (λ e. e.1)

  pub lookup-insert :
      (key j : Text) (new : V) (m : Assoc V)
      → lookup j (insert key new m) ≡ (if key == j then some new else lookup j m)
  unfolding lookup insert
  lookup-insert key j new [] = refl
  lookup-insert key j new ((name, value) ∷ rest) =
      ground (arith, lookup-insert key j new rest, eq_iff name j, eq_iff name key, eq_iff key j)

  pub lookup-remove :
      (k j : Text) (m : Assoc V) → lookup j (remove k m) ≡ (if k == j then none else lookup j m)
  unfolding lookup remove
  lookup-remove k j [] = ground arith
  lookup-remove k j ((i, w) ∷ m) =
      ground (arith, eq_iff k j, eq_iff i k, eq_iff i j, lookup-remove k j m)
