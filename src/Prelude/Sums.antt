-- ===== src/Prelude/Sums.antt =====
-- Sums over lists, and the number that a test stands for.
use Prim.Native.Nat.{ℕ, ◌+◌}
use mathlib.Core.Bool.{Bool, true, false}
use mathlib.Core.List.{List, [], ◌∷◌, Permᴰ}
use mathlib.Core.Path.{◌≡◌, refl, ap, ◌∙◌}
use native.Mathlib.Omega.{arith}

abbrev pub one_if : Bool → ℕ
one_if true = 1
one_if false = 0

module _ {ℓ} {A : Type ℓ} where
  abbrev pub total : (A → ℕ) → List A → ℕ
  total g [] = 0
  total g (x ∷ xs) = g x + total g xs

  pub total-perm : (g : A → ℕ) {xs ys : List A} → Permᴰ xs ys → total g xs ≡ total g ys
  total-perm g Permᴰ.nil = refl
  total-perm g (Permᴰ.cons e p) = omega (arith, ap g e, total-perm g p)
  total-perm g (Permᴰ.swap d e) = omega (arith, ap g d, ap g e)
  total-perm g (Permᴰ.trans p q) = total-perm g p ∙ total-perm g q

  -- A sum whose terms are all 0.
  pub total_none : (g : A → ℕ) (xs : List A) → ((x : A) → g x ≡ 0) → total g xs ≡ 0
  total_none g [] h = refl
  total_none g (x ∷ xs) h = omega (arith, h x, total_none g xs h)
