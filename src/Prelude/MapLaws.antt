-- ===== src/Prelude/MapLaws.antt =====
-- Maps whose keys are distinct, which all maps that the operations build are.
use mathlib.Core.List.{List, [], ◌∷◌, Permᴰ}
use Prim.Native.Nat.{suc}
use mathlib.Core.Option.{none, some}
use mathlib.Core.Path.{◌≡◌, refl, ap, ◌∙◌}
use native.Mathlib.Omega.{arith}
use didcomm_prober.Prelude.Lists.{All, length}
use didcomm_prober.Prelude.Bytes.{Text, eq_iff, eq_refl}
use didcomm_prober.Prelude.Maps.{Assoc, lookup, insert, remove, lookup-insert, lookup-remove}

-- An order in which `range` visits: it permutes the entries.
abbrev pub IsRange {ℓ} : {A : Type ℓ} → (List A → List A) → Type ℓ
IsRange {A} f = (xs : List A) → Permᴰ (f xs) xs

module _ {ℓ} {V : Type ℓ} where
  abbrev pub IsMap : Assoc V → Type ℓ
  IsMap [] = Unit
  IsMap ((k, v) ∷ m) = (lookup k m ≡ none) × IsMap m

  pub insert-IsMap : (k : Text) (v : V) (m : Assoc V) → IsMap m → IsMap (insert k v m)
  unfolding insert lookup
  insert-IsMap k v [] h = (refl, tt)
  insert-IsMap k v ((j, w) ∷ m) h =
      ground (arith, eq_iff j k, eq_iff k j, lookup-insert k j v m, insert-IsMap k v m h.1)

  pub remove-IsMap : (k : Text) (m : Assoc V) → IsMap m → IsMap (remove k m)
  unfolding remove
  remove-IsMap k [] h = tt
  remove-IsMap k ((j, w) ∷ m) h =
      ground (arith, eq_iff j k, eq_iff k j, lookup-remove k j m, remove-IsMap k m h.1)

  module _ {κ} (P : Text × V → Type κ) where
    pub All-of_lookup :
        (m : Assoc V) → IsMap m → ((k : Text) (v : V) → lookup k m ≡ some v → P (k, v)) → All P m
    unfolding lookup
    All-of_lookup [] h f = tt
    All-of_lookup ((j, w) ∷ m) h f = (
      f j w (rw (eq_refl j)),
      All-of_lookup m h.1 (λ k v e. f k v (lookup_behind j k w v m h.0 e)),
    )
      where
        lookup_behind :
            (i k : Text) (w v : V) (m : Assoc V)
            → lookup i m ≡ none
            → lookup k m ≡ some v
            → lookup k ((i, w) ∷ m) ≡ some v
        lookup_behind i k w v m a b = ground (arith, eq_iff i k)

    pub lookup-All : (m : Assoc V) (k : Text) (v : V) → All P m → lookup k m ≡ some v → P (k, v)
    unfolding lookup
    lookup-All [] k v h e = cc
    lookup-All ((j, w) ∷ m) k v h e = ground (arith, eq_iff j k, lookup-All m k v h.1)

module _ {ℓ κ} {A : Type ℓ} (P : A → Type κ) where
  pub All-perm : {xs ys : List A} → Permᴰ xs ys → All P ys → All P xs
  All-perm Permᴰ.nil h = tt
  All-perm (Permᴰ.cons e p) h = (rw e h.0, All-perm p h.1)
  All-perm (Permᴰ.swap e f) h = (rw e h.1.0, (rw f h.0, h.1.1))
  All-perm (Permᴰ.trans p q) h = All-perm p (All-perm q h)

pub length-perm {ℓ} : {A : Type ℓ} {xs ys : List A} → Permᴰ xs ys → length xs ≡ length ys
length-perm Permᴰ.nil = refl
length-perm (Permᴰ.cons e p) = ap suc (length-perm p)
length-perm (Permᴰ.swap e f) = refl
length-perm (Permᴰ.trans p q) = length-perm p ∙ length-perm q
