-- ===== src/Prelude/MapPerm.antt =====
-- Maps that answer alike have the same entries, in some order.
use mathlib.Core.List.{[], ◌∷◌, Permᴰ, Nodup, Nodup-cons, Nodup-nil, Mem, mem-cons, not-mem-nil}
use mathlib.Core.HLevel.{⊥_prop}
use mathlib.Core.List.Permᴰ
use mathlib.Core.Logic.Or
use mathlib.Core.Logic.{inl, inr}
use mathlib.Core.Option.{none, some}
use mathlib.Core.Path.{◌≡◌, refl}
use native.Mathlib.Omega.{arith}
use didcomm_prober.Prelude.Tests.{Bool-cases}
use didcomm_prober.Prelude.Bytes.{Text, ◌==◌, eq_iff, eq_refl}
use didcomm_prober.Prelude.Maps.{Assoc, lookup, remove, lookup-remove, keys}
use didcomm_prober.Prelude.MapLaws.{IsMap, remove-IsMap}

module _ {ℓ} {V : Type ℓ} where
  remove_absent : (k : Text) (m : Assoc V) → lookup k m ≡ none → remove k m ≡ m
  unfolding lookup remove
  remove_absent k [] h = refl
  remove_absent k ((j, v) ∷ m) h = ground (arith, remove_absent k m)

  remove_absent-perm : (k : Text) (m : Assoc V) → lookup k m ≡ none → Permᴰ m (remove k m)
  remove_absent-perm k m h = rw (remove_absent k m h) (Permᴰ.refl m)

  remove-perm :
      (k : Text) (v : V) (m : Assoc V)
      → IsMap m
      → lookup k m ≡ some v
      → Permᴰ m ((k, v) ∷ remove k m)
  unfolding lookup remove
  remove-perm k v [] d h = cc
  remove-perm k v ((j, w) ∷ m) d h = elim (Bool-cases (j == k)) [
    | inl e ↦
        let same : j ≡ k = (eq_iff j k).0 e in
        rw e
          (Permᴰ.cons (ground (arith, same)) (remove_absent-perm k m (ground (arith, same, d.0))))
    | inr e ↦ rw e (
        Permᴰ.trans (Permᴰ.cons refl (remove-perm k v m d.1 (ground arith))) (Permᴰ.swap refl refl))
  ]

  pub perm_of_lookup :
      (m n : Assoc V) → IsMap m → IsMap n → ((k : Text) → lookup k m ≡ lookup k n) → Permᴰ m n
  unfolding lookup
  perm_of_lookup [] [] d e h = Permᴰ.nil
  perm_of_lookup [] ((k, v) ∷ n) d e h = absurd (ground (arith, h k, eq_refl k))
  perm_of_lookup ((k, v) ∷ m) n d e h =
      Permᴰ.trans
        (Permᴰ.cons refl (
          perm_of_lookup m (remove k n) d.1 (remove-IsMap k n e)
            (λ j. ground (arith, h j, lookup-remove k j n, eq_iff k j, d.0))))
        (Permᴰ.symm (remove-perm k v n e (ground (arith, h k, eq_refl k))))

  not-mem-keys : (k : Text) (m : Assoc V) → lookup k m ≡ none → ¬ Mem k (keys m)
  unfolding lookup
  not-mem-keys k [] h = not-mem-nil
  not-mem-keys k ((j, v) ∷ m) h = λ i.
      Or.elim ⊥_prop (mem-cons.0 i) (λ e. ground (arith, eq_iff j k))
        (not-mem-keys k m (ground arith))

  pub keys-Nodup : (m : Assoc V) → IsMap m → Nodup (keys m)
  keys-Nodup [] d = Nodup-nil
  keys-Nodup ((k, v) ∷ m) d = Nodup-cons.1 (not-mem-keys k m d.0, keys-Nodup m d.1)
