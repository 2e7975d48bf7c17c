-- ===== src/Prelude/Exec.antt =====
-- Methods that change a state and may fail. What was written before an error stays written.
use Prim.Native.String.{String}
use mathlib.Core.Path.{◌≡◌, refl}
use mathlib.Core.Bool.{Bool, true, false}
use didcomm_prober.Prelude.Tests.{if◌then◌else◌}
use didcomm_prober.Prelude.Errors.{Result, ok, err, panic, wrap}

abbrev pub Exec : Type 0 → Type 0 → Type 0
Exec S A = S → Result A × S

module _ {S A : Type 0} where
  abbrev pub pure : A → Exec S A
  pure a s = (ok a, s)

  abbrev pub lift : Result A → Exec S A
  lift r s = (r, s)

  abbrev pub gets : (S → Result A) → Exec S A
  gets f s = (f s, s)

  -- `if err != nil { return fmt.Errorf(m + " - %v", err) }` after a method
  abbrev pub wrapping : String → Exec S A → Exec S A
  wrapping m f s = (wrap m (f s).0, (f s).1)

  pub ends-eq : {a b : A} {s t : S} → ◌≡◌ {A = Result A × S} (ok a, s) (ok b, t) → (a ≡ b) × (s ≡ t)
  ends-eq h = (cc, cc)

module _ {S A B : Type 0} where
  abbrev pub continue : Result A → (A → Exec S B) → Exec S B
  continue (ok a) f s = f a s
  continue (err m) f s = (err m, s)
  continue panic f s = (panic, s)

  infixl 5 ◌>>=◌ ◌>>◌
  abbrev pub ◌>>=◌ : Exec S A → (A → Exec S B) → Exec S B
  ◌>>=◌ m f s = continue (m s).0 f (m s).1

  abbrev pub ◌>>◌ : Exec S A → Exec S B → Exec S B
  m >> k = m >>= λ _. k

  -- Inversion of a bind that ends well, for what follows from its two steps.
  pub continue-done :
      {C : Type 0} (r : Result A) (f : A → Exec S B) (s t : S) {b : B}
      → continue r f s ≡ (ok b, t)
      → ((a : A) → r ≡ ok a → f a s ≡ (ok b, t) → C)
      → C
  continue-done (ok a) f s t h next = next a refl h
  continue-done (err m) f s t h next = cc
  continue-done panic f s t h next = cc

  -- the same behind the text that an error gets
  pub wrapped-done :
      {C : Type 0} (m : String) (r : Result A) (f : A → Exec S B) (s t : S) {b : B}
      → continue (wrap m r) f s ≡ (ok b, t)
      → ((a : A) → r ≡ ok a → f a s ≡ (ok b, t) → C)
      → C
  wrapped-done m (ok a) f s t h next = next a refl h
  wrapped-done m (err e) f s t h next = cc
  wrapped-done m panic f s t h next = cc

module _ {S B : Type 0} where
  pub if-done :
      {C : Type 0} (b : Bool) (f g : Exec S B) (s t : S) {v : B}
      → (if b then f else g) s ≡ (ok v, t)
      → (b ≡ true → f s ≡ (ok v, t) → C)
      → (b ≡ false → g s ≡ (ok v, t) → C)
      → C
  if-done true f g s t h yes_case no_case = yes_case refl h
  if-done false f g s t h yes_case no_case = no_case refl h
