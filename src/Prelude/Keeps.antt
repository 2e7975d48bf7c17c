-- ===== src/Prelude/Keeps.antt =====
-- Methods after which an invariant of the state still holds, whether they fail or not.
use didcomm_prober.Prelude.Errors.{Result, ok, err, panic}
use didcomm_prober.Prelude.Exec.{Exec, continue, pure, gets, lift, ◌>>=◌, wrapping}
use Prim.Native.String.{String}
use mathlib.Core.Bool.{Bool, true, false}
use didcomm_prober.Prelude.Tests.{if◌then◌else◌}

pub record Keeps {S A : Type 0} (P : S → Type 0) (m : Exec S A) : Type 0 where
  pub always : (s : S) → P s → P (m s).1

module _ {S : Type 0} {P : S → Type 0} where
  pub pure-Keeps : {A : Type 0} (a : A) → Keeps P (pure a)
  pure-Keeps a = record { always = λ s p. p }

  pub lift-Keeps : {A : Type 0} (r : Result A) → Keeps P (lift r)
  lift-Keeps r = record { always = λ s p. p }

  pub gets-Keeps : {A : Type 0} (f : S → Result A) → Keeps P (gets f)
  gets-Keeps f = record { always = λ s p. p }

  pub wrapping-Keeps : {A : Type 0} (t : String) {m : Exec S A} → Keeps P m → Keeps P (wrapping t m)
  wrapping-Keeps t k = record { always = k.always }

  continue-Keeps :
      {A B : Type 0} (r : Result A) {f : A → Exec S B}
      → ((a : A) → Keeps P (f a))
      → Keeps P (continue r f)
  continue-Keeps (ok a) rest = record { always = (rest a).always }
  continue-Keeps (err e) rest = record { always = λ s p. p }
  continue-Keeps panic rest = record { always = λ s p. p }

  -- what the first of two methods brings about and the second one keeps
  pub >>=-reaches :
      {A B : Type 0} (m : Exec S A) (f : A → Exec S B) (s : S)
      → P (m s).1
      → ((a : A) → Keeps P (f a))
      → P ((m >>= f) s).1
  >>=-reaches m f s p rest = (continue-Keeps (m s).0 rest).always (m s).1 p

  pub >>=-Keeps :
      {A B : Type 0} (m : Exec S A) (f : A → Exec S B)
      → Keeps P m
      → ((a : A) → Keeps P (f a))
      → Keeps P (m >>= f)
  >>=-Keeps m f first rest = record { always = λ s p. >>=-reaches m f s (first.always s p) rest }

  pub if-Keeps :
      {A : Type 0} (b : Bool) {m k : Exec S A}
      → Keeps P m
      → Keeps P k
      → Keeps P (if b then m else k)
  if-Keeps true yes_m no_m = yes_m
  if-Keeps false yes_m no_m = no_m

pub ruleset keeps_rules = (pure-Keeps, lift-Keeps, gets-Keeps, wrapping-Keeps, >>=-Keeps, if-Keeps)
