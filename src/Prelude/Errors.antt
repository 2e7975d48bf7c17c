-- ===== src/Prelude/Errors.antt =====
-- What a Go function that may fail comes back with, and methods that change a state.
use mathlib.Core.Bool.{Bool, true, false}
use mathlib.Core.List.{List, [], ◌∷◌}
use mathlib.Core.Option.{Option, none, some}
use mathlib.Core.Logic.{◌⊎◌, inl, inr}
use mathlib.Core.Path.{◌≡◌, refl}
use Prim.Native.String.{String}

-- `err ms` is an error whose message is the chain `ms`, the outermost `fmt.Errorf` first and its
-- formatted arguments left out; `panic` is a run-time panic.
pub data Result {ℓ} (A : Type ℓ) : Type ℓ where
  ok : A → Result A
  err : List String → Result A
  panic : Result A

infixl 5 ◌>>=◌
abbrev pub ◌>>=◌ {ℓ κ} : {A : Type ℓ} {B : Type κ} → Result A → (A → Result B) → Result B
panic >>= next = panic
err ms >>= next = err ms
ok a >>= next = next a

abbrev pub fail {ℓ} : {A : Type ℓ} → String → Result A
fail m = err (m ∷ [])

-- `if err != nil { return fmt.Errorf(m + " - %v", err) }`
abbrev pub wrap {ℓ} : {A : Type ℓ} → String → Result A → Result A
wrap m (ok a) = ok a
wrap m (err ms) = err (m ∷ ms)
wrap m panic = panic

abbrev pub from_option {ℓ} : {A : Type ℓ} → String → Option A → Result A
from_option m none = fail m
from_option m (some a) = ok a

abbrev pub is_ok {ℓ} : {A : Type ℓ} → Result A → Bool
is_ok (ok a) = true
is_ok (err m) = false
is_ok panic = false

-- Inversion of a successful bind.
pub >>=-eq-ok {ℓ κ} :
    {A : Type ℓ} {B : Type κ} (first : Result A) (next : A → Result B)
    → {b : B} → (first >>= next) ≡ ok b
    → (a : A) × (first ≡ ok a) × (next a ≡ ok b)
>>=-eq-ok (ok a) next done = (a, refl, done)
>>=-eq-ok (err ms) next done = cc
>>=-eq-ok panic next done = cc

pub Result-cases {ℓ} :
    {A : Type ℓ} (r : Result A)
    → ((a : A) × (r ≡ ok a)) ⊎ ((e : List String) × (r ≡ err e)) ⊎ (r ≡ panic)
Result-cases (ok a) = inl (a, refl)
Result-cases (err e) = inr (inl (e, refl))
Result-cases panic = inr (inr refl)

pub wrap-eq-ok {ℓ} : {A : Type ℓ} (m : String) (r : Result A) {a : A} → wrap m r ≡ ok a → r ≡ ok a
wrap-eq-ok m (ok a) h = h
wrap-eq-ok m (err e) h = cc
wrap-eq-ok m panic h = cc

pub ok-eq {ℓ} : {A : Type ℓ} {a b : A} → ◌≡◌ {A = Result A} (ok a) (ok b) → a ≡ b
ok-eq h = cc
