-- ===== src/PubSub/Validator/Holders.antt =====
-- The members that hold a hash, and how many they are.
use mathlib.Core.List.{Permᴰ}
use mathlib.Core.List.Permᴰ
use didcomm_prober.Prelude.{
  ◌+◌, ◌≤◌, ◌<◌, ◌≡◌, refl, ◌≢◌, Text, ◌==◌, eq_iff, List, [], ◌∷◌, arith, length, All, Bool-cases,
  inl, inr, if◌then◌else◌,
}

-- The members that hold a hash, in the order of the list.
unfoldable pub holders : Text → List (Text × Text) → List Text
holders v [] = []
holders v (s ∷ states) = if s.1 == v then s.0 ∷ holders v states else holders v states

-- All members hold one hash.
abbrev pub Uniform : Text → List (Text × Text) → Type 0
Uniform w = All (λ e. e.1 ≡ w)

pub length-holders-le :
    (v : Text) (states : List (Text × Text)) → length (holders v states) ≤ length states
unfolding holders
length-holders-le v [] = omega arith
length-holders-le v (s ∷ states) = ground (arith, length-holders-le v states)

pub Uniform-of_holders :
    (v : Text) (states : List (Text × Text))
    → length states ≤ length (holders v states)
    → Uniform v states
unfolding holders
Uniform-of_holders v [] h = tt
Uniform-of_holders v (s ∷ states) h =
    ground (arith, eq_iff s.1 v, length-holders-le v states, Uniform-of_holders v states)

pub length-holders-Uniform :
    (v : Text) (states : List (Text × Text))
    → Uniform v states
    → length (holders v states) ≡ length states
unfolding holders
length-holders-Uniform v [] u = refl
length-holders-Uniform v (s ∷ states) u =
    ground (arith, eq_iff s.1 v, length-holders-Uniform v states u.1)

-- If each hash that somebody holds is everybody's, there is one hash.
pub Uniform-exists :
    (states : List (Text × Text))
    → ((v : Text) → holders v states ≢ [] → length states ≤ length (holders v states))
    → (w : Text) × Uniform w states
unfolding holders
Uniform-exists [] h = ([], tt)
Uniform-exists (s ∷ states) h =
    (s.1, Uniform-of_holders s.1 (s ∷ states) (h s.1 (ground (arith, eq_iff s.1 s.1))))

pub Uniform-holders :
    (v w : Text) (states : List (Text × Text)) → Uniform w states → holders v states ≢ [] → v ≡ w
unfolding holders
Uniform-holders v w [] u h = absurd (h refl)
Uniform-holders v w (s ∷ states) u h = ground (arith, eq_iff s.1 v, Uniform-holders v w states u.1)

-- The sets of two hashes do not overlap.
pub length-holders_add :
    (u v : Text) (states : List (Text × Text))
    → u ≢ v
    → length (holders u states) + length (holders v states) ≤ length states
unfolding holders
length-holders_add u v [] ne = omega arith
length-holders_add u v (s ∷ states) ne =
    ground (arith, eq_iff s.1 v, eq_iff s.1 u, length-holders_add u v states ne)

-- If a hash is not everybody's, somebody holds another one.
pub another_hash :
    (v : Text) (states : List (Text × Text))
    → length (holders v states) < length states
    → (u : Text) × (u ≢ v) × (holders u states ≢ [])
unfolding holders
another_hash v [] h = absurd (omega arith)
another_hash v (s ∷ states) h = elim (Bool-cases (s.1 == v)) [
  | inl same ↦ let (u, ne, held) = another_hash v states (ground arith) in (u, ne, ground arith)
  | inr other ↦ (s.1, ground (arith, eq_iff s.1 v), ground (arith, eq_iff s.1 s.1))
]

pub holders-perm :
    (v : Text) {xs ys : List (Text × Text)} → Permᴰ xs ys → Permᴰ (holders v xs) (holders v ys)
unfolding holders
holders-perm v Permᴰ.nil = Permᴰ.nil
holders-perm v (Permᴰ.cons {a = s} {b = t} e p) = rw e (elim (Bool-cases (t.1 == v)) [
  | inl h ↦ rw h (Permᴰ.cons refl (holders-perm v p))
  | inr h ↦ rw h (holders-perm v p)
])
holders-perm v (Permᴰ.swap {a' = s} {b' = t} {l = l} e f) =
    rw (e, f)
      (elim (Bool-cases (s.1 == v)) [
        | inl h ↦ elim (Bool-cases (t.1 == v)) [
          | inl k ↦ rw (h, k) (Permᴰ.swap refl refl)
          | inr k ↦ rw (h, k) (Permᴰ.refl _)
        ]
        | inr h ↦ rw h (Permᴰ.refl _)
      ])
holders-perm v (Permᴰ.trans p q) = Permᴰ.trans (holders-perm v p) (holders-perm v q)
