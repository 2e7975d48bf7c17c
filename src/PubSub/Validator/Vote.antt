-- ===== src/PubSub/Validator/Vote.antt =====
-- What `Verify` and `ValidJoin` answer.
use mathlib.Core.List.{Permᴰ}
use mathlib.Core.List.Permᴰ
use didcomm_prober.Prelude.{
  ℕ, ◌+◌, ◌≤◌, ◌<◌, ◌≡◌, refl, subst, ap, ◌≢◌, ◌↔◌, inl, inr, Text, Assoc, true, false, List, [],
  ◌∷◌, arith, length, All-perm, IsRange, lookup-All, length-perm, ◌⊎◌, if◌then◌else◌, eqb,
}
use didcomm_prober.PubSub.Validator.Holders.{
  holders, Uniform, length-holders-Uniform, Uniform-holders, length-holders_add, another_hash,
  holders-perm, Uniform-exists,
}
use didcomm_prober.PubSub.Validator.Inverse.{
  IsClass, invert-classes, lookup-invert, choose-le, choose-cases,
}
use didcomm_prober.PubSub.Validator.{invert, choose, verify}

nonempty_length : (xs : List Text) → xs ≢ [] → 0 < length xs
nonempty_length [] h = absurd (h refl)
nonempty_length (x ∷ xs) h = omega arith

length_nonempty : (xs : List Text) → 0 < length xs → xs ≢ []
length_nonempty [] h = omega arith
length_nonempty (x ∷ xs) h = ground arith

module _ (order_states : List (Text × Text) → List (Text × Text))
    (order_mems : List (Text × List Text) → List (Text × List Text))
    (ranges_states : IsRange order_states) (ranges_mems : IsRange order_mems)
    (states : Assoc Text) where
  seen : List (Text × Text)
  seen = order_states states

  sets : List (Text × List Text)
  unfolding seen
  sets = order_mems (invert seen [])

  chosen : ℕ × List Text
  unfolding sets
  chosen = choose sets (length states) []

  answer :
      verify order_states order_mems states
      ≡ (if eqb chosen.0 (length states) then ([], true) else (chosen.1, false))
  unfolding verify chosen
  answer = refl

  length-seen : length seen ≡ length states
  unfolding seen
  length-seen = length-perm (ranges_states states)

  chosen_cases :
      ((chosen.0 ≡ length states) × (chosen.1 ≡ []))
      ⊎ ((v : Text) × IsClass seen (v, chosen.1)
          × (chosen.0 ≡ length chosen.1)
          × (chosen.0 < length states))
  unfolding chosen
  chosen_cases =
      choose-cases (IsClass seen) sets (length states) [] chosen.0 chosen.1
        (All-perm (IsClass seen) (ranges_mems (invert seen [])) (invert-classes seen)) refl

  chosen-le : chosen.0 ≤ length states
  unfolding chosen
  chosen-le = (choose-le sets (length states) [] chosen.0 chosen.1 refl).0

  chosen_least : (u : Text) → holders u seen ≢ [] → chosen.0 ≤ length (holders u seen)
  unfolding chosen
  chosen_least u held =
      lookup-All (λ e. chosen.0 ≤ length e.1) (invert seen []) u (holders u seen)
        (All-perm (λ e. chosen.0 ≤ length e.1) (Permᴰ.symm (ranges_mems (invert seen [])))
          (choose-le sets (length states) [] chosen.0 chosen.1 refl).1)
        (lookup-invert u seen held)

  Uniform-of_full : chosen.0 ≡ length states → (w : Text) × Uniform w states
  unfolding seen
  Uniform-of_full e =
      let (w, u) =
        Uniform-exists seen (λ v held. omega (arith, chosen_least v held, length-seen)) in
      (w, All-perm (λ x. x.1 ≡ w) (Permᴰ.symm (ranges_states states)) u)

  full_of_Uniform : (w : Text) → Uniform w states → chosen.0 ≡ length states
  unfolding seen
  full_of_Uniform w u = elim chosen_cases [
    | inl e ↦ e.0
    | inr (v, (members, held), size, less) ↦
        let all : Uniform w seen = All-perm (λ x. x.1 ≡ w) (ranges_states states) u in
        let same : v ≡ w = Uniform-holders v w seen all (rw (← members) held) in
        absurd (
          omega (
            arith,
            length-holders-Uniform w seen all,
            length-seen,
            ap length members,
            ap (λ x. length (holders x seen)) same,
          ))
  ]

  -- In whatever order the two maps are visited, the vote passes exactly when all members hold one
  -- hash.
  pub verify-Uniform :
      ((verify order_states order_mems states).1 ≡ true) ↔ ((w : Text) × Uniform w states)
  verify-Uniform = (
    λ h. Uniform-of_full (ground (arith, answer)),
    λ u. rw answer (ground (arith, full_of_Uniform u.0 u.1)),
  )

  length-holders-seen : (u : Text) → length (holders u seen) ≡ length (holders u states)
  unfolding seen
  length-holders-seen u = length-perm (holders-perm u (ranges_states states))

  -- What a vote that fails names: the members that hold some hash, of which there are at least one
  -- and no more than of any other hash, and so at most half of the group.
  abbrev pub IsMinority : List Text → Type 0
  IsMinority invalid =
      (v : Text) × Permᴰ invalid (holders v states)
      × (0 < length invalid)
      × ((u : Text) → 0 < length (holders u states) → length invalid ≤ length (holders u states))
      × (length invalid + length invalid ≤ length states)

  half :
      (v : Text) (n : ℕ)
      → n ≡ length (holders v seen)
      → n < length states
      → ((u : Text) → holders u seen ≢ [] → n ≤ length (holders u seen))
      → n + n ≤ length states
  half v n e less least =
      let (u, ne, held) = another_hash v seen (omega (arith, length-seen)) in
      omega (arith, least u held, length-holders_add u v seen ne, length-seen)

  chosen-IsMinority : chosen.0 ≢ length states → IsMinority chosen.1
  unfolding seen
  chosen-IsMinority ne = elim chosen_cases [
    | inl e ↦ absurd (ne e.0)
    | inr (v, (members, held), size, less) ↦ (
      v,
      rw members (holders-perm v (ranges_states states)),
      nonempty_length chosen.1 held,
      λ u some_u. omega (
        arith,
        length-holders-seen u,
        chosen_least u (length_nonempty (holders u seen) (omega (arith, length-holders-seen u))),
      ),
      omega (arith, half v chosen.0 (omega (arith, ap length members)) less chosen_least),
    )
  ]

  -- In whatever order the two maps are visited, a vote that fails names the members that hold some
  -- hash: at least one, no more than hold any other hash that is held, and at most half of all.
  pub verify-IsMinority :
      (verify order_states order_mems states).1 ≡ false
      → IsMinority (verify order_states order_mems states).0
  verify-IsMinority h =
      let ne : chosen.0 ≢ length states = ground (arith, answer) in
      subst IsMinority (ground (arith, answer)) (chosen-IsMinority ne)
