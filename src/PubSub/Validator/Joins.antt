-- ===== src/PubSub/Validator/Joins.antt =====
-- When `ValidJoin` accepts the member set that an acceptor returned.
use didcomm_prober.Prelude.{
  ◌≡◌, ◌≢◌, ◌↔◌, Text, eq_iff, eq_refl, Assoc, lookup, insert, lookup-insert, true, some, List,
  arith, All-of_lookup, lookup-All, IsMap, IsRange, insert-IsMap, ok, is_ok,
}
use didcomm_prober.Domain.{Member}
use didcomm_prober.PubSub.Validator.Holders.{Uniform}
use didcomm_prober.PubSub.Validator.Vote.{verify-Uniform}
use didcomm_prober.PubSub.Validator.{Digest, calculate, valid_join}

-- Every checksum of the map, but the acceptor's, is `c`.
abbrev pub Agree : Text → Text → Assoc Text → Type 0
Agree accptr c hashes = (k v : Text) → lookup k hashes ≡ some v → k ≢ accptr → v ≡ c

module _ (accptr c : Text) (hashes : Assoc Text) (distinct : IsMap hashes) where
  Uniform-of_Agree : Agree accptr c hashes → Uniform c (insert accptr c hashes)
  Uniform-of_Agree a =
      All-of_lookup (λ e. e.1 ≡ c) (insert accptr c hashes) (insert-IsMap accptr c hashes distinct)
        (λ k v e. ground (arith, lookup-insert accptr k c hashes, eq_iff accptr k, a k v))

  Agree-of_Uniform : (w : Text) → Uniform w (insert accptr c hashes) → Agree accptr c hashes
  Agree-of_Uniform w u k v e ne = ground (
    arith,
    lookup-insert accptr k c hashes,
    lookup-insert accptr accptr c hashes,
    eq_iff accptr k,
    eq_refl accptr,
    lookup-All (λ e. e.1 ≡ w) (insert accptr c hashes) k v u,
    lookup-All (λ e. e.1 ≡ w) (insert accptr c hashes) accptr c u,
  )

module _ (d : Digest) (order_states : List (Text × Text) → List (Text × Text))
    (order_mems : List (Text × List Text) → List (Text × List Text))
    (ranges_states : IsRange order_states) (ranges_mems : IsRange order_mems) where
  -- If the checksum `c` of the joined set can be calculated and the map of hashes has distinct keys,
  -- the join is accepted exactly when every checksum in the map under another label than the
  -- acceptor's is `c`, in whatever order the maps are visited. Which labels the map has is not
  -- compared with the joined set: a member without an entry counts neither way, and an empty map is
  -- accepted.
  pub valid_join_iff :
      (accptr c : Text) (joined_set : List Member) (hashes : Assoc Text)
      → IsMap hashes
      → calculate d joined_set ≡ ok c
      → (is_ok (valid_join d order_states order_mems accptr joined_set hashes) ≡ true)
        ↔ Agree accptr c hashes
  unfolding valid_join
  valid_join_iff accptr c joined_set hashes distinct e =
      let vote =
        verify-Uniform order_states order_mems ranges_states ranges_mems (insert accptr c hashes) in
      (
        λ h.
            let (w, u) = vote.0 (ground (arith, e)) in
            Agree-of_Uniform accptr c hashes distinct w u,
        λ a. ground (arith, e, vote.1 (c, Uniform-of_Agree accptr c hashes distinct a)),
      )
