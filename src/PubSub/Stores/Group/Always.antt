-- ===== src/PubSub/Stores/Group/Always.antt =====
-- Where the checksum of every set with a member can be calculated, the methods keep the store sound whatever they report.
use didcomm_prober.Prelude.{
  ◌≡◌, ◌≢◌, refl, sym, subst, ◌∙◌, Assoc, [], ◌∷◌, false, Result-cases, Text, ◌==◌, eq_iff, eq_refl,
  lookup, insert, lookup-insert, values, List, some, ok, arith, inl, inr, IsRange, Option-cases,
  Bool-cases,
}
use didcomm_prober.Domain.{Member}
use didcomm_prober.PubSub.Validator.{Digest, calculate}
use didcomm_prober.PubSub.Stores.Group.{
  Group, Store, entries, put_members, update_checksum, add_membrs, delete_membr, drop_member,
}
use didcomm_prober.PubSub.Stores.Group.Sound.{
  IsSound, IsFresh, IsIndexed, IsIndexedAt, calculate_ranged, put_members-IsIndexedAt,
  drop_member-IsIndexed, lookup-put_members,
}
use didcomm_prober.PubSub.Stores.Group.Methods.{update_checksum-IsSound}

module _ (d : Digest) (order : List Member → List Member) (ranges : IsRange order)
    (calculable : (m : Member) (ms : List Member) → (h : Text) × (calculate d (m ∷ ms) ≡ ok h))
    (topic : Text) where
  no_members : (es : Assoc Member) → ((h : Text) → calculate d (values es) ≢ ok h) → es ≡ []
  no_members [] fails = refl
  no_members ((k, m) ∷ es) fails = let (h, c) = calculable m (values es) in absurd (fails h c)

  -- a store that a failing update leaves as it was
  left_alone :
      (s : Store) (g : Group)
      → lookup topic s ≡ some g
      → ((t : Text) (k : Group) → (topic == t) ≡ false → lookup t s ≡ some k → IsFresh d k)
      → IsIndexedAt topic s
      → ((h : Text) → calculate d (order (values (entries g.members))) ≢ ok h)
      → IsSound d s
  left_alone s g e others here fails t k at_t = elim (Bool-cases (topic == t)) [
    | inr other ↦ others t k other at_t
    | inl same ↦
        let is_g : g ≡ k = ground (arith, e, at_t, eq_iff topic t, same) in
        let i = here g e in
        subst (IsFresh d) is_g (record {
          indexed = record { distinct = i.distinct; labelled = i.labelled };
          sum = inl (
              no_members (entries g.members)
                (λ h c. fails h (calculate_ranged d order g ranges i ∙ c)));
        })
  ]

  update_checksum-IsSound_always :
      (s : Store)
      → ((t : Text) (g : Group) → (topic == t) ≡ false → lookup t s ≡ some g → IsFresh d g)
      → IsIndexedAt topic s
      → IsSound d (update_checksum d order topic s).1
  unfolding update_checksum
  update_checksum-IsSound_always s others here = elim (Option-cases (lookup topic s)) [
    | inl e ↦
        rw (e, update_checksum)
          (λ t g at_t. elim (Bool-cases (topic == t)) [
            | inl same ↦ absurd (ground (arith, e, at_t, eq_iff topic t, same))
            | inr other ↦ others t g other at_t
          ])
    | inr (g, e) ↦ elim (Result-cases (calculate d (order (values (entries g.members))))) [
      | inl (h, c) ↦
          update_checksum-IsSound d order ranges topic s others here (ground (arith, e, c))
      | inr (inl (w, c)) ↦
          rw (e, c, update_checksum) (left_alone s g e others here (λ h a. ground (arith, a, c)))
      | inr (inr c) ↦
          rw (e, c, update_checksum) (left_alone s g e others here (λ h a. ground (arith, a, c)))
    ]
  ]

  pub add_membrs-IsSound_always :
      (mems : List Member) (s : Store) → IsSound d s → IsSound d (add_membrs d order topic mems s).1
  unfolding add_membrs
  add_membrs-IsSound_always mems s sound =
      update_checksum-IsSound_always (put_members topic mems s)
        (λ t g ne e. sound t g (sym (lookup-put_members topic t mems s ne) ∙ e))
        (put_members-IsIndexedAt topic mems s (λ g e. (sound topic g e).indexed))

  pub delete_membr-IsSound_always :
      (membr : Text) (s : Store) → IsSound d s → IsSound d (delete_membr d order topic membr s).1
  unfolding delete_membr
  delete_membr-IsSound_always membr s sound = elim (Option-cases (lookup topic s)) [
    | inl e ↦ rw (e, delete_membr) sound
    | inr (g, e) ↦
        let new : Group = record g { members = drop_member membr g.members } in
        rw (e, delete_membr)
          (update_checksum-IsSound_always (insert topic new s)
            (λ t h ne at_t. sound t h (ground (arith, at_t, lookup-insert topic t new s)))
            (λ h at_topic.
              let same : new ≡ h =
                ground (arith, at_topic, lookup-insert topic topic new s, eq_refl topic) in
              subst IsIndexed same (drop_member-IsIndexed membr g (sound topic g e).indexed)))
  ]
