-- ===== src/PubSub/Stores/Group/Methods.antt =====
-- Every method of the group store that reports no error keeps the store sound.
use didcomm_prober.Prelude.{
  ◌≡◌, refl, sym, ◌∙◌, subst, inl, inr, Text, ◌==◌, eq_refl, lookup, insert, lookup-insert,
  lookup-remove, values, false, some, List, arith, IsRange, Option-cases, Result-cases, Bool-cases,
  ok,
}
use didcomm_prober.Domain.{Member, GroupParams, valid_mode}
use didcomm_prober.PubSub.Validator.{Digest, calculate}
use didcomm_prober.PubSub.Stores.Group.{
  Group, Store, entries, group_or_new, put_members, update_checksum, add_membrs, delete_membr,
  delete_topic, set_params, drop_member,
}
use didcomm_prober.PubSub.Stores.Group.Sound.{
  IsIndexed, calculate_ranged, IsFresh, IsSound, IsIndexedAt, put_members-IsIndexedAt,
  lookup-put_members, drop_member-IsIndexed,
}

module _ (d : Digest) (order : List Member → List Member) (ranges : IsRange order)
    (topic : Text) where
  update_checksum_done :
      (s : Store)
      → (update_checksum d order topic s).0 ≡ ok tt
      → (old : Group) × (h : Text) × (lookup topic s ≡ some old)
        × (calculate d (order (values (entries old.members))) ≡ ok h)
        × ((update_checksum d order topic s).1 ≡ insert topic (record old { checksum = h }) s)
  unfolding update_checksum
  update_checksum_done s done = elim (Option-cases (lookup topic s)) [
    | inl e ↦ absurd (ground (arith, e))
    | inr (old, e) ↦ elim (Result-cases (calculate d (order (values (entries old.members))))) [
      | inl (h, c) ↦ (old, h, e, c, ground (arith, e, c))
      | inr (inl (m, c)) ↦ absurd (ground (arith, e, c))
      | inr (inr c) ↦ absurd (ground (arith, e, c))
    ]
  ]

  -- The group's checksum is brought up to date, if that is reported to have worked.
  pub update_checksum-IsSound :
      (s : Store)
      → ((t : Text) (g : Group) → (topic == t) ≡ false → lookup t s ≡ some g → IsFresh d g)
      → IsIndexedAt topic s
      → (update_checksum d order topic s).0 ≡ ok tt
      → IsSound d (update_checksum d order topic s).1
  update_checksum-IsSound s others here done t g e =
      let (old, h, found, sum, after) = update_checksum_done s done in
      let new : Group = record old { checksum = h } in
      let at_t : lookup t (insert topic new s) ≡ some g = rw (← after) e in
      elim (Bool-cases (topic == t)) [
        | inl same ↦
            let is_new : new ≡ g = ground (arith, at_t, lookup-insert topic t new s, same) in
            subst (IsFresh d) is_new (record {
              indexed = record {
                distinct = (here old found).distinct;
                labelled = (here old found).labelled;
              };
              sum = inr (sym (calculate_ranged d order old ranges (here old found)) ∙ sum);
            })
        | inr other ↦ others t g other (ground (arith, at_t, lookup-insert topic t new s, other))
      ]

  -- `AddMembrs` that reports no error keeps the store sound, in whatever order it visits the members.
  pub add_membrs-IsSound :
      (mems : List Member) (s : Store)
      → IsSound d s
      → (add_membrs d order topic mems s).0 ≡ ok tt
      → IsSound d (add_membrs d order topic mems s).1
  unfolding add_membrs
  add_membrs-IsSound mems s sound =
      update_checksum-IsSound (put_members topic mems s)
        (λ t g ne e. sound t g (sym (lookup-put_members topic t mems s ne) ∙ e))
        (put_members-IsIndexedAt topic mems s (λ g e. (sound topic g e).indexed))

  -- `DeleteMembr` that reports no error keeps the store sound, in whatever order it visits the members.
  pub delete_membr-IsSound :
      (membr : Text) (s : Store)
      → IsSound d s
      → (delete_membr d order topic membr s).0 ≡ ok tt
      → IsSound d (delete_membr d order topic membr s).1
  unfolding delete_membr
  delete_membr-IsSound membr s sound done = elim (Option-cases (lookup topic s)) [
    | inl e ↦ rw (e, delete_membr) sound
    | inr (g, e) ↦
        let new : Group = record g { members = drop_member membr g.members } in
        rw (e, delete_membr)
          (update_checksum-IsSound (insert topic new s)
            (λ t h ne at_t. sound t h (ground (arith, at_t, lookup-insert topic t new s)))
            (λ h at_topic.
              let same : new ≡ h =
                ground (arith, at_topic, lookup-insert topic topic new s, eq_refl topic) in
              subst IsIndexed same (drop_member-IsIndexed membr g (sound topic g e).indexed))
            (ground (arith, e, done)))
  ]

with_params-IsFresh :
    (d : Digest) (gp : GroupParams) (g : Group)
    → IsFresh d g
    → IsFresh d (record g { params = some gp })
with_params-IsFresh d gp g f = record {
  indexed = record { distinct = f.indexed.distinct; labelled = f.indexed.labelled };
  sum = f.sum;
}

group_or_new-IsFresh :
    (d : Digest) (topic : Text) (s : Store)
    → IsSound d s
    → IsFresh d (group_or_new (lookup topic s))
group_or_new-IsFresh d topic s sound = elim (Option-cases (lookup topic s)) [
  | inl e ↦ rw e (record { indexed = record { distinct = tt; labelled = tt }; sum = inl refl })
  | inr (g, e) ↦ rw e (sound topic g e)
]

-- `SetParams` keeps the store sound, whether or not it accepts the parameters.
pub set_params-IsSound :
    (d : Digest) (topic : Text) (gp : GroupParams) (s : Store)
    → IsSound d s
    → IsSound d (set_params topic gp s).1
unfolding set_params
set_params-IsSound d topic gp s sound t g e = elim (Bool-cases (valid_mode gp.mode)) [
  | inr bad ↦ sound t g (ground (arith, e, bad))
  | inl good ↦
      let new : Group = record (group_or_new (lookup topic s)) { params = some gp } in
      let at_t : lookup t (insert topic new s) ≡ some g = ground (arith, e, good) in
      elim (Bool-cases (topic == t)) [
        | inl same ↦
            let is_new : new ≡ g = ground (arith, at_t, lookup-insert topic t new s, same) in
            subst (IsFresh d) is_new (
              with_params-IsFresh d gp (group_or_new (lookup topic s))
                (group_or_new-IsFresh d topic s sound))
        | inr other ↦ sound t g (ground (arith, at_t, lookup-insert topic t new s, other))
      ]
]

-- `DeleteTopic` keeps the store sound.
pub delete_topic-IsSound :
    (d : Digest) (topic : Text) (s : Store) → IsSound d s → IsSound d (delete_topic topic s)
unfolding delete_topic
delete_topic-IsSound d topic s sound t g e = sound t g (ground (arith, e, lookup-remove topic t s))
