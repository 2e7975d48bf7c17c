-- ===== src/PubSub/Stores/Group/Reads.antt =====
-- What the store answers after an operation.
use didcomm_prober.Prelude.{
  ◌≡◌, refl, ap, ◌∙◌, ◌↔◌, inl, inr, Text, ◌==◌, eq_refl, lookup, lookup-insert, values, Option,
  none, some, List, [], ◌∷◌, arith, Option-cases, Result-cases, panic, if◌then◌else◌,
}
use didcomm_prober.Domain.{Member}
use didcomm_prober.PubSub.Validator.{Digest, calculate}
use didcomm_prober.PubSub.Stores.Group.{
  Store, entries, group_or_new, with_member, put_member, put_members, add_membrs, mode, params,
  update_checksum,
}

-- The member that a topic's group holds under a label.
unfoldable pub member_of : Text → Text → Store → Option Member
member_of topic label s = lookup label (entries (group_or_new (lookup topic s)).members)

-- The last of the listed members with a label, or what there was before.
unfoldable pub latest : Text → List Member → Option Member → Option Member
latest l [] old = old
latest l (m ∷ ms) old = latest l ms (if m.label == l then some m else old)

member_of-put_member :
    (topic l : Text) (m : Member) (s : Store)
    → member_of topic l (put_member topic m s)
      ≡ (if m.label == l then some m else member_of topic l s)
unfolding member_of put_member with_member
member_of-put_member topic l m s = ground (
  arith,
  lookup-insert topic topic (with_member m (group_or_new (lookup topic s))) s,
  eq_refl topic,
  lookup-insert m.label l m (entries (group_or_new (lookup topic s)).members),
)

member_of-put_members :
    (topic l : Text) (ms : List Member) (s : Store)
    → member_of topic l (put_members topic ms s) ≡ latest l ms (member_of topic l s)
unfolding put_members latest
member_of-put_members topic l [] s = refl
member_of-put_members topic l (m ∷ ms) s =
    member_of-put_members topic l ms (put_member topic m s)
    ∙ ap (latest l ms) (member_of-put_member topic l m s)

member_of-update_checksum :
    (d : Digest) (order : List Member → List Member) (topic l : Text) (s : Store)
    → member_of topic l (update_checksum d order topic s).1 ≡ member_of topic l s
unfolding member_of update_checksum
member_of-update_checksum d order topic l s = elim (Option-cases (lookup topic s)) [
  | inl e ↦ ground (arith, e)
  | inr (g, e) ↦ elim (Result-cases (calculate d (order (values (entries g.members))))) [
    | inl (h, c) ↦
        ground (arith, e, c, lookup-insert topic topic (record g { checksum = h }) s, eq_refl topic)
    | inr (inl (m, c)) ↦ ground (arith, e, c)
    | inr (inr c) ↦ ground (arith, e, c)
  ]
]

-- After `AddMembrs`, whether or not the checksum could be calculated, the group of the topic holds
-- under each label the last member given with that label, and otherwise what it held before.
pub member_of-add_membrs :
    (d : Digest) (order : List Member → List Member) (topic l : Text) (mems : List Member)
    (s : Store)
    → member_of topic l (add_membrs d order topic mems s).1 ≡ latest l mems (member_of topic l s)
unfolding add_membrs
member_of-add_membrs d order topic l mems s =
    member_of-update_checksum d order topic l (put_members topic mems s)
    ∙ member_of-put_members topic l mems s

-- The parameters are there exactly where `SetParams` or a copy put them: reading the mode of any
-- other topic, known or not, is a panic.
pub mode_panics_iff : (topic : Text) (s : Store) → (mode topic s ≡ panic) ↔ (params topic s ≡ none)
unfolding mode params
mode_panics_iff topic s = elim (Option-cases (lookup topic s)) [
  | inl e ↦ ground (arith, e)
  | inr (g, e) ↦ elim (Option-cases g.params) [
    | inl n ↦ ground (arith, e, n)
    | inr (gp, n) ↦ ground (arith, e, n)
  ]
]

lookup-put_members_new :
    (topic : Text) (m : Member) (s : Store)
    → lookup topic s ≡ none
    → params topic (put_member topic m s) ≡ none
unfolding params put_member with_member
lookup-put_members_new topic m s h = ground (
  arith,
  h,
  lookup-insert topic topic (with_member m (group_or_new (lookup topic s))) s,
  eq_refl topic,
)

params-update_checksum :
    (d : Digest) (order : List Member → List Member) (topic : Text) (s : Store)
    → params topic (update_checksum d order topic s).1 ≡ params topic s
unfolding params update_checksum
params-update_checksum d order topic s = elim (Option-cases (lookup topic s)) [
  | inl e ↦ ground (arith, e)
  | inr (g, e) ↦ elim (Result-cases (calculate d (order (values (entries g.members))))) [
    | inl (h, c) ↦
        ground (arith, e, c, lookup-insert topic topic (record g { checksum = h }) s, eq_refl topic)
    | inr (inl (m, c)) ↦ ground (arith, e, c)
    | inr (inr c) ↦ ground (arith, e, c)
  ]
]

-- A member that is added to a topic which the node is not in makes a group without parameters: the
-- topic then counts as joined, and reading its mode is a panic.
pub mode-add_membrs_unknown :
    (d : Digest) (order : List Member → List Member) (topic : Text) (m : Member) (s : Store)
    → lookup topic s ≡ none
    → mode topic (add_membrs d order topic (m ∷ []) s).1 ≡ panic
unfolding add_membrs put_members
mode-add_membrs_unknown d order topic m s h =
    (mode_panics_iff topic (update_checksum d order topic (put_member topic m s)).1).1 (
      params-update_checksum d order topic (put_member topic m s)
      ∙ lookup-put_members_new topic m s h)
