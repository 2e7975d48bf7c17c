-- ===== src/PubSub/Stores/Group/Entries.antt =====
-- What one operation on the group store does to the member of any topic under any label.
use didcomm_prober.Prelude.{
  ◌≡◌, refl, ◌∙◌, inl, inr, Text, Assoc, ◌==◌, true, eq_iff, eq_refl, lookup, lookup-insert,
  lookup-remove, insert, remove, values, Option, Bool-cases, none, some, List, [], ◌∷◌, arith,
  Option-cases, Result-cases, if◌then◌else◌,
}
use didcomm_prober.Domain.{Member, GroupParams}
use didcomm_prober.PubSub.Validator.{Digest, calculate}
use didcomm_prober.PubSub.Stores.Group.{
  Group, Store, entries, group_or_new, with_member, put_member, put_members, delete_membr,
  drop_member, set_params, update_checksum,
}
use didcomm_prober.PubSub.Stores.Group.Reads.{member_of, latest}

member_of-insert :
    (topic t l : Text) (g : Group) (s : Store)
    → member_of t l (insert topic g s)
      ≡ (if topic == t then lookup l (entries g.members) else member_of t l s)
unfolding member_of
member_of-insert topic t l g s = ground (arith, lookup-insert topic t g s)

member_of_here :
    (topic t l : Text) (s : Store)
    → (topic == t) ≡ true
    → lookup l (entries (group_or_new (lookup topic s)).members) ≡ member_of t l s
unfolding member_of
member_of_here topic t l s e = ground (arith, eq_iff topic t, e)

member_of_known :
    (topic t l : Text) (g : Group) (s : Store)
    → lookup topic s ≡ some g
    → (topic == t) ≡ true
    → member_of t l s ≡ lookup l (entries g.members)
unfolding member_of
member_of_known topic t l g s e same = ground (arith, e, eq_iff topic t)

member_of_unknown :
    (topic t l : Text) (s : Store)
    → lookup topic s ≡ none
    → (topic == t) ≡ true
    → member_of t l s ≡ none
unfolding member_of lookup
member_of_unknown topic t l s e same = ground (arith, e, eq_iff topic t)

pub member_of-remove :
    (topic t l : Text) (s : Store)
    → member_of t l (remove topic s) ≡ (if topic == t then none else member_of t l s)
unfolding member_of
member_of-remove topic t l s = elim (Bool-cases (topic == t)) [
  | inr other ↦ ground (arith, lookup-remove topic t s, other)
  | inl same ↦
      member_of_unknown t t l (remove topic s) (ground (arith, lookup-remove topic t s, same))
        (eq_refl t)
      ∙ ground (arith, same)
]

lookup-drop_member :
    (label l : Text) (ms : Option (Assoc Member))
    → lookup l (entries (drop_member label ms))
      ≡ (if label == l then none else lookup l (entries ms))
unfolding drop_member lookup
lookup-drop_member label l none = ground arith
lookup-drop_member label l (some ms) = lookup-remove label l ms

-- A group that is replaced by one with the same members.
member_of-insert_same :
    (topic t l : Text) (g h : Group) (s : Store)
    → lookup topic s ≡ some g
    → h.members ≡ g.members
    → member_of t l (insert topic h s) ≡ member_of t l s
unfolding member_of
member_of-insert_same topic t l g h s e same =
    ground (arith, e, same, lookup-insert topic t h s, eq_iff topic t)

module _ (d : Digest) (order : List Member → List Member) (topic t l : Text) where
  pub member_of-update :
      (s : Store) → member_of t l (update_checksum d order topic s).1 ≡ member_of t l s
  unfolding update_checksum
  member_of-update s = elim (Option-cases (lookup topic s)) [
    | inl e ↦ ground (arith, e)
    | inr (g, e) ↦ elim (Result-cases (calculate d (order (values (entries g.members))))) [
      | inl (h, c) ↦
          ground
            (arith, e, c, member_of-insert_same topic t l g (record g { checksum = h }) s e refl)
      | inr (inl (m, c)) ↦ ground (arith, e, c)
      | inr (inr c) ↦ ground (arith, e, c)
    ]
  ]

  member_of-put_one :
      (m : Member) (s : Store)
      → member_of t l (put_member topic m s) ≡ (
          if topic == t
          then (if m.label == l then some m else member_of t l s)
          else member_of t l s)
  unfolding put_member with_member member_of
  member_of-put_one m s = ground (
    arith,
    member_of-insert topic t l (with_member m (group_or_new (lookup topic s))) s,
    lookup-insert m.label l m (entries (group_or_new (lookup topic s)).members),
    eq_iff topic t,
  )

  pub member_of-put_all :
      (ms : List Member) (s : Store)
      → member_of t l (put_members topic ms s)
        ≡ (if topic == t then latest l ms (member_of t l s) else member_of t l s)
  unfolding put_members latest
  member_of-put_all [] s = ground arith
  member_of-put_all (m ∷ ms) s =
      ground (arith, member_of-put_all ms (put_member topic m s), member_of-put_one m s)

  pub member_of-delete_membr :
      (label : Text) (s : Store)
      → member_of t l (delete_membr d order topic label s).1
        ≡ (if topic == t then (if label == l then none else member_of t l s) else member_of t l s)
  unfolding delete_membr
  member_of-delete_membr label s = elim (Option-cases (lookup topic s)) [
    | inl e ↦ ground (arith, e, member_of_unknown topic t l s e)
    | inr (g, e) ↦
        let new : Group = record g { members = drop_member label g.members } in
        ground (
          arith,
          e,
          member_of-update (insert topic new s),
          member_of-insert topic t l new s,
          lookup-drop_member label l g.members,
          member_of_known topic t l g s e,
        )
  ]

  pub member_of-set_params :
      (gp : GroupParams) (s : Store) → member_of t l (set_params topic gp s).1 ≡ member_of t l s
  unfolding set_params
  member_of-set_params gp s = ground (
    arith,
    member_of-insert topic t l (record (group_or_new (lookup topic s)) { params = some gp }) s,
    member_of_here topic t l s,
  )
