-- ===== src/PubSub/Stores/Group/Sound.antt =====
-- The invariant of the group store.
use mathlib.Core.List.Permᴰ
use didcomm_prober.Prelude.{
  ◌≡◌, refl, sym, ◌∙◌, subst, ◌⊎◌, inl, inr, Text, ◌==◌, eq_refl, Assoc, lookup, insert, remove,
  lookup-insert, keys, values, false, Option, none, some, List, [], ◌∷◌, arith, All, IsMap, IsRange,
  insert-IsMap, remove-IsMap, keys-Nodup, Option-cases, ok, if◌then◌else◌,
}
use didcomm_prober.Domain.{Member}
use didcomm_prober.PubSub.Validator.{Digest, labels, calculate}
use didcomm_prober.PubSub.Validator.Order.{calculate-perm}
use didcomm_prober.PubSub.Stores.Group.{
  Group, Store, entries, group_or_new, with_member, put_member, put_members, drop_member,
}

-- Each member stands under its own label.
abbrev pub IsLabelled : Assoc Member → Type 0
IsLabelled = All (λ e. e.0 ≡ e.1.label)

-- The members of a group are a map from labels.
pub record IsIndexed (g : Group) : Type 0 where
  pub distinct : IsMap (entries g.members)
  pub labelled : IsLabelled (entries g.members)

insert-IsLabelled :
    (m : Member) (ms : Assoc Member) → IsLabelled ms → IsLabelled (insert m.label m ms)
unfolding insert
insert-IsLabelled m [] h = (refl, tt)
insert-IsLabelled m ((k, n) ∷ ms) h = ground (arith, insert-IsLabelled m ms h.1)

remove-IsLabelled : (l : Text) (ms : Assoc Member) → IsLabelled ms → IsLabelled (remove l ms)
unfolding remove
remove-IsLabelled l [] h = tt
remove-IsLabelled l ((k, n) ∷ ms) h = ground (arith, remove-IsLabelled l ms h.1)

pub labels-values : (ms : Assoc Member) → IsLabelled ms → labels (values ms) ≡ keys ms
labels-values [] h = refl
labels-values ((k, m) ∷ ms) h = cc (labels-values ms h.1, h.0)

-- In whatever order a range visits the members, the checksum is that of the members.
pub calculate_ranged :
    (d : Digest) (order : List Member → List Member) (g : Group)
    → IsRange order
    → IsIndexed g
    → calculate d (order (values (entries g.members))) ≡ calculate d (values (entries g.members))
calculate_ranged d order g ranges i = sym (
    calculate-perm d (values (entries g.members)) (order (values (entries g.members)))
      ∣ Permᴰ.symm (ranges (values (entries g.members))) ∣₁
      (rw (labels-values (entries g.members) i.labelled)
        (keys-Nodup (entries g.members) i.distinct)))

-- The group is indexed, and if it has a member it holds the checksum of its members.
pub record IsFresh (d : Digest) (g : Group) : Type 0 where
  pub indexed : IsIndexed g
  pub sum : (entries g.members ≡ []) ⊎ (calculate d (values (entries g.members)) ≡ ok g.checksum)

abbrev pub IsSound : Digest → Store → Type 0
IsSound d s = (t : Text) (g : Group) → lookup t s ≡ some g → IsFresh d g

with_member-IsIndexed : (m : Member) (g : Group) → IsIndexed g → IsIndexed (with_member m g)
unfolding with_member
with_member-IsIndexed m g i = record {
  distinct = insert-IsMap m.label m (entries g.members) i.distinct;
  labelled = insert-IsLabelled m (entries g.members) i.labelled;
}

drop_member-IsMap :
    (l : Text) (ms : Option (Assoc Member))
    → IsMap (entries ms)
    → IsMap (entries (drop_member l ms))
unfolding drop_member
drop_member-IsMap l none h = tt
drop_member-IsMap l (some ms) h = remove-IsMap l ms h

drop_member-IsLabelled :
    (l : Text) (ms : Option (Assoc Member))
    → IsLabelled (entries ms)
    → IsLabelled (entries (drop_member l ms))
unfolding drop_member
drop_member-IsLabelled l none h = tt
drop_member-IsLabelled l (some ms) h = remove-IsLabelled l ms h

pub drop_member-IsIndexed :
    (l : Text) (g : Group)
    → IsIndexed g
    → IsIndexed (record g { members = drop_member l g.members })
drop_member-IsIndexed l g i = record {
  distinct = drop_member-IsMap l g.members i.distinct;
  labelled = drop_member-IsLabelled l g.members i.labelled;
}

module _ (topic : Text) where
  abbrev pub IsIndexedAt : Store → Type 0
  IsIndexedAt s = (g : Group) → lookup topic s ≡ some g → IsIndexed g

  group_or_new-IsIndexed : (s : Store) → IsIndexedAt s → IsIndexed (group_or_new (lookup topic s))
  group_or_new-IsIndexed s h = elim (Option-cases (lookup topic s)) [
    | inl e ↦ rw e (record { distinct = tt; labelled = tt })
    | inr (g, e) ↦ rw e (h g e)
  ]

  lookup-put_member :
      (t : Text) (m : Member) (s : Store)
      → lookup t (put_member topic m s)
        ≡ (if topic == t then some (with_member m (group_or_new (lookup topic s))) else lookup t s)
  unfolding put_member
  lookup-put_member t m s = lookup-insert topic t (with_member m (group_or_new (lookup topic s))) s

  put_member-IsIndexedAt :
      (m : Member) (s : Store) → IsIndexedAt s → IsIndexedAt (put_member topic m s)
  put_member-IsIndexedAt m s h g e =
      let new : Group = with_member m (group_or_new (lookup topic s)) in
      let same : new ≡ g = ground (arith, e, lookup-put_member topic m s, eq_refl topic) in
      subst IsIndexed same
        (with_member-IsIndexed m (group_or_new (lookup topic s)) (group_or_new-IsIndexed s h))

  pub put_members-IsIndexedAt :
      (ms : List Member) (s : Store) → IsIndexedAt s → IsIndexedAt (put_members topic ms s)
  unfolding put_members
  put_members-IsIndexedAt [] s h = h
  put_members-IsIndexedAt (m ∷ ms) s h =
      put_members-IsIndexedAt ms (put_member topic m s) (put_member-IsIndexedAt m s h)

  -- The other groups are left alone.
  pub lookup-put_members :
      (t : Text) (ms : List Member) (s : Store)
      → (topic == t) ≡ false
      → lookup t (put_members topic ms s) ≡ lookup t s
  unfolding put_members
  lookup-put_members t [] s ne = refl
  lookup-put_members t (m ∷ ms) s ne =
      lookup-put_members t ms (put_member topic m s) ne ∙ ground (arith, lookup-put_member t m s)
