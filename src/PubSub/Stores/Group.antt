-- ===== src/PubSub/Stores/Group.antt =====
-- pubsub/stores/group.go: the group store. Each method is one critical section of the store's lock,
-- so it is one step on the map. A nil map of members and an empty one differ only for a write.
-- A read through a nil pointer is a panic.
pub mod Sound
pub mod Methods
pub mod Checksums
pub mod Reads
pub mod Always
pub mod Entries
pub mod Refinement
use didcomm_prober.Prelude.{
  Text, str, ◌==◌, Assoc, lookup, insert, remove, values, Bool, true, false, Option, none, some,
  List, [], ◌∷◌, Result, ok, err, panic, fail, if◌then◌else◌,
}
use didcomm_prober.Prelude.Int.{ℤ, pos}
use didcomm_prober.Domain.{Member, GroupParams, GroupMode, valid_mode}
use didcomm_prober.PubSub.Validator.{Digest, calculate}

-- models.Group, with the embedded *GroupParams as a field
pub record Group : Type 0 where
  pub topic : Text
  pub checksum : Text
  pub members : Option (Assoc Member)
  pub params : Option GroupParams
  pub last_updated : ℤ

abbrev pub Store : Type 0
Store = Assoc Group

-- &models.Group{}
abbrev pub new_group : Group
new_group = record {
  topic = [];
  checksum = [];
  members = none;
  params = none;
  last_updated = pos 0;
}

abbrev pub entries : Option (Assoc Member) → Assoc Member
entries none = []
entries (some ms) = ms

abbrev pub group_or_new : Option Group → Group
group_or_new none = new_group
group_or_new (some g) = g

-- `Members[m.Label] = m`, on a map that is made if it is nil
unfoldable pub with_member : Member → Group → Group
with_member m g = record g { members = some (insert m.label m (entries g.members)) }

-- one round of the loop of `AddMembrs`
unfoldable pub put_member : Text → Member → Store → Store
unfolding with_member
put_member topic m s = insert topic (with_member m (group_or_new (lookup topic s))) s

unfoldable pub put_members : Text → List Member → Store → Store
put_members topic [] s = s
put_members topic (m ∷ ms) s = put_members topic ms (put_member topic m s)

store_hash : Text → Group → Store → Result Text → Result (Unit {0}) × Store
store_hash topic g s (ok hash) = (ok tt, insert topic (record g { checksum = hash }) s)
store_hash topic g s (err e) = (err ("calculating group checksum failed" ∷ e), s)
store_hash topic g s panic = (panic, s)

-- The part that `AddMembrs` and `DeleteMembr` share: `order` is the order of the range over the
-- group's members.
unfoldable pub update_checksum :
    Digest → (List Member → List Member) → Text → Store → Result (Unit {0}) × Store
unfolding store_hash
update_checksum d order topic s = elim (lookup topic s) [
  | none ↦ (panic, s)
  | some g ↦ store_hash topic g s (calculate d (order (values (entries g.members))))
]

unfoldable pub add_membrs :
    Digest → (List Member → List Member) → Text → List Member → Store → Result (Unit {0}) × Store
unfolding put_members put_member update_checksum
add_membrs d order topic mems s = update_checksum d order topic (put_members topic mems s)

pub drop_member : Text → Option (Assoc Member) → Option (Assoc Member)
drop_member membr none = none
drop_member membr (some ms) = some (remove membr ms)

unfoldable pub delete_membr :
    Digest → (List Member → List Member) → Text → Text → Store → Result (Unit {0}) × Store
unfolding drop_member update_checksum
delete_membr d order topic membr s = elim (lookup topic s) [
  | none ↦ (ok tt, s)
  | some g ↦
      update_checksum d order topic
        (insert topic (record g { members = drop_member membr g.members }) s)
]

unfoldable pub delete_topic : Text → Store → Store
delete_topic topic s = remove topic s

unfoldable pub joined : Text → Store → Bool
joined topic s = elim (lookup topic s) [ none ↦ false | some g ↦ true ]

unfoldable pub membrs : (List Member → List Member) → Text → Store → List Member
membrs order topic s = elim (lookup topic s) [
  | none ↦ []
  | some g ↦ order (values (entries g.members))
]

-- the loop of `Membr`
find_label : Text → List Member → Option Member
find_label label [] = none
find_label label (m ∷ ms) = if m.label == label then some m else find_label label ms

unfoldable pub membr : (List Member → List Member) → Text → Text → Store → Option Member
unfolding find_label
membr order topic label s = elim (lookup topic s) [
  | none ↦ none
  | some g ↦ find_label label (order (values (entries g.members)))
]

unfoldable pub set_params : Text → GroupParams → Store → Result (Unit {0}) × Store
set_params topic gp s =
    if valid_mode gp.mode
    then (ok tt, insert topic (record (group_or_new (lookup topic s)) { params = some gp }) s)
    else (fail "invalid group mode", s)

unfoldable pub params : Text → Store → Option GroupParams
params topic s = elim (lookup topic s) [ none ↦ none | some g ↦ g.params ]

-- The reads of a group's parameters go through two pointers that may be nil.
embedded : Option Group → Result GroupParams
embedded none = panic
embedded (some g) = elim g.params [ none ↦ panic | some gp ↦ ok gp ]

unfoldable pub mode : Text → Store → Result GroupMode
unfolding embedded
mode topic s = elim (embedded (lookup topic s)) [
  | ok gp ↦ ok gp.mode
  | err e ↦ err e
  | panic ↦ panic
]

unfoldable pub order_enabled : Text → Store → Result Bool
unfolding embedded
order_enabled topic s = elim (embedded (lookup topic s)) [
  | ok gp ↦ ok gp.order_enabled
  | err e ↦ err e
  | panic ↦ panic
]

unfoldable pub join_consistent : Text → Store → Result Bool
unfolding embedded
join_consistent topic s = elim (embedded (lookup topic s)) [
  | ok gp ↦ ok gp.join_consistent
  | err e ↦ err e
  | panic ↦ panic
]

unfoldable pub checksum : Text → Store → Result Text
checksum topic s = elim (lookup topic s) [ none ↦ panic | some g ↦ ok g.checksum ]
