-- ===== src/PubSub/Stores/Subscriber.antt =====
-- pubsub/stores/subscriber.go: the public key of each subscriber of a topic. A key of nil is `none`.
use didcomm_prober.Prelude.{
  ◌≡◌, refl, Text, ◌==◌, eq_iff, Assoc, lookup, insert, remove, lookup-insert, lookup-remove,
  Option, none, some, [], Result, ok, fail, arith, Option-cases, inl, inr, if◌then◌else◌,
}

abbrev pub SubKey : Type 0
SubKey = Assoc (Option Text)

abbrev pub Store : Type 0
Store = Assoc SubKey

unfoldable pub query_by_topic : Text → Store → Result SubKey
query_by_topic topic s = elim (lookup topic s) [
  | none ↦ fail "topic is not registered"
  | some subs ↦ ok subs
]

-- A nil inner map reads as an empty one.
abbrev pub keys_of : Option SubKey → SubKey
keys_of none = []
keys_of (some subs) = subs

unfoldable pub add : Text → Text → Option Text → Store → Store
add topic sub key s = insert topic (insert sub key (keys_of (lookup topic s))) s

-- `delete(s.subs[topic], label)`: nothing happens on a missing topic
unfoldable pub delete : Text → Text → Store → Store
delete topic label s = elim (lookup topic s) [
  | none ↦ s
  | some subs ↦ insert topic (remove label subs) s
]

unfoldable pub delete_topic : Text → Store → Store
delete_topic topic s = remove topic s

-- The key that is stored for a subscriber of a topic.
unfoldable pub key_of : Text → Text → Store → Option (Option Text)
key_of topic label s = lookup label (keys_of (lookup topic s))

-- After `Add` the subscriber has the new key, and every other pair of a topic and a subscriber has
-- what it had.
pub key_of-add :
    (topic sub t l : Text) (key : Option Text) (s : Store)
    → key_of t l (add topic sub key s)
      ≡ (if topic == t then (if sub == l then some key else key_of t l s) else key_of t l s)
unfolding key_of add
key_of-add topic sub t l key s = ground (
  arith,
  lookup-insert topic t (insert sub key (keys_of (lookup topic s))) s,
  lookup-insert sub l key (keys_of (lookup topic s)),
  eq_iff topic t,
)

lookup_nil : (l : Text) → lookup {V = Option Text} l [] ≡ none
unfolding lookup
lookup_nil l = refl

-- After `Delete` the subscriber has no key for the topic, and every other pair has what it had.
pub key_of-delete :
    (topic sub t l : Text) (s : Store)
    → key_of t l (delete topic sub s)
      ≡ (if topic == t then (if sub == l then none else key_of t l s) else key_of t l s)
unfolding key_of delete
key_of-delete topic sub t l s = elim (Option-cases (lookup topic s)) [
  | inl e ↦ ground (arith, e, eq_iff topic t, lookup_nil l)
  | inr (subs, e) ↦ ground (
    arith,
    e,
    eq_iff topic t,
    lookup-insert topic t (remove sub subs) s,
    lookup-remove sub l subs,
  )
]
