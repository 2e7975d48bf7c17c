-- ===== src/PubSub/Transport/Subscriptions.antt =====
-- pubsub/transport/zmq.go: the data subscriptions of a group, from joining to leaving it.
pub mod Leaving
use mathlib.Core.List.{Permᴰ}
use mathlib.Core.List.Permᴰ
use didcomm_prober.Prelude.{
  ℕ, ◌+◌, ◌≡◌, ◌≢◌, refl, sym, subst, ap, ◌∙◌, ◌++◌, Text, str, ◌==◌, eq_iff, Bool, true, false,
  List, [], ◌∷◌, arith, All, All-perm, Bool-cases, Result-cases, inl, inr, Result, ok, err, panic,
  wrap, if◌then◌else◌,
}
use Prim.Native.String.{String}
use native.Mathlib.Nat.{add_assoc, zero-add}
use didcomm_prober.Prelude.Sums.{one_if, total}
use didcomm_prober.Prelude.Exec.{Exec, pure, ◌>>=◌, ◌>>◌, continue, lift, wrapping}
use didcomm_prober.Domain.{Member, GroupMode, subscriber, single_queue_mode, topic_prefix}
use didcomm_prober.PubSub.Stores.Group.{Store, mode, membrs}
use didcomm_prober.PubSub.Transport.Topics.{data_topic}
use didcomm_prober.PubSub.Transport.Messages.{ConnectMsg}
use didcomm_prober.PubSub.Transport.Sockets.{
  Call, connect, disconnect, subscribe, unsubscribe, client_auth, Socket, Answers, connect_data,
  unsubscribe_each, unsubscribe_all_data, subscribe_data,
}
use didcomm_prober.PubSub.Transport.Sockets.Counting.{
  times, Adds, call-Adds, then-Adds, pure-Adds, lift-Adds, wrapping-Adds,
}

-- the request that the agent makes for a member when it joins: sendConnect(true, RoleSubscriber, …)
abbrev pub joining : Text → Text → Member → ConnectMsg
joining label topic m = record {
  connect = true;
  initiator = record { role = subscriber; label = label };
  topic = topic;
  peer = m;
  reply = record { state = []; content = [] };
}

-- the data listener's work for requests to connect to each of the given members, one after the other
unfoldable pub connect_each :
    Store
    → (List Member → List Member)
    → Answers
    → Text
    → Text
    → List Member
    → Exec Socket (Unit {0})
connect_each gs order answers label topic [] = pure tt
connect_each gs order answers label topic (m ∷ ms) = do
  connect_data gs order answers (joining label topic m)
  connect_each gs order answers label topic ms

-- what joining, and leaving, adds for one member
pub opens : (Text → Text) → (Call → Bool) → Member → ℕ
opens topic_of f m =
    if m.publisher
    then one_if (f (connect m.pub_endpoint)) + one_if (f (subscribe (topic_of m.label)))
    else 0

pub closes : Text → (Text → Text) → (Call → Bool) → Member → ℕ
closes label topic_of f m =
    if m.label == label
    then 0
    else if m.publisher
    then one_if (f (unsubscribe (topic_of m.label))) + one_if (f (disconnect m.pub_endpoint))
    else 0

module _ (gs : Store) (order : List Member → List Member) (answers : Answers) (label topic : Text)
    (topic_of : Text → Text)
    (topics : (l : Text) → data_topic gs topic l label ≡ ok (topic_of l)) where
  subscribe_data-Adds :
      (f : Call → Bool) (l : Text)
      → Adds f (one_if (f (subscribe (topic_of l)))) (subscribe_data gs order answers topic l label)
  unfolding subscribe_data
  subscribe_data-Adds f l =
      lift-Adds f (one_if (f (subscribe (topic_of l)))) (data_topic gs topic l label) (topic_of l) _
        (topics l) (call-Adds f answers _ (subscribe (topic_of l)))

  connect_data-Adds :
      (f : Call → Bool) (m : Member)
      → Adds f (opens topic_of f m) (connect_data gs order answers (joining label topic m))
  unfolding connect_data opens
  connect_data-Adds f m = elim (Bool-cases m.publisher) [
    | inl p ↦ rw p (
        then-Adds f (one_if (f (connect m.pub_endpoint)))
          (one_if (f (subscribe (topic_of m.label)))) _ _
          (call-Adds f answers _ (connect m.pub_endpoint))
          (wrapping-Adds f (one_if (f (subscribe (topic_of m.label)))) _ _
            (subscribe_data-Adds f m.label)))
    | inr q ↦ rw q (pure-Adds f)
  ]

  pub connect_each-Adds :
      (f : Call → Bool) (ms : List Member)
      → Adds f (total (opens topic_of f) ms) (connect_each gs order answers label topic ms)
  unfolding connect_each
  connect_each-Adds f [] = pure-Adds f
  connect_each-Adds f (m ∷ ms) =
      then-Adds f (opens topic_of f m) (total (opens topic_of f) ms)
        (connect_data gs order answers (joining label topic m))
        (connect_each gs order answers label topic ms) (connect_data-Adds f m)
        (connect_each-Adds f ms)

  pub unsubscribe_each-Adds :
      (f : Call → Bool) (ms : List Member)
      → Adds f
          (total (closes label topic_of f) ms)
          (unsubscribe_each gs order answers label topic ms)
  unfolding unsubscribe_each closes
  unsubscribe_each-Adds f [] = pure-Adds f
  unsubscribe_each-Adds f (m ∷ ms) = elim (Bool-cases (m.label == label)) [
    | inl t ↦ rw (t, zero-add) (unsubscribe_each-Adds f ms)
    | inr n ↦ elim (Bool-cases m.publisher) [
      | inl p ↦
          rw (n, p, add_assoc)
            (lift-Adds f _ (data_topic gs topic m.label label) (topic_of m.label) _ (topics m.label)
              (then-Adds f (one_if (f (unsubscribe (topic_of m.label)))) _ _ _
                (call-Adds f answers _ (unsubscribe (topic_of m.label)))
                (then-Adds f (one_if (f (disconnect m.pub_endpoint)))
                  (total (closes label topic_of f) ms) _ _
                  (call-Adds f answers _ (disconnect m.pub_endpoint))
                  (unsubscribe_each-Adds f ms))))
      | inr q ↦ rw (n, q, zero-add) (unsubscribe_each-Adds f ms)
    ]
  ]
