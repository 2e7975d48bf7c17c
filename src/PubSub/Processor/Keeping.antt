-- ===== src/PubSub/Processor/Keeping.antt =====
-- pubsub/processor.go: what the handlers keep of the group store.
use didcomm_prober.Prelude.{Text, Bool, true, Result, ok, err, panic}
use didcomm_prober.Prelude.Keeps.{Keeps}
use didcomm_prober.Domain.{Member, subscriber}
use didcomm_prober.Domain.GroupMessages.{Subscribe}
use didcomm_prober.PubSub.Stores.Group
use didcomm_prober.PubSub.Transport.Topics.{group_name_by_data_topic}
use didcomm_prober.PubSub.Transport.Messages.{Initiator}
use didcomm_prober.PubSub.Node.{GroupEnv}
use didcomm_prober.PubSub.Node.Keeping.{Held, node_rules}
use didcomm_prober.PubSub.Processor.{
  read, join_reqs, group_state, connect_to, subscribe_to, authenticate, connect_subscriber,
  send_subscribe_res, subscribed, subscriptions, on_group_data, on_data, not_for_us, on_status_ack,
}

module _ (e : GroupEnv) {P : Group.Store → Type 0} where
  group_state-Keeps : (topic : Text) → Keeps (Held P) (group_state e topic)
  unfolding group_state
  group_state-Keeps topic = search node_rules depth 20

  pub join_reqs-Keeps : (content : Text) → Keeps (Held P) (join_reqs e content)
  unfolding join_reqs
  join_reqs-Keeps content = search (node_rules, group_state-Keeps) depth 40 fits 4000

  pub subscribe_to-Keeps :
      (up unsub_all state content : Bool) (topic label : Text) (m : Member)
      → Keeps (Held P) (subscribe_to e up unsub_all state content topic label m)
  unfolding subscribe_to
  subscribe_to-Keeps up unsub_all state content topic label m = search node_rules

  pub connect_to-Keeps :
      (up : Bool) (initiator : Initiator) (topic : Text) (m : Member)
      → Keeps (Held P) (connect_to e up initiator topic m)
  unfolding connect_to
  connect_to-Keeps up initiator topic m = search node_rules

  pub connect_subscriber-Keeps :
      (topic : Text) (m : Member) → Keeps (Held P) (connect_subscriber e topic m)
  unfolding connect_subscriber
  connect_subscriber-Keeps topic m = record {
    always = λ n.
        (connect_to-Keeps true (record { role = subscriber; label = n.my_label }) topic m).always n;
  }

  pub authenticate-Keeps :
      (label servr client : Text) (publishes : Bool)
      → Keeps (Held P) (authenticate e label servr client publishes)
  unfolding authenticate
  authenticate-Keeps label servr client publishes = search node_rules

  send_subscribe_res-Keeps :
      (topic : Text) (m : Member) → Keeps (Held P) (send_subscribe_res e topic m)
  unfolding send_subscribe_res
  send_subscribe_res-Keeps topic m = search node_rules depth 40 fits 4000

  subscribed-Keeps : (sm : Subscribe) → Keeps (Held P) (subscribed e sm)
  unfolding subscribed
  subscribed-Keeps sm =
      search (node_rules, authenticate-Keeps, send_subscribe_res-Keeps, connect_subscriber-Keeps)
        depth 40 fits 4000

  pub subscriptions-Keeps : (content : Text) → Keeps (Held P) (subscriptions e content)
  unfolding subscriptions
  subscriptions-Keeps content = search (node_rules, subscribed-Keeps) depth 40 fits 4000

  on_data-Keeps :
      (topic : Text) (read : Result (Text × Text)) → Keeps (Held P) (on_data e topic read)
  unfolding on_data not_for_us
  on_data-Keeps topic (ok (sender, body)) = search node_rules depth 20
  on_data-Keeps topic (err why) = search node_rules depth 20
  on_data-Keeps topic panic = search node_rules

  pub on_group_data-Keeps : (topic msg : Text) → Keeps (Held P) (on_group_data e topic msg)
  unfolding on_group_data
  on_group_data-Keeps topic msg = record {
    always = λ n. (on_data-Keeps (group_name_by_data_topic topic) (read e msg n)).always n;
  }

  pub on_status_ack-Keeps : (content : Text) → Keeps (Held P) (on_status_ack e content)
  unfolding on_status_ack
  on_status_ack-Keeps content = search node_rules depth 20
