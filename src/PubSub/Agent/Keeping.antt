-- ===== src/PubSub/Agent/Keeping.antt =====
-- pubsub/agent.go: what creating and leaving a group and sending to it keep of the group store.
use didcomm_prober.Prelude.{Text, Assoc, Bool, Option, List, [], ◌∷◌}
use didcomm_prober.Prelude.Keeps.{Keeps, keeps_rules, >>=-Keeps, pure-Keeps}
use didcomm_prober.Domain.{Member, GroupParams}
use didcomm_prober.PubSub.Stores.Group
use didcomm_prober.PubSub.Stores.Subscriber.{SubKey}
use didcomm_prober.PubSub.Node.{Node, GroupEnv}
use didcomm_prober.PubSub.Node.Keeping.{Held, IsStable, node_rules, on_gs-Keeps}
use didcomm_prober.PubSub.Processor.Keeping.{subscribe_to-Keeps}
use didcomm_prober.PubSub.Agent.{
  invite_to, init_clock, create, auth_msgs, compress_status, notify_all, leave, publish_one,
  publish_each, send,
}

-- It reads the node and does not change it.
module _ (e : GroupEnv) {P : Node → Type 0} where
  auth_msgs-Keeps :
      (byts : Text) (ms : List Member) (msgs : Assoc Text) → Keeps (P) (auth_msgs e byts ms msgs)
  unfolding auth_msgs
  auth_msgs-Keeps byts [] msgs = search keeps_rules
  auth_msgs-Keeps byts (m ∷ ms) msgs = search (keeps_rules, auth_msgs-Keeps byts ms) depth 20

  pub compress_status-Keeps :
      (topic : Text) (active publishes : Bool)
      → Keeps (P) (compress_status e topic active publishes)
  unfolding compress_status
  compress_status-Keeps topic active publishes =
      search (keeps_rules, auth_msgs-Keeps) depth 40 fits 4000

module _ (e : GroupEnv) {P : Group.Store → Type 0} where
  pub invite_to-Keeps : (topic : Text) → Keeps (Held P) (invite_to e topic)
  unfolding invite_to
  invite_to-Keeps topic = search node_rules depth 20

  pub init_clock-Keeps :
      (topic : Text) (ordered : Bool) → Keeps (Held P) (init_clock e topic ordered)
  unfolding init_clock
  init_clock-Keeps topic ordered = search node_rules depth 20

  pub notify_all-Keeps :
      (topic : Text) (active publishes : Bool)
      → Keeps (Held P) (notify_all e topic active publishes)
  unfolding notify_all
  notify_all-Keeps topic active publishes = search (node_rules, compress_status-Keeps) depth 20

  publish_one-Keeps :
      (topic msg sub : Text) (key : Option Text) → Keeps (Held P) (publish_one e topic msg sub key)
  unfolding publish_one
  publish_one-Keeps topic msg sub key = search node_rules depth 20

  publish_each-Keeps :
      (topic msg : Text) (subs : SubKey) → Keeps (Held P) (publish_each e topic msg subs)
  unfolding publish_each
  publish_each-Keeps topic msg [] = search node_rules
  publish_each-Keeps topic msg ((sub, key) ∷ subs) =
      >>=-Keeps (publish_one e topic msg sub key) _ (publish_one-Keeps topic msg sub key) (λ size.
        >>=-Keeps (publish_each e topic msg subs) _ (publish_each-Keeps topic msg subs)
          (λ sizes. pure-Keeps (size ∷ sizes)))

  pub send-Keeps : (topic msg : Text) → Keeps (Held P) (send e topic msg)
  unfolding send
  send-Keeps topic msg = search (node_rules, publish_each-Keeps) depth 40 fits 4000

  pub create-Keeps :
      (stable : IsStable e P) (topic : Text) (publishes : Bool) (gp : GroupParams)
      → Keeps (Held P) (create e topic publishes gp)
  unfolding create
  create-Keeps stable topic publishes gp =
      search (node_rules, invite_to-Keeps, init_clock-Keeps, on_gs-Keeps, stable.sets, stable.adds)
        depth 40 fits 4000

  pub leave-Keeps :
      (topic : Text)
      → ((s : Group.Store) → P s → P (Group.delete_topic topic s))
      → Keeps (Held P) (leave e topic)
  unfolding leave
  leave-Keeps topic dropped =
      search (node_rules, subscribe_to-Keeps, notify_all-Keeps, dropped) depth 40 fits 4000
