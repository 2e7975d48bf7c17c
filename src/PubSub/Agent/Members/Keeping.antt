-- ===== src/PubSub/Agent/Members/Keeping.antt =====
-- pubsub/agent.go: what Join does with one member keeps of the group store.
use didcomm_prober.Prelude.{Text, Bool, Result, ok, err, panic}
use didcomm_prober.Prelude.Keeps.{Keeps}
use didcomm_prober.Domain.{Member, Peer}
use didcomm_prober.Domain.GroupMessages.{ResSubscribe}
use didcomm_prober.Prober.Agent.Services.{peer}
use didcomm_prober.PubSub.Stores.Group
use didcomm_prober.PubSub.Node.{GroupEnv}
use didcomm_prober.PubSub.Node.Keeping.{Held, IsStable, node_rules}
use didcomm_prober.PubSub.Processor.Keeping.{authenticate-Keeps, connect_subscriber-Keeps}
use didcomm_prober.PubSub.Agent.Members.{
  sync_accept, accept_member, connect_known, connect_did_comm, subscribe_data, note_subscriber,
  connect_member, req_state,
}

module _ (e : GroupEnv) {P : Group.Store → Type 0} where
  note_subscriber-Keeps : (topic : Text) (m : Member) → Keeps (Held P) (note_subscriber e topic m)
  unfolding note_subscriber
  note_subscriber-Keeps topic m = search node_rules depth 20

  pub connect_member-Keeps :
      (topic : Text) (publishes : Bool) (m : Member) (res : ResSubscribe)
      → Keeps (Held P) (connect_member e topic publishes m res)
  unfolding connect_member
  connect_member-Keeps topic publishes m res =
      search (node_rules, authenticate-Keeps, connect_subscriber-Keeps, note_subscriber-Keeps) depth
        40 fits 4000

  pub subscribe_data-Keeps :
      (topic : Text) (publishes : Bool) (m : Member)
      → Keeps (Held P) (subscribe_data e topic publishes m)
  unfolding subscribe_data
  subscribe_data-Keeps topic publishes m = search node_rules depth 40 fits 4000

  pub req_state-Keeps :
      (topic acceptor inv : Text) → Keeps (Held P) (req_state e topic acceptor inv)
  unfolding req_state
  req_state-Keeps topic acceptor inv = search node_rules depth 40 fits 4000

  module _ (stable : IsStable e P) where
    sync_accept-Keeps : (encoded : Text) → Keeps (Held P) (sync_accept e encoded)
    unfolding sync_accept
    sync_accept-Keeps encoded = search (node_rules, stable.waits) depth 20

    connect_known-Keeps : (m : Member) (pr : Result Peer) → Keeps (Held P) (connect_known e m pr)
    unfolding connect_known accept_member
    connect_known-Keeps m (ok pr) = search node_rules
    connect_known-Keeps m (err why) = search (node_rules, sync_accept-Keeps) depth 20
    connect_known-Keeps m panic = search node_rules

    pub connect_did_comm-Keeps : (m : Member) → Keeps (Held P) (connect_did_comm e m)
    unfolding connect_did_comm
    connect_did_comm-Keeps m = record {
      always = λ n. (connect_known-Keeps m (peer m.label n.prober)).always n;
    }
