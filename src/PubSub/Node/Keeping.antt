-- ===== src/PubSub/Node/Keeping.antt =====
-- pubsub/agent.go and pubsub/processor.go: properties of the group store that the methods of a node
-- keep.
use didcomm_prober.Prelude.{Text, List, Result, ok, err, panic}
use didcomm_prober.Prelude.Exec.{Exec}
use didcomm_prober.Prelude.Keeps.{Keeps, keeps_rules}
use didcomm_prober.Domain.{Member, GroupParams}
use didcomm_prober.PubSub.Stores.Group
use didcomm_prober.PubSub.Stores.Group.{add_membrs, delete_membr, set_params}
use didcomm_prober.Prober.Agent.{Prober}
use didcomm_prober.PubSub.Syncer.{Syncer}
use didcomm_prober.PubSub.Transport.Requests.{Sockets}
use didcomm_prober.PubSub.Transport.Messages.{ConnectMsg, SubscribeMsg, AuthMsg}
use didcomm_prober.PubSub.Node.{
  Node, GroupEnv, Wait, on_gs, on_prober, on_syncr, on_sockets, modify, sent_publish, send_publish,
  connect_node, subscribe_node, auth_node,
}

-- A property of the group store that its methods keep, and what happens during the waits.
pub record IsStable (e : GroupEnv) (P : Group.Store → Type 0) : Type 0 where
  pub adds :
      (topic : Text) (ms : List Member) (s : Group.Store)
      → P s
      → P (add_membrs e.digest e.range_members topic ms s).1
  pub deletes :
      (topic label : Text) (s : Group.Store)
      → P s
      → P (delete_membr e.digest e.range_members topic label s).1
  pub sets : (topic : Text) (gp : GroupParams) (s : Group.Store) → P s → P (set_params topic gp s).1
  pub waits : (w : Wait) (n : Node) → P n.gs → P (e.others w n).gs

pub record Held (P : Group.Store → Type 0) (n : Node) : Type 0 where
  pub of_gs : P n.gs

module _ {P : Group.Store → Type 0} where
  pub modify-Keeps :
      (f : Node → Node) → ((n : Node) → P n.gs → P (f n).gs) → Keeps (Held P) (modify f)
  modify-Keeps f same = record { always = λ n s. record { of_gs = same n s.of_gs } }

  pub on_gs-Keeps :
      {A : Type 0} (m : Exec Group.Store A)
      → ((s : Group.Store) → P s → P (m s).1)
      → Keeps (Held P) (on_gs m)
  on_gs-Keeps m h = record { always = λ n s. record { of_gs = h n.gs s.of_gs } }

  pub on_prober-Keeps : {A : Type 0} (m : Exec Prober A) → Keeps (Held P) (on_prober m)
  on_prober-Keeps m = record { always = λ n s. record { of_gs = s.of_gs } }

  pub on_syncr-Keeps : {A : Type 0} (m : Exec Syncer A) → Keeps (Held P) (on_syncr m)
  on_syncr-Keeps m = record { always = λ n s. record { of_gs = s.of_gs } }

  pub on_sockets-Keeps : {A : Type 0} (m : Exec Sockets A) → Keeps (Held P) (on_sockets m)
  on_sockets-Keeps m = record { always = λ n s. record { of_gs = s.of_gs } }

  module _ (e : GroupEnv) where
    sent_publish-Keeps :
        (topic content : Text) (r : Result (Unit {0}))
        → Keeps (Held P) (sent_publish e topic content r)
    unfolding sent_publish
    sent_publish-Keeps topic content (ok u) = record { always = λ n s. record { of_gs = s.of_gs } }
    sent_publish-Keeps topic content (err why) = record {
      always = λ n s. record { of_gs = s.of_gs };
    }
    sent_publish-Keeps topic content panic = record { always = λ n s. record { of_gs = s.of_gs } }

    pub send_publish-Keeps : (topic content : Text) → Keeps (Held P) (send_publish e topic content)
    unfolding send_publish
    send_publish-Keeps topic content = sent_publish-Keeps topic content (e.publish topic content)

    pub connect_node-Keeps : (cm : ConnectMsg) → Keeps (Held P) (connect_node e cm)
    unfolding connect_node
    connect_node-Keeps cm = record { always = λ n s. record { of_gs = s.of_gs } }

    pub subscribe_node-Keeps : (sm : SubscribeMsg) → Keeps (Held P) (subscribe_node e sm)
    unfolding subscribe_node
    subscribe_node-Keeps sm = record { always = λ n s. record { of_gs = s.of_gs } }

    pub auth_node-Keeps : (am : AuthMsg) → Keeps (Held P) (auth_node e am)
    unfolding auth_node
    auth_node-Keeps am = record { always = λ n s. record { of_gs = s.of_gs } }

pub ruleset node_rules = (
  keeps_rules, modify-Keeps, on_prober-Keeps, on_syncr-Keeps, on_sockets-Keeps, send_publish-Keeps,
  connect_node-Keeps, subscribe_node-Keeps, auth_node-Keeps,
)
