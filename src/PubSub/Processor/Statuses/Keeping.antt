-- ===== src/PubSub/Processor/Statuses/Keeping.antt =====
-- pubsub/processor.go: what the status messages keep of the group store.
use didcomm_prober.Prelude.{Text}
use didcomm_prober.Prelude.Keeps.{Keeps}
use didcomm_prober.Domain.{Member}
use didcomm_prober.PubSub.Stores.Group
use didcomm_prober.PubSub.Node.{GroupEnv}
use didcomm_prober.PubSub.Node.Keeping.{Held, IsStable, node_rules, on_gs-Keeps}
use didcomm_prober.PubSub.Processor.Keeping.{subscribe_to-Keeps}
use didcomm_prober.PubSub.Processor.Statuses.{remove_member, on_status_of, state}

module _ (e : GroupEnv) {P : Group.Store → Type 0} (stable : IsStable e P) where
  remove_member-Keeps : (m : Member) (topic : Text) → Keeps (Held P) (remove_member e m topic)
  unfolding remove_member
  remove_member-Keeps m topic =
      search (node_rules, subscribe_to-Keeps, on_gs-Keeps, stable.deletes) depth 40 fits 4000

  on_status_of-Keeps : (topic : Text) (m : Member) → Keeps (Held P) (on_status_of e topic m)
  unfolding on_status_of
  on_status_of-Keeps topic m =
      search (node_rules, remove_member-Keeps, on_gs-Keeps, stable.adds) depth 20

  pub state-Keeps : (msg : Text) → Keeps (Held P) (state e msg)
  unfolding state
  state-Keeps msg = search (node_rules, on_status_of-Keeps) depth 40 fits 4000
