-- ===== src/PubSub/Views/Keeping.antt =====
-- pubsub/agent.go and pubsub/processor.go: what every call and every message keeps of the group store.
use didcomm_prober.Prelude.{◌≡◌, refl, Text}
use didcomm_prober.PubSub.Stores.Group.{Store, delete_topic}
use didcomm_prober.PubSub.Node.{Node, GroupEnv}
use didcomm_prober.PubSub.Node.Keeping.{IsStable, Held}
use didcomm_prober.PubSub.Processor.Keeping.{
  join_reqs-Keeps, subscriptions-Keeps, on_group_data-Keeps, on_status_ack-Keeps,
}
use didcomm_prober.PubSub.Processor.Statuses.Keeping.{state-Keeps}
use didcomm_prober.PubSub.Agent.Keeping.{create-Keeps, leave-Keeps, send-Keeps}
use didcomm_prober.PubSub.Agent.Join.Keeping.{join-Keeps}
use didcomm_prober.PubSub.Views.{
  Event, creates, joins, leaves, sends, join_requested, subscribed, stated, acknowledged, data_sent,
  handle,
}

pub handle-Held :
    (e : GroupEnv) {P : Store → Type 0}
    → IsStable e P
    → (ev : Event)
    → ((topic : Text) (s : Store) → ev ≡ leaves topic → P s → P (delete_topic topic s))
    → (n : Node) → Held P n
    → Held P (handle e ev n)
unfolding handle
handle-Held e stable (creates topic publishes gp) drops =
    (create-Keeps e stable topic publishes gp).always
handle-Held e stable (joins topic acceptor publishes) drops =
    (join-Keeps e stable topic acceptor publishes).always
handle-Held e stable (leaves topic) drops = (leave-Keeps e topic (λ s. drops topic s refl)).always
handle-Held e stable (sends topic msg) drops = (send-Keeps e topic msg).always
handle-Held e stable (join_requested content) drops = (join_reqs-Keeps e content).always
handle-Held e stable (subscribed content) drops = (subscriptions-Keeps e content).always
handle-Held e stable (stated msg) drops = (state-Keeps e stable msg).always
handle-Held e stable (acknowledged content) drops = (on_status_ack-Keeps e content).always
handle-Held e stable (data_sent topic msg) drops = (on_group_data-Keeps e topic msg).always
