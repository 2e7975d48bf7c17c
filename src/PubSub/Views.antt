-- ===== src/PubSub/Views.antt =====
-- pubsub/agent.go and pubsub/processor.go: what the calls and the messages of a node make of it, one
-- after another, and the views of a group that two nodes come to.
pub mod Keeping
pub mod Soundness
pub mod Rejoining
use didcomm_prober.Prelude.{Text, Bool, List, [], ◌∷◌, All}
use didcomm_prober.Domain.{GroupParams}
use didcomm_prober.PubSub.Node.{Node, GroupEnv}
use didcomm_prober.PubSub.Processor.{join_reqs, subscriptions, on_group_data, on_status_ack}
use didcomm_prober.PubSub.Processor.Statuses.{state}
use didcomm_prober.PubSub.Agent.{create, leave, send}
use didcomm_prober.PubSub.Agent.Join.{join}

-- a call of the group agent, or a message that one of its handlers has
pub data Event : Type 0 where
  creates : Text → Bool → GroupParams → Event
  joins : Text → Text → Bool → Event
  leaves : Text → Event
  sends : Text → Text → Event
  join_requested subscribed stated acknowledged : Text → Event
  data_sent : Text → Text → Event

unfoldable pub handle : GroupEnv → Event → Node → Node
handle e (creates topic publishes gp) n = (create e topic publishes gp n).1
handle e (joins topic acceptor publishes) n = (join e topic acceptor publishes n).1
handle e (leaves topic) n = (leave e topic n).1
handle e (sends topic msg) n = (send e topic msg n).1
handle e (join_requested content) n = (join_reqs e content n).1
handle e (subscribed content) n = (subscriptions e content n).1
handle e (stated msg) n = (state e msg n).1
handle e (acknowledged content) n = (on_status_ack e content n).1
handle e (data_sent topic msg) n = (on_group_data e topic msg n).1

-- Each event has its own environment.
unfoldable pub run : List (GroupEnv × Event) → Node → Node
run [] n = n
run ((e, ev) ∷ evs) n = run evs (handle e ev n)
