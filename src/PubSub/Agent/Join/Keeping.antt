-- ===== src/PubSub/Agent/Join/Keeping.antt =====
-- pubsub/agent.go: what joining a group keeps of the group store.
use didcomm_prober.Prelude.{ℕ, zero, suc, Text, Assoc, Bool, List, [], ◌∷◌, Result, ok, err, panic}
use didcomm_prober.Prelude.Keeps.{Keeps}
use didcomm_prober.Domain.{Member}
use didcomm_prober.Domain.GroupMessages.{ResSubscribe, ResGroupJoin}
use didcomm_prober.PubSub.Stores.Group
use didcomm_prober.PubSub.Node.{GroupEnv}
use didcomm_prober.PubSub.Node.Keeping.{Held, IsStable, node_rules, on_gs-Keeps}
use didcomm_prober.PubSub.Agent.Keeping.{invite_to-Keeps, init_clock-Keeps, notify_all-Keeps}
use didcomm_prober.PubSub.Agent.Members.Keeping.{
  connect_did_comm-Keeps, subscribe_data-Keeps, connect_member-Keeps, req_state-Keeps,
}
use didcomm_prober.PubSub.Agent.Join.{
  Progress, done, waiting, keep_response, collect_one, collect_kept, collect, connect_all,
  hello_msgs, retry, say_hello, wait_for_conns, announce, settle, enter, join,
}

module _ (e : GroupEnv) {P : Group.Store → Type 0} (stable : IsStable e P) where
  keep_response-Keeps :
      (label : Text) (responses : Assoc ResSubscribe) (r : Result ResSubscribe)
      → Keeps (Held P) (keep_response e label responses r)
  unfolding keep_response
  keep_response-Keeps label responses (ok res) = search node_rules
  keep_response-Keeps label responses (err why) = search node_rules
  keep_response-Keeps label responses panic = search node_rules

  collect_one-Keeps :
      (topic : Text) (publishes : Bool) (m : Member)
      → Keeps (Held P) (collect_one e topic publishes m)
  unfolding collect_one
  collect_one-Keeps topic publishes m =
      search (node_rules, connect_did_comm-Keeps, subscribe_data-Keeps) depth 20

  collect_kept-Keeps :
      (topic : Text) (publishes : Bool) (m : Member) (responses : Assoc ResSubscribe)
      → Keeps (Held P) (collect_kept e topic publishes m responses)
  unfolding collect_kept
  collect_kept-Keeps topic publishes m responses = record {
    always = λ n s.
        let r = collect_one e topic publishes m n in
        (keep_response-Keeps m.label responses r.0).always r.1
          ((collect_one-Keeps topic publishes m).always n s);
  }

  collect-Keeps :
      (topic : Text) (publishes : Bool) (ms : List Member) (responses : Assoc ResSubscribe)
      → Keeps (Held P) (collect e topic publishes ms responses)
  unfolding collect
  collect-Keeps topic publishes [] responses = search node_rules
  collect-Keeps topic publishes (m ∷ ms) responses =
      search (node_rules, collect_kept-Keeps, collect-Keeps topic publishes ms) depth 20

  connect_all-Keeps :
      (topic : Text) (publishes : Bool) (ms : List Member) (responses : Assoc ResSubscribe)
      (sums : Assoc Text)
      → Keeps (Held P) (connect_all e topic publishes ms responses sums)
  unfolding connect_all
  connect_all-Keeps topic publishes [] responses sums = search node_rules
  connect_all-Keeps topic publishes (m ∷ ms) responses sums =
      search (node_rules, connect_member-Keeps, connect_all-Keeps topic publishes ms) depth 20

  hello_msgs-Keeps : (ms : List Member) (msgs : Assoc Text) → Keeps (Held P) (hello_msgs e ms msgs)
  unfolding hello_msgs
  hello_msgs-Keeps [] msgs = search node_rules
  hello_msgs-Keeps (m ∷ ms) msgs = search (node_rules, hello_msgs-Keeps ms) depth 20

  retry-Keeps :
      (fuel : ℕ) (topic content : Text) (grp : List Member)
      → Keeps (Held P) (retry e fuel topic content grp)
  unfolding retry
  retry-Keeps zero topic content grp = search node_rules
  retry-Keeps (suc fuel) topic content grp =
      search (node_rules, stable.waits, retry-Keeps fuel) depth 20

  wait_for_conns-Keeps :
      (topic : Text) (grp : List Member) → Keeps (Held P) (wait_for_conns e topic grp)
  unfolding wait_for_conns say_hello
  wait_for_conns-Keeps topic grp =
      search (node_rules, stable.waits, hello_msgs-Keeps, retry-Keeps) depth 40 fits 4000

  announce-Keeps :
      (topic : Text) (publishes : Bool) (progress : Progress)
      → Keeps (Held P) (announce e topic publishes progress)
  unfolding announce
  announce-Keeps topic publishes done = search (node_rules, notify_all-Keeps) depth 20
  announce-Keeps topic publishes waiting = search node_rules

  -- What follows the setting of the parameters, and the whole of it.
  pub settle-Keeps :
      (topic acceptor : Text) (publishes : Bool) (inv : Text) (group : ResGroupJoin)
      → Keeps (Held P) (settle e topic acceptor publishes inv group)
  unfolding settle
  settle-Keeps topic acceptor publishes inv group =
      search
        (
          node_rules, init_clock-Keeps, collect-Keeps, connect_all-Keeps, on_gs-Keeps, stable.adds,
          wait_for_conns-Keeps, announce-Keeps,
        )
        depth 40 fits 4000

  pub join-Keeps :
      (topic acceptor : Text) (publishes : Bool) → Keeps (Held P) (join e topic acceptor publishes)
  unfolding join enter
  join-Keeps topic acceptor publishes =
      search (node_rules, invite_to-Keeps, req_state-Keeps, on_gs-Keeps, stable.sets, settle-Keeps)
        depth 40 fits 4000
