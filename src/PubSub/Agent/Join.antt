-- ===== src/PubSub/Agent/Join.antt =====
-- pubsub/agent.go: joining a group. The goroutines that subscribe with the members run one after
-- another.
pub mod Keeping
pub mod Agreement
use didcomm_prober.Prelude.{
  ℕ, zero, suc, Text, Assoc, lookup, insert, Bool, true, false, none, some, List, [], ◌∷◌, ◌++◌,
  length, ltb, Result, ok, err, panic, wrap, fail, if◌then◌else◌,
}
use didcomm_prober.Prelude.Exec.{Exec, pure, lift, gets, wrapping, ◌>>=◌, ◌>>◌}
use didcomm_prober.Domain.{Member, hello_prefix}
use didcomm_prober.Domain.GroupMessages.{ResSubscribe, ResGroupJoin, hello_protocol_v1}
use didcomm_prober.Prober.Agent.Services.{peer}
use didcomm_prober.PubSub.Validator.{valid_join}
use didcomm_prober.PubSub.Stores.Group.{joined, set_params, add_membrs}
use didcomm_prober.PubSub.Transport.Topics.{state_topic}
use didcomm_prober.PubSub.Node.{Node, GroupEnv, peers, acks, send_publish, on_gs, modify}
use didcomm_prober.PubSub.Agent.{own_member, invite_to, init_clock, notify_all, auth_msg}
use didcomm_prober.PubSub.Agent.Members.{
  connect_did_comm, subscribe_data, connect_member, req_state,
}

-- `waiting`: the call is still in one of its loops.
pub data Progress : Type 0 where
  done waiting : Progress

-- messages.ResSubscribe{}, to which a missing response falls back
abbrev no_response : ResSubscribe
no_response = record {
  publisher = false;
  transport = record { servr_pub_key = []; client_pub_key = [] };
  checksum = [];
}

abbrev pub response_of : Text → Assoc ResSubscribe → ResSubscribe
response_of label responses = elim (lookup label responses) [ none ↦ no_response | some res ↦ res ]

all_known : List Member → Node → Bool
all_known [] n = true
all_known (m ∷ ms) n = elim (peer m.label n.prober) [
  | ok pr ↦ all_known ms n
  | err why ↦ false
  | panic ↦ false
]

all_connected : List Member → Node → Bool
all_connected [] n = true
all_connected (m ∷ ms) n = elim (lookup m.pub_endpoint n.connected) [
  | none ↦ false
  | some c ↦ all_connected ms n
]

module _ (e : GroupEnv) where
  -- An error of the goroutine of a member is only logged.
  keep_response : Text → Assoc ResSubscribe → Result ResSubscribe → Exec Node (Assoc ResSubscribe)
  keep_response label responses (ok res) = pure (insert label res responses)
  keep_response label responses (err why) = pure responses
  keep_response label responses panic = lift panic

  collect_one : Text → Bool → Member → Exec Node ResSubscribe
  collect_one topic publishes m = do connect_did_comm e m; subscribe_data e topic publishes m

  -- the goroutine of one member
  collect_kept : Text → Bool → Member → Assoc ResSubscribe → Exec Node (Assoc ResSubscribe)
  unfolding keep_response collect_one
  collect_kept topic publishes m responses n =
      let r = collect_one topic publishes m n in keep_response m.label responses r.0 r.1

  unfoldable pub collect :
      Text → Bool → List Member → Assoc ResSubscribe → Exec Node (Assoc ResSubscribe)
  unfolding collect_kept
  collect topic publishes [] responses = pure responses
  collect topic publishes (m ∷ ms) responses =
      if m.active
      then (do kept ← collect_kept topic publishes m responses; collect topic publishes ms kept)
      else collect topic publishes ms responses

  -- the second loop over the members: the checksums that they sent
  unfoldable pub connect_all :
      Text → Bool → List Member → Assoc ResSubscribe → Assoc Text → Exec Node (Assoc Text)
  connect_all topic publishes [] responses sums = pure sums
  connect_all topic publishes (m ∷ ms) responses sums =
      if m.active
      then (do
        wrapping "adding the member failed"
            (connect_member e topic publishes m (response_of m.label responses))
        connect_all topic publishes ms responses
            (insert m.label ((response_of m.label responses).checksum) sums))
      else connect_all topic publishes ms responses sums

  -- An inconsistent view fails the call where the parameters say so; otherwise it is logged.
  unfoldable pub judged : Bool → Result (Assoc Text) → Result (Unit {0})
  judged consistent (ok hashes) = ok tt
  judged consistent (err why) =
      if consistent then err ("join failed due to inconsistent view of the group" ∷ why) else ok tt
  judged consistent panic = panic

  unfoldable pub check_view : Text → ResGroupJoin → Assoc Text → Result (Unit {0})
  unfolding judged
  check_view acceptor group sums =
      if ltb 1 (length group.members)
      then judged group.params.join_consistent
          (valid_join e.digest e.range_texts e.range_sets acceptor group.members sums)
      else ok tt

  hello_msgs : List Member → Assoc Text → Exec Node (Assoc Text)
  hello_msgs [] msgs = pure msgs
  hello_msgs (m ∷ ms) msgs = do
    (thread, content) ← gets (auth_msg e "packing hello message failed" hello_prefix m)
    hello_msgs ms (insert thread content msgs)

  -- The message is published until all members have acknowledged it.
  retry : ℕ → Text → Text → List Member → Exec Node Progress
  unfolding all_connected
  retry zero topic content grp = pure waiting
  retry (suc fuel) topic content grp = do
    wrapping "sending publish internal message failed" (send_publish e (state_topic topic) content)
    modify (e.others acks)
    connected ← gets (λ n. ok (all_connected grp n))
    if connected then pure done else retry fuel topic content grp

  say_hello : Text → List Member → Exec Node Progress
  unfolding hello_msgs retry all_connected
  say_hello topic grp = do
    msgs ← hello_msgs grp []
    encoded ← lift (
        wrap "marshalling status message failed" (
          e.statuses.marshal
            (record { id = e.uuid; typ = hello_protocol_v1; topic = topic; auth_msgs = msgs })))
    retry e.tries topic (e.compress encoded) grp

  unfoldable pub wait_for_conns : Text → List Member → Exec Node Progress
  unfolding say_hello all_known
  wait_for_conns topic grp = do
    modify (e.others peers)
    known ← gets (λ n. ok (all_known grp n))
    if known then say_hello topic grp else pure waiting

  -- What follows the wait.
  announce : Text → Bool → Progress → Exec Node Progress
  announce topic publishes waiting = pure waiting
  announce topic publishes done = do
    wrapping "publishing active status failed" (notify_all e topic true publishes)
    pure done

  -- From the setting of the parameters on; `inv` is the invitation of this node.
  unfoldable pub settle : Text → Text → Bool → Text → ResGroupJoin → Exec Node Progress
  unfolding announce
  settle topic acceptor publishes inv group = do
    init_clock e topic group.params.order_enabled
    responses ← collect topic publishes group.members []
    sums ← connect_all topic publishes group.members responses []
    lift (check_view acceptor group sums)
    joiner ← gets (λ n. ok (own_member true publishes inv n))
    wrapping "adding group members failed"
        (on_gs (add_membrs e.digest e.range_members topic (group.members ++ joiner ∷ [])))
    progress ← wrapping "waiting for connections failed" (wait_for_conns topic group.members)
    announce topic publishes progress

  -- From the answer of the acceptor on.
  unfoldable pub enter : Text → Text → Bool → Text → ResGroupJoin → Exec Node Progress
  enter topic acceptor publishes inv group = do
    wrapping "setting consistency failed" (on_gs (set_params topic group.params))
    settle topic acceptor publishes inv group

  unfoldable pub join : Text → Text → Bool → Exec Node Progress
  join topic acceptor publishes = do
    known ← gets (λ n. ok (joined topic n.gs))
    lift (if known then fail "already connected to group" else ok tt)
    inv ← invite_to e topic
    group ← wrapping "requesting group state failed" (req_state e topic acceptor inv)
    enter topic acceptor publishes inv group
