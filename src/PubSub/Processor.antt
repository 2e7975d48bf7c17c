-- ===== src/PubSub/Processor.antt =====
-- pubsub/processor.go: the handlers of the messages of a group.
pub mod Statuses
pub mod Keeping
pub mod Acks
use didcomm_prober.Prelude.{
  Text, ◌==◌, Bool, true, false, Option, none, some, List, [], ◌∷◌, Result, ok, err, panic, fail,
  wrap, from_option, insert, if◌then◌else◌,
}
use Prim.Native.String.{String}
use didcomm_prober.Prelude.Exec.{Exec, pure, lift, gets, wrapping, ◌>>=◌, ◌>>◌}
use didcomm_prober.Domain.{Member, status_ack, subscriber, null, hello_prefix, single_queue_mode}
use didcomm_prober.Domain.GroupMessages.{Subscribe, ResGroupJoin, TransportKeys, join_response_v1}
use didcomm_prober.Prober.Agent.{read_message, send_message}
use didcomm_prober.Prober.Agent.Services.{valid_conn}
use didcomm_prober.PubSub.Stores.Group.{
  membrs, membr, order_enabled, join_consistent, mode, checksum, add_membrs, delete_membr,
}
use didcomm_prober.PubSub.Stores.Subscriber
use didcomm_prober.PubSub.Syncer.{parse}
use didcomm_prober.PubSub.Transport.Messages.{Initiator}
use didcomm_prober.PubSub.Transport.Topics.{group_name_by_data_topic}
use didcomm_prober.PubSub.Transport.Auth.{Auth, remv_keys}
use didcomm_prober.PubSub.Transport.Requests.{Sockets}
use didcomm_prober.PubSub.Node.{
  Node, GroupEnv, pack, connect_node, subscribe_node, auth_node, on_gs, on_syncr, on_sockets,
  modify, reply_with,
}

-- dummy validation, as in the source
unfoldable pub valid_joiner : Text → Bool
valid_joiner label = true

some_member : List Member → Result (Unit {0})
some_member [] = fail "acceptor is not a member of the requested group"
some_member (m ∷ ms) = ok tt

unfoldable pub on_auth : {A : Type 0} → Exec Auth A → Exec Sockets A
on_auth m s = ((m s.auth).0, record s { auth = (m s.auth).1 })

unfoldable pub keys_of : Node → TransportKeys
keys_of n = record {
  servr_pub_key = n.sockets.auth.servr_pub;
  client_pub_key = n.sockets.auth.client_pub;
}

module _ (e : GroupEnv) where
  abbrev pub read : Text → Node → Result (Text × Text)
  read content n = read_message e.agent e.range_keys content n.prober

  group_state : Text → Exec Node ResGroupJoin
  group_state topic = do
    ordered ← gets (λ n. order_enabled topic n.gs)
    consistent ← gets (λ n. join_consistent topic n.gs)
    md ← gets (λ n. mode topic n.gs)
    mems ← gets (λ n. ok (membrs e.range_members topic n.gs))
    pure (record {
      id = e.uuid;
      typ = join_response_v1;
      params = record { order_enabled = ordered; join_consistent = consistent; mode = md };
      members = mems;
    })

  unfoldable pub join_reqs : Text → Exec Node (Unit {0})
  unfolding some_member group_state valid_joiner
  join_reqs content = do
    (sender, body) ← gets (λ n. wrap "reading group-join authcrypt request failed" (read content n))
    req ← lift (wrap "unmarshalling group-join request failed" (e.join_requests.unmarshal body))
    gets (λ n. some_member (membrs e.range_members req.topic n.gs))
    lift (if valid_joiner req.label then ok tt else fail "group-join request denied to member")
    res ← group_state req.topic
    byts ← lift (wrap "marshalling group-join response failed" (e.join_results.marshal res))
    packed ← gets (λ n. wrap "packing group-join response failed" (pack e req.label none byts n))
    reply_with packed

  -- sendConnect, sendSubscribe and sendAuth, from their arguments
  unfoldable pub connect_to : Bool → Initiator → Text → Member → Exec Node (Unit {0})
  connect_to up initiator topic m =
      connect_node e
        (record { connect = up; initiator = initiator; topic = topic; peer = m; reply = e.ids })

  unfoldable pub subscribe_to :
      Bool → Bool → Bool → Bool → Text → Text → Member → Exec Node (Unit {0})
  subscribe_to up unsub_all state content topic label m = subscribe_node e (record {
    subscribe = up;
    unsub_all = unsub_all;
    my_label = label;
    topic = topic;
    state = state;
    content = content;
    peer = m;
    reply = e.ids;
  })

  unfoldable pub authenticate : Text → Text → Text → Bool → Exec Node (Unit {0})
  authenticate label servr client publishes = auth_node e (record {
    label = label;
    servr_pub_key = servr;
    client_pub_key = client;
    content = publishes;
    reply = e.ids;
  })

  -- sendConnect as a subscriber, and as nobody in particular to disconnect
  unfoldable pub connect_subscriber : Text → Member → Exec Node (Unit {0})
  unfolding connect_to
  connect_subscriber topic m n =
      connect_to true (record { role = subscriber; label = n.my_label }) topic m n

  unfoldable pub send_subscribe_res : Text → Member → Exec Node (Unit {0})
  unfolding keys_of
  send_subscribe_res topic m = do
    own ← gets (λ n.
        from_option "current member or topic does not exist in group store"
          (membr e.range_members topic n.my_label n.gs))
    keys ← gets (λ n. ok (keys_of n))
    sum ← gets (λ n. checksum topic n.gs)
    byts ← lift (
        wrap "marshalling subscribe response failed" (
          e.sub_results.marshal
            (record { publisher = own.publisher; transport = keys; checksum = sum })))
    packed ← gets (λ n. wrap "packing subscribe response failed" (pack e m.label none byts n))
    reply_with packed

  -- The reply is sent before the last two steps, which may still fail.
  subscribed : Subscribe → Exec Node (Unit {0})
  unfolding valid_joiner
  subscribed sm = do
    lift (if valid_joiner sm.member.label then ok tt else fail "requester is not eligible")
    wrapping "sending internal auth message failed" (
        authenticate sm.member.label sm.transport.servr_pub_key sm.transport.client_pub_key
          sm.member.publisher)
    wrapping "sending subscribe response failed" (send_subscribe_res sm.topic sm.member)
    wrapping "sending connect message failed" (connect_subscriber sm.topic sm.member)
    modify (λ n. record n {
      subs =
          Subscriber.add sm.topic sm.member.label (some (e.agent.libs.base.decode58 sm.pub_key))
            n.subs;
    })

  unfoldable pub subscriptions : Text → Exec Node (Unit {0})
  unfolding subscribed
  subscriptions content = do
    (sender, body) ← gets (λ n. wrap "reading subscribe message failed" (read content n))
    sm ← lift (wrap "unmarshalling subscribe message failed" (e.subscribes.unmarshal body))
    if sm.subscribe
        then subscribed sm
        else modify (λ n. record n { subs = Subscriber.delete sm.topic sm.member.label n.subs })

  -- Where all members share one queue, a message that cannot be read is meant for another one.
  not_for_us : Text → List String → Exec Node (Option (Text × Text))
  not_for_us topic why = do
    md ← gets (λ n. mode topic n.gs)
    if md == single_queue_mode
        then pure none
        else lift (err ("reading subscribed message failed" ∷ why))

  -- the message that is shown and acknowledged, with its sender
  on_data : Text → Result (Text × Text) → Exec Node (Option (Text × Text))
  unfolding not_for_us
  on_data topic (ok (sender, body)) = do
    content ←
        wrapping "parsing data message via syncer failed" (on_syncr (parse e.group_msgs topic body))
    pure (some (sender, content))
  on_data topic (err why) = not_for_us topic why
  on_data topic panic = lift panic

  unfoldable pub on_group_data : Text → Text → Exec Node (Option (Text × Text))
  unfolding on_data
  on_group_data zmq_topic msg n = on_data (group_name_by_data_topic zmq_topic) (read msg n) n

  -- pubsub/transport/peers.go: an acknowledged hello message
  unfoldable pub on_status_ack : Text → Exec Node (Unit {0})
  on_status_ack content = do
    (sender, endpoint) ← gets (λ n. wrap "reading status ack failed" (read content n))
    modify (λ n. record n { connected = insert endpoint true n.connected })
