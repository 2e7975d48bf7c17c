-- ===== src/PubSub/Transport/Listeners.antt =====
-- pubsub/transport/zmq.go: one turn of the two listeners. A turn replies on a channel, hands a
-- message to the handler of the group agent, does neither, or ends in a panic.
use didcomm_prober.Prelude.{
  Text, ◌==◌, Option, none, some, List, [], Result, ok, err, panic, fail, if◌then◌else◌,
}
use didcomm_prober.Prelude.Exec.{Exec, wrapping, pure}
use didcomm_prober.Domain.{Member}
use didcomm_prober.PubSub.Stores.Group.{Store}
use didcomm_prober.PubSub.Transport.Topics.{frames}
use didcomm_prober.PubSub.Transport.Messages.{
  ConnectMsg, SubscribeMsg, AuthMsg, topic_connect, topic_subscribe, topic_authenticate, topic_term,
}
use didcomm_prober.PubSub.Transport.Sockets.{
  Answers, Socket, connect_state, connect_data, unsubscribe_state, unsubscribe_all_data,
  unsubscribe_data, disconnect_status,
}
use didcomm_prober.PubSub.Transport.Auth.{Auth, set_peer_state_authn, set_peer_data_authn}

pub data Turn : Type 0 where
  -- an invalid message, which is logged
  invalid : Turn
  replied : Text → Result (Unit {0}) → Turn
  -- a panic, which ends the process without a reply
  crashed : Turn
  handed : Text → Text → Turn
  closed : Turn

-- what a listener calls and does not implement, and the store that it reads
pub record Node : Type 0 where
  pub gs : Store
  pub order : List Member → List Member
  pub answers : Answers
  pub connects : Text → Result ConnectMsg
  pub subscribes : Text → Result SubscribeMsg
  pub auths : Text → Result AuthMsg

-- `z.replyErr(id, err)` with what a method returned, if it did
unfoldable pub turn_of : Text → Result (Unit {0}) → Turn
turn_of id (ok u) = replied id (ok u)
turn_of id (err e) = replied id (err e)
turn_of id panic = crashed

unfoldable pub reply : {S : Type 0} → Text → Exec S (Unit {0}) → S → Turn × S
unfolding turn_of
reply id m s = (turn_of id (m s).0, (m s).1)

-- a method of the socket, beside the keys
unfoldable pub on_socket : Exec Socket (Unit {0}) → Exec (Socket × Auth) (Unit {0})
on_socket m (s, a) = ((m s).0, ((m s).1, a))

module _ (n : Node) where
  open n use {gs, order, answers, connects, subscribes, auths}

  unfoldable pub state_on_connect : ConnectMsg → Exec (Socket × Auth) (Unit {0})
  unfolding on_socket
  state_on_connect cm =
      if cm.connect
      then wrapping "connecting to state socket failed"
          (on_socket (connect_state gs order answers cm))
      else wrapping "disconnecting state socket failed"
          (on_socket (disconnect_status gs order answers cm.peer.pub_endpoint))

  unfoldable pub state_on_subscribe : SubscribeMsg → Exec (Socket × Auth) (Unit {0})
  unfolding on_socket
  state_on_subscribe sm =
      if sm.state
      then if sm.subscribe
        then pure tt
        else wrapping "unsubscribing state failed"
            (on_socket (unsubscribe_state gs order answers sm.my_label sm.topic))
      else pure tt

  unfoldable pub state_on_auth : AuthMsg → Exec (Socket × Auth) (Unit {0})
  state_on_auth am =
      wrapping "setting state authentication failed"
        (set_peer_state_authn answers am.label am.servr_pub_key am.client_pub_key)

  -- A request that does not parse leaves its reply id empty.
  unfoldable pub state_connect : Result ConnectMsg → Socket × Auth → Turn × (Socket × Auth)
  unfolding reply
  state_connect (ok cm) = reply cm.reply.state (state_on_connect cm)
  state_connect (err e) =
      reply [] (λ s. (fail "unmarshalling internal connect state message failed", s))
  state_connect panic = reply [] (λ s. (panic, s))

  unfoldable pub state_subscribe : Result SubscribeMsg → Socket × Auth → Turn × (Socket × Auth)
  unfolding reply
  state_subscribe (ok sm) = reply sm.reply.state (state_on_subscribe sm)
  state_subscribe (err e) =
      reply [] (λ s. (fail "unmarshalling internal state subscribe message failed", s))
  state_subscribe panic = reply [] (λ s. (panic, s))

  unfoldable pub state_auth : Result AuthMsg → Socket × Auth → Turn × (Socket × Auth)
  unfolding reply
  state_auth (ok am) = reply am.reply.state (state_on_auth am)
  state_auth (err e) =
      reply [] (λ s. (fail "unmarshalling internal state authenticate message failed", s))
  state_auth panic = reply [] (λ s. (panic, s))

  unfoldable pub state_frames : Option (Text × Text) → Socket × Auth → Turn × (Socket × Auth)
  unfolding state_connect state_subscribe state_auth
  state_frames none s = (invalid, s)
  state_frames (some (topic, content)) s =
      if topic == topic_connect
      then state_connect (connects content) s
      else if topic == topic_subscribe
      then state_subscribe (subscribes content) s
      else if topic == topic_authenticate
      then state_auth (auths content) s
      else if topic == topic_term
      then (closed, s)
      else (handed topic content, s)

  -- one received message of `listenState`
  unfoldable pub state_turn : Text → Socket × Auth → Turn × (Socket × Auth)
  unfolding state_frames
  state_turn msg = state_frames (frames msg)

  unfoldable pub data_on_connect : ConnectMsg → Exec Socket (Unit {0})
  data_on_connect cm =
      if cm.connect
      then wrapping "connecting to data socket failed" (connect_data gs order answers cm)
      else pure tt

  unfoldable pub data_on_subscribe : SubscribeMsg → Exec Socket (Unit {0})
  data_on_subscribe sm =
      if sm.subscribe
      then pure tt
      else if sm.content
      then if sm.unsub_all
        then wrapping "unsubscribing all data topics failed"
            (unsubscribe_all_data gs order answers sm.my_label sm.topic)
        else wrapping "unsubscribing data topic failed"
            (unsubscribe_data gs order answers sm.my_label sm.topic sm.peer)
      else pure tt

  unfoldable pub data_on_auth : AuthMsg → Exec Socket (Unit {0})
  data_on_auth am =
      if am.content
      then wrapping "setting data authentication failed"
          (set_peer_data_authn answers am.servr_pub_key)
      else pure tt

  unfoldable pub data_connect : Result ConnectMsg → Socket → Turn × Socket
  unfolding reply
  data_connect (ok cm) = reply cm.reply.content (data_on_connect cm)
  data_connect (err e) =
      reply [] (λ s. (fail "unmarshalling internal connect data message failed", s))
  data_connect panic = reply [] (λ s. (panic, s))

  unfoldable pub data_subscribe : Result SubscribeMsg → Socket → Turn × Socket
  unfolding reply
  data_subscribe (ok sm) = reply sm.reply.content (data_on_subscribe sm)
  data_subscribe (err e) =
      reply [] (λ s. (fail "unmarshalling internal subscribe message failed", s))
  data_subscribe panic = reply [] (λ s. (panic, s))

  unfoldable pub data_auth : Result AuthMsg → Socket → Turn × Socket
  unfolding reply
  data_auth (ok am) = reply am.reply.content (data_on_auth am)
  data_auth (err e) =
      reply [] (λ s. (fail "unmarshalling internal data authenticate message failed", s))
  data_auth panic = reply [] (λ s. (panic, s))

  unfoldable pub data_frames : Option (Text × Text) → Socket → Turn × Socket
  unfolding data_connect data_subscribe data_auth
  data_frames none s = (invalid, s)
  data_frames (some (topic, content)) s =
      if topic == topic_connect
      then data_connect (connects content) s
      else if topic == topic_subscribe
      then data_subscribe (subscribes content) s
      else if topic == topic_authenticate
      then data_auth (auths content) s
      else if topic == topic_term
      then (closed, s)
      else (handed topic content, s)

  -- one received message of `listenData`
  unfoldable pub data_turn : Text → Socket → Turn × Socket
  unfolding data_frames
  data_turn msg = data_frames (frames msg)
