-- ===== src/PubSub/Transport/Sockets.antt =====
-- pubsub/transport/zmq.go: what the listeners do with their SUB sockets. A socket is the list of the
-- calls that it accepted, the last one first; what it answers to a call is an argument.
pub mod Counting
use didcomm_prober.Prelude.{
  ℕ, suc, Text, ◌==◌, Bool, true, false, List, [], ◌∷◌, ltb, length, Result, ok, err, panic, fail,
  wrap, if◌then◌else◌,
}
use didcomm_prober.Prelude.Exec.{Exec, pure, lift, wrapping, ◌>>=◌, ◌>>◌}
use Prim.Native.String.{String}
use didcomm_prober.Domain.{Member, Role, publisher, subscriber, null}
use didcomm_prober.PubSub.Stores.Group.{Store, membrs}
use didcomm_prober.PubSub.Transport.Topics.{data_topic, state_topic}
use didcomm_prober.PubSub.Transport.Messages.{ConnectMsg}

pub data Call : Type 0 where
  connect disconnect subscribe unsubscribe : Text → Call
  -- ClientAuthCurve with the server's key
  client_auth : Text → Call

abbrev pub Socket : Type 0
Socket = List Call

abbrev pub Answers : Type 0
Answers = Socket → Call → Result (Unit {0})

unfoldable pub accepted : Call → Socket → Result (Unit {0}) → Result (Unit {0}) × Socket
accepted c s (ok u) = (ok tt, c ∷ s)
accepted c s (err e) = (err e, s)
accepted c s panic = (panic, s)

-- `skt.M(x)` with `if err != nil { return fmt.Errorf(m + " - %v", err) }`
unfoldable pub call : Answers → String → Call → Exec Socket (Unit {0})
unfolding accepted
call answers m c s = accepted c s (wrap m (answers s c))

-- the group store, the order of the range over a group's members, and the socket's answers
module _ (gs : Store) (order : List Member → List Member) (answers : Answers) where
  unfoldable pub topic_exists : Text → Bool
  topic_exists topic = if ltb (length (membrs order topic gs)) 2 then false else true

  unfoldable pub subscribe_status : Text → Exec Socket (Unit {0})
  unfolding topic_exists
  subscribe_status topic =
      if topic_exists topic
      then pure tt
      else call answers "setting zmq subscription failed for topic" (subscribe (state_topic topic))

  unfoldable pub connect_state : ConnectMsg → Exec Socket (Unit {0})
  unfolding subscribe_status
  connect_state cm = do
    call answers "connecting to publisher state socket failed" (connect cm.peer.pub_endpoint)
    wrapping "subscribing to status topic failed" (subscribe_status cm.topic)

  unfoldable pub subscribe_data : Text → Text → Text → Exec Socket (Unit {0})
  subscribe_data topic pub_label sub_label = do
    dt ← lift (data_topic gs topic pub_label sub_label)
    call answers "setting zmq subscription failed for topic" (subscribe dt)

  -- the publisher and the subscriber of a connection
  unfoldable pub ends : Role → Text → Text → Result (Text × Text)
  ends publisher initiator peer = ok (initiator, peer)
  ends subscriber initiator peer = ok (peer, initiator)
  ends null initiator peer = fail "incompatible role for initiator of the connection"

  unfoldable pub connect_data : ConnectMsg → Exec Socket (Unit {0})
  unfolding subscribe_data ends
  connect_data cm =
      if cm.peer.publisher
      then (do
        call answers "connecting to publisher message socket failed" (connect cm.peer.pub_endpoint)
        (pub_label, sub_label) ← lift (ends cm.initiator.role cm.initiator.label cm.peer.label)
        wrapping "subscribing data failed" (subscribe_data cm.topic pub_label sub_label))
      else pure tt

  -- the loop of `unsubscribeAllData`
  unfoldable pub unsubscribe_each : Text → Text → List Member → Exec Socket (Unit {0})
  unsubscribe_each label topic [] = pure tt
  unsubscribe_each label topic (m ∷ ms) =
      let rest = unsubscribe_each label topic ms in
      if m.label == label
      then rest
      else if m.publisher
      then (do
        dt ← lift (data_topic gs topic m.label label)
        call answers "unsubscribing via zmq socket failed" (unsubscribe dt)
        call answers "disconnecting data endpoint failed" (disconnect m.pub_endpoint)
        rest)
      else rest

  unfoldable pub unsubscribe_all_data : Text → Text → Exec Socket (Unit {0})
  unfolding unsubscribe_each
  unsubscribe_all_data label topic = unsubscribe_each label topic (membrs order topic gs)

  -- the loop of `unsubscribeState`
  unfoldable pub disconnect_each : Text → List Member → Exec Socket (Unit {0})
  disconnect_each label [] = pure tt
  disconnect_each label (m ∷ ms) =
      let rest = disconnect_each label ms in
      if m.label == label
      then rest
      else (do call answers "disconnecting state endpoint failed" (disconnect m.pub_endpoint); rest)

  unfoldable pub unsubscribe_state : Text → Text → Exec Socket (Unit {0})
  unfolding disconnect_each
  unsubscribe_state label topic = do
    call answers "unsubscribing via zmq socket failed" (unsubscribe (state_topic topic))
    disconnect_each label (membrs order topic gs)

  unfoldable pub unsubscribe_data : Text → Text → Member → Exec Socket (Unit {0})
  unsubscribe_data label topic m = do
    dt ← lift (data_topic gs topic m.label label)
    call answers "unsubscribing via zmq socket failed" (unsubscribe dt)
    call answers "disconnecting data endpoint failed" (disconnect m.pub_endpoint)

  unfoldable pub disconnect_status : Text → Exec Socket (Unit {0})
  disconnect_status endpoint =
      call answers "disconnecting state endpoint failed" (disconnect endpoint)
