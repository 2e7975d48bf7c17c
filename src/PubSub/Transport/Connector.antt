-- ===== src/PubSub/Transport/Connector.antt =====
-- pubsub/transport/zmq.go: the goroutine that takes the group agent's requests to the two listeners,
-- the channels for their replies, and the goroutine that publishes. A channel is a number.
use didcomm_prober.Prelude.{
  ℕ, Text, ◌==◌, Assoc, lookup, insert, Bool, true, false, Option, none, some, List, [], ◌∷◌,
  Result, ok, err, panic, wrap, ◌>>=◌, if◌then◌else◌,
}
use didcomm_prober.Domain.Messages.{Json}
use didcomm_prober.PubSub.Transport.Topics.{framed}
use didcomm_prober.PubSub.Transport.Messages.{
  ConnectMsg, SubscribeMsg, AuthMsg, PublishMsg, ReplyIds, topic_connect, topic_subscribe,
  topic_authenticate, topic_term,
}
use didcomm_prober.PubSub.Transport.Auth.{Auth, AuthStart, authenticator}

abbrev pub ReplyChans : Type 0
ReplyChans = Assoc ℕ

-- the channels of a request, for the state and for the data listener
pub record Chans : Type 0 where
  pub state : ℕ
  pub content : ℕ

unfoldable pub put_chan : Text → ℕ → ReplyChans → ReplyChans
put_chan id chan reps = if id == [] then reps else insert id chan reps

unfoldable pub add_rep_chan : ReplyIds → Chans → ReplyChans → ReplyChans
unfolding put_chan
add_rep_chan ids chans reps =
    put_chan ids.content chans.content (put_chan ids.state chans.state reps)

-- What `replyErr` comes to: a send on the channel of the id, or on a nil channel, which never ends.
unfoldable pub reply_err : Text → ReplyChans → Option ℕ
reply_err id reps = lookup id reps

-- A PUB socket: what was published, the last first, and whether it is closed.
pub record PubSocket : Type 0 where
  pub published : List Text
  pub closed : Bool

abbrev pub open_socket : PubSocket
open_socket = record { published = []; closed = false }

-- the answer of the socket to SendMessage
abbrev pub Sends : Type 0
Sends = PubSocket → Text → Result (Unit {0})

unfoldable pub sent : Text → PubSocket → Result (Unit {0}) → PubSocket
sent msg skt (ok u) = record skt { published = msg ∷ skt.published }
sent msg skt (err e) = skt
sent msg skt panic = skt

unfoldable pub send : Sends → Text → PubSocket → PubSocket
unfolding sent
send sends msg skt = sent msg skt (sends skt msg)

unfoldable pub close_socket : PubSocket → PubSocket
close_socket skt = record skt { closed = true }

pub record Connector : Type 0 where
  pub reps : ReplyChans
  pub skt : PubSocket

-- what arrives on ConChan, SubChan, AuthChan or closeChan
pub data Inbox : Type 0 where
  connecting : ConnectMsg → Chans → Inbox
  subscribing : SubscribeMsg → Chans → Inbox
  authenticating : AuthMsg → Chans → Inbox
  closing : Inbox

-- JSON of the requests
pub record ReqCodecs : Type 0 where
  pub connects : Json ConnectMsg
  pub subscribes : Json SubscribeMsg
  pub auths : Json AuthMsg

module _ (sends : Sends) where
  -- What failed is logged, and the loop goes on.
  unfoldable pub publish_request : Text → Result Text → PubSocket → PubSocket
  publish_request topic (ok content) skt = send sends (framed topic content) skt
  publish_request topic (err e) skt = skt
  publish_request topic panic skt = skt

  -- one turn of the loop of `initConnector`
  unfoldable pub connector_turn : ReqCodecs → Inbox → Connector → Connector
  unfolding publish_request
  connector_turn codecs (connecting cm chans) c = record {
    reps = add_rep_chan cm.reply chans c.reps;
    skt = publish_request topic_connect (codecs.connects.marshal cm) c.skt;
  }
  connector_turn codecs (subscribing sm chans) c = record {
    reps = add_rep_chan sm.reply chans c.reps;
    skt = publish_request topic_subscribe (codecs.subscribes.marshal sm) c.skt;
  }
  connector_turn codecs (authenticating am chans) c = record {
    reps = add_rep_chan am.reply chans c.reps;
    skt = publish_request topic_authenticate (codecs.auths.marshal am) c.skt;
  }
  connector_turn codecs closing c = record c {
    skt = close_socket (send sends topic_authenticate c.skt);
  }

  -- one turn of the loop of `publisher`: its socket, and the reply unless it was told to close
  unfoldable pub publisher_turn : PublishMsg → PubSocket → Option (Result (Unit {0})) × PubSocket
  publisher_turn pm skt = if pm.topic == topic_term then (none, close_socket skt) else (
    some (wrap "publishing message failed" (sends skt (framed pm.topic pm.content))),
    send sends (framed pm.topic pm.content) skt,
  )

-- What NewZmqTransport makes, and the sockets of its goroutines.
pub record Zmq : Type 0 where
  pub auth : Auth
  pub auth_runs : Bool
  pub connector : Connector
  pub pub_skt : PubSocket

unfoldable pub new_zmq_transport :
    AuthStart → Result (Text × Text) → Result (Text × Text) → Text → Result Zmq
new_zmq_transport started servr client name = do
  a ← wrap "initializing zmq authenticator failed" (authenticator started servr client name)
  ok (record {
    auth = a;
    auth_runs = true;
    connector = record { reps = []; skt = open_socket };
    pub_skt = open_socket;
  })

-- `Close`, with the turns that it sets off
unfoldable pub close : Sends → Sends → ReqCodecs → Zmq → Zmq
close sends pub_sends codecs z = record z {
  auth_runs = false;
  connector = connector_turn sends codecs closing z.connector;
  pub_skt = (publisher_turn pub_sends (record { topic = topic_term; content = [] }) z.pub_skt).1;
}
