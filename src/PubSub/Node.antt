-- ===== src/PubSub/Node.antt =====
-- pubsub/agent.go and pubsub/packer.go: what the group agent keeps, what it calls, and how it packs a
-- message for a peer.
pub mod Keeping
use didcomm_prober.Prelude.{
  ℕ, Text, Assoc, Bool, Option, none, some, List, ◌∷◌, Result, ok, err, panic, wrap, ◌>>=◌,
}
use didcomm_prober.Prelude.Int.{ℤ}
use didcomm_prober.Prelude.Exec.{Exec}
use didcomm_prober.Domain.{Member, Peer, MsgType, servc_group_join}
use didcomm_prober.Domain.Messages.{Json}
use didcomm_prober.Domain.GroupMessages.{
  Subscribe, ResSubscribe, Status, ReqGroupJoin, ResGroupJoin,
}
use didcomm_prober.Crypto.Keys.{Keys, public_key, private_key}
use didcomm_prober.Crypto.Packer
use didcomm_prober.Crypto.Packer.{Random}
use didcomm_prober.Prober.Agent.{Prober, Env, Fresh}
use didcomm_prober.Prober.Agent.Services.{sync_service}
use didcomm_prober.PubSub.Stores.Group
use didcomm_prober.PubSub.Stores.Subscriber
use didcomm_prober.PubSub.Stores.Subscriber.{SubKey}
use didcomm_prober.PubSub.Syncer.{Syncer, GroupMsg}
use didcomm_prober.PubSub.Validator.{Digest}
use didcomm_prober.PubSub.Transport.Messages.{ConnectMsg, SubscribeMsg, AuthMsg, ReplyIds}
use didcomm_prober.PubSub.Transport.Sockets.{Answers}
use didcomm_prober.PubSub.Transport.Listeners
use didcomm_prober.PubSub.Transport.Requests.{Sockets, send_connect, send_subscribe, send_auth}

pub record Node : Type 0 where
  pub my_label : Text
  pub pub_endpoint : Text
  pub invs : Assoc Text
  pub prober : Prober
  pub gs : Group.Store
  pub subs : Subscriber.Store
  pub syncr : Syncer
  -- the endpoints of transport.Peers
  pub connected : Assoc Bool
  pub sockets : Sockets
  -- what the PUB socket sent, and what was sent on the reply channels, the last first
  pub published : List (Text × Text)
  pub replies : List Text

-- What the goroutine of a call waits for.
pub data Wait : Type 0 where
  acceptance : Text → Wait
  peers : Wait
  acks : Wait

-- What the group agent calls and does not implement, the orders in which maps are visited, and what
-- the other goroutines have made of the node by the end of a wait.
pub record GroupEnv : Type 0 where
  pub agent : Env
  pub digest : Digest
  pub subscribes : Json Subscribe
  pub sub_results : Json ResSubscribe
  pub statuses : Json Status
  pub join_requests : Json ReqGroupJoin
  pub join_results : Json ResGroupJoin
  pub members : Json Member
  pub group_msgs : Json GroupMsg
  pub compress : Text → Text
  pub decompress : Text → Result Text
  pub state_answers : Answers
  pub content_answers : Answers
  pub connects : Text → Result ConnectMsg
  pub sub_requests : Text → Result SubscribeMsg
  pub auths : Text → Result AuthMsg
  -- the PUB socket's SendMessage
  pub publish : Text → Text → Result (Unit {0})
  -- Send of the request client, for the messages that are answered
  pub ask : MsgType → Text → Text → Result Text
  pub range_members : List Member → List Member
  pub range_keys : List (Text × Keys) → List (Text × Keys)
  pub range_peers : List (Text × Peer) → List (Text × Peer)
  pub range_texts : List (Text × Text) → List (Text × Text)
  pub range_subs : SubKey → SubKey
  pub range_sets : List (Text × List Text) → List (Text × List Text)
  -- the packer's random values, for the message to a receiver
  pub draw : Text → Random
  pub uuid : Text
  -- what an invitation draws, and the DID exchange with a peer
  pub fresh : Text → Fresh
  -- what SyncService sees of the prober until its timeout
  pub looks : Prober → List Prober
  -- the clock
  pub now : ℤ
  -- the query parameter `oob` of an invitation's URL
  pub oob_of : Text → Result (Option Text)
  -- how often the hello message is sent at most
  pub tries : ℕ
  pub ids : ReplyIds
  pub others : Wait → Node → Node

-- the listeners, on the group store of the node
abbrev pub listener : GroupEnv → Answers → Node → Listeners.Node
listener e answers n = record {
  gs = n.gs;
  order = e.range_members;
  answers = answers;
  connects = e.connects;
  subscribes = e.sub_requests;
  auths = e.auths;
}

-- a method of one part of the node
abbrev pub on_gs : {A : Type 0} → Exec Group.Store A → Exec Node A
on_gs m n = ((m n.gs).0, record n { gs = (m n.gs).1 })

abbrev pub on_syncr : {A : Type 0} → Exec Syncer A → Exec Node A
on_syncr m n = ((m n.syncr).0, record n { syncr = (m n.syncr).1 })

abbrev pub on_prober : {A : Type 0} → Exec Prober A → Exec Node A
on_prober m n = ((m n.prober).0, record n { prober = (m n.prober).1 })

abbrev pub on_sockets : {A : Type 0} → Exec Sockets A → Exec Node A
on_sockets m n = ((m n.sockets).0, record n { sockets = (m n.sockets).1 })

abbrev pub modify : (Node → Node) → Exec Node (Unit {0})
modify f n = (ok tt, f n)

-- `msg.Reply <- packedMsg`
abbrev pub reply_with : Text → Exec Node (Unit {0})
reply_with t = modify (λ n. record n { replies = t ∷ n.replies })

module _ (e : GroupEnv) where
  -- The receiver's key is looked up where none is given.
  receiver_key : Text → Option Text → Node → Result Text
  receiver_key receiver (some key) n = ok key
  receiver_key receiver none n = do
    s ←
        wrap "fetching service info failed"
          (sync_service servc_group_join receiver (e.looks n.prober))
    ok s.pub_key

  unfoldable pub pack : Text → Option Text → Text → Node → Result Text
  unfolding receiver_key
  pack receiver rec_pub_key msg n = do
    key ← receiver_key receiver rec_pub_key n
    own_pub ← wrap "getting public key for connection failed" (public_key receiver n.prober.ks)
    own_prv ← wrap "getting private key for connection failed" (private_key receiver n.prober.ks)
    encrypted ←
        wrap "packing error" (Packer.pack e.agent.libs (e.draw receiver) msg key own_pub own_prv)
    wrap "marshalling packed message failed" (e.agent.libs.msgs.marshal encrypted)

  unfoldable pub sent_publish : Text → Text → Result (Unit {0}) → Exec Node (Unit {0})
  sent_publish topic content (ok u) n =
      (ok tt, record n { published = (topic, content) ∷ n.published })
  sent_publish topic content (err e) n =
      (err ("zmq publish failed" ∷ "publishing message failed" ∷ e), n)
  sent_publish topic content panic n = (panic, n)

  unfoldable pub send_publish : Text → Text → Exec Node (Unit {0})
  unfolding sent_publish
  send_publish topic content = sent_publish topic content (e.publish topic content)

  unfoldable pub connect_node : ConnectMsg → Exec Node (Unit {0})
  connect_node cm n =
      on_sockets (send_connect (listener e e.state_answers n) (listener e e.content_answers n) cm) n

  unfoldable pub subscribe_node : SubscribeMsg → Exec Node (Unit {0})
  subscribe_node sm n =
      on_sockets (send_subscribe (listener e e.state_answers n) (listener e e.content_answers n) sm)
        n

  unfoldable pub auth_node : AuthMsg → Exec Node (Unit {0})
  auth_node am n =
      on_sockets (send_auth (listener e e.state_answers n) (listener e e.content_answers n) am) n
