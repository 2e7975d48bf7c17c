-- ===== src/Examples/Deliveries.antt =====
-- Runs of the two publishing goroutines of the transport.
use didcomm_prober.Prelude.{
  ◌≡◌, ◌≢◌, panic, Text, refl, str, ◌==◌, ◌∷◌, lookup, true, some, [], ok, fail, arith,
}
use didcomm_prober.Domain.{publisher}
use didcomm_prober.PubSub.Transport.Messages.{
  ConnectMsg, PublishMsg, topic_connect, topic_authenticate,
}
use didcomm_prober.PubSub.Transport.Topics.{framed}
use didcomm_prober.PubSub.Transport.Auth.{Auth}
use didcomm_prober.PubSub.Transport.Listeners.{Node, invalid, handed, state_turn, data_turn}
use didcomm_prober.PubSub.Transport.Connector.{
  Sends, open_socket, Connector, Inbox, connecting, ReqCodecs, connector_turn, publisher_turn,
  reply_err, publish_request, send, sent, close_socket,
}
use didcomm_prober.PubSub.Transport.Published.{close_ignored, publish-handed}
use didcomm_prober.PubSub.Transport.Delivered.{
  RepliesOn, IsCalm, group_of, asked, IsHeard, request-answered,
}
use didcomm_prober.Examples.Nodes.{chess_group}
use didcomm_prober.PubSub.Stores.Group.{mode}
use didcomm_prober.Examples.{in_order, alice, bob, chess, member}

abbrev request : ConnectMsg
request = record {
  connect = true;
  initiator = record { role = publisher; label = alice };
  topic = chess;
  peer = member bob;
  reply = record { state = str "s"; content = str "c" };
}

abbrev codecs : ReqCodecs
codecs = record {
  connects = record { marshal = λ m. ok m.topic; unmarshal = λ t. ok request };
  subscribes = record { marshal = λ m. ok m.topic; unmarshal = λ t. fail "not a request" };
  auths = record { marshal = λ m. ok m.label; unmarshal = λ t. fail "not a request" };
}

abbrev node : Node
node = record {
  gs = (chess, chess_group) ∷ [];
  order = in_order;
  answers = λ s c. ok tt;
  connects = codecs.connects.unmarshal;
  subscribes = codecs.subscribes.unmarshal;
  auths = codecs.auths.unmarshal;
}

abbrev auth : Auth
auth = record {
  id = alice;
  servr_pub = [];
  servr_prvt = [];
  client_pub = [];
  client_prvt = [];
  keys = [];
  allowed = [];
}

abbrev takes_all : Sends
takes_all skt t = ok tt

abbrev idle : Connector
idle = record { reps = []; skt = open_socket }

abbrev inbox : Inbox
inbox = connecting request (record { state = 1; content = 2 })

known_mode : (topic : Text) → some chess ≡ some topic → mode topic node.gs ≢ panic
unfolding mode lookup ◌==◌
known_mode topic is h = let same : chess ≡ topic = cc in ground (arith, same, h)

node-IsCalm : IsCalm node inbox
unfolding group_of
node-IsCalm = record { answers_calm = λ s c h. cc; known = λ topic is. known_mode topic is }

request-answered_example :
    RepliesOn (str "s") (state_turn node (framed topic_connect chess) ([], auth)).0
    × RepliesOn (str "c") (data_turn node (framed topic_connect chess) []).0
    × (reply_err (str "s") (connector_turn takes_all codecs inbox idle).reps ≡ some 1)
    × (reply_err (str "c") (connector_turn takes_all codecs inbox idle).reps ≡ some 2)
unfolding asked IsHeard connector_turn publish_request send sent
request-answered_example =
    request-answered takes_all codecs node node inbox request.reply
      (record { state = 1; content = 2 }) idle (framed topic_connect chess) ([], auth) [] refl
      (λ t h. refl) (λ t h. refl) node-IsCalm node-IsCalm refl (λ h. ground arith)
      (λ h. ground arith) (λ h. ground arith)

close_ignored_example :
    (state_turn node topic_authenticate ([], auth) ≡ (invalid, ([], auth)))
    × (data_turn node topic_authenticate [] ≡ (invalid, []))
unfolding connector_turn send sent close_socket
close_ignored_example =
    close_ignored takes_all codecs node node idle topic_authenticate ([], auth) [] refl

abbrev news : PublishMsg
news = record { topic = chess; content = str "e4 e5" }

publish-handed_example :
    ((publisher_turn takes_all news open_socket).0 ≡ some (ok tt))
    × (state_turn node (framed chess (str "e4 e5")) ([], auth)
        ≡ (handed chess (str "e4 e5"), ([], auth)))
    × (data_turn node (framed chess (str "e4 e5")) [] ≡ (handed chess (str "e4 e5"), []))
unfolding publisher_turn send sent ◌==◌
publish-handed_example =
    publish-handed takes_all node node news open_socket (framed chess (str "e4 e5")) ([], auth) []
      refl (ground arith) (λ h. ground arith) (λ h. ground arith) (λ h. ground arith)
